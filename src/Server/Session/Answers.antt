-- ===== src/Server/Session/Answers.antt =====
-- What a client of `handle_client` sees: the answers to the lines that it sent, in order, however the
-- kernel cuts the bytes up.
use cs2640_final_project.Prelude.{
  ℕ, ◌≡◌, refl, sym, ap, ◌∙◌, false, List, [], ◌∷◌, ◌++◌, arith, append_assoc, append-nil, ◌==◌,
  nat_eq, Bool-cases, inl, inr, if◌then◌else◌, All, Bytes,
}
use cs2640_final_project.KvStore.{KeyValueStore}
use cs2640_final_project.Protocol.Find.{has}
use cs2640_final_project.Server.{Outcome, serve_line}
use cs2640_final_project.Server.Session.{
  Place, receiving, sending, await_writable, await_readable, closed, Session, Reaches, begin, next,
}
use cs2640_final_project.Server.Session.Lines.{respond, join, outcome}
use cs2640_final_project.Server.Session.Progress.{Progress, Answered, step-Progress}

-- The complete lines of a text; what stands behind the last newline is no line yet.
abbrev pub prepend : ℕ → List Bytes → List Bytes
prepend c [] = []
prepend c (l ∷ ls) = (c ∷ l) ∷ ls

unfoldable pub lines_of : Bytes → List Bytes
lines_of [] = []
lines_of (c ∷ cs) = let rest = lines_of cs in if c == 10 then [] ∷ rest else prepend c rest

pub lines_of_line :
    (l rest : Bytes) → has 10 l ≡ false → lines_of (l ++ 10 ∷ rest) ≡ l ∷ lines_of rest
unfolding lines_of
lines_of_line [] rest h = refl
lines_of_line (c ∷ l) rest h = ground (arith, lines_of_line l rest)

pub lines_of_part : (xs : Bytes) → has 10 xs ≡ false → lines_of xs ≡ []
unfolding lines_of
lines_of_part [] h = refl
lines_of_part (c ∷ cs) h = ground (arith, lines_of_part cs)

pub lines_of-join :
    (ls : List Bytes) (rest : Bytes)
    → All (λ l. has 10 l ≡ false) ls
    → lines_of (join ls ++ rest) ≡ ls ++ lines_of rest
unfolding join
lines_of-join [] rest h = refl
lines_of-join (l ∷ ls) rest h =
    rw (append_assoc, lines_of_line l (join ls ++ rest) h.0, lines_of-join ls rest h.1)

pub Reaches-Progress :
    {store : KeyValueStore} {input : Bytes} {s : Session}
    → Reaches store input s
    → Progress store input s
unfolding join respond
Reaches-Progress begin = record { lines = []; whole = tt; split = refl; answered = refl }
Reaches-Progress {store} (next {input = i} {s = s} event r k) =
    step-Progress store i s event (Reaches-Progress r) k

-- A session that waits for more input has answered every complete line that it received: what it sent
-- and the store it left are those of the lines in order, and none of them ended the session.
pub await_readable-respond :
    {store : KeyValueStore} {input : Bytes} {s : Session}
    → Reaches store input s
    → s.place ≡ await_readable
    → respond store (lines_of input) ≡ outcome s.sent s.store false
await_readable-respond {store} {input} {s} r e =
    let h = Reaches-Progress r in
    let (done, clean) = waiting h in
    ap (λ i. respond store (lines_of i)) h.split
    ∙ ap (respond store)
        (lines_of-join h.lines s.inbound h.whole ∙ rw (lines_of_part s.inbound clean, append-nil))
    ∙ done
  where
    waiting :
        (h : Progress store input s)
        → (respond store h.lines ≡ outcome s.sent s.store false) × (has 10 s.inbound ≡ false)
    waiting h = rw e at h.answered

pub respond_prefix :
    (store : KeyValueStore) (ls ms : List Bytes)
    → (rest : Bytes) × ((respond store (ls ++ ms)).output ≡ (respond store ls).output ++ rest)
unfolding respond
respond_prefix store [] ms = ((respond store ms).output, refl)
respond_prefix store (l ∷ ls) ms =
    let o = serve_line store l in
    let (rest, e) = respond_prefix o.store ls ms in
    elim (Bool-cases o.ends) [
      | inl h ↦ ([], rw h (sym (append-nil o.output)))
      | inr h ↦ (rest, rw h (ap (λ b. o.output ++ b) e ∙ sym (append_assoc o.output _ rest)))
    ]

sent_prefix :
    (place : Place) (o : Outcome) (sent : Bytes) (store : KeyValueStore) (inbound : Bytes)
    → Answered place o sent store inbound
    → (rest : Bytes) × (o.output ≡ sent ++ rest)
sent_prefix receiving o sent store inbound h = ([], rw h (sym (append-nil sent)))
sent_prefix (sending out n ends) o sent store inbound h = (_, ap (λ (p : Outcome). p.output) h.1)
sent_prefix (await_writable out n ends) o sent store inbound h =
    (_, ap (λ (p : Outcome). p.output) h.1)
sent_prefix await_readable o sent store inbound h = ([], rw h.0 (sym (append-nil sent)))
sent_prefix closed o sent store inbound h = (h.0, ap (λ (p : Outcome). p.output) h.2)

-- At every moment, and after any failure, what the session has sent is the start of the answers to
-- the lines received: nothing is sent twice, out of order, or for a line that is not complete.
pub sent-prefix :
    {store : KeyValueStore} {input : Bytes} {s : Session}
    → Reaches store input s
    → (rest : Bytes) × ((respond store (lines_of input)).output ≡ s.sent ++ rest)
sent-prefix {store} {input} {s} r =
    let h = Reaches-Progress r in
    let (more, e) =
      sent_prefix s.place (respond store h.lines) s.sent s.store s.inbound h.answered in
    let (later, f) = respond_prefix store h.lines (lines_of s.inbound) in
    let g : lines_of input ≡ h.lines ++ lines_of s.inbound =
      ap lines_of h.split ∙ lines_of-join h.lines s.inbound h.whole in
    (
      more ++ later,
      ap (λ ls. (respond store ls).output) g
          ∙ f
          ∙ ap (λ b. b ++ later) e
          ∙ append_assoc s.sent more later,
    )
