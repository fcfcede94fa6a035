-- ===== src/Server/Session/Progress.antt =====
-- What `handle_client` has done at each place: the complete lines that it has taken out are answered.
use cs2640_final_project.Prelude.{
  ℕ, zero, suc, take-append-drop, ◌+◌, ◌≤◌, ◌<◌, ◌≡◌, refl, sym, ap, ◌∙◌, Bool, true, false, List,
  [], ◌∷◌, ◌++◌, ltb, arith, append_assoc, append-nil, if◌then◌else◌, take, drop, length, All,
  All-append, Bool-cases, Option-cases, inl, inr, Bytes,
}
use native.Mathlib.Nat.{zero-add}
use cs2640_final_project.KvStore.{KeyValueStore}
use cs2640_final_project.Protocol.{find}
use cs2640_final_project.Protocol.Find.{has, find-eq-none, find-eq-some}
use cs2640_final_project.Protocol.Serialize.{serialize_response_pos}
use cs2640_final_project.Server.{Outcome, serve_line}
use cs2640_final_project.Server.Session.{
  Place, receiving, sending, await_writable, await_readable, closed, Session, Event, next_line,
  send_rest, step_at, step, Allowed, chunk_of, received, end_of_file, recv_interrupted,
  recv_would_block, recv_failed, accepted, send_interrupted, send_would_block, send_failed, resumed,
}
use cs2640_final_project.Server.Session.Lines.{respond, join, outcome, join-append, respond-append}

-- The answers `o` to the lines taken out so far, compared with what is sent and what the session holds.
abbrev pub Answered : Place → Outcome → Bytes → KeyValueStore → Bytes → Type 0
Answered receiving o sent store inbound = o ≡ outcome sent store false
Answered (sending out offset ends) o sent store inbound =
    (offset < length out) × (o ≡ outcome (sent ++ drop offset out) store ends)
Answered (await_writable out offset ends) o sent store inbound =
    (offset < length out) × (o ≡ outcome (sent ++ drop offset out) store ends)
Answered await_readable o sent store inbound =
    (o ≡ outcome sent store false) × (has 10 inbound ≡ false)
Answered closed o sent store inbound =
    (rest : Bytes) × (ends : Bool) × (o ≡ outcome (sent ++ rest) store ends)

-- `lines` are the lines taken out of `input`; none of them holds a newline.
pub record Progress (start : KeyValueStore) (input : Bytes) (s : Session) : Type 0 where
  pub lines : List Bytes
  pub whole : All (λ l. has 10 l ≡ false) lines
  pub split : input ≡ join lines ++ s.inbound
  pub answered : Answered s.place (respond start lines) s.sent s.store s.inbound

pub take-drop_regroup : (n : ℕ) (xs ys : Bytes) → (xs ++ take n ys) ++ drop n ys ≡ xs ++ ys
take-drop_regroup n xs ys = rw (append_assoc, take-append-drop)

drop-nil : (n : ℕ) → drop {A = ℕ} n [] ≡ []
drop-nil zero = refl
drop-nil (suc n) = refl

pub drop-drop : (n m : ℕ) (xs : Bytes) → drop n (drop m xs) ≡ drop (m + n) xs
drop-drop n zero xs = rw zero-add
drop-drop n (suc m) [] = drop-nil n ∙ sym (drop-nil (suc m + n))
drop-drop n (suc m) (x ∷ xs) =
    let e : suc (m + n) ≡ suc m + n = omega arith in drop-drop n m xs ∙ ap (λ i. drop i (x ∷ xs)) e

pub drop_all : (n : ℕ) (xs : Bytes) → length xs ≤ n → drop n xs ≡ []
drop_all zero [] h = refl
drop_all zero (x ∷ xs) h = absurd (omega arith)
drop_all (suc n) [] h = refl
drop_all (suc n) (x ∷ xs) h = drop_all n xs (omega arith)

pub join_snoc :
    (lines : List Bytes) (l rest : Bytes)
    → join (lines ++ l ∷ []) ++ rest ≡ join lines ++ (l ++ 10 ∷ rest)
join_snoc lines l rest = rw (join-append, append_assoc, append_assoc)

module _ (start : KeyValueStore) (input : Bytes) where
  -- the loop over the lines, when all that was taken out is answered
  next_line-Progress :
      (s : Session) (lines : List Bytes)
      → All (λ l. has 10 l ≡ false) lines
      → input ≡ join lines ++ s.inbound
      → respond start lines ≡ outcome s.sent s.store false
      → Progress start input (next_line s)
  unfolding next_line serve_line
  next_line-Progress s lines w p a = elim (Option-cases (find 10 s.inbound)) [
    | inl e ↦
        rw (e, next_line)
          (record {
            lines = lines;
            whole = w;
            split = p;
            answered = (a, find-eq-none 10 s.inbound e);
          })
    | inr (n, e) ↦
        let (clean, cut) = find-eq-some 10 s.inbound n e in
        let l : Bytes = take n s.inbound in
        rw (e, next_line)
          (record {
            lines = lines ++ l ∷ [];
            whole = All-append _ lines (l ∷ []) w (clean, tt);
            split = p ∙ ap (λ b. join lines ++ b) cut ∙ sym (join_snoc lines l _);
            answered = (serialize_response_pos _, respond-append start lines l s.sent s.store a);
          })
  ]

  -- after `accepted n`: more of the response, the next line, or the end
  send_rest-Progress :
      (out : Bytes) (offset : ℕ) (ends : Bool) (s : Session) (lines : List Bytes)
      → All (λ l. has 10 l ≡ false) lines
      → input ≡ join lines ++ s.inbound
      → respond start lines ≡ outcome (s.sent ++ drop offset out) s.store ends
      → Progress start input (send_rest out offset ends s)
  unfolding send_rest
  send_rest-Progress out offset ends s lines w p a = elim (Bool-cases (ltb offset (length out))) [
    | inl more ↦
        rw more (record { lines = lines; whole = w; split = p; answered = (ground arith, a) })
    | inr done ↦
        let nothing : drop offset out ≡ [] = drop_all offset out (ground arith) in
        let a' : respond start lines ≡ outcome s.sent s.store ends = a ∙ rw (nothing, append-nil) in
        rw done (go ends a')
  ]
    where
      go :
          (e : Bool)
          → respond start lines ≡ outcome s.sent s.store e
          → Progress start input (if e then record s { place = closed } else next_line s)
      go true h = record {
        lines = lines;
        whole = w;
        split = p;
        answered = ([], true, h ∙ rw append-nil);
      }
      go false h = next_line-Progress s lines w p h

module _ (start : KeyValueStore) (input : Bytes) where
  pub step-Progress :
      (s : Session) (event : Event)
      → Progress start input s
      → Allowed s.place event
      → Progress start (input ++ chunk_of event) (step s event)
  unfolding step
  step-Progress s event h ok = go s.place event refl h.answered ok
    where
      kept : input ++ [] ≡ join h.lines ++ s.inbound
      kept = append-nil input ∙ h.split

      -- the event changes the place and no more
      moved :
          (place : Place)
          → Answered place (respond start h.lines) s.sent s.store s.inbound
          → Progress start (input ++ []) (record s { place = place })
      moved place a = record { lines = h.lines; whole = h.whole; split = kept; answered = a }

      stays : Progress start (input ++ []) s
      stays = record { lines = h.lines; whole = h.whole; split = kept; answered = h.answered }

      go :
          (place : Place) (ev : Event)
          → s.place ≡ place
          → Answered place (respond start h.lines) s.sent s.store s.inbound
          → Allowed place ev
          → Progress start (input ++ chunk_of ev) (step_at place ev s)
      go receiving (received chunk) e a k = record {
        lines = h.lines;
        whole = h.whole;
        split = ap (λ b. b ++ chunk) h.split ∙ append_assoc (join h.lines) s.inbound chunk;
        answered = rw e a;
      }
      go receiving end_of_file e a k = moved closed ([], false, a ∙ rw append-nil)
      go receiving recv_interrupted e a k = stays
      go receiving recv_would_block e a k =
          next_line-Progress start (input ++ []) s h.lines h.whole kept a
      go receiving recv_failed e a k = moved closed ([], false, a ∙ rw append-nil)
      go (sending out offset ends) (accepted n) e a k =
          send_rest-Progress start (input ++ []) out (offset + n) ends
            (record s { sent = s.sent ++ take n (drop offset out) }) h.lines h.whole kept
            (a.1 ∙ rw (← drop-drop n offset out, take-drop_regroup))
      go (sending out offset ends) send_interrupted e a k = stays
      go (sending out offset ends) send_would_block e a k = moved (await_writable out offset ends) a
      go (sending out offset ends) send_failed e a k = moved closed (drop offset out, ends, a.1)
      go (await_writable out offset ends) resumed e a k = moved (sending out offset ends) a
      go await_readable resumed e a k = moved receiving a.0
      go place ev e a k = absurd k
