-- ===== src/Server/Session/Framing.antt =====
-- One response line for each request line, so that a client that sends ahead can match them up.
use cs2640_final_project.Prelude.{
  suc, ◌≡◌, refl, ◌∙◌, ap, false, some, List, [], ◌∷◌, ◌++◌, arith, length, All, nat_eq, list_eq,
  append_assoc, Bool-cases, inl, inr, Option-cases, Bytes,
}
use cs2640_final_project.Assoc.{lookup, lookup-insert, lookup-without}
use cs2640_final_project.KvStore
use cs2640_final_project.KvStore.{KeyValueStore}
use cs2640_final_project.Protocol.{
  RequestType, Request, get, set, del, quit, invalid, parse_request,
}
use cs2640_final_project.Protocol.Clean.{IsClean, CleanRequest, parse_request-CleanRequest}
use cs2640_final_project.Protocol.Serialize.{serialize_response_line}
use cs2640_final_project.Server.{handle_by, handle_request, serve_line}
use cs2640_final_project.Server.Session.Lines.{respond}
use cs2640_final_project.Server.Session.Answers.{lines_of, lines_of_line}

-- no stored value holds a newline
abbrev pub CleanStore : KeyValueStore → Type 0
CleanStore s = (k v : Bytes) → lookup k s.entries ≡ some v → IsClean v

handle_by-IsClean :
    (t : RequestType) (s : KeyValueStore) (r : Request)
    → CleanStore s
    → CleanRequest r
    → CleanStore (handle_by t s r).1 × IsClean (handle_by t s r).0.payload
unfolding handle_by KvStore.get KvStore.set KvStore.erase
handle_by-IsClean get s r h c = elim (Option-cases (lookup r.key s.entries)) [
  | inl e ↦ (h, rw e refl)
  | inr (v, e) ↦ (h, rw e (h r.key v e))
]
handle_by-IsClean set s r h c =
    (λ k v e. ground (arith, lookup-insert r.key k r.value s.entries, h k v, c.value), refl)
handle_by-IsClean del s r h c =
    (λ k v e. ground (arith, lookup-without r.key k s.entries, h k v), ground arith)
handle_by-IsClean quit s r h c = (h, refl)
handle_by-IsClean invalid s r h c = (h, c.error)

-- what a line leaves: a clean store, and one line of output
serve_line-IsClean :
    (s : KeyValueStore) (line : Bytes)
    → CleanStore s
    → IsClean line
    → CleanStore (serve_line s line).store
      × ((text : Bytes) × ((serve_line s line).output ≡ text ++ 10 ∷ []) × IsClean text)
unfolding serve_line handle_request
serve_line-IsClean s line h c =
    let r = parse_request line in
    let (kept, payload) = handle_by-IsClean r.type s r h (parse_request-CleanRequest line c) in
    (kept, serialize_response_line (handle_by r.type s r).0 payload)

-- From a store without newlines in its values, request lines that do not end the session are answered
-- by as many lines as they are.
pub respond_framing :
    (store : KeyValueStore) (ls : List Bytes)
    → CleanStore store
    → All IsClean ls
    → (respond store ls).ends ≡ false
    → length (lines_of (respond store ls).output) ≡ length ls
unfolding respond lines_of
respond_framing store [] h c e = refl
respond_framing store (l ∷ ls) h c e = elim (Bool-cases (serve_line store l).ends) [
  | inl stop ↦ cc (rw stop at e)
  | inr goes ↦
      let (kept, (text, out, clean)) = serve_line-IsClean store l h c.0 in
      let o = serve_line store l in
      let r = respond o.store ls in
      let one : lines_of (o.output ++ r.output) ≡ text ∷ lines_of r.output =
        ap (λ b. lines_of (b ++ r.output)) out
        ∙ ap lines_of (append_assoc text (10 ∷ []) r.output)
        ∙ lines_of_line text r.output clean in
      rw goes (rw one (ap suc (respond_framing o.store ls kept c.1 (rw goes at e))))
]
