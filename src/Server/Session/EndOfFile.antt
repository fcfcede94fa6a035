-- ===== src/Server/Session/EndOfFile.antt =====
-- What happens to requests that arrive together with the end of the stream.
use cs2640_final_project.Prelude.{
  ◌<◌, ◌≡◌, refl, sym, ap, ◌∙◌, false, List, [], ◌∷◌, ◌++◌, arith, length, length-append,
  append_assoc, Bytes,
}
use cs2640_final_project.KvStore.{KeyValueStore}
use cs2640_final_project.Protocol.Serialize.{serialize_response_pos}
use cs2640_final_project.Server.{serve_line}
use cs2640_final_project.Server.Session.{
  receiving, closed, Session, Event, step_at, step, Reaches, end_of_file,
}
use cs2640_final_project.Server.Session.Lines.{respond, outcome, respond-append}
use cs2640_final_project.Server.Session.Progress.{Progress}
use cs2640_final_project.Server.Session.Answers.{
  lines_of, lines_of-join, respond_prefix, Reaches-Progress,
}

-- the session after some events
abbrev pub steps : Session → List Event → Session
steps s [] = s
steps s (event ∷ events) = steps (step s event) events

closed_stays : (s : Session) (event : Event) → s.place ≡ closed → step s event ≡ s
unfolding step step_at
closed_stays s event e = rw e refl

steps-closed : (events : List Event) (s : Session) → s.place ≡ closed → steps s events ≡ s
steps-closed [] s e = refl
steps-closed (event ∷ events) s e =
    ap (λ t. steps t events) (closed_stays s event e) ∙ steps-closed events s e

answer_pos : (store : KeyValueStore) (l : Bytes) → 0 < length (serve_line store l).output
unfolding serve_line
answer_pos store l = serialize_response_pos _

-- a line more has an answer more
respond_longer :
    (start : KeyValueStore) (ls ms : List Bytes) (sent : Bytes) (store : KeyValueStore)
    → respond start ls ≡ outcome sent store false
    → 0 < length ms
    → length sent < length (respond start (ls ++ ms)).output
respond_longer start ls [] sent store e h = absurd (omega (arith, h))
respond_longer start ls (l ∷ ms) sent store e h =
    let o = serve_line store l in
    let (rest, more) = respond_prefix start (ls ++ l ∷ []) ms in
    let text : (respond start (ls ++ l ∷ ms)).output ≡ (sent ++ o.output) ++ rest =
      ap (λ xs. (respond start xs).output) (sym (append_assoc ls (l ∷ []) ms))
      ∙ more
      ∙ rw (respond-append start ls l sent store e) refl in
    rw text (
      omega (
        arith,
        length-append (sent ++ o.output) rest,
        length-append sent o.output,
        answer_pos store l,
      ))

-- Where the stream ends while complete lines that were received are not served yet, they stay without an
-- answer for good: whatever the reads before and the events after, the coroutine has closed the
-- connection, sends nothing more, leaves the store as it was, and has sent less than the answers to
-- the complete lines that it received.
pub end_of_file_loses :
    {store : KeyValueStore} {input : Bytes} {s : Session} (events : List Event)
    → Reaches store input s
    → s.place ≡ receiving
    → 0 < length (lines_of s.inbound)
    → let t = steps (step s end_of_file) events in
      (t.place ≡ closed)
      × (t.sent ≡ s.sent)
      × (t.store ≡ s.store)
      × (length t.sent < length (respond store (lines_of input)).output)
unfolding step step_at
end_of_file_loses {store} {input} {s} events r e pending =
    let h = Reaches-Progress r in
    let over : step s end_of_file ≡ record s { place = closed } = rw e refl in
    let end : steps (step s end_of_file) events ≡ record s { place = closed } =
      ap (λ t. steps t events) over ∙ steps-closed events _ refl in
    let all : lines_of input ≡ h.lines ++ lines_of s.inbound =
      ap lines_of h.split ∙ lines_of-join h.lines s.inbound h.whole in
    rw end (
      refl,
      refl,
      refl,
      rw all
          (respond_longer store h.lines (lines_of s.inbound) s.sent s.store (answered h) pending),
    )
  where
    answered : (h : Progress store input s) → respond store h.lines ≡ outcome s.sent s.store false
    answered h = rw e at h.answered
