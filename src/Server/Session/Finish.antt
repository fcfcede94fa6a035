-- ===== src/Server/Session/Finish.antt =====
-- The coroutine gets through what it received when the kernel takes its output.
use cs2640_final_project.Prelude.{
  ℕ, suc, ◌≡◌, Bool, true, false, ◌++◌, ◌⊎◌, if◌then◌else◌, length, take, drop, Bytes,
}
use cs2640_final_project.KvStore.{KeyValueStore}
use cs2640_final_project.Server.Session.{
  sending, await_readable, closed, Session, next_line, Reaches,
}
use cs2640_final_project.Server.{serve_line}
use cs2640_final_project.Server.Session.Lines.{respond}
use cs2640_final_project.Server.Session.Answers.{lines_of}

-- The session has sent the answers to all complete lines of the input and left the store that they make;
-- it waits for more input, or is over where one of the lines ended it.
abbrev pub IsAnswered : KeyValueStore → Bytes → Session → Type 0
IsAnswered store input s =
    let r = respond store (lines_of input) in
    (s.sent ≡ r.output)
    × (s.store ≡ r.store)
    × (((s.place ≡ await_readable) × (r.ends ≡ false)) ⊎ ((s.place ≡ closed) × (r.ends ≡ true)))

abbrev pub GetsAnswered : KeyValueStore → Bytes → Type 0
GetsAnswered store input = (s : Session) × Reaches store input s × IsAnswered store input s

-- the whole response is accepted at once
flushed : Session → Bytes → Bool → Session
flushed s out ends =
    let t : Session = record s { sent = s.sent ++ take (length out) out } in
    if ends then record t { place = closed } else next_line t

-- the session that starts to send the answer to the first `k` bytes
serving : Session → ℕ → Session
serving s k =
    let o = serve_line s.store (take k s.inbound) in
    record {
      store = o.store;
      inbound = drop (suc k) s.inbound;
      place = sending o.output 0 o.ends;
      sent = s.sent;
    }
