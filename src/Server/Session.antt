-- ===== src/Server/Session.antt =====
-- `handle_client` of src/server/main.cpp: the coroutine of one TCP connection. A step is the result
-- of a system call, or that the event loop resumes the coroutine.
pub mod Lines
pub mod Progress
pub mod Answers
pub mod Framing
pub mod Finish
pub mod EndOfFile
use cs2640_final_project.Prelude.{
  ℕ, zero, suc, ◌+◌, ◌-◌, ◌≤◌, ◌<◌, Bool, true, false, Option, none, some, List, [], ◌∷◌, ◌++◌, ltb,
  if◌then◌else◌, take, drop, length, Bytes,
}
use cs2640_final_project.KvStore.{KeyValueStore}
use cs2640_final_project.Protocol.{find}
use cs2640_final_project.Server.{Outcome, serve_line}

-- where the coroutine stands: before `recv`, before `send`, at one of its two `co_await`s, or done
pub data Place : Type 0 where
  receiving : Place
  sending : Bytes → ℕ → Bool → Place
  await_writable : Bytes → ℕ → Bool → Place
  await_readable : Place
  closed : Place

-- `sent` is what the kernel has accepted so far.
pub record Session : Type 0 where
  pub store : KeyValueStore
  pub inbound : Bytes
  pub place : Place
  pub sent : Bytes

-- What a system call returns. `accepted n` is a positive `bytes_written`; a `send` that returns 0 ends
-- the connection as an error does.
pub data Event : Type 0 where
  received : Bytes → Event
  end_of_file recv_interrupted recv_would_block recv_failed : Event
  accepted : ℕ → Event
  send_interrupted send_would_block send_failed : Event
  resumed : Event

abbrev pub start_session : KeyValueStore → Session
start_session store = record { store = store; inbound = []; place = receiving; sent = [] }

abbrev close : Session → Session
close s = record s { place = closed }

-- `while ((newline = inbound.find('\n')) != npos)`: takes the next line out and serves it, or waits.
-- A response is never empty, so its loop over `send` starts.
unfoldable pub next_line : Session → Session
next_line s = elim (find 10 s.inbound) [
  | none ↦ record s { place = await_readable }
  | some newline ↦
      let o = serve_line s.store (take newline s.inbound) in
      record {
        store = o.store;
        inbound = drop (suc newline) s.inbound;
        place = sending o.output 0 o.ends;
        sent = s.sent;
      }
]

-- the test `offset < serialized.size()`, and what follows the loop
unfoldable pub send_rest : Bytes → ℕ → Bool → Session → Session
unfolding next_line
send_rest serialized offset ends s =
    if ltb offset (length serialized)
    then record s { place = sending serialized offset ends }
    else if ends
    then close s
    else next_line s

unfoldable pub step_at : Place → Event → Session → Session
unfolding next_line send_rest
step_at receiving (received chunk) s = record s { inbound = s.inbound ++ chunk }
step_at receiving end_of_file s = close s
step_at receiving recv_interrupted s = s
step_at receiving recv_would_block s = next_line s
step_at receiving recv_failed s = close s
step_at (sending serialized offset ends) (accepted n) s =
    send_rest serialized (offset + n) ends
      (record s { sent = s.sent ++ take n (drop offset serialized) })
step_at (sending serialized offset ends) send_interrupted s = s
step_at (sending serialized offset ends) send_would_block s = record s {
  place = await_writable serialized offset ends;
}
step_at (sending serialized offset ends) send_failed s = close s
step_at (await_writable serialized offset ends) resumed s = record s {
  place = sending serialized offset ends;
}
step_at await_readable resumed s = record s { place = receiving }
step_at place event s = s

unfoldable pub step : Session → Event → Session
unfolding step_at
step s event = step_at s.place event s

-- what the kernel may answer at each place
abbrev pub Allowed : Place → Event → Type 0
Allowed receiving (received chunk) = 0 < length chunk
Allowed receiving end_of_file = Unit
Allowed receiving recv_interrupted = Unit
Allowed receiving recv_would_block = Unit
Allowed receiving recv_failed = Unit
Allowed (sending serialized offset ends) (accepted n) = (0 < n) × (n ≤ length serialized - offset)
Allowed (sending serialized offset ends) send_interrupted = Unit
Allowed (sending serialized offset ends) send_would_block = Unit
Allowed (sending serialized offset ends) send_failed = Unit
Allowed (await_writable serialized offset ends) resumed = Unit
Allowed await_readable resumed = Unit
Allowed place event = ⊥

abbrev pub chunk_of : Event → Bytes
chunk_of (received chunk) = chunk
chunk_of event = []

-- The sessions that the start can reach, with all the bytes received on the way.
pub data Reaches (store : KeyValueStore) : Bytes → Session → Type 0 where
  begin : Reaches store [] (start_session store)
  next :
      {input : Bytes} {s : Session} (event : Event)
      → Reaches store input s
      → Allowed s.place event
      → Reaches store (input ++ chunk_of event) (step s event)
