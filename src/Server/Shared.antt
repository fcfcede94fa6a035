-- ===== src/Server/Shared.antt =====
-- All connections of src/server/main.cpp on the one `KeyValueStore` that `main` gives to every
-- `handle_client`. The event loop runs the coroutines one at a time, each up to its next system call
-- or `co_await`, in an order that the kernel chooses.
pub mod Log
pub mod Advance
pub mod Serial
pub mod Linear
use cs2640_final_project.Prelude.{ℕ, Bool, [], ◌++◌, ◌==◌, nat_eq, if◌then◌else◌, Bytes}
use cs2640_final_project.KvStore.{KeyValueStore}
use cs2640_final_project.Server.Session.{Session, start_session, Event, step, Allowed, chunk_of}

-- `sessions i` is the coroutine of connection `i`; one that has not been accepted yet stands at its
-- start. `received i` is all that has arrived on the connection.
pub record Process : Type 0 where
  pub store : KeyValueStore
  pub sessions : ℕ → Session
  pub received : ℕ → Bytes

abbrev pub update {ℓ} : {A : Type ℓ} → (ℕ → A) → ℕ → A → ℕ → A
update f i v j = if i == j then v else f j

abbrev pub start_process : KeyValueStore → Process
start_process store = record {
  store = store;
  sessions = λ i. start_session store;
  received = λ i. [];
}

-- the coroutine of connection `i` with the store as it is now
abbrev pub seen_by : Process → ℕ → Session
seen_by p i = record (p.sessions i) { store = p.store }

-- connection `i` makes one step
unfoldable pub turn : Process → ℕ → Event → Process
turn p i event =
    let s = step (seen_by p i) event in
    record {
      store = s.store;
      sessions = update p.sessions i s;
      received = update p.received i (p.received i ++ chunk_of event);
    }

-- The states that a state can come to.
pub data Runs (from : Process) : Process → Type 0 where
  here : Runs from from
  turns :
      {p : Process} (i : ℕ) (event : Event)
      → Runs from p
      → Allowed (p.sessions i).place event
      → Runs from (turn p i event)
