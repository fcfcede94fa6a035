-- ===== src/EventLoop.antt =====
-- The coroutine scheduler: include/net/event_loop.hpp and src/net/event_loop.cpp. A coroutine handle
-- is a number; what a coroutine does when it is resumed is a parameter, `Tasks`.
pub mod Wake
pub mod Conserve
pub mod Run
pub mod Frames
use cs2640_final_project.Prelude.{
  ℕ, zero, suc, Bool, true, false, not, ◌&&◌, ◌||◌, Option, none, some, List, [], ◌∷◌, ◌++◌, map,
  nat_eq, if◌then◌else◌,
}
use cs2640_final_project.Assoc.{Assoc, is_some, lookup, without, insert}

abbrev pub Handle : Type 0
Handle = ℕ

pub record EventLoop : Type 0 where
  pub ready : List Handle
  pub read_waiters : Assoc ℕ Handle
  pub write_waiters : Assoc ℕ Handle
  pub stopping : Bool

abbrev pub new_loop : EventLoop
new_loop = record { ready = []; read_waiters = []; write_waiters = []; stopping = false }

unfoldable pub schedule : Handle → EventLoop → EventLoop
schedule h l = record l { ready = l.ready ++ h ∷ [] }

unfoldable pub stop : EventLoop → EventLoop
stop l = record l { stopping = true }

unfoldable pub wait_read : ℕ → Handle → EventLoop → EventLoop
wait_read fd h l = record l { read_waiters = insert fd h l.read_waiters }

unfoldable pub wait_write : ℕ → Handle → EventLoop → EventLoop
wait_write fd h l = record l { write_waiters = insert fd h l.write_waiters }

-- What the coroutines do to the loop while they run: `spawn`, the two awaiters, and `stop`.
pub data Action : Type 0 where
  spawns : Handle → Action
  awaits_read awaits_write : ℕ → Handle → Action
  stops : Action

unfoldable pub act : Action → EventLoop → EventLoop
unfolding schedule wait_read wait_write stop
act (spawns h) l = schedule h l
act (awaits_read fd h) l = wait_read fd h l
act (awaits_write fd h) l = wait_write fd h l
act stops l = stop l

unfoldable pub act_all : List Action → EventLoop → EventLoop
unfolding act
act_all [] l = l
act_all (a ∷ as') l = act_all as' (act a l)

-- The coroutines: `done`, and what `resume` does, as the actions up to the next suspension.
pub record Tasks : Type 1 where
  pub Frames : Type 0
  pub done : Frames → Handle → Bool
  pub resume : Frames → Handle → Frames × List Action

-- `pollfd`: the descriptor with `POLLIN` and `POLLOUT` of its `events`
pub record PollFd : Type 0 where
  pub fd : ℕ
  pub wants_read : Bool
  pub wants_write : Bool

-- `revents`
pub record Revents : Type 0 where
  pub pollin : Bool
  pub pollout : Bool
  pub pollerr : Bool
  pub pollhup : Bool
  pub pollnval : Bool

-- the first loop over the waiters, and the second, which skips what the first has added
unfoldable pub read_fds : Assoc ℕ Handle → Assoc ℕ Handle → List PollFd
read_fds [] writers = []
read_fds ((fd, h) ∷ m) writers =
    record { fd = fd; wants_read = true; wants_write = is_some (lookup fd writers) }
    ∷ read_fds m writers

unfoldable pub write_fds : Assoc ℕ Handle → Assoc ℕ Handle → List PollFd
write_fds readers [] = []
write_fds readers ((fd, h) ∷ m) =
    let rest = write_fds readers m in
    if is_some (lookup fd readers)
    then rest
    else record { fd = fd; wants_read = false; wants_write = true } ∷ rest

unfoldable pub poll_fds : EventLoop → List PollFd
unfolding read_fds write_fds
poll_fds l = read_fds l.read_waiters l.write_waiters ++ write_fds l.read_waiters l.write_waiters

abbrev pub failing : Revents → Bool
failing r = r.pollerr || r.pollhup || r.pollnval

abbrev pub is_readable : Revents → Bool
is_readable r = r.pollin || failing r

abbrev pub is_writable : Revents → Bool
is_writable r = r.pollout || failing r

-- `ready_handles` and the two maps, while `poll`'s answer is inspected
pub record Woken : Type 0 where
  pub handles : List Handle
  pub readers : Assoc ℕ Handle
  pub writers : Assoc ℕ Handle

unfoldable pub wake_reader : ℕ → Woken → Woken
wake_reader fd w = elim (lookup fd w.readers) [
  | none ↦ w
  | some h ↦ record w { handles = w.handles ++ h ∷ []; readers = without fd w.readers }
]

unfoldable pub wake_writer : ℕ → Woken → Woken
wake_writer fd w = elim (lookup fd w.writers) [
  | none ↦ w
  | some h ↦ record w { handles = w.handles ++ h ∷ []; writers = without fd w.writers }
]

-- one `pollfd` with its `revents`; where no flag is set, neither test passes
unfoldable pub wake_fd : ℕ → Revents → Woken → Woken
unfolding wake_reader wake_writer
wake_fd fd r w =
    let w' = if is_readable r then wake_reader fd w else w in
    if is_writable r then wake_writer fd w' else w'

unfoldable pub wake_all : List (ℕ × Revents) → Woken → Woken
unfolding wake_fd
wake_all [] w = w
wake_all ((fd, r) ∷ rest) w = wake_all rest (wake_fd fd r w)

-- `poll` answers with `revents` for each `pollfd`, in order.
unfoldable pub with_revents : List PollFd → List Revents → List (ℕ × Revents)
with_revents [] rs = []
with_revents (p ∷ ps) [] = []
with_revents (p ∷ ps) (r ∷ rs) = (p.fd, r) ∷ with_revents ps rs

-- the rest of a round, after `poll` has answered
unfoldable pub dispatch : List Revents → EventLoop → EventLoop
unfolding wake_all with_revents poll_fds
dispatch rs l =
    let w =
      wake_all (with_revents (poll_fds l) rs)
        (record { handles = []; readers = l.read_waiters; writers = l.write_waiters }) in
    record l { ready = l.ready ++ w.handles; read_waiters = w.readers; write_waiters = w.writers }

pub data PollResult : Type 0 where
  interrupted failed : PollResult
  answered : List Revents → PollResult

-- how `run` leaves its loop; `out_of_fuel` and `waiting` are those of the model
pub data Exit : Type 0 where
  stopped no_waiters poll_failed out_of_fuel waiting : Exit

module _ (t : Tasks) where
  open t use {Frames, done, resume}

  -- the inner loop, which resumes everything that is ready; a null handle is never scheduled
  unfoldable pub drain : ℕ → Frames → EventLoop → Option (Frames × EventLoop)
  unfolding act_all
  drain zero fs l = none
  drain (suc fuel) fs l = elim l.ready [
    | [] ↦ some (fs, l)
    | h ∷ rest ↦
        let popped = record l { ready = rest } in
        let (gs, actions) = resume fs h in
        let skip = drain fuel fs popped in
        let go = drain fuel gs (act_all actions popped) in if done fs h then skip else go
  ]

  abbrev no_waiter : EventLoop → Bool
  no_waiter l = elim l.read_waiters [
    | [] ↦ elim l.write_waiters [ [] ↦ true | e ∷ m ↦ false ]
    | e ∷ m ↦ false
  ]

  -- `run`, over the answers of `poll`; `fuel` bounds each drain
  unfoldable pub run : ℕ → List PollResult → Frames → EventLoop → Exit × Frames × EventLoop
  run fuel [] fs l = if l.stopping then (stopped, fs, l) else (waiting, fs, l)
  run fuel (p ∷ ps) fs l =
      let rounds : Exit × Frames × EventLoop = elim (drain fuel fs l) [
        | none ↦ (out_of_fuel, fs, l)
        | some (gs, m) ↦
            let again = run fuel ps gs m in
            let next = λ (rs : List Revents). run fuel ps gs (dispatch rs m) in
            if m.stopping
            then (stopped, gs, m)
            else if no_waiter m
            then (no_waiters, gs, m)
            else elim p [
              | interrupted ↦ again
              | failed ↦ (poll_failed, gs, m)
              | answered rs ↦ next rs
            ]
      ] in
      if l.stopping then (stopped, fs, l) else rounds
