-- ===== src/Tests/Network.antt =====
-- The event loop, the socket loops and the one-sided client: runs, and the theorems at concrete inputs.
use cs2640_final_project.Prelude.{
  ◌≤◌, ◌≡◌, refl, true, false, none, some, List, [], ◌∷◌, ◌++◌, arith, map, if◌then◌else◌, nat_eq,
}
use cs2640_final_project.Assoc.{lookup, without}
use cs2640_final_project.EventLoop.{
  EventLoop, Revents, Woken, Tasks, new_loop, wake_all, dispatch, drain, run, no_waiters,
  PollResult, is_readable, is_writable,
}
use cs2640_final_project.EventLoop.Wake.{any_report, wake_all-waiters}
use cs2640_final_project.EventLoop.Conserve.{pending, IsLoop, dispatch_conserves}
use cs2640_final_project.EventLoop.Run.{IsOver, run-no_waiters}
use cs2640_final_project.Sockets.{Sent, sent, interrupted, Received, byte}
use cs2640_final_project.Sockets.Exactly.{never_zero}
use cs2640_final_project.Sockets.Write.{total_taken}
use cs2640_final_project.Sockets.Read.{uninterrupted}

-- coroutine 7 waits to read descriptor 3
abbrev waiting_loop : EventLoop
waiting_loop = record new_loop { read_waiters = (3, 7) ∷ [] }

abbrev readable : Revents
readable = record {
  pollin = true;
  pollout = false;
  pollerr = false;
  pollhup = false;
  pollnval = false;
}

dispatch_runs : (dispatch (readable ∷ []) waiting_loop).ready ≡ 7 ∷ []
unfolding dispatch lookup without
dispatch_runs = refl

wake_all-waiters_example :
    let w : Woken = record { handles = []; readers = (3, 7) ∷ []; writers = [] } in
    (lookup 3 (wake_all ((3, readable) ∷ []) w).readers
      ≡ (if any_report is_readable 3 ((3, readable) ∷ []) then none else lookup 3 w.readers))
    × (lookup 3 (wake_all ((3, readable) ∷ []) w).writers
        ≡ (if any_report is_writable 3 ((3, readable) ∷ []) then none else lookup 3 w.writers))
wake_all-waiters_example =
    wake_all-waiters ((3, readable) ∷ [])
      (record { handles = []; readers = (3, 7) ∷ []; writers = [] }) 3

is_loop : IsLoop waiting_loop
unfolding lookup
is_loop = ((refl, tt), tt)

dispatch_conserves_example :
    (pending 7 (dispatch (readable ∷ []) waiting_loop) ≡ pending 7 waiting_loop)
    × IsLoop (dispatch (readable ∷ []) waiting_loop)
dispatch_conserves_example = dispatch_conserves (readable ∷ []) waiting_loop 7 is_loop

-- coroutines that end when they are first resumed
abbrev brief : Tasks
brief = record { Frames = Unit {0}; done = λ f h. false; resume = λ f h. (tt, []) }

brief_runs :
    run brief 5 ((PollResult.interrupted) ∷ []) tt (record new_loop { ready = 1 ∷ 2 ∷ [] })
    ≡ (no_waiters, tt, new_loop)
unfolding run drain
brief_runs = refl

run-no_waiters_example : IsOver brief new_loop
run-no_waiters_example =
    run-no_waiters brief 5 (PollResult.interrupted ∷ []) tt tt
      (record new_loop { ready = 1 ∷ 2 ∷ [] }) new_loop brief_runs

three_waits : lookup 3 waiting_loop.read_waiters ≡ some 7
unfolding lookup
three_waits = refl

abbrev hello_answers : List Sent
hello_answers = sent 2 ∷ interrupted ∷ sent 3 ∷ []

hello_enough : 5 ≤ total_taken hello_answers
unfolding total_taken
hello_enough = omega arith

abbrev get_answers : List Received
get_answers = byte 71 ∷ Received.interrupted ∷ byte 13 ∷ byte 10 ∷ []

get_uninterrupted : uninterrupted get_answers ≡ map byte (71 ∷ 13 ∷ []) ++ byte 10 ∷ []
unfolding uninterrupted
get_uninterrupted = refl

hello_not_zero : never_zero hello_answers ≡ true
unfolding never_zero
hello_not_zero = refl
