-- ===== src/Tests/Shared.antt =====
-- Two connections of the TCP server: one stores, the other reads what was stored.
use cs2640_final_project.Prelude.{◌≡◌, refl, [], ◌∷◌, ◌++◌, arith, nat_eq, list_eq, Bytes, bytes}
use cs2640_final_project.KvStore.{new_store}
use cs2640_final_project.Server.Session.{received, recv_would_block, accepted}
use cs2640_final_project.Server.Shared.{Process, start_process, turn, Runs, here, turns}
use cs2640_final_project.Server.Shared.Log.{Log, answers}
use cs2640_final_project.Server.Shared.Linear.{IsLinear, Runs-IsLinear}
use cs2640_final_project.Tests.Sessions.{server}

abbrev line_set : Bytes
line_set = bytes "SET a x" ++ 10 ∷ []

abbrev line_get : Bytes
line_get = bytes "GET a" ++ 10 ∷ []

-- both lines arrive, and the first connection is served
abbrev early : Process
early =
    turn
      (turn (turn (turn (start_process new_store) 1 (received line_get)) 0 (received line_set)) 0
        recv_would_block)
      0 (accepted 3)

-- the second one is
abbrev late : Process
late = turn (turn early 1 recv_would_block) 1 (accepted 8)

early-Runs : Runs (start_process new_store) early
unfolding server turn
early-Runs =
    turns 0 (accepted 3)
      (turns 0 recv_would_block
        (turns 0 (received line_set) (turns 1 (received line_get) here (omega arith)) (omega arith))
        tt)
      (omega arith, omega arith)

late-Runs : Runs early late
unfolding server turn
late-Runs = turns 1 (accepted 8) (turns 1 recv_would_block here tt) (omega arith, omega arith)

late_runs :
    ((late.sessions 0).sent ≡ bytes "OK" ++ 10 ∷ [])
    × ((late.sessions 1).sent ≡ bytes "VALUE x" ++ 10 ∷ [])
unfolding server turn
late_runs = (refl, refl)

-- the order in which the lines were served, which is not the one in which they arrived
abbrev served : Log
served = (0, bytes "SET a x") ∷ (1, bytes "GET a") ∷ []

served_answers :
    (answers 0 new_store served ≡ (late.sessions 0).sent)
    × (answers 1 new_store served ≡ (late.sessions 1).sent)
unfolding server turn answers
served_answers = (refl, refl)

Runs-IsLinear_example :
    (log : Log) × (more : Log) × IsLinear new_store early log
    × IsLinear new_store late (log ++ more)
Runs-IsLinear_example = Runs-IsLinear new_store early-Runs late-Runs
