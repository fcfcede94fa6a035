-- ===== src/Tests/Clients.antt =====
-- The two-sided client: runs, and the theorems at concrete inputs.
use cs2640_final_project.Prelude.{
  ℕ, ◌≡◌, refl, false, true, List, [], ◌∷◌, ◌++◌, arith, map, All, take, Bytes, bytes, inl, inr,
}
use cs2640_final_project.Assoc.{lookup, insert}
use cs2640_final_project.KvStore
use cs2640_final_project.KvStore.{new_store}
use cs2640_final_project.Protocol.{serialize_response}
use cs2640_final_project.Server.{
  serve_line, serve_message, strip_newline, two_sided_switch, handle_request,
}
use cs2640_final_project.Server.Session.Lines.{respond}
use cs2640_final_project.Server.TwoSided.{Round, two_sided_loop}
use cs2640_final_project.Server.TwoSided.Replies.{replies, found}
use cs2640_final_project.RdmaContext.{
  new_context, nothing, message, request_done, msg_size, post_send, poll_completion, recv_data,
}
use cs2640_final_project.Client.Interactive.{starts_with}
use cs2640_final_project.Client.TwoSided.{
  Exchange, Reply, strip_line_end, two_sided_request_response, client_run, contains, run_two_sided,
}
use cs2640_final_project.Client.TwoSided.Conversation.{Fits, LinkedAll, client_run-replies}
use cs2640_final_project.Client.TwoSided.Bye.{HeardAll, until_bye, run_two_sided-until_bye}
use cs2640_final_project.Tests.Protocol.{program}

-- the server's answer comes before the completion of the send, and the other way round
abbrev exchange : Bytes → Exchange
exchange answer = record {
  armed = true;
  accepted = true;
  first = nothing ∷ message answer ∷ [];
  second = request_done ∷ [];
}

abbrev later_exchange : Bytes → Exchange
later_exchange answer = record {
  armed = true;
  accepted = true;
  first = request_done ∷ [];
  second = message answer ∷ [];
}

abbrev turn : Bytes → Round
turn request = record {
  armed = true;
  arrival = message request ∷ [];
  accepted = true;
  departure = request_done ∷ [];
}

abbrev commands : List Bytes
commands = bytes "SET a x" ∷ bytes "GET a" ∷ []

abbrev exchanges : List Exchange
exchanges = exchange (bytes "OK" ++ 10 ∷ []) ∷ later_exchange (bytes "VALUE x" ++ 10 ∷ []) ∷ []

abbrev turns : List Round
turns = turn (bytes "SET a x" ++ 10 ∷ []) ∷ turn (bytes "GET a" ++ 10 ∷ []) ∷ []

program_runs : Unit {0}
unfolding program serve_line serve_message strip_newline two_sided_switch serialize_response
    handle_request KvStore.set KvStore.get insert lookup replies respond two_sided_loop
    two_sided_request_response client_run post_send poll_completion recv_data strip_line_end found
program_runs = tt

client_run_responds :
    map (λ (x : Reply). x.response) (client_run exchanges commands new_context)
    ≡ bytes "OK" ∷ bytes "VALUE x" ∷ []
unfolding program_runs
client_run_responds = refl

commands_fit : All Fits commands
commands_fit = (omega arith, (omega arith, tt))

open_session : (respond new_store commands).ends ≡ false
unfolding program_runs
open_session = refl

linked :
    LinkedAll exchanges turns
      (map (λ (x : Reply). x.posted) (client_run exchanges commands new_context))
      (two_sided_loop turns new_store new_context).posted
unfolding program_runs
linked = (
  record {
    client_armed = refl;
    client_accepted = refl;
    server_armed = refl;
    server_accepted = refl;
    arrival = refl;
    departure = refl;
    answers = inr (refl, refl);
  },
  (
    record {
      client_armed = refl;
      client_accepted = refl;
      server_armed = refl;
      server_accepted = refl;
      arrival = refl;
      departure = refl;
      answers = inl (refl, refl);
    },
    tt,
  ),
)

client_run-replies_example :
    (map (λ (x : Reply). x.response) (client_run exchanges commands new_context)
      ≡ map (λ (m : Bytes). strip_line_end (take msg_size m)) (replies new_store commands))
    × All (λ (x : Reply). x.ok ≡ true) (client_run exchanges commands new_context)
client_run-replies_example =
    client_run-replies exchanges turns commands new_store new_context new_context commands_fit
      open_session linked refl

-- a value with BYE in it ends the loop; the second line is not sent
abbrev goodbye : List Bytes
goodbye = bytes "VALUE GOODBYE" ∷ bytes "OK" ∷ []

goodbye-HeardAll : HeardAll (map exchange goodbye) goodbye
unfolding found
goodbye-HeardAll = (
  record { armed = refl; accepted = refl; answers = inr (refl, refl) },
  (record { armed = refl; accepted = refl; answers = inr (refl, refl) }, tt),
)

run_two_sided-until_bye_example :
    run_two_sided commands (map exchange goodbye) new_context ≡ until_bye goodbye
run_two_sided-until_bye_example =
    run_two_sided-until_bye commands (map exchange goodbye) goodbye new_context goodbye-HeardAll
      refl

goodbye_stops :
    run_two_sided commands (map exchange goodbye) new_context
    ≡ (bytes "VALUE GOODBYE" ++ 10 ∷ []) ∷ []
unfolding program_runs run_two_sided contains starts_with
goodbye_stops = refl

abbrev prefill_exchanges : ℕ → Exchange
prefill_exchanges n = later_exchange (bytes "OK" ++ 10 ∷ [])

abbrev prefill_turns : List Round
prefill_turns = turn (bytes "SET key_00000000 ab" ++ 10 ∷ []) ∷ []
