-- ===== src/Tests/Rdma.antt =====
-- RDMA contexts and the two-sided session: runs, and the theorems at concrete inputs.
use cs2640_final_project.Prelude.{
  ℕ, ◌≤◌, ◌≡◌, refl, true, false, Option, none, some, List, [], ◌∷◌, ◌++◌, arith, All, length,
  Bytes, bytes,
}
use cs2640_final_project.Assoc.{lookup, insert}
use cs2640_final_project.KvStore
use cs2640_final_project.KvStore.{new_store}
use cs2640_final_project.Protocol.{serialize_response}
use cs2640_final_project.Server.{serve_line, handle_request}
use cs2640_final_project.Tests.Protocol.{program}
use cs2640_final_project.RdmaContext.{
  Verbs, Resource, send_region, RdmaContext, new_context, init, nothing, message, request_done,
  msg_size, pick_device, alloc_pd, create_cq, create_qp, register_send, register_recv, to_init,
}
use cs2640_final_project.RdmaContext.Resources.{Initialised, init-Initialised}
use cs2640_final_project.Server.TwoSided.{Round}
use cs2640_final_project.Server.TwoSided.Replies.{CarriesAll, replies, found}

-- one card; the creation of the send region fails
abbrev region_fails : Resource → Option ℕ
region_fails send_region = none
region_fails r = some 5

abbrev broken : Verbs
broken = record {
  devices = some (bytes "mlx5_3" ∷ []);
  creates = region_fails;
  modifies = λ s. true;
}

abbrev working : Verbs
working = record {
  devices = some (bytes "mlx5_3" ∷ []);
  creates = λ r. some 5;
  modifies = λ s. true;
}

broken_fails : (init broken none new_context).0 ≡ false
unfolding init pick_device alloc_pd create_cq create_qp register_send
broken_fails = refl

working_succeeds : (init working (some (bytes "mlx5_3")) new_context).0 ≡ true
unfolding init pick_device alloc_pd create_cq create_qp register_send register_recv to_init
working_succeeds = refl

init-Initialised_example : Initialised false (init broken none new_context)
init-Initialised_example = init-Initialised broken none

abbrev opened : RdmaContext
opened = (init working none new_context).1

-- the client sets a key and quits; polling finds nothing at first
abbrev rounds : List Round
rounds =
    record {
      armed = true;
      arrival = nothing ∷ message (bytes "SET a x" ++ 10 ∷ []) ∷ [];
      accepted = true;
      departure = nothing ∷ request_done ∷ [];
    }
    ∷ record {
      armed = true;
      arrival = message (bytes "QUIT" ++ 10 ∷ []) ∷ [];
      accepted = true;
      departure = request_done ∷ [];
    }
    ∷ []

abbrev request_lines : List Bytes
request_lines = bytes "SET a x" ∷ bytes "QUIT" ∷ []

rounds-CarriesAll : CarriesAll rounds request_lines
unfolding found
rounds-CarriesAll = (
  record { armed = refl; arrival = refl; accepted = refl; departure = refl },
  (record { armed = refl; arrival = refl; accepted = refl; departure = refl }, tt),
)

server : Unit {0}
unfolding program serve_line serialize_response handle_request KvStore.set insert lookup replies
server = tt

replies_fit : All (λ (x : Bytes). length x ≤ msg_size) (replies new_store request_lines)
unfolding server
replies_fit = (omega arith, (omega arith, tt))
