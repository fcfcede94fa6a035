-- ===== src/Tests/EndToEnd.antt =====
-- A client and a server of the one-sided mode that work together.
use cs2640_final_project.Prelude.{
  ℕ, ◌+◌, ◌-◌, ◌*◌, ◌/◌, ◌<◌, ◌≡◌, refl, ap, Bool, true, none, some, [], arith, All, if◌then◌else◌,
  nat_eq, list_eq, bytes,
}
use cs2640_final_project.Prelude.Decimal.{decimal_digits}
use cs2640_final_project.RdmaStore.{slot_at, num_slots, get, c_string}
use cs2640_final_project.RdmaStore.Valid.{IsKey}
use cs2640_final_project.Preload.{preload}
use cs2640_final_project.Preload.Stored.{Loaded}
use cs2640_final_project.RdmaContext.{
  init, connect, pick_device, alloc_pd, create_cq, create_qp, register_send, register_recv, to_init,
}
use cs2640_final_project.RdmaContext.Requests.{post_rdma_read, post_rdma_write, post_fetch_and_add}
use cs2640_final_project.Handshake.{QpInfo, Peer, connect_rdma_session, join_session}
use cs2640_final_project.Handshake.Region.{exported_info}
use cs2640_final_project.OneSided.{slot_size, one_sided_get}
use cs2640_final_project.OneSided.Get.{IsReliable}
use cs2640_final_project.OneSided.Card.{driver, card_read, card_write, card_add}
use cs2640_final_project.OneSided.Regions.{binding, IsLegal}
use cs2640_final_project.Arguments.{stoi}
use cs2640_final_project.Arguments.Client.{Options, one_sided_session, run_client, enter_session}
use cs2640_final_project.Arguments.Server.{
  ServerRun, server_main, run_server, parse_server_arguments, preload_table,
}
use cs2640_final_project.EndToEnd.{Together, server_arguments, one_sided_get-preload}
use cs2640_final_project.Tests.Card.{
  Machines, card, port, table_region, slot_mr, atomic_mr, set_up, placed, machines,
}
use cs2640_final_project.Tests.Arguments.{verbs, bit_defaults}

abbrev info : QpInfo
info = record { qp_num = 7; lid = 0; gid = []; rkey = 2; addr = 1048576; num_slots = 4096 }

-- the table of three keys, in the memory of the server
abbrev loaded : Machines
loaded = record machines { server = λ a. slot_at (preload 3) ((a - 1048576) / 1024) }

abbrev server_run : ServerRun
server_run = record { port = 9091; table = preload 3; handlers = []; succeeded = true }

starts : server_main (server_arguments 3) true [] ≡ some server_run
unfolding server_main run_server parse_server_arguments preload_table stoi decimal_digits
starts = refl

stands : (p : ℕ) → p < num_slots → loaded.server (1048576 + p * slot_size) ≡ slot_at (preload 3) p
stands p h =
    let e : (1048576 + p * slot_size - 1048576) / 1024 ≡ p = omega arith in
    ap (λ q. slot_at (preload 3) q) e

abbrev server : Peer
server = record { verbs = verbs; device = none; writes = true; remote = some info }

tells : server.remote ≡ some (exported_info port table_region)
unfolding exported_info
tells = refl

abbrev options : Options Bool
options = record bit_defaults { one_sided = true }

goes :
    (run_client options true true (connect_rdma_session server true)).activity
    ≡ one_sided_session info
unfolding run_client enter_session connect_rdma_session join_session init connect pick_device
    alloc_pd create_cq create_qp register_send register_recv to_init
goes = refl

card-IsReliable : IsReliable (driver card (binding info slot_mr atomic_mr))
unfolding card_read card_write card_add post_rdma_read post_rdma_write post_fetch_and_add
card-IsReliable = record {
  reads = λ w a. (_, refl);
  writes = λ w a s. refl;
  atomics = λ w a n. (_, refl);
}

together : Together card loaded 3 1048576 table_region slot_mr atomic_mr info
together = record {
  answers = [];
  run = server_run;
  started = starts;
  slot = 1073741824;
  atomic = 1073742848;
  placed = placed;
  registered = set_up;
  in_memory = stands;
  port = port;
  peer = server;
  told = tells;
  options = options;
  goes = goes;
  reliable = card-IsReliable;
}

key2 : IsKey (bytes "key2")
key2 = record { no_nul = refl; short = omega arith }

one_sided_get-preload_example :
    let st =
      one_sided_get
        (driver card (binding info slot_mr atomic_mr))
        info.addr
        (bytes "key2")
        true
        (slot_at (preload 3) 0)
        0
        (loaded, []) in
    ((if st.found then some (c_string st.slot.value) else none) ≡ get (preload 3) (bytes "key2"))
    × Loaded 3 (preload 3)
    × All (IsLegal table_region slot_mr atomic_mr) st.world.1
one_sided_get-preload_example =
    one_sided_get-preload card loaded 3 1048576 table_region slot_mr atomic_mr info (omega arith)
      together (bytes "key2") true (slot_at (preload 3) 0) 0 key2
