-- ===== src/Tests/System.antt =====
-- Descriptors, handshakes and the TCP client: runs, and the theorems at concrete inputs.
use cs2640_final_project.Prelude.{
  arith, ◌+◌, ◌≡◌, refl, true, false, Option, none, some, List, [], ◌∷◌, ◌++◌, map, nat_eq, list_eq,
  Bytes, bytes,
}
use cs2640_final_project.Assoc.{lookup}
use cs2640_final_project.KvStore
use cs2640_final_project.KvStore.{new_store}
use cs2640_final_project.Protocol.{serialize_response}
use cs2640_final_project.Server.{serve_line, handle_request}
use cs2640_final_project.Server.TwoSided.Replies.{replies}
use cs2640_final_project.Sockets.{sent, byte, Received, write_all}
use cs2640_final_project.Sockets.Read.{uninterrupted, without_cr}
use cs2640_final_project.Descriptors.{
  Fds, Listening, create_server_socket, make_tcp_listener, Candidate, create_client_socket,
  connection, would_block, failed, Accept, Accepting, accept_loop, accept_all, set_non_blocking,
  close_socket,
}
use cs2640_final_project.Descriptors.Owners.{
  Owned, sockets-Owned, extended, served_all, accept_loop-served,
}
use cs2640_final_project.Handshake.{
  Peer, handle_two_sided_client, handle_one_sided_client, connect_rdma_session,
}
use cs2640_final_project.Handshake.Client.{HasJoined, connect_rdma_session-HasJoined}
use cs2640_final_project.Handshake.Released.{Released, handlers-Released}
use cs2640_final_project.Client.Tcp.{Trip, client_session}
use cs2640_final_project.Client.Tcp.Session.{AnsweredAll, requests, client_session-replies}
use cs2640_final_project.EventLoop.Frames.{
  TaskCall, construct, move_construct, start, destruct, finish, no_frames, call_tasks, call_task,
  AllAllowed, start_held, destroy_held,
}
use cs2640_final_project.EventLoop.Frames.Owners.{owners, all_constructed, call_tasks-owners}
use cs2640_final_project.Tests.Protocol.{program}

abbrev no_fds : Fds
no_fds = record { open_fds = []; sound = true }

-- `listen` fails
abbrev busy_port : Listening
busy_port = record {
  socket = some 4;
  reuses = true;
  binds = true;
  listens = false;
  flags = some 0;
  unblocks = true;
}

abbrev addresses : Option (List Candidate)
addresses = some (
    record { socket = some 4; connects = false } ∷ record { socket = some 4; connects = true } ∷ [])

sockets-Owned_example :
    Owned no_fds (create_server_socket busy_port no_fds)
    × Owned no_fds (make_tcp_listener busy_port no_fds)
    × Owned no_fds (create_client_socket addresses no_fds)
sockets-Owned_example = sockets-Owned busy_port addresses no_fds

-- two connections, of which the second cannot be switched to nonblocking mode, and then one more
abbrev wakes : List (List Accept)
wakes =
    (connection 5 (some 0) true ∷ connection 6 none true ∷ would_block ∷ [])
    ∷ (connection 6 (some 0) true ∷ failed ∷ [])
    ∷ []

abbrev idle : Accepting
idle = record { fds = record { open_fds = 3 ∷ []; sound = true }; spawned = [] }

accept_loop_runs : (accept_loop wakes idle).fds ≡ record { open_fds = 6 ∷ 5 ∷ 3 ∷ []; sound = true }
unfolding accept_loop accept_all set_non_blocking close_socket
accept_loop_runs = refl

accept_loop-served_example : accept_loop wakes idle ≡ extended (served_all wakes) idle
accept_loop-served_example = accept_loop-served wakes idle

abbrev peer : Peer
peer = record {
  verbs = record {
    devices = some (bytes "mlx5_3" ∷ []);
    creates = λ r. some 5;
    modifies = λ s. true;
  };
  device = none;
  writes = true;
  remote = some (record { qp_num = 1; lid = 0; gid = []; rkey = 0; addr = 0; num_slots = 0 });
}

handlers-Released_example :
    Released (handle_two_sided_client peer [] new_store)
    × Released (handle_one_sided_client peer true)
handlers-Released_example = handlers-Released peer [] new_store true

connect_rdma_session-HasJoined_example : HasJoined peer true (connect_rdma_session peer true)
connect_rdma_session-HasJoined_example = connect_rdma_session-HasJoined peer true

abbrev lines : List Bytes
lines = bytes "GET a" ∷ bytes "QUIT" ∷ []

abbrev trips : List Trip
trips =
    record {
      sends = sent 2 ∷ sent 4 ∷ [];
      receives = Received.interrupted ∷ (map byte (bytes "NOT_FOUND") ++ byte 10 ∷ []);
    }
    ∷ record { sends = sent 5 ∷ []; receives = map byte (bytes "BYE") ++ byte 10 ∷ [] }
    ∷ []

trips-AnsweredAll : AnsweredAll new_store lines trips
unfolding program serve_line serialize_response handle_request KvStore.get lookup write_all
    uninterrupted
trips-AnsweredAll = (
  record { text = bytes "NOT_FOUND"; one_line = refl; whole = refl; sent = refl; received = refl },
  (record { text = bytes "BYE"; one_line = refl; whole = refl; sent = refl; received = refl }, tt),
)

client_session-replies_example :
    ((client_session lines trips).printed ≡ map without_cr (replies new_store lines))
    × ((client_session lines trips).delivered ≡ requests new_store lines)
client_session-replies_example =
    client_session-replies lines trips new_store (refl, (refl, tt)) trips-AnsweredAll

-- the task of a connection is moved, started, and ends; the object that it was moved from is destructed
abbrev task_calls : List TaskCall
task_calls = construct 7 ∷ move_construct 0 ∷ start 1 ∷ destruct 0 ∷ finish 7 ∷ destruct 1 ∷ []

task_calls_run : (call_tasks task_calls no_frames).destroyed ≡ 7 ∷ []
unfolding call_tasks call_task start_held destroy_held
task_calls_run = refl

task_calls-AllAllowed : AllAllowed task_calls no_frames
unfolding call_task start_held destroy_held
task_calls-AllAllowed = (tt, (omega arith, (omega arith, (omega arith, (refl, (omega arith, tt))))))

call_tasks-owners_example :
    owners 7 (call_tasks task_calls no_frames) ≡ owners 7 no_frames + all_constructed 7 task_calls
call_tasks-owners_example = call_tasks-owners 7 task_calls no_frames task_calls-AllAllowed
