-- ===== src/Handshake.antt =====
-- The handshakes that open an RDMA session: `handle_two_sided_client` and `handle_one_sided_client` of
-- src/server/rdma_main.cpp and `connect_rdma_session` of src/client/rdma_client.cpp. What `write_all` and `read_all` make of a QpInfo is an
-- argument; `calls` lists what is done to the TCP descriptor, to the registration of the table and to the context.
pub mod Released
pub mod Client
pub mod Region
use cs2640_final_project.Prelude.{
  ℕ, Bool, true, false, ◌&&◌, Option, none, some, List, [], ◌∷◌, ◌++◌, if◌then◌else◌, Bytes,
}
use cs2640_final_project.Assoc.{is_some}
use cs2640_final_project.KvStore.{KeyValueStore}
use cs2640_final_project.RdmaContext.{Verbs, RdmaContext, new_context, init, connect, destroy}
use cs2640_final_project.Server.TwoSided.{Round, TwoSided, two_sided_loop}

pub record QpInfo : Type 0 where
  pub qp_num : ℕ
  pub lid : ℕ
  pub gid : Bytes
  pub rkey : ℕ
  pub addr : ℕ
  pub num_slots : ℕ

pub data HandlerCall : Type 0 where
  close_fd register_store deregister_store destroy_context : HandlerCall

-- what a handler meets: libibverbs, the device that was asked for, whether `write_all`
-- succeeds, and what `read_all` reads where it succeeds
pub record Peer : Type 0 where
  pub verbs : Verbs
  pub device : Option Bytes
  pub writes : Bool
  pub remote : Option QpInfo

-- `write_all(...) && read_all(...)`, in either order
abbrev pub exchanged : Peer → Bool
exchanged p = p.writes && is_some p.remote

-- the calls, the context after its destructor, and what the session did, if there was one
pub record Handled : Type 0 where
  pub calls : List HandlerCall
  pub context : RdmaContext
  pub session : Option TwoSided

module _ (p : Peer) where
  -- a handler returns, which destroys its context
  abbrev pub return_from : List HandlerCall → RdmaContext → Option TwoSided → Handled
  return_from calls c session = record {
    calls = calls ++ destroy_context ∷ [];
    context = destroy c;
    session = session;
  }

  module _ (rounds : List Round) (store : KeyValueStore) where
    -- after `init`
    unfoldable pub greet_two_sided : Bool × RdmaContext → Handled
    greet_two_sided (ready, c) =
        let (connected, d) = connect p.verbs c in
        let session = two_sided_loop rounds store d in
        if ready
        then (if exchanged p
            then (if connected
                then return_from (close_fd ∷ []) session.context (some session)
                else return_from (close_fd ∷ []) d none)
            else return_from (close_fd ∷ []) c none)
        else return_from (close_fd ∷ []) c none

    unfoldable pub handle_two_sided_client : Handled
    handle_two_sided_client = greet_two_sided (init p.verbs p.device new_context)

  -- The table is registered. Without a connection the handler returns; with one it waits in `pause` until a
  -- signal arrives, and then returns.
  unfoldable pub greet_exported : RdmaContext → Handled
  greet_exported c =
      let (connected, d) = connect p.verbs c in
      if exchanged p
      then (if connected
          then return_from (register_store ∷ close_fd ∷ deregister_store ∷ []) d none
          else return_from (register_store ∷ close_fd ∷ deregister_store ∷ []) d none)
      else return_from (register_store ∷ deregister_store ∷ close_fd ∷ []) c none

  -- `registered` says that `register_mr` succeeds
  unfoldable pub greet_one_sided : Bool → Bool × RdmaContext → Handled
  greet_one_sided registered (ready, c) =
      if ready
      then (if registered then greet_exported c else return_from (close_fd ∷ []) c none)
      else return_from (close_fd ∷ []) c none

  unfoldable pub handle_one_sided_client : Bool → Handled
  handle_one_sided_client registered =
      greet_one_sided registered (init p.verbs p.device new_context)

-- what `connect_rdma_session` returns, the context, which the caller owns, `server_info_out`, and the calls
pub record Joined : Type 0 where
  pub succeeded : Bool
  pub context : RdmaContext
  pub server_info : Option QpInfo
  pub calls : List HandlerCall

module _ (p : Peer) where
  unfoldable pub join_session : Bool × RdmaContext → Joined
  join_session (ready, c) =
      let (connected, d) = connect p.verbs c in
      if ready
      then (if exchanged p
          then (if connected
              then record {
                succeeded = true;
                context = d;
                server_info = p.remote;
                calls = close_fd ∷ [];
              }
              else record {
                succeeded = false;
                context = d;
                server_info = none;
                calls = close_fd ∷ [];
              })
          else record { succeeded = false; context = c; server_info = none; calls = close_fd ∷ [] })
      else record { succeeded = false; context = c; server_info = none; calls = close_fd ∷ [] }

  -- `reached` says that `tcp_connect` succeeds
  unfoldable pub connect_rdma_session : Bool → Joined
  connect_rdma_session reached =
      if reached
      then join_session (init p.verbs p.device new_context)
      else record { succeeded = false; context = new_context; server_info = none; calls = [] }
