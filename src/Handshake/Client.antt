-- ===== src/Handshake/Client.antt =====
-- What `connect_rdma_session` gives the client.
use cs2640_final_project.Prelude.{
  ◌≡◌, refl, Bool, true, false, none, [], ◌∷◌, arith, if◌then◌else◌, Bool-cases, inl, inr,
}
use cs2640_final_project.Assoc.{is_some}
use cs2640_final_project.RdmaContext.{Verbs, RdmaContext, new_context, init, connect, ready_to_send}
use cs2640_final_project.RdmaContext.Teardown.{Tracks, replay}
use cs2640_final_project.RdmaContext.Resources.{init-Initialised}
use cs2640_final_project.Handshake.{
  close_fd, Peer, exchanged, Joined, join_session, connect_rdma_session,
}
use cs2640_final_project.Handshake.Released.{connected-Tracks}

-- A session that succeeds can send and has what the server sent. With or without success the context can be
-- destroyed, and the descriptor is closed once if there was one.
pub record HasJoined (p : Peer) (reached : Bool) (j : Joined) : Type 0 where
  pub tracked : Tracks j.context
  pub closed : j.calls ≡ (if reached then close_fd ∷ [] else [])
  pub ready : j.succeeded ≡ true → j.context.qp_state ≡ ready_to_send
  pub informed : j.succeeded ≡ true → (j.server_info ≡ p.remote) × (is_some p.remote ≡ true)

connect-ready :
    (v : Verbs) (c : RdmaContext)
    → (connect v c).0 ≡ true
    → (connect v c).1.qp_state ≡ ready_to_send
unfolding connect
connect-ready v c e = ground (arith, e)

module _ (p : Peer) where
  refused :
      (c : RdmaContext)
      → Tracks c
      → HasJoined p true
          (record { succeeded = false; context = c; server_info = none; calls = close_fd ∷ [] })
  refused c t = record { tracked = t; closed = refl; ready = λ e. cc e; informed = λ e. cc e }

  join_session-HasJoined :
      (r : Bool × RdmaContext) → Tracks r.1 → HasJoined p true (join_session p r)
  unfolding join_session
  join_session-HasJoined (ready, c) t =
      let d = (connect p.verbs c).1 in
      let t' = connected-Tracks p c t in
      elim (Bool-cases ready) [
        | inr a ↦ rw a (refused c t)
        | inl a ↦ rw a (elim (Bool-cases (exchanged p)) [
          | inr b ↦ rw b (refused c t)
          | inl b ↦ rw b (elim (Bool-cases (connect p.verbs c).0) [
            | inr e ↦ rw e (refused d t')
            | inl e ↦ rw e (record {
              tracked = t';
              closed = refl;
              ready = λ _. connect-ready p.verbs c e;
              informed = λ _. (refl, ground (arith, b));
            })
          ])
        ])
      ]

  -- Whatever libibverbs and the sockets return: where `connect_rdma_session` says that it has succeeded, the
  -- queue pair can send, and the caller has the QpInfo that the server has sent. In every case the six
  -- resources of the context, from the opened device to the registered buffers, are created and destroyed in
  -- a legal order and the context points to those that are live, so that its destructor frees them, and a
  -- TCP connection that was made is closed once. Nothing is said here of the list of devices.
  pub connect_rdma_session-HasJoined :
      (reached : Bool) → HasJoined p reached (connect_rdma_session p reached)
  unfolding connect_rdma_session
  connect_rdma_session-HasJoined true =
      join_session-HasJoined (init p.verbs p.device new_context)
        (init-Initialised p.verbs p.device).0
  connect_rdma_session-HasJoined false = record {
    tracked = unfold replay in refl;
    closed = refl;
    ready = λ e. cc e;
    informed = λ e. cc e;
  }
