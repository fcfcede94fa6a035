-- ===== src/Arguments/Client/Dispatch.antt =====
-- When `main` of src/client/rdma_client.cpp goes to the server's table.
use cs2640_final_project.Prelude.{
  ◌≡◌, refl, ap, ◌∙◌, sym, Bool, true, false, Option, none, some, List, [], ◌∷◌, ◌==◌, ==_iff,
  nat_eq, list_eq, arith, All, Bytes, bytes, Bool-cases, inl, inr,
}
use cs2640_final_project.RdmaStore.{num_slots}
use cs2640_final_project.RdmaContext.{ready_to_send}
use cs2640_final_project.Handshake.{QpInfo, Peer, Joined, connect_rdma_session}
use cs2640_final_project.Handshake.Client.{connect_rdma_session-HasJoined}
use cs2640_final_project.Arguments.Client.Settings.{
  Setting, set_mode, set_host, set_port, set_device, set_ops, set_warmup, set_keys, set_clients,
  set_value_size, set_get_ratio, set_zipf_s, set_csv, set_benchmark, set_no_prefill, set_metadata,
  apply_all, IsInRange, argument_line, parse_arguments-argument_line,
}
use cs2640_final_project.Arguments.Client.{
  Options, default_options, parse_arguments, no_session, one_sided_session, enter_session,
  run_client,
}

enter_session-one_sided :
    (one_sided : Bool) (remote : Option QpInfo) (info : QpInfo)
    → (enter_session one_sided remote).activity ≡ one_sided_session info
    → (one_sided ≡ true)
      × (remote ≡ some info)
      × ((info.addr == 0) ≡ false)
      × ((info.num_slots == num_slots) ≡ true)
unfolding enter_session
enter_session-one_sided false remote info e = absurd (cc)
enter_session-one_sided true none info e = absurd (cc)
enter_session-one_sided true (some i) info e = elim (Bool-cases (i.addr == 0)) [
  | inl a ↦ absurd (refused (rw a at e))
  | inr a ↦ elim (Bool-cases (i.num_slots == num_slots)) [
    | inr b ↦ absurd (refused (rw (a, b) at e))
    | inl b ↦
        let same : i ≡ info = started (rw (a, b) at e) in
        (
          refl,
          ap some same,
          ap (λ x. x.addr == 0) (sym same) ∙ a,
          ap (λ x. x.num_slots == num_slots) (sym same) ∙ b,
        )
  ]
]
  where
    refused : no_session ≡ one_sided_session info → ⊥
    refused h = cc

    started : one_sided_session i ≡ one_sided_session info → i ≡ info
    started h = cc

module _ {D : Type 0} (o : Options D) (two_sided_result one_sided_result : Bool) where
  run_client-one_sided :
      (joined : Joined) (info : QpInfo)
      → (run_client o two_sided_result one_sided_result joined).activity ≡ one_sided_session info
      → (o.benchmark_mode ≡ false)
        × (joined.succeeded ≡ true)
        × ((enter_session o.one_sided joined.server_info).activity ≡ one_sided_session info)
  unfolding run_client
  run_client-one_sided joined info e = elim (Bool-cases o.benchmark_mode) [
    | inl a ↦ absurd (ground (arith, e))
    | inr a ↦ elim (Bool-cases joined.succeeded) [
      | inl s ↦ (a, s, ground (arith, e))
      | inr s ↦ absurd (ground (arith, e))
    ]
  ]

  -- what the start of the one-sided interactive session says of the options and of the connection
  pub run_client-IsExported :
      (p : Peer) (reached : Bool) (info : QpInfo)
      → (run_client o two_sided_result one_sided_result (connect_rdma_session p reached)).activity
        ≡ one_sided_session info
      → (o.one_sided ≡ true)
        × (o.benchmark_mode ≡ false)
        × ((connect_rdma_session p reached).context.qp_state ≡ ready_to_send)
        × (p.remote ≡ some info)
        × ((info.addr == 0) ≡ false)
        × (info.num_slots ≡ num_slots)
  run_client-IsExported p reached info e =
      let h = connect_rdma_session-HasJoined p reached in
      let (mode, joined, start) = run_client-one_sided (connect_rdma_session p reached) info e in
      let (one, sent, addr, slots) = enter_session-one_sided o.one_sided _ info start in
      (
        one,
        mode,
        h.ready joined,
        sym (h.informed joined).0 ∙ sent,
        addr,
        (==_iff info.num_slots num_slots).0 slots,
      )

-- whether the last `--mode` of the settings is that of the one-sided client, `m` where there is none
abbrev pub last_mode : {D : Type 0} → List (Setting D) → Bool → Bool
last_mode [] m = m
last_mode (set_mode b ∷ ss) m = last_mode ss (b == bytes "one-sided")
last_mode (s ∷ ss) m = last_mode ss m

-- whether `--benchmark` is among them, or `b`
abbrev pub asks_benchmark : {D : Type 0} → List (Setting D) → Bool → Bool
asks_benchmark [] b = b
asks_benchmark (set_benchmark ∷ ss) b = asks_benchmark ss true
asks_benchmark (s ∷ ss) b = asks_benchmark ss b

module _ {D : Type 0} where
  apply_all-modes :
      (ss : List (Setting D)) (o : Options D)
      → ((apply_all ss o).one_sided ≡ last_mode ss o.one_sided)
        × ((apply_all ss o).benchmark_mode ≡ asks_benchmark ss o.benchmark_mode)
  apply_all-modes [] o = (refl, refl)
  apply_all-modes (set_mode b ∷ ss) o = apply_all-modes ss _
  apply_all-modes (set_host b ∷ ss) o = apply_all-modes ss _
  apply_all-modes (set_port n ∷ ss) o = apply_all-modes ss _
  apply_all-modes (set_device b ∷ ss) o = apply_all-modes ss _
  apply_all-modes (set_ops n ∷ ss) o = apply_all-modes ss _
  apply_all-modes (set_warmup n ∷ ss) o = apply_all-modes ss _
  apply_all-modes (set_keys n ∷ ss) o = apply_all-modes ss _
  apply_all-modes (set_clients n ∷ ss) o = apply_all-modes ss _
  apply_all-modes (set_value_size n ∷ ss) o = apply_all-modes ss _
  apply_all-modes (set_get_ratio d ∷ ss) o = apply_all-modes ss _
  apply_all-modes (set_zipf_s d ∷ ss) o = apply_all-modes ss _
  apply_all-modes (set_csv b ∷ ss) o = apply_all-modes ss _
  apply_all-modes (set_benchmark ∷ ss) o = apply_all-modes ss _
  apply_all-modes (set_no_prefill ∷ ss) o = apply_all-modes ss _
  apply_all-modes (set_metadata ∷ ss) o = apply_all-modes ss _

  module _ (stod : Bytes → Option D) (show : D → Bytes) (reads : (d : D) → stod (show d) ≡ some d)
      (ratio skew : D) where
    -- A client that is started with settings in range, whose floating-point numbers `std::stod` reads,
    -- starts the one-sided interactive session on a QpInfo only where the last `--mode` among the settings
    -- is one-sided, none of them is `--benchmark`, its queue pair can send, and the server has sent
    -- this QpInfo, which has an address and as many slots as the client expects.
    pub argument_line-IsExported :
        (ss : List (Setting D)) (o : Options D) (two_sided_result one_sided_result : Bool)
        → (p : Peer) (reached : Bool) (info : QpInfo) → All IsInRange ss
        → parse_arguments D stod (argument_line D stod show ss) (default_options D stod ratio skew)
          ≡ some o
        → (run_client o two_sided_result one_sided_result (connect_rdma_session p reached)).activity
          ≡ one_sided_session info
        → (last_mode ss false ≡ true)
          × (asks_benchmark ss false ≡ false)
          × ((connect_rdma_session p reached).context.qp_state ≡ ready_to_send)
          × (p.remote ≡ some info)
          × ((info.addr == 0) ≡ false)
          × (info.num_slots ≡ num_slots)
    argument_line-IsExported ss o two_sided_result one_sided_result p reached info h parsed e =
        let start = default_options D stod ratio skew in
        let same : apply_all ss start ≡ o =
          same_options
            (sym (parse_arguments-argument_line D stod show reads ss start h) ∙ parsed) in
        let (mode, bench) = apply_all-modes ss start in
        let (one, two, ready, remote, addr, slots) =
          run_client-IsExported o two_sided_result one_sided_result p reached info e in
        (
          sym mode ∙ ap (λ (x : Options D). x.one_sided) same ∙ one,
          sym bench ∙ ap (λ (x : Options D). x.benchmark_mode) same ∙ two,
          ready,
          remote,
          addr,
          slots,
        )
      where
        same_options : {a b : Options D} → some a ≡ some b → a ≡ b
        same_options q = cc
