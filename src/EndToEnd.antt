-- ===== src/EndToEnd.antt =====
-- The one-sided mode from the two command lines to the answer: `main` of src/server/rdma_main.cpp loads
-- and exports its table, `main` of src/client/rdma_client.cpp connects, and `one_sided_get` reads the table
-- through the work requests of src/net/rdma_context.cpp.
use cs2640_final_project.Prelude.{
  ℕ, ◌+◌, ◌*◌, ◌<◌, ◌≡◌, sym, ap, subst, ◌∙◌, Bool, true, none, some, List, [], ◌∷◌, arith, All,
  if◌then◌else◌, nat_eq, list_eq, Bytes, bytes,
}
use cs2640_final_project.RdmaStore.{RdmaSlot, slot_at, num_slots, get, c_string}
use cs2640_final_project.Preload.{preload}
use cs2640_final_project.Preload.Stored.{IsInt, Loaded, preload-Loaded}
use cs2640_final_project.RdmaContext.Requests.{Region, SendRequest}
use cs2640_final_project.Handshake.{QpInfo, Peer, connect_rdma_session}
use cs2640_final_project.Handshake.Region.{Port, exported_info}
use cs2640_final_project.OneSided.{slot_size, slot_address, one_sided_get}
use cs2640_final_project.OneSided.Get.{Exports, IsReliable, one_sided_get-get}
use cs2640_final_project.OneSided.Card.{Card, driver}
use cs2640_final_project.OneSided.Regions.{binding, IsPlaced, Registered, IsLegal}
use cs2640_final_project.OneSided.Bounds.{table_is, one_sided-AllLegal}
use cs2640_final_project.OneSided.Export.{Fitting}
use cs2640_final_project.RdmaStore.Valid.{IsKey}
use cs2640_final_project.Arguments.Client.{Options, one_sided_session, run_client}
use cs2640_final_project.Arguments.Client.Dispatch.{run_client-IsExported}
use cs2640_final_project.Arguments.Server.{
  AcceptAnswer, ServerRun, default_server, run_server, server_main, preload_table,
}
use cs2640_final_project.Arguments.Server.Clients.{
  set_mode, set_preload, argument_line, parse-argument_line,
}

-- `--mode one-sided --preload n`
abbrev pub server_arguments : ℕ → List Bytes
server_arguments n = argument_line (set_mode (bytes "one-sided") ∷ set_preload n ∷ [])

-- the table that `main` of the server serves from
loaded_table :
    (n : ℕ) (rs : List AcceptAnswer) (run : ServerRun)
    → IsInt n
    → server_main (server_arguments n) true rs ≡ some run
    → run.table ≡ preload n
unfolding server_main run_server preload_table
loaded_table n rs run int e =
    let parsed =
      parse-argument_line (set_mode (bytes "one-sided") ∷ set_preload n ∷ []) default_server
        (tt, (omega (arith, int), tt)) in
    let ran = rw parsed at e in ap (λ (r : ServerRun). r.table) (sym (some_injective _ run ran))
  where
    some_injective : (a b : ServerRun) → some a ≡ some b → a ≡ b
    some_injective a b h = cc

slot_place :
    (base p : ℕ) → Fitting base → p < num_slots → slot_address base p ≡ base + p * slot_size
unfolding slot_address
slot_place base p fit lt = omega (arith, fit, lt)

some_equal : {a b : QpInfo} → some a ≡ some b → a ≡ b
some_equal h = cc

-- What a client and a server that work together meet: the server has started with `--mode one-sided
-- --preload preload_n` and serves from `run.table`, which stands at `slots` and is registered; the
-- client has got what the handler sends, goes to the table, has registered its buffers, and works on a
-- card on which no verb fails.
pub record Together (c : Card) (w : c.World) (preload_n slots : ℕ)
    (table slot_mr atomic_mr : Region) (info : QpInfo) : Type 0 where
  pub answers : List AcceptAnswer
  pub run : ServerRun
  pub started : server_main (server_arguments preload_n) true answers ≡ some run
  pub slot : ℕ
  pub atomic : ℕ
  pub placed : IsPlaced slots
  pub registered : Registered slots slot atomic table slot_mr atomic_mr
  pub in_memory : (p : ℕ) → p < num_slots → c.memory w (slots + p * slot_size) ≡ slot_at run.table p
  pub port : Port
  pub peer : Peer
  pub told : peer.remote ≡ some (exported_info port table)
  pub options : Options Bool
  pub goes :
      (run_client options true true (connect_rdma_session peer true)).activity
      ≡ one_sided_session info
  pub reliable : IsReliable (driver c (binding info slot_mr atomic_mr))

module _ (c : Card) (w : c.World) (n slots : ℕ) (table slot_mr atomic_mr : Region) (info : QpInfo)
    (int : IsInt n) (t : Together c w n slots table slot_mr atomic_mr info) where
  info_is : exported_info t.port table ≡ info
  info_is =
      let (_, _, _, sent, _, _) =
        run_client-IsExported t.options true true t.peer true info t.goes in
      some_equal (sym t.told ∙ sent)

  base_is : info.addr ≡ slots
  unfolding exported_info
  base_is =
      ap (λ (x : QpInfo). x.addr) (sym info_is)
      ∙ (table_is c t.port slots t.slot t.atomic t.placed table slot_mr atomic_mr t.registered).0

  exported :
      (log : List SendRequest)
      → Exports (driver c (binding info slot_mr atomic_mr)) info.addr (preload n) (w, log)
  exported log = record {
    holds = λ p lt.
        ap (c.memory w) (ap (λ b. slot_address b p) base_is ∙ slot_place slots p t.placed.fits lt)
        ∙ t.in_memory p lt
        ∙ ap (λ s. slot_at s p) (loaded_table n t.answers t.run int t.started);
  }

  -- The server has started with `--mode one-sided --preload n`, where `n` fits an `int`, and exports its
  -- table; the client has got the QpInfo that the handler sends and goes to the table, and no verb fails.
  -- Then for a key that fits and holds no NUL the client finds what `get` returns on the pre-loaded table: the
  -- value of each key that was to be pre-loaded and is among the first 4096, and a miss for any other key;
  -- and every request that it posts is legal.
  pub one_sided_get-preload :
      (key : Bytes) (metadata : Bool) (local_slot : RdmaSlot) (atomic_result : ℕ)
      → IsKey key
      → let st =
          one_sided_get
            (driver c (binding info slot_mr atomic_mr))
            info.addr
            key
            metadata
            local_slot
            atomic_result
            (w, []) in
        ((if st.found then some (c_string st.slot.value) else none) ≡ get (preload n) key)
        × Loaded n (preload n)
        × All (IsLegal table slot_mr atomic_mr) st.world.1
  one_sided_get-preload key metadata local_slot atomic_result k =
      let b = binding info slot_mr atomic_mr in
      let legal =
        one_sided-AllLegal c t.port slots t.slot t.atomic t.placed table slot_mr atomic_mr
          t.registered key [] metadata local_slot atomic_result (w, []) tt in
      (
        sym (
            one_sided_get-get (driver c b) info.addr (preload n) key k metadata t.reliable
              local_slot atomic_result (w, []) (exported [])),
        preload-Loaded n int,
        subst
            (λ (x : QpInfo).
              All (IsLegal table slot_mr atomic_mr)
                (one_sided_get (driver c (binding x slot_mr atomic_mr)) x.addr key metadata
                  local_slot atomic_result (w, [])).world.1)
            info_is legal.0,
      )
