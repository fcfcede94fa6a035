-- ===== src/Client/Benchmark/TwoSided/Prefill.antt =====
-- The pre-filling of the two-sided benchmark, in conversation with the server.
use cs2640_final_project.Prelude.{
  ℕ, zero, suc, ◌+◌, ◌≡◌, true, List, [], ◌∷◌, nat_eq, list_eq, bytes,
}
use cs2640_final_project.KvStore
use cs2640_final_project.RdmaContext.{RdmaContext}
use cs2640_final_project.Client.TwoSided.{Exchange, Reply}

-- the exchanges of `n` keys, from key `i`
abbrev pub exchange_list : (ℕ → Exchange) → ℕ → ℕ → List Exchange
exchange_list exchanges zero i = []
exchange_list exchanges (suc n) i = exchanges i ∷ exchange_list exchanges n (i + 1)

abbrev IsStored : Reply → Type 0
IsStored x = (x.ok ≡ true) × (x.response ≡ bytes "OK")
