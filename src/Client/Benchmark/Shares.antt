-- ===== src/Client/Benchmark/Shares.antt =====
-- The operations that the benchmarks hand out to their workers.
use cs2640_final_project.Prelude.{
  ℕ, zero, suc, ◌+◌, ◌*◌, ◌/◌, ◌%◌, ◌^◌, ◌≤◌, ◌<◌, ◌≡◌, sym, subst, arith, ltb, if◌then◌else◌,
}
use native.Mathlib.Nat.{
  div-add-mod, mod-lt, suc-mul, zero-mul, mod-eq_of_lt, le-mul_of_pos_right, mul-le-mul_right,
}
use cs2640_final_project.Client.Benchmark.{share}

-- what the first `i` workers are given
abbrev pub handed : ℕ → ℕ → ℕ → ℕ
handed total clients zero = 0
handed total clients (suc i) = handed total clients i + share total clients i

module _ (total clients : ℕ) (some_client : 0 < clients) (size : total < 2 ^ 64) where
  whole : clients * (total / clients) + total % clients ≡ total
  whole = div-add-mod total clients

  share_small : total / clients + total % clients ≤ total
  share_small = omega (arith, whole, le-mul_of_pos_right (total / clients) some_client)

  share_lem :
      (i : ℕ) → share total clients i ≡ total / clients + (if ltb i (total % clients) then 1 else 0)
  share_lem i = mod-eq_of_lt (ground (arith, share_small, size))

  pub share-le : (i : ℕ) → share total clients i ≤ total
  share-le i = subst (λ m. m ≤ total) (sym (share_lem i)) (ground (arith, share_small))

  handed_lem :
      (i : ℕ)
      → handed total clients i
        ≡ i * (total / clients) + (if ltb i (total % clients) then i else total % clients)
  handed_lem zero = ground (arith, zero-mul (total / clients))
  handed_lem (suc i) =
      let before = handed_lem i in
      let here = share_lem i in
      let times = suc-mul i (total / clients) in ground (arith, before, here, times)

  pub handed-le : (i : ℕ) → i ≤ clients → handed total clients i ≤ total
  handed-le i a =
      let below = mul-le-mul_right (total / clients) a in ground (arith, handed_lem i, whole, below)

  -- Every operation is handed out to exactly one worker.
  pub handed_all : handed total clients clients ≡ total
  handed_all = ground (arith, handed_lem clients, whole, mod-lt total some_client)
