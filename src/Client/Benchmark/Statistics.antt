-- ===== src/Client/Benchmark/Statistics.antt =====
-- The statistics of both benchmarks of src/client/rdma_client.cpp: the sorted latencies and the
-- percentiles. Floating-point products are the parameter `scale`: `scale frac n` is `frac * n`, cut
-- down to a `std::size_t`.
pub mod Ranks
use cs2640_final_project.Prelude.{
  ℕ, ◌+◌, ◌-◌, Bool, true, false, List, [], ◌∷◌, leb, ltb, if◌then◌else◌, length, get_or,
}

-- `std::sort`
unfoldable pub insert_sorted : ℕ → List ℕ → List ℕ
insert_sorted x [] = x ∷ []
insert_sorted x (y ∷ ys) = let rest = insert_sorted x ys in if leb x y then x ∷ y ∷ ys else y ∷ rest

unfoldable pub sort : List ℕ → List ℕ
sort [] = []
sort (x ∷ xs) = insert_sorted x (sort xs)

-- `std::accumulate`
unfoldable pub accumulate : List ℕ → ℕ
accumulate [] = 0
accumulate (x ∷ xs) = x + accumulate xs

abbrev pub no_latency : List ℕ → Bool
no_latency [] = true
no_latency (x ∷ xs) = false

-- `std::min`
abbrev pub min_size : ℕ → ℕ → ℕ
min_size a b = if ltb b a then b else a

module _ {F : Type 0} (scale : F → ℕ → ℕ) where
  unfoldable pub percentile_index : F → List ℕ → ℕ
  percentile_index frac latencies =
      min_size (length latencies - 1) (scale frac (length latencies - 1))

  -- the lambda `percentile`, on the sorted latencies
  unfoldable pub percentile : F → List ℕ → ℕ
  unfolding percentile_index
  percentile frac latencies =
      if no_latency latencies then 0 else get_or latencies (percentile_index frac latencies) 0

  pub record Percentiles : Type 0 where
    pub p50 : ℕ
    pub p95 : ℕ
    pub p99 : ℕ

  -- the code from `std::sort` on; `half`, `most` and `nearly_all` are 0.50, 0.95 and 0.99
  unfoldable pub percentiles : F → F → F → List ℕ → Percentiles
  percentiles half most nearly_all latencies =
      let sorted = sort latencies in
      record {
        p50 = percentile half sorted;
        p95 = percentile most sorted;
        p99 = percentile nearly_all sorted;
      }
