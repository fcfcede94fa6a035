-- ===== src/Tests/Statistics.antt =====
-- The percentiles of four latencies.
use cs2640_final_project.Prelude.{
  ℕ, ◌*◌, ◌/◌, ◌≤◌, ◌<◌, ◌≡◌, refl, List, [], ◌∷◌, arith, length, nat_eq,
}
use cs2640_final_project.Client.Benchmark.Statistics.{
  sort, insert_sorted, percentile_index, percentile, percentiles,
}
use cs2640_final_project.Client.Benchmark.Statistics.Ranks.{HasRank, percentiles-HasRank}

abbrev measured_times : List ℕ
measured_times = 7 ∷ 3 ∷ 40 ∷ 5 ∷ []

-- per cent in place of a fraction
abbrev per_cent : ℕ → ℕ → ℕ
per_cent f n = f * n / 100

percentiles_run :
    let p = percentiles per_cent 50 95 99 measured_times in (p.p50 ≡ 5) × (p.p95 ≡ 7) × (p.p99 ≡ 7)
unfolding percentiles percentile percentile_index sort insert_sorted
percentiles_run = (refl, refl, refl)

percentiles-HasRank_example :
    let p = percentiles per_cent 50 95 99 measured_times in
    HasRank measured_times (percentile_index per_cent 50 measured_times) p.p50
    × HasRank measured_times (percentile_index per_cent 95 measured_times) p.p95
    × HasRank measured_times (percentile_index per_cent 99 measured_times) p.p99
    × (percentile_index per_cent 99 measured_times < length measured_times)
    × (p.p50 ≤ p.p95)
    × (p.p95 ≤ p.p99)
percentiles-HasRank_example =
    percentiles-HasRank per_cent 50 95 99 measured_times (omega arith) (omega arith) (omega arith)
