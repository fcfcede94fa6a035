-- ===== src/Client/Benchmark.antt =====
-- What the two benchmarks of src/client/rdma_client.cpp share: `BenchmarkResult`, the loop `run_phase`
-- of the workers, the sharing out of the operations, and the sums over the workers. A worker thread
-- is a function of the operations that it is given; `time` is what the clock measures.
pub mod Shares
pub mod Tally
pub mod OneSided
pub mod TwoSided
pub mod Csv
pub mod Statistics
pub mod Sampling
use cs2640_final_project.Prelude.{
  ℕ, zero, suc, ◌+◌, ◌/◌, ◌%◌, ◌^◌, Bool, true, false, List, [], ◌∷◌, ◌++◌, ltb, if◌then◌else◌,
}

-- addition of `std::size_t`
abbrev pub add_size : ℕ → ℕ → ℕ
add_size m n = (m + n) % 2 ^ 64

pub record BenchmarkResult : Type 0 where
  pub latencies_us : List ℕ
  pub measured_ok_responses : ℕ
  pub measured_errors : ℕ
  pub warmup_ok_responses : ℕ
  pub warmup_errors : ℕ

abbrev pub no_result : BenchmarkResult
no_result = record {
  latencies_us = [];
  measured_ok_responses = 0;
  measured_errors = 0;
  warmup_ok_responses = 0;
  warmup_errors = 0;
}

-- a worker that gives up: `measured_errors += worker_ops; warmup_errors += warmup_ops;`
abbrev pub given_up : ℕ → ℕ → BenchmarkResult
given_up worker_ops warmup_ops = record no_result {
  measured_errors = add_size 0 worker_ops;
  warmup_errors = add_size 0 warmup_ops;
}

-- the end of a round of `run_phase`
unfoldable pub count_response : Bool → Bool → ℕ → BenchmarkResult → BenchmarkResult
count_response measure ok latency r =
    if measure
    then (if ok
        then record r {
          measured_ok_responses = add_size r.measured_ok_responses 1;
          latencies_us = r.latencies_us ++ latency ∷ [];
        }
        else record r {
          measured_errors = add_size r.measured_errors 1;
          latencies_us = r.latencies_us ++ latency ∷ [];
        })
    else if ok
    then record r { warmup_ok_responses = add_size r.warmup_ok_responses 1 }
    else record r { warmup_errors = add_size r.warmup_errors 1 }

-- One request of a worker with state `S`: whether its response counts as good.
module _ {S : Type 0} (request : ℕ → ℕ → S → Bool × S) (time : ℕ → ℕ) where
  -- `run_phase` with `count` rounds left, from round `i`; `drawn` counts the requests of the worker so
  -- far, so that it says where its random numbers stand.
  unfoldable pub run_phase : Bool → ℕ → ℕ → ℕ → BenchmarkResult → S → BenchmarkResult × S
  run_phase measure zero i drawn r s = (r, s)
  run_phase measure (suc count) i drawn r s =
      let (ok, s') = request drawn i s in
      run_phase measure count (i + 1) (drawn + 1) (count_response measure ok (time drawn) r) s'

  -- `run_phase(warmup_ops, false); run_phase(worker_ops, true);`
  unfoldable pub run_phases : ℕ → ℕ → S → BenchmarkResult × S
  run_phases worker_ops warmup_ops s =
      let (r, s') = run_phase false warmup_ops 0 0 no_result s in
      run_phase true worker_ops 0 warmup_ops r s'

-- `base + (i < remainder ? 1 : 0)`, where `total` operations are shared out to `clients` workers
abbrev pub share : ℕ → ℕ → ℕ → ℕ
share total clients i = add_size (total / clients) (if ltb i (total % clients) then 1 else 0)

-- the sums over the workers; the workers are joined before
abbrev pub add_result : BenchmarkResult → BenchmarkResult → BenchmarkResult
add_result sum r = record {
  latencies_us = sum.latencies_us ++ r.latencies_us;
  measured_ok_responses = add_size sum.measured_ok_responses r.measured_ok_responses;
  measured_errors = add_size sum.measured_errors r.measured_errors;
  warmup_ok_responses = add_size sum.warmup_ok_responses r.warmup_ok_responses;
  warmup_errors = add_size sum.warmup_errors r.warmup_errors;
}

module _ (ops warmup_count clients : ℕ) (worker : ℕ → ℕ → ℕ → BenchmarkResult) where
  unfoldable pub sum_results : ℕ → ℕ → BenchmarkResult → BenchmarkResult
  sum_results zero i sum = sum
  sum_results (suc rounds) i sum =
      sum_results rounds (i + 1)
        (add_result sum (worker i (share ops clients i) (share warmup_count clients i)))

  unfoldable pub run_workers : BenchmarkResult
  run_workers = sum_results clients 0 no_result
