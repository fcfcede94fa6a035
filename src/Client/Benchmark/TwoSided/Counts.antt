-- ===== src/Client/Benchmark/TwoSided/Counts.antt =====
-- What the two-sided benchmark counts.
use cs2640_final_project.Prelude.{
  ℕ, ◌+◌, ◌^◌, ◌≤◌, ◌<◌, ◌≡◌, refl, Bool, true, false, ◌&&◌, ◌||◌, not, Option, none, some, arith,
  ◌==◌, nat_eq, ltb, ◌%◌,
}
use cs2640_final_project.RdmaContext.{RdmaContext, msg_size}
use cs2640_final_project.Client.TwoSided.{Exchange}
use cs2640_final_project.Client.Benchmark.{BenchmarkResult, run_workers}
use cs2640_final_project.Client.Benchmark.Tally.{
  Tally, run_phases-Tally, given_up-Tally, run_workers-Tally,
}
use cs2640_final_project.Client.Benchmark.TwoSided.{
  Draw, benchmark_request, run_two_sided_worker, Worker, worker_result, run_two_sided_benchmark,
}

run_two_sided_worker-Tally :
    (value_size i : ℕ) (draw : ℕ → Draw) (exchanges : ℕ → Exchange) (time : ℕ → ℕ)
    → (worker_ops warmup_ops : ℕ) (c : Option RdmaContext) → worker_ops < 2 ^ 64
    → warmup_ops < 2 ^ 64
    → Tally
        (run_two_sided_worker value_size i draw exchanges time worker_ops warmup_ops c)
        worker_ops
        warmup_ops
unfolding run_two_sided_worker
run_two_sided_worker-Tally value_size i draw exchanges time n m none a b = given_up-Tally n m a b
run_two_sided_worker-Tally value_size i draw exchanges time n m (some c) a b =
    run_phases-Tally (benchmark_request value_size i draw exchanges) time n m c a b

-- what the benchmark asks of its arguments
pub record Accepted (clients ops key_count value_size : ℕ) : Type 0 where
  pub some_client : 0 < clients
  pub some_key : 0 < key_count
  pub enough : clients ≤ ops
  pub some_value : 0 < value_size
  pub fits : value_size + 128 ≤ msg_size

-- For accepted arguments, where the pre-filling is off or has succeeded, whatever the RDMA calls of the
-- workers return and however many workers get no session: every operation and every warm-up operation
-- is counted once, as good or as an error, and no more latencies than operations are measured.
-- The benchmark says that it has succeeded, also if all operations were errors.
pub run_two_sided_benchmark-Tally :
    (clients ops warmup_count key_count value_size : ℕ) (prefill filled : Bool)
    (workers : ℕ → Worker)
    → Accepted clients ops key_count value_size
    → ops < 2 ^ 64
    → warmup_count < 2 ^ 64
    → (prefill && not filled) ≡ false
    → let report =
        run_two_sided_benchmark clients ops warmup_count key_count value_size true prefill filled
          workers in
      (r : BenchmarkResult) × (report.sums ≡ some r)
      × Tally r ops warmup_count
      × (report.succeeded ≡ true)
unfolding run_two_sided_benchmark
run_two_sided_benchmark-Tally clients ops warmup_count key_count value_size prefill filled workers
      ok a b p =
    let r = run_workers ops warmup_count clients (worker_result value_size workers) in
    let t : Tally r ops warmup_count =
      run_workers-Tally ops warmup_count clients (worker_result value_size workers) ok.some_client a
        b
        (λ i n m x y.
          unfold worker_result in
          run_two_sided_worker-Tally value_size i (workers i).draw (workers i).exchanges
            (workers i).time n m (workers i).context x y) in
    let accepted : (clients == 0
          || (ops == 0
              || (key_count == 0
                  || (value_size == 0
                      || (ltb msg_size ((value_size + 128) % 2 ^ 64)
                          || (not true || ltb ops clients))))))
        ≡ false =
      ground (arith, ok.some_client, ok.some_key, ok.enough, ok.some_value, ok.fits) in
    (r, rw (accepted, p) refl, t, rw (accepted, p) refl)
