-- ===== src/Client/Benchmark/OneSided/Counts.antt =====
-- What the one-sided benchmark counts.
use cs2640_final_project.Prelude.{
  ℕ, ◌^◌, ◌≤◌, ◌<◌, ◌≡◌, refl, Bool, false, ◌&&◌, ◌||◌, not, none, some, arith, ◌==◌, nat_eq, ltb,
  Bool-cases, Option, inl, inr,
}
use cs2640_final_project.RdmaStore.{num_slots}
use cs2640_final_project.OneSided.{Fabric}
use cs2640_final_project.Client.Benchmark.{BenchmarkResult, given_up, run_workers}
use cs2640_final_project.Client.Benchmark.Tally.{
  Tally, run_phases-Tally, given_up-Tally, run_workers-Tally,
}
use cs2640_final_project.Client.Benchmark.OneSided.{
  Setup, get_request, run_gets, register_regions, check_session, run_one_sided_worker, Worker,
  worker_result, run_one_sided_benchmark,
}

module _ (f : Fabric) (metadata : Bool) (draw time : ℕ → ℕ) (worker_ops warmup_ops : ℕ)
    (a : worker_ops < 2 ^ 64) (b : warmup_ops < 2 ^ 64) (w : f.World) where
  gave_up : Tally (given_up worker_ops warmup_ops) worker_ops warmup_ops
  gave_up = given_up-Tally worker_ops warmup_ops a b

  run_gets-Tally :
      (base : ℕ)
      → Tally (run_gets f metadata draw time worker_ops warmup_ops w base) worker_ops warmup_ops
  unfolding run_gets
  run_gets-Tally base =
      run_phases-Tally (get_request f metadata draw base) time worker_ops warmup_ops _ a b

  register_regions-Tally :
      (setup : Setup) (base : ℕ)
      → Tally
          (register_regions f metadata draw time worker_ops warmup_ops w setup base)
          worker_ops
          warmup_ops
  unfolding register_regions
  register_regions-Tally setup base =
      let run = run_gets-Tally base in
      elim (Bool-cases setup.slot_registered) [
        | inl s ↦ rw s (elim (Bool-cases metadata) [
          | inl m ↦ rw m (elim (Bool-cases setup.atomic_registered) [
            | inl r ↦ rw r (rw m at run)
            | inr r ↦ rw r gave_up
          ])
          | inr m ↦ rw m (rw m at run)
        ])
        | inr s ↦ rw s gave_up
      ]

  check_session-Tally :
      (setup : Setup) (session : Option (ℕ × ℕ))
      → Tally
          (check_session f metadata draw time worker_ops warmup_ops w setup session)
          worker_ops
          warmup_ops
  unfolding check_session
  check_session-Tally setup none = gave_up
  check_session-Tally setup (some (addr, slots)) =
      elim (Bool-cases (addr == 0 || not (slots == num_slots))) [
        | inl c ↦ rw c gave_up
        | inr c ↦ rw c (register_regions-Tally setup addr)
      ]

  pub run_one_sided_worker-Tally :
      (setup : Setup)
      → Tally
          (run_one_sided_worker f metadata draw time worker_ops warmup_ops w setup)
          worker_ops
          warmup_ops
  unfolding run_one_sided_worker
  run_one_sided_worker-Tally setup = check_session-Tally setup setup.session

-- what the benchmark asks of its arguments
pub record Accepted (clients ops key_count : ℕ) : Type 0 where
  pub some_client : 0 < clients
  pub some_key : 0 < key_count
  pub enough : clients ≤ ops

success :
    (r : BenchmarkResult) (ops warmup_count : ℕ)
    → Tally r ops warmup_count
    → (r.measured_errors == 0 && r.warmup_errors == 0)
      ≡ (r.measured_ok_responses == ops && r.warmup_ok_responses == warmup_count)
success r ops warmup_count t = ground (arith, t.measures, t.warms_up)

-- For accepted arguments, whatever the network does and however many workers get no session: every
-- operation is counted once, as a good response or as an error, and so is every warm-up operation; no
-- more latencies than operations are measured; and the benchmark succeeds exactly when all operations
-- and all warm-up operations are good.
pub run_one_sided_benchmark-Tally :
    (clients ops warmup_count key_count : ℕ) (metadata : Bool) (workers : ℕ → Worker)
    → Accepted clients ops key_count
    → ops < 2 ^ 64
    → warmup_count < 2 ^ 64
    → let report = run_one_sided_benchmark clients ops warmup_count key_count metadata workers in
      (r : BenchmarkResult) × (report.sums ≡ some r)
      × Tally r ops warmup_count
      × (report.succeeded
          ≡ (r.measured_ok_responses == ops && r.warmup_ok_responses == warmup_count))
unfolding run_one_sided_benchmark
run_one_sided_benchmark-Tally clients ops warmup_count key_count metadata workers ok a b =
    let r = run_workers ops warmup_count clients (worker_result metadata workers) in
    let t : Tally r ops warmup_count =
      run_workers-Tally ops warmup_count clients (worker_result metadata workers) ok.some_client a b
        (λ i n m x y.
          unfold worker_result in
          run_one_sided_worker-Tally (workers i).fabric metadata (workers i).draw (workers i).time n
            m x y (workers i).world (workers i).setup) in
    let accepted : (clients == 0 || (ops == 0 || (key_count == 0 || ltb ops clients))) ≡ false =
      ground (arith, ok.some_client, ok.some_key, ok.enough) in
    (r, rw accepted refl, t, rw accepted (success r ops warmup_count t))
