-- ===== src/Client/Benchmark/Tally.antt =====
-- Every operation of a benchmark is counted once.
use cs2640_final_project.Prelude.{
  ℕ, zero, suc, ◌+◌, ◌^◌, ◌≤◌, ◌<◌, ◌≡◌, refl, subst, Bool, true, false, [], ◌∷◌, length,
  length-append, arith,
}
use cs2640_final_project.Client.Benchmark.{
  BenchmarkResult, no_result, given_up, count_response, run_phase, run_phases, share, add_result,
  sum_results, run_workers,
}
use cs2640_final_project.Client.Benchmark.Shares.{handed, handed_all, handed-le, share-le}

-- how many measured operations and how many warm-up operations a result counts
abbrev pub measured : BenchmarkResult → ℕ
measured r = r.measured_ok_responses + r.measured_errors

abbrev pub warmed_up : BenchmarkResult → ℕ
warmed_up r = r.warmup_ok_responses + r.warmup_errors

-- A result counts so many operations; there is no latency without a measured operation.
pub record Tally (r : BenchmarkResult) (ops warmup_ops : ℕ) : Type 0 where
  pub measures : measured r ≡ ops
  pub warms_up : warmed_up r ≡ warmup_ops
  pub timed : length r.latencies_us ≤ ops

count_measured :
    (ok : Bool) (latency ops warmup_ops : ℕ) (r : BenchmarkResult)
    → ops + 1 < 2 ^ 64
    → Tally r ops warmup_ops
    → Tally (count_response true ok latency r) (ops + 1) warmup_ops
unfolding count_response
count_measured ok latency ops warmup_ops r a t =
    let grown = length-append r.latencies_us (latency ∷ []) in
    elim ok as (λ o. Tally (count_response true o latency r) (ops + 1) warmup_ops) [
      | true ↦ record {
        measures = omega (arith, t.measures, a);
        warms_up = t.warms_up;
        timed = omega (arith, t.timed, grown);
      }
      | false ↦ record {
        measures = omega (arith, t.measures, a);
        warms_up = t.warms_up;
        timed = omega (arith, t.timed, grown);
      }
    ]

count_warmup :
    (ok : Bool) (latency ops warmup_ops : ℕ) (r : BenchmarkResult)
    → warmup_ops + 1 < 2 ^ 64
    → Tally r ops warmup_ops
    → Tally (count_response false ok latency r) ops (warmup_ops + 1)
unfolding count_response
count_warmup ok latency ops warmup_ops r a t =
    elim ok as (λ o. Tally (count_response false o latency r) ops (warmup_ops + 1)) [
      | true ↦ record {
        measures = t.measures;
        warms_up = omega (arith, t.warms_up, a);
        timed = t.timed;
      }
      | false ↦ record {
        measures = t.measures;
        warms_up = omega (arith, t.warms_up, a);
        timed = t.timed;
      }
    ]

module _ {S : Type 0} (request : ℕ → ℕ → S → Bool × S) (time : ℕ → ℕ) where
  phase_measured :
      (count i drawn ops warmup_ops : ℕ) (r : BenchmarkResult) (s : S)
      → ops + count < 2 ^ 64
      → Tally r ops warmup_ops
      → Tally (run_phase request time true count i drawn r s).0 (ops + count) warmup_ops
  unfolding run_phase
  phase_measured zero i drawn ops warmup_ops r s a t =
      subst (λ m. Tally r m warmup_ops) (omega arith) t
  phase_measured (suc count) i drawn ops warmup_ops r s a t =
      let (ok, s') = request drawn i s in
      let r' = count_response true ok (time drawn) r in
      let h =
        phase_measured count (i + 1) (drawn + 1) (ops + 1) warmup_ops r' s' (omega (arith, a))
          (count_measured ok (time drawn) ops warmup_ops r (omega (arith, a)) t) in
      subst
        (λ m. Tally (run_phase request time true count (i + 1) (drawn + 1) r' s').0 m warmup_ops)
        (omega arith) h

  phase_warmup :
      (count i drawn ops warmup_ops : ℕ) (r : BenchmarkResult) (s : S)
      → warmup_ops + count < 2 ^ 64
      → Tally r ops warmup_ops
      → Tally (run_phase request time false count i drawn r s).0 ops (warmup_ops + count)
  unfolding run_phase
  phase_warmup zero i drawn ops warmup_ops r s a t = subst (λ m. Tally r ops m) (omega arith) t
  phase_warmup (suc count) i drawn ops warmup_ops r s a t =
      let (ok, s') = request drawn i s in
      let r' = count_response false ok (time drawn) r in
      let h =
        phase_warmup count (i + 1) (drawn + 1) ops (warmup_ops + 1) r' s' (omega (arith, a))
          (count_warmup ok (time drawn) ops warmup_ops r (omega (arith, a)) t) in
      subst (λ m. Tally (run_phase request time false count (i + 1) (drawn + 1) r' s').0 ops m)
        (omega arith) h

  no_result-Tally : Tally no_result 0 0
  no_result-Tally = record { measures = refl; warms_up = refl; timed = omega arith }

  -- the two phases of a worker
  pub run_phases-Tally :
      (worker_ops warmup_ops : ℕ) (s : S)
      → worker_ops < 2 ^ 64
      → warmup_ops < 2 ^ 64
      → Tally (run_phases request time worker_ops warmup_ops s).0 worker_ops warmup_ops
  unfolding run_phases
  run_phases-Tally worker_ops warmup_ops s a b =
      let (r, s') = run_phase request time false warmup_ops 0 0 no_result s in
      subst (λ m. Tally (run_phase request time true worker_ops 0 warmup_ops r s').0 m warmup_ops)
        (omega arith)
        (phase_measured worker_ops 0 warmup_ops 0 warmup_ops r s' (omega (arith, a)) (
          subst (λ m. Tally (run_phase request time false warmup_ops 0 0 no_result s).0 0 m)
            (omega arith)
            (phase_warmup warmup_ops 0 0 0 0 no_result s (omega (arith, b)) no_result-Tally)))

pub given_up-Tally :
    (worker_ops warmup_ops : ℕ)
    → worker_ops < 2 ^ 64
    → warmup_ops < 2 ^ 64
    → Tally (given_up worker_ops warmup_ops) worker_ops warmup_ops
given_up-Tally worker_ops warmup_ops a b = record {
  measures = omega (arith, a);
  warms_up = omega (arith, b);
  timed = omega arith;
}

add_result-Tally :
    (sum r : BenchmarkResult) (ops warmup_ops ops' warmup_ops' : ℕ)
    → ops + ops' < 2 ^ 64
    → warmup_ops + warmup_ops' < 2 ^ 64
    → Tally sum ops warmup_ops
    → Tally r ops' warmup_ops'
    → Tally (add_result sum r) (ops + ops') (warmup_ops + warmup_ops')
add_result-Tally sum r ops warmup_ops ops' warmup_ops' a b t u = record {
  measures = omega (arith, t.measures, u.measures, a);
  warms_up = omega (arith, t.warms_up, u.warms_up, b);
  timed = omega (arith, t.timed, u.timed, length-append sum.latencies_us r.latencies_us);
}

module _ (ops warmup_count clients : ℕ) (worker : ℕ → ℕ → ℕ → BenchmarkResult)
    (some_client : 0 < clients) (a : ops < 2 ^ 64) (b : warmup_count < 2 ^ 64)
    (counts : (i n m : ℕ) → n < 2 ^ 64 → m < 2 ^ 64 → Tally (worker i n m) n m) where
  succ : (i : ℕ) → suc i ≡ i + 1
  succ i = omega arith

  sum_results-Tally :
      (rounds i : ℕ) (sum : BenchmarkResult)
      → i + rounds ≡ clients
      → Tally sum (handed ops clients i) (handed warmup_count clients i)
      → Tally (sum_results ops warmup_count clients worker rounds i sum) ops warmup_count
  unfolding sum_results
  sum_results-Tally zero i sum e t =
      let all : i ≡ clients = omega (arith, e) in
      let t' =
        subst (λ j. Tally sum (handed ops clients j) (handed warmup_count clients j)) all t in
      rw (handed_all ops clients some_client a, handed_all warmup_count clients some_client b) at t'
  sum_results-Tally (suc rounds) i sum e t =
      let n = share ops clients i in
      let m = share warmup_count clients i in
      let r = worker i n m in
      let in_ops = handed-le ops clients some_client a (suc i) (omega (arith, e)) in
      let in_warmup = handed-le warmup_count clients some_client b (suc i) (omega (arith, e)) in
      let t' =
        add_result-Tally sum r (handed ops clients i) (handed warmup_count clients i) n m
          (omega (arith, in_ops, a)) (omega (arith, in_warmup, b)) t
          (counts i n m (omega (arith, share-le ops clients some_client a i, a))
            (omega (arith, share-le warmup_count clients some_client b i, b))) in
      sum_results-Tally rounds (i + 1) (add_result sum r) (omega (arith, e)) (
        subst (λ j. Tally (add_result sum r) (handed ops clients j) (handed warmup_count clients j))
          (succ i) t')

  -- where every worker counts each of its operations once, so do the sums over the workers
  pub run_workers-Tally : Tally (run_workers ops warmup_count clients worker) ops warmup_count
  unfolding run_workers
  run_workers-Tally =
      sum_results-Tally clients 0 no_result (omega arith)
        (record { measures = refl; warms_up = refl; timed = omega arith })
