-- ===== src/Client/Benchmark/OneSided/Hits.antt =====
-- The one-sided benchmark against a table that the server has pre-loaded.
use cs2640_final_project.Prelude.{
  ℕ, zero, suc, ◌+◌, ◌≤◌, ◌<◌, ◌≡◌, ◌≢◌, refl, sym, subst, ◌∙◌, Bool, true, false, ◌||◌, Option,
  none, some, arith, ◌==◌, nat_eq, ltb, if◌then◌else◌, Bool-cases, inl, inr, Bytes,
}
use cs2640_final_project.RdmaStore.{RdmaStore, num_slots, get}
use cs2640_final_project.RdmaStore.Valid.{IsValid}
use cs2640_final_project.OneSided.Get.{Exports, IsReliable, one_sided_get-get}
use cs2640_final_project.OneSided.Export.{Fitting}
use cs2640_final_project.OneSided.Counts.{Kept, one_sided_get-Kept}
use cs2640_final_project.Preload.{make_key, preload}
use cs2640_final_project.Preload.Stored.{IsInt, preload_key-IsKey, preload-Loaded}
use cs2640_final_project.Client.Benchmark.{
  BenchmarkResult, count_response, run_phase, run_phases, run_workers, sum_results, no_result,
}
use cs2640_final_project.Client.Benchmark.OneSided.{
  Buffers, get_request, run_gets, register_regions, check_session, run_one_sided_worker, Worker,
  worker_result, run_one_sided_benchmark,
}
use cs2640_final_project.Client.Benchmark.OneSided.Counts.{Accepted}

-- no request was counted as an error
abbrev IsClear : BenchmarkResult → Type 0
IsClear r = (r.measured_errors ≡ 0) × (r.warmup_errors ≡ 0)

good_response :
    (measure : Bool) (latency : ℕ) (r : BenchmarkResult)
    → IsClear r
    → IsClear (count_response measure true latency r)
unfolding count_response
good_response measure latency r c = ground (arith, c)

module _ {S : Type 0} (request : ℕ → ℕ → S → Bool × S) (time : ℕ → ℕ) (Good : S → Type 0)
    (succeeds : (drawn i : ℕ) (s : S)
      → Good s
      → ((request drawn i s).0 ≡ true) × Good (request drawn i s).1) where
  -- requests that succeed from every good state leave no error
  run_phase-IsClear :
      (measure : Bool) (count i drawn : ℕ) (r : BenchmarkResult) (s : S)
      → Good s
      → IsClear r
      → IsClear (run_phase request time measure count i drawn r s).0
        × Good (run_phase request time measure count i drawn r s).1
  unfolding run_phase
  run_phase-IsClear measure zero i drawn r s g c = (c, g)
  run_phase-IsClear measure (suc count) i drawn r s g c =
      let (ok, after) = succeeds drawn i s g in
      run_phase-IsClear measure count (i + 1) (drawn + 1) _ _ after
        (rw ok (good_response measure (time drawn) r c))

  run_phases-IsClear :
      (worker_ops warmup_ops : ℕ) (s : S)
      → Good s
      → IsClear (run_phases request time worker_ops warmup_ops s).0
  unfolding run_phases
  run_phases-IsClear worker_ops warmup_ops s g =
      let (c, g') = run_phase-IsClear false warmup_ops 0 0 no_result s g (refl, refl) in
      (run_phase-IsClear true worker_ops 0 warmup_ops _ _ g' c).0

-- A worker whose set-up succeeds, over a network without failures, and which draws keys below `key_count`.
pub record Ready (metadata : Bool) (key_count : ℕ) (store : RdmaStore) (x : Worker) : Type 0 where
  pub base : ℕ
  pub mapped : 0 < base
  pub connected : x.setup.session ≡ some (base, num_slots)
  pub slot_registered : x.setup.slot_registered ≡ true
  pub atomic_registered : x.setup.atomic_registered ≡ true
  pub reliable : IsReliable x.fabric
  pub fits : Fitting base
  pub exported : Exports x.fabric base store x.world
  pub drawn : (n : ℕ) → x.draw n < key_count

-- the keys that may be drawn are in the table
abbrev HasKeys : ℕ → RdmaStore → Type 0
HasKeys key_count store = (j : ℕ) → j < key_count → get store (make_key j) ≢ none

found_lem :
    (found : Bool) (v : Option Bytes) (m : Bytes)
    → v ≢ none
    → v ≡ (if found then some m else none)
    → found ≡ true
found_lem true v m n e = refl
found_lem false v m n e = absurd (n e)

module _ (metadata : Bool) (key_count : ℕ) (store : RdmaStore) (x : Worker)
    (ready : Ready metadata key_count store x) (valid : IsValid store)
    (has_keys : HasKeys key_count store) where
  open x use {fabric}

  abbrev Good : Buffers fabric → Type 0
  Good b = Kept fabric ready.base store b.world

  request_succeeds :
      (drawn i : ℕ) (b : Buffers fabric)
      → Good b
      → ((get_request fabric metadata x.draw ready.base drawn i b).0 ≡ true)
        × Good (get_request fabric metadata x.draw ready.base drawn i b).1
  unfolding get_request
  request_succeeds drawn i b g =
      let k = make_key (x.draw drawn) in
      let key = preload_key-IsKey (x.draw drawn) in
      let same =
        one_sided_get-get fabric ready.base g.after k key metadata ready.reliable b.slot b.atomic
          b.world g.exported in
      let kept =
        one_sided_get-Kept fabric ready.base g.after k ready.reliable ready.fits g.valid key
          metadata b.slot b.atomic b.world g.exported in
      (
        found_lem _ _ _ (λ e. has_keys (x.draw drawn) (ready.drawn drawn) (sym (g.same k key) ∙ e))
            same,
        record {
          after = kept.after;
          valid = kept.valid;
          same = λ q c. kept.same q c ∙ g.same q c;
          exported = kept.exported;
        },
      )

  module _ (worker_ops warmup_ops : ℕ) where
    gets-IsClear :
        IsClear (run_gets fabric metadata x.draw x.time worker_ops warmup_ops x.world ready.base)
    unfolding run_gets
    gets-IsClear =
        run_phases-IsClear (get_request fabric metadata x.draw ready.base) x.time Good
          request_succeeds worker_ops warmup_ops _
          (record { after = store; valid = valid; same = λ q c. refl; exported = ready.exported })

    registered-IsClear : IsClear (
        register_regions fabric metadata x.draw x.time worker_ops warmup_ops x.world x.setup
          ready.base)
    unfolding register_regions
    registered-IsClear =
        rw (ready.slot_registered, ready.atomic_registered)
          (elim (Bool-cases metadata) [
            | inl m ↦ rw m (rw m at gets-IsClear)
            | inr m ↦ rw m (rw m at gets-IsClear)
          ])

    session-IsClear : IsClear (
        check_session fabric metadata x.draw x.time worker_ops warmup_ops x.world x.setup
          (some (ready.base, num_slots)))
    unfolding check_session
    session-IsClear =
        let mapped : (ready.base == 0) ≡ false = ground (arith, ready.mapped) in
        rw mapped registered-IsClear

    worker-IsClear :
        IsClear
          (run_one_sided_worker fabric metadata x.draw x.time worker_ops warmup_ops x.world x.setup)
    unfolding run_one_sided_worker
    worker-IsClear =
        subst
          (λ o.
            IsClear
              (check_session fabric metadata x.draw x.time worker_ops warmup_ops x.world x.setup o))
          (sym ready.connected) session-IsClear

module _ (ops warmup_count clients : ℕ) (worker : ℕ → ℕ → ℕ → BenchmarkResult)
    (clear : (i n m : ℕ) → IsClear (worker i n m)) where
  sum_results-IsClear :
      (rounds i : ℕ) (sum : BenchmarkResult)
      → IsClear sum
      → IsClear (sum_results ops warmup_count clients worker rounds i sum)
  unfolding sum_results
  sum_results-IsClear zero i sum c = c
  sum_results-IsClear (suc rounds) i sum c =
      sum_results-IsClear rounds (i + 1) _
        (omega (arith, c, clear i _ _), omega (arith, c, clear i _ _))

  run_workers-IsClear : IsClear (run_workers ops warmup_count clients worker)
  unfolding run_workers
  run_workers-IsClear = sum_results-IsClear clients 0 no_result (refl, refl)

-- The server pre-loads its table with `preload_n` keys, and exports it in a region that does not wrap
-- around. Every worker gets its session and its regions, sees this table through a network of its own
-- without failures, and draws its keys below `key_count`, which is at most `preload_n` and at most the
-- number of slots. Then every GET of the benchmark finds its key, and the benchmark succeeds.
pub run_one_sided_benchmark-preload :
    (preload_n clients ops warmup_count key_count : ℕ) (metadata : Bool) (workers : ℕ → Worker)
    → IsInt preload_n
    → key_count ≤ preload_n
    → key_count ≤ num_slots
    → Accepted clients ops key_count
    → ((i : ℕ) → Ready metadata key_count (preload preload_n) (workers i))
    → (run_one_sided_benchmark clients ops warmup_count key_count metadata workers).succeeded ≡ true
unfolding run_one_sided_benchmark
run_one_sided_benchmark-preload preload_n clients ops warmup_count key_count metadata workers int a
      b ok ready =
    let loaded = preload-Loaded preload_n int in
    let has_keys : HasKeys key_count (preload preload_n) =
      λ j l. λ e. ground (arith, loaded.loaded j (omega (arith, l, a)) (omega (arith, l, b)), e) in
    let clear =
      run_workers-IsClear ops warmup_count clients (worker_result metadata workers) (λ i n m.
        unfold worker_result in
        worker-IsClear metadata key_count (preload preload_n) (workers i) (ready i) loaded.valid
          has_keys n m) in
    let accepted : (clients == 0 || (ops == 0 || (key_count == 0 || ltb ops clients))) ≡ false =
      ground (arith, ok.some_client, ok.some_key, ok.enough) in
    rw (accepted, clear.0, clear.1) refl
