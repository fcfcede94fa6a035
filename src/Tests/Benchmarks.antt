-- ===== src/Tests/Benchmarks.antt =====
-- The benchmarks and the pre-loading: runs, and the theorems at concrete inputs.
use cs2640_final_project.Prelude.{
  ℕ, ◌-◌, ◌/◌, ◌%◌, ◌<◌, ◌≡◌, refl, ap, true, ◌&&◌, some, [], ◌∷◌, arith, ◌==◌, nat_eq, bytes,
}
use cs2640_final_project.RdmaStore.{slot_at, num_slots}
use cs2640_final_project.OneSided.{slot_address}
use cs2640_final_project.OneSided.Get.{Exports}
use cs2640_final_project.RdmaContext.{request_done, new_context}
use cs2640_final_project.Preload.{preload, preload_key}
use cs2640_final_project.Preload.Stored.{Loaded, preload-Loaded}
use cs2640_final_project.Prelude.Decimal.{decimal_digits}
use cs2640_final_project.Client.Benchmark.{BenchmarkResult}
use cs2640_final_project.Client.Benchmark.Tally.{Tally}
use cs2640_final_project.Client.Benchmark.OneSided
use cs2640_final_project.Client.Benchmark.OneSided.{run_one_sided_benchmark}
use cs2640_final_project.Client.Benchmark.OneSided.Counts.{Accepted, run_one_sided_benchmark-Tally}
use cs2640_final_project.Client.Benchmark.OneSided.Hits.{Ready, run_one_sided_benchmark-preload}
use cs2640_final_project.Client.Benchmark.TwoSided
use cs2640_final_project.Client.Benchmark.TwoSided.{
  make_benchmark_key, make_value, value_from, run_two_sided_benchmark,
}
use cs2640_final_project.Client.Benchmark.TwoSided.Counts
use cs2640_final_project.Client.Benchmark.TwoSided.Counts.{run_two_sided_benchmark-Tally}
use cs2640_final_project.Tests.OneSided.{Memory, fabric, fabric-IsReliable}

preload_key_runs : preload_key 1023 ≡ bytes "key1023"
unfolding decimal_digits
preload_key_runs = refl

benchmark_key_runs : make_benchmark_key 17 ≡ bytes "key_00000017"
unfolding decimal_digits
benchmark_key_runs = refl

make_value_runs : make_value 4 24 ≡ bytes "yzab"
unfolding value_from
make_value_runs = refl

preload-Loaded_example : Loaded 3 (preload 3)
preload-Loaded_example = preload-Loaded 3 (omega arith)

-- the memory of a server that exports its table at address 1024
abbrev loaded_memory : Memory
loaded_memory a = slot_at (preload 3) ((a - 1024) / 1024)

address_back : (p : ℕ) → p < num_slots → (slot_address 1024 p - 1024) / 1024 ≡ p
unfolding slot_address
address_back p h = omega arith

loaded-Exports : Exports fabric 1024 (preload 3) loaded_memory
loaded-Exports = record { holds = λ p h. ap (slot_at (preload 3)) (address_back p h) }

abbrev one_sided_worker : OneSided.Worker
one_sided_worker = record {
  fabric = fabric;
  world = loaded_memory;
  setup = record { session = some (1024, 4096); slot_registered = true; atomic_registered = true };
  draw = λ n. n % 3;
  time = λ n. 5;
}

accepted : Accepted 2 5 3
accepted = record { some_client = omega arith; some_key = omega arith; enough = omega arith }

run_one_sided_benchmark-Tally_example :
    let report = run_one_sided_benchmark 2 5 3 3 true (λ i. one_sided_worker) in
    (r : BenchmarkResult) × (report.sums ≡ some r)
    × Tally r 5 3
    × (report.succeeded ≡ (r.measured_ok_responses == 5 && r.warmup_ok_responses == 3))
run_one_sided_benchmark-Tally_example =
    run_one_sided_benchmark-Tally 2 5 3 3 true (λ i. one_sided_worker) accepted (omega arith)
      (omega arith)

worker-Ready : (i : ℕ) → Ready true 3 (preload 3) one_sided_worker
worker-Ready i = record {
  base = 1024;
  mapped = omega arith;
  connected = refl;
  slot_registered = refl;
  atomic_registered = refl;
  reliable = fabric-IsReliable;
  fits = omega arith;
  exported = loaded-Exports;
  drawn = λ n. omega arith;
}

run_one_sided_benchmark-preload_example :
    (run_one_sided_benchmark 2 5 3 3 true (λ i. one_sided_worker)).succeeded ≡ true
run_one_sided_benchmark-preload_example =
    run_one_sided_benchmark-preload 3 2 5 3 3 true (λ i. one_sided_worker) (omega arith)
      (omega arith) (omega arith) accepted worker-Ready

-- a worker whose requests find no completion
abbrev two_sided_worker : TwoSided.Worker
two_sided_worker = record {
  context = some new_context;
  exchanges = λ n. record { armed = true; accepted = true; first = request_done ∷ []; second = [] };
  draw = λ n. record { do_get = true; key_index = 0 };
  time = λ n. 5;
}

two_sided_accepted : Counts.Accepted 2 5 3 64
two_sided_accepted = record {
  some_client = omega arith;
  some_key = omega arith;
  enough = omega arith;
  some_value = omega arith;
  fits = omega arith;
}
