-- ===== src/Client/Benchmark/OneSided.antt =====
-- The one-sided benchmark of src/client/rdma_client.cpp: `run_one_sided_worker` and
-- `run_one_sided_benchmark`, up to the statistics. The numbers that a worker draws and the times that it measures
-- are functions of how many requests it has made.
pub mod Counts
pub mod Hits
use cs2640_final_project.Prelude.{
  ℕ, zero, suc, ◌+◌, Bool, true, false, ◌&&◌, ◌||◌, not, Option, none, some, ◌==◌, nat_eq, ltb,
  if◌then◌else◌,
}
use cs2640_final_project.RdmaStore.{RdmaSlot, empty_slot, num_slots}
use cs2640_final_project.OneSided.{Fabric, one_sided_get}
use cs2640_final_project.Preload.{make_key}
use cs2640_final_project.Client.Benchmark.{BenchmarkResult, given_up, run_phases, run_workers}

-- how the set-up of a worker goes: `addr` and `num_slots` of `server_info` where
-- `connect_rdma_session` succeeds, and whether the two calls of `reg_mr` succeed
pub record Setup : Type 0 where
  pub session : Option (ℕ × ℕ)
  pub slot_registered : Bool
  pub atomic_registered : Bool

module _ (f : Fabric) where
  open f use {World}

  -- `local_slot`, `atomic_result`, and the network
  pub record Buffers : Type 0 where
    pub slot : RdmaSlot
    pub atomic : ℕ
    pub world : World

  module _ (metadata : Bool) (draw : ℕ → ℕ) where
    unfoldable pub get_request : ℕ → ℕ → ℕ → Buffers → Bool × Buffers
    get_request base drawn i b =
        let st = one_sided_get f base (make_key (draw drawn)) metadata b.slot b.atomic b.world in
        (st.found, record { slot = st.slot; atomic = st.atomic; world = st.world })

    module _ (time : ℕ → ℕ) (worker_ops warmup_ops : ℕ) (w : World) where
      -- the two phases
      unfoldable pub run_gets : ℕ → BenchmarkResult
      run_gets base =
          let b : Buffers = record { slot = empty_slot; atomic = 0; world = w } in
          (run_phases (get_request base) time worker_ops warmup_ops b).0

      unfoldable pub register_regions : Setup → ℕ → BenchmarkResult
      register_regions setup base =
          if setup.slot_registered
          then (if metadata
              then (if setup.atomic_registered
                  then run_gets base
                  else given_up worker_ops warmup_ops)
              else run_gets base)
          else given_up worker_ops warmup_ops

      -- the tests on `connect_rdma_session` and on the region that the server exports
      unfoldable pub check_session : Setup → Option (ℕ × ℕ) → BenchmarkResult
      check_session setup none = given_up worker_ops warmup_ops
      check_session setup (some (addr, slots)) =
          if addr == 0 || not (slots == num_slots)
          then given_up worker_ops warmup_ops
          else register_regions setup addr

      unfoldable pub run_one_sided_worker : Setup → BenchmarkResult
      run_one_sided_worker setup = check_session setup setup.session

-- What a worker meets: its set-up, its random numbers and times, and a network of its own, through which
-- it sees the memory of the server.
pub record Worker : Type 1 where
  pub fabric : Fabric
  pub world : fabric.World
  pub setup : Setup
  pub draw : ℕ → ℕ
  pub time : ℕ → ℕ

-- the sums, where the arguments are accepted, and what is returned
pub record Report : Type 0 where
  pub sums : Option BenchmarkResult
  pub succeeded : Bool

unfoldable pub worker_result : Bool → (ℕ → Worker) → ℕ → ℕ → ℕ → BenchmarkResult
worker_result metadata workers i worker_ops warmup_ops =
    let x = workers i in
    run_one_sided_worker x.fabric metadata x.draw x.time worker_ops warmup_ops x.world x.setup

unfoldable pub run_one_sided_benchmark : ℕ → ℕ → ℕ → ℕ → Bool → (ℕ → Worker) → Report
run_one_sided_benchmark clients ops warmup_count key_count metadata workers =
    let sums = run_workers ops warmup_count clients (worker_result metadata workers) in
    if clients == 0 || (ops == 0 || (key_count == 0 || ltb ops clients))
    then record { sums = none; succeeded = false }
    else record {
      sums = some sums;
      succeeded = sums.measured_errors == 0 && sums.warmup_errors == 0;
    }
