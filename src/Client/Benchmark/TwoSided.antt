-- ===== src/Client/Benchmark/TwoSided.antt =====
-- The two-sided benchmark of src/client/rdma_client.cpp: the keys and values, `run_two_sided_worker`,
-- `run_two_sided_prefill` and `run_two_sided_benchmark`, up to the statistics. `keys[i]` is
-- `make_benchmark_key(i)`. What a worker draws is a function of how many requests it has made.
pub mod Counts
pub mod Texts
pub mod Commands
pub mod Prefill
use cs2640_final_project.Prelude.{
  ℕ, zero, suc, ◌+◌, ◌-◌, ◌*◌, ◌%◌, ◌^◌, Bool, true, false, ◌&&◌, ◌||◌, not, Option, none, some,
  List, [], ◌∷◌, ◌++◌, ◌==◌, nat_eq, list_eq, ltb, if◌then◌else◌, length, replicate, Bytes, bytes,
}
use cs2640_final_project.Prelude.Decimal.{decimal}
use cs2640_final_project.RdmaContext.{RdmaContext, msg_size}
use cs2640_final_project.Client.Interactive.{starts_with}
use cs2640_final_project.Client.TwoSided.{Exchange, two_sided_request_response}
use cs2640_final_project.Client.Benchmark.{BenchmarkResult, given_up, run_phases, run_workers}

-- `std::snprintf(buffer, sizeof(buffer), "key_%08zu", index)`
abbrev pub make_benchmark_key : ℕ → Bytes
make_benchmark_key index =
    let digits = decimal index in bytes "key_" ++ (replicate (8 - length digits) 48 ++ digits)

-- the characters from round `i`; `seed + i` is of type `std::size_t`
unfoldable pub value_from : ℕ → ℕ → ℕ → Bytes
value_from zero i seed = []
value_from (suc rounds) i seed = (97 + (seed + i) % 2 ^ 64 % 26) ∷ value_from rounds (i + 1) seed

abbrev pub make_value : ℕ → ℕ → Bytes
make_value size seed = value_from size 0 seed

-- what one round of `run_phase` draws: whether it is a GET, and the index of the key
pub record Draw : Type 0 where
  pub do_get : Bool
  pub key_index : ℕ

abbrev pub set_command : ℕ → ℕ → ℕ → Bytes
set_command key_index size seed =
    bytes "SET " ++ (make_benchmark_key key_index ++ (bytes " " ++ make_value size seed))

unfoldable pub benchmark_command : ℕ → ℕ → Draw → ℕ → Bytes
benchmark_command value_size worker_index d i =
    if d.do_get
    then bytes "GET " ++ make_benchmark_key d.key_index
    else set_command d.key_index value_size ((worker_index * 1315423911 + i) % 2 ^ 64)

unfoldable pub is_valid_response : Bool → Bool → Bytes → Bool
is_valid_response ok do_get response =
    if ok && do_get
    then starts_with (bytes "VALUE ") response || response == bytes "NOT_FOUND"
    else if ok
    then response == bytes "OK"
    else false

module _ (value_size worker_index : ℕ) (draw : ℕ → Draw) (exchanges : ℕ → Exchange) where
  unfoldable pub benchmark_request : ℕ → ℕ → RdmaContext → Bool × RdmaContext
  benchmark_request drawn i c =
      let d = draw drawn in
      let command = benchmark_command value_size worker_index d i in
      let x = two_sided_request_response (exchanges drawn) command c in
      (is_valid_response x.ok d.do_get x.response, x.context)

  -- `none` where `connect_rdma_session` fails; the response to the QUIT at the end is not looked at
  unfoldable pub run_two_sided_worker : (ℕ → ℕ) → ℕ → ℕ → Option RdmaContext → BenchmarkResult
  run_two_sided_worker time worker_ops warmup_ops none = given_up worker_ops warmup_ops
  run_two_sided_worker time worker_ops warmup_ops (some c) =
      (run_phases benchmark_request time worker_ops warmup_ops c).0

-- the loop of `run_two_sided_prefill` with `rounds` keys left, from key `i`
unfoldable pub prefill_loop : ℕ → (ℕ → Exchange) → ℕ → ℕ → RdmaContext → Bool
prefill_loop value_size exchanges zero i c = true
prefill_loop value_size exchanges (suc rounds) i c =
    let x = two_sided_request_response (exchanges i) (set_command i value_size i) c in
    let rest = prefill_loop value_size exchanges rounds (i + 1) x.context in
    if not x.ok || not (x.response == bytes "OK") then false else rest

unfoldable pub run_two_sided_prefill : ℕ → ℕ → (ℕ → Exchange) → Option RdmaContext → Bool
run_two_sided_prefill key_count value_size exchanges none = false
run_two_sided_prefill key_count value_size exchanges (some c) =
    prefill_loop value_size exchanges key_count 0 c

-- what a worker meets
pub record Worker : Type 0 where
  pub context : Option RdmaContext
  pub exchanges : ℕ → Exchange
  pub draw : ℕ → Draw
  pub time : ℕ → ℕ

-- the sums, where the benchmark comes to run its workers, and what it returns
pub record Report : Type 0 where
  pub sums : Option BenchmarkResult
  pub succeeded : Bool

unfoldable pub worker_result : ℕ → (ℕ → Worker) → ℕ → ℕ → ℕ → BenchmarkResult
worker_result value_size workers i worker_ops warmup_ops =
    let x = workers i in
    run_two_sided_worker value_size i x.draw x.exchanges x.time worker_ops warmup_ops x.context

-- `ratios_valid` says that `get_ratio` lies between 0 and 1 and that `zipf_s` is not negative, `filled` what
-- `run_two_sided_prefill` returns. The sum `value_size + 128` is one of `std::size_t`.
unfoldable pub run_two_sided_benchmark :
    ℕ → ℕ → ℕ → ℕ → ℕ → Bool → Bool → Bool → (ℕ → Worker) → Report
run_two_sided_benchmark clients ops warmup_count key_count value_size ratios_valid prefill filled
      workers =
    let sums = run_workers ops warmup_count clients (worker_result value_size workers) in
    if clients == 0
      || (ops == 0
          || (key_count == 0
              || (value_size == 0
                  || (ltb msg_size ((value_size + 128) % 2 ^ 64)
                      || (not ratios_valid || ltb ops clients)))))
    then record { sums = none; succeeded = false }
    else if prefill && not filled
    then record { sums = none; succeeded = false }
    else record { sums = some sums; succeeded = true }
