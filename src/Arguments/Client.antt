-- ===== src/Arguments/Client.antt =====
-- The loop over the arguments in `main` of src/client/rdma_client.cpp, and what `main` then runs.
-- Floating-point numbers are the parameter `D`, and `stod` is `std::stod`.
pub mod Settings
pub mod Dispatch
use cs2640_final_project.Prelude.{
  ℕ, Bool, true, false, ◌&&◌, ◌||◌, not, Option, none, some, List, [], ◌∷◌, ◌==◌, nat_eq, list_eq,
  if◌then◌else◌, Bytes, bytes,
}
use cs2640_final_project.RdmaStore.{num_slots}
use cs2640_final_project.Handshake.{QpInfo, Joined}
use cs2640_final_project.Arguments.{stoi, stoul, to_port}

pub record Options (D : Type 0) : Type 0 where
  pub host : Bytes
  pub port : ℕ
  pub one_sided : Bool
  pub device : Option Bytes
  pub benchmark_mode : Bool
  pub ops : ℕ
  pub warmup_count : ℕ
  pub key_count : ℕ
  pub clients : ℕ
  pub value_size : ℕ
  pub get_ratio : D
  pub zipf_s : D
  pub prefill : Bool
  pub simulate_metadata : Bool
  pub csv_path : Bytes

-- the options that take a value
pub data Valued : Type 0 where
  host port mode device ops warmup keys clients value_size get_ratio zipf_s csv : Valued

unfoldable pub valued : Bytes → Option Valued
valued arg =
    if arg == bytes "--host"
    then some host
    else if arg == bytes "--port"
    then some port
    else if arg == bytes "--mode"
    then some mode
    else if arg == bytes "--device"
    then some device
    else if arg == bytes "--ops"
    then some ops
    else if arg == bytes "--warmup"
    then some warmup
    else if arg == bytes "--keys"
    then some keys
    else if arg == bytes "--clients"
    then some clients
    else if arg == bytes "--value-size"
    then some value_size
    else if arg == bytes "--get-ratio"
    then some get_ratio
    else if arg == bytes "--zipf-s"
    then some zipf_s
    else if arg == bytes "--csv"
    then some csv
    else none

-- the options that take none
unfoldable pub set_flag : {D : Type 0} → Bytes → Options D → Options D
set_flag arg o =
    if arg == bytes "--benchmark"
    then record o { benchmark_mode = true }
    else if arg == bytes "--no-prefill"
    then record o { prefill = false }
    else if arg == bytes "--metadata"
    then record o { simulate_metadata = true }
    else o

-- an assignment of a number that may fail to be read
abbrev pub assign : {A B : Type 0} → Option A → (A → B) → Option B
assign none f = none
assign (some a) f = some (f a)

module _ (D : Type 0) (stod : Bytes → Option D) where
  unfoldable pub set_value : Valued → Bytes → Options D → Option (Options D)
  set_value host v o = some (record o { host = v })
  set_value port v o = assign (stoi v) (λ n. record o { port = to_port n })
  set_value mode v o = some (record o { one_sided = v == bytes "one-sided" })
  set_value device v o = some (record o { device = some v })
  set_value ops v o = assign (stoul v) (λ n. record o { ops = n })
  set_value warmup v o = assign (stoul v) (λ n. record o { warmup_count = n })
  set_value keys v o = assign (stoul v) (λ n. record o { key_count = n })
  set_value clients v o = assign (stoul v) (λ n. record o { clients = n })
  set_value value_size v o = assign (stoul v) (λ n. record o { value_size = n })
  set_value get_ratio v o = assign (stod v) (λ d. record o { get_ratio = d })
  set_value zipf_s v o = assign (stod v) (λ d. record o { zipf_s = d })
  set_value csv v o = some (record o { csv_path = v })

  -- the arguments behind the program's name; an option at the end without its value is ignored
  unfoldable pub parse_arguments : List Bytes → Options D → Option (Options D)
  unfolding valued set_flag set_value
  parse_arguments [] o = some o
  parse_arguments (arg ∷ []) o = some (set_flag arg o)
  parse_arguments (arg ∷ v ∷ rest) o =
      let next = parse_arguments (v ∷ rest) (set_flag arg o) in
      elim (valued arg) [
        | none ↦ next
        | some x ↦ elim (set_value x v o) [ none ↦ none | some o' ↦ parse_arguments rest o' ]
      ]

  -- the defaults, with 0.95 and 0.8
  abbrev pub default_options : D → D → Options D
  default_options ratio skew = record {
    host = bytes "localhost";
    port = 9091;
    one_sided = false;
    device = none;
    benchmark_mode = false;
    ops = 10000;
    warmup_count = 1000;
    key_count = 1024;
    clients = 1;
    value_size = 64;
    get_ratio = ratio;
    zipf_s = skew;
    prefill = true;
    simulate_metadata = false;
    csv_path = [];
  }

-- what the program runs, and whether it reports success
pub data Activity : Type 0 where
  no_session two_sided_benchmark one_sided_benchmark : Activity
  two_sided_session : Activity
  one_sided_session : QpInfo → Activity

pub record ClientRun : Type 0 where
  pub activity : Activity
  pub succeeded : Bool

-- the test on the region that the server exports, and the two loops
unfoldable pub enter_session : Bool → Option QpInfo → ClientRun
enter_session false info = record { activity = two_sided_session; succeeded = true }
enter_session true none = record { activity = no_session; succeeded = false }
enter_session true (some info) =
    if info.addr == 0 || not (info.num_slots == num_slots)
    then record { activity = no_session; succeeded = false }
    else record { activity = one_sided_session info; succeeded = true }

-- `main` behind the arguments; the two `Bool` are the results of the benchmarks, `joined` is that of
-- `connect_rdma_session`. Without a QpInfo, `server_info` is all zero.
unfoldable pub run_client : {D : Type 0} → Options D → Bool → Bool → Joined → ClientRun
unfolding enter_session
run_client o two_sided_result one_sided_result joined =
    if not o.one_sided && o.benchmark_mode
    then record { activity = two_sided_benchmark; succeeded = two_sided_result }
    else if o.one_sided && o.benchmark_mode
    then record { activity = one_sided_benchmark; succeeded = one_sided_result }
    else if joined.succeeded
    then enter_session o.one_sided joined.server_info
    else record { activity = no_session; succeeded = false }
