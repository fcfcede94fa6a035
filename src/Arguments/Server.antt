-- ===== src/Arguments/Server.antt =====
-- `main` of src/server/rdma_main.cpp: the loop over the arguments, the pre-loading, and the loop over
-- `accept`, which starts a thread for each client.
pub mod Clients
use cs2640_final_project.Prelude.{
  ℕ, Bool, true, false, Option, none, some, List, [], ◌∷◌, ◌==◌, nat_eq, list_eq, if◌then◌else◌,
  Bytes, bytes,
}
use cs2640_final_project.RdmaStore.{RdmaStore, new_store}
use cs2640_final_project.Preload.{preload}
use cs2640_final_project.Arguments.{stoi, to_port}

-- `preload_n` is an `int`: its sign, true where it is negative, and its magnitude
pub record ServerOptions : Type 0 where
  pub port : ℕ
  pub one_sided : Bool
  pub device : Option Bytes
  pub preload_n : Bool × ℕ

abbrev pub default_server : ServerOptions
default_server = record {
  port = 9091;
  one_sided = false;
  device = none;
  preload_n = (false, 10000);
}

-- an assignment of a number that may fail to be read
abbrev pub assign_option : Option (Bool × ℕ) → (Bool × ℕ → ServerOptions) → Option ServerOptions
assign_option none f = none
assign_option (some n) f = some (f n)

-- one option with its value; another argument changes nothing
pub data ServerOption : Type 0 where
  mode port device preload_count : ServerOption

unfoldable pub server_option : Bytes → Option ServerOption
server_option arg =
    if arg == bytes "--mode"
    then some mode
    else if arg == bytes "--port"
    then some port
    else if arg == bytes "--device"
    then some device
    else if arg == bytes "--preload"
    then some preload_count
    else none

unfoldable pub set_server_option : ServerOption → Bytes → ServerOptions → Option ServerOptions
set_server_option mode v o = some (record o { one_sided = v == bytes "one-sided" })
set_server_option port v o = assign_option (stoi v) (λ n. record o { port = to_port n })
set_server_option device v o = some (record o { device = some v })
set_server_option preload_count v o = assign_option (stoi v) (λ n. record o { preload_n = n })

unfoldable pub parse_server_arguments : List Bytes → ServerOptions → Option ServerOptions
unfolding server_option set_server_option
parse_server_arguments [] o = some o
parse_server_arguments (arg ∷ []) o = some o
parse_server_arguments (arg ∷ v ∷ rest) o =
    let next = parse_server_arguments (v ∷ rest) o in
    elim (server_option arg) [
      | none ↦ next
      | some x ↦ elim (set_server_option x v o) [
        | none ↦ none
        | some o' ↦ parse_server_arguments rest o'
      ]
    ]

-- what `accept` returns: a descriptor, EINTR, or another error
pub data AcceptAnswer : Type 0 where
  accepted : ℕ → AcceptAnswer
  interrupted : AcceptAnswer
  accept_failed : AcceptAnswer

-- the descriptors that the loop hands to a thread each
unfoldable pub accept_clients : List AcceptAnswer → List ℕ
accept_clients [] = []
accept_clients (accepted fd ∷ rs) = fd ∷ accept_clients rs
accept_clients (interrupted ∷ rs) = accept_clients rs
accept_clients (accept_failed ∷ rs) = []

-- `for (int i = 0; i < preload_n; ++i)` on a new table
unfoldable pub preload_table : Bool × ℕ → RdmaStore
preload_table (negative, n) = preload (if negative then 0 else n)

-- What `main` comes to: the port it asks for, the table, the handlers with their mode, which is true
-- for `handle_one_sided_client`, and whether it returns EXIT_SUCCESS.
pub record ServerRun : Type 0 where
  pub port : ℕ
  pub table : RdmaStore
  pub handlers : List (Bool × ℕ)
  pub succeeded : Bool

abbrev pub with_mode : Bool → List ℕ → List (Bool × ℕ)
with_mode b [] = []
with_mode b (fd ∷ fds) = (b, fd) ∷ with_mode b fds

unfoldable pub run_server : Bool → List AcceptAnswer → ServerOptions → ServerRun
unfolding preload_table accept_clients
run_server listening rs o =
    let table = if o.one_sided then preload_table o.preload_n else new_store in
    if listening
    then record {
      port = o.port;
      table = table;
      handlers = with_mode o.one_sided (accept_clients rs);
      succeeded = true;
    }
    else record { port = o.port; table = table; handlers = []; succeeded = false }

-- `none` where a number cannot be read
abbrev pub started : Bool → List AcceptAnswer → Option ServerOptions → Option ServerRun
unfolding run_server
started listening rs none = none
started listening rs (some o) = some (run_server listening rs o)

-- `listening` is the success of `make_tcp_listener`, `rs` what the calls of `accept` return
unfoldable pub server_main : List Bytes → Bool → List AcceptAnswer → Option ServerRun
server_main arguments listening rs =
    started listening rs (parse_server_arguments arguments default_server)
