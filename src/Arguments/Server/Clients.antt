-- ===== src/Arguments/Server/Clients.antt =====
-- A server that is started with some settings gives each client the handler that they ask for.
use cs2640_final_project.Prelude.{
  ℕ, ◌<◌, ◌≡◌, refl, ap, ◌∙◌, Bool, true, false, Option, some, List, [], ◌∷◌, ◌++◌, ◌==◌, nat_eq,
  list_eq, arith, if◌then◌else◌, All, Bool-cases, inl, inr, Bytes, bytes,
}
use cs2640_final_project.Prelude.Decimal.{decimal}
use cs2640_final_project.RdmaStore.{RdmaStore, new_store}
use cs2640_final_project.Preload.{preload, preload_loop}
use cs2640_final_project.Preload.Stored.{IsInt, Loaded, preload-Loaded}
use cs2640_final_project.Arguments.{stoi, to_port}
use cs2640_final_project.Arguments.Numbers.{stoi-decimal, to_port-small}
use cs2640_final_project.Arguments.Server.{
  ServerOptions, default_server, assign_option, ServerOption, mode, port, device, preload_count,
  server_option, set_server_option, parse_server_arguments, AcceptAnswer, accepted, interrupted,
  accept_failed, accept_clients, preload_table, with_mode, run_server, server_main,
}

pub data ServerSetting : Type 0 where
  set_mode set_device : Bytes → ServerSetting
  set_port set_preload : ℕ → ServerSetting

abbrev pub apply : ServerSetting → ServerOptions → ServerOptions
apply (set_mode b) o = record o { one_sided = b == bytes "one-sided" }
apply (set_device b) o = record o { device = some b }
apply (set_port n) o = record o { port = n }
apply (set_preload n) o = record o { preload_n = (false, n) }

abbrev pub apply_all : List ServerSetting → ServerOptions → ServerOptions
apply_all [] o = o
apply_all (s ∷ ss) o = apply_all ss (apply s o)

abbrev pub IsInRange : ServerSetting → Type 0
IsInRange (set_port n) = n < 65536
IsInRange (set_preload n) = n < 2147483648
IsInRange s = Unit

abbrev pub arguments : ServerSetting → List Bytes
arguments (set_mode b) = bytes "--mode" ∷ b ∷ []
arguments (set_device b) = bytes "--device" ∷ b ∷ []
arguments (set_port n) = bytes "--port" ∷ decimal n ∷ []
arguments (set_preload n) = bytes "--preload" ∷ decimal n ∷ []

abbrev pub argument_line : List ServerSetting → List Bytes
argument_line [] = []
argument_line (s ∷ ss) = arguments s ++ argument_line ss

parse_option :
    (x : ServerOption) (arg v : Bytes) (rest : List Bytes) (o o' : ServerOptions)
    → server_option arg ≡ some x
    → set_server_option x v o ≡ some o'
    → parse_server_arguments (arg ∷ v ∷ rest) o ≡ parse_server_arguments rest o'
unfolding parse_server_arguments
parse_option x arg v rest o o' a b = rw (a, parse_server_arguments, b) refl

assigned :
    (r : Option (Bool × ℕ)) (n : Bool × ℕ) (f : Bool × ℕ → ServerOptions)
    → r ≡ some n
    → assign_option r f ≡ some (f n)
assigned r n f e = rw e

parse_setting :
    (s : ServerSetting) (rest : List Bytes) (o : ServerOptions)
    → IsInRange s
    → parse_server_arguments (arguments s ++ rest) o ≡ parse_server_arguments rest (apply s o)
unfolding server_option set_server_option
parse_setting (set_mode b) rest o h = parse_option mode (bytes "--mode") b rest o _ refl refl
parse_setting (set_device b) rest o h = parse_option device (bytes "--device") b rest o _ refl refl
parse_setting (set_port n) rest o h = parse_option port (bytes "--port") _ rest o _ refl (
    assigned (stoi (decimal n)) (false, n) (λ m. record o { port = to_port m })
      (stoi-decimal n (omega (arith, h)))
    ∙ ap (λ m. some (record o { port = m })) (to_port-small n h))
parse_setting (set_preload n) rest o h =
    parse_option preload_count (bytes "--preload") _ rest o _ refl
      (assigned (stoi (decimal n)) (false, n) (λ m. record o { preload_n = m }) (stoi-decimal n h))

pub parse-argument_line :
    (ss : List ServerSetting) (o : ServerOptions)
    → All IsInRange ss
    → parse_server_arguments (argument_line ss) o ≡ some (apply_all ss o)
parse-argument_line [] o h = unfold parse_server_arguments in refl
parse-argument_line (s ∷ ss) o h =
    parse_setting s (argument_line ss) o h.0 ∙ parse-argument_line ss (apply s o) h.1

-- a result of `accept` that the loop goes on from, and the descriptors of some
abbrev pub GoesOn : AcceptAnswer → Type 0
GoesOn accept_failed = ⊥
GoesOn r = Unit

abbrev pub descriptors : List AcceptAnswer → List ℕ
descriptors [] = []
descriptors (accepted fd ∷ rs) = fd ∷ descriptors rs
descriptors (r ∷ rs) = descriptors rs

accept_clients-append :
    (rs more : List AcceptAnswer)
    → All GoesOn rs
    → accept_clients (rs ++ accept_failed ∷ more) ≡ descriptors rs
unfolding accept_clients
accept_clients-append [] more h = refl
accept_clients-append (accepted fd ∷ rs) more h =
    ap (λ l. fd ∷ l) (accept_clients-append rs more h.1)
accept_clients-append (interrupted ∷ rs) more h = accept_clients-append rs more h.1
accept_clients-append (accept_failed ∷ rs) more h = absurd h.0

-- how many pairs the settings ask for
abbrev pub asked : ServerOptions → ℕ
asked o = if o.one_sided then (if o.preload_n.0 then 0 else o.preload_n.1) else 0

-- the table that the handlers serve from
abbrev pub served_table : ServerOptions → RdmaStore
served_table o = if o.one_sided then preload_table o.preload_n else new_store

apply_all-IsInt :
    (ss : List ServerSetting) (o : ServerOptions)
    → All IsInRange ss
    → IsInt o.preload_n.1
    → IsInt (apply_all ss o).preload_n.1
apply_all-IsInt [] o h i = i
apply_all-IsInt (set_mode b ∷ ss) o h i = apply_all-IsInt ss _ h.1 i
apply_all-IsInt (set_device b ∷ ss) o h i = apply_all-IsInt ss _ h.1 i
apply_all-IsInt (set_port n ∷ ss) o h i = apply_all-IsInt ss _ h.1 i
apply_all-IsInt (set_preload n ∷ ss) o h i = apply_all-IsInt ss _ h.1 (omega (arith, h.0))

served_table-Loaded : (o : ServerOptions) → IsInt o.preload_n.1 → Loaded (asked o) (served_table o)
unfolding preload_table preload preload_loop
served_table-Loaded o i = elim (Bool-cases o.one_sided) [
  | inr e ↦ rw e (preload-Loaded 0 (omega arith))
  | inl e ↦ rw e (elim (Bool-cases o.preload_n.0) [
    | inl n ↦ rw n (preload-Loaded 0 (omega arith))
    | inr n ↦ rw n (preload-Loaded o.preload_n.1 i)
  ])
]

-- A server that is started with settings whose numbers fit a port and an `int`, the last of two that
-- disagree winning, and that can listen,
-- starts one handler for each client that connects before `accept` fails, in the order in which they come
-- and all for the mode asked for, and none after that. Its table is the one that pre-loading makes of the
-- number asked for, which is 0 in the two-sided mode: of these pairs it holds the first 4096, the number
-- of its slots, and nothing else.
pub server_main-argument_line :
    (ss : List ServerSetting) (rs more : List AcceptAnswer)
    → All IsInRange ss
    → All GoesOn rs
    → let o = apply_all ss default_server in
      (server_main (argument_line ss) true (rs ++ accept_failed ∷ more)
        ≡ some (record {
          port = o.port;
          table = served_table o;
          handlers = with_mode o.one_sided (descriptors rs);
          succeeded = true;
        }))
      × Loaded (asked o) (served_table o)
unfolding server_main run_server
server_main-argument_line ss rs more h g = (
  rw (parse-argument_line ss default_server h, accept_clients-append rs more g) refl,
  served_table-Loaded (apply_all ss default_server)
      (apply_all-IsInt ss default_server h (omega arith)),
)
