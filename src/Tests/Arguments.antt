-- ===== src/Tests/Arguments.antt =====
-- Command lines, and the theorems about them at concrete ones.
use cs2640_final_project.Prelude.{
  ℕ, ◌≡◌, refl, Bool, true, false, Option, none, some, List, [], ◌∷◌, ◌++◌, ◌==◌, nat_eq, list_eq,
  arith, if◌then◌else◌, Bytes, bytes,
}
use cs2640_final_project.RdmaStore.{num_slots}
use cs2640_final_project.Preload.Stored.{Loaded}
use cs2640_final_project.RdmaContext.{
  Verbs, Resource, QpState, ready_to_send, init, connect, pick_device, alloc_pd, create_cq,
  create_qp, register_send, register_recv, to_init,
}
use cs2640_final_project.Handshake.{QpInfo, Peer, connect_rdma_session, join_session}
use cs2640_final_project.Arguments.{stoi, stoul, to_port}
use cs2640_final_project.Arguments.Client.{
  Options, default_options, parse_arguments, one_sided_session, run_client,
}
use cs2640_final_project.Arguments.Client.Settings.{
  Setting, set_mode, set_ops, set_benchmark, set_get_ratio, apply_all, argument_line,
  parse_arguments-argument_line,
}
use cs2640_final_project.Arguments.Client.Dispatch.{
  last_mode, asks_benchmark, argument_line-IsExported,
}
use cs2640_final_project.Arguments.Server.{
  default_server, accepted, interrupted, accept_failed, with_mode, server_main,
}
use cs2640_final_project.Arguments.Server.Clients
use cs2640_final_project.Arguments.Server.Clients.{
  ServerSetting, set_preload, descriptors, server_main-argument_line,
}

numbers :
    (stoi (bytes " -12x") ≡ some (true, 12))
    × (stoul (bytes "18446744073709551616") ≡ none)
    × (stoul (bytes "-1") ≡ some 18446744073709551615)
    × (to_port (true, 1) ≡ 65535)
unfolding stoi stoul to_port
numbers = (refl, refl, refl, refl)

-- numbers stand for the floating-point ones
abbrev defaults : Options ℕ
defaults = default_options ℕ stoul 95 8

-- `--ops` without its value is ignored, and so is what no option is named
client_run :
    (parse_arguments ℕ stoul
        (bytes "--metadata" ∷ bytes "x" ∷ bytes "--keys" ∷ bytes "7" ∷ bytes "--ops" ∷ [])
        defaults
      ≡ some (record defaults { simulate_metadata = true; key_count = 7 }))
    × (parse_arguments ℕ stoul (bytes "--keys" ∷ bytes "many" ∷ []) defaults ≡ none)
unfolding parse_arguments stoul
client_run = (refl, refl)

-- the floating-point numbers of a machine that has two, which it writes as `0` and `1`
abbrev show_bit : Bool → Bytes
show_bit true = bytes "1"
show_bit false = bytes "0"

abbrev pub read_bit : Bytes → Option Bool
read_bit b = if b == bytes "1" then some true else if b == bytes "0" then some false else none

reads_bit : (d : Bool) → read_bit (show_bit d) ≡ some d
reads_bit true = refl
reads_bit false = refl

abbrev bit_settings : List (Setting Bool)
bit_settings = set_mode (bytes "one-sided") ∷ set_benchmark ∷ set_ops 500 ∷ set_get_ratio true ∷ []

abbrev pub bit_defaults : Options Bool
bit_defaults = default_options Bool read_bit true false

parse_arguments-argument_line_example :
    parse_arguments Bool read_bit (argument_line Bool read_bit show_bit bit_settings) bit_defaults
    ≡ some (apply_all bit_settings bit_defaults)
parse_arguments-argument_line_example =
    parse_arguments-argument_line Bool read_bit show_bit reads_bit bit_settings bit_defaults
      (tt, (tt, (omega arith, (tt, tt))))

-- a card on which all goes well, and a server that exports its table
abbrev pub verbs : Verbs
verbs = record {
  devices = some (bytes "mlx5_0" ∷ []);
  creates = λ (r : Resource). some 1;
  modifies = λ (s : QpState). true;
}

abbrev server_info : QpInfo
server_info = record { qp_num = 7; lid = 0; gid = []; rkey = 2; addr = 1048576; num_slots = 4096 }

abbrev server : Peer
server = record { verbs = verbs; device = none; writes = true; remote = some server_info }

abbrev session_settings : List (Setting Bool)
session_settings = set_ops 500 ∷ set_mode (bytes "one-sided") ∷ []

session_starts :
    (run_client
      (apply_all session_settings bit_defaults)
      true
      true
      (connect_rdma_session server true)).activity
    ≡ one_sided_session server_info
unfolding run_client connect_rdma_session join_session init connect pick_device alloc_pd create_cq
    create_qp register_send register_recv to_init
session_starts = refl

argument_line-IsExported_example :
    (last_mode session_settings false ≡ true)
    × (asks_benchmark session_settings false ≡ false)
    × ((connect_rdma_session server true).context.qp_state ≡ ready_to_send)
    × (server.remote ≡ some server_info)
    × ((server_info.addr == 0) ≡ false)
    × (server_info.num_slots ≡ num_slots)
argument_line-IsExported_example =
    argument_line-IsExported read_bit show_bit reads_bit true false session_settings
      (apply_all session_settings bit_defaults) true true server true server_info
      (omega arith, (tt, tt))
      (parse_arguments-argument_line Bool read_bit show_bit reads_bit session_settings bit_defaults
        (omega arith, (tt, tt)))
      session_starts

abbrev server_settings : List ServerSetting
server_settings = Clients.set_mode (bytes "one-sided") ∷ set_preload 3 ∷ []

server_main-argument_line_example :
    let o = Clients.apply_all server_settings default_server in
    (server_main
        (Clients.argument_line server_settings)
        true
        ((accepted 5 ∷ interrupted ∷ accepted 6 ∷ []) ++ accept_failed ∷ [])
      ≡ some (record {
        port = o.port;
        table = Clients.served_table o;
        handlers = with_mode o.one_sided (descriptors (accepted 5 ∷ interrupted ∷ accepted 6 ∷ []));
        succeeded = true;
      }))
    × Loaded 3 (Clients.served_table o)
server_main-argument_line_example =
    server_main-argument_line server_settings (accepted 5 ∷ interrupted ∷ accepted 6 ∷ []) []
      (tt, (omega arith, tt)) (tt, (tt, (tt, tt)))
