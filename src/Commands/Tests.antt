-- ===== src/Commands/Tests.antt =====
-- cmd: the commands at concrete flags.
use dracula.Commands.Serve.Started.{main-runs}
use dracula.Commands.Cli.Modes.{main-key_match, main-list_namespaces}
use dracula.Server.{Server}
use dracula.Prelude.Int.{ℤ, pos}
use dracula.Client.State.{Client}
use dracula.Server.Peers.{split, Parsers}
use dracula.Prelude.{
  arith, bytes_eq, if◌then◌else◌, ◌+◌, get_elem?, length, index, true, [], ◌∷◌, some, Option, none,
  false, done, ℕ, List, bytes_of, Bytes, refl, ◌≡◌,
}
use dracula.Server.Rest.{trim}
use dracula.Server.Peers.{new_server}
use dracula.Commands.Cli as Cli
use dracula.Commands.Serve as Serve
use dracula.Client.Config as Config
use dracula.Client.Pool as Pool
use dracula.Client.Cache as Cache
use dracula.Store as Methods
use dracula.Server.Lifecycle as Lifecycle
use dracula.Maps.Assoc.{assoc_tree, assoc_hash}
use dracula.Protocol.Packet.XxHash.{xx_hash}

abbrev atoi : Bytes → Option ℤ
atoi s = if bytes_eq s (bytes_of "3509") then some (pos 3509) else none

abbrev parsers : Parsers
parsers = record { parse_ip = λ s. some (10 ∷ 0 ∷ 0 ∷ 1 ∷ []); atoi = atoi }

abbrev world : Cli.Surroundings
world = record {
  dracula_secret = bytes_of "supersecret";
  parsers = parsers;
  check_fails = λ addr. false;
  listen_error = none;
}

abbrev keys : List Bytes
keys = bytes_of "alice" ∷ bytes_of "bob" ∷ []

abbrev answers : Cli.Answers ℕ
answers = record {
  count = λ c ns k. (0, none);
  put = λ c ns v. none;
  key_match = λ c ns pattern. (keys, none);
  list_namespaces = λ c. ([], none);
}

abbrev list_keys : Cli.Flags
list_keys = record {
  ip_port_pairs = bytes_of "10.0.0.1:3509";
  ns = bytes_of "users";
  entry_key = bytes_of "*";
  count = false;
  put = false;
  cmd_keys = true;
  namespaces = false;
  secret = [];
  timeout_secs = 6;
  help = false;
  print_version = false;
}

abbrev tcp_client : Client ℕ
tcp_client = record {
  conn = false;
  udp_pool = Pool.new_pool [];
  tcp_pool = [];
  tcp_pool_map = [];
  tcp_server_list = record { ip = 10 ∷ 0 ∷ 0 ∷ 1 ∷ []; port = pos 3509 } ∷ [];
  messages_waiting = Cache.new_cache 6000000000;
  message_id_counter = 0;
  pre_shared_key = bytes_of "supersecret";
  disposed = false;
  timeout_duration = 6000000000;
}

tcp_client_made : Config.new_client parsers (Cli.config world list_keys) ≡ done tcp_client
unfolding Config.new_client Config.parse_servers Config.parse_server Config.trim_spaces split index
    Cli.config
tcp_client_made = refl

main-key_match_example :
    (e : Cli.Exit) × (Cli.main world answers list_keys ≡ done e)
    × (e.status ≡ 0)
    × (length e.output ≡ length keys)
    × ((i : ℕ) (key : Bytes)
        → get_elem? keys i ≡ some key
        → get_elem? e.output i ≡ some (Cli.Output.numbered (1 + i) key))
main-key_match_example =
    main-key_match world answers list_keys tcp_client (bytes_of "alice") (bytes_of "bob" ∷ [])
      (refl, refl, refl, refl) refl (omega arith, omega arith) tcp_client_made refl

abbrev only_namespaces : Cli.Flags
only_namespaces = record list_keys { cmd_keys = false; namespaces = true }

main-list_namespaces_example :
    Cli.main world answers only_namespaces
    ≡ Cli.main world (record answers { list_namespaces = λ c. (keys, none) }) only_namespaces
main-list_namespaces_example =
    main-list_namespaces world answers (λ c. (keys, none)) only_namespaces

-- The flag alone prints the usage.
namespaces_run :
    Cli.main world answers only_namespaces
    ≡ done (record {
      output =
          Cli.Output.usage
          ∷ Cli.Output.line (bytes_of "either -put, -count, -keys is required")
          ∷ [];
      status = 0;
    })
unfolding Cli.main
namespaces_run = refl

abbrev machine : Serve.Surroundings
machine = record {
  dracula_secret = bytes_of "supersecret";
  parsers = parsers;
  num_cpu = 4;
  udp_error = none;
  tcp_error = none;
  http_finished = none;
  metrics_error = none;
}

abbrev alone : Serve.Flags
alone = record {
  help = false;
  expire_after_secs = pos 60;
  rest_host_port = bytes_of "0.0.0.0:3510";
  secret = [];
  peer_ip_port = [];
  peers = [];
  print_version = false;
  prom_host_port = [];
}

abbrev running : Lifecycle.Instance
running = record {
  server = record {
    store = Methods.new_store (pos 60);
    pre_shared_key = bytes_of "supersecret";
    peers = [];
  };
  conn = true;
  tcp_conn = true;
  udp_open = true;
  tcp_open = true;
  disposed = false;
  expire_after_secs = pos 60;
  message_processing = true;
  workers = 5;
}

alone_runs : Serve.main machine alone ≡ done (Serve.End.runs running)
unfolding Serve.main trim new_server Lifecycle.listen Lifecycle.made Lifecycle.listen_http
    Lifecycle.setup_workers
alone_runs = refl

main-runs_example :
    (server : Server) × (Serve.server_of machine alone ≡ done server)
    × (machine.udp_error ≡ none)
    × (machine.tcp_error ≡ none)
    × (running ≡ record {
      server = server;
      conn = true;
      tcp_conn = true;
      udp_open = true;
      tcp_open = true;
      disposed = false;
      expire_after_secs = alone.expire_after_secs;
      message_processing = true;
      workers = machine.num_cpu + 1;
    })
main-runs_example = main-runs machine alone running alone_runs
