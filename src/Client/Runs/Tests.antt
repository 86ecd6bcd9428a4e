-- ===== src/Client/Runs/Tests.antt =====
-- client/client.go: a run of a client, with numbers for callbacks.
use dracula.Client.Runs.Once.{run-new_client}
use dracula.Client.Runs.Identifiers.{run-next_id}
use dracula.Client.Requests.Started.{next_id}
use dracula.Client.Cache.Entries.{tally}
use dracula.Client.Cache.{find}
use dracula.Client.Runs.Calls.{calls, waits}
use dracula.Client.Responses.{no_healthy_udp_servers, Called}
use dracula.Prelude.Int.{ℤ, pos}
use dracula.Client.Health.{loop_healthcheck}
use dracula.Client.Health.Ended.{run-ends}
use dracula.Client.Runs.{receive, given, cleanup, response, Request, request, Event, run}
use dracula.Client.State.{Client, Environment}
use dracula.RawMessage.{UdpAddr}
use dracula.Server.Peers.{split, Parsers}
use dracula.Prelude.{
  arith, ◌≤◌, ◌+◌, ◌==◌, Bool, length, bytes_eq, if◌then◌else◌, true, false, none, some, done, ℕ,
  [], Option, ◌∷◌, index, List, bytes_of, Bytes, refl, ◌≡◌,
}
use dracula.Client.Pool as Pool
use dracula.Client.Requests as Requests
use dracula.Protocol.Packet.{new_packet_from_parts, parse_packet}
use dracula.Protocol.Words.{uint32_from_bytes, uint32_to_bytes, uint64_from_bytes}
use dracula.Client.State.{make_message_id}
use dracula.Client.Sending.{send_or_callback_err}
use dracula.Protocol.Command.{is_tcp_only_cmd}
use dracula.Client.Responses.{handle_response}
use dracula.Client.Cache as Cache
use dracula.Client.Config as Config
use dracula.Protocol.Packet.XxHash.{xx_hash}

abbrev parse_ip : Bytes → Option Bytes
parse_ip s = some (10 ∷ 0 ∷ 0 ∷ 1 ∷ [])

abbrev atoi : Bytes → Option ℤ
atoi s = if bytes_eq s (bytes_of "3509") then some (pos 3509) else none

abbrev parsers : Parsers
parsers = record { parse_ip = parse_ip; atoi = atoi }

abbrev conf : Config.Config
conf = record {
  remote_udp_ip_port_list = bytes_of " 10.0.0.1:3509, ";
  remote_tcp_ip_port_list = [];
  timeout = 0;
  pre_shared_key = bytes_of "supersecret";
}

abbrev remote_server : UdpAddr
remote_server = record { ip = 10 ∷ 0 ∷ 0 ∷ 1 ∷ []; port = pos 3509 }

abbrev network : Environment
network = record {
  rand = record { intn = λ n. 0; intn_lt = λ n h. h };
  add_now = pos 100;
  pull_now = pos 100;
  write_to_udp = λ addr b. none;
  write_to_tcp = λ conn b. none;
  dial_tcp = λ addr. none;
  selected = 0;
  remote_addr = λ conn. remote_server;
  turn = none;
}

abbrev new : Client ℕ
new = record {
  conn = false;
  udp_pool = Pool.new_pool (remote_server ∷ []);
  tcp_pool = [];
  tcp_pool_map = [];
  tcp_server_list = [];
  messages_waiting = Cache.new_cache 1000000000;
  message_id_counter = 0;
  pre_shared_key = bytes_of "supersecret";
  disposed = false;
  timeout_duration = 1000000000;
}

new_made : Config.new_client parsers conf ≡ done new
unfolding Config.new_client Config.parse_servers Config.parse_server Config.trim_spaces split index
new_made = refl

-- A count that finds no healthy server, a datagram that is too short, a cleanup, and the end.
abbrev events : List (Event ℕ)
events =
    request network (Request.count (bytes_of "users") (bytes_of "alice")) 11
    ∷ response (pos 101) (bytes_of "hello")
    ∷ cleanup (pos 110) []
    ∷ Event.close none
    ∷ []

abbrev last : Client ℕ
last = record new {
  message_id_counter = 1;
  messages_waiting = record (Cache.new_cache 1000000000) { disposed = true };
  udp_pool = Pool.dispose (Pool.new_pool (remote_server ∷ []));
  disposed = true;
}

abbrev refused : List (Called ℕ)
refused = record { callback = 11; data_value = []; err = some no_healthy_udp_servers } ∷ []

addr_string : UdpAddr → Bytes
addr_string addr = addr.ip

run-events : run addr_string new events ≡ done (last, refused)
unfolding run Requests.count new_packet_from_parts uint32_from_bytes make_message_id uint32_to_bytes
    uint64_from_bytes send_or_callback_err is_tcp_only_cmd Pool.choose Pool.new_pool handle_response
    parse_packet Config.close Cache.dispose Cache.check_cleanup Cache.new_cache
run-events = refl

is_11 : ℕ → Bool
is_11 n = n == 11

run-new_client_example : waits is_11 last + tally is_11 (calls refused) ≤ tally is_11 (given events)
run-new_client_example =
    run-new_client is_11 addr_string parsers conf new last events refused new_made run-events

run-next_id_example :
    (last.message_id_counter ≡ length (given events))
    × (find (next_id last.message_id_counter) last.messages_waiting.cache ≡ none)
run-next_id_example =
    run-next_id addr_string parsers conf new last events refused new_made run-events (omega arith)

run-ends_example :
    (loop_healthcheck ◌==◌ addr_string [] last
      ≡ done (record { client = last; called = []; result = some false }))
    × (receive (pos 120) (bytes_of "hello") last ≡ done (last, []))
run-ends_example =
    run-ends addr_string ◌==◌ parsers conf new last events refused [] (pos 120) (bytes_of "hello")
      new_made run-events tt
