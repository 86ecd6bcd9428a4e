-- ===== src/Client/Requests/Tests.antt =====
-- client/client.go: requests of a concrete client, with numbers for callbacks.
use dracula.Client.Sending.Cases.{IsHandedOver}
use dracula.Client.Udp.Cases.{Returns}
use dracula.Client.Requests.Counted.{count-whole}
use dracula.Server.Requests.{datagram}
use dracula.Store as Methods
use dracula.Maps.Assoc as Assoc
use dracula.Tree as Tree
use dracula.Client.Requests.Abandoned.{start-abandoned, written}
use dracula.Client.Tcp.Reading.{read_one_message}
use dracula.Client.Requests.Oversized.{start-Oversized}
use dracula.Client.Responses.{bad_packet}
use dracula.Client.State.{fails}
use dracula.Protocol.Packet.{bad_output_size}
use dracula.Client.Requests.Tcp.{start-new_client, start-failed}
use dracula.Client.Requests.Started.{counted_up, start-cases, next_id, IsPacketOf}
use dracula.Protocol.Text.{trim_space}
use dracula.Client.Cache.Cases.{entry}
use dracula.Server.Peers.{Parsers, split}
use dracula.Client.Cache.{is_expired}
use dracula.Client.Responses.{handle_response, Called}
use dracula.Client.Requests.{count_result, list_namespaces_result, key_match_result, start}
use dracula.Protocol.Packet.{Packet}
use dracula.Protocol.Command.{cmd_count, cmd_tcp_only_keys, cmd_put, is_tcp_only_cmd}
use dracula.Server.Counts.{in_key, counted}
use dracula.Prelude.Int.{ℤ, pos, sub64, add64}
use dracula.Client.State.{context_done, delivers, Sent, Client}
use dracula.Server.{max_uint32, worker, write_udp}
use dracula.Client.Pool.{Random}
use dracula.Prelude.{
  inl, replicate, if◌then◌else◌, Option, min, arith, some, none, [], panic, true, bytes_eq, done, ℕ,
  bytes_of, ◌∷◌, false, index, Bytes, refl, ◌≡◌,
}
use dracula.Client.Pool as Pool
use dracula.Client.Cache as Cache
use dracula.Client.Config as Config
use dracula.Maps.Assoc.{assoc_tree, assoc_hash}
use dracula.Protocol.Packet.XxHash.{xx_hash}
use dracula.Client.Examples.{
  literal, server_net, clock, local, remote_server, users, alice, server, first_server, network,
  client,
}

client_chooses : Pool.choose first_server client.udp_pool ≡ done (some remote_server)
unfolding Pool.choose index
client_chooses = refl

entry_fresh :
    is_expired
      (pos 101)
      client.messages_waiting
      (entry (pos 100) (next_id client.message_id_counter) 11)
    ≡ false
unfolding sub64
entry_fresh = refl

count-whole_example :
    let (store', n) = counted in_key clock server.store (trim_space users) (trim_space alice) in
    (s : Sent ℕ) × (b : Bytes) × (reply : Bytes) × (r : Called ℕ) × (start network client cmd_count
        users alice 11
      ≡ done s)
    × (s.effects ≡ write_udp remote_server b ∷ [])
    × (worker literal server_net clock server (datagram local b)
        ≡ done (record server { store = store' }, write_udp local reply ∷ []))
    × (handle_response (pos 101) s.client.messages_waiting reply
        ≡ done (client.messages_waiting, r ∷ []))
    × (r.callback ≡ 11)
    × (count_result r ≡ done (min n max_uint32, none))
count-whole_example =
    count-whole literal server_net clock server local in_key network client remote_server users
      alice (pos 101) 11 refl client_chooses refl (λ b. refl) refl entry_fresh (omega arith)
      (omega arith)

count_run : (Methods.count (pos 100) server.store (trim_space users) (trim_space alice)).1 ≡ 1
unfolding Methods.count Assoc.get Methods.put Assoc.put trim_space Tree.count Tree.put
    Methods.new_store Tree.new_tree add64
count_run = refl

put_by_udp : is_tcp_only_cmd cmd_put ≡ false
unfolding is_tcp_only_cmd
put_by_udp = refl

keys_by_tcp : is_tcp_only_cmd cmd_tcp_only_keys ≡ true
unfolding is_tcp_only_cmd
keys_by_tcp = refl

start-cases_example :
    (p : Packet) × IsPacketOf client cmd_put users alice p
    × Returns client
        (start network client cmd_put users alice 11)
        (IsHandedOver (pos 100) (counted_up client) p 11)
start-cases_example = start-cases network client cmd_put users alice 11 put_by_udp

start-failed_example :
    (s : Sent ℕ) × (start network client cmd_tcp_only_keys users alice 11 ≡ done s)
    × (s.called
        ≡ record { callback = 11; data_value = trim_space (bytes_of "EOF"); err = none } ∷ [])
start-failed_example =
    start-failed network client cmd_tcp_only_keys users alice 11 3 (delivers [] (bytes_of "EOF"))
      (bytes_of "EOF") keys_by_tcp (omega arith) refl (λ b. refl) refl refl (omega arith)

-- The next turn comes after the deferred `cancel`.
start-abandoned_example :
    (s : Sent ℕ) × (p : Packet) × IsPacketOf client cmd_tcp_only_keys users alice p
    × (start network client cmd_tcp_only_keys users alice 11 ≡ done s)
    × (s.called
        ≡ record { callback = 11; data_value = trim_space (bytes_of "EOF"); err = none } ∷ [])
    × (read_one_message network (written p) 3 (delivers [] (bytes_of "EOF")) (context_done ∷ [])
        ≡ panic)
start-abandoned_example =
    start-abandoned network client cmd_tcp_only_keys users alice 11 3 (bytes_of "EOF") context_done
      [] keys_by_tcp (omega arith) refl (λ b. refl) refl (omega arith)

abbrev atoi : Bytes → Option ℤ
atoi s = if bytes_eq s (bytes_of "3509") then some (pos 3509) else none

abbrev parsers : Parsers
parsers = record { parse_ip = λ s. some (10 ∷ 0 ∷ 0 ∷ 1 ∷ []); atoi = atoi }

abbrev udp_conf : Config.Config
udp_conf = record {
  remote_udp_ip_port_list = bytes_of "10.0.0.1:3509";
  remote_tcp_ip_port_list = [];
  timeout = 0;
  pre_shared_key = bytes_of "supersecret";
}

abbrev udp_client : Client ℕ
udp_client = record {
  conn = false;
  udp_pool = Pool.new_pool (remote_server ∷ []);
  tcp_pool = [];
  tcp_pool_map = [];
  tcp_server_list = [];
  messages_waiting = Cache.new_cache 1000000000;
  message_id_counter = 0;
  pre_shared_key = bytes_of "supersecret";
  disposed = false;
  timeout_duration = 1000000000;
}

udp_client_made : Config.new_client parsers udp_conf ≡ done udp_client
unfolding Config.new_client Config.parse_servers Config.parse_server Config.trim_spaces split index
udp_client_made = refl

start-new_client_example : start network udp_client cmd_tcp_only_keys users alice 11 ≡ panic
start-new_client_example =
    start-new_client parsers udp_conf network udp_client cmd_tcp_only_keys users alice 11
      keys_by_tcp refl udp_client_made

-- `KeyMatch` makes the empty text an empty list, and `ListNamespaces` a list of one empty text.
abbrev empty_answer : Called ℕ
empty_answer = record { callback = 11; data_value = []; err = none }

key_match_of_none : key_match_result empty_answer ≡ done ([], none)
unfolding key_match_result split index
key_match_of_none = refl

namespaces_of_none : list_namespaces_result empty_answer ≡ ([] ∷ [], none)
unfolding list_namespaces_result split
namespaces_of_none = refl

-- A name of 65 bytes.
abbrev long_name : Bytes
long_name = replicate 65 b'n'

start-Oversized_example :
    start network client cmd_put long_name alice 11
    ≡ done (fails (counted_up client) 11 (bad_packet bad_output_size))
start-Oversized_example =
    start-Oversized network client cmd_put long_name alice 11 remote_server put_by_udp
      client_chooses (inl (omega arith))
