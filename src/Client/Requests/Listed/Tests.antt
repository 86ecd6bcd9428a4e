-- ===== src/Client/Requests/Listed/Tests.antt =====
-- client/client.go and server/server.go: keys of a concrete server, asked for by a concrete client.
use dracula.Client.Examples.{
  literal, server_net, clock, local, users, alice, server, network, client,
}
use dracula.Client.Requests.Listed.{id_bytes, lists-whole, list_result}
use dracula.Client.Requests.Keys.{list_called}
use dracula.Client.Requests.Started.{counted_up}
use dracula.Client.Requests.{start}
use dracula.Client.Tcp.Delivered.{pooled}
use dracula.Client.State.{Sent, delivers}
use dracula.Server.Lists.{lines, listed, of_keys, list_command}
use dracula.Server.{join, worker, write_tcp}
use dracula.RawMessage.Packets.{ReadsBack, StopsOnce}
use dracula.RawMessage.{read_lines}
use dracula.Protocol.Packet.Tcp.{wire}
use dracula.Protocol.Pad.{pad_right}
use dracula.Protocol.Packet.{data_value_size, namespace_size, stop_symbol, hash_packet}
use dracula.Protocol.Text.{trim_space, trim_left, trim_right}
use dracula.Protocol.Words.{uint32_to_bytes}
use dracula.Protocol.Packet.XxHash.{xx_hash}
use dracula.Maps.Assoc.{assoc_tree, assoc_hash}
use dracula.Store as Methods
use dracula.Tree as Tree
use dracula.Tree.{key_match, new_tree, replace_star, count}
use dracula.Maps.Assoc.{get, put, keys}
use dracula.Prelude.Int.{add64}
use dracula.Prelude.{ℕ, length, ◌≤◌, Bytes, [], ◌∷◌, ◌++◌, ◌≡◌, done, none, some, refl, inl, arith}

request-StopsOnce :
    StopsOnce (wire (list_command of_keys) (id_bytes client) users alice server.pre_shared_key)
unfolding hash_packet pad_right uint32_to_bytes
request-StopsOnce = refl

trim_right-alice : trim_right alice ≡ alice
unfolding trim_right
trim_right-alice = refl

found :
    (listed literal of_keys clock server.store (trim_space users) (trim_space alice)).1 ≡ alice ∷ []
unfolding Methods.key_match Methods.put trim_space get put key_match keys Tree.put Methods.new_store
    new_tree replace_star count add64
found = refl

alice-trimmed :
    (trim_left (lines (alice ∷ [])) ≡ lines (alice ∷ []))
    × (trim_right (lines (alice ∷ [])) ≡ lines (alice ∷ []))
unfolding join trim_left trim_right
alice-trimmed = (refl, refl)

reply-StopsOnce : StopsOnce (
    wire
      (list_command of_keys)
      (id_bytes client)
      (pad_right users namespace_size)
      (lines (alice ∷ []))
      server.pre_shared_key)
unfolding hash_packet pad_right uint32_to_bytes join
reply-StopsOnce = refl

alice_fits : length (lines (alice ∷ [])) ≤ data_value_size
unfolding join
alice_fits = omega arith

lists-whole_example :
    (b : Bytes) × (reply : Bytes) × (s : Sent ℕ) × (s.effects ≡ write_tcp 3 (b ++ stop_symbol) ∷ [])
    × ReadsBack local 1 b
    × (worker literal server_net clock server
          (record { message = b; remote = local; maybe_tcp_client = some 1 })
        ≡ done (
          record server {
            store =
                (listed literal of_keys clock server.store (trim_space users) (trim_space alice)).0;
          },
          write_tcp 1 (reply ++ stop_symbol) ∷ [],
        ))
    × (start
          (record network { turn = some (delivers (read_lines (reply ++ stop_symbol)) []) })
          client
          (list_command of_keys)
          users
          alice
          11
        ≡ done s)
    × (s.client ≡ pooled network 3 (counted_up client))
    × (s.called ≡ list_called 11 (alice ∷ []) ∷ [])
    × (list_result {C = ℕ} of_keys (list_called 11 (alice ∷ [])) ≡ done (alice ∷ [], none))
lists-whole_example =
    lists-whole literal server_net clock server local 1 of_keys network client 3 users alice [] 11
      alice [] refl refl (λ b. refl) (omega arith) (omega arith)
      (inl (omega arith, trim_right-alice)) request-StopsOnce found (omega arith) (refl, tt)
      alice-trimmed.0 alice-trimmed.1 alice_fits reply-StopsOnce
