-- ===== src/Server/Tests.antt =====
-- server/server.go: the theorems of the worker at concrete servers and messages.
use dracula.Server.Counts.{in_key, worker-counted}
use dracula.Server.Puts.{worker-put, worker-replicated}
use dracula.Protocol.Pad.{pad_right, space}
use dracula.Server.Rejects.{worker-refused, Faulty}
use dracula.Protocol.Packet.RoundTrip.{IsCommand, unframed}
use dracula.Server.Requests.{Served, datagram}
use dracula.Protocol.Packet.Wire.{packet_round_trip, Travels}
use dracula.Protocol.Text.{trim_space}
use dracula.Protocol.Packet.{error_text, Error, parse_packet, Packet}
use dracula.Protocol.Command.{
  cmd_count, cmd_put, res_error, cmd_put_replicate, is_tcp_only_cmd, is_response_cmd,
  is_request_cmd,
}
use dracula.Prelude.Int.{pos}
use dracula.Protocol.Words.{uint64_from_bytes, uint32_to_bytes, uint32_from_bytes}
use dracula.Prelude.{
  index, slice, min, arith, refl, inl, done, [], bytes_eq, ◌∷◌, replicate, ◌≡◌, bytes_of, false,
  inr, ℕ, Bytes,
}
use dracula.Server.{max_uint32, write_udp, send_to_peers, worker, Server, UdpAddr, Clock, Network}
use dracula.Tree.{Regexp}
use dracula.Protocol.Packet.XxHash.{xx_hash}
use dracula.Maps.Assoc.{assoc_tree, assoc_hash}
use dracula.Store as Methods

abbrev literal : Regexp
literal = record { compile = λ pattern. inr (bytes_eq pattern) }

abbrev net : Network
net = record { udp_fails = λ addr b. false }

abbrev clock : Clock
clock = record { now = pos 100; secs = pos 100; times = λ ns k. pos 100 }

abbrev client : UdpAddr
client = record { ip = 10 ∷ 0 ∷ 0 ∷ 7 ∷ []; port = pos 40000 }

abbrev peer : UdpAddr
peer = record { ip = 10 ∷ 0 ∷ 0 ∷ 8 ∷ []; port = pos 3509 }

abbrev server : Server
server = record {
  store = Methods.new_store (pos 60);
  pre_shared_key = bytes_of "supersecret";
  peers = peer ∷ [];
}

abbrev id_bytes : Bytes
id_bytes = 23 ∷ 104 ∷ 3 ∷ 0 ∷ []

abbrev ns : Bytes
ns = bytes_of "willy_nilly"

abbrev ip : Bytes
ip = bytes_of " 192.168.0.50"

id_word : uint32_from_bytes id_bytes ≡ done 223255
unfolding uint32_from_bytes
id_word = refl

worker-put_example :
    let s' = Methods.put (pos 100) (pos 100) server.store (trim_space ns) (trim_space ip) in
    (p : Packet) × (b : Bytes) × (res : Packet) × (reply : Bytes) × (p' : Packet) × (q' : Packet)
    × (copy : Bytes) × Served literal net clock server client cmd_put id_bytes ns ip s' p b cmd_put
        []
        (send_to_peers net copy (peer ∷ []))
        res
        reply
    × Travels cmd_put_replicate id_bytes 223255 ns ip server.pre_shared_key p' q' copy
worker-put_example =
    worker-put literal net clock server client id_bytes 223255 ns ip refl id_word (omega arith)
      (omega arith)

worker-counted_example :
    let (s', n) = Methods.count (pos 100) server.store (trim_space ns) (trim_space ip) in
    (p : Packet) × (b : Bytes) × (res : Packet) × (reply : Bytes) × Served literal net clock server
      client cmd_count id_bytes ns ip s' p b cmd_count
      (uint32_to_bytes (min n max_uint32))
      []
      res
      reply
    × (uint32_from_bytes res.data_value ≡ done (min n max_uint32))
worker-counted_example =
    worker-counted literal net clock server client in_key id_bytes 223255 ns ip refl id_word
      (omega arith) (omega arith)

put_replicate-IsCommand : IsCommand cmd_put_replicate
unfolding is_request_cmd is_response_cmd is_tcp_only_cmd
put_replicate-IsCommand = refl

-- The packet that a peer sends.
abbrev copy :
    (p : Packet) × (q : Packet) × (b : Bytes) × Travels cmd_put_replicate id_bytes 223255 ns ip
      server.pre_shared_key p q b
copy =
    packet_round_trip cmd_put_replicate id_bytes 223255 ns ip server.pre_shared_key
      put_replicate-IsCommand refl id_word (omega arith) (omega arith)

worker-replicated_example :
    worker literal net clock server (datagram peer copy.2)
    ≡ done (
      record server {
        store = Methods.put (pos 100) (pos 100) server.store (trim_space ns) (trim_space ip);
      },
      [],
    )
worker-replicated_example =
    worker-replicated literal net clock server peer id_bytes 223255 ns ip copy.0 copy.1 copy.2
      copy.3

-- 82 spaces: the command byte is none of the protocol.
abbrev blank : Bytes
blank = replicate 82 space

abbrev blank_packet : Packet
blank_packet =
    unframed space (replicate 8 space) 0x2020202020202020 (replicate 4 space) 0x20202020
      (replicate 64 space) (replicate 1419 space)

blank-Faulty : Faulty blank server.pre_shared_key blank_packet Error.invalid_command_byte
unfolding parse_packet slice index uint64_from_bytes uint32_from_bytes pad_right is_request_cmd
    is_response_cmd is_tcp_only_cmd
blank-Faulty = inl refl

worker-refused_example :
    (id : ℕ) × (p : Packet) × (res : Packet) × (reply : Bytes) × Travels res_error
      (replicate 4 space)
      id
      (replicate 64 space)
      (error_text Error.invalid_command_byte)
      server.pre_shared_key
      p
      res
      reply
    × (worker literal net clock server (datagram client blank)
        ≡ done (server, write_udp client reply ∷ []))
worker-refused_example =
    worker-refused literal net clock server client blank blank_packet Error.invalid_command_byte
      blank-Faulty
