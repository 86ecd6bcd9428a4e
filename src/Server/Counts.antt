-- ===== src/Server/Counts.antt =====
-- server/server.go: the three requests that count, over UDP.
use dracula.Protocol.Packet.Wire.{packet_round_trip}
use dracula.Protocol.Pad.{pad_right}
use dracula.Server.Requests.{
  data_value_string-client, namespace_string-client, answered_udp, serve, datagram, Served,
}
use dracula.Protocol.Text.{trim_space}
use dracula.Protocol.Words.{
  length-uint32_to_bytes, uint32_from_bytes-to_bytes, uint32_to_bytes, uint32_from_bytes,
}
use dracula.Store as Methods
use dracula.Store.{Store}
use dracula.Tree.{Regexp}
use dracula.Protocol.Packet.RoundTrip.{IsCommand}
use dracula.Maps.{HashMap, RedBlackTree}
use dracula.Server.{
  write_udp, answer, Effect, count_request, RawMessage, dispatch, max_uint32, UdpAddr, Server,
  Network, Clock, clamp_uint32,
}
use dracula.Protocol.Packet.{
  data_value_string, namespace_string, Packet, data_value_size, namespace_size, Hasher,
}
use dracula.Protocol.Command.{
  cmd_count_server, is_tcp_only_cmd, cmd_count_namespace, is_response_cmd, cmd_count,
  is_request_cmd,
}
use dracula.Prelude.{
  ◌∷◌, ap₂, List, ◌∙◌, none, ap, [], min, ◌≤◌, done, ◌≡◌, length, Bytes, refl, arith, ℕ,
}

-- The three commands that count.
pub data Counting : Type 0 where
  in_key in_namespace in_server : Counting

abbrev pub command_of : Counting → ℕ
command_of in_key = cmd_count
command_of in_namespace = cmd_count_namespace
command_of in_server = cmd_count_server

command_of-IsCommand : (c : Counting) → IsCommand (command_of c)
unfolding is_request_cmd is_response_cmd is_tcp_only_cmd
command_of-IsCommand in_key = refl
command_of-IsCommand in_namespace = refl
command_of-IsCommand in_server = refl

clamp_uint32-min : (n : ℕ) → clamp_uint32 n ≡ min n max_uint32
clamp_uint32-min n = ground arith

word_of_answer :
    (res : Packet) (n : ℕ)
    → res.data_value ≡ pad_right (uint32_to_bytes (min n max_uint32)) data_value_size
    → uint32_from_bytes res.data_value ≡ done (min n max_uint32)
unfolding pad_right uint32_to_bytes
word_of_answer res n e =
    ap uint32_from_bytes e ∙ uint32_from_bytes-to_bytes (min n max_uint32) _ (ground arith)

module _ ⦃hash : Hasher⦄ ⦃t : RedBlackTree⦄ ⦃h : HashMap⦄ where
  abbrev pub counted : Counting → Clock → Store → Bytes → Bytes → Store × ℕ
  counted in_key clock s ns k = Methods.count clock.now s ns k
  counted in_namespace clock s ns k = Methods.count_entries clock.times s ns
  counted in_server clock s ns k = Methods.count_server_entries clock.times s

  dispatch-counting :
      (re : Regexp) (net : Network) (clock : Clock) (s : Server) (m : RawMessage) (q : Packet)
      (c : Counting)
      → q.command ≡ command_of c
      → dispatch re net clock s m q
        ≡ count_request s m q
            (command_of c)
            (counted c clock s.store (namespace_string q) (data_value_string q))
  unfolding dispatch
  dispatch-counting re net clock s m q in_key e = rw e
  dispatch-counting re net clock s m q in_namespace e = rw e
  dispatch-counting re net clock s m q in_server e = rw e

  count_request-answered :
      (s : Server) (m : RawMessage) (q : Packet) (command : ℕ) (found : Store × ℕ)
      (effects : List Effect)
      → answer s m q command (uint32_to_bytes (min found.1 max_uint32)) ≡ done effects
      → count_request s m q command found ≡ done (record s { store = found.0 }, effects)
  unfolding count_request
  count_request-answered s m q command found effects e =
      rw (ap uint32_to_bytes (clamp_uint32-min found.1), e)

  -- Each of a client's three count requests by UDP, with an identifier of four bytes, at most 64 bytes
  -- of namespace and 1419 of data, leaves the store that its method leaves, and is answered by a packet
  -- off which `Uint32FromBytes` reads the least of the count and 2^32 - 1.
  pub worker-counted :
      (re : Regexp) (net : Network) (clock : Clock) (s : Server) (remote : UdpAddr) (c : Counting)
      (ib : Bytes) (id : ℕ) (ns dv : Bytes)
      → length ib ≡ 4
      → uint32_from_bytes ib ≡ done id
      → length ns ≤ namespace_size
      → length dv ≤ data_value_size
      → let (s', n) = counted c clock s.store (trim_space ns) (trim_space dv) in
        (p : Packet) × (b : Bytes) × (res : Packet) × (reply : Bytes) × Served re net clock s remote
          (command_of c)
          ib
          ns
          dv
          s'
          p
          b
          (command_of c)
          (uint32_to_bytes (min n max_uint32))
          []
          res
          reply
        × (uint32_from_bytes res.data_value ≡ done (min n max_uint32))
  worker-counted re net clock s remote c ib id ns dv ei e en ed =
      let key = s.pre_shared_key in
      let (p, q, b, t) =
        packet_round_trip (command_of c) ib id ns dv key (command_of-IsCommand c) ei e en ed in
      let found = counted c clock s.store (trim_space ns) (trim_space dv) in
      let text = uint32_to_bytes (min found.1 max_uint32) in
      let (id', p', res, reply, r, answered, word) =
        answered_udp re net clock s remote (command_of c) ib id ns dv p q b (command_of c) text t ei
          en (command_of-IsCommand c)
          (omega (arith, length-uint32_to_bytes (min found.1 max_uint32))) in
      let q' : Packet = record q { request_client = none } in
      let m = datagram remote b in
      let dispatched =
        dispatch-counting re net clock s m q' c t.command
        ∙ ap (count_request s m q' (command_of c)) (
            ap₂ (counted c clock s.store) (namespace_string-client q none ∙ t.namespace)
              (data_value_string-client q none ∙ t.data_value))
        ∙ count_request-answered s m q' (command_of c) found (write_udp remote reply ∷ [])
            answered in
      (
        p,
        b,
        res,
        reply,
        serve re net clock s remote (command_of c) ib id ns dv found.0 p q b (command_of c) id' text
            [] p' res reply t r word dispatched,
        word_of_answer res found.1 r.data_value_padded,
      )
