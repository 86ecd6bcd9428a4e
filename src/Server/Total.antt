-- ===== src/Server/Total.antt =====
-- server/server.go: answers and replicas are always made, and what an answer over UDP is.
use dracula.Protocol.Command.{cmd_put_replicate}
use dracula.Protocol.Packet.RoundTrip.{IsCommand}
use dracula.Protocol.Words.{uint32_from_bytes, uint32_from_bytes_total}
use dracula.Protocol.Packet.Layout.{frame_of, to_bytes_total}
use dracula.Maps.{RedBlackTree, HashMap}
use dracula.Prelude.{
  arith, [], ◌∷◌, none, ◌++◌, some, done, ◌≡◌, length, ◌≤◌, ℕ, Option, Bytes, List,
}
use dracula.Protocol.Packet.{
  hash_packet, data_value_size, set_hash, namespace_size, output_error, stop_symbol, Packet, Hasher,
}
use dracula.Protocol.Packet.Wire.{
  packet_round_trip, hash_word, Travels, unsigned, length-hash_packet, new_packet_from_parts_total,
  signed,
}
use dracula.Server.{
  send_to_peers, cmd_put_replicate, Network, republish, respond_or_log_error, write_tcp,
  tolerate_size, write_udp, unless_error, UdpAddr, Server, Effect, RawMessage, respond, answer,
}

-- What a response is on the wire, and the error of writing it.
abbrev over_tcp : ℕ → Packet → Packet
over_tcp client p = record p {
  data_value = p.data_value ++ stop_symbol;
  request_client = some client;
}

abbrev pub sent : Option ℕ → UdpAddr → Packet → List Effect
sent none remote p =
    unless_error (output_error p.command (length (frame_of p))) (write_udp remote (frame_of p) ∷ [])
sent (some client) remote p =
    let q = over_tcp client p in
    unless_error (tolerate_size (output_error q.command (length (frame_of q))))
      (write_tcp client (frame_of q) ∷ [])

pub respond_total :
    (client : Option ℕ) (remote : UdpAddr) (p : Packet)
    → 8 ≤ length p.hash_bytes
    → 4 ≤ length p.message_id_bytes
    → respond client remote p ≡ done (sent client remote p)
unfolding respond
respond_total none remote p h k = rw (to_bytes_total p h k)
respond_total (some client) remote p h k = rw (to_bytes_total (over_tcp client p) h k)

module _ ⦃hash : Hasher⦄ ⦃t : RedBlackTree⦄ ⦃h : HashMap⦄ where
  -- The answer is made and sent, whatever its text.
  pub answer_total :
      (s : Server) (m : RawMessage) (packet : Packet) (command : ℕ) (dv : Bytes)
      → 4 ≤ length packet.message_id_bytes
      → (effects : List Effect) × (answer s m packet command dv ≡ done effects)
  unfolding answer
  answer_total s m packet command dv k =
      let ib = packet.message_id_bytes in
      let (id, e, _) = uint32_from_bytes_total ib k in
      let key = s.pre_shared_key in
      let (u, made, _, _) = new_packet_from_parts_total command ib packet.namespace dv key id e in
      let res = signed command ib id packet.namespace dv key u in
      let enough = length-hash_packet (unsigned command ib id packet.namespace dv) key in
      (
        sent packet.request_client m.remote res,
        rw (made, respond_total packet.request_client m.remote res enough k),
      )

  -- An answer over UDP with a known command and text that fits is one datagram, which the other side
  -- reads as it was meant.
  pub answer_udp :
      (s : Server) (m : RawMessage) (packet : Packet) (command : ℕ) (dv : Bytes)
      → packet.request_client ≡ none
      → length packet.message_id_bytes ≡ 4
      → length packet.namespace ≤ namespace_size
      → IsCommand command
      → length dv ≤ data_value_size
      → (id : ℕ) × (p : Packet) × (q : Packet) × (b : Bytes) × Travels command
          packet.message_id_bytes id packet.namespace dv s.pre_shared_key p q b
        × (answer s m packet command dv ≡ done (write_udp m.remote b ∷ []))
        × (uint32_from_bytes packet.message_id_bytes ≡ done id)
  unfolding answer respond respond_or_log_error
  answer_udp s m packet command dv udp ei en valid ed =
      let ib = packet.message_id_bytes in
      let (id, e, _) = uint32_from_bytes_total ib (omega arith) in
      let (p, q, b, t) =
        packet_round_trip command ib id packet.namespace dv s.pre_shared_key valid ei e en ed in
      (id, p, q, b, t, rw (t.made, udp, t.written), e)

  pub republish_total :
      (net : Network) (s : Server) (packet : Packet)
      → 4 ≤ length packet.message_id_bytes
      → (effects : List Effect) × (republish net s packet ≡ done effects)
  unfolding republish set_hash
  republish_total net s packet k =
      let p : Packet = record packet { command = cmd_put_replicate } in
      let key = s.pre_shared_key in
      let (u, e, _) = hash_word p key in
      let signed : Packet = record p { hash_bytes = hash_packet p key; hash = u } in
      let b = frame_of signed in
      (
        unless_error (output_error signed.command (length b)) (send_to_peers net b s.peers),
        rw (e, to_bytes_total signed (length-hash_packet p key) k),
      )
