-- ===== src/Server/Requests.antt =====
-- server/server.go: the requests that a client sends by UDP, from its packet to what it reads of the
-- answer. `datagram` is a message that came by UDP.
use dracula.Protocol.Words.{uint32_from_bytes}
use dracula.Server.Total.{answer_udp}
use dracula.Protocol.Packet.RoundTrip.{IsCommand}
use dracula.Protocol.Pad.{length-pad_right, pad_right}
use dracula.Protocol.Text.Padding.{trim_space-pad_right}
use dracula.Protocol.Text.{trim_space}
use dracula.Server.Worker.{worker-accepted}
use dracula.Protocol.Packet.Wire.{Travels}
use dracula.Store.{Store}
use dracula.Tree.{Regexp}
use dracula.Maps.{HashMap, RedBlackTree}
use dracula.Protocol.Packet.{
  data_value_string, validate, data_value_size, namespace_size, namespace_string, parse_packet,
  packet_size, to_bytes, new_packet_from_parts, Packet, Hasher,
}
use dracula.Prelude.{
  arith, [], refl, ◌≤◌, some, ap, ◌∙◌, ◌∷◌, length, done, ◌≡◌, Option, List, none, Bytes, ℕ,
}
use dracula.Server.{
  answer, worker, write_udp, dispatch, Effect, Server, Network, Clock, RawMessage, UdpAddr,
}

abbrev pub datagram : UdpAddr → Bytes → RawMessage
datagram remote b = record { message = b; remote = remote; maybe_tcp_client = none }

module _ ⦃hash : Hasher⦄ ⦃t : RedBlackTree⦄ ⦃h : HashMap⦄ where
  module _ (re : Regexp) (net : Network) (clock : Clock) (s : Server) (remote : UdpAddr) where
    -- A packet of a client is one datagram of 1500 bytes, `b`; the worker leaves the store `s'` and
    -- sends `reply`, which is read as `res`, and then `copies`.
    pub record Served (sent : ℕ) (ib ns dv : Bytes) (s' : Store) (p : Packet) (b : Bytes)
        (answered : ℕ) (text : Bytes) (copies : List Effect) (res : Packet) (reply : Bytes)
        : Type 0 where
      pub made : new_packet_from_parts sent ib ns dv s.pre_shared_key ≡ done p
      pub written : to_bytes p ≡ done (b, none)
      pub size : length b ≡ packet_size
      pub handled :
          worker re net clock s (datagram remote b)
          ≡ done (record s { store = s' }, write_udp remote reply ∷ copies)
      pub parsed : parse_packet reply ≡ done (some res, none)
      pub command : res.command ≡ answered
      pub message_id_bytes : res.message_id_bytes ≡ ib
      pub message_id : uint32_from_bytes ib ≡ done res.message_id
      pub namespace : namespace_string res ≡ trim_space ns
      pub data_value : res.data_value ≡ pad_right text data_value_size
      pub valid : validate res s.pre_shared_key ≡ done none

    pub serve :
        (sent : ℕ) (ib : Bytes) (id : ℕ) (ns dv : Bytes) (s' : Store) (p q : Packet) (b : Bytes)
        (answered id' : ℕ) (text : Bytes) (copies : List Effect) (p' res : Packet) (reply : Bytes)
        → Travels sent ib id ns dv s.pre_shared_key p q b
        → Travels answered q.message_id_bytes id' q.namespace text s.pre_shared_key p' res reply
        → uint32_from_bytes q.message_id_bytes ≡ done id'
        → dispatch re net clock s (datagram remote b) (record q { request_client = none })
          ≡ done (record s { store = s' }, write_udp remote reply ∷ copies)
        → Served sent ib ns dv s' p b answered text copies res reply
    serve sent ib id ns dv s' p q b answered id' text copies p' res reply t r word dispatched =
        record {
          made = t.made;
          written = t.written;
          size = t.size;
          handled =
              worker-accepted re net clock s (datagram remote b) q t.parsed t.valid ∙ dispatched;
          parsed = r.parsed;
          command = r.command;
          message_id_bytes = r.message_id_bytes ∙ t.message_id_bytes;
          message_id = rw (← t.message_id_bytes, r.message_id) word;
          namespace =
              r.namespace
              ∙ ap trim_space t.namespace_padded
              ∙ trim_space-pad_right ns namespace_size;
          data_value = r.data_value_padded;
          valid = r.valid;
        }

    -- The answer to a packet that came over the wire.
    pub answered_udp :
        (sent : ℕ) (ib : Bytes) (id : ℕ) (ns dv : Bytes) (p q : Packet) (b : Bytes) (answered : ℕ)
        (text : Bytes)
        → Travels sent ib id ns dv s.pre_shared_key p q b
        → length ib ≡ 4
        → length ns ≤ namespace_size
        → IsCommand answered
        → length text ≤ data_value_size
        → (id' : ℕ) × (p' : Packet) × (res : Packet) × (reply : Bytes) × Travels answered
            q.message_id_bytes id' q.namespace text s.pre_shared_key p' res reply
          × (answer s (datagram remote b) (record q { request_client = none }) answered text
              ≡ done (write_udp remote reply ∷ []))
          × (uint32_from_bytes q.message_id_bytes ≡ done id')
    answered_udp sent ib id ns dv p q b answered text t ei en valid ed =
        answer_udp s (datagram remote b) (record q { request_client = none }) answered text refl
          (ap length t.message_id_bytes ∙ ei)
          (omega (arith, ap length t.namespace_padded, length-pad_right ns namespace_size en)) valid
          ed

-- Whom a packet came from is none of its parts.
pub namespace_string-client :
    (q : Packet) (client : Option ℕ)
    → namespace_string (record q { request_client = client }) ≡ namespace_string q
unfolding namespace_string
namespace_string-client q client = refl

pub data_value_string-client :
    (q : Packet) (client : Option ℕ)
    → data_value_string (record q { request_client = client }) ≡ data_value_string q
unfolding data_value_string
data_value_string-client q client = refl
