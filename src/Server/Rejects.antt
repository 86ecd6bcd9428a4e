-- ===== src/Server/Rejects.antt =====
-- server/server.go: what the worker refuses.
use dracula.Server.Total.{answer_udp}
use dracula.Server.Requests.{datagram}
use dracula.Server.Worker.{worker-forged, worker-malformed}
use dracula.Protocol.Packet.Wire.{Travels}
use dracula.Protocol.Packet.Parse.{parse_packet_cases, IsSized}
use dracula.Protocol.Command.{res_error, is_tcp_only_cmd, is_response_cmd, is_request_cmd}
use dracula.Server.{write_udp, worker, UdpAddr, RawMessage, Server, Clock, Network, reject}
use dracula.Tree.{Regexp}
use dracula.Maps.{HashMap, RedBlackTree}
use dracula.Protocol.Packet.{
  data_value_size, validate, parse_packet, Error, Packet, Hasher, error_text,
}
use dracula.Prelude.{
  ◌≤◌, length, refl, ◌∙◌, arith, [], ◌∷◌, subst, inr, inl, none, ℕ, ◌⊎◌, some, done, ◌≡◌, Option,
  Bytes,
}

parsed-IsSized :
    (b : Bytes) (q : Packet) (e : Option Error) → parse_packet b ≡ done (some q, e) → IsSized q
parsed-IsSized b q e parses = elim (parse_packet_cases b) [
  | inl (small, nothing) ↦ absurd (cc)
  | inr (large, (p, e', found, sized)) ↦ subst IsSized (cc) sized
]

error_text_fits : (e : Error) → length (error_text e) ≤ data_value_size
unfolding error_text
error_text_fits Error.invalid_packet_size_too_small = omega arith
error_text_fits Error.invalid_packet_size_too_large = omega arith
error_text_fits Error.invalid_command_byte = omega arith
error_text_fits Error.protocol_space1 = omega arith
error_text_fits Error.protocol_space2 = omega arith
error_text_fits Error.protocol_space3 = omega arith
error_text_fits Error.bad_hash = omega arith
error_text_fits Error.bad_output_size = omega arith

module _ ⦃hash : Hasher⦄ ⦃t : RedBlackTree⦄ ⦃h : HashMap⦄ where
  -- What `ParsePacket` or `Validate` has against a message: the packet, and the error.
  abbrev pub Faulty : Bytes → Bytes → Packet → Error → Type 0
  Faulty b key q err =
      (parse_packet b ≡ done (some q, some err))
      ⊎ ((parse_packet b ≡ done (some q, none)) × (validate q key ≡ done (some err)))

  worker-Faulty :
      (re : Regexp) (net : Network) (clock : Clock) (s : Server) (m : RawMessage) (q : Packet)
      (err : Error)
      → Faulty m.message s.pre_shared_key q err
      → (worker re net clock s m
          ≡ reject s m (record q { request_client = m.maybe_tcp_client }) err)
        × IsSized q
  worker-Faulty re net clock s m q err (inl malformed) = (
    worker-malformed re net clock s m q err malformed,
    parsed-IsSized m.message q (some err) malformed,
  )
  worker-Faulty re net clock s m q err (inr (parses, forged)) =
      (worker-forged re net clock s m q err parses forged, parsed-IsSized m.message q none parses)

  -- A datagram that `ParsePacket` or `Validate` refuses leaves the server as it was, and is answered
  -- by one packet with the error command, the identifier of the request and the text of the error.
  pub worker-refused :
      (re : Regexp) (net : Network) (clock : Clock) (s : Server) (remote : UdpAddr) (b : Bytes)
      (q : Packet) (err : Error)
      → Faulty b s.pre_shared_key q err
      → (id : ℕ) × (p : Packet) × (res : Packet) × (reply : Bytes) × Travels res_error
          q.message_id_bytes id q.namespace
          (error_text err)
          s.pre_shared_key
          p
          res
          reply
        × (worker re net clock s (datagram remote b) ≡ done (s, write_udp remote reply ∷ []))
  unfolding reject is_request_cmd is_response_cmd is_tcp_only_cmd
  worker-refused re net clock s remote b q err faulty =
      let (refused, sized) = worker-Faulty re net clock s (datagram remote b) q err faulty in
      let (id, p, res, reply, r, answered, _) =
        answer_udp s (datagram remote b) (record q { request_client = none }) res_error
          (error_text err) refl sized.message_id_bytes (omega (arith, sized.namespace)) refl
          (error_text_fits err) in
      (id, p, res, reply, r, refused ∙ rw answered)
