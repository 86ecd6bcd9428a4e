-- ===== src/Protocol/Packet/RoundTrip.antt =====
-- protocol/protocol.go: what `Bytes` writes, `ParsePacket` reads back.
use dracula.Protocol.Command.{is_tcp_only_cmd, is_response_cmd}
use dracula.Protocol.Packet.Parse.{parse_fields-parsed, parsed}
use dracula.Prelude.{
  true, ap, ◌∙◌, take_all, ◌||◌, le→ltb_false, arith, some, ◌≤◌, none, ℕ, Bytes, ◌≡◌, done, length,
}
use dracula.Protocol.Pad.{pad_right_full, space}
use dracula.Protocol.Packet.{
  is_response_cmd, parse_fields, uint32_from_bytes, uint64_from_bytes, data_value_size, packet_size,
  namespace_size, check_packet, packet_error, is_request_cmd, Packet, parse_packet,
}
use dracula.Protocol.Packet.Layout.{length-frame, frame, Reads, frame-Reads}

abbrev pub IsCommand : ℕ → Type 0
IsCommand c = (is_request_cmd c || is_response_cmd c || is_tcp_only_cmd c) ≡ true

abbrev pub unframed : ℕ → Bytes → ℕ → Bytes → ℕ → Bytes → Bytes → Packet
unframed c hash_bytes hash id_bytes id ns dv = record {
  command = c;
  hash_bytes = hash_bytes;
  hash = hash;
  message_id_bytes = id_bytes;
  message_id = id;
  namespace = ns;
  data_value = dv;
  request_client = none;
}

packet_error-none :
    (c size : ℕ)
    → IsCommand c
    → size ≤ packet_size
    → packet_error c space space space space size ≡ none
unfolding packet_error
packet_error-none c size h k = rw (h, le→ltb_false packet_size size k)

module _ (c hash id : ℕ) (hb ib ns dv b : Bytes) (r : Reads c hb ib ns dv b)
    (size : length b ≡ packet_size) (ed : length dv ≡ data_value_size)
    (uh : uint64_from_bytes hb ≡ done hash) (ui : uint32_from_bytes ib ≡ done id) where
  parsed-unframed : parsed c hash id b ≡ unframed c hb hash ib id ns dv
  parsed-unframed = rw (
    r.hash_bytes,
    r.message_id_bytes,
    r.namespace,
    r.data_value,
    size,
    take_all 1419 dv (omega arith),
    pad_right_full dv data_value_size (omega arith),
  )

  parse_fields-unframed : parse_fields b ≡ done (unframed c hb hash ib id ns dv)
  parse_fields-unframed =
      parse_fields-parsed b c hash id (omega arith) r.command (rw r.hash_bytes uh)
        (rw r.message_id_bytes ui)
      ∙ ap done parsed-unframed

  parse_packet-Reads :
      IsCommand c → parse_packet b ≡ done (some (unframed c hb hash ib id ns dv), none)
  unfolding parse_packet check_packet
  parse_packet-Reads valid = rw (
    le→ltb_false (length b) 82 (omega arith),
    parse_fields-unframed,
    r.space1,
    r.space2,
    r.space3,
    r.space4,
    packet_error-none c (length b) valid (omega arith),
  )

-- A frame with a known command and 1419 bytes of data is parsed without an error, to its parts.
pub parse_packet-frame :
    (c hash id : ℕ) (hb ib ns dv : Bytes)
    → IsCommand c
    → length hb ≡ 8
    → length ib ≡ 4
    → length ns ≡ namespace_size
    → length dv ≡ data_value_size
    → uint64_from_bytes hb ≡ done hash
    → uint32_from_bytes ib ≡ done id
    → parse_packet (frame c hb ib ns dv) ≡ done (some (unframed c hb hash ib id ns dv), none)
parse_packet-frame c hash id hb ib ns dv valid eh ei en ed uh ui =
    parse_packet-Reads c hash id hb ib ns dv (frame c hb ib ns dv)
      (frame-Reads c hb ib ns dv eh ei en) (omega (arith, length-frame c hb ib ns dv)) ed uh ui
      valid
