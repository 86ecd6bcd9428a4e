-- ===== src/Protocol/Packet/Parse.antt =====
-- protocol/protocol.go: `ParsePacket` never panics, and where its fields come from.
use dracula.Prelude.{
  refl, inr, ltb→lt, inl, ltb, Bool-cases, ◌⊎◌, le→ltb_false, ◌<◌, some, index_done, length-drop,
  none, Option, length-take, ◌-◌, arith, min, ℕ, Bytes, ◌≡◌, ◌≤◌, done, index, slice-done, length,
  take, drop,
}
use dracula.Protocol.Pad.{length-pad_right, pad_right}
use dracula.Protocol.Words.{
  uint32_from_bytes_total, uint64_from_bytes_total, uint32_from_bytes, uint64_from_bytes,
}
use dracula.Protocol.Packet.{
  packet_error, invalid_packet_size_too_small, namespace_size, check_packet, Error, parse_packet,
  Packet, parse_fields, data_value_size, packet_size,
}

abbrev pub parsed : ℕ → ℕ → ℕ → Bytes → Packet
parsed c hash id buf = record {
  command = c;
  hash_bytes = take 8 (drop 2 buf);
  hash = hash;
  message_id_bytes = take 4 (drop 11 buf);
  message_id = id;
  namespace = take 64 (drop 16 buf);
  data_value = pad_right (take (min (length buf) packet_size - 81) (drop 81 buf)) data_value_size;
  request_client = none;
}

pub parse_fields-parsed :
    (buf : Bytes) (c hash id : ℕ)
    → 82 ≤ length buf
    → index buf 0 ≡ done c
    → uint64_from_bytes (take 8 (drop 2 buf)) ≡ done hash
    → uint32_from_bytes (take 4 (drop 11 buf)) ≡ done id
    → parse_fields buf ≡ done (parsed c hash id buf)
unfolding parse_fields
parse_fields-parsed buf c hash id h ec eh ei = rw (
  slice-done 2 10 buf (omega arith) (omega arith),
  slice-done 11 15 buf (omega arith) (omega arith),
  slice-done 16 80 buf (omega arith) (omega arith),
  slice-done 81 (min (length buf) 1500) buf (omega arith) (omega arith),
  ec,
  eh,
  ei,
)

uint64_slice :
    (b : Bytes) → 82 ≤ length b → (u : ℕ) × (uint64_from_bytes (take 8 (drop 2 b)) ≡ done u)
uint64_slice b h =
    let enough : 8 ≤ length (take 8 (drop 2 b)) =
      omega (arith, length-take 8 (drop 2 b), length-drop 2 b) in
    let (u, e, _) = uint64_from_bytes_total (take 8 (drop 2 b)) enough in (u, e)

uint32_slice :
    (b : Bytes) → 82 ≤ length b → (u : ℕ) × (uint32_from_bytes (take 4 (drop 11 b)) ≡ done u)
uint32_slice b h =
    let enough : 4 ≤ length (take 4 (drop 11 b)) =
      omega (arith, length-take 4 (drop 11 b), length-drop 11 b) in
    let (u, e, _) = uint32_from_bytes_total (take 4 (drop 11 b)) enough in (u, e)

parse_fields_total :
    (buf : Bytes)
    → 82 ≤ length buf
    → (c : ℕ) × (hash : ℕ) × (id : ℕ) × (parse_fields buf ≡ done (parsed c hash id buf))
parse_fields_total buf h =
    let (c, ec) = index_done buf 0 (omega arith) in
    let (hash, eh) = uint64_slice buf h in
    let (id, ei) = uint32_slice buf h in (c, hash, id, parse_fields-parsed buf c hash id h ec eh ei)

check_packet_total :
    (p : Packet) (buf : Bytes)
    → 82 ≤ length buf
    → (e : Option Error) × (check_packet p buf ≡ done e)
unfolding check_packet
check_packet_total p buf h =
    let (s1, e1) = index_done buf 1 (omega arith) in
    let (s2, e2) = index_done buf 10 (omega arith) in
    let (s3, e3) = index_done buf 15 (omega arith) in
    let (s4, e4) = index_done buf 80 (omega arith) in
    (packet_error p.command s1 s2 s3 s4 (length buf), rw (e1, e2, e3, e4))

-- A packet whose slices have the sizes of the protocol.
pub record IsSized (p : Packet) : Type 0 where
  pub hash_bytes : length p.hash_bytes ≡ 8
  pub message_id_bytes : length p.message_id_bytes ≡ 4
  pub namespace : length p.namespace ≡ namespace_size
  pub data_value : length p.data_value ≡ data_value_size

parsed-IsSized : (c hash id : ℕ) (buf : Bytes) → 82 ≤ length buf → IsSized (parsed c hash id buf)
parsed-IsSized c hash id buf h = record {
  hash_bytes = omega (arith, length-take 8 (drop 2 buf), length-drop 2 buf);
  message_id_bytes = omega (arith, length-take 4 (drop 11 buf), length-drop 11 buf);
  namespace = omega (arith, length-take 64 (drop 16 buf), length-drop 16 buf);
  data_value =
      length-pad_right _ data_value_size
        (omega (arith, length-take (min (length buf) packet_size - 81) (drop 81 buf)));
}

-- From 82 bytes on there is a packet, of the sizes of the protocol, beside whatever error.
pub parse_packet-IsSized :
    (buf : Bytes)
    → 82 ≤ length buf
    → (p : Packet) × (e : Option Error) × (parse_packet buf ≡ done (some p, e))
      × IsSized p
      × (p.request_client ≡ none)
unfolding parse_packet
parse_packet-IsSized buf h =
    let (c, hash, id, e) = parse_fields_total buf h in
    let p = parsed c hash id buf in
    let (err, f) = check_packet_total p buf h in
    (p, err, rw (le→ltb_false (length buf) 82 h, e, f), parsed-IsSized c hash id buf h, refl)

-- `ParsePacket` never panics. The pointer is nil exactly for fewer than 82 bytes, with the error that
-- the packet is too small; else the packet has 8 hash bytes, 4 identifier bytes, 64 namespace bytes
-- and 1419 data bytes, whether or not there is an error.
pub parse_packet_cases :
    (buf : Bytes)
    → (length buf < 82) × (parse_packet buf ≡ done (none, some invalid_packet_size_too_small))
      ⊎ (82 ≤ length buf)
        × ((p : Packet) × (e : Option Error) × (parse_packet buf ≡ done (some p, e)) × IsSized p)
unfolding parse_packet
parse_packet_cases buf = elim (Bool-cases (ltb (length buf) 82)) [
  | inl small ↦ inl (ltb→lt _ _ small, rw small)
  | inr large ↦
      let h : 82 ≤ length buf = ground arith in
      let (p, e, parses, sized, _) = parse_packet-IsSized buf h in inr (h, (p, e, parses, sized))
]
