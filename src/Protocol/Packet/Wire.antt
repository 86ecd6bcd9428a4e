-- ===== src/Protocol/Packet/Wire.antt =====
-- protocol/protocol.go: a packet made by `NewPacketFromParts`, printed by `Bytes` and read by
-- `ParsePacket` on the other side.
use dracula.Protocol.Packet.Layout.{to_bytes-frame, length-frame, frame}
use dracula.Protocol.Text.Padding.{trim_space-pad_right}
use dracula.Protocol.Text.{trim_space}
use dracula.Protocol.Pad.{length-pad_right, pad_right}
use dracula.Protocol.Packet.RoundTrip.{parse_packet-frame, IsCommand, unframed}
use dracula.Protocol.Words.{
  uint64_from_bytes-take, uint32_from_bytes, uint64_from_bytes_total, uint64_from_bytes,
}
use dracula.Prelude.{
  ◌==◌, if◌then◌else◌, Option, refl, some, length-take, ==_refl, none, length-append, ap, ◌∙◌,
  arith, [], ◌≤◌, ℕ, Bytes, ◌≡◌, done, length, take,
}
use dracula.Protocol.Packet.{
  bad_hash, Error, parse_packet, packet_size, trim_space, to_bytes, data_value_string,
  namespace_string, validate, data_value_size, namespace_size, pad_right, bytes_to_hash,
  uint32_from_bytes, new_packet_from_parts, uint64_from_bytes, hash_packet, Packet, Hasher,
}

module _ ⦃h : Hasher⦄ where
  pub length-hash_packet : (p : Packet) (key : Bytes) → 8 ≤ length (hash_packet p key)
  unfolding hash_packet
  length-hash_packet p key =
      let b = bytes_to_hash p key in
      omega (arith, ap length (h.sum_appends b), length-append b h.digest, h.length-digest)

  -- The word that `SetHash` and `Validate` read off the hash.
  pub hash_word :
      (p : Packet) (key : Bytes)
      → (u : ℕ) × (uint64_from_bytes (hash_packet p key) ≡ done u)
        × (uint64_from_bytes (take 8 (hash_packet p key)) ≡ done u)
  hash_word p key =
      let (u, e, _) = uint64_from_bytes_total (hash_packet p key) (length-hash_packet p key) in
      (u, e, uint64_from_bytes-take (hash_packet p key) (length-hash_packet p key) ∙ e)

  pub validate_total :
      (p : Packet) (key : Bytes) → (err : Option Error) × (validate p key ≡ done err)
  unfolding validate
  validate_total p key =
      let (u, e, _) = hash_word p key in (if p.hash == u then none else some bad_hash, rw e)

  abbrev pub unsigned : ℕ → Bytes → ℕ → Bytes → Bytes → Packet
  unsigned c ib id ns dv =
      unframed c [] 0 ib id (pad_right ns namespace_size) (pad_right dv data_value_size)

  abbrev pub signed : ℕ → Bytes → ℕ → Bytes → Bytes → Bytes → ℕ → Packet
  signed c ib id ns dv key u = record (unsigned c ib id ns dv) {
    hash_bytes = hash_packet (unsigned c ib id ns dv) key;
    hash = u;
  }

  -- With four identifier bytes or more the construction succeeds, for any text.
  pub new_packet_from_parts_total :
      (c : ℕ) (ib ns dv key : Bytes) (id : ℕ)
      → uint32_from_bytes ib ≡ done id
      → (u : ℕ) × (new_packet_from_parts c ib ns dv key ≡ done (signed c ib id ns dv key u))
        × (uint64_from_bytes (take 8 (hash_packet (unsigned c ib id ns dv) key)) ≡ done u)
        × (uint64_from_bytes (hash_packet (unsigned c ib id ns dv) key) ≡ done u)
  unfolding new_packet_from_parts
  new_packet_from_parts_total c ib ns dv key id e =
      let (u, eu, et) = hash_word (unsigned c ib id ns dv) key in (u, rw (e, eu), et, eu)

  -- The packet that the other side parses.
  abbrev pub arrived : ℕ → Bytes → ℕ → Bytes → Bytes → Bytes → ℕ → Packet
  arrived c ib id ns dv key u =
      unframed c (take 8 (hash_packet (unsigned c ib id ns dv) key)) u ib id
        (pad_right ns namespace_size) (pad_right dv data_value_size)

  validate-arrived :
      (c : ℕ) (ib : Bytes) (id : ℕ) (ns dv key : Bytes) (u : ℕ)
      → uint64_from_bytes (hash_packet (unsigned c ib id ns dv) key) ≡ done u
      → validate (arrived c ib id ns dv key u) key ≡ done none
  unfolding validate hash_packet
  validate-arrived c ib id ns dv key u e = rw (e, ==_refl u)

  pub namespace_string-arrived :
      (c : ℕ) (ib : Bytes) (id : ℕ) (ns dv key : Bytes) (u : ℕ)
      → namespace_string (arrived c ib id ns dv key u) ≡ trim_space ns
  unfolding namespace_string
  namespace_string-arrived c ib id ns dv key u = trim_space-pad_right ns namespace_size

  pub data_value_string-arrived :
      (c : ℕ) (ib : Bytes) (id : ℕ) (ns dv key : Bytes) (u : ℕ)
      → data_value_string (arrived c ib id ns dv key u) ≡ trim_space dv
  unfolding data_value_string
  data_value_string-arrived c ib id ns dv key u = trim_space-pad_right dv data_value_size

  -- What a packet made from parts is on the wire and on the other side.
  pub record Travels (c : ℕ) (ib : Bytes) (id : ℕ) (ns dv key : Bytes) (p q : Packet) (b : Bytes)
      : Type 0 where
    pub made : new_packet_from_parts c ib ns dv key ≡ done p
    pub written : to_bytes p ≡ done (b, none)
    pub size : length b ≡ packet_size
    pub parsed : parse_packet b ≡ done (some q, none)
    pub command : q.command ≡ c
    pub message_id : q.message_id ≡ id
    pub message_id_bytes : q.message_id_bytes ≡ ib
    pub namespace_padded : q.namespace ≡ pad_right ns namespace_size
    pub data_value_padded : q.data_value ≡ pad_right dv data_value_size
    pub namespace : namespace_string q ≡ trim_space ns
    pub data_value : data_value_string q ≡ trim_space dv
    pub valid : validate q key ≡ done none

  -- A packet made from parts that fit (a known command, four identifier bytes, at most 64 bytes of
  -- namespace and 1419 of data) is written without an error as 1500 bytes; these are parsed without
  -- an error to the same command and identifier, to the namespace and the data without the white
  -- space around them, and pass `Validate` under the key that the packet was made with.
  pub packet_round_trip :
      (c : ℕ) (ib : Bytes) (id : ℕ) (ns dv key : Bytes)
      → IsCommand c
      → length ib ≡ 4
      → uint32_from_bytes ib ≡ done id
      → length ns ≤ namespace_size
      → length dv ≤ data_value_size
      → (p : Packet) × (q : Packet) × (b : Bytes) × Travels c ib id ns dv key p q b
  unfolding to_bytes
  packet_round_trip c ib id ns dv key valid ei eu en ed =
      let (u, made, ut, uh) = new_packet_from_parts_total c ib ns dv key id eu in
      let p = signed c ib id ns dv key u in
      let hb = take 8 (hash_packet (unsigned c ib id ns dv) key) in
      let ns' = pad_right ns namespace_size in
      let dv' = pad_right dv data_value_size in
      let b = frame c hb ib ns' dv' in
      let eh : length hb ≡ 8 = omega (
        arith,
        length-take 8 (hash_packet (unsigned c ib id ns dv) key),
        length-hash_packet (unsigned c ib id ns dv) key,
      ) in
      let en' : length ns' ≡ namespace_size = length-pad_right ns namespace_size en in
      let ed' : length dv' ≡ data_value_size = length-pad_right dv data_value_size ed in
      (
        p,
        arrived c ib id ns dv key u,
        b,
        record {
          made = made;
          written = to_bytes-frame p (length-hash_packet (unsigned c ib id ns dv) key) ei en' ed';
          size = omega (arith, length-frame c hb ib ns' dv');
          parsed = parse_packet-frame c u id hb ib ns' dv' valid eh ei en' ed' ut eu;
          command = refl;
          message_id = refl;
          message_id_bytes = refl;
          namespace_padded = refl;
          data_value_padded = refl;
          namespace = namespace_string-arrived c ib id ns dv key u;
          data_value = data_value_string-arrived c ib id ns dv key u;
          valid = validate-arrived c ib id ns dv key u uh;
        },
      )
