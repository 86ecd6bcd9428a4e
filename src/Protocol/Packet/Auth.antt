-- ===== src/Protocol/Packet/Auth.antt =====
-- protocol/protocol.go: what `HashPacket` and `Validate` protect. The code hands the bytes to be
-- hashed to `Sum`, which appends to them the hash of an empty input: the slice begins with the key.
use dracula.Protocol.Packet.Wire.{length-hash_packet, unsigned, signed, new_packet_from_parts_total}
use dracula.Protocol.Words.{uint64_from_bytes-take, uint64_from_bytes, uint32_from_bytes}
use dracula.Prelude.{
  sym, some, none, ◌==◌, [], if◌then◌else◌, zero, length-append, ◌∷◌, ◌∙◌, arith, ap, suc, ◌++◌,
  ◌≤◌, List, ℕ, Bytes, ◌≡◌, refl, done, length, take,
}
use dracula.Protocol.Packet.{
  bad_hash, uint64_from_bytes, new_packet_from_parts, bytes_to_hash, validate, uint32_from_bytes,
  hash_packet, Packet, Hasher,
}

take-append_le {ℓ} :
    {A : Type ℓ} (n : ℕ) (xs ys : List A) → n ≤ length xs → take n (xs ++ ys) ≡ take n xs
take-append_le zero xs ys h = refl
take-append_le (suc n) [] ys h = absurd (omega arith)
take-append_le (suc n) (x ∷ xs) ys h = ap (◌∷◌ x) (take-append_le n xs ys (omega arith))

module _ ⦃h : Hasher⦄ where
  -- For every packet and key the hash is the key, the identifier, the namespace and the data
  -- themselves, and then eight bytes that are the same for all packets.
  pub hash_packet-eq :
      (p : Packet) (key : Bytes) → hash_packet p key ≡ bytes_to_hash p key ++ h.digest
  unfolding hash_packet
  hash_packet-eq p key = h.sum_appends (bytes_to_hash p key)

  take-hash_packet :
      (p : Packet) (key : Bytes) → 8 ≤ length key → take 8 (hash_packet p key) ≡ take 8 key
  take-hash_packet p key long =
      let rest = p.message_id_bytes ++ (p.namespace ++ p.data_value) in
      ap (take 8) (hash_packet-eq p key)
      ∙ take-append_le 8 (key ++ rest) h.digest (omega (arith, length-append key rest))
      ∙ take-append_le 8 key rest long

  -- With a key of eight bytes or more, the hash bytes that a packet made from parts carries in clear
  -- are the first eight bytes of the key.
  pub hash_bytes-key :
      (c : ℕ) (ib ns dv key : Bytes) (id : ℕ)
      → uint32_from_bytes ib ≡ done id
      → 8 ≤ length key
      → (p : Packet) × (new_packet_from_parts c ib ns dv key ≡ done p)
        × (take 8 p.hash_bytes ≡ take 8 key)
  hash_bytes-key c ib ns dv key id e long =
      let (u, made, _, _) = new_packet_from_parts_total c ib ns dv key id e in
      (signed c ib id ns dv key u, made, take-hash_packet (unsigned c ib id ns dv) key long)

  -- With a key of eight bytes or more, `Validate` compares the packet's hash with the first eight
  -- bytes of the key: what it answers does not depend on the identifier, the namespace or the data.
  pub validate-key :
      (p : Packet) (key : Bytes) (k : ℕ)
      → 8 ≤ length key
      → uint64_from_bytes key ≡ done k
      → validate p key ≡ done (if p.hash == k then none else some bad_hash)
  unfolding validate
  validate-key p key k long e =
      let word : uint64_from_bytes (hash_packet p key) ≡ done k =
        sym (uint64_from_bytes-take (hash_packet p key) (length-hash_packet p key))
        ∙ ap uint64_from_bytes (take-hash_packet p key long)
        ∙ uint64_from_bytes-take key long
        ∙ e in
      rw word
