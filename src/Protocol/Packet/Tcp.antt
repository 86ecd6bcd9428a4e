-- ===== src/Protocol/Packet/Tcp.antt =====
-- protocol/protocol.go: the bytes of a packet that is made from parts, and of one for a TCP connection,
-- which the stop symbol follows.
use dracula.Protocol.Packet.Layout.{to_bytes-frame, frame, to_bytes_total, frame_of}
use dracula.Protocol.Packet.Wire.{
  Travels, unsigned, signed, new_packet_from_parts_total, length-hash_packet,
}
use dracula.Protocol.Text.{trim_right}
use dracula.Protocol.Text.Ends.{trim_right-ends}
use dracula.Protocol.Pad.{pad_right, length-pad_right, pad_right_full, space}
use dracula.Protocol.Words.{uint32_from_bytes_total}
use dracula.Protocol.Command.{is_tcp_only_cmd}
use dracula.Protocol.Packet.{
  Packet, Hasher, hash_packet, namespace_size, data_value_size, stop_symbol, to_bytes, output_error,
}
use dracula.Prelude.{
  ℕ, Bytes, ◌≡◌, ◌≤◌, ◌-◌, length, take, take_all, done, none, done_injective, ap, sym, ◌∙◌, arith,
  ◌++◌, ◌∷◌, [], append_assoc, length-append, ap₂, true, Option, append-nil, refl, replicate, leb,
  Bool-cases, inl, inr,
}

module _ ⦃h : Hasher⦄ where
  -- The bytes of a packet, by its parts.
  abbrev pub wire : ℕ → Bytes → Bytes → Bytes → Bytes → Bytes
  wire c ib ns dv key =
      frame c (take 8 (hash_packet (unsigned c ib 0 ns dv) key)) ib (pad_right ns namespace_size)
        (pad_right dv data_value_size)

  same_hash :
      (c : ℕ) (ib : Bytes) (id : ℕ) (ns dv key : Bytes)
      → hash_packet (unsigned c ib id ns dv) key ≡ hash_packet (unsigned c ib 0 ns dv) key
  unfolding hash_packet
  same_hash c ib id ns dv key = refl

  pub Travels-wire :
      (c : ℕ) (ib : Bytes) (id : ℕ) (ns dv key : Bytes) (p q : Packet) (b : Bytes)
      → Travels c ib id ns dv key p q b
      → length ib ≡ 4
      → length ns ≤ namespace_size
      → length dv ≤ data_value_size
      → b ≡ wire c ib ns dv key
  Travels-wire c ib id ns dv key p q b t ei en ed =
      let (i, e, _) = uint32_from_bytes_total ib (omega arith) in
      let (u, made, _, _) = new_packet_from_parts_total c ib ns dv key i e in
      let one : p ≡ signed c ib i ns dv key u = done_injective (sym t.made ∙ made) in
      let printed =
        to_bytes-frame (signed c ib i ns dv key u) (length-hash_packet (unsigned c ib i ns dv) key)
          ei (length-pad_right ns namespace_size en) (length-pad_right dv data_value_size ed) in
      ap (λ r. r.0) (done_injective (sym t.written ∙ ap to_bytes one ∙ printed))
      ∙ ap (λ x. frame c (take 8 x) ib (pad_right ns namespace_size) (pad_right dv data_value_size))
          (same_hash c ib i ns dv key)

-- A packet's data is followed by the stop symbol.
frame-stop :
    (c : ℕ) (hb ib ns dv : Bytes)
    → frame c hb ib ns (dv ++ stop_symbol) ≡ frame c hb ib ns dv ++ stop_symbol
frame-stop c hb ib ns dv = simp append_assoc

-- A packet that is made from parts, with the data that is written to a connection.
abbrev pub stopped : Option ℕ → Packet → Packet
stopped client p = record p { data_value = p.data_value ++ stop_symbol; request_client = client }

-- A packet for TCP may have any size.
pub output_error-tcp :
    (command size : ℕ) → is_tcp_only_cmd command ≡ true → output_error command size ≡ none
unfolding output_error
output_error-tcp command size tcp = rw tcp (ground arith)

pub to_bytes-stopped :
    ⦃h : Hasher⦄ (client : Option ℕ) (c : ℕ) (ib : Bytes) (id : ℕ) (ns dv key : Bytes)
    (p q : Packet) (b : Bytes)
    → Travels c ib id ns dv key p q b
    → is_tcp_only_cmd c ≡ true
    → length ib ≡ 4
    → length ns ≤ namespace_size
    → length dv ≤ data_value_size
    → to_bytes (stopped client p) ≡ done (b ++ stop_symbol, none)
to_bytes-stopped client c ib id ns dv key p q b t tcp ei en ed =
    let (i, e, _) = uint32_from_bytes_total ib (omega arith) in
    let (u, made, _, _) = new_packet_from_parts_total c ib ns dv key i e in
    let r = stopped client (signed c ib i ns dv key u) in
    let one : p ≡ signed c ib i ns dv key u = done_injective (sym t.made ∙ made) in
    let hb = take 8 (hash_packet (unsigned c ib i ns dv) key) in
    let ns' = pad_right ns namespace_size in
    let dv' = pad_right dv data_value_size in
    let long : data_value_size ≤ length (dv' ++ stop_symbol) =
      omega (arith, length-append dv' stop_symbol, length-pad_right dv data_value_size ed) in
    let printed : frame_of r ≡ b ++ stop_symbol =
      rw
        (
          take_all 4 ib (omega (arith, ei)),
          pad_right_full ns' namespace_size (omega (arith, length-pad_right ns namespace_size en)),
          pad_right_full (dv' ++ stop_symbol) data_value_size long,
          Travels-wire c ib id ns dv key p q b t ei en ed,
          same_hash c ib i ns dv key,
        )
        (frame-stop c _ ib ns' dv') in
    ap (λ x. to_bytes (stopped client x)) one
    ∙ to_bytes_total r (length-hash_packet (unsigned c ib i ns dv) key) (omega (arith, ei))
    ∙ ap₂ (λ x err. done (x, err)) printed (output_error-tcp c (length (frame_of r)) tcp)

-- The bytes up to the padding at their end.
pub record Ends (b w : Bytes) (n : ℕ) : Type 0 where
  pub whole : b ≡ w ++ replicate n space
  pub trimmed : trim_right w ≡ w

frame-front :
    (c : ℕ) (hb ib ns dv : Bytes)
    → frame c hb ib ns dv ≡ (c ∷ space ∷ (hb ++ space ∷ (ib ++ space ∷ ns))) ++ space ∷ dv
frame-front c hb ib ns dv = simp append_assoc

pad_right-replicate :
    (dv : Bytes) (n : ℕ) → length dv ≤ n → pad_right dv n ≡ dv ++ replicate (n - length dv) space
unfolding pad_right
pad_right-replicate dv n fits = elim (Bool-cases (leb n (length dv))) [
  | inl e ↦
      let none_left : n - length dv ≡ 0 = ground arith in rw (e, none_left) (sym (append-nil dv))
  | inr e ↦ rw e
]

-- With some data that does not end with white space, only the padding of the data is trimmed.
pub frame-Ends :
    (c : ℕ) (hb ib ns dv : Bytes)
    → 1 ≤ length dv
    → length dv ≤ data_value_size
    → trim_right dv ≡ dv
    → Ends
        (frame c hb ib ns (pad_right dv data_value_size))
        (frame c hb ib ns dv)
        (data_value_size - length dv)
frame-Ends c hb ib ns dv long fits trimmed =
    let front = c ∷ space ∷ (hb ++ space ∷ (ib ++ space ∷ ns)) in
    let spaces = replicate (data_value_size - length dv) space in
    record {
      whole =
          ap (frame c hb ib ns) (pad_right-replicate dv data_value_size fits)
          ∙ frame-front c hb ib ns (dv ++ spaces)
          ∙ sym (append_assoc front (space ∷ dv) spaces)
          ∙ ap (λ w. w ++ spaces) (sym (frame-front c hb ib ns dv));
      trimmed =
          ap trim_right (frame-front c hb ib ns dv)
          ∙ trim_right-ends front dv long trimmed
          ∙ sym (frame-front c hb ib ns dv);
    }

-- With neither a namespace nor data, the trimming ends at the identifier, if its last byte is no space.
pub frame-Ends_bare :
    (c : ℕ) (hb ib : Bytes)
    → 1 ≤ length ib
    → trim_right ib ≡ ib
    → Ends
        (frame c hb ib (pad_right [] namespace_size) (pad_right [] data_value_size))
        ((c ∷ space ∷ hb) ++ space ∷ ib)
        1485
unfolding pad_right
frame-Ends_bare c hb ib long trimmed = record {
  whole = simp append_assoc;
  trimmed = trim_right-ends (c ∷ space ∷ hb) ib long trimmed;
}
