-- ===== src/Protocol/Packet/Layout.antt =====
-- protocol/protocol.go: the places of a packet's fields in its 1500 bytes.
use dracula.Prelude.{
  take_all, length-take, none, drop-append_length, ◌∙◌, append_assoc, sym, index_append, ap, ◌++◌,
  take-append_length, length-append, arith, [], ◌+◌, ◌∷◌, le→ltb_false, ◌≤◌, ℕ, Bytes, ◌≡◌, refl,
  done, index, length, take, drop,
}
use dracula.Protocol.Pad.{pad_right_full, space, pad_right}
use dracula.Protocol.Packet.{
  output_error, to_bytes, data_value_size, namespace_size, Packet, raw_bytes,
}

abbrev pub frame : ℕ → Bytes → Bytes → Bytes → Bytes → Bytes
frame c hash id ns dv =
    (c ∷ space ∷ []) ++ (hash ++ (space ∷ (id ++ (space ∷ (ns ++ (space ∷ dv))))))

pub raw_bytes-frame :
    (p : Packet)
    → 8 ≤ length p.hash_bytes
    → 4 ≤ length p.message_id_bytes
    → raw_bytes p
      ≡ done (
          frame p.command
            (take 8 p.hash_bytes)
            (take 4 p.message_id_bytes)
            (pad_right p.namespace namespace_size)
            (pad_right p.data_value data_value_size))
unfolding raw_bytes
raw_bytes-frame p h k = rw (le→ltb_false _ _ h, le→ltb_false _ _ k)

pub length-frame :
    (c : ℕ) (hash id ns dv : Bytes)
    → length (frame c hash id ns dv) ≡ 5 + length hash + length id + length ns + length dv
length-frame c hash id ns dv = omega (
  arith,
  length-append hash (space ∷ (id ++ (space ∷ (ns ++ (space ∷ dv))))),
  length-append id (space ∷ (ns ++ (space ∷ dv))),
  length-append ns (space ∷ dv),
)

-- What `ParsePacket` reads at each place of a frame.
pub record Reads (c : ℕ) (hash id ns dv b : Bytes) : Type 0 where
  pub command : index b 0 ≡ done c
  pub hash_bytes : take 8 (drop 2 b) ≡ hash
  pub message_id_bytes : take 4 (drop 11 b) ≡ id
  pub namespace : take 64 (drop 16 b) ≡ ns
  pub data_value : drop 81 b ≡ dv
  pub space1 : index b 1 ≡ done space
  pub space2 : index b 10 ≡ done space
  pub space3 : index b 15 ≡ done space
  pub space4 : index b 80 ≡ done space

drop-after : (ns dv : Bytes) → length ns ≡ 64 → drop 65 (ns ++ space ∷ dv) ≡ dv
drop-after ns dv h =
    ap (drop 65) (sym (append_assoc ns (space ∷ []) dv))
    ∙ drop-append_length 65 (ns ++ space ∷ []) dv (omega (arith, length-append ns (space ∷ [])))

pub frame-Reads :
    (c : ℕ) (hash id ns dv : Bytes)
    → length hash ≡ 8
    → length id ≡ 4
    → length ns ≡ 64
    → Reads c hash id ns dv (frame c hash id ns dv)
unfolding index
frame-Reads c (h0 ∷ h1 ∷ h2 ∷ h3 ∷ h4 ∷ h5 ∷ h6 ∷ h7 ∷ []) (i0 ∷ i1 ∷ i2 ∷ i3 ∷ []) ns dv eh ei en =
    record {
      command = refl;
      hash_bytes = refl;
      message_id_bytes = refl;
      namespace = take-append_length 64 ns (space ∷ dv) en;
      data_value = drop-after ns dv en;
      space1 = refl;
      space2 = refl;
      space3 = refl;
      space4 = index_append 64 ns space dv en;
    }
frame-Reads c hash id ns dv eh ei en = absurd (omega arith)

-- A packet whose parts have the sizes of the protocol is written without an error.
pub to_bytes-frame :
    (p : Packet)
    → 8 ≤ length p.hash_bytes
    → length p.message_id_bytes ≡ 4
    → length p.namespace ≡ namespace_size
    → length p.data_value ≡ data_value_size
    → to_bytes p
      ≡ done
          (frame p.command (take 8 p.hash_bytes) p.message_id_bytes p.namespace p.data_value, none)
unfolding to_bytes
to_bytes-frame p eh ei en ed =
    let hb = take 8 p.hash_bytes in
    let size : length (frame p.command hb p.message_id_bytes p.namespace p.data_value) ≡ 1500 =
      omega (
        arith,
        length-frame p.command hb p.message_id_bytes p.namespace p.data_value,
        length-take 8 p.hash_bytes,
      ) in
    rw (
      raw_bytes-frame p eh (omega arith),
      take_all 4 p.message_id_bytes (omega arith),
      pad_right_full p.namespace namespace_size (omega arith),
      pad_right_full p.data_value data_value_size (omega arith),
      size,
    )

-- What `Bytes` writes of any packet with enough bytes of hash and identifier.
abbrev pub frame_of : Packet → Bytes
frame_of p =
    frame p.command (take 8 p.hash_bytes) (take 4 p.message_id_bytes)
      (pad_right p.namespace namespace_size) (pad_right p.data_value data_value_size)

pub to_bytes_total :
    (p : Packet)
    → 8 ≤ length p.hash_bytes
    → 4 ≤ length p.message_id_bytes
    → to_bytes p ≡ done (frame_of p, output_error p.command (length (frame_of p)))
unfolding to_bytes
to_bytes_total p h k = rw (raw_bytes-frame p h k)
