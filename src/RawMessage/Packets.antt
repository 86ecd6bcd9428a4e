-- ===== src/RawMessage/Packets.antt =====
-- server/rawmessage/rawmessage.go: a packet that is made from parts and written to a connection with the
-- stop symbol is read off it.
use dracula.Protocol.Packet.Layout.{length-frame}
use dracula.Protocol.Packet.Wire.{unsigned, length-hash_packet}
use dracula.Protocol.Packet.Tcp.{wire, Ends, frame-Ends, frame-Ends_bare}
use dracula.Protocol.Pad.{space, pad_right, length-pad_right}
use dracula.Protocol.Text.{trim_right}
use dracula.RawMessage.Lines.{contains_stop}
use dracula.RawMessage.Plain.{IsPlain, read_one_tcp_message-IsPlain}
use dracula.RawMessage.{UdpAddr, read_one_tcp_message, read_lines}
use dracula.Protocol.Packet.{
  Hasher, hash_packet, namespace_size, data_value_size, packet_size, stop_symbol,
}
use dracula.Prelude.{
  ℕ, Bytes, ◌≡◌, ◌≤◌, ◌<◌, ◌⊎◌, inl, inr, length, take, done, some, false, ap, arith, ◌++◌, ◌∷◌, [],
  replicate, length-append, length-replicate, length-take,
}

-- The parts of a packet off whose end only the padding is trimmed: data that does not end with white
-- space, or neither a namespace nor data, and then an identifier whose last byte is no space.
abbrev pub EndsPlainly : Bytes → Bytes → Bytes → Type 0
EndsPlainly ib ns dv =
    (1 ≤ length dv) × (trim_right dv ≡ dv) ⊎ (ns ≡ []) × (dv ≡ []) × (trim_right ib ≡ ib)

-- No stop symbol ends before the one that follows the packet.
abbrev pub StopsOnce : Bytes → Type 0
StopsOnce b = contains_stop (b ++ (10 ∷ b'.' ∷ [])) ≡ false

-- A text that is written with the stop symbol is read off the connection whole.
abbrev pub ReadsBack : UdpAddr → ℕ → Bytes → Type 0
ReadsBack remote conn b =
    read_one_tcp_message remote conn (read_lines (b ++ stop_symbol))
    ≡ done (some (record { message = b; remote = remote; maybe_tcp_client = some conn }))

module _ (c : ℕ) (lo : 33 ≤ c) (hi : c < 128) where
  Ends-IsPlain :
      (b w : Bytes) (n : ℕ) → Ends b (c ∷ w) n → length b ≡ packet_size → StopsOnce b → IsPlain b
  Ends-IsPlain b w n ends size once = record {
    head = c;
    text = w;
    spaces = n;
    whole = ends.whole;
    visible = lo;
    ascii = hi;
    trimmed = ends.trimmed;
    size = omega (
      arith,
      size,
      ap length ends.whole,
      length-append (c ∷ w) (replicate n space),
      length-replicate n space,
    );
    once = once;
  }

  module _ ⦃h : Hasher⦄ where
    pub length-wire :
        (ib ns dv key : Bytes)
        → length ib ≡ 4
        → length ns ≤ namespace_size
        → length dv ≤ data_value_size
        → length (wire c ib ns dv key) ≡ packet_size
    length-wire ib ns dv key ei en ed =
        let p = unsigned c ib 0 ns dv in
        omega (
          arith,
          length-frame c (take 8 (hash_packet p key)) ib (pad_right ns namespace_size)
              (pad_right dv data_value_size),
          length-take 8 (hash_packet p key),
          length-hash_packet p key,
          length-pad_right ns namespace_size en,
          length-pad_right dv data_value_size ed,
        )

    bare-IsPlain :
        (ib key : Bytes)
        → length ib ≡ 4
        → trim_right ib ≡ ib
        → StopsOnce (wire c ib [] [] key)
        → IsPlain (wire c ib [] [] key)
    bare-IsPlain ib key ei trimmed once =
        let hb = take 8 (hash_packet (unsigned c ib 0 [] []) key) in
        Ends-IsPlain (wire c ib [] [] key) _ 1485
          (frame-Ends_bare c hb ib (omega (arith, ei)) trimmed)
          (length-wire ib [] [] key ei (omega arith) (omega arith)) once

    -- A packet whose end is only padding, where no stop symbol ends before its own.
    pub wire-IsPlain :
        (ib ns dv key : Bytes)
        → length ib ≡ 4
        → length ns ≤ namespace_size
        → length dv ≤ data_value_size
        → EndsPlainly ib ns dv
        → StopsOnce (wire c ib ns dv key)
        → IsPlain (wire c ib ns dv key)
    wire-IsPlain ib ns dv key ei en ed (inl (long, trimmed)) once =
        let hb = take 8 (hash_packet (unsigned c ib 0 ns dv) key) in
        Ends-IsPlain (wire c ib ns dv key) _ _
          (frame-Ends c hb ib (pad_right ns namespace_size) dv long ed trimmed)
          (length-wire ib ns dv key ei en ed) once
    wire-IsPlain ib ns dv key ei en ed (inr (no_ns, no_dv, trimmed)) once =
        rw (no_ns, no_dv) (bare-IsPlain ib key ei trimmed (rw (no_ns, no_dv) at once))

    -- A packet that is written with the stop symbol is read off the connection whole.
    pub read_one_tcp_message-wire :
        (remote : UdpAddr) (conn : ℕ) (ib ns dv key : Bytes)
        → length ib ≡ 4
        → length ns ≤ namespace_size
        → length dv ≤ data_value_size
        → EndsPlainly ib ns dv
        → StopsOnce (wire c ib ns dv key)
        → ReadsBack remote conn (wire c ib ns dv key)
    read_one_tcp_message-wire remote conn ib ns dv key ei en ed ends once =
        read_one_tcp_message-IsPlain remote conn (wire c ib ns dv key)
          (wire-IsPlain ib ns dv key ei en ed ends once)
