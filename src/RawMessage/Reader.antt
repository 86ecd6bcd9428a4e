-- ===== src/RawMessage/Reader.antt =====
-- server/rawmessage/rawmessage.go: which messages the reader delivers.
use dracula.Protocol.Pad.{le-length-pad_right, pad_right}
use dracula.Protocol.Packet.{packet_size}
use dracula.Protocol.Text.{trim_right, trim_left}
use dracula.Prelude.{
  arith, ◌-◌, take, inr, ltb→lt, inl, ltb, Bool-cases, some, done, ◌≤◌, ◌⊎◌, panic, ◌≡◌, ◌∷◌, ◌<◌,
  length, List, Bytes, ℕ,
}
use dracula.RawMessage.{
  pad_right, packet_size, RawMessage, trim_left, fill, ℕ, UdpAddr, cut_end, read_one_tcp_message,
}

-- The reader panics exactly when what it has collected, up to the stop symbol or the end of the
-- connection, is shorter than the stop symbol; any message that it delivers has 1500 bytes or more.
pub read_one_tcp_message-cases :
    (remote : UdpAddr) (conn : ℕ) (line : Bytes) (lines : List Bytes)
    → (length (fill (trim_left line) lines) < 3)
        × (read_one_tcp_message remote conn (line ∷ lines) ≡ panic)
      ⊎ (3 ≤ length (fill (trim_left line) lines))
        × ((m : RawMessage) × (read_one_tcp_message remote conn (line ∷ lines) ≡ done (some m))
            × (packet_size ≤ length m.message))
unfolding read_one_tcp_message cut_end
read_one_tcp_message-cases remote conn line lines =
    let got = fill (trim_left line) lines in
    elim (Bool-cases (ltb (length got) 3)) [
      | inl e ↦ inl (ltb→lt _ _ e, rw e)
      | inr e ↦
          let text = trim_right (take (length got - 3) got) in
          inr (
            ground arith,
            (
              record {
                message = pad_right text packet_size;
                remote = remote;
                maybe_tcp_client = some conn;
              },
              rw e,
              le-length-pad_right text packet_size,
            ),
          )
    ]
