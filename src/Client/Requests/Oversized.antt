-- ===== src/Client/Requests/Oversized.antt =====
-- client/client.go: requests that do not fit into a packet.
use dracula.Client.Udp.{send_udp}
use dracula.Client.Sending.{send_or_callback_err}
use dracula.Client.Requests.{start}
use dracula.Client.Requests.Started.{made_packet, counted_up}
use dracula.Client.Responses.{bad_packet}
use dracula.Client.State.{Client, Environment, fails}
use dracula.Protocol.Command.{is_tcp_only_cmd}
use dracula.Protocol.Packet.Layout.{frame_of, length-frame, to_bytes_total}
use dracula.Protocol.Pad.{pad_right, pad_right_full, le-length-pad_right}
use dracula.Protocol.Packet.{
  Packet, Hasher, to_bytes, output_error, namespace_size, data_value_size, packet_size,
  bad_output_size,
}
use dracula.RawMessage.{UdpAddr}
use dracula.Prelude.{
  ◌==◌, ◌+◌, ℕ, Bytes, ◌≡◌, ◌≤◌, ◌<◌, ◌⊎◌, inl, inr, length, length-take, take, done, some, false,
  arith, ap, ◌∙◌, refl,
}
use dracula.Client.Pool as Pool

-- A namespace or data of more bytes than its field has.
abbrev pub Oversized : Bytes → Bytes → Type 0
Oversized ns dv = (namespace_size < length ns) ⊎ (data_value_size < length dv)

-- A slice that is too long stays as it is.
length-padded :
    (ns dv : Bytes)
    → Oversized ns dv
    → packet_size
      < 17 + length (pad_right ns namespace_size) + length (pad_right dv data_value_size)
length-padded ns dv (inl long) = omega (
  arith,
  ap length (pad_right_full ns namespace_size (omega arith)),
  le-length-pad_right dv data_value_size,
)
length-padded ns dv (inr long) = omega (
  arith,
  ap length (pad_right_full dv data_value_size (omega arith)),
  le-length-pad_right ns namespace_size,
)

length-frame_of :
    (p : Packet)
    → 8 ≤ length p.hash_bytes
    → length p.message_id_bytes ≡ 4
    → namespace_size ≤ length p.namespace
    → data_value_size ≤ length p.data_value
    → length (frame_of p) ≡ 17 + length p.namespace + length p.data_value
length-frame_of p h k en ed = omega (
  arith,
  length-frame p.command (take 8 p.hash_bytes) (take 4 p.message_id_bytes)
      (pad_right p.namespace namespace_size) (pad_right p.data_value data_value_size),
  length-take 8 p.hash_bytes,
  length-take 4 p.message_id_bytes,
  ap length (pad_right_full p.namespace namespace_size en),
  ap length (pad_right_full p.data_value data_value_size ed),
)

to_bytes-Oversized :
    (p : Packet) (ns dv : Bytes)
    → 8 ≤ length p.hash_bytes
    → length p.message_id_bytes ≡ 4
    → p.namespace ≡ pad_right ns namespace_size
    → p.data_value ≡ pad_right dv data_value_size
    → is_tcp_only_cmd p.command ≡ false
    → Oversized ns dv
    → to_bytes p ≡ done (frame_of p, some bad_output_size)
unfolding output_error
to_bytes-Oversized p ns dv h k en ed udp big =
    let size =
      length-frame_of p h k (omega (arith, ap length en, le-length-pad_right ns namespace_size))
        (omega (arith, ap length ed, le-length-pad_right dv data_value_size)) in
    let wrong : (length (frame_of p) == packet_size) ≡ false =
      ground (arith, size, ap length en, ap length ed, length-padded ns dv big) in
    to_bytes_total p h (omega (arith, k)) ∙ rw (wrong, udp) refl

module _ {C : Type 0} ⦃hash : Hasher⦄ where
  -- A request by UDP whose namespace has more than 64 bytes, or whose data has more than 1419, and for
  -- which there is a healthy server: nothing is sent, nothing waits, and the callback is called once with
  -- the error that the packet has a bad size. It uses an identifier up.
  pub start-Oversized :
      (env : Environment) (c : Client C) (command : ℕ) (ns dv : Bytes) (cb : C) (remote : UdpAddr)
      → is_tcp_only_cmd command ≡ false
      → Pool.choose env.rand c.udp_pool ≡ done (some remote)
      → Oversized ns dv
      → start env c command ns dv cb ≡ done (fails (counted_up c) cb (bad_packet bad_output_size))
  unfolding start send_or_callback_err send_udp
  start-Oversized env c command ns dv cb remote udp picked big =
      let (p, packet, made, same, h, _, ei, en, ed) = made_packet c command ns dv in
      let by_udp : is_tcp_only_cmd p.command ≡ false = ap is_tcp_only_cmd same ∙ udp in
      rw (made, by_udp, picked, to_bytes-Oversized p ns dv h ei en ed by_udp big) refl
