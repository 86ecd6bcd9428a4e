-- ===== src/Client/Requests/Abandoned.antt =====
-- client/client.go: a request over TCP whose read fails, and the goroutine that it leaves behind.
use dracula.Client.Requests.Started.{made_packet, IsPacketOf}
use dracula.Client.Requests.Tcp.{start-failed}
use dracula.Client.Requests.{start}
use dracula.Client.State.{Client, Environment, Sent, Turn, delivers}
use dracula.Client.Tcp.Failed.{IsTcp, read_one_message-panic}
use dracula.Client.Tcp.Reading.{read_one_message}
use dracula.Protocol.Command.{is_tcp_only_cmd}
use dracula.Protocol.Pad.{length-pad_right}
use dracula.Protocol.Packet.{Hasher, Packet, namespace_size, data_value_size, stop_symbol}
use dracula.Protocol.Text.{trim_space}
use dracula.Prelude.{
  ◌++◌, List, ℕ, Bytes, ◌≡◌, ◌≤◌, length, true, some, none, done, panic, [], ◌∷◌, get_elem?, ap,
  ◌∙◌, refl,
}

-- The packet that the request writes.
abbrev pub written : Packet → Packet
written p = record p { data_value = p.data_value ++ stop_symbol }

module _ {C : Type 0} ⦃hash : Hasher⦄ where
  -- A request over TCP that is written to a connection of the pool, and whose first read fails with an error
  -- of at most 1419 bytes, not by a timeout, for a namespace of at most 64 bytes: its callback is called
  -- once, with the error's text as data and a nil error, and the request returns; but the goroutine
  -- that reads goes on, and its next turn, whatever it finds, panics, since the channel is closed.
  pub start-abandoned :
      (env : Environment) (c : Client C) (command : ℕ) (ns dv : Bytes) (cb : C) (conn : ℕ)
      (msg_err : Bytes) (next : Turn) (turns : List Turn)
      → is_tcp_only_cmd command ≡ true
      → length ns ≤ namespace_size
      → get_elem? c.tcp_pool env.selected ≡ some conn
      → ((b : Bytes) → env.write_to_tcp conn b ≡ none)
      → env.turn ≡ some (delivers [] msg_err)
      → length msg_err ≤ data_value_size
      → (s : Sent C) × (p : Packet) × IsPacketOf c command ns dv p
        × (start env c command ns dv cb ≡ done s)
        × (s.called ≡ record { callback = cb; data_value = trim_space msg_err; err = none } ∷ [])
        × (read_one_message env (written p) conn (delivers [] msg_err) (next ∷ turns) ≡ panic)
  start-abandoned env c command ns dv cb conn msg_err next turns tcp en selected writes turn fits =
      let (s, sent, called) =
        start-failed env c command ns dv cb conn (delivers [] msg_err) msg_err tcp en selected
          writes turn refl fits in
      let (p, packet, made, same, h, k, ei, padded, _) = made_packet c command ns dv in
      let ok : IsTcp (written p) = record {
        tcp = ap is_tcp_only_cmd same ∙ tcp;
        hash_bytes = h;
        message_id_bytes = ei;
        namespace = ap length padded ∙ length-pad_right ns namespace_size en;
      } in
      (
        s,
        p,
        packet,
        sent,
        called,
        read_one_message-panic env (written p) conn msg_err next turns ok,
      )
