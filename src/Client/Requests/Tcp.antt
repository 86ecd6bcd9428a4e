-- ===== src/Client/Requests/Tcp.antt =====
-- client/client.go: requests over TCP that fail.
use dracula.Client.Config.New.{new_client-no_tcp, new_client-IsNew}
use dracula.Client.Config.{new_client, Config}
use dracula.Server.Peers.{Parsers}
use dracula.Protocol.Pad.{length-pad_right}
use dracula.Protocol.Text.{trim_space}
use dracula.Client.Requests.Started.{counted_up, made_packet}
use dracula.Client.Tcp.Failed.{send_tcp-failed, IsTcp, send_tcp-panic, failure_text}
use dracula.Protocol.Command.{is_tcp_only_cmd}
use dracula.Client.State.{Sent, Turn, Client, Environment}
use dracula.Client.Responses.{call}
use dracula.Client.Sending.{send_or_callback_err}
use dracula.Client.Requests.{start}
use dracula.Protocol.Packet.{data_value_size, namespace_size, Hasher}
use dracula.Prelude.{
  ◌∷◌, done, ◌∙◌, ap, some, panic, none, get_elem?, ◌≤◌, [], length, true, Bytes, ℕ, ◌≡◌,
}

module _ {C : Type 0} ⦃hash : Hasher⦄ where
  -- A request over TCP that is written to a connection of the pool, and whose first read brings no message:
  -- the callback is called once, with the text of the failure (the connection's error, of at most 1419
  -- bytes, or that of a timeout) as its data, and with a nil error. The namespace has at most 64 bytes.
  pub start-failed :
      (env : Environment) (c : Client C) (command : ℕ) (ns dv : Bytes) (cb : C) (conn : ℕ)
      (turn : Turn) (text : Bytes)
      → is_tcp_only_cmd command ≡ true
      → length ns ≤ namespace_size
      → get_elem? c.tcp_pool env.selected ≡ some conn
      → ((b : Bytes) → env.write_to_tcp conn b ≡ none)
      → env.turn ≡ some turn
      → failure_text turn ≡ some text
      → length text ≤ data_value_size
      → (s : Sent C) × (start env c command ns dv cb ≡ done s)
        × (s.called ≡ record { callback = cb; data_value = trim_space text; err = none } ∷ [])
  unfolding start send_or_callback_err call
  start-failed env c command ns dv cb conn turn text tcp en selected writes turns fails fits =
      let (p, packet, made, same, h, k, ei, padded, _) = made_packet c command ns dv in
      let by_tcp : is_tcp_only_cmd p.command ≡ true = ap is_tcp_only_cmd same ∙ tcp in
      let ok : IsTcp p = record {
        tcp = by_tcp;
        hash_bytes = h;
        message_id_bytes = ei;
        namespace = ap length padded ∙ length-pad_right ns namespace_size en;
      } in
      let (s, sent, called) =
        send_tcp-failed env (counted_up c) p cb conn turn text ok selected writes turns fails
          fits in
      (s, rw (made, by_tcp) sent, called)

  -- Without a server for TCP, and if the pool selects no connection.
  start-panic :
      (env : Environment) (c : Client C) (command : ℕ) (ns dv : Bytes) (cb : C)
      → is_tcp_only_cmd command ≡ true
      → c.tcp_server_list ≡ []
      → get_elem? c.tcp_pool env.selected ≡ none
      → start env c command ns dv cb ≡ panic
  unfolding start send_or_callback_err
  start-panic env c command ns dv cb tcp no_server unselected =
      let (p, packet, made, same, h, k, _, _, _) = made_packet c command ns dv in
      let by_tcp : is_tcp_only_cmd p.command ≡ true = ap is_tcp_only_cmd same ∙ tcp in
      rw (made, by_tcp, send_tcp-panic env (counted_up c) p cb no_server unselected)

  -- A request over TCP panics on every client that `NewClient` made without a list of servers by TCP,
  -- whatever it meets and whatever its namespace and its data.
  pub start-new_client :
      (net : Parsers) (conf : Config) (env : Environment) (c : Client C) (command : ℕ)
      (ns dv : Bytes) (cb : C)
      → is_tcp_only_cmd command ≡ true
      → conf.remote_tcp_ip_port_list ≡ []
      → new_client net conf ≡ done c
      → start env c command ns dv cb ≡ panic
  start-new_client net conf env c command ns dv cb tcp no_tcp made =
      let new = new_client-IsNew net conf c made in
      start-panic env c command ns dv cb tcp (new_client-no_tcp net conf c no_tcp made)
        (ap (λ pool. get_elem? pool env.selected) new.tcp_pool)
