-- ===== src/Client/Tcp/Failed.antt =====
-- client/client.go: what the callback of a request over TCP is given when the connection fails.
use dracula.Server.{write_tcp}
use dracula.Protocol.Packet.Tcp.{output_error-tcp}
use dracula.Protocol.Text.Padding.{trim_space-pad_right}
use dracula.Protocol.Text.{trim_space}
use dracula.Client.Responses.{call}
use dracula.RawMessage.{read_one_tcp_message, RawMessage}
use dracula.Client.Tcp.{
  new_conn, put_back, received_tcp, await_tcp, write_tcp_or_call, printed_tcp, on_conn,
  get_selected, get_conn, send_tcp,
}
use dracula.Client.Tcp.Reading.{
  conn_after, respond_tcp, read_turn, handle_tcp_message, read_on, read_one_message,
}
use dracula.Protocol.Packet.RoundTrip.{parse_packet-frame, IsCommand}
use dracula.Protocol.Words.{uint32_from_bytes_total, uint64_from_bytes_total}
use dracula.Protocol.Pad.{pad_right_full, length-pad_right, pad_right}
use dracula.Protocol.Packet.Layout.{length-frame, frame, to_bytes_total, frame_of}
use dracula.Protocol.Command.{is_tcp_only_cmd}
use dracula.Protocol.Packet.{
  stop_symbol, packet_size, parse_packet, data_value_size, namespace_size, to_bytes, Packet,
}
use dracula.Client.State.{Sent, Client, Environment, context_done, delivers, Turn}
use dracula.Prelude.{
  List, Outcome, panic, ◌+◌, drop, ◌++◌, get_elem?, false, Bool, take_all, length-take, take, [],
  ◌∷◌, arith, done, ◌≤◌, none, bytes_of, length, true, some, Bytes, ℕ, Option, refl, ◌≡◌, ap, ◌∙◌,
}

-- The text of the error, where the first turn of reading brings no message.
abbrev pub failure_text : Turn → Option Bytes
failure_text context_done = some (bytes_of "timed out waiting for message response")
failure_text (delivers [] msg_err) = some msg_err
failure_text (delivers (line ∷ lines) msg_err) = none

-- A packet for TCP with the parts of the protocol.
pub record IsTcp (p : Packet) : Type 0 where
  pub tcp : is_tcp_only_cmd p.command ≡ true
  pub hash_bytes : 8 ≤ length p.hash_bytes
  pub message_id_bytes : length p.message_id_bytes ≡ 4
  pub namespace : length p.namespace ≡ namespace_size

pub to_bytes-IsTcp :
    (p : Packet) (data_value' : Bytes)
    → IsTcp p
    → to_bytes (record p { data_value = data_value' })
      ≡ done (frame_of (record p { data_value = data_value' }), none)
to_bytes-IsTcp p data_value' ok =
    to_bytes_total (record p { data_value = data_value' }) ok.hash_bytes
      (omega (arith, ok.message_id_bytes))
    ∙ ap (λ err. done (frame_of (record p { data_value = data_value' }), err))
        (output_error-tcp p.command _ ok.tcp)

-- Such a packet is parsed from what is written of it.
parse-frame_of :
    (p : Packet) (text : Bytes)
    → IsTcp p
    → length text ≤ data_value_size
    → (q : Packet) × (parse_packet
          (pad_right (frame_of (record p { data_value = text })) packet_size)
        ≡ done (some q, none))
      × (q.data_value ≡ pad_right text data_value_size)
parse-frame_of p text ok fits =
    let hb = take 8 p.hash_bytes in
    let eh : length hb ≡ 8 = omega (arith, length-take 8 p.hash_bytes, ok.hash_bytes) in
    let (u, eu, _) = uint64_from_bytes_total hb (omega (arith, eh)) in
    let (id, ei, _) =
      uint32_from_bytes_total p.message_id_bytes (omega (arith, ok.message_id_bytes)) in
    let dv = pad_right text data_value_size in
    let ed : length dv ≡ data_value_size = length-pad_right text data_value_size fits in
    let whole : frame_of (record p { data_value = text })
        ≡ frame p.command hb p.message_id_bytes p.namespace dv =
      rw (
        take_all 4 p.message_id_bytes (omega (arith, ok.message_id_bytes)),
        pad_right_full p.namespace namespace_size (omega (arith, ok.namespace)),
      ) in
    let size : length (frame p.command hb p.message_id_bytes p.namespace dv) ≡ packet_size = omega (
      arith,
      length-frame p.command hb p.message_id_bytes p.namespace dv,
      eh,
      ok.message_id_bytes,
      ok.namespace,
      ed,
    ) in
    let full : pad_right (frame_of (record p { data_value = text })) packet_size
        ≡ frame p.command hb p.message_id_bytes p.namespace dv =
      ap (λ b. pad_right b packet_size) whole
      ∙ pad_right_full (frame p.command hb p.message_id_bytes p.namespace dv) packet_size
          (omega (arith, size)) in
    let known : IsCommand p.command = ground (arith, ok.tcp) in
    (
      _,
      ap parse_packet full
          ∙ parse_packet-frame p.command u id hb p.message_id_bytes p.namespace dv known eh
              ok.message_id_bytes ok.namespace ed eu ei,
      refl,
    )

-- Whatever a turn finds, on a closed channel it panics: the packets of all errors can be printed.
read_on-panic :
    (env : Environment) (p : Packet) (conn : ℕ) (turn : Turn) (turns : List Turn)
    → IsTcp p
    → read_on env p conn (turn ∷ turns) ≡ panic
unfolding read_on read_turn
read_on-panic env p conn context_done turns ok =
    rw (to_bytes-IsTcp p (bytes_of "timed out waiting for message response") ok)
read_on-panic env p conn (delivers lines msg_err) turns ok =
    by_message (read_one_tcp_message (env.remote_addr conn) conn lines) refl
  where
    by_message :
        (o : Outcome (Option RawMessage))
        → read_one_tcp_message (env.remote_addr conn) conn lines ≡ o
        → read_on env p conn (delivers lines msg_err ∷ turns) ≡ panic
    by_message panic e = rw e
    by_message (done none) e = rw (e, to_bytes-IsTcp p msg_err ok)
    by_message (done (some m)) e = rw e

-- After a first turn whose read failed.
pub read_one_message-panic :
    (env : Environment) (p : Packet) (conn : ℕ) (msg_err : Bytes) (turn : Turn) (turns : List Turn)
    → IsTcp p
    → read_one_message env p conn (delivers [] msg_err) (turn ∷ turns) ≡ panic
unfolding read_one_message read_turn read_one_tcp_message
read_one_message-panic env p conn msg_err turn turns ok =
    rw (to_bytes-IsTcp p msg_err ok, read_on-panic env p conn turn turns ok)

read_turn-failed :
    (env : Environment) (p : Packet) (conn : ℕ) (turn : Turn) (text : Bytes)
    → IsTcp p
    → failure_text turn ≡ some text
    → (last : Bool) × (read_turn env p conn turn
        ≡ done (frame_of (record p { data_value = text }) ∷ [], last))
unfolding read_turn read_one_tcp_message
read_turn-failed env p conn context_done text ok e =
    let same : bytes_of "timed out waiting for message response" ≡ text = cc in
    (true, rw (same, to_bytes-IsTcp p text ok))
read_turn-failed env p conn (delivers [] msg_err) text ok e =
    let same : msg_err ≡ text = cc in (false, rw (same, to_bytes-IsTcp p text ok))
read_turn-failed env p conn (delivers (line ∷ lines) msg_err) text ok e = absurd (cc)

module _ {C : Type 0} where
  handle_tcp_message-frame_of :
      (cb : C) (p : Packet) (text : Bytes)
      → IsTcp p
      → length text ≤ data_value_size
      → handle_tcp_message cb (frame_of (record p { data_value = text }))
        ≡ done (call cb (trim_space text) none)
  unfolding handle_tcp_message respond_tcp
  handle_tcp_message-frame_of cb p text ok fits =
      let (q, parsed, e) = parse-frame_of p text ok fits in
      rw (parsed, e, trim_space-pad_right text data_value_size)

  -- A packet for TCP that is written to a connection of the pool, where the first turn of reading fails: the
  -- callback is called with the text of the failure, as data and without an error.
  pub send_tcp-failed :
      (env : Environment) (c : Client C) (p : Packet) (cb : C) (conn : ℕ) (turn : Turn)
      (text : Bytes)
      → IsTcp p
      → get_elem? c.tcp_pool env.selected ≡ some conn
      → ((b : Bytes) → env.write_to_tcp conn b ≡ none)
      → env.turn ≡ some turn
      → failure_text turn ≡ some text
      → length text ≤ data_value_size
      → (s : Sent C) × (send_tcp env c p cb ≡ done s) × (s.called ≡ call cb (trim_space text) none)
  unfolding send_tcp get_conn get_selected on_conn printed_tcp write_tcp_or_call await_tcp
      received_tcp read_turn put_back pad_right call
  send_tcp-failed env c p cb conn turn text ok selected writes turns fails fits =
      let packet' : Packet = record p { data_value = p.data_value ++ stop_symbol } in
      let ok' : IsTcp packet' = record {
        tcp = ok.tcp;
        hash_bytes = ok.hash_bytes;
        message_id_bytes = ok.message_id_bytes;
        namespace = ok.namespace;
      } in
      let (last, read) = read_turn-failed env packet' conn turn text ok' fails in
      let rest = take env.selected c.tcp_pool ++ drop (env.selected + 1) c.tcp_pool in
      let called = call cb (trim_space text) none in
      (
        record {
          client = put_back (some conn) (conn_after conn turn) (record c { tcp_pool = rest });
          effects = write_tcp conn (frame_of packet') ∷ [];
          called = called;
        },
        rw (
          selected,
          to_bytes-IsTcp p (p.data_value ++ stop_symbol) ok,
          writes (frame_of packet'),
          turns,
          read,
          handle_tcp_message-frame_of cb p text ok fits,
        ),
        refl,
      )

  -- Without a server for TCP and a connection that the pool selects, sending panics.
  pub send_tcp-panic :
      (env : Environment) (c : Client C) (p : Packet) (cb : C)
      → c.tcp_server_list ≡ []
      → get_elem? c.tcp_pool env.selected ≡ none
      → send_tcp env c p cb ≡ panic
  unfolding send_tcp get_conn get_selected new_conn on_conn
  send_tcp-panic env c p cb no_server unselected = rw (unselected, no_server)
