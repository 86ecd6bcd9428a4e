-- ===== src/Client/Tcp/Delivered.antt =====
-- client/client.go: a request over TCP whose connection delivers a message.
use dracula.Client.Tcp.{
  send_tcp, get_conn, get_selected, on_conn, printed_tcp, write_tcp_or_call, await_tcp,
  received_tcp, put_back,
}
use dracula.Client.Tcp.Reading.{read_turn, conn_after, handle_tcp_message, respond_tcp}
use dracula.Client.State.{Client, Environment, delivers}
use dracula.Client.Responses.{Called, call}
use dracula.RawMessage.{RawMessage, read_one_tcp_message}
use dracula.Server.{write_tcp}
use dracula.Protocol.Packet.Tcp.{stopped}
use dracula.Protocol.Pad.{pad_right_full}
use dracula.Protocol.Text.{trim_space}
use dracula.Protocol.Packet.{Packet, to_bytes, parse_packet, packet_size}
use dracula.Prelude.{
  ℕ, Bytes, List, [], ◌∷◌, ◌++◌, ◌+◌, ◌≡◌, length, done, some, none, get_elem?, take, drop, arith,
}

module _ {C : Type 0} where
  -- A connection is taken out of the pool for the request, and is first there when it is over.
  abbrev pub pooled : Environment → ℕ → Client C → Client C
  pooled env conn c = record c {
    tcp_pool = conn ∷ (take env.selected c.tcp_pool ++ drop (env.selected + 1) c.tcp_pool);
  }

  pub send_tcp-delivered :
      (env : Environment) (c : Client C) (p : Packet) (cb : C) (conn : ℕ) (b : Bytes)
      (lines : List Bytes) (err : Bytes) (message : RawMessage) (called : List (Called C))
      → get_elem? c.tcp_pool env.selected ≡ some conn
      → to_bytes (stopped p.request_client p) ≡ done (b, none)
      → env.write_to_tcp conn b ≡ none
      → env.turn ≡ some (delivers lines err)
      → read_one_tcp_message (env.remote_addr conn) conn lines ≡ done (some message)
      → handle_tcp_message cb message.message ≡ done called
      → send_tcp env c p cb
        ≡ done (record {
          client = pooled env conn c;
          effects = write_tcp conn b ∷ [];
          called = called;
        })
  unfolding send_tcp get_conn get_selected on_conn printed_tcp write_tcp_or_call await_tcp
      received_tcp read_turn put_back conn_after
  send_tcp-delivered env c p cb conn b lines err message called selected printed writes turns reads
        handled =
      rw (selected, printed, writes, turns, reads, handled)

  -- A packet of 1500 bytes that is parsed.
  pub handle_tcp_message-parsed :
      (cb : C) (b : Bytes) (res : Packet)
      → length b ≡ packet_size
      → parse_packet b ≡ done (some res, none)
      → handle_tcp_message cb b ≡ done (call cb (trim_space res.data_value) none)
  unfolding handle_tcp_message respond_tcp
  handle_tcp_message-parsed cb b res size parsed =
      rw (pad_right_full b packet_size (omega (arith, size)), parsed)
