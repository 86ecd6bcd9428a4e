-- ===== src/Client/Tcp/Reading.antt =====
-- client/client.go: `readOneMessage` of `_sendTCP`, and what is called for a message.
use dracula.Protocol.Pad.{pad_right}
use dracula.Protocol.Text.{trim_space}
use dracula.Client.Responses.{bad_packet, call, Called}
use dracula.RawMessage.{read_one_tcp_message, RawMessage}
use dracula.Client.State.{context_done, delivers, Turn, Environment}
use dracula.Protocol.Packet.{packet_size, parse_packet, to_bytes, Error, Packet}
use dracula.Prelude.{
  panic, bytes_of, true, false, if◌then◌else◌, [], ◌>>=◌, some, ◌∷◌, none, done, Bool, Outcome,
  List, Option, ℕ, Bytes,
}

-- A packet that cannot be printed ends the loop.
read_failed : Bytes → Option Error → List Bytes × Bool
read_failed err_packet none = (err_packet ∷ [], false)
read_failed err_packet (some other_err) = ([], true)

read_result : Packet → Bytes → Option RawMessage → Outcome (List Bytes × Bool)
unfolding read_failed
read_result packet msg_err (some message) = done (message.message ∷ [], true)
read_result packet msg_err none = do
  (err_packet, other_err) ← to_bytes (record packet { data_value = msg_err })
  done (read_failed err_packet other_err)

-- What one turn of `readOneMessage` sends to the channel, and whether it is the last.
unfoldable pub read_turn : Environment → Packet → ℕ → Turn → Outcome (List Bytes × Bool)
unfolding read_result
read_turn env packet conn context_done = do
  (err_packet, err) ←
      to_bytes (record packet { data_value = bytes_of "timed out waiting for message response" })
  done (err_packet ∷ [], true)
read_turn env packet conn (delivers lines msg_err) = do
  message ← read_one_tcp_message (env.remote_addr conn) conn lines
  read_result packet msg_err message

-- To send on a closed channel is a panic.
send_closed : List Bytes × Bool → Outcome Bool
send_closed ([], last) = done last
send_closed (message ∷ messages, last) = panic

-- The turns of `readOneMessage` after `_sendTCP` has taken a message and returned, which closes the channel:
-- has it ended?
unfoldable pub read_on : Environment → Packet → ℕ → List Turn → Outcome Bool
unfolding read_turn send_closed
read_on env packet conn [] = done false
read_on env packet conn (turn ∷ turns) =
    let rest = read_on env packet conn turns in
    (do
      sent ← read_turn env packet conn turn
      last ← send_closed sent
      if last then done true else rest)

-- The loop, of whose first turn `_sendTCP` takes the message.
unfoldable pub read_one_message : Environment → Packet → ℕ → Turn → List Turn → Outcome Bool
unfolding read_on
read_one_message env packet conn turn turns = do
  (messages, last) ← read_turn env packet conn turn
  if last then done true else read_on env packet conn turns

-- After a timeout the connection is nil.
unfoldable pub conn_after : ℕ → Turn → Option ℕ
conn_after conn context_done = none
conn_after conn (delivers lines err) = some conn

-- A packet that is too large is taken all the same.
abbrev pub tolerate_large : Option Error → Option Error
tolerate_large (some Error.invalid_packet_size_too_large) = none
tolerate_large err = err

module _ {C : Type 0} where
  -- The callback of a response that is parsed.
  unfoldable pub respond_tcp : C → Option Packet → Option Error → Outcome (List (Called C))
  respond_tcp cb (some packet) none = done (call cb (trim_space packet.data_value) none)
  respond_tcp cb none none = panic
  respond_tcp cb packet (some err) = done (call cb [] (some (bad_packet err)))

  unfoldable pub handle_tcp_message : C → Bytes → Outcome (List (Called C))
  unfolding respond_tcp
  handle_tcp_message cb message = do
    (res_packet, err) ← parse_packet (pad_right message packet_size)
    respond_tcp cb res_packet (tolerate_large err)
