-- ===== src/Client/Responses.antt =====
-- client/client.go: what the client does with a response by UDP, and with a callback that timed out.
-- `message` is the buffer of 1500 bytes that `ReadFromUDP` has filled.
pub mod Counted
pub mod Cases
use dracula.Client.Cache as Cache
use dracula.Protocol.Command.{
  cmd_count_server, cmd_count_namespace, cmd_put, cmd_count, res_error, is_response_cmd,
}
use dracula.Client.Cache.{ResponseCache, CacheError}
use dracula.Prelude.Int.{ℤ}
use dracula.Protocol.Packet.{data_value_string, parse_packet, Error, Packet}
use dracula.Prelude.{
  ◌||◌, ltb, done, panic, inr, ◌==◌, none, ◌>>=◌, inl, some, Outcome, ◌⊎◌, not, ◌∷◌, [],
  if◌then◌else◌, Option, List, Bytes,
}

-- The errors of the client, `bad_packet` and `cache_error` those of the other packages, `failed` those
-- of the network, with their text.
pub data CallError : Type 0 where
  message_timed_out count_return_bytes_too_short client_already_init : CallError
  no_healthy_udp_servers no_healthy_tcp_servers : CallError
  server_error : Bytes → CallError
  bad_packet : Error → CallError
  cache_error : CacheError → CallError
  failed : Bytes → CallError

-- A call of a callback.
pub record Called (C : Type 0) : Type 0 where
  pub callback : C
  pub data_value : Bytes
  pub err : Option CallError

module _ {C : Type 0} where
  unfoldable pub call : C → Bytes → Option CallError → List (Called C)
  call cb b err = record { callback = cb; data_value = b; err = err } ∷ []

  -- A callback whose response is of another command is not called.
  unfoldable pub respond_to : Packet → C → List (Called C)
  unfolding call
  respond_to packet cb =
      if not (is_response_cmd packet.command)
      then []
      else if packet.command == res_error
      then call cb [] (some (server_error (data_value_string packet)))
      else if packet.command == cmd_count
          || packet.command == cmd_put
          || packet.command == cmd_count_namespace
          || packet.command == cmd_count_server
      then call cb packet.data_value none
      else []

  pulled : Packet → CacheError ⊎ C → List (Called C)
  unfolding respond_to
  pulled packet (inl err) = []
  pulled packet (inr cb) = respond_to packet cb

  unfoldable pub handle_packet : ℤ → ResponseCache C → Packet → ResponseCache C × List (Called C)
  unfolding pulled
  handle_packet now messages_waiting packet =
      let (messages_waiting', res) = Cache.pull now packet.message_id messages_waiting in
      (messages_waiting', pulled packet res)

  -- A packet with an error is handled all the same, if it has an identifier.
  handle_parsed :
      ℤ
      → ResponseCache C
      → Option Packet
      → Option Error
      → Outcome (ResponseCache C × List (Called C))
  unfolding handle_packet
  handle_parsed now messages_waiting none none = panic
  handle_parsed now messages_waiting none (some err) = done (messages_waiting, [])
  handle_parsed now messages_waiting (some packet) none =
      done (handle_packet now messages_waiting packet)
  handle_parsed now messages_waiting (some packet) (some err) = done (
      if ltb 0 packet.message_id
      then handle_packet now messages_waiting packet
      else (messages_waiting, []))

  -- One round of `handleResponsesForever`.
  unfoldable pub handle_response :
      ℤ → ResponseCache C → Bytes → Outcome (ResponseCache C × List (Called C))
  unfolding handle_parsed
  handle_response now messages_waiting message = do
    (packet, err) ← parse_packet message
    handle_parsed now messages_waiting packet err

  -- One round of `handleTimeouts`.
  unfoldable pub handle_timeout : C → List (Called C)
  unfolding call
  handle_timeout timed_out_callback = call timed_out_callback [] (some message_timed_out)
