-- ===== src/Client/Requests.antt =====
-- client/client.go: the requests of the client. Each method makes a packet, sends it with a callback, and
-- waits for the call: `count` is the first part, `count_result` what it returns when its callback is
-- called. A request whose callback is not called waits for ever.
mod Tests
pub mod Started
pub mod Counted
pub mod Keys
pub mod Listed
pub mod Tcp
pub mod Requested
pub mod Oversized
pub mod Abandoned
use dracula.Protocol.Words.{uint32_from_bytes}
use dracula.Client.Udp.{send_udp}
use dracula.Protocol.Command.{
  cmd_put, cmd_tcp_only_namespaces, cmd_count_server, cmd_count_namespace, cmd_tcp_only_keys,
  cmd_count,
}
use dracula.Client.Sending.{send_or_callback_err}
use dracula.Server.Peers.{split}
use dracula.RawMessage.{UdpAddr}
use dracula.Client.State.{make_message_id, Sent, Environment, Client}
use dracula.Protocol.Packet.{new_packet_from_parts, Packet, Hasher}
use dracula.Client.Responses.{count_return_bytes_too_short, CallError, Called}
use dracula.Prelude.{
  slice, ◌==◌, length, ltb, none, if◌then◌else◌, ◌++◌, [], done, bytes_of, index, some, ◌>>=◌, ℕ,
  Outcome, Option, List, Bytes,
}

-- The callbacks of the counts.
unfoldable pub count_callback : Bytes → Option CallError → Outcome (ℕ × Option CallError)
count_callback b (some e) = done (0, some e)
count_callback b none =
    if ltb (length b) 4
    then done (0, some count_return_bytes_too_short)
    else (do word ← slice 0 4 b; output ← uint32_from_bytes word; done (output, none))

-- The callbacks of the lists.
unfoldable pub list_callback : Bytes → Option CallError → Bytes × Option CallError
list_callback b (some e) = ([], some e)
list_callback b none = (b, none)

-- `results[0] == ""`
unfoldable pub drop_empty : List Bytes → Outcome (List Bytes)
drop_empty results = do first ← index results 0; done (if length first == 0 then [] else results)

module _ {C : Type 0} where
  unfoldable pub count_result : Called C → Outcome (ℕ × Option CallError)
  unfolding count_callback
  count_result r = count_callback r.data_value r.err

  unfoldable pub key_match_result : Called C → Outcome (List Bytes × Option CallError)
  unfolding list_callback drop_empty
  key_match_result r =
      let (output, err) = list_callback r.data_value r.err in
      (do results ← drop_empty (split 10 output); done (results, err))

  unfoldable pub list_namespaces_result : Called C → List Bytes × Option CallError
  unfolding list_callback
  list_namespaces_result r =
      let (namespaces, err) = list_callback r.data_value r.err in (split 10 namespaces, err)

  unfoldable pub put_result : Called C → Option CallError
  put_result r = r.err

  unfoldable pub healthcheck_result : Called C → Option CallError
  healthcheck_result r = r.err

  module _ ⦃hash : Hasher⦄ where
    -- A packet with the next identifier, signed with the client's key.
    unfoldable pub make_packet : Client C → ℕ → Bytes → Bytes → Outcome (Client C × Packet)
    make_packet c command namespace data_value =
        let (c', message_id) = make_message_id c in
        (do
          p ← new_packet_from_parts command message_id namespace data_value c.pre_shared_key
          done (c', p))

    unfoldable pub start : Environment → Client C → ℕ → Bytes → Bytes → C → Outcome (Sent C)
    unfolding make_packet
    start env c command namespace data_value cb = do
      (c', p) ← make_packet c command namespace data_value
      send_or_callback_err env c' p cb

    unfoldable pub count : Environment → Client C → Bytes → Bytes → C → Outcome (Sent C)
    unfolding start
    count env c namespace entry_key cb = start env c cmd_count namespace entry_key cb

    unfoldable pub key_match : Environment → Client C → Bytes → Bytes → C → Outcome (Sent C)
    unfolding start
    key_match env c namespace key_pattern cb =
        start env c cmd_tcp_only_keys namespace key_pattern cb

    unfoldable pub count_namespace : Environment → Client C → Bytes → C → Outcome (Sent C)
    unfolding start
    count_namespace env c namespace cb = start env c cmd_count_namespace namespace [] cb

    unfoldable pub count_server : Environment → Client C → C → Outcome (Sent C)
    unfolding start
    count_server env c cb = start env c cmd_count_server [] [] cb

    unfoldable pub list_namespaces : Environment → Client C → C → Outcome (Sent C)
    unfolding start
    list_namespaces env c cb = start env c cmd_tcp_only_namespaces [] [] cb

    unfoldable pub put : Environment → Client C → Bytes → Bytes → C → Outcome (Sent C)
    unfolding start
    put env c namespace value cb = start env c cmd_put namespace value cb

    -- `addr_string` is `UDPAddr.String`.
    unfoldable pub healthcheck :
        (UdpAddr → Bytes) → Environment → Client C → UdpAddr → C → Outcome (Sent C)
    unfolding make_packet
    healthcheck addr_string env c specific_server cb = do
      let namespace = bytes_of "server_healthcheck_" ++ addr_string specific_server
      (c', p) ← make_packet c cmd_count namespace (bytes_of "check")
      send_udp env c' p specific_server cb
