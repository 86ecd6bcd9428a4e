-- ===== src/Server.antt =====
-- server/server.go: the worker that parses, authenticates and answers a message, and what it sends.
-- Logging is left out. A worker handles one message at a time, and the store's methods do not overlap.
pub mod Total
pub mod Worker
pub mod Requests
pub mod Counts
pub mod Lists
pub mod Puts
pub mod Rejects
pub mod Frames
pub mod Connections
pub mod Peers
pub mod Lifecycle
pub mod Rest
mod Tests
pub use dracula.RawMessage.{UdpAddr, RawMessage}
use dracula.Protocol.Words.{uint32_to_bytes}
use dracula.Maps.{RedBlackTree, HashMap}
use dracula.Tree.{Regexp}
use dracula.Prelude.Int.{ℤ}
use dracula.Prelude.{
  bytes_of, ◌%◌, ◌/◌, length, ◌+◌, ◌==◌, none, done, [], ltb, ◌>>=◌, panic, some, ◌++◌,
  if◌then◌else◌, Outcome, Bool, ◌∷◌, Option, ℕ, Bytes, List,
}
use dracula.Protocol.Packet.{
  Packet, Hasher, Error, parse_packet, new_packet_from_parts, validate, to_bytes, set_hash,
  stop_symbol, namespace_string, data_value_string, error_text,
}
use dracula.Protocol.Command.{
  cmd_tcp_only_namespaces, cmd_tcp_only_keys, cmd_count_server, cmd_count_namespace, cmd_count,
  cmd_put, cmd_put_replicate, res_error,
}
use dracula.Store as Methods
use dracula.Store.{Store, Times}

-- What the worker asks the operating system to send.
pub data Effect : Type 0 where
  write_udp : UdpAddr → Bytes → Effect
  write_tcp : ℕ → Bytes → Effect

-- The readings of the clock while one message is handled: in `removeExpired`, for a new entry, and
-- one for each key that is counted.
pub record Clock : Type 0 where
  pub now : ℤ
  pub secs : ℤ
  pub times : Times

-- The code points that a worker converts are bytes.
unfoldable pub utf8_of_byte : ℕ → Bytes
utf8_of_byte c = if ltb c 128 then c ∷ [] else (192 + c / 64) ∷ (128 + c % 64) ∷ []

-- `strings.Join`
unfoldable pub join : Bytes → List Bytes → Bytes
join sep [] = []
join sep (x ∷ []) = x
join sep (x ∷ y ∷ xs) = x ++ (sep ++ join sep (y ∷ xs))

abbrev pub max_uint32 : ℕ
max_uint32 = 4294967295

-- `math.MaxUint32` where the count is larger, so that the conversion does not wrap.
abbrev pub clamp_uint32 : ℕ → ℕ
clamp_uint32 count_int = if ltb max_uint32 count_int then max_uint32 else count_int

-- `WriteToUDP` may fail at an address.
pub record Network : Type 0 where
  pub udp_fails : UdpAddr → Bytes → Bool

unfoldable pub send_to_peers : Network → Bytes → List UdpAddr → List Effect
send_to_peers net b [] = []
send_to_peers net b (peer ∷ peers) =
    let rest = send_to_peers net b peers in
    write_udp peer b ∷ (if net.udp_fails peer b then [] else rest)

pub unless_error : Option Error → List Effect → List Effect
unless_error none effects = effects
unless_error (some e) effects = []

unfoldable pub respond_or_log_error : UdpAddr → Packet → Outcome (List Effect)
unfolding unless_error
respond_or_log_error addr packet = do
  (b, err) ← to_bytes packet
  done (unless_error err (write_udp addr b ∷ []))

-- A packet of the wrong size is sent all the same.
pub tolerate_size : Option Error → Option Error
tolerate_size (some Error.bad_output_size) = none
tolerate_size err = err

unfoldable pub respond_or_log_error_tcp : ℕ → Packet → Outcome (List Effect)
unfolding unless_error tolerate_size
respond_or_log_error_tcp request_client packet = do
  (b, err) ← to_bytes (record packet { data_value = packet.data_value ++ stop_symbol })
  done (unless_error (tolerate_size err) (write_tcp request_client b ∷ []))

-- `respond` of a request: to its TCP connection, if it came by one, else to the remote address.
unfoldable pub respond : Option ℕ → UdpAddr → Packet → Outcome (List Effect)
unfolding respond_or_log_error respond_or_log_error_tcp
respond none remote res_packet = respond_or_log_error remote res_packet
respond (some request_client) remote res_packet =
    respond_or_log_error_tcp request_client
      (record res_packet { request_client = some request_client })

module _ ⦃hash : Hasher⦄ ⦃t : RedBlackTree⦄ ⦃h : HashMap⦄ where
  pub record Server : Type 0 where
    pub store : Store
    pub pre_shared_key : Bytes
    pub peers : List UdpAddr

  unfoldable pub republish : Network → Server → Packet → Outcome (List Effect)
  unfolding send_to_peers unless_error
  republish net s packet = do
    signed ← set_hash (record packet { command = cmd_put_replicate }) s.pre_shared_key
    (b, err) ← to_bytes signed
    done (unless_error err (send_to_peers net b s.peers))

  -- The packet that is sent back has the identifier and the namespace of the request.
  unfoldable pub answer : Server → RawMessage → Packet → ℕ → Bytes → Outcome (List Effect)
  answer s m packet command data_value = do
    res_packet ←
        new_packet_from_parts command packet.message_id_bytes packet.namespace data_value
          s.pre_shared_key
    respond packet.request_client m.remote res_packet

  unfoldable pub put_request :
      Network → Clock → Server → RawMessage → Packet → Outcome (Server × List Effect)
  unfolding answer
  put_request net clock s m packet = do
    let store' =
        Methods.put clock.now clock.secs s.store (namespace_string packet)
          (data_value_string packet)
    let s' = record s { store = store' }
    acks ← answer s m packet cmd_put []
    copies ← (if length s.peers == 0 then done [] else republish net s packet)
    done (s', acks ++ copies)

  -- The three counts differ in the command and in the method of the store.
  unfoldable pub count_request :
      Server → RawMessage → Packet → ℕ → Store × ℕ → Outcome (Server × List Effect)
  unfolding answer
  count_request s m packet command (store', count_int) = do
    effects ← answer s m packet command (uint32_to_bytes (clamp_uint32 count_int))
    done (record s { store = store' }, effects)

  unfoldable pub list_request :
      Server → RawMessage → Packet → ℕ → Store × List Bytes → Outcome (Server × List Effect)
  unfolding answer
  list_request s m packet command (store', items) = do
    effects ← answer s m packet command (join (10 ∷ []) items)
    done (record s { store = store' }, effects)

  -- The `switch` on the command of a packet that is authenticated.
  unfoldable pub dispatch :
      Regexp → Network → Clock → Server → RawMessage → Packet → Outcome (Server × List Effect)
  unfolding put_request count_request list_request
  dispatch re net clock s m packet =
      let ns = namespace_string packet in
      let key = data_value_string packet in
      let c = packet.command in
      if c == cmd_put_replicate
      then done (record s { store = Methods.put clock.now clock.secs s.store ns key }, [])
      else if c == cmd_put
      then put_request net clock s m packet
      else if c == cmd_count
      then count_request s m packet cmd_count (Methods.count clock.now s.store ns key)
      else if c == cmd_count_namespace
      then count_request s m packet cmd_count_namespace
          (Methods.count_entries clock.times s.store ns)
      else if c == cmd_count_server
      then count_request s m packet cmd_count_server
          (Methods.count_server_entries clock.times s.store)
      else if c == cmd_tcp_only_keys
      then list_request s m packet cmd_tcp_only_keys
          (Methods.key_match re clock.times s.store ns key)
      else if c == cmd_tcp_only_namespaces
      then list_request s m packet cmd_tcp_only_namespaces (Methods.namespaces clock.times s.store)
      else (do
        effects ← answer s m packet res_error (bytes_of "unknown_command_" ++ utf8_of_byte c)
        done (s, effects))

  unfoldable pub reject : Server → RawMessage → Packet → Error → Outcome (Server × List Effect)
  unfolding answer
  reject s m packet err = do
    effects ← answer s m packet res_error (error_text err)
    done (s, effects)

  unfoldable authenticate :
      Regexp
      → Network
      → Clock
      → Server
      → RawMessage
      → Packet
      → Option Error
      → Outcome (Server × List Effect)
  unfolding dispatch reject
  authenticate re net clock s m packet (some err) = reject s m packet err
  authenticate re net clock s m packet none = dispatch re net clock s m packet

  unfoldable checked :
      Regexp
      → Network
      → Clock
      → Server
      → RawMessage
      → Packet
      → Option Error
      → Outcome (Server × List Effect)
  unfolding authenticate
  checked re net clock s m packet (some err) = reject s m packet err
  checked re net clock s m packet none = do
    err ← validate packet s.pre_shared_key
    authenticate re net clock s m packet err

  -- A nil packet is dereferenced, for the connection or for the log line.
  unfoldable received :
      Regexp
      → Network
      → Clock
      → Server
      → RawMessage
      → Option Packet
      → Option Error
      → Outcome (Server × List Effect)
  unfolding checked
  received re net clock s m none err = panic
  received re net clock s m (some packet) err =
      checked re net clock s m (record packet { request_client = m.maybe_tcp_client }) err

  -- One round of `worker`.
  unfoldable pub worker :
      Regexp → Network → Clock → Server → RawMessage → Outcome (Server × List Effect)
  unfolding received
  worker re net clock s m = do
    (packet, err) ← parse_packet m.message
    received re net clock s m packet err
