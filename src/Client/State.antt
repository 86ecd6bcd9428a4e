-- ===== src/Client/State.antt =====
-- client/client.go: the client's state. A connection is a number; `none` is the nil pointer. What the
-- network does is an argument. The code runs one step after another.
-- `net.TCPAddr`, of the same fields.
use dracula.Protocol.Words.{uint32_to_bytes}
use dracula.Client.Cache.{ResponseCache}
use dracula.Server.{Effect}
use dracula.Prelude.Int.{ℤ}
use dracula.Client.Responses.{call, Called, CallError}
use dracula.Client.Pool.{Pool, Random}
use dracula.Prelude.{some, ◌^◌, ◌%◌, Option, ℕ, [], ◌+◌, Bytes, List, Bool}
use dracula.RawMessage.{UdpAddr}

abbrev pub TcpAddr : Type 0
TcpAddr = UdpAddr

pub record Client (C : Type 0) : Type 0 where
  pub conn : Bool
  pub udp_pool : Pool UdpAddr
  pub tcp_pool : List ℕ
  pub tcp_pool_map : List (Option ℕ)
  pub tcp_server_list : List TcpAddr
  pub messages_waiting : ResponseCache C
  pub message_id_counter : ℕ
  pub pre_shared_key : Bytes
  pub disposed : Bool
  pub timeout_duration : ℕ

-- What happens in one turn of the loop of `readOneMessage`: the context is done, or the connection
-- delivers whole lines, and then an error.
pub data Turn : Type 0 where
  context_done : Turn
  delivers : List Bytes → Bytes → Turn

-- What a request meets: random numbers, the clock at `Add` and at `Pull`, the errors of writing, the
-- connections that `DialTCP` makes, the item that `sync.Pool` selects (by its place, or none), the
-- remote address of a connection, and the first turn of reading, if the read ever returns.
pub record Environment : Type 0 where
  pub rand : Random
  pub add_now : ℤ
  pub pull_now : ℤ
  pub write_to_udp : UdpAddr → Bytes → Option Bytes
  pub write_to_tcp : ℕ → Bytes → Option Bytes
  pub dial_tcp : TcpAddr → Option ℕ
  pub selected : ℕ
  pub remote_addr : ℕ → UdpAddr
  pub turn : Option Turn

-- The next client, what is sent, and the calls of callbacks.
pub record Sent (C : Type 0) : Type 0 where
  pub client : Client C
  pub effects : List Effect
  pub called : List (Called C)

module _ {C : Type 0} where
  unfoldable pub make_message_id : Client C → Client C × Bytes
  make_message_id c =
      let id = (c.message_id_counter + 1) % 2 ^ 32 in
      (record c { message_id_counter = id }, uint32_to_bytes id)

  -- Only the callback is called.
  abbrev pub fails : Client C → C → CallError → Sent C
  fails c cb err = record { client = c; effects = []; called = call cb [] (some err) }
