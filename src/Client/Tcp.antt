-- ===== src/Client/Tcp.antt =====
-- client/client.go: `_sendTCP`, and the pool of connections.
pub mod Reading
pub mod Direct
pub mod Delivered
pub mod Failed
use dracula.Client.Responses.{no_healthy_tcp_servers, bad_packet, failed}
use dracula.Server.{write_tcp, Effect}
use dracula.Protocol.Packet.{to_bytes, stop_symbol, Error, Packet}
use dracula.Client.Tcp.Reading.{read_turn, handle_tcp_message, conn_after}
use dracula.Client.State.{fails, Turn, Sent, Client, Environment}
use dracula.Prelude.{
  ◌+◌, index, false, [], drop, ltb, ◌==◌, ◌>>=◌, panic, done, ◌++◌, if◌then◌else◌, not, true, none,
  get_elem?, take, length, ◌∷◌, keep, Bytes, some, Outcome, List, Bool, ℕ, Option,
}

abbrev conn_eq : Option ℕ → Option ℕ → Bool
conn_eq none none = true
conn_eq (some a) (some b) = a == b
conn_eq _ _ = false

-- `sync.Map`: `Delete`, and `Store` with the value true.
abbrev delete_conn : Option ℕ → List (Option ℕ) → List (Option ℕ)
delete_conn key conns = keep (λ k. not (conn_eq key k)) conns

abbrev store_conn : Option ℕ → List (Option ℕ) → List (Option ℕ)
store_conn key conns = key ∷ delete_conn key conns

module _ {C : Type 0} where
  -- `New` of the pool: the loop returns in its first turn, with an error too.
  unfoldable pub new_conn : Environment → Client C → Outcome (Client C × Option (Option ℕ))
  new_conn env c =
      let l = length c.tcp_server_list in
      if ltb l 1 then done (c, none) else (do
        rand_server ← index c.tcp_server_list (env.rand.intn l)
        let conn = env.dial_tcp rand_server
        done (record c { tcp_pool_map = store_conn conn c.tcp_pool_map }, some conn))

  get_selected : Environment → Client C → Option ℕ → Outcome (Client C × Option (Option ℕ))
  unfolding new_conn
  get_selected env c none = new_conn env c
  get_selected env c (some conn) =
      let rest = take env.selected c.tcp_pool ++ drop (env.selected + 1) c.tcp_pool in
      done (record c { tcp_pool = rest }, some (some conn))

  -- `Get`: an item of the pool, or what `New` makes.
  unfoldable pub get_conn : Environment → Client C → Outcome (Client C × Option (Option ℕ))
  unfolding get_selected
  get_conn env c = get_selected env c (get_elem? c.tcp_pool env.selected)

  -- The deferred function, with the connection as it is then.
  unfoldable pub put_back : Option ℕ → Option ℕ → Client C → Client C
  put_back key none c = record c { tcp_pool_map = delete_conn key c.tcp_pool_map }
  put_back key (some conn) c = record c { tcp_pool = conn ∷ c.tcp_pool }

  received_tcp : C → ℕ → List Effect → Turn → Client C → List Bytes → Outcome (Sent C)
  unfolding conn_after
  received_tcp cb conn effects turn c [] =
      done (record { client = c; effects = effects; called = [] })
  received_tcp cb conn effects turn c (message ∷ messages) = do
    called ← handle_tcp_message cb message
    done (record {
      client = put_back (some conn) (conn_after conn turn) c;
      effects = effects;
      called = called;
    })

  -- The request waits for the channel; without a message it waits for ever. It takes what the first turn of
  -- `readOneMessage` sends; the turns after it are `read_on`, with the channel closed.
  await_tcp : Environment → Packet → C → ℕ → List Effect → Client C → Option Turn → Outcome (Sent C)
  unfolding received_tcp
  await_tcp env packet cb conn effects c none =
      done (record { client = c; effects = effects; called = [] })
  await_tcp env packet cb conn effects c (some turn) = do
    (messages, last) ← read_turn env packet conn turn
    received_tcp cb conn effects turn c messages

  write_tcp_or_call :
      Environment → Packet → C → ℕ → Bytes → Client C → Option Bytes → Outcome (Sent C)
  unfolding await_tcp
  write_tcp_or_call env packet cb conn b c none =
      await_tcp env packet cb conn (write_tcp conn b ∷ []) c env.turn
  write_tcp_or_call env packet cb conn b c (some err) =
      done (fails (put_back (some conn) none c) cb (failed err))

  printed_tcp : Environment → Packet → C → ℕ → Client C → Bytes → Option Error → Outcome (Sent C)
  unfolding write_tcp_or_call
  printed_tcp env packet cb conn c b (some err) =
      done (fails (put_back (some conn) (some conn) c) cb (bad_packet err))
  printed_tcp env packet cb conn c b none =
      write_tcp_or_call env packet cb conn b c (env.write_to_tcp conn b)

  -- `key.(*net.TCPConn)` of a nil interface is a panic.
  on_conn : Environment → Packet → C → Client C → Option (Option ℕ) → Outcome (Sent C)
  unfolding printed_tcp
  on_conn env packet cb c none = panic
  on_conn env packet cb c (some none) =
      done (fails (put_back none none c) cb no_healthy_tcp_servers)
  on_conn env packet cb c (some (some conn)) = do
    let packet' = record packet { data_value = packet.data_value ++ stop_symbol }
    (b, err) ← to_bytes packet'
    printed_tcp env packet' cb conn c b err

  -- `_sendTCP`
  unfoldable pub send_tcp : Environment → Client C → Packet → C → Outcome (Sent C)
  unfolding on_conn
  send_tcp env c packet cb = do (c', key) ← get_conn env c; on_conn env packet cb c' key
