-- ===== src/Client/Udp.antt =====
-- client/client.go: `_sendUDP`.
pub mod Cases
use dracula.Client.Responses.{failed, bad_packet, cache_error}
use dracula.Server.{write_udp}
use dracula.Protocol.Packet.{to_bytes, Error, Packet}
use dracula.RawMessage.{UdpAddr}
use dracula.Prelude.{
  panic, none, done, [], ◌∷◌, bytes_of, ◌>>=◌, some, if◌then◌else◌, Option, Outcome, Bytes, inr,
  inl, ℕ, ◌⊎◌,
}
use dracula.Client.State.{fails, Sent, Client, Environment}
use dracula.Client.Cache.{CacheError}
use dracula.Client.Cache as Cache

module _ {C : Type 0} where
  -- The callback that is taken back is called, or, if it cannot be, the one that was given.
  re_call : C → CacheError ⊎ C → C
  re_call cb (inl pull_err) = cb
  re_call cb (inr waiting) = waiting

  write_udp_or_call : Environment → C → ℕ → UdpAddr → Bytes → Client C → Option Bytes → Sent C
  unfolding re_call
  write_udp_or_call env cb id remote b c none = record {
    client = c;
    effects = write_udp remote b ∷ [];
    called = [];
  }
  write_udp_or_call env cb id remote b c (some err) =
      let (messages_waiting', res) = Cache.pull env.pull_now id c.messages_waiting in
      fails (record c { messages_waiting = messages_waiting' }) (re_call cb res) (failed err)

  -- To write to a nil connection is a panic.
  added : Environment → C → ℕ → UdpAddr → Bytes → Client C → Option CacheError → Outcome (Sent C)
  unfolding write_udp_or_call
  added env cb id remote b c (some err) = done (fails c cb (cache_error err))
  added env cb id remote b c none =
      if c.conn
      then done (write_udp_or_call env cb id remote b c (env.write_to_udp remote b))
      else panic

  printed_udp : Environment → C → ℕ → UdpAddr → Client C → Bytes → Option Error → Outcome (Sent C)
  unfolding added
  printed_udp env cb id remote c b (some err) = done (fails c cb (bad_packet err))
  printed_udp env cb id remote c b none =
      let (messages_waiting', err) = Cache.add env.add_now id cb c.messages_waiting in
      added env cb id remote b (record c { messages_waiting = messages_waiting' }) err

  -- `_sendUDP`
  unfoldable pub send_udp : Environment → Client C → Packet → UdpAddr → C → Outcome (Sent C)
  unfolding printed_udp
  send_udp env c packet remote cb = do
    (b, err) ← to_bytes packet
    printed_udp env cb packet.message_id remote c b err
