-- ===== src/Client/Udp/Cases.antt =====
-- client/client.go: `_sendUDP` calls the callback or registers it.

use dracula.Protocol.Packet.Layout.{to_bytes_total}
use dracula.Server.{write_udp}
use dracula.Client.Cache.{message_id_exists, is_expired, find, ResponseCache}
use dracula.Client.Udp.{added, printed_udp, write_udp_or_call, re_call, send_udp}
use dracula.RawMessage.{UdpAddr}
use dracula.Client.Responses.{cache_error, bad_packet, failed, CallError}
use dracula.Client.Cache.Cases.{add-cases, pull-added, pulled_entry, entry}
use dracula.Protocol.Packet.{Error, to_bytes, Packet}
use dracula.Prelude.{
  panic, if◌then◌else◌, false, Outcome, true, ap, refl, inr, inl, [], some, Bool-cases, none, ◌⊎◌,
  Option, done, length, ◌≤◌, Bytes, ◌≡◌, ◌∷◌, ℕ,
}
use dracula.Client.State.{fails, Sent, Environment, Client}
use dracula.Prelude.Int.{ℤ}

module _ {C : Type 0} where
  -- The callback waits under an identifier.
  abbrev pub registered : ℤ → ℕ → C → Client C → Client C
  registered now id cb c = record c {
    messages_waiting = record c.messages_waiting {
      cache = entry now id cb ∷ c.messages_waiting.cache;
    };
  }

  -- The client is as it was, nothing is sent, and the callback is called once with an error.
  abbrev pub IsRefused : Client C → C → Sent C → Type 0
  IsRefused c cb s = (err : CallError) × (s ≡ fails c cb err)

  -- The packet is sent and the callback, which is not called, waits under an identifier that was free.
  pub record IsRegistered (now : ℤ) (c : Client C) (packet : Packet) (remote : UdpAddr) (cb : C)
      (s : Sent C) : Type 0 where
    pub bytes : Bytes
    pub written : to_bytes packet ≡ done (bytes, none)
    pub free : find packet.message_id c.messages_waiting.cache ≡ none
    pub sent : s ≡ record {
      client = registered now packet.message_id cb c;
      effects = write_udp remote bytes ∷ [];
      called = [];
    }

  -- It returns such a result, or it panics on a client without a connection.
  abbrev pub Returns : Client C → Outcome (Sent C) → (Sent C → Type 0) → Type 0
  Returns c m P = ((s : Sent C) × (m ≡ done s) × P s) ⊎ ((c.conn ≡ false) × (m ≡ panic))

  re_call-pulled_entry :
      (pull_now add_now : ℤ) (id : ℕ) (cb : C) (rc : ResponseCache C)
      → re_call cb (pulled_entry pull_now rc (entry add_now id cb)) ≡ cb
  unfolding re_call
  re_call-pulled_entry pull_now add_now id cb rc =
      elim (Bool-cases (is_expired pull_now rc (entry add_now id cb))) [
        | inl e ↦ rw e
        | inr e ↦ rw e
      ]

  write_failed :
      (env : Environment) (c : Client C) (cb : C) (id : ℕ) (remote : UdpAddr) (b err : Bytes)
      → find id c.messages_waiting.cache ≡ none
      → write_udp_or_call env cb id remote b (registered env.add_now id cb c) (some err)
        ≡ fails c cb (failed err)
  unfolding write_udp_or_call
  write_failed env c cb id remote b err free = rw (
    pull-added env.add_now env.pull_now id cb c.messages_waiting free,
    re_call-pulled_entry env.pull_now env.add_now id cb c.messages_waiting,
  )

  module _ (env : Environment) (c : Client C) (packet : Packet) (remote : UdpAddr) (cb : C) where
    added-cases :
        (b : Bytes) (err : Option Bytes)
        → to_bytes packet ≡ done (b, none)
        → find packet.message_id c.messages_waiting.cache ≡ none
        → let s =
            write_udp_or_call env cb packet.message_id remote b
              (registered env.add_now packet.message_id cb c)
              err in
          IsRefused c cb s ⊎ IsRegistered env.add_now c packet remote cb s
    unfolding write_udp_or_call
    added-cases b (some err) printed free =
        inl (failed err, write_failed env c cb packet.message_id remote b err free)
    added-cases b none printed free =
        inr (record { bytes = b; written = printed; free = free; sent = refl })

    connected-cases :
        (b : Bytes)
        → to_bytes packet ≡ done (b, none)
        → find packet.message_id c.messages_waiting.cache ≡ none
        → Returns c
            (added env cb packet.message_id remote b
              (registered env.add_now packet.message_id cb c)
              none)
            (λ s. IsRefused c cb s ⊎ IsRegistered env.add_now c packet remote cb s)
    unfolding added
    connected-cases b printed free =
        let sent =
          write_udp_or_call env cb packet.message_id remote b
            (registered env.add_now packet.message_id cb c) (env.write_to_udp remote b) in
        elim (Bool-cases c.conn) [
          | inl open' ↦ inl (
            sent,
            ap (λ x. if x then done sent else panic) open',
            added-cases b (env.write_to_udp remote b) printed free,
          )
          | inr closed ↦ inr (closed, ap (λ x. if x then done sent else panic) closed)
        ]

    printed_udp-cases :
        (b : Bytes) (err : Option Error)
        → to_bytes packet ≡ done (b, err)
        → Returns c
            (printed_udp env cb packet.message_id remote c b err)
            (λ s. IsRefused c cb s ⊎ IsRegistered env.add_now c packet remote cb s)
    unfolding printed_udp
    printed_udp-cases b (some err) printed =
        inl (fails c cb (bad_packet err), refl, inl (bad_packet err, refl))
    printed_udp-cases b none printed =
        elim (add-cases env.add_now packet.message_id cb c.messages_waiting) [
          | inl (free, e) ↦ rw e (connected-cases b printed free)
          | inr (w, found, e) ↦ rw e (
              inl (
                fails c cb (cache_error message_id_exists),
                (unfold added in refl),
                inl (cache_error message_id_exists, refl),
              ))
        ]

    -- `_sendUDP` of a packet with eight hash bytes and four identifier bytes leaves the client as it was,
    -- sends nothing and calls the callback once with an error, or it sends the packet's bytes in one
    -- datagram, and the callback waits, under an identifier that was free, and is not called; or it panics
    -- on a client without a connection.
    pub send_udp-cases :
        8 ≤ length packet.hash_bytes
        → 4 ≤ length packet.message_id_bytes
        → Returns c
            (send_udp env c packet remote cb)
            (λ s. IsRefused c cb s ⊎ IsRegistered env.add_now c packet remote cb s)
    unfolding send_udp
    send_udp-cases h k =
        let printed = to_bytes_total packet h k in rw printed (printed_udp-cases _ _ printed)

    -- A packet that is written without an error, under an identifier that is free.
    pub send_udp-IsRegistered :
        (b : Bytes)
        → to_bytes packet ≡ done (b, none)
        → find packet.message_id c.messages_waiting.cache ≡ none
        → c.conn ≡ true
        → env.write_to_udp remote b ≡ none
        → send_udp env c packet remote cb
          ≡ done (record {
            client = registered env.add_now packet.message_id cb c;
            effects = write_udp remote b ∷ [];
            called = [];
          })
    unfolding send_udp printed_udp added write_udp_or_call
    send_udp-IsRegistered b printed free open' writes =
        elim (add-cases env.add_now packet.message_id cb c.messages_waiting) [
          | inl (_, e) ↦ simp (printed, e, open', writes)
          | inr (w, found, e) ↦ absurd (cc)
        ]
