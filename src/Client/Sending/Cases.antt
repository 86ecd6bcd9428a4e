-- ===== src/Client/Sending/Cases.antt =====
-- client/client.go: a packet by UDP goes to a healthy server, or the callback is called.
use dracula.Prelude.Int.{ℤ}
use dracula.Server.{write_udp}
use dracula.Client.Cache.{find}
use dracula.Client.Pool as Pool
use dracula.Client.Responses.{no_healthy_udp_servers}
use dracula.Client.Pool.Chosen.{choose_total}
use dracula.Client.Udp.Cases.{
  Returns, send_udp-IsRegistered, registered, send_udp-cases, IsRegistered, IsRefused,
}
use dracula.RawMessage.{UdpAddr}
use dracula.Protocol.Command.{is_tcp_only_cmd}
use dracula.Protocol.Packet.{to_bytes, Packet}
use dracula.Client.State.{fails, Sent, Client, Environment}
use dracula.Client.Sending.{chosen, send_or_callback_err}
use dracula.Prelude.{
  [], ◌∷◌, true, Bytes, none, inr, some, inl, ◌⊎◌, done, length, false, ◌≤◌, ◌≡◌, Option, refl,
}

module _ {C : Type 0} where
  -- Refused, or registered for some server.
  abbrev pub IsHandedOver : ℤ → Client C → Packet → C → Sent C → Type 0
  IsHandedOver now c p cb s =
      IsRefused c cb s ⊎ ((remote : UdpAddr) × IsRegistered now c p remote cb s)

  chosen-cases :
      (env : Environment) (c : Client C) (p : Packet) (cb : C) (remote : Option UdpAddr)
      → 8 ≤ length p.hash_bytes
      → 4 ≤ length p.message_id_bytes
      → Returns c (chosen env c p cb remote) (IsHandedOver env.add_now c p cb)
  unfolding chosen
  chosen-cases env c p cb none h k =
      inl (fails c cb no_healthy_udp_servers, refl, inl (no_healthy_udp_servers, refl))
  chosen-cases env c p cb (some remote) h k = elim (send_udp-cases env c p remote cb h k) [
    | inl (s, e, inl r) ↦ inl (s, e, inl r)
    | inl (s, e, inr r) ↦ inl (s, e, inr (remote, r))
    | inr panics ↦ inr panics
  ]

  pub send_or_callback_err-udp :
      (env : Environment) (c : Client C) (p : Packet) (cb : C)
      → is_tcp_only_cmd p.command ≡ false
      → 8 ≤ length p.hash_bytes
      → 4 ≤ length p.message_id_bytes
      → Returns c (send_or_callback_err env c p cb) (IsHandedOver env.add_now c p cb)
  unfolding send_or_callback_err
  send_or_callback_err-udp env c p cb udp h k =
      let (remote, picked) = choose_total env.rand c.udp_pool in
      rw (udp, picked) (chosen-cases env c p cb remote h k)

  -- A packet for a server that is chosen, with a connection that writes.
  pub send_or_callback_err-IsRegistered :
      (env : Environment) (c : Client C) (p : Packet) (remote : UdpAddr) (cb : C) (b : Bytes)
      → is_tcp_only_cmd p.command ≡ false
      → Pool.choose env.rand c.udp_pool ≡ done (some remote)
      → to_bytes p ≡ done (b, none)
      → find p.message_id c.messages_waiting.cache ≡ none
      → c.conn ≡ true
      → env.write_to_udp remote b ≡ none
      → send_or_callback_err env c p cb
        ≡ done (record {
          client = registered env.add_now p.message_id cb c;
          effects = write_udp remote b ∷ [];
          called = [];
        })
  unfolding send_or_callback_err chosen
  send_or_callback_err-IsRegistered env c p remote cb b udp picked printed free open' writes =
      let sent = send_udp-IsRegistered env c p remote cb b printed free open' writes in
      rw (udp, picked, sent)
