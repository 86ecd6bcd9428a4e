-- ===== src/Client/Requests/Requested.antt =====
-- client/client.go: what any request does to the client, if it returns.
use dracula.Client.Sending.Cases.{IsHandedOver}
use dracula.Client.Cache.Cases.{entry}
use dracula.Protocol.Command.{cmd_count, is_tcp_only_cmd}
use dracula.Client.Cache.{find}
use dracula.Client.Udp.Cases.{send_udp-cases, registered, IsRegistered, IsRefused}
use dracula.Server.{Effect}
use dracula.Client.Tcp.Direct.{send_tcp-IsDirect, AtMostOnce, IsDirect}
use dracula.Client.Requests.Started.{start-cases, made_packet, counted_up, next_id}
use dracula.RawMessage.{UdpAddr}
use dracula.Client.Sending.{send_or_callback_err}
use dracula.Client.Responses.{CallError}
use dracula.Client.Requests.{healthcheck, start}
use dracula.Client.State.{Environment, fails, Sent, Client}
use dracula.Protocol.Packet.{Packet, Hasher}
use dracula.Prelude.Int.{ℤ}
use dracula.Prelude.{
  done_injective, [], ◌++◌, ◌∷◌, bytes_of, true, subst, none, inr, Bool-cases, inl, ◌⊎◌, done,
  Bytes, List, ℕ, refl, ◌≡◌, ap, ◌∙◌, sym,
}

module _ {C : Type 0} where
  -- The identifiers are counted up, and the pool of servers is left alone. Either the callbacks that wait are as they were, and at most the
  -- request's own is called, or the request's own waits too, under the next identifier, which was free,
  -- and none is called.
  pub record IsRequested (now : ℤ) (c : Client C) (cb : C) (s : Sent C) : Type 0 where
    pub counter : s.client.message_id_counter ≡ next_id c.message_id_counter
    pub disposed : s.client.disposed ≡ c.disposed
    pub pool : s.client.udp_pool ≡ c.udp_pool
    pub flag : s.client.messages_waiting.disposed ≡ c.messages_waiting.disposed
    pub outcome :
        (s.client.messages_waiting.cache ≡ c.messages_waiting.cache) × AtMostOnce cb s.called
        ⊎ (find (next_id c.message_id_counter) c.messages_waiting.cache ≡ none)
          × (s.client.messages_waiting.cache
              ≡ entry now (next_id c.message_id_counter) cb ∷ c.messages_waiting.cache)
          × (s.called ≡ [])

  refused :
      (now : ℤ) (c : Client C) (cb : C) (err : CallError)
      → IsRequested now c cb (fails (counted_up c) cb err)
  refused now c cb err = record {
    counter = refl;
    disposed = refl;
    pool = refl;
    flag = refl;
    outcome = inl (refl, inr (_, _, refl));
  }

  direct :
      (now : ℤ) (c : Client C) (cb : C) (s : Sent C)
      → IsDirect (counted_up c) cb s
      → IsRequested now c cb s
  direct now c cb s d = record {
    counter = d.keeps.counter;
    disposed = d.keeps.disposed;
    pool = d.keeps.pool;
    flag = ap (λ m. m.disposed) d.keeps.messages_waiting;
    outcome = inl (ap (λ m. m.cache) d.keeps.messages_waiting, d.once);
  }

  waiting :
      (now : ℤ) (c : Client C) (cb : C) (id : ℕ) (effects : List Effect)
      → id ≡ next_id c.message_id_counter
      → find id c.messages_waiting.cache ≡ none
      → IsRequested now c cb
          (record { client = registered now id cb (counted_up c); effects = effects; called = [] })
  waiting now c cb id effects e free = record {
    counter = refl;
    disposed = refl;
    pool = refl;
    flag = refl;
    outcome = inr (
      subst (λ i. find i c.messages_waiting.cache ≡ none) e free,
      ap (λ i. entry now i cb ∷ c.messages_waiting.cache) e,
      refl,
    );
  }

  by_udp :
      (now : ℤ) (c : Client C) (p : Packet) (remote : UdpAddr) (cb : C) (s : Sent C)
      → p.message_id ≡ next_id c.message_id_counter
      → IsRefused (counted_up c) cb s ⊎ IsRegistered now (counted_up c) p remote cb s
      → IsRequested now c cb s
  by_udp now c p remote cb s e (inl (err, is)) =
      subst (IsRequested now c cb) (sym is) (refused now c cb err)
  by_udp now c p remote cb s e (inr r) =
      subst (IsRequested now c cb) (sym r.sent) (waiting now c cb p.message_id _ e r.free)

  handed_over :
      (now : ℤ) (c : Client C) (p : Packet) (cb : C) (s : Sent C)
      → p.message_id ≡ next_id c.message_id_counter
      → IsHandedOver now (counted_up c) p cb s
      → IsRequested now c cb s
  handed_over now c p cb s e (inl (err, is)) =
      subst (IsRequested now c cb) (sym is) (refused now c cb err)
  handed_over now c p cb s e (inr (remote, r)) = by_udp now c p remote cb s e (inr r)

  module _ ⦃hash : Hasher⦄ where
    pub start-IsRequested :
        (env : Environment) (c : Client C) (command : ℕ) (ns dv : Bytes) (cb : C) (s : Sent C)
        → start env c command ns dv cb ≡ done s
        → IsRequested env.add_now c cb s
    unfolding start send_or_callback_err
    start-IsRequested env c command ns dv cb s e = elim (Bool-cases (is_tcp_only_cmd command)) [
      | inl tcp ↦
          let (p, packet, made, same, h, k, _, _, _) = made_packet c command ns dv in
          let by_tcp : is_tcp_only_cmd p.command ≡ true = ap is_tcp_only_cmd same ∙ tcp in
          direct env.add_now c cb s
            (send_tcp-IsDirect env (counted_up c) p cb s (rw (made, by_tcp) at e))
      | inr udp ↦
          let (p, packet, returns) = start-cases env c command ns dv cb udp in
          elim returns [
            | inl (s', started, cases) ↦
                subst (IsRequested env.add_now c cb) (done_injective (sym started ∙ e))
                  (handed_over env.add_now c p cb s' packet.0 cases)
            | inr (closed, panics) ↦ absurd (cc)
          ]
    ]

    pub healthcheck-IsRequested :
        (addr_string : UdpAddr → Bytes) (env : Environment) (c : Client C) (server : UdpAddr)
        (cb : C) (s : Sent C)
        → healthcheck addr_string env c server cb ≡ done s
        → IsRequested env.add_now c cb s
    unfolding healthcheck
    healthcheck-IsRequested addr_string env c server cb s e =
        let (p, packet, made, same, h, k, _, _, _) =
          made_packet c cmd_count (bytes_of "server_healthcheck_" ++ addr_string server)
            (bytes_of "check") in
        elim (send_udp-cases env (counted_up c) p server cb h k) [
          | inl (s', sent, cases) ↦
              subst (IsRequested env.add_now c cb) (done_injective (sym sent ∙ (rw made at e)))
                (by_udp env.add_now c p server cb s' packet.0 cases)
          | inr (closed, panics) ↦ absurd (cc)
        ]
