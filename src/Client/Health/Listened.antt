-- ===== src/Client/Health/Listened.antt =====
-- client/client.go and client/serverpool/serverpool.go: a `Listen` that returns without an error.
use dracula.Client.Health.{Check, Lists, Waits, listen, listened, round_of}
use dracula.Client.Health.Events.{round_events, round_of-run}
use dracula.Client.Health.Results.{
  Results, Checks, healthy_of, unhealthy_of, servers_of, servers_of-Checks, round_of-Checks,
}
use dracula.Client.Config.Listened.{open_conn-done, open_conn-new}
use dracula.Client.Responses.{CallError, Called}
use dracula.Client.State.{Client}
use dracula.Client.Runs.{Event, run, step, checked}
use dracula.RawMessage.{UdpAddr}
use dracula.Protocol.Packet.{Hasher}
use dracula.Client.Config as Config
use dracula.Prelude.{
  Bool, List, Option, Bytes, none, some, true, false, [], ◌∷◌, ◌++◌, done, ◌≡◌, ap, ap₂, ◌∙◌, sym,
  subst, Option-cases, inl, inr, bind-done, done_injective, refl,
}

module _ {C : Type 0} ⦃hash : Hasher⦄ (addr_string : UdpAddr → Bytes) (same : C → C → Bool) where
  -- What a `Listen` does to a client: the client checked all its servers, in their order, and the lists of
  -- its pool are those whose checks returned nil and the others; all in all it is a run of events.
  pub record HasListened (c : Client C) (checks : List (Check C)) (c' : Client C)
      (called : List (Called C)) : Type 0 where
    pub results : Results
    pub last : Client C
    pub all :
        Checks addr_string same (record c { conn = true }) c.udp_pool.servers checks results last
    pub servers : servers_of results ≡ c.udp_pool.servers
    pub healthy : c'.udp_pool.healthy ≡ healthy_of results
    pub unhealthy : c'.udp_pool.unhealthy ≡ unhealthy_of results
    pub ran :
        run addr_string c (
          Event.listen none
          ∷ (round_events c.udp_pool.servers checks
              ++ (checked (healthy_of results) (unhealthy_of results) ∷ [])))
        ≡ done (c', called)

  -- With the connection open, and no error of opening it, `Listen` is the first round.
  listened-round_of :
      (c' : Client C) (err : Option CallError) (checks : List (Check C))
      (w : Waits C (Option CallError))
      → listened same addr_string checks (c', err) ≡ done w
      → w.result ≡ some none
      → (err ≡ none)
        × (w1 : Waits C Lists) × (lists : Lists) × (round_of same addr_string checks c' ≡ done w1)
        × (w1.result ≡ some lists)
        × (w.client ≡ w1.client)
        × (w.called ≡ w1.called)
  unfolding listened
  listened-round_of c' (some err) checks w e found =
      absurd (cc (ap (λ (x : Waits C (Option CallError)). x.result) (done_injective e)))
  listened-round_of c' none checks w e found =
      let (w1, ran, e') = bind-done (round_of same addr_string checks c') _ w e in
      let same_w = done_injective e' in
      elim (Option-cases w1.result) [
        | inl waits ↦
            absurd (cc (found, ap (λ (x : Waits C (Option CallError)). x.result) same_w, waits))
        | inr (lists, ended) ↦ (
          refl,
          w1,
          lists,
          ran,
          ended,
          sym (ap (λ (x : Waits C (Option CallError)). x.client) same_w),
          sym (ap (λ (x : Waits C (Option CallError)). x.called) same_w),
        )
      ]

  opened-HasListened :
      (c : Client C) (checks : List (Check C)) (w : Waits C Lists) (lists : Lists)
      → (Config.open_conn none c ≡ (record c { conn = true }, none))
      → round_of same addr_string checks (record c { conn = true }) ≡ done w
      → w.result ≡ some lists
      → HasListened c checks w.client w.called
  unfolding run step
  opened-HasListened c checks w lists opens e found =
      let opened = record c { conn = true } in
      let (rs, last, all, placed, after) =
        round_of-Checks addr_string same checks opened w lists e found in
      let events =
        subst
          (λ (l : Lists).
            run addr_string opened
              (round_events c.udp_pool.servers checks ++ (checked l.0 l.1 ∷ []))
            ≡ done (w.client, w.called))
          placed (round_of-run addr_string same checks opened w lists e found) in
      record {
        results = rs;
        last = last;
        all = all;
        servers = servers_of-Checks addr_string same all;
        healthy = ap (λ (x : Client C). x.udp_pool.healthy) after;
        unhealthy = ap (λ (x : Client C). x.udp_pool.unhealthy) after;
        ran = rw (opens, events);
      }

  -- A `Listen` that returns without an error, whatever the network does and whatever happens meanwhile: the
  -- client had no connection and gets one; its servers are checked one after another, each once, in their
  -- order; the healthy servers of its pool are then those whose checks returned nil, and the unhealthy
  -- ones the others, both in that order. All in all it is a run of events: the connection, the checks with
  -- what happens between them, and the end of the round with these lists.
  pub listen-run :
      (listen_error : Option Bytes) (checks : List (Check C)) (c : Client C)
      (w : Waits C (Option CallError))
      → listen same addr_string listen_error checks c ≡ done w
      → w.result ≡ some none
      → (c.conn ≡ false) × (listen_error ≡ none) × HasListened c checks w.client w.called
  unfolding listen
  listen-run listen_error checks c w e found =
      let opening = Config.open_conn listen_error c in
      let (opens, w1, lists, ran, ended, client, called) =
        listened-round_of opening.0 opening.1 checks w e found in
      let (closed, no_error) = open_conn-new listen_error c opens in
      let opened : opening.0 ≡ record c { conn = true } = open_conn-done listen_error c opens in
      let opens' : Config.open_conn none c ≡ (record c { conn = true }, none) =
        ap (λ x. Config.open_conn x c) (sym no_error) ∙ ap₂ (λ x y. (x, y)) opened opens in
      let ran' = subst (λ x. round_of same addr_string checks x ≡ done w1) opened ran in
      (
        closed,
        no_error,
        subst (λ (x : Client C × List (Called C)). HasListened c checks x.0 x.1)
            (ap₂ (λ x y. (x, y)) (sym client) (sym called))
            (opened-HasListened c checks w1 lists opens' ran' ended),
      )
