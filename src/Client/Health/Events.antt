-- ===== src/Client/Health/Events.antt =====
-- client/client.go: a round of health checks is a run of events.
use dracula.Client.Health.{Check, Lists, Waits, round, check, after_check, place, round_of, seeded}
use dracula.Client.Responses.{CallError, Called}
use dracula.Client.State.{Client}
use dracula.Client.Runs.{Request, Event, request, run, step, checked}
use dracula.RawMessage.{UdpAddr}
use dracula.Protocol.Packet.{Hasher}
use mathlib.Core.Option as Option
use dracula.Client.Pool as Pool
use dracula.Prelude.{
  Bool, List, Option, Outcome, Bytes, none, some, [], ◌∷◌, ◌++◌, done, ◌≡◌, refl, ap, ◌∙◌, sym,
  append_assoc, subst, ap₂, append-nil, bind-done, done_injective,
}

module _ {C : Type 0} where
  -- What happens in a round.
  abbrev pub round_events : List UdpAddr → List (Check C) → List (Event C)
  round_events (s ∷ servers) (k ∷ checks) =
      (request k.network (Request.healthcheck s) k.callback ∷ k.meanwhile)
      ++ round_events servers checks
  round_events _ _ = []

  module _ ⦃hash : Hasher⦄ (addr_string : UdpAddr → Bytes) where
    -- A run goes on where another ended.
    pub run-append :
        (c c1 c2 : Client C) (xs ys : List (Event C)) (called1 called2 : List (Called C))
        → run addr_string c xs ≡ done (c1, called1)
        → run addr_string c1 ys ≡ done (c2, called2)
        → run addr_string c (xs ++ ys) ≡ done (c2, called1 ++ called2)
    unfolding run
    run-append c c1 c2 [] ys called1 called2 e1 e2 =
        let e = done_injective e1 in
        subst (λ x. run addr_string c ys ≡ done (c2, x.1 ++ called2)) e
          (subst (λ x. run addr_string x.0 ys ≡ done (c2, called2)) (sym e) e2)
    run-append c c1 c2 (x ∷ xs) ys called1 called2 e1 e2 =
        let ((cx, calledx), stepped, e) = bind-done (step addr_string c x) _ (c1, called1) e1 in
        let ((cs, calleds), ran, e') = bind-done (run addr_string cx xs) _ (c1, called1) e in
        let last = done_injective e' in
        let rest =
          run-append cx cs c2 xs ys calleds called2 ran
            (subst (λ r. run addr_string r.0 ys ≡ done (c2, called2)) (sym last) e2) in
        rw (stepped, rest)
          (ap (λ l. done (c2, l))
            (sym (append_assoc calledx calleds called2) ∙ ap (λ r. r.1 ++ called2) last))

    module _ (same : C → C → Bool) where
      check-run :
          (c : Client C) (s : UdpAddr) (k : Check C) (w : Waits C (Option CallError))
          → check same addr_string c s k ≡ done w
          → run addr_string c (request k.network (Request.healthcheck s) k.callback ∷ k.meanwhile)
            ≡ done (w.client, w.called)
      unfolding check
      check-run c s k w e =
          let es = request k.network (Request.healthcheck s) k.callback ∷ k.meanwhile in
          let ((c', called), ran, e') = bind-done (run addr_string c es) _ w e in
          ran
          ∙ ap (λ (x : Waits C (Option CallError)). done (x.client, x.called)) (done_injective e')

      -- A round that ends after its first check has ended after the others.
      pub record Goes (s : UdpAddr) (first : Waits C (Option CallError))
          (rest : Outcome (Waits C Lists)) (w : Waits C Lists) (lists : Lists) : Type 0 where
        pub later : Waits C Lists
        pub others : Lists
        pub err : Option CallError
        pub answered : first.result ≡ some err
        pub ran : rest ≡ done later
        pub ended : later.result ≡ some others
        pub client : later.client ≡ w.client
        pub called : first.called ++ later.called ≡ w.called
        pub placed : place s err others ≡ lists

      after_check-Goes :
          (s : UdpAddr) (first : Waits C (Option CallError)) (rest : Outcome (Waits C Lists))
          (w : Waits C Lists) (lists : Lists)
          → after_check same addr_string s first rest first.result ≡ done w
          → w.result ≡ some lists
          → Goes s first rest w lists
      unfolding after_check
      after_check-Goes s first rest w lists e ended = by_result first.result refl e
        where
          placed :
              (err : Option CallError) (result : Option Lists)
              → Option.map (place s err) result ≡ some lists
              → (others : Lists) × (result ≡ some others) × (place s err others ≡ lists)
          placed err none h = absurd (cc)
          placed err (some others) h = (others, refl, cc)

          by_result :
              (result : Option (Option CallError))
              → first.result ≡ result
              → after_check same addr_string s first rest result ≡ done w
              → Goes s first rest w lists
          by_result none is h =
              absurd (cc (ap (λ (x : Waits C Lists). x.result) (done_injective h)))
          by_result (some err) is h =
              let (later, ran, h') = bind-done rest _ w h in
              let same_w = done_injective h' in
              let (others, later_ended, at) =
                placed err later.result (ap (λ (x : Waits C Lists). x.result) same_w ∙ ended) in
              record {
                later = later;
                others = others;
                err = err;
                answered = is;
                ran = ran;
                ended = later_ended;
                client = ap (λ (x : Waits C Lists). x.client) same_w;
                called = ap (λ (x : Waits C Lists). x.called) same_w;
                placed = at;
              }

      pub round-cons :
          (c : Client C) (s : UdpAddr) (servers : List UdpAddr) (k : Check C)
          (checks : List (Check C)) (w : Waits C Lists) (lists : Lists)
          → round same addr_string c (s ∷ servers) (k ∷ checks) ≡ done w
          → w.result ≡ some lists
          → (first : Waits C (Option CallError)) × (check same addr_string c s k ≡ done first)
            × Goes s first (round same addr_string first.client servers checks) w lists
      unfolding round
      round-cons c s servers k checks w lists e ended =
          let (first, one, e') = bind-done (check same addr_string c s k) _ w e in
          (first, one, after_check-Goes s first _ w lists e' ended)

      pub round-run :
          (c : Client C) (servers : List UdpAddr) (checks : List (Check C)) (w : Waits C Lists)
          (lists : Lists)
          → round same addr_string c servers checks ≡ done w
          → w.result ≡ some lists
          → run addr_string c (round_events servers checks) ≡ done (w.client, w.called)
      unfolding round run
      round-run c [] checks w lists e ended =
          ap (λ (x : Waits C Lists). done (x.client, x.called)) (done_injective e)
      round-run c (s ∷ servers) [] w lists e ended =
          ap (λ (x : Waits C Lists). done (x.client, x.called)) (done_injective e)
      round-run c (s ∷ servers) (k ∷ checks) w lists e ended =
          let (first, one, g) = round-cons c s servers k checks w lists e ended in
          let others = round-run first.client servers checks g.later g.others g.ran g.ended in
          run-append c first.client g.later.client
            (request k.network (Request.healthcheck s) k.callback ∷ k.meanwhile)
            (round_events servers checks) first.called g.later.called (check-run c s k first one)
            others
          ∙ ap₂ (λ x y. done (x, y)) g.client g.called

      pub round_of-run :
          (checks : List (Check C)) (c : Client C) (w : Waits C Lists) (lists : Lists)
          → round_of same addr_string checks c ≡ done w
          → w.result ≡ some lists
          → run addr_string c
              (round_events c.udp_pool.servers checks ++ (checked lists.0 lists.1 ∷ []))
            ≡ done (w.client, w.called)
      unfolding round_of seeded run step
      round_of-run checks c w lists e ended =
          let (w0, ran, e') =
            bind-done (round same addr_string c c.udp_pool.servers checks) _ w e in
          let same_w = done_injective e' in
          let found : w0.result ≡ some lists =
            ap (λ (x : Waits C Lists). x.result) same_w ∙ ended in
          let seeds : seeded same addr_string w0.client w0.result
              ≡ record w0.client { udp_pool = Pool.seed lists.0 lists.1 w0.client.udp_pool } =
            ap (seeded same addr_string w0.client) found in
          run-append c w0.client w.client (round_events c.udp_pool.servers checks)
            (checked lists.0 lists.1 ∷ []) w0.called []
            (round-run c c.udp_pool.servers checks w0 lists ran found)
            (ap (λ x. done (x, [])) (sym seeds ∙ ap (λ (x : Waits C Lists). x.client) same_w))
          ∙ ap (λ l. done (w.client, l))
              (append-nil w0.called ∙ ap (λ (x : Waits C Lists). x.called) same_w)
