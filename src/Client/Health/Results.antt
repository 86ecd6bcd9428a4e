-- ===== src/Client/Health/Results.antt =====
-- client/serverpool/serverpool.go: what a round of health checks does, and the lists that it leaves.
use dracula.Client.Health.{Check, Lists, Waits, check, place, round, round_of, seeded}
use dracula.Client.Health.Events.{round-cons}
use dracula.Client.Pool.{seed}
use dracula.Client.Responses.{CallError}
use dracula.Client.State.{Client}
use dracula.RawMessage.{UdpAddr}
use dracula.Protocol.Packet.{Hasher}
use dracula.Prelude.{
  Bool, List, Option, Bytes, none, some, [], ◌∷◌, done, ◌≡◌, refl, map, ap, ◌∙◌, sym,
  done_injective, bind-done, subst,
}
use mathlib.Core.Option as Option

-- The servers that were checked, each with what its check returned.
abbrev pub Results : Type 0
Results = List (UdpAddr × Option CallError)

-- The servers whose checks returned nil, and the others.
abbrev pub healthy_of : Results → List UdpAddr
healthy_of [] = []
healthy_of ((s, none) ∷ rs) = s ∷ healthy_of rs
healthy_of ((s, some err) ∷ rs) = healthy_of rs

abbrev pub unhealthy_of : Results → List UdpAddr
unhealthy_of [] = []
unhealthy_of ((s, none) ∷ rs) = unhealthy_of rs
unhealthy_of ((s, some err) ∷ rs) = s ∷ unhealthy_of rs

abbrev pub servers_of : Results → List UdpAddr
servers_of rs = map (λ r. r.0) rs

place-healthy_of :
    (s : UdpAddr) (r : Option CallError) (rs : Results) (others lists : Lists)
    → others ≡ (healthy_of rs, unhealthy_of rs)
    → place s r others ≡ lists
    → lists ≡ (healthy_of ((s, r) ∷ rs), unhealthy_of ((s, r) ∷ rs))
unfolding place
place-healthy_of s none rs others lists e at = sym at ∙ ap (λ (l : Lists). (s ∷ l.0, l.1)) e
place-healthy_of s (some err) rs others lists e at = sym at ∙ ap (λ (l : Lists). (l.0, s ∷ l.1)) e

module _ {C : Type 0} ⦃hash : Hasher⦄ (addr_string : UdpAddr → Bytes) (same : C → C → Bool) where
  -- The servers were checked one after another, each by the client that the check before left.
  pub data Checks : Client C → List UdpAddr → List (Check C) → Results → Client C → Type 0 where
    ended : {c : Client C} {checks : List (Check C)} → Checks c [] checks [] c
    checked :
        {c c' : Client C} {s : UdpAddr} {servers : List UdpAddr} {k : Check C}
        {checks : List (Check C)} {w : Waits C (Option CallError)} {r : Option CallError}
        {rs : Results}
        → check same addr_string c s k ≡ done w
        → w.result ≡ some r
        → Checks w.client servers checks rs c'
        → Checks c (s ∷ servers) (k ∷ checks) ((s, r) ∷ rs) c'

  pub servers_of-Checks :
      {c c' : Client C} {servers : List UdpAddr} {checks : List (Check C)} {rs : Results}
      → Checks c servers checks rs c'
      → servers_of rs ≡ servers
  servers_of-Checks ended = refl
  servers_of-Checks (checked {s = s} one found all) = ap (◌∷◌ s) (servers_of-Checks all)

  round-Checks :
      (c : Client C) (servers : List UdpAddr) (checks : List (Check C)) (w : Waits C Lists)
      (lists : Lists)
      → round same addr_string c servers checks ≡ done w
      → w.result ≡ some lists
      → (rs : Results) × Checks c servers checks rs w.client
        × (lists ≡ (healthy_of rs, unhealthy_of rs))
  unfolding round
  round-Checks c [] checks w lists e found =
      let same_w = done_injective e in
      (
        [],
        subst (Checks c [] checks []) (ap (λ (x : Waits C Lists). x.client) same_w) ended,
        sym (Option.some-injective _ _ (ap (λ (x : Waits C Lists). x.result) same_w ∙ found)),
      )
  round-Checks c (s ∷ servers) [] w lists e found =
      absurd (cc (ap (λ (x : Waits C Lists). x.result) (done_injective e) ∙ found))
  round-Checks c (s ∷ servers) (k ∷ checks) w lists e found =
      let (first, one, g) = round-cons addr_string same c s servers k checks w lists e found in
      let (rs, all, placed) =
        round-Checks first.client servers checks g.later g.others g.ran g.ended in
      (
        (s, g.err) ∷ rs,
        checked one g.answered (subst (Checks first.client servers checks rs) g.client all),
        place-healthy_of s g.err rs g.others lists placed g.placed,
      )

  -- The pool with the lists of these results.
  abbrev pub sorted : Client C → Results → Client C
  sorted c rs = record c { udp_pool = seed (healthy_of rs) (unhealthy_of rs) c.udp_pool }

  seeded-sorted :
      (c : Client C) (result : Option Lists) (rs : Results)
      → result ≡ some (healthy_of rs, unhealthy_of rs)
      → seeded same addr_string c result ≡ sorted c rs
  unfolding seeded
  seeded-sorted c result rs e = rw e

  pub round_of-Checks :
      (checks : List (Check C)) (c : Client C) (w : Waits C Lists) (lists : Lists)
      → round_of same addr_string checks c ≡ done w
      → w.result ≡ some lists
      → (rs : Results) × (c' : Client C) × Checks c c.udp_pool.servers checks rs c'
        × (lists ≡ (healthy_of rs, unhealthy_of rs))
        × (w.client ≡ sorted c' rs)
  unfolding round_of
  round_of-Checks checks c w lists e found =
      let (w0, ran, e') = bind-done (round same addr_string c c.udp_pool.servers checks) _ w e in
      let same_w = done_injective e' in
      let found0 : w0.result ≡ some lists = ap (λ (x : Waits C Lists). x.result) same_w ∙ found in
      let (rs, all, placed) = round-Checks c c.udp_pool.servers checks w0 lists ran found0 in
      (
        rs,
        w0.client,
        all,
        placed,
        sym (ap (λ (x : Waits C Lists). x.client) same_w)
            ∙ seeded-sorted w0.client w0.result rs (found0 ∙ ap some placed),
      )
