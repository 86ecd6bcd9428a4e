-- ===== src/Client/Health/Chosen.antt =====
-- client/serverpool/serverpool.go: what `Choose` returns after a round of health checks.
use dracula.Client.Health.{Check, Lists, Waits, round_of}
use dracula.Client.Health.Results.{Results, Checks, healthy_of, round_of-Checks}
use dracula.Client.Pool.{Pool, Random, choose}
use dracula.Client.Pool.Chosen.{choose-some, choose-none}
use dracula.Client.Responses.{CallError}
use dracula.Client.State.{Client}
use dracula.RawMessage.{UdpAddr}
use dracula.Protocol.Packet.{Hasher}
use dracula.Prelude.{
  ℕ, zero, suc, Bool, List, Option, Bytes, none, some, [], ◌∷◌, done, ◌≡◌, ◌<◌, length, ap, sym,
  arith, done_injective, index, Bool-cases, inl, inr, ltb, ltb→lt, subst, ◌⊎◌,
}

index-healthy_of :
    (rs : Results) (i : ℕ) (s : UdpAddr)
    → index (healthy_of rs) i ≡ done s
    → (j : ℕ) × (index rs j ≡ done (s, none))
unfolding index
index-healthy_of [] i s e = absurd (cc)
index-healthy_of ((x, none) ∷ rs) zero s e = (zero, ap (λ y. done (y, none)) (done_injective e))
index-healthy_of ((x, none) ∷ rs) (suc i) s e =
    let (j, at) = index-healthy_of rs i s e in (suc j, at)
index-healthy_of ((x, some err) ∷ rs) i s e = let (j, at) = index-healthy_of rs i s e in (suc j, at)

none_healthy :
    (rs : Results) (j : ℕ) (s : UdpAddr) (r : Option CallError)
    → length (healthy_of rs) < 1
    → index rs j ≡ done (s, r)
    → (err : CallError) × (r ≡ some err)
unfolding index
none_healthy [] j s r few e = absurd (cc)
none_healthy ((x, none) ∷ rs) j s r few e = absurd (omega (arith, few))
none_healthy ((x, some err) ∷ rs) zero s r few e = (err, sym (ap (λ y. y.1) (done_injective e)))
none_healthy ((x, some err) ∷ rs) (suc j) s r few e = none_healthy rs j s r few e

-- `Choose` returns nil, and every check returned an error, or a server whose check returned nil.
abbrev pub Chooses : Random → Pool UdpAddr → Results → Type 0
Chooses rand p rs =
    (choose rand p ≡ done none)
      × ((j : ℕ) (s : UdpAddr) (r : Option CallError)
          → index rs j ≡ done (s, r)
          → (err : CallError) × (r ≡ some err))
    ⊎ ((s : UdpAddr) × (j : ℕ) × (choose rand p ≡ done (some s)) × (index rs j ≡ done (s, none)))

healthy_of-Chooses :
    (rand : Random) (p : Pool UdpAddr) (rs : Results)
    → p.healthy ≡ healthy_of rs
    → Chooses rand p rs
healthy_of-Chooses rand p rs healthy = elim (Bool-cases (ltb (length p.healthy) 1)) [
  | inl e ↦ inl (
    choose-none rand p e,
    λ j s r. none_healthy rs j s r (subst (λ l. length l < 1) healthy (ltb→lt _ _ e)),
  )
  | inr e ↦
      let (s, i, chosen, at) = choose-some rand p (ground arith) in
      let (j, there) = index-healthy_of rs i s (subst (λ l. index l i ≡ done s) healthy at) in
      inr (s, j, chosen, there)
]

module _ {C : Type 0} ⦃hash : Hasher⦄ (addr_string : UdpAddr → Bytes) (same : C → C → Bool) where
  -- After a round of health checks that has ended, whatever the network does and whatever happens
  -- meanwhile: the servers of the pool were checked one after another, and `Choose` does not panic. It
  -- returns nil, and then every check returned an error, or a server whose check returned nil.
  pub choose-round_of :
      (rand : Random) (checks : List (Check C)) (c : Client C) (w : Waits C Lists) (lists : Lists)
      → round_of same addr_string checks c ≡ done w
      → w.result ≡ some lists
      → (rs : Results) × (c' : Client C) × Checks addr_string same c c.udp_pool.servers checks rs c'
        × Chooses rand w.client.udp_pool rs
  choose-round_of rand checks c w lists e found =
      let (rs, c', all, _, after) = round_of-Checks addr_string same checks c w lists e found in
      (
        rs,
        c',
        all,
        healthy_of-Chooses rand w.client.udp_pool rs
            (ap (λ (x : Client C). x.udp_pool.healthy) after),
      )
