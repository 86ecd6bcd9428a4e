-- ===== src/Client/Pool/Chosen.antt =====
-- client/serverpool/serverpool.go: what `Choose` returns.
use dracula.Prelude.{
  Option, le→ltb_false, index_done, ltb, ◌==◌, some, none, ◌≤◌, arith, inr, inl, Bool-cases, true,
  done, length, ℕ, ◌≡◌, index,
}
use dracula.Client.Pool.{Pool, Random, choose}

module _ {A : Type 0} where
  -- With a healthy server, `Choose` returns one that stands among the healthy ones.
  pub choose-some :
      (rand : Random) (p : Pool A)
      → 1 ≤ length p.healthy
      → (s : A) × (i : ℕ) × (choose rand p ≡ done (some s)) × (index p.healthy i ≡ done s)
  unfolding choose
  choose-some rand p h = elim (Bool-cases (length p.healthy == 1)) [
    | inl one ↦
        let (s, e) = index_done p.healthy 0 h in
        (s, 0, rw (le→ltb_false (length p.healthy) 1 h, one, e), e)
    | inr more ↦
        let i = rand.intn (length p.healthy) in
        let (s, e) = index_done p.healthy i (rand.intn_lt (length p.healthy) h) in
        (s, i, rw (le→ltb_false (length p.healthy) 1 h, more, e), e)
  ]

  pub choose-none :
      (rand : Random) (p : Pool A) → ltb (length p.healthy) 1 ≡ true → choose rand p ≡ done none
  unfolding choose
  choose-none rand p e = rw e

  pub choose_total : (rand : Random) (p : Pool A) → (s : Option A) × (choose rand p ≡ done s)
  choose_total rand p = elim (Bool-cases (ltb (length p.healthy) 1)) [
    | inl e ↦ (none, (unfold choose in rw e))
    | inr e ↦ let (s, i, chosen, at) = choose-some rand p (ground arith) in (some s, chosen)
  ]
