-- ===== src/Tree/Dates.antt =====
-- store/tree/tree.go: what the methods do to the expiry times of each key.
use dracula.Prelude.Int.{add64, ℤ}
use dracula.Maps.{contains, RedBlackTree}
use dracula.Tree.{new_tree, cleanup_found, or_empty, ℤ, Tree, count, put, alive, remove_expired}
use dracula.Prelude.{
  is_some, ap, ◌∙◌, true, Option-cases, false, bytes_eq_iff, some, ◌⊎◌, arith, inr, none, inl,
  Option, ◌++◌, refl, [], bytes_eq, if◌then◌else◌, length, ◌∷◌, Bytes, keep, List, ◌≡◌,
}

remove_expired-keep : (now : ℤ) (ds : List ℤ) → remove_expired now ds ≡ keep (alive now) ds
unfolding remove_expired
remove_expired-keep now [] = refl
remove_expired-keep now (d ∷ ds) = refl

found-cases :
    (o : Option (List ℤ))
    → (o ≡ none) ⊎ (o ≡ some []) ⊎ ((d : ℤ) × (ds : List ℤ) × (o ≡ some (d ∷ ds)))
found-cases none = inl refl
found-cases (some []) = inr (inl refl)
found-cases (some (d ∷ ds)) = inr (inr (d, ds, refl))

module _ ⦃t : RedBlackTree⦄ where
  -- The times that the tree holds for a key, none if it does not hold the key.
  pub dates : Tree → Bytes → List ℤ
  unfolding or_empty
  dates n k = or_empty (t.map.get n.tree k)

  -- What of them a reading of the clock leaves.
  abbrev pub live : ℤ → Tree → Bytes → List ℤ
  live now n k = keep (alive now) (dates n k)

  -- `Count` returns the number of unexpired entries.
  pub count-live : (now : ℤ) (n : Tree) (k : Bytes) → (count now n k).1 ≡ length (live now n k)
  unfolding count dates
  count-live now n k = elim (found-cases (t.map.get n.tree k)) [
    | inl e ↦ rw (e, cleanup_found)
    | inr (inl e) ↦ rw (e, cleanup_found)
    | inr (inr (d, ds, e)) ↦ rw (e, cleanup_found) (ground arith)
  ]

  -- `Count` removes the expired entries of its key and touches no other key.
  pub dates-count :
      (now : ℤ) (n : Tree) (k j : Bytes)
      → dates (count now n k).0 j ≡ (if bytes_eq k j then live now n k else dates n j)
  unfolding count dates
  dates-count now n k j = elim (found-cases (t.map.get n.tree k)) [
    | inl e ↦ rw (e, cleanup_found) (ground (arith, e, bytes_eq_iff k j))
    | inr (inl e) ↦
        rw (e, cleanup_found) (ground (arith, e, t.map.get-remove n.tree k j, bytes_eq_iff k j))
    | inr (inr (d, ds, e)) ↦
        rw (e, cleanup_found)
          (ground
            (arith, e, t.map.get-put n.tree k j (keep (alive now) (d ∷ ds)), bytes_eq_iff k j))
  ]

  -- `Put` removes the expired entries of its key, adds one, and touches no other key.
  pub dates-put :
      (now secs : ℤ) (n : Tree) (k j : Bytes)
      → dates (put now secs n k) j ≡ (
          if bytes_eq k j
          then live now n k ++ (add64 secs n.default_expire_after_secs ∷ [])
          else dates n j)
  unfolding put dates
  dates-put now secs n k j = elim (found-cases (t.map.get n.tree k)) [
    | inl e ↦ rw (e, cleanup_found) (simp t.map.get-put (ground arith))
    | inr (inl e) ↦ rw (e, cleanup_found) (simp (t.map.get-put, t.map.get-remove) (ground arith))
    | inr (inr (d, ds, e)) ↦ rw (e, cleanup_found) (simp t.map.get-put (ground arith))
  ]

  -- A key that the tree does not hold has no times.
  pub dates_absent :
      (n : Tree) (k : Bytes) → contains k (t.map.keys n.tree) ≡ false → dates n k ≡ []
  unfolding dates
  dates_absent n k h = elim (Option-cases (t.map.get n.tree k)) [
    | inl e ↦ rw e
    | inr (a, e) ↦
        let held : contains k (t.map.keys n.tree) ≡ true =
          t.map.contains-keys n.tree k ∙ ap is_some e in
        cc
  ]

  pub default-count :
      (now : ℤ) (n : Tree) (k : Bytes)
      → (count now n k).0.default_expire_after_secs ≡ n.default_expire_after_secs
  unfolding count
  default-count now n k = elim (found-cases (t.map.get n.tree k)) [
    | inl e ↦ rw (e, cleanup_found)
    | inr (inl e) ↦ rw (e, cleanup_found)
    | inr (inr (d, ds, e)) ↦ rw (e, cleanup_found) (ground arith)
  ]

  pub default-put :
      (now secs : ℤ) (n : Tree) (k : Bytes)
      → (put now secs n k).default_expire_after_secs ≡ n.default_expire_after_secs
  unfolding put
  default-put now secs n k = elim (found-cases (t.map.get n.tree k)) [
    | inl e ↦ rw (e, put, cleanup_found)
    | inr (inl e) ↦ rw (e, put, cleanup_found)
    | inr (inr (d, ds, e)) ↦ rw (e, put, cleanup_found)
  ]

  pub dates-new_tree : (expire : ℤ) (k : Bytes) → dates (new_tree expire) k ≡ []
  unfolding dates new_tree
  dates-new_tree expire k = rw (t.map.get-empty {V = List ℤ} k)
