-- ===== src/Tree/Crawl.antt =====
-- store/tree/tree.go: `Keys` and `KeyMatch`, which count every key or every key that matches.
use dracula.Tree.{
  match_compiled, Regexp, key_match, replace_star, match_key, match_keys, keys, count_keys, count,
  alive, Tree,
}
use dracula.Prelude.{
  ◌⊎◌, sym, bytes_of, true, false, ◌&&◌, ap, fun_ext, bytes_eq_iff, refl, inr, [], inl, ◌==◌, ◌∙◌,
  bytes_eq, arith, sum_map, Bool-cases, length, ◌∷◌, not, ◌≡◌, Bool, keep, Bytes, List,
}
use dracula.Maps.{contains, RedBlackTree}
use dracula.Prelude.Int.{◌≤ℤ◌, ℤ}
use dracula.Tree.Dates.{default-count, dates_absent, count-live, dates-count, dates, live}

keep_idem : (now : ℤ) (ds : List ℤ) → keep (alive now) (keep (alive now) ds) ≡ keep (alive now) ds
keep_idem now [] = refl
keep_idem now (d ∷ ds) = ground (arith, keep_idem now ds)

module _ ⦃t : RedBlackTree⦄ (times : Bytes → ℤ) where
  -- The unexpired entries of a key at the time when it is counted.
  abbrev pub live_at : Tree → Bytes → List ℤ
  live_at n k = live (times k) n k

  abbrev pub is_live : Tree → Bytes → Bool
  is_live n k = not (length (live_at n k) == 0)

  pub live_at-count : (n : Tree) (k j : Bytes) → live_at (count (times k) n k).0 j ≡ live_at n j
  live_at-count n k j = elim (Bool-cases (bytes_eq k j)) [
    | inl e ↦
        rw (dates-count (times k) n k j, e, ← (bytes_eq_iff k j).0 e)
          (keep_idem (times k) (dates n k))
    | inr e ↦ rw (dates-count (times k) n k j, e)
  ]

  count_keys-live :
      (n : Tree) (ks : List Bytes)
      → ((count_keys times n ks).1 ≡ keep (is_live n) ks)
        × ((count_keys times n ks).2 ≡ sum_map (λ k. length (live_at n k)) ks)
        × ((j : Bytes) → live_at (count_keys times n ks).0 j ≡ live_at n j)
  unfolding count_keys
  count_keys-live n [] = (refl, refl, λ j. refl)
  count_keys-live n (k ∷ ks) =
      let n' = (count (times k) n k).0 in
      let (out, total, same) = count_keys-live n' ks in
      let before : (λ j. live_at n' j) ≡ live_at n = fun_ext (live_at-count n k) in
      let kept : keep (is_live n') ks ≡ keep (is_live n) ks =
        ap (λ (f : Bytes → List ℤ). keep (λ j. not (length (f j) == 0)) ks) before in
      let summed : sum_map (λ j. length (live_at n' j)) ks
          ≡ sum_map (λ j. length (live_at n j)) ks =
        ap (λ (f : Bytes → List ℤ). sum_map (λ j. length (f j)) ks) before in
      (
        ground (arith, out, kept, count-live (times k) n k),
        ground (arith, total, summed, count-live (times k) n k),
        λ j. same j ∙ live_at-count n k j,
      )

  contains-keep :
      (p : Bytes → Bool) (k : Bytes) (ks : List Bytes)
      → contains k (keep p ks) ≡ p k && contains k ks
  unfolding contains
  contains-keep p k [] = ground arith
  contains-keep p k (j ∷ ks) = elim (Bool-cases (bytes_eq j k)) [
    | inl e ↦
        let same : p j ≡ p k = ap p ((bytes_eq_iff j k).0 e) in
        ground (arith, contains-keep p k ks, same)
    | inr e ↦ ground (arith, contains-keep p k ks)
  ]

  is_live-contains :
      (n : Tree) (k : Bytes) → is_live n k && contains k (t.map.keys n.tree) ≡ is_live n k
  is_live-contains n k = elim (Bool-cases (contains k (t.map.keys n.tree))) [
    | inl e ↦ ground arith
    | inr e ↦ rw (e, dates_absent n k e)
  ]

  -- `Keys` lists exactly the keys that have an unexpired entry when they are counted.
  pub contains-keys : (n : Tree) (k : Bytes) → contains k (keys times n).1 ≡ is_live n k
  unfolding keys
  contains-keys n k =
      ap (contains k) (count_keys-live n (t.map.keys n.tree)).0
      ∙ contains-keep (is_live n) k (t.map.keys n.tree)
      ∙ is_live-contains n k

  -- The total of `Keys` adds up the unexpired entries of all keys of the tree, each at the time when it
  -- is counted.
  pub total-keys :
      (n : Tree) → (keys times n).2 ≡ sum_map (λ k. length (live_at n k)) (t.map.keys n.tree)
  unfolding keys
  total-keys n = (count_keys-live n (t.map.keys n.tree)).1

  default-count_keys :
      (n : Tree) (ks : List Bytes)
      → (count_keys times n ks).0.default_expire_after_secs ≡ n.default_expire_after_secs
  unfolding count_keys
  default-count_keys n [] = refl
  default-count_keys n (k ∷ ks) =
      default-count_keys (count (times k) n k).0 ks ∙ default-count (times k) n k

  pub default-keys :
      (n : Tree) → (keys times n).0.default_expire_after_secs ≡ n.default_expire_after_secs
  unfolding keys
  default-keys n = default-count_keys n (t.map.keys n.tree)

  matched_live :
      (n : Tree) (k : Bytes) (b : Bool)
      → ((match_key times n k b).1 ≡ b && is_live n k)
        × ((j : Bytes) → live_at (match_key times n k b).0 j ≡ live_at n j)
        × ((match_key times n k b).0.default_expire_after_secs ≡ n.default_expire_after_secs)
  unfolding match_key
  matched_live n k false = (refl, λ j. refl, refl)
  matched_live n k true =
      (ground (arith, count-live (times k) n k), live_at-count n k, default-count (times k) n k)

  module _ (m : Bytes → Bool) where
    pub matching : Tree → Bytes → Bool
    matching n k = m k && is_live n k

    match_keys-live :
        (n : Tree) (ks : List Bytes)
        → ((match_keys times m n ks).1 ≡ keep (matching n) ks)
          × ((j : Bytes) → live_at (match_keys times m n ks).0 j ≡ live_at n j)
          × ((match_keys times m n ks).0.default_expire_after_secs ≡ n.default_expire_after_secs)
    unfolding match_keys matching
    match_keys-live n [] = (refl, λ j. refl, refl)
    match_keys-live n (k ∷ ks) =
        let n' = (match_key times n k (m k)).0 in
        let (out, same, expire) = match_keys-live n' ks in
        let (is_matched, same', expire') = matched_live n k (m k) in
        let before : (λ j. live_at n' j) ≡ live_at n = fun_ext same' in
        let kept : keep (matching n') ks ≡ keep (matching n) ks =
          ap (λ (f : Bytes → List ℤ). keep (λ j. m j && not (length (f j) == 0)) ks) before in
        (rw (is_matched, out, kept), λ j. same j ∙ same' j, expire ∙ expire')

  abbrev pub star : Bytes → Bytes
  star = replace_star (bytes_of "(^|$|.+)")

  -- `KeyMatch` returns the keys that match and have an unexpired entry when they are counted, in the
  -- order of the tree, and changes neither the unexpired entries of any key nor the expiry setting.
  pub key_match-live :
      (re : Regexp) (n : Tree) (pattern : Bytes) (m : Bytes → Bool)
      → re.compile (star pattern) ≡ inr m
      → ((key_match re times n pattern).1 ≡ keep (matching m n) (t.map.keys n.tree))
        × ((j : Bytes) → live_at (key_match re times n pattern).0 j ≡ live_at n j)
        × ((key_match re times n pattern).0.default_expire_after_secs ≡ n.default_expire_after_secs)
  unfolding key_match
  key_match-live re n pattern m e = rw (e, match_compiled) (match_keys-live m n (t.map.keys n.tree))

  -- A pattern that does not compile gives the error's text as the only key, and no change.
  pub key_match_error :
      (re : Regexp) (n : Tree) (pattern err : Bytes)
      → re.compile (star pattern) ≡ inl err
      → key_match re times n pattern ≡ (n, err ∷ [])
  unfolding key_match
  key_match_error re n pattern err e = rw (e, match_compiled)

  pub live_at-keys : (n : Tree) (k : Bytes) → live_at (keys times n).0 k ≡ live_at n k
  unfolding keys
  live_at-keys n k = (count_keys-live n (t.map.keys n.tree)).2 k

  -- Whether the pattern compiles or not.
  pub key_match_same :
      (re : Regexp) (n : Tree) (pattern : Bytes)
      → ((j : Bytes) → live_at (key_match re times n pattern).0 j ≡ live_at n j)
        × ((key_match re times n pattern).0.default_expire_after_secs ≡ n.default_expire_after_secs)
  unfolding key_match
  key_match_same re n pattern = by_result (re.compile (star pattern))
    where
      by_result :
          (r : Bytes ⊎ (Bytes → Bool))
          → ((j : Bytes) → live_at (match_compiled times n r).0 j ≡ live_at n j)
            × ((match_compiled times n r).0.default_expire_after_secs ≡ n.default_expire_after_secs)
      by_result (inl err) = (λ j. refl, refl)
      by_result (inr m) =
          let (_, same, expire) = match_keys-live m n (t.map.keys n.tree) in (same, expire)

-- What a later reading of the clock leaves, an earlier one leaves too.
pub keep_later :
    (now later : ℤ) (ds : List ℤ)
    → now ≤ℤ later
    → keep (alive later) (keep (alive now) ds) ≡ keep (alive later) ds
keep_later now later [] h = refl
keep_later now later (d ∷ ds) h = ground (arith, keep_later now later ds h)

pub live_later :
    ⦃t : RedBlackTree⦄ (now later : ℤ) (n n' : Tree) (k : Bytes)
    → now ≤ℤ later
    → live now n' k ≡ live now n k
    → live later n' k ≡ live later n k
live_later now later n n' k le same =
    sym (keep_later now later (dates n' k) le)
    ∙ ap (keep (alive later)) same
    ∙ keep_later now later (dates n k) le
