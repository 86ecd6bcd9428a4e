-- ===== src/Tree.antt =====
-- store/tree/tree.go: one namespace, a map from entry keys to the times at which their entries
-- expire. `time.Now().Unix()` is an argument for each reading of the clock. The mutex makes every
-- method but `Keys` and `KeyMatch` one step; these two are run without others in between.
pub mod Dates
pub mod Crawl
mod Tests
use dracula.Prelude.{
  true, inr, inl, false, bytes_of, ltb, ◌⊎◌, List, Bytes, ◌+◌, ◌==◌, length, if◌then◌else◌, none,
  keep, ◌++◌, [], ℕ, some, ◌∷◌, Option, Bool,
}
use dracula.Maps.{RedBlackTree}
use dracula.Prelude.Int.{add64, ltb_ℤ, ℤ}

-- `removeAt > currentTime`
abbrev pub alive : ℤ → ℤ → Bool
alive now remove_at = ltb_ℤ now remove_at

unfoldable pub remove_expired : ℤ → List ℤ → List ℤ
remove_expired now [] = []
remove_expired now (d ∷ ds) = keep (alive now) (d ∷ ds)

-- `regexp.Compile`: an expression or the text of the error, and `MatchString` of the expression.
pub record Regexp : Type 0 where
  pub compile : Bytes → Bytes ⊎ (Bytes → Bool)

-- `strings.ReplaceAll(s, "*", by)`
unfoldable pub replace_star : Bytes → Bytes → Bytes
replace_star by [] = []
replace_star by (c ∷ s) = let rest = replace_star by s in if c == b'*' then by ++ rest else c ∷ rest

module _ ⦃t : RedBlackTree⦄ where
  pub record Tree : Type 0 where
    pub default_expire_after_secs : ℤ
    pub tree : t.map.Map (List ℤ)

  unfoldable pub new_tree : ℤ → Tree
  new_tree expire_after_secs = record {
    default_expire_after_secs = expire_after_secs;
    tree = t.map.empty;
  }

  cleanup_found : Tree → Bytes → Option (List ℤ) → Tree × Option (List ℤ)
  cleanup_found n entry_key none = (n, none)
  cleanup_found n entry_key (some []) = (record n { tree = t.map.remove n.tree entry_key }, none)
  cleanup_found n entry_key (some (d ∷ ds)) = (n, some (d ∷ ds))

  unfoldable pub get_and_cleanup : Tree → Bytes → Tree × Option (List ℤ)
  unfolding cleanup_found
  get_and_cleanup n entry_key = cleanup_found n entry_key (t.map.get n.tree entry_key)

  count_found : ℤ → Bytes → Tree × Option (List ℤ) → Tree × ℕ
  count_found now entry_key (n, none) = (n, 0)
  count_found now entry_key (n, some dates_secs) =
      if length dates_secs == 0
      then (record n { tree = t.map.remove n.tree entry_key }, 0)
      else let dates_secs' = remove_expired now dates_secs in
        (record n { tree = t.map.put n.tree entry_key dates_secs' }, length dates_secs')

  unfoldable pub count : ℤ → Tree → Bytes → Tree × ℕ
  unfolding get_and_cleanup count_found remove_expired
  count now n entry_key = count_found now entry_key (get_and_cleanup n entry_key)

  or_empty : Option (List ℤ) → List ℤ
  or_empty none = []
  or_empty (some dates_secs) = dates_secs

  -- The clock is read in `removeExpired` and once more for the new entry.
  unfoldable pub put : ℤ → ℤ → Tree → Bytes → Tree
  unfolding get_and_cleanup or_empty remove_expired
  put now secs n entry_key =
      let (n', found) = get_and_cleanup n entry_key in
      let dates_secs = remove_expired now (or_empty found) in
      let next_dates_secs = dates_secs ++ (add64 secs n'.default_expire_after_secs ∷ []) in
      record n' { tree = t.map.put n'.tree entry_key next_dates_secs }

  -- The loop of `Keys`; `times k` is the clock when `k` is counted.
  count_keys : (Bytes → ℤ) → Tree → List Bytes → Tree × List Bytes × ℕ
  count_keys times n [] = (n, [], 0)
  count_keys times n (key ∷ keys_i) =
      let (n', key_count) = count (times key) n key in
      let (n'', out_keys, out_count) = count_keys times n' keys_i in
      (n'', if key_count == 0 then out_keys else key ∷ out_keys, key_count + out_count)

  unfoldable pub keys : (Bytes → ℤ) → Tree → Tree × List Bytes × ℕ
  unfolding count_keys
  keys times n = count_keys times n (t.map.keys n.tree)

  -- One round of `KeyMatch`: a key that matches is counted; is it returned?
  match_key : (Bytes → ℤ) → Tree → Bytes → Bool → Tree × Bool
  match_key times n k false = (n, false)
  match_key times n k true = let (n', c) = count (times k) n k in (n', ltb 0 c)

  -- The loop of `KeyMatch`, over the keys that the iterator visits, in order.
  match_keys : (Bytes → ℤ) → (Bytes → Bool) → Tree → List Bytes → Tree × List Bytes
  unfolding match_key
  match_keys times match_string n [] = (n, [])
  match_keys times match_string n (k ∷ ks) =
      let (n', matched) = match_key times n k (match_string k) in
      let (n'', out) = match_keys times match_string n' ks in
      (n'', if matched then k ∷ out else out)

  match_compiled : (Bytes → ℤ) → Tree → Bytes ⊎ (Bytes → Bool) → Tree × List Bytes
  match_compiled times n (inl err) = (n, err ∷ [])
  match_compiled times n (inr match_string) = match_keys times match_string n (t.map.keys n.tree)

  unfoldable pub key_match : Regexp → (Bytes → ℤ) → Tree → Bytes → Tree × List Bytes
  unfolding match_compiled match_keys
  key_match re times n key_pattern =
      match_compiled times n (re.compile (replace_star (bytes_of "(^|$|.+)") key_pattern))
