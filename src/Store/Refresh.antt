-- ===== src/Store/Refresh.antt =====
-- store/store.go: reading and collecting never changes what later readings show.
use dracula.Tree.Dates.{default-count}
use dracula.Maps.{RedBlackTree, HashMap}
use dracula.Tree
use dracula.Tree.{Regexp, Tree, alive}
use dracula.Tree.Crawl.{
  live_at-keys, key_match_same, default-keys, live_at, live_later, live_at-count,
}
use dracula.Prelude.Int.{◌≤ℤ◌, ℤ}
use dracula.Prelude.{inr, [], inl, some, ◌∷◌, Option-cases, ◌≡◌, arith, Bytes, List}
use dracula.Store.{
  match_found, entries_found, count_found, Regexp, count_server_entries, count_spaces, key_match,
  count_entries, count, Times, Store, write_back,
}
use dracula.Store.Views.{Refreshes-write_back, Refreshes, Refreshes-refl, Refreshes-trans}

-- Every reading of the clock is at `last` or before.
abbrev pub Before : ℤ → Times → Type 0
Before last times = (ns k : Bytes) → times ns k ≤ℤ last

pub ≤ℤ_trans : (a b c : ℤ) → a ≤ℤ b → b ≤ℤ c → a ≤ℤ c
≤ℤ_trans a b c h k = omega arith

module _ ⦃t : RedBlackTree⦄ ⦃h : HashMap⦄ where
  pub Refreshes-later :
      {now last : ℤ} {s s' : Store} → now ≤ℤ last → Refreshes now s s' → Refreshes last s s'
  Refreshes-later {now} {last} le r = record {
    same = λ later ns k le'. r.same later ns k (≤ℤ_trans now last later le le');
    expire = r.expire;
    uniform = r.uniform;
  }

  -- A tree whose keys show the same at the times when they were counted.
  pub Refreshes-counted :
      (last : ℤ) (times : Times) (s : Store) (ns : Bytes) (subtree subtree' : Tree)
      → Before last times
      → h.map.get s.namespaces ns ≡ some subtree
      → subtree'.default_expire_after_secs ≡ subtree.default_expire_after_secs
      → ((k : Bytes) → live_at (times ns) subtree' k ≡ live_at (times ns) subtree k)
      → Refreshes last s (write_back s ns subtree')
  Refreshes-counted last times s ns subtree subtree' bounded found expire same =
      Refreshes-write_back last s ns subtree subtree' found expire λ later k le.
        live_later (times ns k) later subtree subtree' k
          (≤ℤ_trans (times ns k) last later (bounded ns k) le) (same k)

  pub Refreshes-count : (now : ℤ) (s : Store) (ns k : Bytes) → Refreshes now s (count now s ns k).0
  unfolding count
  Refreshes-count now s ns k = elim (Option-cases (h.map.get s.namespaces ns)) [
    | inl e ↦ rw (e, count_found) (Refreshes-refl now s)
    | inr (subtree, e) ↦
        rw (e, count_found)
          (Refreshes-counted now (λ _ _. now) s ns subtree (Tree.count now subtree k).0
            (λ _ _. omega arith) e (default-count now subtree k)
            (live_at-count (λ _. now) subtree k))
  ]

  pub Refreshes-count_entries :
      (last : ℤ) (times : Times) (s : Store) (ns : Bytes)
      → Before last times
      → Refreshes last s (count_entries times s ns).0
  unfolding count_entries
  Refreshes-count_entries last times s ns b = elim (Option-cases (h.map.get s.namespaces ns)) [
    | inl e ↦ rw (e, entries_found) (Refreshes-refl last s)
    | inr (subtree, e) ↦
        rw (e, entries_found)
          (Refreshes-counted last times s ns subtree (Tree.keys (times ns) subtree).0 b e
            (default-keys (times ns) subtree) (live_at-keys (times ns) subtree))
  ]

  pub Refreshes-key_match :
      (re : Regexp) (last : ℤ) (times : Times) (s : Store) (ns pattern : Bytes)
      → Before last times
      → Refreshes last s (key_match re times s ns pattern).0
  unfolding key_match
  Refreshes-key_match re last times s ns pattern b =
      elim (Option-cases (h.map.get s.namespaces ns)) [
        | inl e ↦ rw (e, match_found) (Refreshes-refl last s)
        | inr (subtree, e) ↦
            let (same, expire) = key_match_same (times ns) re subtree pattern in
            rw (e, match_found)
              (Refreshes-counted last times s ns subtree
                (Tree.key_match re (times ns) subtree pattern).0 b e expire same)
      ]

  Refreshes-count_spaces :
      (last : ℤ) (times : Times) (s : Store) (spaces : List Bytes)
      → Before last times
      → Refreshes last s (count_spaces times s spaces).0
  unfolding count_spaces
  Refreshes-count_spaces last times s [] b = Refreshes-refl last s
  Refreshes-count_spaces last times s (ns ∷ spaces) b =
      Refreshes-trans (Refreshes-count_entries last times s ns b)
        (Refreshes-count_spaces last times (count_entries times s ns).0 spaces b)

  pub Refreshes-count_server_entries :
      (last : ℤ) (times : Times) (s : Store)
      → Before last times
      → Refreshes last s (count_server_entries times s).0
  unfolding count_server_entries
  Refreshes-count_server_entries last times s b =
      Refreshes-count_spaces last times s (h.map.keys s.namespaces) b
