-- ===== src/Store/Puts.antt =====
-- store/store.go: `Put` adds one entry, and drops only entries that have expired.
use dracula.Maps.{RedBlackTree, HashMap}
use dracula.Tree
use dracula.Tree.{Tree, alive, new_tree}
use dracula.Prelude.Int.{ℤ, add64}
use dracula.Prelude.{
  bytes_eq_iff, inr, inl, Bool-cases, [], ◌∷◌, ◌++◌, none, ◌&&◌, bytes_eq, some, if◌then◌else◌,
  refl, sym, ◌≡◌, ◌∙◌, Option, Bytes,
}
use dracula.Store.{Store, put, subtree_or_new}
use dracula.Store.Views.{
  IsUniform, live, dates, dates-write_back, IsUniform-write_back, dates-found, dates-missing,
}
use dracula.Tree.Dates as TreeDates

module _ ⦃t : RedBlackTree⦄ ⦃h : HashMap⦄ where
  -- The tree that `Put` works on shows what the store shows, and has the store's time to live.
  subtree_dates :
      (s : Store) (ns : Bytes) (o : Option Tree)
      → IsUniform s
      → h.map.get s.namespaces ns ≡ o
      → ((k : Bytes) → TreeDates.dates (subtree_or_new s o) k ≡ dates s ns k)
        × ((subtree_or_new s o).default_expire_after_secs ≡ s.expire_after_secs)
  unfolding subtree_or_new new_tree
  subtree_dates s ns none u e =
      (λ k. TreeDates.dates-new_tree s.expire_after_secs k ∙ sym (dates-missing s ns k e), refl)
  subtree_dates s ns (some subtree) u e =
      (λ k. sym (dates-found s ns k subtree e), u.at ns subtree e)

  pub put-IsUniform :
      (now secs : ℤ) (s : Store) (ns k : Bytes) → IsUniform s → IsUniform (put now secs s ns k)
  unfolding put
  put-IsUniform now secs s ns k u =
      let subtree = subtree_or_new s (h.map.get s.namespaces ns) in
      let (_, expire) = subtree_dates s ns (h.map.get s.namespaces ns) u refl in
      IsUniform-write_back s ns (Tree.put now secs subtree k)
        (TreeDates.default-put now secs subtree k ∙ expire) u

  -- After `Put` the key has its unexpired entries and the new one; other keys are unchanged.
  pub dates-put :
      (now secs ttl : ℤ) (s : Store) (ns k ns' k' : Bytes)
      → s.expire_after_secs ≡ ttl
      → IsUniform s
      → dates (put now secs s ns k) ns' k' ≡ (
          if bytes_eq ns ns' && bytes_eq k k'
          then live now s ns k ++ (add64 secs ttl ∷ [])
          else dates s ns' k')
  unfolding put
  dates-put now secs ttl s ns k ns' k' expires u =
      let subtree = subtree_or_new s (h.map.get s.namespaces ns) in
      let (same, expire) = subtree_dates s ns (h.map.get s.namespaces ns) u refl in
      let subtree' = Tree.put now secs subtree k in
      let put_in_tree = TreeDates.dates-put now secs subtree k k' in
      elim (Bool-cases (bytes_eq ns ns')) [
        | inl e ↦ elim (Bool-cases (bytes_eq k k')) [
          | inl f ↦ rw (
            dates-write_back s ns subtree' ns' k',
            e,
            f,
            put_in_tree,
            f,
            same k,
            expire ∙ expires,
          )
          | inr f ↦ rw (
            dates-write_back s ns subtree' ns' k',
            e,
            f,
            put_in_tree,
            f,
            same k',
            (bytes_eq_iff ns ns').0 e,
          )
        ]
        | inr e ↦ rw (dates-write_back s ns subtree' ns' k', e)
      ]
