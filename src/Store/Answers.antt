-- ===== src/Store/Answers.antt =====
-- store/store.go: what `Count` and `CountEntries` return.
use dracula.Tree.Dates.{dates_absent}
use dracula.Tree.Crawl.{total-keys}
use dracula.Maps.{contains, distinct, RedBlackTree, HashMap}
use dracula.Tree.{alive}
use dracula.Prelude.Int.{ℤ}
use dracula.Prelude.{
  refl, keep, ap, ◌∙◌, sym, fun_ext, [], false, inr, inl, true, Option-cases, sum_map, length, ◌≡◌,
  Bytes, List,
}
use dracula.Store.{Store, Times, count, count_entries, count_found, entries_found}
use dracula.Store.Views.{live, dates, dates-found, dates-missing}
use dracula.Tree.Dates as TreeDates

-- All readings of a call fall in one second.
abbrev pub at_once : ℤ → Times
at_once now ns k = now

module _ ⦃t : RedBlackTree⦄ ⦃h : HashMap⦄ where
  pub count-live :
      (now : ℤ) (s : Store) (ns k : Bytes) → (count now s ns k).1 ≡ length (live now s ns k)
  unfolding count
  count-live now s ns k = elim (Option-cases (h.map.get s.namespaces ns)) [
    | inl e ↦ rw (e, count_found, dates-missing s ns k e)
    | inr (subtree, e) ↦
        rw (e, count_found, dates-found s ns k subtree e) (TreeDates.count-live now subtree k)
  ]

  -- `CountEntries` adds up the unexpired entries of keys that it counts once each, and that are all
  -- the keys of the namespace with an unexpired entry.
  pub count_entries-live :
      (now : ℤ) (s : Store) (ns : Bytes)
      → (ks : List Bytes) × ((count_entries (at_once now) s ns).1
          ≡ sum_map (λ k. length (live now s ns k)) ks)
        × (distinct ks ≡ true)
        × ((k : Bytes) → contains k ks ≡ false → live now s ns k ≡ [])
  unfolding count_entries distinct
  count_entries-live now s ns = elim (Option-cases (h.map.get s.namespaces ns)) [
    | inl e ↦ ([], rw (e, entries_found), refl, λ k missing. rw (dates-missing s ns k e))
    | inr (subtree, e) ↦
        let same : (λ k. TreeDates.dates subtree k) ≡ (λ k. dates s ns k) =
          fun_ext (λ k. sym (dates-found s ns k subtree e)) in
        (
          t.map.keys subtree.tree,
          rw (e, entries_found)
              (total-keys (λ _. now) subtree
                ∙ ap
                    (λ (f : Bytes → List ℤ).
                      sum_map (λ k. length (keep (alive now) (f k))) (t.map.keys subtree.tree))
                    same),
          t.map.distinct-keys subtree.tree,
          λ k missing. rw (dates-found s ns k subtree e, dates_absent subtree k missing),
        )
  ]
