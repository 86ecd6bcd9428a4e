-- ===== src/Store/Cleanup.antt =====
-- store/store.go: `runCleanup` never changes what later readings show.
use dracula.Maps.{contains, RedBlackTree, HashMap}
use dracula.Tree
use dracula.Tree.{Tree, alive}
use dracula.Tree.Crawl.{contains-keys, live_at-keys, default-keys, live_at, keep_later, is_live}
use dracula.Prelude.Int.{◌≤ℤ◌, ℤ}
use dracula.Prelude.{
  zero, ◌/◌, suc, ℕ, Bool, keep, ◌∙◌, none, sym, ap, false, arith, refl, inr, true, ◌==◌, [], inl,
  some, Bool-cases, ◌≡◌, ◌∷◌, Option, length, Bytes, List,
}
use dracula.Store.{
  disable_cleanup, enable_cleanup, namespaces, finish_cleanup, candidates, fire_pending, Store,
  Tally, Times, run_cleanup, fire_cleanup, collect, collect_found, cleanup_when,
}
use dracula.Store.Views.{
  Refreshes-fields, dates-found, Refreshes-remove, Refreshes, Refreshes-refl, Refreshes-trans,
}
use dracula.Store.Refresh.{≤ℤ_trans, Before, Refreshes-counted}
use dracula.Tree.Dates as TreeDates

nil_of_length {ℓ} : {A : Type ℓ} (xs : List A) → (length xs == 0) ≡ true → xs ≡ []
nil_of_length [] h = refl
nil_of_length (x ∷ xs) h = ground arith

module _ ⦃t : RedBlackTree⦄ ⦃h : HashMap⦄ where
  -- A tree that lists no key shows nothing from then on.
  empty_tree :
      (times : Bytes → ℤ) (later : ℤ) (n : Tree) (k : Bytes)
      → (length (Tree.keys times n).1 == 0) ≡ true
      → times k ≤ℤ later
      → TreeDates.live later n k ≡ []
  unfolding contains
  empty_tree times later n k none_left le =
      let listed : contains k (Tree.keys times n).1 ≡ false =
        ap (contains k) (nil_of_length (Tree.keys times n).1 none_left) in
      let dead : is_live times n k ≡ false = sym (contains-keys times n k) ∙ listed in
      let gone : live_at times n k ≡ [] = nil_of_length (live_at times n k) (ground arith) in
      sym (keep_later (times k) later (TreeDates.dates n k) le) ∙ ap (keep (alive later)) gone

  Refreshes-collect_found :
      (last : ℤ) (times : Times) (s : Store) (a : Tally) (ns : Bytes) (o : Option Tree)
      → Before last times
      → h.map.get s.namespaces ns ≡ o
      → Refreshes last s (collect_found times s a ns o).0
  unfolding collect_found
  Refreshes-collect_found last times s a ns none b e = Refreshes-refl last s
  Refreshes-collect_found last times s a ns (some subtree) b e =
      elim (Bool-cases (length (Tree.keys (times ns) subtree).1 == 0)) [
        | inl none_left ↦ rw none_left (
            Refreshes-remove last s ns λ later k le. rw (dates-found s ns k subtree e) (
              empty_tree (times ns) later subtree k none_left
                (≤ℤ_trans (times ns k) last later (b ns k) le)))
        | inr some_left ↦ rw some_left (
            Refreshes-counted last times s ns subtree (Tree.keys (times ns) subtree).0 b e
              (default-keys (times ns) subtree) (live_at-keys (times ns) subtree))
      ]

  Refreshes-collect :
      (last : ℤ) (times : Times) (s : Store) (a : Tally) (rest : List Bytes)
      → Before last times
      → Refreshes last s (collect times s a rest).0
  unfolding collect
  Refreshes-collect last times s a [] b = Refreshes-refl last s
  Refreshes-collect last times s a (ns ∷ rest) b =
      let (s', a') = collect_found times s a ns (h.map.get s.namespaces ns) in
      Refreshes-trans (Refreshes-collect_found last times s a ns (h.map.get s.namespaces ns) b refl)
        (Refreshes-collect last times s' a' rest b)

  Refreshes-cleanup_when :
      (last : ℤ) (times : Times) (s : Store) (enabled : Bool)
      → Before last times
      → Refreshes last s (cleanup_when times s enabled).0
  unfolding cleanup_when
  Refreshes-cleanup_when last times s false b = Refreshes-refl last s
  Refreshes-cleanup_when last times s true b =
      let ks = h.map.keys s.namespaces in
      let none_yet : Tally = record { known_keys_count = 0; tally = 0; crawled_keys = [] } in
      let rest = candidates s ks (length ks / 2) in
      Refreshes-trans (Refreshes-collect last times s none_yet rest b) (
        Refreshes-fields last (collect times s none_yet rest).0
          (finish_cleanup (length ks) (collect times s none_yet rest)) refl refl)

  -- A collection whose readings of the clock are all at `last` or before changes nothing of what the
  -- store shows from `last` on, neither the expiry setting, nor that all trees have that setting.
  pub Refreshes-run_cleanup :
      (last : ℤ) (times : Times) (s : Store)
      → Before last times
      → Refreshes last s (run_cleanup times s).0
  unfolding run_cleanup
  Refreshes-run_cleanup last times s b =
      Refreshes-cleanup_when last times s s.cleanup_service_enabled b

  Refreshes-fire_pending :
      (last : ℤ) (times : Times) (s : Store) (pending : ℕ)
      → Before last times
      → Refreshes last s (fire_pending times s pending)
  unfolding fire_pending
  Refreshes-fire_pending last times s zero b = Refreshes-refl last s
  Refreshes-fire_pending last times s (suc others) b =
      let s' : Store = record s { pending_cleanups = others } in
      Refreshes-trans (Refreshes-fields last s s' refl refl) (Refreshes-run_cleanup last times s' b)

  pub Refreshes-fire_cleanup :
      (last : ℤ) (times : Times) (s : Store)
      → Before last times
      → Refreshes last s (fire_cleanup times s)
  unfolding fire_cleanup
  Refreshes-fire_cleanup last times s b = Refreshes-fire_pending last times s s.pending_cleanups b

  pub Refreshes-namespaces :
      (last : ℤ) (times : Times) (s : Store)
      → Before last times
      → Refreshes last s (namespaces times s).0
  unfolding namespaces
  Refreshes-namespaces last times s b = Refreshes-run_cleanup last times s b

  pub Refreshes-enable_cleanup : (last : ℤ) (s : Store) → Refreshes last s (enable_cleanup s)
  unfolding enable_cleanup
  Refreshes-enable_cleanup last s = Refreshes-fields last s (enable_cleanup s) refl refl

  pub Refreshes-disable_cleanup : (last : ℤ) (s : Store) → Refreshes last s (disable_cleanup s)
  unfolding disable_cleanup
  Refreshes-disable_cleanup last s = Refreshes-fields last s (disable_cleanup s) refl refl
