-- ===== src/Store/Timers.antt =====
-- store/store.go: how many runs of `runCleanup` are due. A run sets a timer for the next; `Namespaces`
-- makes such a run too, and so starts a chain of timers of its own.
use dracula.Maps.{RedBlackTree, HashMap}
use dracula.Tree
use dracula.Tree.{Tree, Regexp}
use dracula.Prelude.Int.{ℤ}
use dracula.Prelude.{
  add_assoc, add-zero, sum_map, keep, ap, sym, none, refl, subst, ◌==◌, ◌/◌, zero, arith, length,
  Bool-cases, inr, suc, [], some, inl, false, ◌+◌, Option, ◌∷◌, Option-cases, true, ◌≡◌, Bool, ℕ,
  Bytes, List,
}
use dracula.Store as Methods
use dracula.Store.{Store, Tally, Times, write_back}
use dracula.Store.History.{apply, Call}

-- The cleanup service is enabled, and so many runs are due.
pub record Due ⦃t : RedBlackTree⦄ ⦃h : HashMap⦄ (n : ℕ) (s : Store) : Type 0 where
  pub enabled : s.cleanup_service_enabled ≡ true
  pub pending : s.pending_cleanups ≡ n

abbrev pub starts_chain : Call → ℕ
starts_chain (Call.namespaces times) = 1
starts_chain _ = 0

abbrev pub disables : Call → Bool
disables Call.disable_cleanup = true
disables _ = false

module _ ⦃t : RedBlackTree⦄ ⦃h : HashMap⦄ where
  Due-put :
      (n : ℕ) (now secs : ℤ) (s : Store) (ns k : Bytes)
      → Due n s
      → Due n (Methods.put now secs s ns k)
  unfolding Methods.put
  Due-put n now secs s ns k d = record { enabled = d.enabled; pending = d.pending }

  Due-count :
      (n : ℕ) (now : ℤ) (s : Store) (ns k : Bytes) → Due n s → Due n (Methods.count now s ns k).0
  unfolding Methods.count
  Due-count n now s ns k d = elim (Option-cases (h.map.get s.namespaces ns)) [
    | inl e ↦ rw (e, Methods.count_found) d
    | inr (subtree, e) ↦
        rw (e, Methods.count_found) (record { enabled = d.enabled; pending = d.pending })
  ]

  Due-count_entries :
      (n : ℕ) (times : Times) (s : Store) (ns : Bytes)
      → Due n s
      → Due n (Methods.count_entries times s ns).0
  unfolding Methods.count_entries
  Due-count_entries n times s ns d = elim (Option-cases (h.map.get s.namespaces ns)) [
    | inl e ↦ rw (e, Methods.entries_found) d
    | inr (subtree, e) ↦
        rw (e, Methods.entries_found) (record { enabled = d.enabled; pending = d.pending })
  ]

  Due-key_match :
      (re : Regexp) (n : ℕ) (times : Times) (s : Store) (ns pattern : Bytes)
      → Due n s
      → Due n (Methods.key_match re times s ns pattern).0
  unfolding Methods.key_match
  Due-key_match re n times s ns pattern d = elim (Option-cases (h.map.get s.namespaces ns)) [
    | inl e ↦ rw (e, Methods.match_found) d
    | inr (subtree, e) ↦
        rw (e, Methods.match_found) (record { enabled = d.enabled; pending = d.pending })
  ]

  Due-count_spaces :
      (n : ℕ) (times : Times) (s : Store) (spaces : List Bytes)
      → Due n s
      → Due n (Methods.count_spaces times s spaces).0
  unfolding Methods.count_spaces
  Due-count_spaces n times s [] d = d
  Due-count_spaces n times s (ns ∷ spaces) d =
      Due-count_spaces n times (Methods.count_entries times s ns).0 spaces
        (Due-count_entries n times s ns d)

  Due-collect_found :
      (n : ℕ) (times : Times) (s : Store) (a : Tally) (ns : Bytes) (o : Option Tree)
      → Due n s
      → Due n (Methods.collect_found times s a ns o).0
  unfolding Methods.collect_found
  Due-collect_found n times s a ns none d = d
  Due-collect_found n times s a ns (some subtree) d =
      elim (Bool-cases (length (Tree.keys (times ns) subtree).1 == 0)) [
        | inl e ↦ rw e (record { enabled = d.enabled; pending = d.pending })
        | inr e ↦ rw e (record { enabled = d.enabled; pending = d.pending })
      ]

  Due-collect :
      (n : ℕ) (times : Times) (s : Store) (a : Tally) (rest : List Bytes)
      → Due n s
      → Due n (Methods.collect times s a rest).0
  unfolding Methods.collect
  Due-collect n times s a [] d = d
  Due-collect n times s a (ns ∷ rest) d =
      let o = h.map.get s.namespaces ns in
      let (s', a') = Methods.collect_found times s a ns o in
      Due-collect n times s' a' rest (Due-collect_found n times s a ns o d)

  -- While the service is enabled, a run makes one more run due.
  Due-run_cleanup :
      (n : ℕ) (times : Times) (s : Store) → Due n s → Due (n + 1) (Methods.run_cleanup times s).0
  unfolding Methods.run_cleanup
  Due-run_cleanup n times s d =
      let ks = h.map.keys s.namespaces in
      let none_yet : Tally = record { known_keys_count = 0; tally = 0; crawled_keys = [] } in
      let rest = Methods.candidates s ks (length ks / 2) in
      let d' = Due-collect n times s none_yet rest d in
      subst (λ b. Due (n + 1) (Methods.cleanup_when times s b).0) (sym d.enabled)
        (record { enabled = d'.enabled; pending = ap (λ m. m + 1) d'.pending })

  Due-fire_pending :
      (n : ℕ) (times : Times) (s : Store) (pending : ℕ)
      → s.pending_cleanups ≡ pending
      → Due n s
      → Due n (Methods.fire_pending times s pending)
  unfolding Methods.fire_pending
  Due-fire_pending n times s zero e d = d
  Due-fire_pending n times s (suc others) e d =
      let s' : Store = record s { pending_cleanups = others } in
      let d' = Due-run_cleanup others times s' (record { enabled = d.enabled; pending = refl }) in
      record { enabled = d'.enabled; pending = omega (arith, d'.pending, e, d.pending) }

  module _ (re : Regexp) where
    Due-apply :
        (n : ℕ) (s : Store) (c : Call)
        → disables c ≡ false
        → Due n s
        → Due (n + starts_chain c) (apply re s c)
    unfolding apply
    Due-apply n s (Call.put now secs ns k) e d = rw add-zero (Due-put n now secs s ns k d)
    Due-apply n s (Call.count now ns k) e d = rw add-zero (Due-count n now s ns k d)
    Due-apply n s (Call.count_entries times ns) e d = rw add-zero (Due-count_entries n times s ns d)
    Due-apply n s (Call.key_match times ns pattern) e d =
        rw add-zero (Due-key_match re n times s ns pattern d)
    Due-apply n s (Call.count_server_entries times) e d = rw add-zero (
        unfold Methods.count_server_entries in
        Due-count_spaces n times s (h.map.keys s.namespaces) d)
    Due-apply n s (Call.namespaces times) e d =
        unfold Methods.namespaces in Due-run_cleanup n times s d
    Due-apply n s (Call.fire_cleanup times) e d =
        rw add-zero
          (unfold Methods.fire_cleanup in Due-fire_pending n times s s.pending_cleanups refl d)
    Due-apply n s Call.enable_cleanup e d =
        rw add-zero
          (unfold Methods.enable_cleanup in record { enabled = refl; pending = d.pending })
    Due-apply n s Call.disable_cleanup e d = cc

    pub run_calls : Store → List Call → Store
    run_calls s [] = s
    run_calls s (c ∷ cs) = run_calls (apply re s c) cs

    Due-run_calls :
        (cs : List Call) (n : ℕ) (s : Store)
        → keep disables cs ≡ []
        → Due n s
        → Due (n + sum_map starts_chain cs) (run_calls s cs)
    unfolding run_calls
    Due-run_calls [] n s e d = rw add-zero d
    Due-run_calls (c ∷ cs) n s e d = elim (Bool-cases (disables c)) [
      | inl yes' ↦ absurd (ground arith)
      | inr no' ↦ rw (← add_assoc n (starts_chain c) (sum_map starts_chain cs)) (
          Due-run_calls cs (n + starts_chain c) (apply re s c) (ground arith)
            (Due-apply n s c no' d))
    ]

    -- On a new store whose cleanup is never disabled, the runs of `runCleanup` that are due after any
    -- calls are one and one more for every call of `Namespaces`; runs that are made leave as many.
    pub pending-run_calls :
        (ttl : ℤ) (cs : List Call)
        → keep disables cs ≡ []
        → (run_calls (Methods.new_store ttl) cs).pending_cleanups ≡ 1 + sum_map starts_chain cs
    unfolding Methods.new_store
    pending-run_calls ttl cs e =
        (Due-run_calls cs 1 (Methods.new_store ttl) e
          (record { enabled = refl; pending = refl })).pending
