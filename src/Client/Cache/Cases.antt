-- ===== src/Client/Cache/Cases.antt =====
-- client/waitingmessage/waitingmessage.go: the branches of `Add` and `Pull`.
use dracula.Client.Cache.Entries.{delete_absent}
use dracula.Prelude.{
  if-either, [], List, refl, true, ◌==◌, inr, Option-cases, some, ==_refl, inl, ◌∷◌, if◌then◌else◌,
  none, ◌⊎◌, ◌≡◌, ℕ,
}
use dracula.Prelude.Int.{ℤ}
use dracula.Client.Cache.{
  remove_these_keys, time_out, delete, message_expired, message_id_exists, no_message, is_expired,
  CacheError, find, Waiting, ResponseCache,
}
use dracula.Client.Cache as Methods

module _ {C : Type 0} where
  abbrev pub entry : ℤ → ℕ → C → Waiting C
  entry now id cb = record { message_id = id; callback = cb; created_secs = now }

  pub add-cases :
      (now : ℤ) (id : ℕ) (cb : C) (rc : ResponseCache C)
      → (find id rc.cache ≡ none)
          × (Methods.add now id cb rc ≡ (record rc { cache = entry now id cb ∷ rc.cache }, none))
        ⊎ ((w : Waiting C) × (find id rc.cache ≡ some w)
            × (Methods.add now id cb rc ≡ (rc, some message_id_exists)))
  unfolding Methods.add
  add-cases now id cb rc = elim (Option-cases (find id rc.cache)) [
    | inl e ↦ inl (e, rw (e, Methods.add_found))
    | inr (w, e) ↦ inr (w, e, rw (e, Methods.add_found))
  ]

  -- What `Pull` returns for an entry.
  abbrev pub pulled_entry : ℤ → ResponseCache C → Waiting C → CacheError ⊎ C
  pulled_entry now rc w = if is_expired now rc w then inl message_expired else inr w.callback

  pub pull-cases :
      (now : ℤ) (id : ℕ) (rc : ResponseCache C)
      → (find id rc.cache ≡ none) × (Methods.pull now id rc ≡ (rc, inl no_message))
        ⊎ ((w : Waiting C) × (find id rc.cache ≡ some w)
            × (Methods.pull now id rc
                ≡ (record rc { cache = delete id rc.cache }, pulled_entry now rc w)))
  unfolding Methods.pull
  pull-cases now id rc = elim (Option-cases (find id rc.cache)) [
    | inl e ↦ inl (e, rw (e, Methods.pull_found))
    | inr (w, e) ↦ inr (w, e, rw (e, Methods.pull_found))
  ]

  -- To take back what was just added.
  pub pull-added :
      (add_now pull_now : ℤ) (id : ℕ) (cb : C) (rc : ResponseCache C)
      → find id rc.cache ≡ none
      → Methods.pull pull_now id (record rc { cache = entry add_now id cb ∷ rc.cache })
        ≡ (rc, pulled_entry pull_now rc (entry add_now id cb))
  unfolding Methods.pull
  pull-added add_now pull_now id cb rc new =
      let here : ((entry add_now id cb).message_id == id) ≡ true = ==_refl id in
      rw (here, Methods.pull_found, here, delete_absent id rc.cache new)

  time_out-disposed :
      (ids : List ℕ) (rc : ResponseCache C) → (time_out ids rc).0.disposed ≡ rc.disposed
  unfolding time_out
  time_out-disposed [] rc = refl
  time_out-disposed (id ∷ ids) rc = time_out-disposed ids (record rc { cache = delete id rc.cache })

  pub check_cleanup-disposed :
      (now : ℤ) (order : List ℕ) (rc : ResponseCache C)
      → (Methods.check_cleanup now order rc).0.disposed ≡ rc.disposed
  unfolding Methods.check_cleanup
  check_cleanup-disposed now order rc =
      if-either (λ x. x.0.disposed ≡ rc.disposed) rc.disposed (rc, [])
        (time_out (remove_these_keys now order rc) rc) (λ _. refl)
        (λ _. time_out-disposed (remove_these_keys now order rc) rc)
