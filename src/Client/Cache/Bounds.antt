-- ===== src/Client/Cache/Bounds.antt =====
-- client/waitingmessage/waitingmessage.go: the identifiers that wait, and what they are up to.
use dracula.Prelude.Int.{ℤ}
use dracula.Client.Cache.{remove_these_keys, find, delete, ◌∷◌, ResponseCache, Waiting, time_out}
use dracula.Prelude.{
  if-either, inr, inl, none, ◌==◌, [], Bool-cases, arith, ◌<◌, ◌≤◌, List, ℕ, refl, ◌≡◌,
}
use dracula.Client.Cache as Cache

module _ {C : Type 0} where
  abbrev pub UpTo : ℕ → List (Waiting C) → Type 0
  UpTo n [] = Unit
  UpTo n (e ∷ es) = (e.message_id ≤ n) × UpTo n es

  pub UpTo-mono : (m n : ℕ) (es : List (Waiting C)) → m ≤ n → UpTo m es → UpTo n es
  UpTo-mono m n [] h u = tt
  UpTo-mono m n (e ∷ es) h (k, u) = (omega arith, UpTo-mono m n es h u)

  pub UpTo-delete : (n id : ℕ) (es : List (Waiting C)) → UpTo n es → UpTo n (delete id es)
  UpTo-delete n id [] u = tt
  UpTo-delete n id (e ∷ es) (k, u) = elim (Bool-cases (e.message_id == id)) [
    | inl here ↦ rw here (UpTo-delete n id es u)
    | inr there ↦ rw there (k, UpTo-delete n id es u)
  ]

  pub find-UpTo : (n id : ℕ) (es : List (Waiting C)) → UpTo n es → n < id → find id es ≡ none
  find-UpTo n id [] u h = refl
  find-UpTo n id (e ∷ es) (k, u) h = ground (arith, find-UpTo n id es u h)

  UpTo-time_out :
      (n : ℕ) (ids : List ℕ) (rc : ResponseCache C)
      → UpTo n rc.cache
      → UpTo n (time_out ids rc).0.cache
  unfolding time_out
  UpTo-time_out n [] rc u = u
  UpTo-time_out n (id ∷ ids) rc u =
      UpTo-time_out n ids (record rc { cache = delete id rc.cache }) (UpTo-delete n id rc.cache u)

  pub UpTo-check_cleanup :
      (n : ℕ) (now : ℤ) (order : List ℕ) (rc : ResponseCache C)
      → UpTo n rc.cache
      → UpTo n (Cache.check_cleanup now order rc).0.cache
  unfolding Cache.check_cleanup
  UpTo-check_cleanup n now order rc u =
      if-either (λ x. UpTo n x.0.cache) rc.disposed (rc, [])
        (time_out (remove_these_keys now order rc) rc) (λ _. u)
        (λ _. UpTo-time_out n (remove_these_keys now order rc) rc u)
