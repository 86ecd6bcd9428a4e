-- ===== src/Client/Cache/Entries.antt =====
-- client/waitingmessage/waitingmessage.go: the map of the cache, as a list of its entries.
use dracula.Prelude.{
  Bool, Bool-cases, List, arith, length, none, ◌++◌, ◌+◌, ◌≡◌, [], ◌∷◌, inl, inr, refl, ap, keep,
  keep-append, length-append, map, ℕ, ◌==◌,
}
use dracula.Client.Cache.{Waiting, find, delete, callback_of}

module _ {C : Type 0} where
  -- No key twice.
  abbrev pub IsMap : List (Waiting C) → Type 0
  IsMap [] = Unit
  IsMap (e ∷ es) = (find e.message_id es ≡ none) × IsMap es

  find-none-delete :
      (id j : ℕ) (es : List (Waiting C)) → find j es ≡ none → find j (delete id es) ≡ none
  find-none-delete id j [] h = refl
  find-none-delete id j (e ∷ es) h = ground (arith, find-none-delete id j es)

  pub IsMap-delete : (id : ℕ) (es : List (Waiting C)) → IsMap es → IsMap (delete id es)
  IsMap-delete id [] u = tt
  IsMap-delete id (e ∷ es) (new, u) = elim (Bool-cases (e.message_id == id)) [
    | inl here ↦ rw here (IsMap-delete id es u)
    | inr there ↦ rw there (find-none-delete id e.message_id es new, IsMap-delete id es u)
  ]

  pub delete_absent : (id : ℕ) (es : List (Waiting C)) → find id es ≡ none → delete id es ≡ es
  delete_absent id [] h = refl
  delete_absent id (e ∷ es) h = ground (arith, delete_absent id es)

  -- How many of the callbacks pass a test.
  abbrev pub tally : (C → Bool) → List C → ℕ
  tally p cbs = length (keep p cbs)

  abbrev pub callbacks : List (Waiting C) → List C
  callbacks es = map (λ e. e.callback) es

  pub tally-append : (p : C → Bool) (xs ys : List C) → tally p (xs ++ ys) ≡ tally p xs + tally p ys
  tally-append p xs ys =
      omega (arith, ap length (keep-append p xs ys), length-append (keep p xs) (keep p ys))

  -- A key that is deleted takes its one callback with it.
  pub tally-delete :
      (p : C → Bool) (id : ℕ) (es : List (Waiting C))
      → IsMap es
      → tally p (callbacks es)
        ≡ tally p (callbacks (delete id es)) + tally p (callback_of (find id es))
  unfolding callback_of
  tally-delete p id [] u = refl
  tally-delete p id (e ∷ es) (new, u) = elim (Bool-cases (e.message_id == id)) [
    | inl here ↦
        let gone : delete id es ≡ es = delete_absent id es (ground (arith, new, here)) in
        rw (here, gone) (ground arith)
    | inr there ↦ rw there (ground (arith, tally-delete p id es u))
  ]
