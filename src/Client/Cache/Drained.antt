-- ===== src/Client/Cache/Drained.antt =====
-- client/waitingmessage/waitingmessage.go: the cleanups reach every callback that has expired.
use dracula.Client.Cache.Ledger.{check_cleanup-Balanced}
use dracula.Client.Cache.Ledger as Ledger
use dracula.Client.Cache.Entries.{tally-append, IsMap, callbacks, tally}
use dracula.Prelude.Int.{sub64, ltb_ℤ, ℤ}
use dracula.Client.Cache.{remove_these_keys, delete, find, Waiting, ResponseCache, time_out}
use dracula.Prelude.{
  ℕ-cases, if-either, Bool, ◌++◌, if◌then◌else◌, zero, ◌/◌, keep, suc, take, sym, subst, inr,
  if-cases, inl, true, ◌==◌, some, [], Bool-cases, ◌+◌, ◌∷◌, false, arith, ◌≤◌, length, List, ℕ,
  refl, ◌≡◌, ap, ◌∙◌,
}
use dracula.Client.Cache as Methods

take-first : (k id : ℕ) (ids : List ℕ) → take (k + 1) (id ∷ ids) ≡ id ∷ take k ids
take-first k id ids = let next : k + 1 ≡ suc k = omega arith in ap (λ n. take n (id ∷ ids)) next

module _ {C : Type 0} where
  -- All entries have expired, for a timeout of the cache.
  abbrev pub Late : ℤ → ℤ → List (Waiting C) → Type 0
  Late now timeout_secs [] = Unit
  Late now timeout_secs (e ∷ es) =
      (ltb_ℤ e.created_secs (sub64 now timeout_secs) ≡ true) × Late now timeout_secs es

  find-Late :
      (now t : ℤ) (id : ℕ) (es : List (Waiting C)) (w : Waiting C)
      → Late now t es
      → find id es ≡ some w
      → ltb_ℤ w.created_secs (sub64 now t) ≡ true
  find-Late now t id [] w l e = absurd (cc)
  find-Late now t id (x ∷ es) w (late, l) e =
      elim (if-cases (x.message_id == id) (some x) (find id es) (some w) e) [
        | inl (_, e') ↦
            let same : x ≡ w = cc in
            subst (λ y. ltb_ℤ y.created_secs (sub64 now t) ≡ true) same late
        | inr (_, e') ↦ find-Late now t id es w l e'
      ]

  delete-Late :
      (now t : ℤ) (id : ℕ) (es : List (Waiting C)) → Late now t es → Late now t (delete id es)
  delete-Late now t id [] l = tt
  delete-Late now t id (x ∷ es) (late, l) = elim (Bool-cases (x.message_id == id)) [
    | inl here ↦ rw here (delete-Late now t id es l)
    | inr there ↦ rw there (late, delete-Late now t id es l)
  ]

  length-delete : (id : ℕ) (es : List (Waiting C)) → length (delete id es) ≤ length es
  length-delete id [] = omega arith
  length-delete id (x ∷ es) = ground (arith, length-delete id es)

  length-delete_found :
      (id : ℕ) (es : List (Waiting C)) (w : Waiting C)
      → find id es ≡ some w
      → 1 + length (delete id es) ≤ length es
  length-delete_found id [] w e = absurd (cc)
  length-delete_found id (x ∷ es) w e = elim (Bool-cases (x.message_id == id)) [
    | inl here ↦ rw here (omega (arith, length-delete id es))
    | inr there ↦ rw there (omega (arith, length-delete_found id es w (rw there at e)))
  ]

  -- What is left after some keys are timed out.
  pub record IsLeft (now : ℤ) (rc rc' : ResponseCache C) : Type 0 where
    pub late : Late now rc.timeout_secs rc'.cache
    pub timeout_secs : rc'.timeout_secs ≡ rc.timeout_secs
    pub disposed : rc'.disposed ≡ rc.disposed
    pub shorter : length rc'.cache ≤ length rc.cache

  time_out-IsLeft :
      (now : ℤ) (ids : List ℕ) (rc : ResponseCache C)
      → Late now rc.timeout_secs rc.cache
      → IsLeft now rc (time_out ids rc).0
  unfolding time_out
  time_out-IsLeft now [] rc l = record {
    late = l;
    timeout_secs = refl;
    disposed = refl;
    shorter = omega arith;
  }
  time_out-IsLeft now (id ∷ ids) rc l =
      let rest : ResponseCache C = record rc { cache = delete id rc.cache } in
      let left = time_out-IsLeft now ids rest (delete-Late now rc.timeout_secs id rc.cache l) in
      record {
        late = left.late;
        timeout_secs = left.timeout_secs;
        disposed = left.disposed;
        shorter = omega (arith, left.shorter, length-delete id rc.cache);
      }

  -- The order in which `range` visits the map begins with a key of it, if there is one.
  abbrev pub Visits : (ResponseCache C → List ℕ) → Type 0
  Visits order =
      (rc : ResponseCache C)
      → 1 ≤ length rc.cache
      → (id : ℕ) × (ids : List ℕ) × (w : Waiting C) × (order rc ≡ id ∷ ids)
        × (find id rc.cache ≡ some w)

  remove_these_keys-first :
      (now : ℤ) (id : ℕ) (ids : List ℕ) (rc : ResponseCache C) (w : Waiting C)
      → Late now rc.timeout_secs rc.cache
      → find id rc.cache ≡ some w
      → (ids' : List ℕ) × (remove_these_keys now (id ∷ ids) rc ≡ id ∷ ids')
  unfolding remove_these_keys
  remove_these_keys-first now id ids rc w l found =
      let late : Methods.should_cleanup now rc (find id rc.cache) ≡ true =
        rw found
          (unfold Methods.should_cleanup in find-Late now rc.timeout_secs id rc.cache w l found) in
      let test : ℕ → Bool = λ i. Methods.should_cleanup now rc (find i rc.cache) in
      (
        keep test (take (Methods.len rc / 3) ids),
        ap (keep test) (take-first (Methods.len rc / 3) id ids) ∙ rw late,
      )

  check_cleanup-less :
      (now : ℤ) (order : ResponseCache C → List ℕ) (rc : ResponseCache C)
      → Visits order
      → Late now rc.timeout_secs rc.cache
      → rc.disposed ≡ false
      → 1 ≤ length rc.cache
      → let rc' = (Methods.check_cleanup now (order rc) rc).0 in
        IsLeft now rc rc' × (1 + length rc'.cache ≤ length rc.cache)
  unfolding Methods.check_cleanup time_out
  check_cleanup-less now order rc visits l open' some_left =
      let (id, ids, w, first, found) = visits rc some_left in
      let (ids', keys) = remove_these_keys-first now id ids rc w l found in
      let rest : ResponseCache C = record rc { cache = delete id rc.cache } in
      let left = time_out-IsLeft now ids' rest (delete-Late now rc.timeout_secs id rc.cache l) in
      let none_sent : List C = [] in
      let swept : (Methods.check_cleanup now (order rc) rc).0 ≡ (time_out ids' rest).0 =
        ap
          (λ b.
            (if b then (rc, none_sent) else time_out (remove_these_keys now (order rc) rc) rc).0)
          open'
        ∙ ap (λ ks. (time_out ks rc).0) (ap (λ o. remove_these_keys now o rc) first ∙ keys) in
      subst (λ x. IsLeft now rc x × (1 + length x.cache ≤ length rc.cache)) (sym swept)
        (
          record {
            late = left.late;
            timeout_secs = left.timeout_secs;
            disposed = left.disposed;
            shorter = omega (arith, left.shorter, length-delete id rc.cache);
          },
          omega (arith, left.shorter, length-delete_found id rc.cache w found),
        )

  -- Cleanups one after another, with what they send.
  unfoldable pub cleanups :
      ℕ → ℤ → (ResponseCache C → List ℕ) → ResponseCache C → ResponseCache C × List C
  cleanups zero now order rc = (rc, [])
  cleanups (suc n) now order rc =
      let (rc', cbs) = Methods.check_cleanup now (order rc) rc in
      let (rc'', cbs') = cleanups n now order rc' in (rc'', cbs ++ cbs')

  -- A cleanup, where all have expired.
  check_cleanup-IsLeft :
      (now : ℤ) (order : List ℕ) (rc : ResponseCache C)
      → Late now rc.timeout_secs rc.cache
      → IsLeft now rc (Methods.check_cleanup now order rc).0
  unfolding Methods.check_cleanup
  check_cleanup-IsLeft now order rc l =
      if-either (λ x. IsLeft now rc x.0) rc.disposed (rc, [])
        (time_out (remove_these_keys now order rc) rc)
        (λ _. record { late = l; timeout_secs = refl; disposed = refl; shorter = omega arith })
        (λ _. time_out-IsLeft now (remove_these_keys now order rc) rc l)

  check_cleanup-shorter :
      (n : ℕ) (now : ℤ) (order : ResponseCache C → List ℕ) (rc : ResponseCache C)
      → Visits order
      → Late now rc.timeout_secs rc.cache
      → rc.disposed ≡ false
      → length rc.cache ≤ suc n
      → length (Methods.check_cleanup now (order rc) rc).0.cache ≤ n
  check_cleanup-shorter n now order rc visits l open' h = elim (ℕ-cases (length rc.cache)) [
    | inl none_left ↦ omega (arith, (check_cleanup-IsLeft now (order rc) rc l).shorter)
    | inr (k, more) ↦
        omega (arith, (check_cleanup-less now order rc visits l open' (omega arith)).1)
  ]

  empty : (es : List (Waiting C)) → length es ≤ 0 → es ≡ []
  empty [] h = refl
  empty (e ∷ es) h = absurd (omega arith)

  pub record IsDrained (rc : ResponseCache C) (r : ResponseCache C × List C) : Type 0 where
    pub empty : r.0.cache ≡ []
    pub sent : (p : C → Bool) → tally p r.1 ≡ tally p (callbacks rc.cache)

  -- When all callbacks that wait have expired, then after as many cleanups as callbacks, or more, none waits
  -- any more, and each has been sent once as timed out, as often for the callbacks that pass any test. The
  -- order in which the map is visited is any that begins with a key of it; the clock may stand still. No
  -- identifier waits twice, and the cache is not disposed of.
  pub cleanups-IsDrained :
      (n : ℕ) (now : ℤ) (order : ResponseCache C → List ℕ) (rc : ResponseCache C)
      → Visits order
      → Late now rc.timeout_secs rc.cache
      → IsMap rc.cache
      → rc.disposed ≡ false
      → length rc.cache ≤ n
      → IsDrained rc (cleanups n now order rc)
  unfolding cleanups Ledger.step
  cleanups-IsDrained zero now order rc visits l u open' h =
      let none_left = empty rc.cache h in
      record { empty = none_left; sent = λ p. ap (λ es. tally p (callbacks es)) (sym none_left) }
  cleanups-IsDrained (suc n) now order rc visits l u open' h =
      let (rc', cbs) = Methods.check_cleanup now (order rc) rc in
      let left = check_cleanup-IsLeft now (order rc) rc l in
      let late : Late now rc'.timeout_secs rc'.cache =
        subst (λ t. Late now t rc'.cache) (sym left.timeout_secs) left.late in
      let balanced = λ (p : C → Bool). check_cleanup-Balanced p now (order rc) rc u in
      let rest =
        cleanups-IsDrained n now order rc' visits late (balanced (λ cb. true)).is_map
          (left.disposed ∙ open') (check_cleanup-shorter n now order rc visits l open' h) in
      record {
        empty = rest.empty;
        sent = λ p. omega (
          arith,
          (balanced p).balance,
          rest.sent p,
          tally-append p cbs (cleanups n now order rc').1,
        );
      }
