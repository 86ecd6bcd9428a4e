-- ===== src/Client/Cache/Ledger.antt =====
-- client/waitingmessage/waitingmessage.go: where every callback goes, between `NewCache` and `Dispose`.
use dracula.Prelude.Int.{ℤ}
use dracula.Prelude.{
  Bool, Bool-cases, List, Option, Option-cases, arith, none, some, ◌++◌, ◌+◌, ◌≡◌, ◌⊎◌, [], ◌∷◌,
  inl, inr, ℕ, ap, ◌∙◌, if◌then◌else◌, true, false,
}
use dracula.Client.Cache as Methods
use dracula.Client.Cache.{
  new_cache, Waiting, ResponseCache, CacheError, find, delete, callback_of, is_expired, time_out,
  remove_these_keys,
}
use dracula.Client.Cache.Entries.{IsMap, IsMap-delete, callbacks, tally, tally-append, tally-delete}

-- A call of a method, with the clock, or a cleanup that is due, with the order of the map.
pub data Step (C : Type 0) : Type 0 where
  add : ℤ → ℕ → C → Step C
  pull : ℤ → ℕ → Step C
  check_cleanup : ℤ → List ℕ → Step C

-- The callbacks that were accepted, those that were returned or sent, and those whose entry was pulled
-- too late.
pub record Ledger (C : Type 0) : Type 0 where
  pub added : List C
  pub delivered : List C
  pub dropped : List C

module _ {C : Type 0} where
  added_by : C → Option CacheError → List C
  added_by cb none = cb ∷ []
  added_by cb (some err) = []

  delivered_by : CacheError ⊎ C → List C
  delivered_by (inl err) = []
  delivered_by (inr cb) = cb ∷ []

  dropped_by : CacheError ⊎ C → Option (Waiting C) → List C
  dropped_by (inl CacheError.message_expired) found = callback_of found
  dropped_by _ found = []

  unfoldable pub step : ResponseCache C → Step C → ResponseCache C × Ledger C
  unfolding added_by delivered_by dropped_by
  step rc (Step.add now id cb) =
      let (rc', err) = Methods.add now id cb rc in
      (rc', record { added = added_by cb err; delivered = []; dropped = [] })
  step rc (Step.pull now id) =
      let (rc', res) = Methods.pull now id rc in
      (
        rc',
        record {
          added = [];
          delivered = delivered_by res;
          dropped = dropped_by res (find id rc.cache);
        },
      )
  step rc (Step.check_cleanup now order) =
      let (rc', cbs) = Methods.check_cleanup now order rc in
      (rc', record { added = []; delivered = cbs; dropped = [] })

  unfoldable pub run_steps : ResponseCache C → List (Step C) → ResponseCache C × Ledger C
  unfolding step
  run_steps rc [] = (rc, record { added = []; delivered = []; dropped = [] })
  run_steps rc (c ∷ cs) =
      let (rc', l) = step rc c in
      let (rc'', l') = run_steps rc' cs in
      (
        rc'',
        record {
          added = l.added ++ l'.added;
          delivered = l.delivered ++ l'.delivered;
          dropped = l.dropped ++ l'.dropped;
        },
      )

  -- Every callback that was waiting or was added is waiting, delivered or dropped, as often.
  pub record Balanced (p : C → Bool) (rc rc' : ResponseCache C) (l : Ledger C) : Type 0 where
    pub is_map : IsMap rc'.cache
    pub balance :
        tally p (callbacks rc.cache) + tally p l.added
        ≡ tally p (callbacks rc'.cache) + tally p l.delivered + tally p l.dropped

  module _ (p : C → Bool) where
    time_out-Balanced :
        (ids : List ℕ) (rc : ResponseCache C)
        → IsMap rc.cache
        → IsMap (time_out ids rc).0.cache
          × (tally p (callbacks rc.cache)
              ≡ tally p (callbacks (time_out ids rc).0.cache) + tally p (time_out ids rc).1)
    unfolding time_out
    time_out-Balanced [] rc u = (u, omega arith)
    time_out-Balanced (id ∷ ids) rc u =
        let rest : ResponseCache C = record rc { cache = delete id rc.cache } in
        let (u', e) = time_out-Balanced ids rest (IsMap-delete id rc.cache u) in
        (
          u',
          omega (
            arith,
            e,
            tally-delete p id rc.cache u,
            tally-append p (callback_of (find id rc.cache)) (time_out ids rest).1,
          ),
        )

    add-Balanced :
        (now : ℤ) (id : ℕ) (cb : C) (rc : ResponseCache C)
        → IsMap rc.cache
        → Balanced p rc (step rc (Step.add now id cb)).0 (step rc (Step.add now id cb)).1
    unfolding step Methods.add
    add-Balanced now id cb rc u = elim (Option-cases (find id rc.cache)) [
      | inl e ↦
          rw (e, Methods.add_found, added_by) (record { is_map = (e, u); balance = ground arith })
      | inr (w, e) ↦
          rw (e, Methods.add_found, added_by) (record { is_map = u; balance = omega arith })
    ]

    pull-Balanced :
        (now : ℤ) (id : ℕ) (rc : ResponseCache C)
        → IsMap rc.cache
        → Balanced p rc (step rc (Step.pull now id)).0 (step rc (Step.pull now id)).1
    unfolding step Methods.pull callback_of
    pull-Balanced now id rc u = elim (Option-cases (find id rc.cache)) [
      | inl e ↦ rw (e, Methods.pull_found) (record { is_map = u; balance = omega arith })
      | inr (w, e) ↦
          let taken : tally p (callbacks rc.cache)
              ≡ tally p (callbacks (delete id rc.cache)) + tally p (w.callback ∷ []) =
            tally-delete p id rc.cache u
            ∙ ap (λ found. tally p (callbacks (delete id rc.cache)) + tally p (callback_of found))
                e in
          let u' = IsMap-delete id rc.cache u in
          elim (Bool-cases (is_expired now rc w)) [
            | inl late ↦
                rw (e, Methods.pull_found, late)
                  (record { is_map = u'; balance = omega (arith, taken) })
            | inr fresh ↦
                rw (e, Methods.pull_found, fresh)
                  (record { is_map = u'; balance = omega (arith, taken) })
          ]
    ]

    -- A cleanup delivers what it takes out of the cache.
    abbrev Swept : ResponseCache C → ResponseCache C × List C → Type 0
    Swept rc (rc', cbs) = Balanced p rc rc' (record { added = []; delivered = cbs; dropped = [] })

    either :
        (b : Bool) (rc : ResponseCache C) (x y : ResponseCache C × List C)
        → Swept rc x
        → Swept rc y
        → Swept rc (if b then x else y)
    either true rc x y hx hy = hx
    either false rc x y hx hy = hy

    pub check_cleanup-Balanced :
        (now : ℤ) (order : List ℕ) (rc : ResponseCache C)
        → IsMap rc.cache
        → Balanced p rc
            (step rc (Step.check_cleanup now order)).0
            (step rc (Step.check_cleanup now order)).1
    unfolding step Methods.check_cleanup
    check_cleanup-Balanced now order rc u =
        let (u', balance) = time_out-Balanced (remove_these_keys now order rc) rc u in
        either rc.disposed rc (rc, []) (time_out (remove_these_keys now order rc) rc)
          (record { is_map = u; balance = omega arith })
          (record { is_map = u'; balance = omega (arith, balance) })

    step-Balanced :
        (rc : ResponseCache C) (c : Step C)
        → IsMap rc.cache
        → Balanced p rc (step rc c).0 (step rc c).1
    step-Balanced rc (Step.add now id cb) u = add-Balanced now id cb rc u
    step-Balanced rc (Step.pull now id) u = pull-Balanced now id rc u
    step-Balanced rc (Step.check_cleanup now order) u = check_cleanup-Balanced now order rc u

    run_steps-Balanced :
        (rc : ResponseCache C) (cs : List (Step C))
        → IsMap rc.cache
        → Balanced p rc (run_steps rc cs).0 (run_steps rc cs).1
    unfolding run_steps
    run_steps-Balanced rc [] u = record { is_map = u; balance = omega arith }
    run_steps-Balanced rc (c ∷ cs) u =
        let (rc', l) = step rc c in
        let (rc'', l') = run_steps rc' cs in
        let b = step-Balanced rc c u in
        let b' = run_steps-Balanced rc' cs b.is_map in
        record {
          is_map = b'.is_map;
          balance = omega (
            arith,
            b.balance,
            b'.balance,
            tally-append p l.added l'.added,
            tally-append p l.delivered l'.delivered,
            tally-append p l.dropped l'.dropped,
          );
        }

    -- After any calls and cleanups on a new cache, the callbacks that were accepted are as often waiting,
    -- delivered (returned by `Pull` or sent as timed out) or dropped by a `Pull` that came too late:
    -- none is delivered twice, and only late pulls lose any. So it is for the callbacks that pass any
    -- test.
    pub run_steps-new_cache :
        (timeout : ℕ) (cs : List (Step C))
        → let (rc, l) = run_steps (new_cache timeout) cs in
          tally p l.added ≡ tally p (callbacks rc.cache) + tally p l.delivered + tally p l.dropped
    unfolding new_cache
    run_steps-new_cache timeout cs =
        omega (arith, (run_steps-Balanced (new_cache timeout) cs tt).balance)
