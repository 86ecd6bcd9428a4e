-- ===== src/Client/Cache/Tests.antt =====
-- client/waitingmessage/waitingmessage.go: runs of the cache, with numbers for callbacks.
use dracula.Client.Cache.Cases.{entry}
use dracula.Client.Cache.Drained.{cleanups-IsDrained, cleanups, IsDrained, Late, Visits}
use dracula.Prelude.Int.{pos, sub64}
use dracula.Prelude.{
  ==_refl, true, some, arith, length, false, ◌≤◌, map, Bool, List, ◌+◌, ◌==◌, ◌≡◌, [], ◌∷◌, refl, ℕ,
}
use dracula.Client.Cache as Methods
use dracula.Client.Cache.{find, Waiting, ResponseCache, new_cache}
use dracula.Client.Cache.Entries.{callbacks, tally}
use dracula.Client.Cache.Ledger.{Step, step, run_steps, run_steps-new_cache}

-- A request that is answered, one that times out, and one that is answered too late.
abbrev requests : List (Step ℕ)
requests =
    Step.add (pos 100) 1 11
    ∷ Step.add (pos 100) 2 22
    ∷ Step.add (pos 100) 3 33
    ∷ Step.pull (pos 101) 1
    ∷ Step.check_cleanup (pos 120) (2 ∷ 3 ∷ [])
    ∷ Step.pull (pos 121) 3
    ∷ []

is_22 : ℕ → Bool
is_22 n = n == 22

requests_run :
    (run_steps (new_cache 5000000000) requests).1
    ≡ record { added = 11 ∷ 22 ∷ 33 ∷ []; delivered = 11 ∷ 22 ∷ []; dropped = 33 ∷ [] }
unfolding run_steps step new_cache Methods.add Methods.pull Methods.check_cleanup sub64
requests_run = refl

run_steps-new_cache_example :
    tally is_22 (run_steps (new_cache 5000000000) requests).1.added
    ≡ tally is_22 (callbacks (run_steps (new_cache 5000000000) requests).0.cache)
      + tally is_22 (run_steps (new_cache 5000000000) requests).1.delivered
      + tally is_22 (run_steps (new_cache 5000000000) requests).1.dropped
run_steps-new_cache_example = run_steps-new_cache is_22 5000000000 requests

-- Two callbacks that wait since 100 s, with a timeout of 5 s.
abbrev both_waiting : ResponseCache ℕ
both_waiting = record {
  cache = entry (pos 100) 2 22 ∷ entry (pos 100) 1 11 ∷ [];
  disposed = false;
  cleanup_every = 5;
  timeout_secs = pos 5;
}

-- The map is visited in the order of the list.
abbrev in_order : ResponseCache ℕ → List ℕ
in_order rc = map (λ w. w.message_id) rc.cache

visits_list :
    (es : List (Waiting ℕ))
    → 1 ≤ length es
    → (id : ℕ) × (ids : List ℕ) × (w : Waiting ℕ) × (map (λ w. w.message_id) es ≡ id ∷ ids)
      × (find id es ≡ some w)
visits_list [] h = absurd (omega arith)
visits_list (e ∷ es) h =
    let here : (e.message_id == e.message_id) ≡ true = ==_refl e.message_id in
    (e.message_id, map (λ w. w.message_id) es, e, refl, rw here)

in_order-Visits : Visits in_order
in_order-Visits rc h = visits_list rc.cache h

both_waiting-Late : Late (pos 110) both_waiting.timeout_secs both_waiting.cache
unfolding sub64
both_waiting-Late = (refl, (refl, tt))

cleanups-IsDrained_example : IsDrained both_waiting (cleanups 2 (pos 110) in_order both_waiting)
cleanups-IsDrained_example =
    cleanups-IsDrained 2 (pos 110) in_order both_waiting in_order-Visits both_waiting-Late
      (refl, (refl, tt)) refl (omega arith)
