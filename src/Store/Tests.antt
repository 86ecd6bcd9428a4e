-- ===== src/Store/Tests.antt =====
-- Runs of the store on association lists, and the theorems at a concrete schedule.
use dracula.Store.Cleanup.{Refreshes-run_cleanup}
use dracula.Store.Views.{Refreshes}
use dracula.Store.Timers.{pending-run_calls, run_calls}
use dracula.Maps.Assoc.{assoc_tree, assoc_hash}
use dracula.Tree.{Regexp}
use dracula.Prelude.Int.{add64, pos}
use dracula.Prelude.{refl, length, [], bytes_eq, ◌∷◌, ◌≡◌, arith, bytes_of, inr, Bytes}
use dracula.Store.{put, run_cleanup, Store, count, count_entries, new_store}
use dracula.Store.History.{Call, unexpired}
use dracula.Store.Refinement.{Schedule, InOrder, run, history, count-history, count_entries-history}
use dracula.Store.Totals.{in_space}
use dracula.Store.Answers.{at_once}

abbrev literal : Regexp
literal = record { compile = λ pattern. inr (bytes_eq pattern) }

abbrev users : Bytes
users = bytes_of "users"

abbrev ip : Bytes
ip = bytes_of "10.0.0.1"

-- Two entries of a key, one of another, a read and a collection between them.
abbrev calls : Schedule
calls =
    (pos 100, Call.put (pos 100) (pos 100) users ip)
    ∷ (pos 120, Call.count (pos 120) users ip)
    ∷ (pos 130, Call.fire_cleanup (at_once (pos 130)))
    ∷ (pos 140, Call.put (pos 139) (pos 140) users (bytes_of "10.0.0.2"))
    ∷ (pos 150, Call.put (pos 150) (pos 150) users ip)
    ∷ []

calls-InOrder : InOrder (pos 100) calls
calls-InOrder = omega arith

count-history_example :
    (count (pos 165) (run literal (new_store (pos 60)) calls) users ip).1
    ≡ length (unexpired (pos 165) (history (pos 60) [] calls) users ip)
count-history_example =
    count-history literal (pos 60) (pos 100) (pos 165) calls users ip calls-InOrder (omega arith)

count_entries-history_example :
    (count_entries (at_once (pos 165)) (run literal (new_store (pos 60)) calls) users).1
    ≡ length (in_space (pos 165) users (history (pos 60) [] calls))
count_entries-history_example =
    count_entries-history literal (pos 60) (pos 100) (pos 165) calls users calls-InOrder
      (omega arith)

history_run : length (unexpired (pos 165) (history (pos 60) [] calls) users ip) ≡ 1
unfolding add64
history_run = refl

pending-run_calls_example :
    (run_calls literal (new_store (pos 60)) (
      Call.namespaces (at_once (pos 1))
      ∷ Call.fire_cleanup (at_once (pos 2))
      ∷ Call.namespaces (at_once (pos 3))
      ∷ [])).pending_cleanups
    ≡ 3
pending-run_calls_example =
    pending-run_calls literal (pos 60)
      (Call.namespaces (at_once (pos 1))
        ∷ Call.fire_cleanup (at_once (pos 2))
        ∷ Call.namespaces (at_once (pos 3))
        ∷ [])
      refl

-- A collection of a store with an expired and an unexpired namespace.
abbrev two_spaces : Store
two_spaces =
    put (pos 150) (pos 150) (put (pos 100) (pos 100) (new_store (pos 60)) users ip)
      (bytes_of "sites") ip

Refreshes-run_cleanup_example :
    Refreshes (pos 170) two_spaces (run_cleanup (at_once (pos 170)) two_spaces).0
Refreshes-run_cleanup_example =
    Refreshes-run_cleanup (pos 170) (at_once (pos 170)) two_spaces (λ ns k. omega arith)
