-- ===== src/Client/Requests/Keys.antt =====
-- client/client.go: the lists that come back over TCP.
use dracula.Server.Peers.{split}
use dracula.Server.Peers.Listed.{split-join, Lack}
use dracula.Client.Responses.{Called}
use dracula.Server.Lists.{lines}
use dracula.Client.Requests.{list_callback, list_namespaces_result, key_match_result, drop_empty}
use dracula.Prelude.{none, arith, false, ◌==◌, done, length, ◌∷◌, ◌≤◌, index, Bytes, List, ◌≡◌}

drop_empty-some :
    (item : Bytes) (items : List Bytes)
    → 1 ≤ length item
    → drop_empty (item ∷ items) ≡ done (item ∷ items)
unfolding drop_empty index
drop_empty-some item items h =
    let some_text : (length item == 0) ≡ false = ground arith in rw some_text

module _ {C : Type 0} where
  -- The call of a callback with a list as its data.
  abbrev pub list_called : C → List Bytes → Called C
  list_called cb items = record { callback = cb; data_value = lines items; err = none }

  -- What both methods return of it.
  pub results-lines :
      (cb : C) (item : Bytes) (items : List Bytes)
      → 1 ≤ length item
      → Lack 10 (item ∷ items)
      → (key_match_result (list_called cb (item ∷ items)) ≡ done (item ∷ items, none))
        × (list_namespaces_result (list_called cb (item ∷ items)) ≡ (item ∷ items, none))
  unfolding key_match_result list_namespaces_result list_callback
  results-lines cb item items some_text plain =
      let parts : split 10 (lines (item ∷ items)) ≡ item ∷ items = split-join 10 item items plain in
      (rw (parts, drop_empty-some item items some_text), rw parts)
