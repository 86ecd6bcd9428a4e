-- ===== src/Client/Cache.antt =====
-- client/waitingmessage/waitingmessage.go: the callbacks of the requests that wait for an answer. A
-- callback is of any type. The methods run one after another, as the mutex has it; the order in which
-- `range` visits the map is an argument.
pub mod Entries
pub mod Cases
pub mod Bounds
pub mod Drained
pub mod Ledger
mod Tests
use dracula.Prelude.Int.{pos, sub64, ltb_ℤ, ℤ}
use dracula.Prelude.{
  ◌+◌, true, ◌/◌, done, inr, ltb, ◌++◌, take, panic, inl, ◌==◌, false, keep, if◌then◌else◌, ◌⊎◌,
  some, length, ◌∷◌, none, [], Bool, Option, Outcome, List, ℕ,
}

pub data CacheError : Type 0 where
  message_id_exists no_message message_expired : CacheError

-- 10 s
abbrev pub cleanup_every_default : ℕ
cleanup_every_default = 10000000000

-- A key of the map with its `waitingMessage`.
pub record Waiting (C : Type 0) : Type 0 where
  pub message_id : ℕ
  pub callback : C
  pub created_secs : ℤ

pub record ResponseCache (C : Type 0) : Type 0 where
  pub cache : List (Waiting C)
  pub disposed : Bool
  pub cleanup_every : ℕ
  pub timeout_secs : ℤ

module _ {C : Type 0} where
  -- Timeouts in nanoseconds, not negative; the default is `cleanup_every_default`.
  unfoldable pub new_cache : ℕ → ResponseCache C
  new_cache timeout = record {
    cache = [];
    disposed = false;
    cleanup_every = if ltb timeout cleanup_every_default then timeout else cleanup_every_default;
    timeout_secs = pos (timeout / 1000000000);
  }

  abbrev pub find : ℕ → List (Waiting C) → Option (Waiting C)
  find id [] = none
  find id (e ∷ es) = if e.message_id == id then some e else find id es

  abbrev pub delete : ℕ → List (Waiting C) → List (Waiting C)
  delete id [] = []
  delete id (e ∷ es) = let rest = delete id es in if e.message_id == id then rest else e ∷ rest

  abbrev pub len : ResponseCache C → ℕ
  len rc = length rc.cache

  add_found : ℤ → ℕ → C → ResponseCache C → Option (Waiting C) → ResponseCache C × Option CacheError
  add_found now id cb rc (some e) = (rc, some message_id_exists)
  add_found now id cb rc none =
      let e : Waiting C = record { message_id = id; callback = cb; created_secs = now } in
      (record rc { cache = e ∷ rc.cache }, none)

  unfoldable pub add : ℤ → ℕ → C → ResponseCache C → ResponseCache C × Option CacheError
  unfolding add_found
  add now id cb rc = add_found now id cb rc (find id rc.cache)

  abbrev pub is_expired : ℤ → ResponseCache C → Waiting C → Bool
  is_expired now rc e = ltb_ℤ e.created_secs (sub64 now rc.timeout_secs)

  pull_found : ℤ → ℕ → ResponseCache C → Option (Waiting C) → ResponseCache C × (CacheError ⊎ C)
  pull_found now id rc none = (rc, inl no_message)
  pull_found now id rc (some e) = (
    record rc { cache = delete id rc.cache },
    if is_expired now rc e then inl message_expired else inr e.callback,
  )

  unfoldable pub pull : ℤ → ℕ → ResponseCache C → ResponseCache C × (CacheError ⊎ C)
  unfolding pull_found
  pull now id rc = pull_found now id rc (find id rc.cache)

  -- To close a channel twice is a panic.
  unfoldable pub dispose : ResponseCache C → Outcome (ResponseCache C)
  dispose rc = if rc.disposed then panic else done (record rc { disposed = true })

  should_cleanup : ℤ → ResponseCache C → Option (Waiting C) → Bool
  should_cleanup now rc none = false
  should_cleanup now rc (some e) = is_expired now rc e

  -- The first loop stops after one entry more than a third of them.
  unfoldable pub remove_these_keys : ℤ → List ℕ → ResponseCache C → List ℕ
  unfolding should_cleanup
  remove_these_keys now order rc =
      keep (λ id. should_cleanup now rc (find id rc.cache)) (take (len rc / 3 + 1) order)

  -- What is sent for a key; a key of the first loop is in the map.
  unfoldable pub callback_of : Option (Waiting C) → List C
  callback_of none = []
  callback_of (some e) = e.callback ∷ []

  unfoldable pub time_out : List ℕ → ResponseCache C → ResponseCache C × List C
  unfolding callback_of
  time_out [] rc = (rc, [])
  time_out (id ∷ ids) rc =
      let (rc', cbs) = time_out ids (record rc { cache = delete id rc.cache }) in
      (rc', callback_of (find id rc.cache) ++ cbs)

  -- The callbacks that are sent to `TimedOutMessages`.
  unfoldable pub check_cleanup : ℤ → List ℕ → ResponseCache C → ResponseCache C × List C
  unfolding remove_these_keys time_out
  check_cleanup now order rc =
      if rc.disposed then (rc, []) else time_out (remove_these_keys now order rc) rc
