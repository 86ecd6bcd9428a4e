-- ===== src/Store.antt =====
-- store/store.go: the namespaces, each with its tree. The hash map holds pointers to trees, so a
-- method of a tree that the map holds is modelled by writing the changed tree back at its namespace.
-- The methods run one after another. The time that a collection takes is not measured.
pub mod Views
pub mod Refresh
pub mod Cleanup
pub mod Puts
pub mod History
pub mod Totals
pub mod Answers
pub mod Refinement
pub mod Timers
mod Tests
use dracula.Maps.{contains, RedBlackTree, HashMap}
use dracula.Tree
use dracula.Tree.{Tree, Regexp}
use dracula.Prelude.Int.{ℤ}
use dracula.Prelude.{
  zero, suc, take, none, ◌-◌, not, ◌+◌, ◌==◌, ◌/◌, keep, ◌∷◌, some, [], if◌then◌else◌, length, List,
  Option, false, true, Bool, ℕ, Bytes,
}

abbrev pub max_namespaces_denom : ℕ
max_namespaces_denom = 2

-- The gauges that a collection sets.
pub record Metrics : Type 0 where
  pub namespaces_total_count : ℕ
  pub namespaces_garbage_collected : ℕ
  pub keys_remaining_in_gc_namespaces : ℕ
  pub count_total_remaining_in_gc_namespaces : ℕ

abbrev pub no_metrics : Metrics
no_metrics = record {
  namespaces_total_count = 0;
  namespaces_garbage_collected = 0;
  keys_remaining_in_gc_namespaces = 0;
  count_total_remaining_in_gc_namespaces = 0;
}

-- The readings of the clock, one for each key that a call counts.
abbrev pub Times : Type 0
Times = Bytes → Bytes → ℤ

module _ ⦃t : RedBlackTree⦄ ⦃h : HashMap⦄ where
  -- `pending_cleanups` counts the runs of `runCleanup` that are due: the goroutine that `NewStore`
  -- starts, and the timers that runs have set.
  pub record Store : Type 0 where
    pub namespaces : h.map.Map Tree
    pub expire_after_secs : ℤ
    pub cleanup_service_enabled : Bool
    pub last_metrics : Metrics
    pub last_gcd_namespaces : List Bytes
    pub pending_cleanups : ℕ

  unfoldable pub new_store : ℤ → Store
  new_store expire_after_secs = record {
    namespaces = h.map.empty;
    expire_after_secs = expire_after_secs;
    cleanup_service_enabled = true;
    last_metrics = no_metrics;
    last_gcd_namespaces = [];
    pending_cleanups = 1;
  }

  unfoldable pub enable_cleanup : Store → Store
  enable_cleanup s = record s { cleanup_service_enabled = true }

  unfoldable pub disable_cleanup : Store → Store
  disable_cleanup s = record s { cleanup_service_enabled = false }

  -- The tree that the pointer at a namespace points to has changed.
  abbrev pub write_back : Store → Bytes → Tree → Store
  write_back s ns subtree = record s { namespaces = h.map.put s.namespaces ns subtree }

  -- The tree of `Put`: the one that is there, or a new one.
  subtree_or_new : Store → Option Tree → Tree
  subtree_or_new s none = Tree.new_tree s.expire_after_secs
  subtree_or_new s (some subtree) = subtree

  unfoldable pub put : ℤ → ℤ → Store → Bytes → Bytes → Store
  unfolding subtree_or_new
  put now secs s ns entry_key =
      let subtree = subtree_or_new s (h.map.get s.namespaces ns) in
      write_back s ns (Tree.put now secs subtree entry_key)

  count_found : ℤ → Store → Bytes → Bytes → Option Tree → Store × ℕ
  count_found now s ns entry_key none = (s, 0)
  count_found now s ns entry_key (some subtree) =
      let (subtree', c) = Tree.count now subtree entry_key in (write_back s ns subtree', c)

  unfoldable pub count : ℤ → Store → Bytes → Bytes → Store × ℕ
  unfolding count_found
  count now s ns entry_key = count_found now s ns entry_key (h.map.get s.namespaces ns)

  entries_found : Times → Store → Bytes → Option Tree → Store × ℕ
  entries_found times s ns none = (s, 0)
  entries_found times s ns (some subtree) =
      let (subtree', _, c) = Tree.keys (times ns) subtree in (write_back s ns subtree', c)

  unfoldable pub count_entries : Times → Store → Bytes → Store × ℕ
  unfolding entries_found
  count_entries times s ns = entries_found times s ns (h.map.get s.namespaces ns)

  match_found : Regexp → Times → Store → Bytes → Bytes → Option Tree → Store × List Bytes
  match_found re times s ns key_pattern none = (s, [])
  match_found re times s ns key_pattern (some subtree) =
      let (subtree', out) = Tree.key_match re (times ns) subtree key_pattern in
      (write_back s ns subtree', out)

  unfoldable pub key_match : Regexp → Times → Store → Bytes → Bytes → Store × List Bytes
  unfolding match_found
  key_match re times s ns key_pattern =
      match_found re times s ns key_pattern (h.map.get s.namespaces ns)

  -- The loop of `CountServerEntries`.
  count_spaces : Times → Store → List Bytes → Store × ℕ
  count_spaces times s [] = (s, 0)
  count_spaces times s (ns ∷ spaces) =
      let (s', c) = count_entries times s ns in
      let (s'', entry_count) = count_spaces times s' spaces in (s'', c + entry_count)

  unfoldable pub count_server_entries : Times → Store → Store × ℕ
  unfolding count_spaces
  count_server_entries times s = count_spaces times s (h.map.keys s.namespaces)

  -- The first loop of `runCleanup`: the namespaces to collect, without those of the last run. A
  -- namespace that is not found any more is passed over by `collect`.
  unfoldable pub candidates : Store → List Bytes → ℕ → List Bytes
  candidates s ks max_namespaces =
      keep (λ ns. not (contains ns s.last_gcd_namespaces)) (take max_namespaces ks)

  -- What the second loop of `runCleanup` adds up.
  pub record Tally : Type 0 where
    pub known_keys_count : ℕ
    pub tally : ℕ
    pub crawled_keys : List Bytes

  -- One round: an empty namespace is removed, any other is noted as crawled.
  collect_found : Times → Store → Tally → Bytes → Option Tree → Store × Tally
  collect_found times s a ns none = (s, a)
  collect_found times s a ns (some subtree) =
      let (subtree', subtree_keys, track_count) = Tree.keys (times ns) subtree in
      let known = a.known_keys_count + length subtree_keys in
      let tally = a.tally + track_count in
      if length subtree_keys == 0
      then (
        record s { namespaces = h.map.remove s.namespaces ns },
        record a { known_keys_count = known; tally = tally },
      )
      else (
        write_back s ns subtree',
        record { known_keys_count = known; tally = tally; crawled_keys = ns ∷ a.crawled_keys },
      )

  collect : Times → Store → Tally → List Bytes → Store × Tally
  unfolding collect_found
  collect times s a [] = (s, a)
  collect times s a (ns ∷ rest) =
      let (s', a') = collect_found times s a ns (h.map.get s.namespaces ns) in
      collect times s' a' rest

  -- The end of `runCleanup`; the deferred `time.AfterFunc` makes one more run due.
  finish_cleanup : ℕ → Store × Tally → Store
  finish_cleanup hash_size (s, a) = record s {
    last_gcd_namespaces = a.crawled_keys;
    last_metrics = record {
      namespaces_total_count = hash_size;
      namespaces_garbage_collected = hash_size / max_namespaces_denom;
      keys_remaining_in_gc_namespaces = a.known_keys_count;
      count_total_remaining_in_gc_namespaces = a.tally;
    };
    pending_cleanups = s.pending_cleanups + 1;
  }

  -- The body of `runCleanup`, by whether the service is enabled.
  cleanup_when : Times → Store → Bool → Store × List Bytes
  unfolding candidates collect finish_cleanup
  cleanup_when times s false = (s, [])
  cleanup_when times s true =
      let ks = h.map.keys s.namespaces in
      let hash_size = length ks in
      let max_namespaces = hash_size / max_namespaces_denom in
      let none_yet : Tally = record { known_keys_count = 0; tally = 0; crawled_keys = [] } in
      let s' =
        finish_cleanup hash_size (collect times s none_yet (candidates s ks max_namespaces)) in
      (s', h.map.keys s'.namespaces)

  unfoldable pub run_cleanup : Times → Store → Store × List Bytes
  unfolding cleanup_when
  run_cleanup times s = cleanup_when times s s.cleanup_service_enabled

  unfoldable pub namespaces : Times → Store → Store × List Bytes
  unfolding run_cleanup
  namespaces times s = run_cleanup times s

  -- A run that is due is made: the goroutine starts, or the timer fires.
  fire_pending : Times → Store → ℕ → Store
  fire_pending times s zero = s
  fire_pending times s (suc others) = (run_cleanup times (record s { pending_cleanups = others })).0

  unfoldable pub fire_cleanup : Times → Store → Store
  unfolding run_cleanup fire_pending
  fire_cleanup times s = fire_pending times s s.pending_cleanups
