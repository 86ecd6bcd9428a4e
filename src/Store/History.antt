-- ===== src/Store/History.antt =====
-- store/store.go against its specification: a list of the entries that were ever put.
use dracula.Tree.Crawl.{keep_later}
use dracula.Store.Cleanup.{
  Refreshes-disable_cleanup, Refreshes-enable_cleanup, Refreshes-namespaces, Refreshes-fire_cleanup,
}
use dracula.Store.Puts.{dates-put, put-IsUniform}
use dracula.Maps.{RedBlackTree, HashMap}
use dracula.Tree.{alive, Regexp}
use dracula.Prelude.Int.{◌≤ℤ◌, ℤ, add64}
use dracula.Prelude.{
  inr, keep-append, bytes_eq_iff, inl, Bool-cases, refl, arith, ◌&&◌, if◌then◌else◌, ◌∙◌, ◌≡◌, [],
  bytes_eq, ◌++◌, keep, ◌∷◌, Bool, Bytes, List,
}
use dracula.Store as Methods
use dracula.Store.{Store, Times}
use dracula.Store.Views.{dates, Refreshes, live, IsUniform}
use dracula.Store.Refresh.{
  Refreshes-count, Refreshes-later, Refreshes-count_server_entries, Refreshes-key_match,
  Refreshes-count_entries, ≤ℤ_trans, Before,
}

-- An entry that was put: its namespace, its key and the time when it expires.
pub record Entry : Type 0 where
  pub ns : Bytes
  pub key : Bytes
  pub remove_at : ℤ

abbrev pub is_at : Bytes → Bytes → Entry → Bool
is_at ns k e = bytes_eq e.ns ns && bytes_eq e.key k

-- The times at which the entries of a key expire, oldest first.
abbrev pub deadlines : List Entry → Bytes → Bytes → List ℤ
deadlines [] ns k = []
deadlines (e ∷ es) ns k =
    let rest = deadlines es ns k in if is_at ns k e then e.remove_at ∷ rest else rest

-- The entries of a key that have not expired: what a count of the key means.
abbrev pub unexpired : ℤ → List Entry → Bytes → Bytes → List ℤ
unexpired now es ns k = keep (alive now) (deadlines es ns k)

-- A call of a method, or a collection that is due.
pub data Call : Type 0 where
  put : ℤ → ℤ → Bytes → Bytes → Call
  count : ℤ → Bytes → Bytes → Call
  count_entries : Times → Bytes → Call
  key_match : Times → Bytes → Bytes → Call
  count_server_entries : Times → Call
  namespaces : Times → Call
  fire_cleanup : Times → Call
  enable_cleanup disable_cleanup : Call

-- All readings of the clock in the call are at `last` or before.
abbrev pub EndsBy : ℤ → Call → Type 0
EndsBy last (put now secs ns k) = now ≤ℤ last
EndsBy last (count now ns k) = now ≤ℤ last
EndsBy last (count_entries times ns) = Before last times
EndsBy last (key_match times ns pattern) = Before last times
EndsBy last (count_server_entries times) = Before last times
EndsBy last (namespaces times) = Before last times
EndsBy last (fire_cleanup times) = Before last times
EndsBy last enable_cleanup = Unit
EndsBy last disable_cleanup = Unit

-- What the specification remembers of a call.
abbrev pub note : ℤ → List Entry → Call → List Entry
note ttl es (put now secs ns k) =
    es ++ (record { ns = ns; key = k; remove_at = add64 secs ttl } ∷ [])
note ttl es _ = es

deadlines-append :
    (es : List Entry) (e : Entry) (ns k : Bytes)
    → deadlines (es ++ (e ∷ [])) ns k
      ≡ (if is_at ns k e then deadlines es ns k ++ (e.remove_at ∷ []) else deadlines es ns k)
deadlines-append [] e ns k = refl
deadlines-append (e' ∷ es) e ns k = ground (arith, deadlines-append es e ns k)

module _ ⦃t : RedBlackTree⦄ ⦃h : HashMap⦄ where
  -- `s` shows the history `es` from the time `last` on.
  pub record Shows (ttl last : ℤ) (s : Store) (es : List Entry) : Type 0 where
    pub same :
        (later : ℤ) (ns k : Bytes) → last ≤ℤ later → live later s ns k ≡ unexpired later es ns k
    pub expire : s.expire_after_secs ≡ ttl
    pub uniform : IsUniform s

  Shows-Refreshes :
      {ttl last next : ℤ} {s s' : Store} {es : List Entry}
      → last ≤ℤ next
      → Refreshes next s s'
      → Shows ttl last s es
      → Shows ttl next s' es
  Shows-Refreshes {ttl} {last} {next} le r v = record {
    same = λ later ns k le'.
        r.same later ns k le' ∙ v.same later ns k (≤ℤ_trans last next later le le');
    expire = r.expire ∙ v.expire;
    uniform = r.uniform v.uniform;
  }

  same_put :
      {ttl last : ℤ} {s : Store} {es : List Entry} (now secs : ℤ) (ns k : Bytes)
      → Shows ttl last s es
      → (later : ℤ) (ns' k' : Bytes) → now ≤ℤ later
      → last ≤ℤ later
      → live later (Methods.put now secs s ns k) ns' k'
        ≡ unexpired later (note ttl es (Call.put now secs ns k)) ns' k'
  same_put {ttl} {last} {s} {es} now secs ns k v later ns' k' le le' =
      let e : Entry = record { ns = ns; key = k; remove_at = add64 secs ttl } in
      let d = dates-put now secs ttl s ns k ns' k' v.expire v.uniform in
      elim (Bool-cases (bytes_eq ns ns' && bytes_eq k k')) [
        | inl at ↦
            let p : ns ≡ ns' = (bytes_eq_iff ns ns').0 (ground arith) in
            let q : k ≡ k' = (bytes_eq_iff k k').0 (ground arith) in
            rw (
              d,
              deadlines-append es e ns' k',
              at,
              keep-append (alive later) (live now s ns k) (add64 secs ttl ∷ []),
              keep-append (alive later) (deadlines es ns' k') (add64 secs ttl ∷ []),
              keep_later now later (dates s ns k) le,
              v.same later ns k le',
              p,
              q,
            )
        | inr away ↦ rw (d, deadlines-append es e ns' k', away) (v.same later ns' k' le')
      ]

  Shows-put :
      {ttl last next : ℤ} {s : Store} {es : List Entry} (now secs : ℤ) (ns k : Bytes)
      → last ≤ℤ next
      → now ≤ℤ next
      → Shows ttl last s es
      → Shows ttl next (Methods.put now secs s ns k) (note ttl es (Call.put now secs ns k))
  Shows-put {ttl} {last} {next} {s} {es} now secs ns k le le' v = record {
    same = λ later ns' k' h'.
        same_put now secs ns k v later ns' k' (≤ℤ_trans now next later le' h')
          (≤ℤ_trans last next later le h');
    expire = unfold Methods.put in v.expire;
    uniform = put-IsUniform now secs s ns k v.uniform;
  }

  module _ (re : Regexp) where
    unfoldable pub apply : Store → Call → Store
    apply s (Call.put now secs ns k) = Methods.put now secs s ns k
    apply s (Call.count now ns k) = (Methods.count now s ns k).0
    apply s (Call.count_entries times ns) = (Methods.count_entries times s ns).0
    apply s (Call.key_match times ns pattern) = (Methods.key_match re times s ns pattern).0
    apply s (Call.count_server_entries times) = (Methods.count_server_entries times s).0
    apply s (Call.namespaces times) = (Methods.namespaces times s).0
    apply s (Call.fire_cleanup times) = Methods.fire_cleanup times s
    apply s Call.enable_cleanup = Methods.enable_cleanup s
    apply s Call.disable_cleanup = Methods.disable_cleanup s

    pub Shows-apply :
        {ttl last next : ℤ} {s : Store} {es : List Entry} (c : Call)
        → last ≤ℤ next
        → EndsBy next c
        → Shows ttl last s es
        → Shows ttl next (apply s c) (note ttl es c)
    unfolding apply
    Shows-apply (Call.put now secs ns k) le b v = Shows-put now secs ns k le b v
    Shows-apply {next = next} {s = s} (Call.count now ns k) le b v =
        Shows-Refreshes le (Refreshes-later b (Refreshes-count now s ns k)) v
    Shows-apply {next = next} {s = s} (Call.count_entries times ns) le b v =
        Shows-Refreshes le (Refreshes-count_entries next times s ns b) v
    Shows-apply {next = next} {s = s} (Call.key_match times ns pattern) le b v =
        Shows-Refreshes le (Refreshes-key_match re next times s ns pattern b) v
    Shows-apply {next = next} {s = s} (Call.count_server_entries times) le b v =
        Shows-Refreshes le (Refreshes-count_server_entries next times s b) v
    Shows-apply {next = next} {s = s} (Call.namespaces times) le b v =
        Shows-Refreshes le (Refreshes-namespaces next times s b) v
    Shows-apply {next = next} {s = s} (Call.fire_cleanup times) le b v =
        Shows-Refreshes le (Refreshes-fire_cleanup next times s b) v
    Shows-apply {next = next} {s = s} Call.enable_cleanup le b v =
        Shows-Refreshes le (Refreshes-enable_cleanup next s) v
    Shows-apply {next = next} {s = s} Call.disable_cleanup le b v =
        Shows-Refreshes le (Refreshes-disable_cleanup next s) v
