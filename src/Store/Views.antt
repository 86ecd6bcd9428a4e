-- ===== src/Store/Views.antt =====
-- store/store.go: the unexpired entries of a store, and what leaves them alone.
use mathlib.Core.Option.{some-injective}
use dracula.Maps.{RedBlackTree, HashMap}
use dracula.Tree.{Tree, alive}
use dracula.Prelude.Int.{◌≤ℤ◌, ℤ}
use dracula.Prelude.{
  ap, bytes_eq_iff, inr, inl, sym, Bool-cases, refl, bytes_eq, if◌then◌else◌, none, some, [], ◌∙◌,
  ◌≡◌, keep, Option, Bytes, List,
}
use dracula.Store.{new_store, Store, write_back}
use dracula.Tree.Dates as TreeDates

module _ ⦃t : RedBlackTree⦄ ⦃h : HashMap⦄ where
  dates_found : Bytes → Option Tree → List ℤ
  dates_found k none = []
  dates_found k (some subtree) = TreeDates.dates subtree k

  -- The times that the store holds for a namespace and a key.
  pub dates : Store → Bytes → Bytes → List ℤ
  unfolding dates_found
  dates s ns k = dates_found k (h.map.get s.namespaces ns)

  abbrev pub live : ℤ → Store → Bytes → Bytes → List ℤ
  live now s ns k = keep (alive now) (dates s ns k)

  -- Every tree gives its entries the time to live of the store.
  pub record IsUniform (s : Store) : Type 0 where
    pub at :
        (ns : Bytes) (subtree : Tree)
        → h.map.get s.namespaces ns ≡ some subtree
        → subtree.default_expire_after_secs ≡ s.expire_after_secs

  -- From the time `last` on, `s'` shows what `s` shows.
  pub record Refreshes (last : ℤ) (s s' : Store) : Type 0 where
    pub same : (later : ℤ) (ns k : Bytes) → last ≤ℤ later → live later s' ns k ≡ live later s ns k
    pub expire : s'.expire_after_secs ≡ s.expire_after_secs
    pub uniform : IsUniform s → IsUniform s'

  pub Refreshes-refl : (last : ℤ) (s : Store) → Refreshes last s s
  Refreshes-refl last s = record { same = λ later ns k le. refl; expire = refl; uniform = λ u. u }

  pub Refreshes-trans :
      {last : ℤ} {s s' s'' : Store}
      → Refreshes last s s'
      → Refreshes last s' s''
      → Refreshes last s s''
  Refreshes-trans r r' = record {
    same = λ later ns k le. r'.same later ns k le ∙ r.same later ns k le;
    expire = r'.expire ∙ r.expire;
    uniform = λ u. r'.uniform (r.uniform u);
  }

  pub dates-write_back :
      (s : Store) (ns : Bytes) (subtree : Tree) (ns' k : Bytes)
      → dates (write_back s ns subtree) ns' k
        ≡ (if bytes_eq ns ns' then TreeDates.dates subtree k else dates s ns' k)
  unfolding dates
  dates-write_back s ns subtree ns' k = elim (Bool-cases (bytes_eq ns ns')) [
    | inl e ↦ rw (h.map.get-put s.namespaces ns ns' subtree, e)
    | inr e ↦ rw (h.map.get-put s.namespaces ns ns' subtree, e)
  ]

  pub IsUniform-write_back :
      (s : Store) (ns : Bytes) (subtree : Tree)
      → subtree.default_expire_after_secs ≡ s.expire_after_secs
      → IsUniform s
      → IsUniform (write_back s ns subtree)
  IsUniform-write_back s ns subtree e u = record {
    at = λ ns' found p.
        let q = sym (h.map.get-put s.namespaces ns ns' subtree) ∙ p in
        elim (Bool-cases (bytes_eq ns ns')) [
          | inl here ↦
              let same : some subtree ≡ some found = rw here at q in
              sym
                (ap (λ (x : Tree). x.default_expire_after_secs) (some-injective subtree found same))
              ∙ e
          | inr there ↦ u.at ns' found (rw there at q)
        ];
  }

  pub dates-found :
      (s : Store) (ns k : Bytes) (subtree : Tree)
      → h.map.get s.namespaces ns ≡ some subtree
      → dates s ns k ≡ TreeDates.dates subtree k
  unfolding dates
  dates-found s ns k subtree e = rw e

  pub dates-missing :
      (s : Store) (ns k : Bytes) → h.map.get s.namespaces ns ≡ none → dates s ns k ≡ []
  unfolding dates
  dates-missing s ns k e = rw e

  -- A tree that shows what it showed, from `last` on, may be written back.
  pub Refreshes-write_back :
      (last : ℤ) (s : Store) (ns : Bytes) (subtree subtree' : Tree)
      → h.map.get s.namespaces ns ≡ some subtree
      → subtree'.default_expire_after_secs ≡ subtree.default_expire_after_secs
      → ((later : ℤ) (k : Bytes)
          → last ≤ℤ later
          → TreeDates.live later subtree' k ≡ TreeDates.live later subtree k)
      → Refreshes last s (write_back s ns subtree')
  Refreshes-write_back last s ns subtree subtree' found expire same = record {
    same = λ later ns' k le. elim (Bool-cases (bytes_eq ns ns')) [
      | inl e ↦ rw (
        dates-write_back s ns subtree' ns' k,
        e,
        same later k le,
        ← dates-found s ns k subtree found,
        ← (bytes_eq_iff ns ns').0 e,
      )
      | inr e ↦ rw (dates-write_back s ns subtree' ns' k, e)
    ];
    expire = refl;
    uniform = λ u. IsUniform-write_back s ns subtree' (expire ∙ u.at ns subtree found) u;
  }

  dates-remove :
      (s : Store) (ns ns' k : Bytes)
      → dates (record s { namespaces = h.map.remove s.namespaces ns }) ns' k
        ≡ (if bytes_eq ns ns' then [] else dates s ns' k)
  unfolding dates
  dates-remove s ns ns' k = elim (Bool-cases (bytes_eq ns ns')) [
    | inl e ↦ rw (h.map.get-remove s.namespaces ns ns', e)
    | inr e ↦ rw (h.map.get-remove s.namespaces ns ns', e)
  ]

  -- A tree that shows nothing, from `last` on, may be removed.
  pub Refreshes-remove :
      (last : ℤ) (s : Store) (ns : Bytes)
      → ((later : ℤ) (k : Bytes) → last ≤ℤ later → live later s ns k ≡ [])
      → Refreshes last s (record s { namespaces = h.map.remove s.namespaces ns })
  Refreshes-remove last s ns none_left = record {
    same = λ later ns' k le. elim (Bool-cases (bytes_eq ns ns')) [
      | inl e ↦
          rw (dates-remove s ns ns' k, e)
            (sym (rw (← (bytes_eq_iff ns ns').0 e) (none_left later k le)))
      | inr e ↦ rw (dates-remove s ns ns' k, e)
    ];
    expire = refl;
    uniform = λ u. record {
      at = λ ns' found p.
          let q = sym (h.map.get-remove s.namespaces ns ns') ∙ p in
          elim (Bool-cases (bytes_eq ns ns')) [
            | inl here ↦ let gone : none ≡ some found = rw here at q in cc
            | inr there ↦ u.at ns' found (rw there at q)
          ];
    };
  }

  -- The fields beside the namespaces and the expiry show nothing.
  pub Refreshes-fields :
      (last : ℤ) (s s' : Store)
      → s'.namespaces ≡ s.namespaces
      → s'.expire_after_secs ≡ s.expire_after_secs
      → Refreshes last s s'
  unfolding dates
  Refreshes-fields last s s' e f = record {
    same = λ later ns k le. ap (λ m. keep (alive later) (dates_found k (h.map.get m ns))) e;
    expire = f;
    uniform = λ u. record {
      at = λ ns subtree p. u.at ns subtree (ap (λ m. h.map.get m ns) (sym e) ∙ p) ∙ sym f;
    };
  }

  pub dates-new_store : (ttl : ℤ) (ns k : Bytes) → dates (new_store ttl) ns k ≡ []
  unfolding dates new_store
  dates-new_store ttl ns k = rw (h.map.get-empty {V = Tree} ns)

  pub new_store-IsUniform : (ttl : ℤ) → IsUniform (new_store ttl)
  unfolding new_store
  new_store-IsUniform ttl = record {
    at = λ ns subtree p.
        let gone : none ≡ some subtree = sym (h.map.get-empty {V = Tree} ns) ∙ p in cc;
  }
