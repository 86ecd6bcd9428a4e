-- ===== src/Store/Totals.antt =====
-- store/store.go: a sum over the keys of a namespace is a count of entries.
use dracula.Tree.{alive}
use dracula.Maps.{distinct, contains}
use dracula.Prelude.Int.{ℤ}
use dracula.Prelude.{
  bytes_eq_refl, inr, bytes_eq_iff, inl, refl, sym, Bool-cases, ◌∙◌, ap, ◌+◌, arith, sum_map,
  length, ◌∷◌, ◌&&◌, true, false, [], bytes_eq, ◌≡◌, Bool, keep, Bytes, List,
}
use dracula.Store.History.{Entry, unexpired}

-- The unexpired entries of a namespace.
abbrev pub in_space : ℤ → Bytes → List Entry → List Entry
in_space now ns es = keep (λ e. bytes_eq e.ns ns && alive now e.remove_at) es

abbrev under : ℤ → Bytes → List Bytes → Entry → Bool
under now ns ks e = bytes_eq e.ns ns && alive now e.remove_at && contains e.key ks

under_nil : (now : ℤ) (ns : Bytes) (es : List Entry) → keep (under now ns []) es ≡ []
unfolding contains
under_nil now ns [] = refl
under_nil now ns (e ∷ es) = ground (arith, under_nil now ns es)

-- One more key adds its own entries.
under_cons :
    (now : ℤ) (ns k : Bytes) (ks : List Bytes) (es : List Entry)
    → contains k ks ≡ false
    → length (keep (under now ns (k ∷ ks)) es)
      ≡ length (unexpired now es ns k) + length (keep (under now ns ks) es)
unfolding contains
under_cons now ns k ks [] new = omega arith
under_cons now ns k ks (e ∷ es) new = elim (Bool-cases (bytes_eq e.key k)) [
  | inl here ↦
      let same : e.key ≡ k = (bytes_eq_iff e.key k).0 here in
      let apart : contains e.key ks ≡ false = ap (λ j. contains j ks) same ∙ new in
      let met : bytes_eq k e.key ≡ true = (bytes_eq_iff k e.key).1 (sym same) in
      ground (arith, under_cons now ns k ks es new, here, apart, met)
  | inr there ↦
      let missed : bytes_eq k e.key ≡ false =
        ground (arith, bytes_eq_iff k e.key, bytes_eq_iff e.key k) in
      ground (arith, under_cons now ns k ks es new, there, missed)
]

sum-under :
    (now : ℤ) (ns : Bytes) (es : List Entry) (ks : List Bytes)
    → distinct ks ≡ true
    → sum_map (λ k. length (unexpired now es ns k)) ks ≡ length (keep (under now ns ks) es)
unfolding distinct
sum-under now ns es [] d = ap length (sym (under_nil now ns es))
sum-under now ns es (k ∷ ks) d =
    let new : contains k ks ≡ false = ground arith in
    let rest : distinct ks ≡ true = ground arith in
    omega (arith, sum-under now ns es ks rest, under_cons now ns k ks es new)

under_all :
    (now : ℤ) (ns : Bytes) (ks : List Bytes) (es : List Entry)
    → ((k : Bytes) → contains k ks ≡ false → unexpired now es ns k ≡ [])
    → keep (under now ns ks) es ≡ in_space now ns es
under_all now ns ks [] complete = refl
under_all now ns ks (e ∷ es) complete =
    let rest = under_all now ns ks es (λ k missing. ground (arith, complete k missing)) in
    elim (Bool-cases (contains e.key ks)) [
      | inl e' ↦ ground (arith, rest)
      | inr e' ↦ ground (arith, rest, complete e.key e', bytes_eq_refl e.key)
    ]

-- Over a list of keys that names each once and leaves out no key with an unexpired entry, the sum of
-- the unexpired entries of the keys is the number of unexpired entries of the namespace.
pub sum-in_space :
    (now : ℤ) (ns : Bytes) (es : List Entry) (ks : List Bytes)
    → distinct ks ≡ true
    → ((k : Bytes) → contains k ks ≡ false → unexpired now es ns k ≡ [])
    → sum_map (λ k. length (unexpired now es ns k)) ks ≡ length (in_space now ns es)
sum-in_space now ns es ks d complete =
    sum-under now ns es ks d ∙ ap length (under_all now ns ks es complete)
