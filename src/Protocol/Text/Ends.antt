-- ===== src/Protocol/Text/Ends.antt =====
-- protocol/protocol.go: which white space is trimmed off the end of a packet.
use dracula.Protocol.Pad.{space}
use dracula.Protocol.Text.{trailing_space, trim_by, trim_right}
use dracula.Prelude.{
  ℕ, zero, suc, ◌≡◌, ◌≤◌, ap, sym, ◌∙◌, [], ◌∷◌, ◌++◌, arith, Bytes, length, inl, inr, ℕ-cases,
  append_assoc, subst,
}
use mathlib.Core.List.{reverse, reverse-append, reverse-reverse, reverse-cons}

length-trim_by : (k : ℕ) (l : Bytes) → length (trim_by trailing_space k l) ≤ length l
unfolding trim_by
length-trim_by k [] = omega arith
length-trim_by (suc k) (x ∷ l) = omega (arith, length-trim_by k l)
length-trim_by zero (x ∷ l) = elim (ℕ-cases (trailing_space (x ∷ l))) [
  | inl e ↦ rw (e, trim_by) (omega arith)
  | inr (k, e) ↦ rw (e, trim_by) (omega (arith, length-trim_by k l))
]

-- A text from whose end nothing is trimmed.
no_space :
    (x : ℕ) (l : Bytes) → trim_by trailing_space 0 (x ∷ l) ≡ x ∷ l → trailing_space (x ∷ l) ≡ 0
unfolding trim_by
no_space x l h = elim (ℕ-cases (trailing_space (x ∷ l))) [
  | inl e ↦ e
  | inr (k, e) ↦
      let short : trim_by trailing_space k l ≡ x ∷ l = rw (e, trim_by) at h in
      absurd (omega (arith, length-trim_by k l, ap length short))
]

-- A space in front completes no longer space.
no_space-append :
    (x : ℕ) (l y : Bytes) → trailing_space (x ∷ l) ≡ 0 → trailing_space (x ∷ (l ++ space ∷ y)) ≡ 0
unfolding trailing_space
no_space-append x [] [] h = ground arith
no_space-append x [] (b ∷ y) h = ground arith
no_space-append x (a ∷ []) y h = ground arith
no_space-append x (a ∷ b ∷ l) y h = h

trim_by-none :
    (x : ℕ) (l : Bytes) → trailing_space (x ∷ l) ≡ 0 → trim_by trailing_space 0 (x ∷ l) ≡ x ∷ l
unfolding trim_by
trim_by-none x l h = rw (h, trim_by)

trim_by-ends :
    (r y : Bytes)
    → 1 ≤ length (reverse r)
    → trim_by trailing_space 0 r ≡ r
    → trim_by trailing_space 0 (r ++ space ∷ y) ≡ r ++ space ∷ y
trim_by-ends [] y long h = absurd (omega arith)
trim_by-ends (x ∷ l) y long h =
    trim_by-none x (l ++ space ∷ y) (no_space-append x l y (no_space x l h))

-- Nothing is trimmed off a text that ends with a space and then a text off which nothing is trimmed.
pub trim_right-ends :
    (x b : Bytes) → 1 ≤ length b → trim_right b ≡ b → trim_right (x ++ space ∷ b) ≡ x ++ space ∷ b
unfolding trim_right
trim_right-ends x b long h =
    let r = reverse b in
    let whole : reverse (x ++ space ∷ b) ≡ r ++ space ∷ reverse x =
      reverse-append x (space ∷ b)
      ∙ ap (λ l. l ++ reverse x) (reverse-cons space b)
      ∙ append_assoc r (space ∷ []) (reverse x) in
    let same : trim_by trailing_space 0 r ≡ r =
      sym (reverse-reverse (trim_by trailing_space 0 r)) ∙ ap reverse h in
    let full : 1 ≤ length (reverse r) = subst (λ l. 1 ≤ length l) (sym (reverse-reverse b)) long in
    ap (λ l. reverse (trim_by trailing_space 0 l)) whole
    ∙ ap reverse (trim_by-ends r (reverse x) full same)
    ∙ ap reverse (sym whole)
    ∙ reverse-reverse (x ++ space ∷ b)
