-- ===== src/Protocol/Text/Padding.antt =====
-- protocol/protocol.go: `TrimSpace` undoes `PadRight`.
use dracula.Prelude.{
  ◌-◌, inr, inl, length, leb, Bool-cases, ℕ-cases, ℕ, zero, suc, ◌≡◌, refl, ap, [], ◌∷◌, ◌++◌,
  arith, Bytes, replicate,
}
use mathlib.Core.List.{reverse, reverse-append, reverse-cons}
use dracula.Protocol.Pad.{space, pad_right}
use dracula.Protocol.Text.{
  leading_space, trailing_space, trim_by, trim_left, trim_right, trim_space,
}

-- A space after a text completes no longer space in it.
leading_space-append :
    (x : ℕ) (l : Bytes) (n : ℕ)
    → leading_space (x ∷ (l ++ replicate n space)) ≡ leading_space (x ∷ l)
unfolding leading_space
leading_space-append x [] zero = refl
leading_space-append x [] (suc zero) = ground arith
leading_space-append x [] (suc (suc n)) = ground arith
leading_space-append x (y ∷ []) zero = refl
leading_space-append x (y ∷ []) (suc n) = ground arith
leading_space-append x (y ∷ z ∷ l) n = refl

leading_space_one : (l : Bytes) → leading_space (space ∷ l) ≡ 1
unfolding leading_space
leading_space_one [] = refl
leading_space_one (x ∷ []) = refl
leading_space_one (x ∷ y ∷ l) = refl

trailing_space_one : (l : Bytes) → trailing_space (space ∷ l) ≡ 1
unfolding trailing_space
trailing_space_one [] = refl
trailing_space_one (x ∷ []) = refl
trailing_space_one (x ∷ y ∷ l) = refl

trim_by-replicate : (k n : ℕ) → trim_by leading_space k (replicate n space) ≡ []
unfolding trim_by
trim_by-replicate k zero = refl
trim_by-replicate zero (suc n) =
    rw (leading_space_one (replicate n space), trim_by) (trim_by-replicate zero n)
trim_by-replicate (suc k) (suc n) = trim_by-replicate k n

trim_by-trailing :
    (n : ℕ) (l : Bytes)
    → trim_by trailing_space 0 (replicate n space ++ l) ≡ trim_by trailing_space 0 l
unfolding trim_by
trim_by-trailing zero l = refl
trim_by-trailing (suc n) l =
    rw (trailing_space_one (replicate n space ++ l), trim_by) (trim_by-trailing n l)

trim_by-append :
    (k : ℕ) (l : Bytes) (n : ℕ)
    → (m : ℕ) × (trim_by leading_space k (l ++ replicate n space)
        ≡ trim_by leading_space k l ++ replicate m space)
unfolding trim_by
trim_by-append k [] n = (0, trim_by-replicate k n)
trim_by-append (suc k) (x ∷ l) n = trim_by-append k l n
trim_by-append zero (x ∷ l) n = elim (ℕ-cases (leading_space (x ∷ l))) [
  | inl e ↦ (n, rw (leading_space-append x l n, e, trim_by))
  | inr (k, e) ↦
      let (m, rest) = trim_by-append k l n in (m, rw (leading_space-append x l n, e, trim_by) rest)
]

replicate-snoc : (n : ℕ) → replicate n space ++ space ∷ [] ≡ space ∷ replicate n space
replicate-snoc zero = refl
replicate-snoc (suc n) = ap (◌∷◌ space) (replicate-snoc n)

reverse-replicate : (n : ℕ) → reverse (replicate n space) ≡ replicate n space
reverse-replicate zero = refl
reverse-replicate (suc n) =
    rw (reverse-cons space (replicate n space), reverse-replicate n) (replicate-snoc n)

pub trim_right-append : (l : Bytes) (n : ℕ) → trim_right (l ++ replicate n space) ≡ trim_right l
unfolding trim_right
trim_right-append l n =
    rw (reverse-append l (replicate n space), reverse-replicate n)
      (ap reverse (trim_by-trailing n (reverse l)))

pub trim_space-append : (b : Bytes) (n : ℕ) → trim_space (b ++ replicate n space) ≡ trim_space b
unfolding trim_space trim_left
trim_space-append b n =
    let (m, left) = trim_by-append 0 b n in
    rw left (trim_right-append (trim_by leading_space 0 b) m)

-- Padding a text changes nothing of what it is read as.
pub trim_space-pad_right : (b : Bytes) (n : ℕ) → trim_space (pad_right b n) ≡ trim_space b
unfolding pad_right
trim_space-pad_right b n = elim (Bool-cases (leb n (length b))) [
  | inl e ↦ rw e
  | inr e ↦ rw e (trim_space-append b (n - length b))
]
