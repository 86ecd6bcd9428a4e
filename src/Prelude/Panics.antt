-- ===== src/Prelude/Panics.antt =====
-- A Go computation that may panic: an index or a slice out of range, a nil pointer, `panic(err)`.
use Prim.Native.Nat.{ℕ, zero, suc, ◌-◌, ◌≤◌, ◌<◌}
use native.Mathlib.Omega.{arith}
use mathlib.Core.Path.{◌≡◌, refl}
use mathlib.Core.Bool.{◌&&◌}
use mathlib.Core.List.{List, [], ◌∷◌, ◌++◌}
use mathlib.Core.Option.{Option, none, some}
use dracula.Prelude.Tests.{leb, le→leb, if◌then◌else◌}
use dracula.Prelude.Lists.{length, get_elem?, take, drop}

pub data Outcome {ℓ} (A : Type ℓ) : Type ℓ where
  done : A → Outcome A
  panic : Outcome A

infixl 5 ◌>>=◌ ◌>>◌
abbrev pub ◌>>=◌ {ℓ κ} : {A : Type ℓ} {B : Type κ} → Outcome A → (A → Outcome B) → Outcome B
done a >>= f = f a
panic >>= f = panic

abbrev pub ◌>>◌ {ℓ} : {B : Type ℓ} → Outcome (Unit {0}) → Outcome B → Outcome B
m >> k = m >>= λ _. k

-- What comes first is done where the whole is.
pub bind-done {ℓ κ} :
    {A : Type ℓ} {B : Type κ} (m : Outcome A) (f : A → Outcome B) (b : B)
    → (m >>= f) ≡ done b
    → (a : A) × (m ≡ done a) × (f a ≡ done b)
bind-done (done a) f b e = (a, refl, e)
bind-done panic f b e = absurd (cc)

pub done_injective {ℓ} : {A : Type ℓ} {a b : A} → Outcome.done a ≡ done b → a ≡ b
done_injective e = cc

module _ {ℓ} {A : Type ℓ} where
  abbrev or_panic : Option A → Outcome A
  or_panic none = panic
  or_panic (some a) = done a

  -- `b[i]`
  unfoldable pub index : List A → ℕ → Outcome A
  index b i = or_panic (get_elem? b i)

  -- `b[lo:hi]`
  unfoldable pub slice : ℕ → ℕ → List A → Outcome (List A)
  slice lo hi b =
      if leb lo hi && leb hi (length b) then done (take (hi - lo) (drop lo b)) else panic

  pub slice-done :
      (lo hi : ℕ) (b : List A)
      → lo ≤ hi
      → hi ≤ length b
      → slice lo hi b ≡ done (take (hi - lo) (drop lo b))
  unfolding slice
  slice-done lo hi b h k = rw (le→leb lo hi h, le→leb hi (length b) k)

  pub index_done : (b : List A) (i : ℕ) → i < length b → (a : A) × (index b i ≡ done a)
  unfolding index
  index_done [] i h = elim h [ ]
  index_done (x ∷ xs) zero h = (x, refl)
  index_done (x ∷ xs) (suc i) h = index_done xs i (omega arith)

  pub index_append :
      (i : ℕ) (xs : List A) (y : A) (ys : List A)
      → length xs ≡ i
      → index (xs ++ (y ∷ ys)) i ≡ done y
  unfolding index
  index_append zero [] y ys h = refl
  index_append zero (x ∷ xs) y ys h = absurd (omega arith)
  index_append (suc i) [] y ys h = absurd (omega arith)
  index_append (suc i) (x ∷ xs) y ys h = index_append i xs y ys (omega arith)
