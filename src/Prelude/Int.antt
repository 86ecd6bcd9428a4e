-- ===== src/Prelude/Int.antt =====
-- Signed integers over the native numbers, and the wrap-around arithmetic of Go's `int64`.
use Prim.Native.Nat.{ℕ, suc, ◌+◌, ◌-◌, ◌^◌, ◌≤◌, ◌<◌}
use mathlib.Core.Bool.{Bool}
use mathlib.Core.Path.{◌≡◌}
use native.Mathlib.Omega.{arith}
use dracula.Prelude.Tests.{ltb, leb, if◌then◌else◌}

-- `negsuc n` is -(n + 1).
pub data ℤ : Type 0 where
  pos : ℕ → ℤ
  negsuc : ℕ → ℤ

abbrev pub pos_part : ℤ → ℕ
pos_part (pos n) = n
pos_part (negsuc n) = 0

abbrev pub neg_part : ℤ → ℕ
neg_part (pos n) = 0
neg_part (negsuc n) = suc n

-- a - b, as an integer.
abbrev pub sub_ℕ : ℕ → ℕ → ℤ
sub_ℕ a b = if leb b a then pos (a - b) else negsuc (b - a - 1)

infix 50 ◌≤ℤ◌ ◌<ℤ◌
abbrev pub ◌≤ℤ◌ : ℤ → ℤ → Type 0
a ≤ℤ b = pos_part a + neg_part b ≤ pos_part b + neg_part a

abbrev pub ◌<ℤ◌ : ℤ → ℤ → Type 0
a <ℤ b = pos_part a + neg_part b < pos_part b + neg_part a

abbrev pub ltb_ℤ : ℤ → ℤ → Bool
ltb_ℤ a b = ltb (pos_part a + neg_part b) (pos_part b + neg_part a)

-- A sum or a difference of two `int64` values leaves the range by less than 2 ^ 64.
abbrev pub wrap64 : ℤ → ℤ
wrap64 (pos n) = if ltb n (2 ^ 63) then pos n else negsuc (2 ^ 64 - n - 1)
wrap64 (negsuc n) = if ltb n (2 ^ 63) then negsuc n else pos (2 ^ 64 - n - 1)

unfoldable pub add64 : ℤ → ℤ → ℤ
add64 a b = wrap64 (sub_ℕ (pos_part a + pos_part b) (neg_part a + neg_part b))

unfoldable pub sub64 : ℤ → ℤ → ℤ
sub64 a b = wrap64 (sub_ℕ (pos_part a + neg_part b) (neg_part a + pos_part b))

-- Where the true sum is below 2 ^ 63, the sum of two times is exact.
pub add64_parts : (now ttl : ℕ) → now + ttl < 2 ^ 63 → add64 (pos now) (pos ttl) ≡ pos (now + ttl)
unfolding add64
add64_parts now ttl h = ground arith

pub sub64_parts :
    (now ttl : ℕ) → now < 2 ^ 63 → ttl < 2 ^ 63 → sub64 (pos now) (pos ttl) ≡ sub_ℕ now ttl
unfolding sub64
sub64_parts now ttl h k = ground arith
