-- ===== src/Protocol/Words.antt =====
-- protocol/protocol.go: little-endian words. `binary.LittleEndian` indexes its argument, so a slice
-- that is too short is a panic; longer slices are read at their front.
use dracula.Prelude.{
  take, ℕ, ◌+◌, ◌*◌, ◌/◌, ◌%◌, ◌^◌, ◌<◌, ◌≤◌, ◌≡◌, refl, ap, [], ◌∷◌, ◌++◌, arith, Bytes, Outcome,
  done, ◌>>=◌, index, length,
}

unfoldable pub uint32_from_bytes : Bytes → Outcome ℕ
unfolding index
uint32_from_bytes b = do
  b3 ← index b 3
  b2 ← index b 2
  b1 ← index b 1
  b0 ← index b 0
  done (b0 + b1 * 2 ^ 8 + b2 * 2 ^ 16 + b3 * 2 ^ 24)

unfoldable pub uint32_to_bytes : ℕ → Bytes
uint32_to_bytes u = u % 256 ∷ u / 2 ^ 8 % 256 ∷ u / 2 ^ 16 % 256 ∷ u / 2 ^ 24 % 256 ∷ []

unfoldable pub uint64_from_bytes : Bytes → Outcome ℕ
unfolding index
uint64_from_bytes b = do
  b7 ← index b 7
  b6 ← index b 6
  b5 ← index b 5
  b4 ← index b 4
  b3 ← index b 3
  b2 ← index b 2
  b1 ← index b 1
  b0 ← index b 0
  let low = b0 + b1 * 2 ^ 8 + b2 * 2 ^ 16 + b3 * 2 ^ 24
  let high = b4 * 2 ^ 32 + b5 * 2 ^ 40 + b6 * 2 ^ 48 + b7 * 2 ^ 56
  done (low + high)

unfoldable pub uint64_to_bytes : ℕ → Bytes
uint64_to_bytes u =
    u % 256
    ∷ u / 2 ^ 8 % 256
    ∷ u / 2 ^ 16 % 256
    ∷ u / 2 ^ 24 % 256
    ∷ u / 2 ^ 32 % 256
    ∷ u / 2 ^ 40 % 256
    ∷ u / 2 ^ 48 % 256
    ∷ u / 2 ^ 56 % 256
    ∷ []

pub length-uint32_to_bytes : (u : ℕ) → length (uint32_to_bytes u) ≡ 4
unfolding uint32_to_bytes
length-uint32_to_bytes u = refl

-- A word is read back from its bytes, whatever follows them.
pub uint32_from_bytes-to_bytes :
    (u : ℕ) (rest : Bytes) → u < 2 ^ 32 → uint32_from_bytes (uint32_to_bytes u ++ rest) ≡ done u
unfolding uint32_from_bytes uint32_to_bytes
uint32_from_bytes-to_bytes u rest h = ap done (omega arith)

pub uint32_round_trip : (u : ℕ) → u < 2 ^ 32 → uint32_from_bytes (uint32_to_bytes u) ≡ done u
unfolding uint32_from_bytes uint32_to_bytes
uint32_round_trip u h = ap done (omega arith)

pub uint64_from_bytes-to_bytes :
    (u : ℕ) (rest : Bytes) → u < 2 ^ 64 → uint64_from_bytes (uint64_to_bytes u ++ rest) ≡ done u
unfolding uint64_from_bytes uint64_to_bytes
uint64_from_bytes-to_bytes u rest h = ap done (omega arith)

-- Enough bytes are enough, and nothing past the word is read.
pub uint32_from_bytes_total :
    (b : Bytes)
    → 4 ≤ length b
    → (u : ℕ) × (uint32_from_bytes b ≡ done u)
      × ((rest : Bytes) → uint32_from_bytes (b ++ rest) ≡ done u)
unfolding uint32_from_bytes
uint32_from_bytes_total (b0 ∷ b1 ∷ b2 ∷ b3 ∷ b) h = (_, refl, λ rest. refl)
uint32_from_bytes_total b h = absurd (omega arith)

pub uint64_from_bytes_total :
    (b : Bytes)
    → 8 ≤ length b
    → (u : ℕ) × (uint64_from_bytes b ≡ done u)
      × ((rest : Bytes) → uint64_from_bytes (b ++ rest) ≡ done u)
unfolding uint64_from_bytes
uint64_from_bytes_total (b0 ∷ b1 ∷ b2 ∷ b3 ∷ b4 ∷ b5 ∷ b6 ∷ b7 ∷ b) h = (_, refl, λ rest. refl)
uint64_from_bytes_total b h = absurd (omega arith)

-- The word of a longer slice is that of its first bytes.
pub uint64_from_bytes-take :
    (b : Bytes) → 8 ≤ length b → uint64_from_bytes (take 8 b) ≡ uint64_from_bytes b
unfolding uint64_from_bytes
uint64_from_bytes-take (b0 ∷ b1 ∷ b2 ∷ b3 ∷ b4 ∷ b5 ∷ b6 ∷ b7 ∷ b) h = refl
uint64_from_bytes-take b h = absurd (omega arith)

-- A word that is read stands in the first four bytes.
pub uint32_from_bytes-take :
    (b : Bytes) (u : ℕ)
    → uint32_from_bytes b ≡ done u
    → (4 ≤ length b) × (uint32_from_bytes (take 4 b) ≡ done u)
unfolding uint32_from_bytes
uint32_from_bytes-take (b0 ∷ b1 ∷ b2 ∷ b3 ∷ b) u e = (omega arith, e)
uint32_from_bytes-take [] u e = absurd (cc)
uint32_from_bytes-take (b0 ∷ []) u e = absurd (cc)
uint32_from_bytes-take (b0 ∷ b1 ∷ []) u e = absurd (cc)
uint32_from_bytes-take (b0 ∷ b1 ∷ b2 ∷ []) u e = absurd (cc)
