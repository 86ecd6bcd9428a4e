-- ===== src/Protocol/Text.antt =====
-- `strings.TrimSpace` and `bytes.TrimSpace`, as protocol/protocol.go and client/client.go use them:
-- white space is Unicode's, and the text is UTF-8. A space takes one byte, or two or three.
pub mod Ends
pub mod Padding
use dracula.Prelude.{
  ℕ, zero, suc, ◌+◌, ◌≡◌, refl, Bool, [], ◌∷◌, ◌++◌, arith, Bytes, ◌==◌, ◌||◌, ◌&&◌, leb,
  if◌then◌else◌, replicate,
}
use mathlib.Core.List.{reverse, reverse-append}
use dracula.Protocol.Pad.{space, pad_right}

-- '\t', '\n', '\v', '\f', '\r', ' '
abbrev pub is_ascii_space : ℕ → Bool
is_ascii_space c = leb 9 c && leb c 13 || c == b' '

-- U+0085 and U+00A0
abbrev is_space2 : ℕ → ℕ → Bool
is_space2 a b = a == 0xc2 && (b == 0x85 || b == 0xa0)

-- U+1680, U+2000 to U+200A, U+2028, U+2029, U+202F, U+205F and U+3000
abbrev is_space3 : ℕ → ℕ → ℕ → Bool
is_space3 a b c =
    a == 0xe1 && b == 0x9a && c == 0x80
    || a == 0xe2 && b == 0x80 && (leb 0x80 c && leb c 0x8a || c == 0xa8 || c == 0xa9 || c == 0xaf)
    || a == 0xe2 && b == 0x81 && c == 0x9f
    || a == 0xe3 && b == 0x80 && c == 0x80

-- The bytes of the space that a text begins with, 0 if it begins with none.
unfoldable pub leading_space : Bytes → ℕ
leading_space [] = 0
leading_space (a ∷ []) = if is_ascii_space a then 1 else 0
leading_space (a ∷ b ∷ []) = if is_ascii_space a then 1 else if is_space2 a b then 2 else 0
leading_space (a ∷ b ∷ c ∷ l) =
    if is_ascii_space a then 1 else if is_space2 a b then 2 else if is_space3 a b c then 3 else 0

-- The same of a text read from its end.
trailing_space : Bytes → ℕ
trailing_space [] = 0
trailing_space (a ∷ []) = if is_ascii_space a then 1 else 0
trailing_space (b ∷ a ∷ []) = if is_ascii_space b then 1 else if is_space2 a b then 2 else 0
trailing_space (c ∷ b ∷ a ∷ l) =
    if is_ascii_space c then 1 else if is_space2 b c then 2 else if is_space3 a b c then 3 else 0

-- The first argument is what is left of the space that is being dropped.
unfoldable pub trim_by : (Bytes → ℕ) → ℕ → Bytes → Bytes
trim_by width pending [] = []
trim_by width (suc k) (x ∷ l) = trim_by width k l
trim_by width zero (x ∷ l) = elim (width (x ∷ l)) [ zero ↦ x ∷ l | suc k ↦ trim_by width k l ]

unfoldable pub trim_left : Bytes → Bytes
unfolding trim_by leading_space
trim_left b = trim_by leading_space 0 b

unfoldable pub trim_right : Bytes → Bytes
unfolding trim_by trailing_space
trim_right b = reverse (trim_by trailing_space 0 (reverse b))

unfoldable pub trim_space : Bytes → Bytes
unfolding trim_left trim_right
trim_space b = trim_right (trim_left b)
