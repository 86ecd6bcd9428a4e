-- ===== src/Protocol/Pad.antt =====
-- protocol/protocol.go: `PadRight`.
use dracula.Prelude.{
  ℕ, ◌-◌, ◌≤◌, ◌≡◌, ◌++◌, arith, Bytes, leb, if◌then◌else◌, length, replicate, length-append,
  length-replicate, Bool-cases, inl, inr, le→leb,
}

abbrev pub space : ℕ
space = b' '

-- A slice that is long enough is returned as it is; a shorter one is copied and filled with spaces.
unfoldable pub pad_right : Bytes → ℕ → Bytes
pad_right b final_size =
    let input_len = length b in
    if leb final_size input_len then b else b ++ replicate (final_size - input_len) space

pub length-pad_right : (b : Bytes) (n : ℕ) → length b ≤ n → length (pad_right b n) ≡ n
unfolding pad_right
length-pad_right b n h = elim (Bool-cases (leb n (length b))) [
  | inl e ↦ rw e (ground arith)
  | inr e ↦ rw e (
      ground (
        arith,
        length-append b (replicate (n - length b) space),
        length-replicate (n - length b) space,
      ))
]

pub le-length-pad_right : (b : Bytes) (n : ℕ) → n ≤ length (pad_right b n)
unfolding pad_right
le-length-pad_right b n = elim (Bool-cases (leb n (length b))) [
  | inl e ↦ rw e (ground arith)
  | inr e ↦ rw e (
      ground (
        arith,
        length-append b (replicate (n - length b) space),
        length-replicate (n - length b) space,
      ))
]

-- A slice of the right size or longer is not padded.
pub pad_right_full : (b : Bytes) (n : ℕ) → n ≤ length b → pad_right b n ≡ b
unfolding pad_right
pad_right_full b n h = rw (le→leb n (length b) h)
