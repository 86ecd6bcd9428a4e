-- ===== src/RawMessage/Lines.antt =====
-- server/rawmessage/rawmessage.go: the lines of a text, and the loop that joins them up to the stop
-- symbol.
use dracula.Protocol.Packet.{stop_symbol}
use dracula.RawMessage.{stop_symbol, longer_line, fill, has_suffix, read_lines}
use dracula.Prelude.{
  inr, append_assoc, ◌∙◌, refl, inl, bytes_eq_iff, zero, Bool-cases, bytes_eq, length-append, ◌-◌,
  append-nil, ap, ◌&&◌, sym, suc, ◌||◌, arith, length, ◌==◌, drop, true, false, [], ◌≤◌, ◌++◌, take,
  Bool, ◌≡◌, ◌∷◌, ℕ, Bytes, List,
}

abbrev pub joined : List Bytes → Bytes
joined [] = []
joined (line ∷ lines) = line ++ joined lines

abbrev pub AllFull : List Bytes → Type 0
AllFull [] = Unit
AllFull (line ∷ lines) = (1 ≤ length line) × AllFull lines

-- A text that ends its last line is its lines, none of them empty, and it has one.
pub record Splits (b : Bytes) (lines : List Bytes) : Type 0 where
  pub joins : joined lines ≡ b
  pub full : AllFull lines

longer_line-Splits :
    (c : ℕ) (b : Bytes) (lines : List Bytes)
    → Splits (b ++ (10 ∷ [])) lines
    → Splits (c ∷ (b ++ (10 ∷ []))) (longer_line c lines)
unfolding longer_line
longer_line-Splits c b [] s = absurd (omega (arith, ap length s.joins, length-append b (10 ∷ [])))
longer_line-Splits c b (line ∷ lines) s = record {
  joins = ap (◌∷◌ c) s.joins;
  full = (omega arith, s.full.1);
}

pub read_lines-Splits : (b : Bytes) → Splits (b ++ (10 ∷ [])) (read_lines (b ++ (10 ∷ [])))
unfolding read_lines
read_lines-Splits [] = record { joins = refl; full = (omega arith, tt) }
read_lines-Splits (c ∷ b) =
    let s = read_lines-Splits b in
    elim (Bool-cases (c == 10)) [
      | inl e ↦ rw e (record { joins = ap (◌∷◌ c) s.joins; full = (omega arith, s.full) })
      | inr e ↦ rw e (longer_line-Splits c b (read_lines (b ++ (10 ∷ []))) s)
    ]

abbrev pub starts_stop : Bytes → Bool
starts_stop (x ∷ y ∷ z ∷ b) = x == 10 && y == b'.' && z == 10
starts_stop _ = false

-- Does the stop symbol stand somewhere in the text?
abbrev pub contains_stop : Bytes → Bool
contains_stop [] = false
contains_stop (c ∷ b) = starts_stop (c ∷ b) || contains_stop b

contains_stop-append : (x y : Bytes) → contains_stop (x ++ (10 ∷ b'.' ∷ 10 ∷ y)) ≡ true
contains_stop-append [] y = refl
contains_stop-append (c ∷ x) y = ground (arith, contains_stop-append x y)

take-drop {ℓ} : {A : Type ℓ} (n : ℕ) (xs : List A) → take n xs ++ drop n xs ≡ xs
take-drop zero xs = refl
take-drop (suc n) [] = refl
take-drop (suc n) (x ∷ xs) = ap (◌∷◌ x) (take-drop n xs)

has_suffix-contains_stop :
    (m y : Bytes) → has_suffix m stop_symbol ≡ true → contains_stop (m ++ y) ≡ true
unfolding has_suffix
has_suffix-contains_stop m y h =
    let n = length m - 3 in
    let equal : bytes_eq (drop n m) stop_symbol ≡ true = ground arith in
    let ends : drop n m ≡ stop_symbol = (bytes_eq_iff (drop n m) stop_symbol).0 equal in
    let whole : m ≡ take n m ++ stop_symbol = sym (take-drop n m) ∙ ap (λ b. take n m ++ b) ends in
    ap (λ b. contains_stop (b ++ y)) whole
    ∙ ap contains_stop (append_assoc (take n m) stop_symbol y)
    ∙ contains_stop-append (take n m) y

-- What stands before the last byte begins with any proper front of the text.
front : (a b t : Bytes) (c : ℕ) → a ++ b ≡ t ++ (c ∷ []) → 1 ≤ length b → (y : Bytes) × (t ≡ a ++ y)
front [] b t c e h = (t, refl)
front (x ∷ a) b [] c e h = absurd (omega (arith, ap length e, length-append a b))
front (x ∷ a) b (x' ∷ t) c e h = let (y, f) = front a b t c (cc) h in (y, cc)

-- If the stop symbol stands nowhere before the end, nothing is left out.
pub fill-joined :
    (message : Bytes) (lines : List Bytes) (t : Bytes) (c : ℕ)
    → AllFull lines
    → message ++ joined lines ≡ t ++ (c ∷ [])
    → contains_stop t ≡ false
    → fill message lines ≡ message ++ joined lines
unfolding fill
fill-joined message [] t c full e none_inside = sym (append-nil message)
fill-joined message (line ∷ lines) t c (long, full) e none_inside =
    elim (Bool-cases (has_suffix message stop_symbol)) [
      | inl ended ↦
          let (y, f) =
            front message (line ++ joined lines) t c e
              (omega (arith, length-append line (joined lines))) in
          let inside : contains_stop t ≡ true =
            ap contains_stop f ∙ has_suffix-contains_stop message y ended in
          absurd (cc)
      | inr open' ↦
          let more = append_assoc message line (joined lines) in
          rw open' (fill-joined (message ++ line) lines t c full (more ∙ e) none_inside ∙ more)
    ]
