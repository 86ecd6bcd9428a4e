-- ===== src/RawMessage/Chunks/Lines.antt =====
-- server/rawmessage/rawmessage.go: the lines of a reader do not depend on the chunks that they come in.
use dracula.RawMessage.{read_lines, longer_line}
use dracula.RawMessage.Lines.{joined}
use dracula.RawMessage.Chunks.{delivered, lines_of, come_with, unfinished, Line}
use dracula.Prelude.{
  List, Bytes, [], ◌∷◌, ◌++◌, ◌≡◌, ℕ, refl, sym, ap, ◌∙◌, append_assoc, append-nil, ◌==◌, false,
  true, Bool-cases, inl, inr,
}

longer_line-nil : (c : ℕ) (ls : List Bytes) → longer_line c ls ≡ [] → ls ≡ []
unfolding longer_line
longer_line-nil c [] e = refl
longer_line-nil c (l ∷ ls) e = absurd (cc)

pub read_lines-nil : read_lines [] ≡ []
unfolding read_lines
read_lines-nil = refl

-- A text without a line break, and then one.
read_lines-break :
    (p : Bytes) (c : ℕ) (y : Bytes)
    → read_lines p ≡ []
    → (c == 10) ≡ true
    → read_lines (p ++ (c ∷ y)) ≡ (p ++ (c ∷ [])) ∷ read_lines y
unfolding read_lines longer_line
read_lines-break [] c y e h = rw h
read_lines-break (x ∷ p) c y e h = elim (Bool-cases (x == 10)) [
  | inl b ↦ let clash : (x ∷ []) ∷ read_lines p ≡ [] = rw b at e in absurd (cc)
  | inr b ↦
      let tail : longer_line x (read_lines p) ≡ [] = rw b at e in
      rw (b, read_lines-break p c y (longer_line-nil x (read_lines p) tail) h)
]

read_lines-open :
    (p : Bytes) (c : ℕ) → read_lines p ≡ [] → (c == 10) ≡ false → read_lines (p ++ (c ∷ [])) ≡ []
unfolding read_lines longer_line
read_lines-open [] c e h = rw h
read_lines-open (x ∷ p) c e h = elim (Bool-cases (x == 10)) [
  | inl b ↦ let clash : (x ∷ []) ∷ read_lines p ≡ [] = rw b at e in absurd (cc)
  | inr b ↦
      let tail : longer_line x (read_lines p) ≡ [] = rw b at e in
      rw (b, read_lines-open p c (longer_line-nil x (read_lines p) tail) h)
]

-- What is behind the last line break has none.
pub unfinished-open : (p a : Bytes) → read_lines p ≡ [] → read_lines (unfinished p a) ≡ []
unfolding unfinished
unfinished-open p [] e = e
unfinished-open p (c ∷ a) e = elim (Bool-cases (c == 10)) [
  | inl b ↦ rw b (unfinished-open [] a read_lines-nil)
  | inr b ↦ rw b (unfinished-open (p ++ (c ∷ [])) a (read_lines-open p c e b))
]

pub read_lines-append :
    (p a b : Bytes)
    → read_lines p ≡ []
    → read_lines (p ++ (a ++ b)) ≡ read_lines (p ++ a) ++ read_lines (unfinished p a ++ b)
unfolding unfinished
read_lines-append p [] b e = rw (append-nil p, e)
read_lines-append p (c ∷ a) b e = elim (Bool-cases (c == 10)) [
  | inl h ↦ rw (
    h,
    read_lines-break p c (a ++ b) e h,
    read_lines-break p c a e h,
    read_lines-append [] a b read_lines-nil,
  )
  | inr h ↦ rw h (
      ap read_lines (sym (append_assoc p (c ∷ []) (a ++ b)))
      ∙ read_lines-append (p ++ (c ∷ [])) a b (read_lines-open p c e h)
      ∙ ap (λ x. read_lines x ++ read_lines (unfinished (p ++ (c ∷ [])) a ++ b))
          (append_assoc p (c ∷ []) a))
]

-- A line that is not ended, and then is.
pub read_lines-ended :
    (p : Bytes) → read_lines p ≡ [] → read_lines (p ++ (10 ∷ [])) ≡ (p ++ (10 ∷ [])) ∷ []
read_lines-ended p e =
    read_lines-break p 10 [] e refl ∙ ap (λ ls. (p ++ (10 ∷ [])) ∷ ls) read_lines-nil

pub lines_of-append : (xs ys : List Line) → lines_of (xs ++ ys) ≡ lines_of xs ++ lines_of ys
lines_of-append [] ys = refl
lines_of-append (x ∷ xs) ys = ap (◌∷◌ x.0) (lines_of-append xs ys)

-- All lines that come with one chunk.
pub lines_of-come_with : (next : List Bytes) (ls : List Bytes) → lines_of (come_with next ls) ≡ ls
lines_of-come_with next [] = refl
lines_of-come_with next (l ∷ ls) = ap (◌∷◌ l) (lines_of-come_with next ls)

lines_of-delivered :
    (p : Bytes) (chunks : List Bytes)
    → read_lines p ≡ []
    → lines_of (delivered p chunks) ≡ read_lines (p ++ joined chunks)
unfolding delivered
lines_of-delivered p [] e = sym (ap read_lines (append-nil p) ∙ e)
lines_of-delivered p (chunk ∷ chunks) e = rw (
  lines_of-append (come_with chunks (read_lines (p ++ chunk)))
      (delivered (unfinished p chunk) chunks),
  lines_of-come_with chunks (read_lines (p ++ chunk)),
  lines_of-delivered (unfinished p chunk) chunks (unfinished-open p chunk e),
  read_lines-append p chunk (joined chunks) e,
)

-- However the network cuts a text into chunks, a reader finds the lines of the whole.
pub lines_of-joined :
    (chunks : List Bytes) → lines_of (delivered [] chunks) ≡ read_lines (joined chunks)
lines_of-joined chunks = lines_of-delivered [] chunks read_lines-nil
