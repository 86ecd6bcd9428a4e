-- ===== src/RawMessage/Chunks/Shorter.antt =====
-- server/rawmessage/rawmessage.go: every call that finds a line uses chunks up.
use dracula.Protocol.Packet.{stop_symbol}
use dracula.Protocol.Text.{trim_left}
use dracula.RawMessage.{read_lines, has_suffix}
use dracula.RawMessage.Chunks.{delivered, come_with, unfinished, Line, fill_left, left_after}
use dracula.Prelude.{
  List, Bytes, [], ◌∷◌, ◌++◌, ◌≡◌, ℕ, suc, Bool-cases, inl, inr, arith, ◌<◌, length, subst,
}

-- With every line fewer chunks are still to come.
abbrev Under : ℕ → List Line → Type 0
Under n [] = Unit
Under n ((line, next) ∷ lines) = (length next < n) × Under n lines

Under-append : (n : ℕ) (xs ys : List Line) → Under n xs → Under n ys → Under n (xs ++ ys)
Under-append n [] ys ok ok' = ok'
Under-append n (x ∷ xs) ys (now, ok) ok' = (now, Under-append n xs ys ok ok')

Under-suc : (n : ℕ) (ls : List Line) → Under n ls → Under (suc n) ls
Under-suc n [] ok = tt
Under-suc n (l ∷ ls) (now, ok) = (omega (arith, now), Under-suc n ls ok)

Under-come_with : (next ls : List Bytes) → Under (suc (length next)) (come_with next ls)
Under-come_with next [] = tt
Under-come_with next (l ∷ ls) = (omega arith, Under-come_with next ls)

delivered-Under : (p : Bytes) (chunks : List Bytes) → Under (length chunks) (delivered p chunks)
unfolding delivered
delivered-Under p [] = tt
delivered-Under p (chunk ∷ chunks) =
    Under-append (suc (length chunks)) (come_with chunks (read_lines (p ++ chunk)))
      (delivered (unfinished p chunk) chunks) (Under-come_with chunks (read_lines (p ++ chunk)))
      (Under-suc (length chunks) (delivered (unfinished p chunk) chunks)
        (delivered-Under (unfinished p chunk) chunks))

fill_left-Under :
    (n : ℕ) (m : Bytes) (left : List Bytes) (lines : List Line)
    → length left < n
    → Under n lines
    → length (fill_left m left lines) < n
unfolding fill_left
fill_left-Under n m left [] small ok = elim (Bool-cases (has_suffix m stop_symbol)) [
  | inl e ↦ rw e small
  | inr e ↦ rw e (omega (arith, small))
]
fill_left-Under n m left ((line, next) ∷ lines) small (now, ok) =
    elim (Bool-cases (has_suffix m stop_symbol)) [
      | inl e ↦ rw e small
      | inr e ↦ rw e (fill_left-Under n (m ++ line) next lines now ok)
    ]

left_after-Under :
    (n : ℕ) (line : Line) (lines : List Line)
    → Under n (line ∷ lines)
    → length (left_after (line ∷ lines)) < n
unfolding left_after
left_after-Under n (line, next) lines (now, ok) =
    fill_left-Under n (trim_left line) next lines now ok

pub length-left_after :
    (chunks : List Bytes) (line : Line) (lines : List Line)
    → delivered [] chunks ≡ line ∷ lines
    → length (left_after (line ∷ lines)) < length chunks
length-left_after chunks line lines e =
    left_after-Under (length chunks) line lines
      (subst (Under (length chunks)) e (delivered-Under [] chunks))
