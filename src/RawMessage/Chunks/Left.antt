-- ===== src/RawMessage/Chunks/Left.antt =====
-- server/rawmessage/rawmessage.go: which chunks a call leaves on the connection.
use dracula.Protocol.Packet.{stop_symbol}
use dracula.RawMessage.{read_lines, fill, has_suffix}
use dracula.RawMessage.Lines.{joined, AllFull}
use dracula.RawMessage.Chunks.{delivered, lines_of, come_with, unfinished, Line, fill_left}
use dracula.RawMessage.Chunks.Lines.{
  unfinished-open, read_lines-append, read_lines-ended, lines_of-append, lines_of-come_with,
}
use dracula.Prelude.{
  List, Bytes, [], ◌∷◌, ◌++◌, ◌≡◌, refl, sym, ap, ap₂, ◌∙◌, append_assoc, append-nil, true,
  Bool-cases, inl, inr, arith, length, length-append,
}

-- What was still to come with the last of the lines.
abbrev pub last_left : List Bytes → List Line → List Bytes
last_left left [] = left
last_left left ((line, next) ∷ lines) = last_left next lines

last_left-append :
    (left : List Bytes) (xs ys : List Line)
    → last_left left (xs ++ ys) ≡ last_left (last_left left xs) ys
last_left-append left [] ys = refl
last_left-append left ((line, next) ∷ xs) ys = last_left-append next xs ys

-- Lines that a reader begins with, of which the last comes with the chunk before `more`.
pub record Begins (lines : List Line) (text : List Bytes) (more : List Bytes) : Type 0 where
  pub first : List Line
  pub others : List Line
  pub splits : lines ≡ first ++ others
  pub reads : lines_of first ≡ text
  pub left : (before : List Bytes) → last_left before first ≡ more

last_left-come_with :
    (more before : List Bytes) (ls : List Bytes) (l : Bytes)
    → last_left before (come_with more (ls ++ (l ∷ []))) ≡ more
last_left-come_with more before [] l = refl
last_left-come_with more before (x ∷ ls) l = last_left-come_with more more ls l

come_with-append :
    (more : List Bytes) (xs ys : List Bytes)
    → come_with more (xs ++ ys) ≡ come_with more xs ++ come_with more ys
come_with-append more [] ys = refl
come_with-append more (x ∷ xs) ys = ap (◌∷◌ (x, more)) (come_with-append more xs ys)

-- The chunk that ends a line, with anything behind the line's end.
ended :
    (p z lost : Bytes) (more : List Bytes)
    → read_lines p ≡ []
    → Begins
        (delivered p (((z ++ (10 ∷ [])) ++ lost) ∷ more))
        (read_lines (p ++ (z ++ (10 ∷ []))))
        more
unfolding delivered
ended p z lost more e =
    let text = read_lines (p ++ (z ++ (10 ∷ []))) in
    let behind = read_lines (unfinished p (z ++ (10 ∷ [])) ++ lost) in
    let l = unfinished p z ++ (10 ∷ []) in
    let last : text ≡ read_lines (p ++ z) ++ (l ∷ []) =
      read_lines-append p z (10 ∷ []) e
      ∙ ap (λ x. read_lines (p ++ z) ++ x)
          (read_lines-ended (unfinished p z) (unfinished-open p z e)) in
    let rest = delivered (unfinished p ((z ++ (10 ∷ [])) ++ lost)) more in
    record {
      first = come_with more text;
      others = come_with more behind ++ rest;
      splits =
          ap (λ ls. come_with more ls ++ rest) (read_lines-append p (z ++ (10 ∷ [])) lost e)
          ∙ ap (λ x. x ++ rest) (come_with-append more text behind)
          ∙ append_assoc (come_with more text) (come_with more behind) rest;
      reads = lines_of-come_with more text;
      left = λ before.
          ap (λ ls. last_left before (come_with more ls)) last
          ∙ last_left-come_with more before (read_lines (p ++ z)) l;
    }

-- The chunks of a text that ends with a line break, which is in the last of them; behind it stands
-- what the last chunk holds of the next texts.
pub begins :
    (p : Bytes) (chunks : List Bytes) (z lost : Bytes) (more : List Bytes)
    → read_lines p ≡ []
    → Begins
        (delivered p (chunks ++ (((z ++ (10 ∷ [])) ++ lost) ∷ more)))
        (read_lines (p ++ (joined chunks ++ (z ++ (10 ∷ [])))))
        more
unfolding delivered
begins p [] z lost more e = ended p z lost more e
begins p (chunk ∷ chunks) z lost more e =
    let rest = chunks ++ (((z ++ (10 ∷ [])) ++ lost) ∷ more) in
    let b = begins (unfinished p chunk) chunks z lost more (unfinished-open p chunk e) in
    let now = come_with rest (read_lines (p ++ chunk)) in
    record {
      first = now ++ b.first;
      others = b.others;
      splits = ap (λ x. now ++ x) b.splits ∙ sym (append_assoc now b.first b.others);
      reads =
          lines_of-append now b.first
          ∙ ap₂ (λ x y. x ++ y) (lines_of-come_with rest (read_lines (p ++ chunk))) b.reads
          ∙ sym (read_lines-append p chunk (joined chunks ++ (z ++ (10 ∷ []))) e)
          ∙ ap (λ x. read_lines (p ++ x))
              (sym (append_assoc chunk (joined chunks) (z ++ (10 ∷ []))));
      left = λ before. last_left-append before now b.first ∙ b.left (last_left before now);
    }

-- Where the loop collects all of the lines and they end with the stop symbol, it reads no further.
pub fill-Begins :
    (m : Bytes) (left : List Bytes) (first others : List Line)
    → AllFull (lines_of first)
    → has_suffix (m ++ joined (lines_of first)) stop_symbol ≡ true
    → fill m (lines_of first) ≡ m ++ joined (lines_of first)
    → (fill m (lines_of (first ++ others)) ≡ fill m (lines_of first))
      × (fill_left m left (first ++ others) ≡ last_left left first)
unfolding fill fill_left
fill-Begins m left [] [] full ends all = (refl, rw (rw (append-nil m) at ends))
fill-Begins m left [] ((line, next) ∷ others) full ends all =
    let stops : has_suffix m stop_symbol ≡ true = rw (append-nil m) at ends in (rw stops, rw stops)
fill-Begins m left ((line, next) ∷ first) others (long, full) ends all =
    let more = append_assoc m line (joined (lines_of first)) in
    elim (Bool-cases (has_suffix m stop_symbol)) [
      | inl stops ↦
          let stays : m ≡ m ++ (line ++ joined (lines_of first)) = rw stops at all in
          absurd (
            omega (
              arith,
              ap length stays,
              length-append m (line ++ joined (lines_of first)),
              length-append line (joined (lines_of first)),
            ))
      | inr goes ↦
          let (f, g) =
            fill-Begins (m ++ line) next first others full
              (ap (λ x. has_suffix x stop_symbol) more ∙ ends) ((rw goes at all) ∙ sym more) in
          (rw (goes, f), rw (goes, g))
    ]
