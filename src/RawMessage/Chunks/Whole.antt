-- ===== src/RawMessage/Chunks/Whole.antt =====
-- server/rawmessage/rawmessage.go: a message that arrives whole, in any chunks, is read whole, and the next
-- call begins with the chunk that follows.
use dracula.Protocol.Packet.{stop_symbol}
use dracula.Protocol.Pad.{space}
use dracula.Protocol.Text.{trim_left}
use dracula.RawMessage.{read_lines, fill, has_suffix, UdpAddr, read_one_tcp_message}
use dracula.RawMessage.Lines.{joined, AllFull, contains_stop, Splits, read_lines-Splits}
use dracula.RawMessage.Plain.{IsPlain, before, raw, read_one_tcp_message-IsPlain}
use dracula.RawMessage.RoundTrip.{first_line, fill_all, trim_left-plain}
use dracula.RawMessage.Chunks.{delivered, lines_of, Line, left_after}
use dracula.RawMessage.Chunks.Lines.{read_lines-nil}
use dracula.RawMessage.Chunks.Left.{begins, fill-Begins, last_left}
use dracula.Prelude.{
  List, Bytes, [], ◌∷◌, ◌++◌, ◌≡◌, ℕ, refl, sym, ap, ◌∙◌, append_assoc, false, true, replicate,
  some, arith, ◌+◌, length, length-append, subst, done, bytes_eq_refl, drop-append_length, ◌-◌,
  le→leb,
}

has_suffix-append : (b : Bytes) → has_suffix (b ++ stop_symbol) stop_symbol ≡ true
unfolding has_suffix
has_suffix-append b =
    let size : length (b ++ stop_symbol) ≡ length b + 3 = length-append b stop_symbol in
    let front : length (b ++ stop_symbol) - 3 ≡ length b = omega (arith, size) in
    rw (
      le→leb 3 (length (b ++ stop_symbol)) (omega (arith, size)),
      front,
      drop-append_length (length b) b stop_symbol refl,
      bytes_eq_refl stop_symbol,
    )

-- The loop collects all of the lines.
abbrev Collects : Bytes → List Bytes → Type 0
Collects whole [] = ⊥
Collects whole (line ∷ lines) =
    (fill (trim_left line) lines ≡ whole) × (trim_left line ++ joined lines ≡ whole) × AllFull lines

read_lines-Collects :
    (message : Bytes)
    → IsPlain message
    → Collects (message ++ stop_symbol) (read_lines (message ++ stop_symbol))
read_lines-Collects message plain =
    let c = plain.head in
    let b = plain.text ++ (replicate plain.spaces space ++ (10 ∷ b'.' ∷ [])) in
    let text : message ++ stop_symbol ≡ c ∷ (b ++ (10 ∷ [])) =
      before message plain stop_symbol ∙ simp append_assoc in
    let once : contains_stop (c ∷ b) ≡ false =
      ap contains_stop (sym (before message plain (10 ∷ b'.' ∷ []))) ∙ plain.once in
    let (l, lines, split) = first_line c b (ground arith) in
    let s = read_lines-Splits (c ∷ b) in
    let s' : Splits (c ∷ (b ++ (10 ∷ []))) ((c ∷ l) ∷ lines) =
      subst (Splits (c ∷ (b ++ (10 ∷ [])))) split s in
    let filled = fill_all c b l lines plain.visible plain.ascii split once in
    let front = ap (λ x. x ++ joined lines) (trim_left-plain c l plain.visible plain.ascii) in
    subst (λ x. Collects x (read_lines x)) (sym text)
      (subst (Collects (c ∷ (b ++ (10 ∷ [])))) (sym split) (filled, front ∙ s'.joins, s'.full.1))

module _ (remote : UdpAddr) (conn : ℕ) where
  -- What a call makes of its lines: the message is sent, and `more` is still to come.
  abbrev pub Takes : List Line → Bytes → List Bytes → Type 0
  Takes lines message more =
      (read_one_tcp_message remote conn (lines_of lines) ≡ done (some (raw remote conn message)))
      × (left_after lines ≡ more)

  first-Takes :
      (message : Bytes) (first others : List Line) (more : List Bytes)
      → Collects (message ++ stop_symbol) (lines_of first)
      → read_one_tcp_message remote conn (lines_of first) ≡ done (some (raw remote conn message))
      → ((before : List Bytes) → last_left before first ≡ more)
      → Takes (first ++ others) message more
  unfolding read_one_tcp_message left_after
  first-Takes message [] others more none_read alone left = absurd none_read
  first-Takes message ((line, next) ∷ first) others more (filled, joins, full) alone left =
      let (f, g) =
        fill-Begins (trim_left line) next first others full
          (ap (λ x. has_suffix x stop_symbol) joins ∙ has_suffix-append message)
          (filled ∙ sym joins) in
      (rw f alone, g ∙ left [])

  -- A message that arrives in any chunks, of which the last may hold the beginning of what was sent
  -- after it, is read whole, and what stood behind it is lost.
  pub delivered-Takes :
      (message : Bytes) (chunks : List Bytes) (z lost : Bytes) (more : List Bytes)
      → IsPlain message
      → joined chunks ++ (z ++ (10 ∷ [])) ≡ message ++ stop_symbol
      → Takes (delivered [] (chunks ++ (((z ++ (10 ∷ [])) ++ lost) ∷ more))) message more
  delivered-Takes message chunks z lost more plain e =
      let b = begins [] chunks z lost more read_lines-nil in
      let reads : lines_of b.first ≡ read_lines (message ++ stop_symbol) =
        b.reads ∙ ap read_lines e in
      let alone : read_one_tcp_message remote conn (lines_of b.first)
          ≡ done (some (raw remote conn message)) =
        ap (read_one_tcp_message remote conn) reads
        ∙ read_one_tcp_message-IsPlain remote conn message plain in
      subst (λ ls. Takes ls message more) (sym b.splits)
        (first-Takes message b.first b.others more
          (subst (Collects (message ++ stop_symbol)) (sym reads)
            (read_lines-Collects message plain))
          alone b.left)
