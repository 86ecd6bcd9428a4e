-- ===== src/RawMessage/RoundTrip.antt =====
-- server/rawmessage/rawmessage.go: the reader takes a packet that was written with a stop symbol back.
use dracula.Protocol.Text.Padding.{trim_right-append}
use dracula.RawMessage.Lines.{fill-joined, Splits, joined, contains_stop, read_lines-Splits}
use dracula.Protocol.Packet.{packet_size, stop_symbol}
use dracula.Protocol.Pad.{space, pad_right}
use dracula.Prelude.{
  append_assoc, zero, leb, suc, sym, le→leb, append-nil, take-append_length, ◌∙◌, ◌-◌, refl, some,
  subst, le→ltb_false, replicate, ltb, ap, length-append, ◌+◌, arith, [], ◌∷◌, length, done, false,
  ◌<◌, ◌≡◌, ◌==◌, ◌++◌, ◌≤◌, List, Bytes, ℕ,
}
use dracula.Protocol.Text.{trim_right, leading_space, trim_by, trim_left}
use dracula.RawMessage.{
  fill, stop_symbol, UdpAddr, longer_line, read_one_tcp_message, cut_end, read_lines,
}

pub first_line :
    (c : ℕ) (b : Bytes)
    → (c == 10) ≡ false
    → (l : Bytes) × (lines : List Bytes) × (read_lines (c ∷ (b ++ (10 ∷ []))) ≡ (c ∷ l) ∷ lines)
unfolding read_lines longer_line
first_line c b e = found (read_lines (b ++ (10 ∷ []))) refl
  where
    found :
        (lines : List Bytes)
        → read_lines (b ++ (10 ∷ [])) ≡ lines
        → (l : Bytes) × (lines' : List Bytes) × (read_lines (c ∷ (b ++ (10 ∷ [])))
            ≡ (c ∷ l) ∷ lines')
    found [] e' =
        let s = read_lines-Splits b in
        absurd (
          omega
            (arith, ap length s.joins, ap (λ ls. length (joined ls)) e', length-append b (10 ∷ [])))
    found (line ∷ lines) e' = (line, lines, rw (e, e'))

-- A text that begins with a visible ASCII character has no white space in front.
pub trim_left-plain : (c : ℕ) (l : Bytes) → 33 ≤ c → c < 128 → trim_left (c ∷ l) ≡ c ∷ l
unfolding trim_left trim_by leading_space
trim_left-plain c [] lo hi = ground arith
trim_left-plain c (x ∷ []) lo hi = ground arith
trim_left-plain c (x ∷ y ∷ l) lo hi = ground arith

-- What the loop collects of a text that ends with its first stop symbol is the text.
pub fill_all :
    (c : ℕ) (b : Bytes) (l : Bytes) (lines : List Bytes)
    → 33 ≤ c
    → c < 128
    → read_lines (c ∷ (b ++ (10 ∷ []))) ≡ (c ∷ l) ∷ lines
    → contains_stop (c ∷ b) ≡ false
    → fill (trim_left (c ∷ l)) lines ≡ c ∷ (b ++ (10 ∷ []))
fill_all c b l lines lo hi e none_inside =
    let s : Splits (c ∷ (b ++ (10 ∷ []))) ((c ∷ l) ∷ lines) =
      subst (Splits (c ∷ (b ++ (10 ∷ [])))) e (read_lines-Splits (c ∷ b)) in
    ap (λ line. fill line lines) (trim_left-plain c l lo hi)
    ∙ fill-joined (c ∷ l) lines (c ∷ b) 10 s.full.1 s.joins none_inside
    ∙ s.joins

cut_end-append : (b : Bytes) → cut_end 3 (b ++ stop_symbol) ≡ done b
unfolding cut_end
cut_end-append b =
    let size : length (b ++ stop_symbol) ≡ length b + 3 = length-append b stop_symbol in
    let enough : ltb (length (b ++ stop_symbol)) 3 ≡ false =
      le→ltb_false _ _ (omega (arith, size)) in
    let front : length (b ++ stop_symbol) - 3 ≡ length b = omega (arith, size) in
    rw (enough, front, take-append_length (length b) b stop_symbol refl)

-- Padding puts back the spaces that were trimmed.
pad_right-trim_right :
    (w : Bytes) (n : ℕ)
    → trim_right w ≡ w
    → length w + n ≡ packet_size
    → pad_right (trim_right (w ++ replicate n space)) packet_size ≡ w ++ replicate n space
unfolding pad_right
pad_right-trim_right w zero e size =
    rw (trim_right-append w 0, e, append-nil w, le→leb packet_size (length w) (omega arith))
pad_right-trim_right w (suc n) e size =
    let missing : packet_size - length w ≡ suc n = omega arith in
    let short : leb packet_size (length w) ≡ false = ground arith in
    rw (trim_right-append w (suc n), e, short, missing)

-- A packet that was written to a TCP connection, the stop symbol after its 1500 bytes, is read back as
-- it was, if it begins with a visible ASCII character, if the white space at its end is all spaces,
-- and if no stop symbol ends before the last.
pub read_one_tcp_message-read_lines :
    (remote : UdpAddr) (conn c : ℕ) (w : Bytes) (n : ℕ)
    → 33 ≤ c
    → c < 128
    → trim_right (c ∷ w) ≡ c ∷ w
    → length (c ∷ w) + n ≡ packet_size
    → contains_stop ((c ∷ w) ++ (replicate n space ++ (10 ∷ b'.' ∷ []))) ≡ false
    → read_one_tcp_message remote conn (read_lines (((c ∷ w) ++ replicate n space) ++ stop_symbol))
      ≡ done (
          some (record {
            message = (c ∷ w) ++ replicate n space;
            remote = remote;
            maybe_tcp_client = some conn;
          }))
unfolding read_one_tcp_message
read_one_tcp_message-read_lines remote conn c w n lo hi trimmed size none_inside =
    let b = w ++ (replicate n space ++ (10 ∷ b'.' ∷ [])) in
    let text : ((c ∷ w) ++ replicate n space) ++ stop_symbol ≡ c ∷ (b ++ (10 ∷ [])) =
      simp append_assoc in
    let (l, lines, split) = first_line c b (ground arith) in
    rw (
      ap read_lines text ∙ split,
      fill_all c b l lines lo hi split none_inside ∙ sym text,
      cut_end-append ((c ∷ w) ++ replicate n space),
      pad_right-trim_right (c ∷ w) n trimmed size,
    )
