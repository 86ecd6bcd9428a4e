-- ===== src/RawMessage/Chunks/Cases.antt =====
-- server/rawmessage/rawmessage.go: what a call of `ReadOneTcpMessage` makes of any chunks.
use dracula.Protocol.Packet.{packet_size, stop_symbol}
use dracula.Protocol.Pad.{pad_right, le-length-pad_right}
use dracula.Protocol.Text.{trim_left, trim_right}
use dracula.RawMessage.{
  read_lines, fill, has_suffix, cut_end, UdpAddr, RawMessage, read_one_tcp_message,
}
use dracula.RawMessage.Lines.{joined}
use dracula.RawMessage.Chunks.{delivered, lines_of}
use dracula.RawMessage.Chunks.Lines.{lines_of-joined}
use dracula.Prelude.{
  List, Bytes, ℕ, zero, suc, [], ◌∷◌, ◌++◌, ◌≡◌, ◌⊎◌, inl, inr, ◌<◌, ◌≤◌, ◌-◌, length, take,
  Outcome, Option, none, some, done, panic, refl, ap, ◌∙◌, subst, sym, true, false, Bool-cases, ltb,
  ltb→lt, arith, append-nil, append_assoc,
}

-- What `text` says of `front` and the lines behind it: it is the front with the fewest lines that end with
-- the stop symbol, or with all of the lines where none do.
pub record UpToStop (front : Bytes) (lines : List Bytes) (text : Bytes) : Type 0 where
  pub taken : ℕ
  pub enough : taken ≤ length lines
  pub whole : text ≡ front ++ joined (take taken lines)
  pub first : (k : ℕ) → k < taken → has_suffix (front ++ joined (take k lines)) stop_symbol ≡ false
  pub ends : (has_suffix text stop_symbol ≡ true) ⊎ (taken ≡ length lines)

-- The loop collects just that.
fill-UpToStop : (front : Bytes) (lines : List Bytes) → UpToStop front lines (fill front lines)
unfolding fill
fill-UpToStop front [] = record {
  taken = 0;
  enough = omega arith;
  whole = sym (append-nil front);
  first = λ k less. absurd (omega (arith, less));
  ends = inr refl;
}
fill-UpToStop front (line ∷ lines) = elim (Bool-cases (has_suffix front stop_symbol)) [
  | inl stops ↦ rw stops (record {
    taken = 0;
    enough = omega arith;
    whole = sym (append-nil front);
    first = λ k less. absurd (omega (arith, less));
    ends = inl stops;
  })
  | inr goes ↦
      let u = fill-UpToStop (front ++ line) lines in
      rw goes (record {
        taken = suc u.taken;
        enough = omega (arith, u.enough);
        whole = u.whole ∙ append_assoc front line (joined (take u.taken lines));
        first = first_cons front line lines u.taken goes u.first;
        ends = ends_cons (fill (front ++ line) lines) u.taken lines line u.ends;
      })
]
  where
    first_cons :
        (front line : Bytes) (lines : List Bytes) (n : ℕ)
        → has_suffix front stop_symbol ≡ false
        → ((k : ℕ)
            → k < n
            → has_suffix ((front ++ line) ++ joined (take k lines)) stop_symbol ≡ false)
        → (k : ℕ) → k < suc n
        → has_suffix (front ++ joined (take k (line ∷ lines))) stop_symbol ≡ false
    first_cons front line lines n goes later zero less =
        ap (λ x. has_suffix x stop_symbol) (append-nil front) ∙ goes
    first_cons front line lines n goes later (suc k) less =
        ap (λ x. has_suffix x stop_symbol) (sym (append_assoc front line (joined (take k lines))))
        ∙ later k (omega (arith, less))

    ends_cons :
        (text : Bytes) (n : ℕ) (lines : List Bytes) (line : Bytes)
        → (has_suffix text stop_symbol ≡ true) ⊎ (n ≡ length lines)
        → (has_suffix text stop_symbol ≡ true) ⊎ (suc n ≡ length (line ∷ lines))
    ends_cons text n lines line (inl e) = inl e
    ends_cons text n lines line (inr e) = inr (ap suc e)

-- The message that a text is made to: without its last three bytes and the white space then at its end, and
-- with spaces up to the size of a packet.
abbrev pub sent_of : UdpAddr → ℕ → Bytes → RawMessage
sent_of remote conn text = record {
  message = pad_right (trim_right (take (length text - 3) text)) packet_size;
  remote = remote;
  maybe_tcp_client = some conn;
}

-- No line; or the first line and what follows it up to the stop symbol, too short or sent.
abbrev pub Reads : UdpAddr → ℕ → List Bytes → Outcome (Option RawMessage) → Type 0
Reads remote conn [] o = o ≡ done none
Reads remote conn (line ∷ lines) o =
    (text : Bytes) × UpToStop (trim_left line) lines text
    × ((length text < 3) × (o ≡ panic)
        ⊎ (3 ≤ length text)
          × (o ≡ done (some (sent_of remote conn text)))
          × (packet_size ≤ length (sent_of remote conn text).message))

read_lines-Reads :
    (remote : UdpAddr) (conn : ℕ) (lines : List Bytes)
    → Reads remote conn lines (read_one_tcp_message remote conn lines)
unfolding read_one_tcp_message cut_end
read_lines-Reads remote conn [] = refl
read_lines-Reads remote conn (line ∷ lines) =
    let text = fill (trim_left line) lines in
    let kept = trim_right (take (length text - 3) text) in
    (
      text,
      fill-UpToStop (trim_left line) lines,
      elim (Bool-cases (ltb (length text) 3)) [
        | inl e ↦ inl (ltb→lt _ _ e, rw e)
        | inr e ↦ inr (ground arith, rw e, le-length-pad_right kept packet_size)
      ],
    )

-- A call of `ReadOneTcpMessage` does the same for any two cuts of the same bytes into chunks. It returns an
-- error and sends nothing if they hold no line break. Else let `text` be the first line, without the white
-- space at its front, and the fewest lines after it with which that ends with the stop symbol, or
-- all the lines if it never does: the call panics if `text` has fewer than three bytes, and else sends
-- `text` without its last three bytes and the white space before them, with spaces up to 1500 bytes.
pub read_one_tcp_message-delivered :
    (remote : UdpAddr) (conn : ℕ) (chunks chunks' : List Bytes)
    → joined chunks ≡ joined chunks'
    → (read_one_tcp_message remote conn (lines_of (delivered [] chunks))
        ≡ read_one_tcp_message remote conn (lines_of (delivered [] chunks')))
      × Reads remote conn
          (read_lines (joined chunks))
          (read_one_tcp_message remote conn (lines_of (delivered [] chunks)))
read_one_tcp_message-delivered remote conn chunks chunks' same = (
  ap (read_one_tcp_message remote conn)
      (lines_of-joined chunks ∙ ap read_lines same ∙ sym (lines_of-joined chunks')),
  subst (λ ls. Reads remote conn (read_lines (joined chunks)) (read_one_tcp_message remote conn ls))
      (sym (lines_of-joined chunks)) (read_lines-Reads remote conn (read_lines (joined chunks))),
)
