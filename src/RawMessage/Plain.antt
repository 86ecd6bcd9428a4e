-- ===== src/RawMessage/Plain.antt =====
-- server/rawmessage/rawmessage.go: the messages that are read as they were sent.
use dracula.Protocol.Packet.{packet_size, stop_symbol}
use dracula.Protocol.Pad.{space}
use dracula.Protocol.Text.{trim_right}
use dracula.RawMessage.{read_lines, UdpAddr, RawMessage, read_one_tcp_message}
use dracula.RawMessage.Lines.{contains_stop}
use dracula.RawMessage.RoundTrip.{read_one_tcp_message-read_lines}
use dracula.Prelude.{
  Bytes, [], ◌∷◌, ◌++◌, ◌≡◌, ℕ, sym, ap, ◌∙◌, append_assoc, false, replicate, some, ◌<◌, ◌≤◌, ◌+◌,
  length, subst, done,
}

-- A message that stands on a connection, before its stop symbol, as it is in memory: 1500 bytes that begin
-- with a visible ASCII character and end with no white space but spaces, and no stop symbol ends before
-- the one that follows.
pub record IsPlain (message : Bytes) : Type 0 where
  pub head : ℕ
  pub text : Bytes
  pub spaces : ℕ
  pub whole : message ≡ (head ∷ text) ++ replicate spaces space
  pub visible : 33 ≤ head
  pub ascii : head < 128
  pub trimmed : trim_right (head ∷ text) ≡ head ∷ text
  pub size : length (head ∷ text) + spaces ≡ packet_size
  pub once : contains_stop (message ++ (10 ∷ b'.' ∷ [])) ≡ false

-- What follows a message follows its spaces.
pub before :
    (message : Bytes) (plain : IsPlain message) (x : Bytes)
    → message ++ x ≡ (plain.head ∷ plain.text) ++ (replicate plain.spaces space ++ x)
before message plain x =
    ap (λ m. m ++ x) plain.whole
    ∙ append_assoc (plain.head ∷ plain.text) (replicate plain.spaces space) x

module _ (remote : UdpAddr) (conn : ℕ) where
  abbrev pub raw : Bytes → RawMessage
  raw b = record { message = b; remote = remote; maybe_tcp_client = some conn }

  pub read_one_tcp_message-IsPlain :
      (message : Bytes)
      → IsPlain message
      → read_one_tcp_message remote conn (read_lines (message ++ stop_symbol))
        ≡ done (some (raw message))
  read_one_tcp_message-IsPlain message plain =
      let w = plain.text in
      let n = plain.spaces in
      let once = ap contains_stop (sym (before message plain (10 ∷ b'.' ∷ []))) ∙ plain.once in
      subst
        (λ x.
          read_one_tcp_message remote conn (read_lines (x ++ stop_symbol)) ≡ done (some (raw x)))
        (sym plain.whole)
        (read_one_tcp_message-read_lines remote conn plain.head w n plain.visible plain.ascii
          plain.trimmed plain.size once)
