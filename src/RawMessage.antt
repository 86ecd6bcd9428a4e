-- ===== src/RawMessage.antt =====
-- server/rawmessage/rawmessage.go: messages, and the reader of one message off a TCP connection.
-- The reader asks for lines: a connection is the bytes that it delivers until its end or an error,
-- of which `ReadBytes` returns the whole lines one by one, and then an error. What the reader has
-- buffered past a message is lost with it: Chunks has what a connection still delivers then.
pub mod Reader
pub mod Lines
pub mod RoundTrip
pub mod Plain
pub mod Packets
pub mod Chunks
mod Tests
use dracula.Prelude.Int.{ℤ}
use dracula.Protocol.Pad.{pad_right}
use dracula.Protocol.Text.{trim_right, trim_left}
use dracula.Protocol.Packet.{packet_size, stop_symbol}
use dracula.Prelude.{
  some, ◌-◌, drop, ◌>>=◌, take, bytes_eq, panic, ◌&&◌, [], none, ltb, ◌++◌, length, ◌==◌, done,
  if◌then◌else◌, leb, ◌∷◌, Outcome, Bool, List, Option, ℕ, Bytes,
}

-- `net.UDPAddr`
pub record UdpAddr : Type 0 where
  pub ip : Bytes
  pub port : ℤ

-- A TCP connection is a number.
pub record RawMessage : Type 0 where
  pub message : Bytes
  pub remote : UdpAddr
  pub maybe_tcp_client : Option ℕ

-- One byte more in front of the first line.
longer_line : ℕ → List Bytes → List Bytes
longer_line c [] = []
longer_line c (line ∷ rest) = (c ∷ line) ∷ rest

-- What `ReadBytes('\n')` returns before its error; a last line without its end comes with the error,
-- and is not used.
unfoldable pub read_lines : Bytes → List Bytes
unfolding longer_line
read_lines [] = []
read_lines (c ∷ b) =
    let rest = read_lines b in if c == 10 then (c ∷ []) ∷ rest else longer_line c rest

-- `bytes.HasSuffix`
unfoldable pub has_suffix : Bytes → Bytes → Bool
has_suffix b suffix =
    leb (length suffix) (length b) && bytes_eq (drop (length b - length suffix) b) suffix

-- The loop that fills the message up to the stop symbol, or to an error.
unfoldable pub fill : Bytes → List Bytes → Bytes
fill message [] = message
fill message (line ∷ lines) =
    let filled = fill (message ++ line) lines in
    if has_suffix message stop_symbol then message else filled

-- `b[0 : len(b)-n]`
unfoldable pub cut_end : ℕ → Bytes → Outcome Bytes
cut_end n b = if ltb (length b) n then panic else done (take (length b - n) b)

-- What is sent to the channel; `none` is an error of the first read.
unfoldable pub read_one_tcp_message : UdpAddr → ℕ → List Bytes → Outcome (Option RawMessage)
read_one_tcp_message remote conn [] = done none
read_one_tcp_message remote conn (line ∷ lines) = do
  let message = fill (trim_left line) lines
  text ← cut_end (length stop_symbol) message
  done (
      some (record {
        message = pad_right (trim_right text) packet_size;
        remote = remote;
        maybe_tcp_client = some conn;
      }))
