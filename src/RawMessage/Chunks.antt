-- ===== src/RawMessage/Chunks.antt =====
-- server/rawmessage/rawmessage.go: what `bufio.Reader` makes of the chunks that a connection's reads
-- return one after another. A reader asks for another chunk only when it has no whole line left, and what
-- it holds when it is dropped is lost.
pub mod Lines
pub mod Left
pub mod Shorter
pub mod Whole
pub mod Cases
use dracula.Protocol.Packet.{stop_symbol}
use dracula.Protocol.Text.{trim_left}
use dracula.RawMessage.{read_lines, has_suffix}
use dracula.Prelude.{List, Bytes, [], ◌∷◌, ◌++◌, ◌==◌, if◌then◌else◌, map}

-- A line that `ReadBytes` returns, and the chunks that are still to come at that time.
abbrev pub Line : Type 0
Line = Bytes × List Bytes

-- What stands behind the last line break, with what stood there before.
unfoldable pub unfinished : Bytes → Bytes → Bytes
unfinished partial [] = partial
unfinished partial (c ∷ b) = unfinished (if c == 10 then [] else partial ++ (c ∷ [])) b

-- The lines that one chunk completes, with the chunks behind it.
abbrev pub come_with : List Bytes → List Bytes → List Line
come_with next lines = map (λ line. (line, next)) lines

-- The lines of a new reader, in which `partial` is the beginning of a line.
unfoldable pub delivered : Bytes → List Bytes → List Line
delivered partial [] = []
delivered partial (chunk ∷ chunks) =
    come_with chunks (read_lines (partial ++ chunk)) ++ delivered (unfinished partial chunk) chunks

-- The chunks that are still to come when the loop over the lines ends; none are when it breaks on an
-- error.
unfoldable pub fill_left : Bytes → List Bytes → List Line → List Bytes
fill_left message left [] = if has_suffix message stop_symbol then left else []
fill_left message left ((line, next) ∷ lines) =
    let rest = fill_left (message ++ line) next lines in
    if has_suffix message stop_symbol then left else rest

-- The chunks that a call of `ReadOneTcpMessage` leaves on the connection.
unfoldable pub left_after : List Line → List Bytes
left_after [] = []
left_after ((line, next) ∷ lines) = fill_left (trim_left line) next lines

abbrev pub lines_of : List Line → List Bytes
lines_of lines = map (λ l. l.0) lines
