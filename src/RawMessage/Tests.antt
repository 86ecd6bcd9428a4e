-- ===== src/RawMessage/Tests.antt =====
-- server/rawmessage/rawmessage.go: runs of the reader.
use dracula.Prelude.Int.{pos}
use dracula.RawMessage.Chunks.{delivered, lines_of}
use dracula.RawMessage.Chunks.Cases.{Reads, read_one_tcp_message-delivered}
use dracula.Protocol.Packet.{stop_symbol}
use dracula.Protocol.Pad.{space, pad_right}
use dracula.Protocol.Text.{trim_right, trim_left}
use dracula.Prelude.{some, done, replicate, bytes_of, ◌++◌, refl, panic, ◌≡◌, [], ◌∷◌, List, Bytes}
use dracula.RawMessage.{has_suffix, cut_end, fill, read_lines, read_one_tcp_message, UdpAddr}

abbrev remote : UdpAddr
remote = record { ip = 10 ∷ 0 ∷ 0 ∷ 7 ∷ []; port = pos 40000 }

-- A connection that sends a line break and is closed.
read_newline_run : read_one_tcp_message remote 1 (read_lines (10 ∷ [])) ≡ panic
unfolding read_one_tcp_message read_lines fill cut_end trim_left
read_newline_run = refl

read_lines_run : read_lines (97 ∷ 10 ∷ 10 ∷ 98 ∷ []) ≡ (97 ∷ 10 ∷ []) ∷ (10 ∷ []) ∷ []
unfolding read_lines
read_lines_run = refl

-- A short message and its stop symbol, in two chunks and in one, with the next message behind it.
abbrev cut : List Bytes
cut = bytes_of " Kab " ∷ (10 ∷ b'.' ∷ 10 ∷ b'L' ∷ []) ∷ []

abbrev at_once : List Bytes
at_once = (bytes_of " Kab " ++ (10 ∷ b'.' ∷ 10 ∷ b'L' ∷ [])) ∷ []

read_one_tcp_message-delivered_example :
    (read_one_tcp_message remote 1 (lines_of (delivered [] cut))
      ≡ read_one_tcp_message remote 1 (lines_of (delivered [] at_once)))
    × Reads remote 1
        (read_lines (bytes_of " Kab " ++ (10 ∷ b'.' ∷ 10 ∷ b'L' ∷ [])))
        (read_one_tcp_message remote 1 (lines_of (delivered [] cut)))
read_one_tcp_message-delivered_example = read_one_tcp_message-delivered remote 1 cut at_once refl

-- A packet with neither a namespace nor data, whose identifier ends with a line break: a space is put in
-- its place.
read_bare :
    read_one_tcp_message remote 1 (
      read_lines
        ((bytes_of "L 12345678 " ++ (1 ∷ 0 ∷ 0 ∷ 10 ∷ replicate 1485 space)) ++ stop_symbol))
    ≡ done (
        some (record {
          message = bytes_of "L 12345678 " ++ (1 ∷ 0 ∷ 0 ∷ replicate 1486 space);
          remote = remote;
          maybe_tcp_client = some 1;
        }))
unfolding read_one_tcp_message read_lines fill trim_left trim_right has_suffix cut_end pad_right
read_bare = refl
