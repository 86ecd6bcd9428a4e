-- ===== src/Protocol/Packet/Tests.antt =====
-- Runs of the packet functions, and the theorems at concrete packets.
use dracula.Protocol.Text.{trim_space}
use dracula.Protocol.Packet.Wire.{packet_round_trip, Travels}
use dracula.Protocol.Packet.Parse.{parse_packet_cases, IsSized}
use dracula.Protocol.Packet.Auth.{validate-key, hash_bytes-key}
use dracula.Protocol.Packet.RoundTrip.{IsCommand, unframed}
use dracula.Protocol.Command.{is_tcp_only_cmd, cmd_put, cmd_count, is_response_cmd, is_request_cmd}
use dracula.Protocol.Words.{uint64_from_bytes, uint32_from_bytes}
use dracula.Protocol.Packet.XxHash.{xx_hash}
use dracula.Prelude.{
  Option, ◌≤◌, ◌⊎◌, arith, some, none, ◌<◌, [], ◌∷◌, bytes_of, Bytes, ◌≡◌, refl, done, length, take,
}
use dracula.Protocol.Packet.{
  Error, invalid_packet_size_too_small, validate, new_packet_from_parts, Packet, parse_packet,
}

abbrev key : Bytes
key = bytes_of "supersecret"

abbrev id_bytes : Bytes
id_bytes = 23 ∷ 104 ∷ 3 ∷ 0 ∷ []

abbrev ns : Bytes
ns = bytes_of "willy_nilly"

abbrev value : Bytes
value = bytes_of "random"

id_word : uint32_from_bytes id_bytes ≡ done 223255
unfolding uint32_from_bytes
id_word = refl

count-IsCommand : IsCommand cmd_count
unfolding is_request_cmd is_response_cmd is_tcp_only_cmd
count-IsCommand = refl

packet_round_trip_example :
    (p : Packet) × (q : Packet) × (b : Bytes) × Travels cmd_count id_bytes 223255 ns value key p q b
packet_round_trip_example =
    packet_round_trip cmd_count id_bytes 223255 ns value key count-IsCommand refl id_word
      (omega arith) (omega arith)

-- Ten bytes are too few.
parse_packet_cases_example :
    (length (bytes_of "Cc abc def") < 82)
      × (parse_packet (bytes_of "Cc abc def") ≡ done (none, some invalid_packet_size_too_small))
    ⊎ (82 ≤ length (bytes_of "Cc abc def"))
      × ((p : Packet) × (e : Option Error) × (parse_packet (bytes_of "Cc abc def")
            ≡ done (some p, e))
          × IsSized p)
parse_packet_cases_example = parse_packet_cases (bytes_of "Cc abc def")

hash_bytes-key_example :
    (p : Packet) × (new_packet_from_parts cmd_count id_bytes ns value key ≡ done p)
    × (take 8 p.hash_bytes ≡ bytes_of "supersec")
hash_bytes-key_example = hash_bytes-key cmd_count id_bytes ns value key 223255 id_word (omega arith)

-- A packet that was made by nobody who knows more than eight bytes of the key.
abbrev forged : Packet
forged = record (unframed cmd_put (bytes_of "supersec") 0 id_bytes 223255 ns value) {
  hash = 0x6365737265707573;
}

validate-key_example : validate forged key ≡ done none
unfolding uint64_from_bytes
validate-key_example = validate-key forged key 0x6365737265707573 (omega arith) refl

-- White space before the text is dropped too.
trim_space_run : trim_space (bytes_of " a b ") ≡ bytes_of "a b"
unfolding trim_space
trim_space_run = refl
