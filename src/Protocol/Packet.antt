-- ===== src/Protocol/Packet.antt =====
-- protocol/protocol.go: packets, their construction, hash, parsing and printing. Console output is
-- left out.
pub mod Layout
pub mod Parse
pub mod RoundTrip
pub mod Wire
pub mod Tcp
pub mod Auth
pub mod XxHash
mod Tests
use dracula.Prelude.{
  min, ◌&&◌, not, slice, index, ◌==◌, ◌>>=◌, some, take, none, panic, done, ◌||◌, ◌+◌, ltb,
  if◌then◌else◌, Option, ◌≡◌, [], Outcome, ◌++◌, length, ◌∷◌, bytes_of, ℕ, Bytes,
}
use dracula.Protocol.Pad.{space, pad_right}
use dracula.Protocol.Text.{trim_space}
use dracula.Protocol.Words.{uint32_to_bytes, uint32_from_bytes, uint64_from_bytes}
use dracula.Protocol.Command.{is_request_cmd, is_response_cmd, is_tcp_only_cmd}

abbrev pub packet_size : ℕ
packet_size = 1500

abbrev pub namespace_size : ℕ
namespace_size = 64

abbrev pub data_value_size : ℕ
data_value_size = 1419

abbrev pub space_index1 : ℕ
space_index1 = 1

abbrev pub space_index2 : ℕ
space_index2 = 10

abbrev pub space_index3 : ℕ
space_index3 = 15

abbrev pub space_index4 : ℕ
space_index4 = 80

pub data Error : Type 0 where
  invalid_packet_size_too_small invalid_packet_size_too_large invalid_command_byte : Error
  protocol_space1 protocol_space2 protocol_space3 bad_hash bad_output_size : Error

-- `err.Error()`
unfoldable pub error_text : Error → Bytes
error_text invalid_packet_size_too_small = bytes_of "bad packet: too small, size must be 1500 bytes"
error_text invalid_packet_size_too_large = bytes_of "bad packet: too large, size must be 1500 bytes"
error_text invalid_command_byte = bytes_of "bad packet: invalid command byte"
error_text protocol_space1 = bytes_of "bad packet: expected space 1"
error_text protocol_space2 = bytes_of "bad packet: expected space 1"
error_text protocol_space3 = bytes_of "bad packet: expected space 3"
error_text bad_hash = bytes_of "auth failed: packet hash invalid"
error_text bad_output_size = bytes_of "wrong data size during packet construction"

-- "\n.\n"
abbrev pub stop_symbol : Bytes
stop_symbol = 10 ∷ b'.' ∷ 10 ∷ []

-- `sum b` is `xxhash.New64().Sum(b)`. Go documents `hash.Hash.Sum` to append the hash of what was
-- written, here nothing, to `b`, and to return the resulting slice; the hash has 8 bytes.
pub record Hasher : Type 0 where
  pub sum : Bytes → Bytes
  pub digest : Bytes
  pub length-digest : length digest ≡ 8
  pub sum_appends : (b : Bytes) → sum b ≡ b ++ digest

-- `request_client` is the TCP connection that the packet came by, if any.
pub record Packet : Type 0 where
  pub command : ℕ
  pub hash_bytes : Bytes
  pub hash : ℕ
  pub message_id_bytes : Bytes
  pub message_id : ℕ
  pub namespace : Bytes
  pub data_value : Bytes
  pub request_client : Option ℕ

unfoldable pub namespace_string : Packet → Bytes
namespace_string p = trim_space p.namespace

unfoldable pub data_value_string : Packet → Bytes
data_value_string p = trim_space p.data_value

-- What `HashPacket` and `SetHash` put together.
abbrev pub bytes_to_hash : Packet → Bytes → Bytes
bytes_to_hash p pre_shared_key =
    pre_shared_key ++ (p.message_id_bytes ++ (p.namespace ++ p.data_value))

module _ ⦃h : Hasher⦄ where
  unfoldable pub hash_packet : Packet → Bytes → Bytes
  hash_packet p pre_shared_key = h.sum (bytes_to_hash p pre_shared_key)

  unfoldable pub set_hash : Packet → Bytes → Outcome Packet
  unfolding hash_packet
  set_hash p pre_shared_key = do
    let hash_bytes = hash_packet p pre_shared_key
    hash ← uint64_from_bytes hash_bytes
    done (record p { hash_bytes = hash_bytes; hash = hash })

  unfoldable pub new_packet_from_parts : ℕ → Bytes → Bytes → Bytes → Bytes → Outcome Packet
  unfolding set_hash
  new_packet_from_parts command message_id namespace data_value pre_shared_key = do
    id ← uint32_from_bytes message_id
    set_hash
        (record {
          command = command;
          hash_bytes = [];
          hash = 0;
          message_id_bytes = message_id;
          message_id = id;
          namespace = pad_right namespace namespace_size;
          data_value = pad_right data_value data_value_size;
          request_client = none;
        })
        pre_shared_key

  unfoldable pub new_packet : ℕ → ℕ → Bytes → Bytes → Bytes → Outcome Packet
  unfolding new_packet_from_parts
  new_packet command message_id namespace data_value pre_shared_key =
      new_packet_from_parts command (uint32_to_bytes message_id) namespace data_value pre_shared_key

  -- `none` is the nil error.
  unfoldable pub validate : Packet → Bytes → Outcome (Option Error)
  unfolding hash_packet
  validate p pre_shared_key = do
    expected_hash ← uint64_from_bytes (hash_packet p pre_shared_key)
    done (if p.hash == expected_hash then none else some bad_hash)

-- The tests that a parsed packet goes through, in order; the first that fails is the error.
unfoldable pub packet_error : ℕ → ℕ → ℕ → ℕ → ℕ → ℕ → Option Error
packet_error command s1 s2 s3 s4 size =
    if not (is_request_cmd command || is_response_cmd command || is_tcp_only_cmd command)
    then some invalid_command_byte
    else if not (s1 == space)
    then some protocol_space1
    else if not (s2 == space)
    then some protocol_space2
    else if not (s3 == space)
    then some protocol_space3
    else if not (s4 == space)
    then some protocol_space3
    else if ltb packet_size size && not (is_tcp_only_cmd command)
    then some invalid_packet_size_too_large
    else none

unfoldable pub check_packet : Packet → Bytes → Outcome (Option Error)
unfolding packet_error
check_packet p buf = do
  s1 ← index buf space_index1
  s2 ← index buf space_index2
  s3 ← index buf space_index3
  s4 ← index buf space_index4
  done (packet_error p.command s1 s2 s3 s4 (length buf))

-- The fields, at their fixed places.
unfoldable pub parse_fields : Bytes → Outcome Packet
parse_fields buf = do
  h_bytes ← slice (space_index1 + 1) space_index2 buf
  id_bytes ← slice (space_index2 + 1) space_index3 buf
  ns_bytes ← slice (space_index3 + 1) space_index4 buf
  let end_at = min (length buf) packet_size
  message_i_data ← slice (space_index4 + 1) end_at buf
  let right_size_data = pad_right message_i_data data_value_size
  command ← index buf 0
  hash ← uint64_from_bytes h_bytes
  message_id ← uint32_from_bytes id_bytes
  done (record {
    command = command;
    hash_bytes = h_bytes;
    hash = hash;
    message_id_bytes = id_bytes;
    message_id = message_id;
    namespace = ns_bytes;
    data_value = right_size_data;
    request_client = none;
  })

-- The pointer, which may be nil, and the error.
unfoldable pub parse_packet : Bytes → Outcome (Option Packet × Option Error)
unfolding parse_fields check_packet
parse_packet buf =
    if ltb (length buf) (space_index4 + 2)
    then done (none, some invalid_packet_size_too_small)
    else do p ← parse_fields buf; err ← check_packet p buf; done (some p, err)

-- `(p *Packet) bytes()`; `p.HashBytes[i]` reads the first eight of what may be many.
unfoldable pub raw_bytes : Packet → Outcome Bytes
raw_bytes p =
    if ltb (length p.hash_bytes) 8 || ltb (length p.message_id_bytes) 4
    then panic
    else done (
        (p.command ∷ space ∷ [])
        ++ (take 8 p.hash_bytes
            ++ (space
                ∷ (take 4 p.message_id_bytes
                    ++ (space
                        ∷ (pad_right p.namespace namespace_size
                            ++ (space ∷ pad_right p.data_value data_value_size)))))))

-- The error of `Bytes` for an output of a size.
unfoldable pub output_error : ℕ → ℕ → Option Error
output_error command size =
    if not (size == packet_size) && not (is_tcp_only_cmd command)
    then some bad_output_size
    else none

-- `(p *Packet) Bytes()`: the output is returned beside the error too.
unfoldable pub to_bytes : Packet → Outcome (Bytes × Option Error)
unfolding raw_bytes output_error
to_bytes p = do out ← raw_bytes p; done (out, output_error p.command (length out))
