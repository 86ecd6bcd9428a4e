-- ===== src/Server/Connections/Tests.antt =====
-- server/server.go: runs of the loops that read.
use dracula.Server.{Server, Effect, Network, Clock, UdpAddr, RawMessage}
use dracula.Server.Connections.{
  read_udp_frames, read_tcp_frames, handle_tcp_connection, run_worker, Turn, TcpConn, Ending,
  panicked, after_read,
}
use dracula.Server.Connections.Handled.{run_worker-read_udp_frames, handle_tcp_connection-ends}
use dracula.Server.Connections.Arrivals.{Arrival, arriving, raws, handle_tcp_connection-arriving}
use dracula.RawMessage.{read_one_tcp_message, read_lines, fill, cut_end, has_suffix}
use dracula.RawMessage.Chunks.{delivered, left_after, fill_left, unfinished}
use dracula.RawMessage.Plain.{IsPlain}
use dracula.Protocol.Pad.{space}
use dracula.Protocol.Text.{trim_left, trim_right}
use dracula.Protocol.Packet.XxHash.{xx_hash}
use dracula.Maps.Assoc.{assoc_tree, assoc_hash}
use dracula.Tree.{Regexp}
use dracula.Store as Methods
use dracula.Prelude.Int.{pos}
use dracula.Prelude.{
  Bytes, List, [], ◌∷◌, ◌++◌, none, some, done, true, false, ◌≡◌, ◌≤◌, length, refl, arith, inr,
  take, replicate, bytes_eq, bytes_of,
}

abbrev literal : Regexp
literal = record { compile = λ pattern. inr (bytes_eq pattern) }

abbrev net : Network
net = record { udp_fails = λ addr b. false }

abbrev clock : Clock
clock = record { now = pos 100; secs = pos 100; times = λ ns k. pos 100 }

abbrev server : Server
server = record {
  store = Methods.new_store (pos 60);
  pre_shared_key = bytes_of "supersecret";
  peers = [];
}

abbrev conn : TcpConn
conn = record { remote_addr = record { ip = 10 ∷ 0 ∷ 0 ∷ 7 ∷ []; port = pos 40000 }; number = 1 }

-- Two datagrams with an error between them, and then the server is disposed of.
abbrev turns : List (Turn (UdpAddr × Bytes))
turns =
    (false, some (conn.remote_addr, bytes_of "C"))
    ∷ (false, none)
    ∷ (false, some (conn.remote_addr, []))
    ∷ (true, none)
    ∷ []

run_worker-read_udp_frames_example :
    (s' : Server) × (effects : List Effect) × (run_worker literal net
        (λ k. clock)
        0
        server
        (read_udp_frames turns)
      ≡ done (s', effects))
run_worker-read_udp_frames_example =
    run_worker-read_udp_frames literal net (λ k. clock) 0 server turns

-- A connection after an error, and none once the server is disposed of.
read_tcp_frames_run :
    read_tcp_frames ((false, none) ∷ (false, some conn) ∷ (true, some conn) ∷ []) ≡ conn ∷ []
unfolding read_tcp_frames
read_tcp_frames_run = refl

-- A short message in two chunks.
abbrev short : List Bytes
short = (b'a' ∷ 10 ∷ []) ∷ (b'.' ∷ 10 ∷ []) ∷ []

handle_tcp_connection-ends_example :
    (ms : List RawMessage) × (ending : Ending) × (handle_tcp_connection 3 1 conn short
      ≡ some (ms, ending))
    × (length ms ≤ 2)
    × ((s' : Server) × (effects : List Effect) × (run_worker literal net (λ k. clock) 0 server ms
          ≡ done (s', effects)))
handle_tcp_connection-ends_example =
    handle_tcp_connection-ends literal net (λ k. clock) 3 1 conn short 0 server (omega arith)

-- A list request, up to its padding.
abbrev text : Bytes
text = bytes_of " 12345678 abcd some_namespace"

abbrev message : Bytes
message = (b'K' ∷ text) ++ replicate 1470 space

trimmed_text : trim_right (b'K' ∷ text) ≡ b'K' ∷ text
unfolding trim_right
trimmed_text = refl

message-IsPlain : IsPlain message
message-IsPlain = record {
  head = b'K';
  text = text;
  spaces = 1470;
  whole = refl;
  visible = omega arith;
  ascii = omega arith;
  trimmed = trimmed_text;
  size = refl;
  once = refl;
}

-- It arrives in two chunks, and the second chunk holds the next request's first bytes.
abbrev cut : Arrival
cut = record {
  message = message;
  chunks = (b'K' ∷ text) ∷ [];
  last = replicate 1470 space ++ (10 ∷ b'.' ∷ []);
  lost = bytes_of "L 12345678";
}

abbrev at_once : Arrival
at_once = record { message = message; chunks = []; last = message ++ (10 ∷ b'.' ∷ []); lost = [] }

handle_tcp_connection-arriving_example :
    handle_tcp_connection 3 1 conn (arriving (cut ∷ at_once ∷ []))
    ≡ some (take 1 (raws conn (cut ∷ at_once ∷ [])), panicked)
handle_tcp_connection-arriving_example =
    handle_tcp_connection-arriving 3 1 conn (cut ∷ at_once ∷ []) (omega arith) (
      record { plain = message-IsPlain; sent = refl },
      (record { plain = message-IsPlain; sent = refl }, tt),
    )

-- A line break alone, and then the end: the reader panics.
handle_tcp_connection_run : handle_tcp_connection 2 1 conn ((10 ∷ []) ∷ []) ≡ some ([], panicked)
unfolding handle_tcp_connection after_read delivered unfinished left_after fill_left
    read_one_tcp_message read_lines fill cut_end has_suffix trim_left
handle_tcp_connection_run = refl
