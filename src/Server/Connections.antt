-- ===== src/Server/Connections.antt =====
-- server/server.go: the loops that read what clients send, `readUDPFrames`, `ReadTCPFrames` and
-- `handleTCPConnection`, and the loop of the worker over the messages. What the sockets return, and when
-- the server is closed, are arguments.
pub mod Handled
pub mod Arrivals
mod Tests
use dracula.Server.{worker, Effect, Clock, Network, Server, RawMessage, UdpAddr}
use dracula.Server.Frames.{read_udp_frame}
use dracula.RawMessage.{read_one_tcp_message}
use dracula.RawMessage.Chunks.{delivered, left_after, lines_of}
use dracula.Tree.{Regexp}
use dracula.Maps.{HashMap, RedBlackTree}
use dracula.Protocol.Packet.{Hasher}
use dracula.Prelude.{
  ℕ, zero, suc, Bytes, List, [], ◌∷◌, ◌++◌, Option, none, some, Outcome, panic, done, ◌>>=◌, Bool,
  true, false,
}

-- One turn of a loop: is the server disposed of, and what does the socket return, or an error?
abbrev pub Turn {ℓ} : Type ℓ → Type ℓ
Turn A = Bool × Option A

-- What the loop reads until the server is disposed of. A datagram that is read as the server is being
-- closed, between the test and the sending, is left out.
unfoldable pub read_udp_frames : List (Turn (UdpAddr × Bytes)) → List RawMessage
read_udp_frames [] = []
read_udp_frames ((true, _) ∷ turns) = []
read_udp_frames ((false, none) ∷ turns) = read_udp_frames turns
read_udp_frames ((false, some (remote, sent)) ∷ turns) =
    read_udp_frame remote sent ∷ read_udp_frames turns

-- A TCP connection that was accepted: where it comes from, and the number that it is.
pub record TcpConn : Type 0 where
  pub remote_addr : UdpAddr
  pub number : ℕ

-- The connections for which `handleTCPConnection` is started.
unfoldable pub read_tcp_frames : List (Turn TcpConn) → List TcpConn
read_tcp_frames [] = []
read_tcp_frames ((true, _) ∷ turns) = []
read_tcp_frames ((false, none) ∷ turns) = read_tcp_frames turns
read_tcp_frames ((false, some conn) ∷ turns) = conn ∷ read_tcp_frames turns

-- The loop has closed the connection, or the process has ended.
pub data Ending : Type 0 where
  closed : Ending
  panicked : Ending

pub after_message :
    RawMessage → Option (List RawMessage × Ending) → Option (List RawMessage × Ending)
after_message m none = none
after_message m (some (ms, ending)) = some (m ∷ ms, ending)

-- `open_for` is how many more messages are sent before `Close` closes the channel: to send on a closed
-- channel is a panic.
pub after_read :
    Outcome (Option RawMessage)
    → ℕ
    → (ℕ → Option (List RawMessage × Ending))
    → Option (List RawMessage × Ending)
unfolding after_message
after_read panic open_for next = some ([], panicked)
after_read (done none) open_for next = some ([], closed)
after_read (done (some m)) zero next = some ([], panicked)
after_read (done (some m)) (suc more) next = after_message m (next more)

-- What the loop sends to the channel, of the chunks that the connection delivers until its end or an
-- error; `none` is a loop that goes on.
unfoldable pub handle_tcp_connection :
    ℕ → ℕ → TcpConn → List Bytes → Option (List RawMessage × Ending)
unfolding after_read
handle_tcp_connection zero open_for conn chunks = none
handle_tcp_connection (suc fuel) open_for conn chunks =
    let lines = delivered [] chunks in
    after_read (read_one_tcp_message conn.remote_addr conn.number (lines_of lines)) open_for
      (λ more. handle_tcp_connection fuel more conn (left_after lines))

module _ ⦃hash : Hasher⦄ ⦃t : RedBlackTree⦄ ⦃h : HashMap⦄ where
  -- The worker's loop over the messages, with the clock's readings for each.
  unfoldable pub run_worker :
      Regexp → Network → (ℕ → Clock) → ℕ → Server → List RawMessage → Outcome (Server × List Effect)
  run_worker re net clock k s [] = done (s, [])
  run_worker re net clock k s (m ∷ ms) = do
    (s', effects) ← worker re net (clock k) s m
    (s'', others) ← run_worker re net clock (suc k) s' ms
    done (s'', effects ++ others)
