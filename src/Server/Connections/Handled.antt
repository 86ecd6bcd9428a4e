-- ===== src/Server/Connections/Handled.antt =====
-- server/server.go: the loops that read end, and the worker handles all that they read.
use dracula.Server.{Effect, Clock, Network, Server, RawMessage, UdpAddr}
use dracula.Server.Frames.{length-read_udp_frame, worker_cases}
use dracula.Server.Connections.{
  read_udp_frames, handle_tcp_connection, after_read, after_message, run_worker, Turn, TcpConn,
  Ending, closed, panicked,
}
use dracula.RawMessage.{read_one_tcp_message}
use dracula.RawMessage.Reader.{read_one_tcp_message-cases}
use dracula.RawMessage.Chunks.{delivered, left_after, lines_of, Line}
use dracula.RawMessage.Chunks.Shorter.{length-left_after}
use dracula.Tree.{Regexp}
use dracula.Maps.{HashMap, RedBlackTree}
use dracula.Protocol.Packet.{Hasher, packet_size}
use dracula.Prelude.{
  ℕ, zero, suc, Bytes, List, [], ◌∷◌, ◌++◌, Option, none, some, done, true, false, ◌≡◌, ◌⊎◌, ◌≤◌,
  ◌<◌, length, refl, arith, inl, inr,
}

abbrev pub AllLong : List RawMessage → Type 0
AllLong [] = Unit
AllLong (m ∷ ms) = (packet_size ≤ length m.message) × AllLong ms

read_udp_frames-AllLong : (turns : List (Turn (UdpAddr × Bytes))) → AllLong (read_udp_frames turns)
unfolding read_udp_frames
read_udp_frames-AllLong [] = tt
read_udp_frames-AllLong ((true, _) ∷ turns) = tt
read_udp_frames-AllLong ((false, none) ∷ turns) = read_udp_frames-AllLong turns
read_udp_frames-AllLong ((false, some (remote, sent)) ∷ turns) =
    (omega (arith, length-read_udp_frame remote sent), read_udp_frames-AllLong turns)

-- The loop over a connection comes to an end and has sent at most `limit` messages, all of them long.
abbrev Ends : Option (List RawMessage × Ending) → ℕ → Type 0
Ends o limit =
    (ms : List RawMessage) × (ending : Ending) × (o ≡ some (ms, ending))
    × (length ms ≤ limit)
    × AllLong ms

after_read-Ends :
    (m : RawMessage) (open_for limit limit' : ℕ) (next : ℕ → Option (List RawMessage × Ending))
    → packet_size ≤ length m.message
    → limit' < limit
    → ((more : ℕ) → Ends (next more) limit')
    → Ends (after_read (done (some m)) open_for next) limit
unfolding after_read after_message
after_read-Ends m zero limit limit' next long less ends = ([], panicked, refl, omega arith, tt)
after_read-Ends m (suc more) limit limit' next long less ends =
    let (ms, ending, e, few, all) = ends more in
    (m ∷ ms, ending, rw e, omega (arith, few, less), (long, all))

read_none : (remote : UdpAddr) (conn : ℕ) → read_one_tcp_message remote conn [] ≡ done none
unfolding read_one_tcp_message
read_none remote conn = refl

after_read-lines :
    (conn : TcpConn) (open_for limit : ℕ) (lines : List Line)
    (next : ℕ → Option (List RawMessage × Ending))
    → (lines ≡ []) ⊎ ((limit' : ℕ) × (limit' < limit) × ((more : ℕ) → Ends (next more) limit'))
    → Ends
        (after_read
          (read_one_tcp_message conn.remote_addr conn.number (lines_of lines))
          open_for
          next)
        limit
unfolding after_read
after_read-lines conn open_for limit [] next cases =
    rw (read_none conn.remote_addr conn.number) ([], closed, refl, omega arith, tt)
after_read-lines conn open_for limit (l ∷ lines) next (inl none_left) = absurd (cc)
after_read-lines conn open_for limit ((line, _) ∷ lines) next (inr (limit', less, ends)) =
    elim (read_one_tcp_message-cases conn.remote_addr conn.number line (lines_of lines)) [
      | inl (short, panics) ↦ rw panics ([], panicked, refl, omega arith, tt)
      | inr (long, (m, reads, size)) ↦
          rw reads (after_read-Ends m open_for limit limit' next size less ends)
    ]

fewer :
    (chunks : List Bytes) (lines : List Line)
    → delivered [] chunks ≡ lines
    → (lines ≡ []) ⊎ (length (left_after lines) < length chunks)
fewer chunks [] e = inl refl
fewer chunks (l ∷ lines) e = inr (length-left_after chunks l lines e)

handle_tcp_connection-Ends :
    (fuel open_for : ℕ) (conn : TcpConn) (chunks : List Bytes)
    → length chunks < fuel
    → Ends (handle_tcp_connection fuel open_for conn chunks) (length chunks)
unfolding handle_tcp_connection
handle_tcp_connection-Ends zero open_for conn chunks enough = absurd (omega (arith, enough))
handle_tcp_connection-Ends (suc fuel) open_for conn chunks enough =
    let lines = delivered [] chunks in
    let left = left_after lines in
    after_read-lines conn open_for (length chunks) lines
      (λ more. handle_tcp_connection fuel more conn left)
      (elim (fewer chunks lines refl) [
        | inl none_left ↦ inl none_left
        | inr less ↦ inr (
          length left,
          less,
          λ more. handle_tcp_connection-Ends fuel more conn left (omega (arith, less, enough)),
        )
      ])

module _ ⦃hash : Hasher⦄ ⦃t : RedBlackTree⦄ ⦃h : HashMap⦄ (re : Regexp) (net : Network)
    (clock : ℕ → Clock) where
  run_worker-AllLong :
      (k : ℕ) (s : Server) (ms : List RawMessage)
      → AllLong ms
      → (s' : Server) × (effects : List Effect) × (run_worker re net clock k s ms
          ≡ done (s', effects))
  unfolding run_worker
  run_worker-AllLong k s [] all = (s, [], refl)
  run_worker-AllLong k s (m ∷ ms) (long, all) = elim (worker_cases re net (clock k) s m) [
    | inl (small, panics) ↦ absurd (omega (arith, small, long))
    | inr (large, (s', effects, handles)) ↦
        let (s'', others, runs) = run_worker-AllLong (suc k) s' ms all in
        (s'', effects ++ others, rw (handles, runs))
  ]

  -- The worker handles all that `readUDPFrames` reads, in any turns of its loop with any datagrams and any
  -- errors, one after another and without a panic.
  pub run_worker-read_udp_frames :
      (k : ℕ) (s : Server) (turns : List (Turn (UdpAddr × Bytes)))
      → (s' : Server) × (effects : List Effect) × (run_worker re net clock k s
            (read_udp_frames turns)
          ≡ done (s', effects))
  run_worker-read_udp_frames k s turns =
      run_worker-AllLong k s (read_udp_frames turns) (read_udp_frames-AllLong turns)

  -- The loop over a TCP connection, whatever the chunks are that it delivers and whenever the server is
  -- closed, ends, with the connection closed or by a panic, in at most one turn more than there are
  -- chunks; it has sent at most one message for each chunk, and the worker handles all that were sent, one after another and without a panic.
  pub handle_tcp_connection-ends :
      (fuel open_for : ℕ) (conn : TcpConn) (chunks : List Bytes) (k : ℕ) (s : Server)
      → length chunks < fuel
      → (ms : List RawMessage) × (ending : Ending) × (handle_tcp_connection fuel open_for conn
            chunks
          ≡ some (ms, ending))
        × (length ms ≤ length chunks)
        × ((s' : Server) × (effects : List Effect) × (run_worker re net clock k s ms
              ≡ done (s', effects)))
  handle_tcp_connection-ends fuel open_for conn chunks k s enough =
      let (ms, ending, e, few, all) = handle_tcp_connection-Ends fuel open_for conn chunks enough in
      (ms, ending, e, few, run_worker-AllLong k s ms all)
