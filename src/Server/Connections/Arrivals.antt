-- ===== src/Server/Connections/Arrivals.antt =====
-- server/server.go: which messages `handleTCPConnection` reads of those that are sent to it.
use dracula.Server.{RawMessage}
use dracula.Server.Connections.{
  handle_tcp_connection, after_read, after_message, TcpConn, closed, panicked,
}
use dracula.RawMessage.{read_one_tcp_message}
use dracula.RawMessage.Lines.{joined}
use dracula.RawMessage.Chunks.{delivered, left_after}
use dracula.RawMessage.Chunks.Whole.{delivered-Takes}
use dracula.RawMessage.Plain.{IsPlain, raw}
use dracula.Protocol.Packet.{stop_symbol}
use dracula.Prelude.{
  ℕ, zero, suc, Bytes, List, [], ◌∷◌, ◌++◌, some, ◌≡◌, ◌<◌, length, refl, arith, false, le→leb,
  Bool-cases, inl, inr, take, map, leb, if◌then◌else◌,
}

-- A message and the chunks that it arrives in, of which the last holds the end of the stop symbol and,
-- behind that, the beginning of what was sent next.
pub record Arrival : Type 0 where
  pub message : Bytes
  pub chunks : List Bytes
  pub last : Bytes
  pub lost : Bytes

pub record IsWhole (a : Arrival) : Type 0 where
  pub plain : IsPlain a.message
  pub sent : joined a.chunks ++ (a.last ++ (10 ∷ [])) ≡ a.message ++ stop_symbol

-- The chunks of the arrivals, one after another.
unfoldable pub arriving : List Arrival → List Bytes
arriving [] = []
arriving (a ∷ arrivals) = a.chunks ++ (((a.last ++ (10 ∷ [])) ++ a.lost) ∷ arriving arrivals)

abbrev pub AllWhole : List Arrival → Type 0
AllWhole [] = Unit
AllWhole (a ∷ arrivals) = IsWhole a × AllWhole arrivals

abbrev pub raws : TcpConn → List Arrival → List RawMessage
raws conn arrivals = map (λ a. raw conn.remote_addr conn.number a.message) arrivals

take-nil : (n : ℕ) → take {A = RawMessage} n [] ≡ []
take-nil zero = refl
take-nil (suc n) = refl

leb-suc : (a b : ℕ) → leb (suc a) (suc b) ≡ leb a b
leb-suc a b = elim (Bool-cases (leb a b)) [ inl e ↦ ground arith | inr e ↦ ground arith ]

no_chunks :
    (fuel open_for : ℕ) (conn : TcpConn)
    → handle_tcp_connection (suc fuel) open_for conn [] ≡ some ([], closed)
unfolding handle_tcp_connection after_read delivered left_after read_one_tcp_message
no_chunks fuel open_for conn = refl

-- Messages of 1500 bytes that begin with a visible ASCII character, end with no white space but spaces and
-- have no stop symbol inside are sent over one connection, each followed by the stop symbol. However the
-- network cuts each of them into chunks, and whatever the last chunk of each holds behind its stop symbol,
-- the loop sends exactly these messages, in their order, and closes the connection at its end, if the
-- channel takes them all; if the server is closed before, the first message that it does not take
-- ends the process. What stood behind a stop symbol is lost.
pub handle_tcp_connection-arriving :
    (fuel open_for : ℕ) (conn : TcpConn) (arrivals : List Arrival)
    → length arrivals < fuel
    → AllWhole arrivals
    → handle_tcp_connection fuel open_for conn (arriving arrivals)
      ≡ some (
        take open_for (raws conn arrivals),
        if leb (length arrivals) open_for then closed else panicked,
      )
unfolding handle_tcp_connection arriving after_read after_message
handle_tcp_connection-arriving zero open_for conn arrivals enough all =
    absurd (omega (arith, enough))
handle_tcp_connection-arriving (suc fuel) open_for conn [] enough all =
    rw (le→leb 0 open_for (omega arith), take-nil open_for) (no_chunks fuel open_for conn)
handle_tcp_connection-arriving (suc fuel) zero conn (a ∷ arrivals) enough (whole, all) =
    let (reads, left) =
      delivered-Takes conn.remote_addr conn.number a.message a.chunks a.last a.lost
        (arriving arrivals) whole.plain whole.sent in
    let late : leb (suc (length arrivals)) 0 ≡ false = ground arith in rw (reads, late)
handle_tcp_connection-arriving (suc fuel) (suc more) conn (a ∷ arrivals) enough (whole, all) =
    let (reads, left) =
      delivered-Takes conn.remote_addr conn.number a.message a.chunks a.last a.lost
        (arriving arrivals) whole.plain whole.sent in
    let same : leb (suc (length arrivals)) (suc more) ≡ leb (length arrivals) more =
      leb-suc (length arrivals) more in
    rw (
      reads,
      left,
      same,
      handle_tcp_connection-arriving fuel more conn arrivals (omega (arith, enough)) all,
    )
