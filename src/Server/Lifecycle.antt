-- ===== src/Server/Lifecycle.antt =====
-- server/server.go: a server that listens and is closed: `Listen`, `ListenHTTP`, `setupWorkers`, `Close`,
-- `Clear` and `Peers`. What the operating system does is an argument.
mod Tests
pub mod Runs
use dracula.RawMessage.{UdpAddr}
use dracula.Prelude.Int.{ℤ}
use dracula.Server.{Server}
use dracula.Maps.{HashMap, RedBlackTree}
use dracula.Protocol.Packet.{Hasher}
use dracula.Prelude.{
  ◌&&◌, ◌++◌, panic, [], done, bytes_of, ◌∷◌, if◌then◌else◌, List, Outcome, some, none, true, false,
  Bool, Option, zero, ◌+◌, suc, ℕ, Bytes,
}
use dracula.Store as Methods

pub data ServerError : Type 0 where
  server_already_init : ServerError
  failed : Bytes → ServerError

-- `for w := 0; w <= numWorkers; w++`, the workers that are still to start first.
start_workers : ℕ → ℕ → ℕ
start_workers zero started = started
start_workers (suc more) started = start_workers more (started + 1)

unfoldable pub setup_workers : ℕ → ℕ
unfolding start_workers
setup_workers num_workers = start_workers (num_workers + 1) 0

-- `finished` is what the goroutine has sent by then, if it has. `none` is the return of nil; an error
-- ends the process, as `log.Fatal` does.
unfoldable pub listen_http : Bytes → Option (Option Bytes) → Option Bytes
listen_http [] finished = none
listen_http (c ∷ host_port) (some (some err)) = some err
listen_http (c ∷ host_port) _ = none

first_error : Option Bytes → Option Bytes → Option ServerError
first_error (some udp_err) tcp_err = some (failed udp_err)
first_error none (some tcp_err) = some (failed tcp_err)
first_error none none = none

-- A nil listener returns EINVAL.
tcp_close_error : Bool → Option Bytes → Option Bytes
tcp_close_error true err = err
tcp_close_error false err = some (bytes_of "invalid argument")

-- The loop over the peers, with what it has put together; `first` is `i == 0`.
print_peers : (UdpAddr → Bytes) → Bool → Bytes → List UdpAddr → Bytes
print_peers addr_string first peers [] = peers
print_peers addr_string first peers (p ∷ ps) =
    print_peers addr_string false ((if first then peers else peers ++ (b',' ∷ [])) ++ addr_string p)
      ps

module _ ⦃hash : Hasher⦄ ⦃t : RedBlackTree⦄ ⦃h : HashMap⦄ where
  -- A server with its connections. `conn` and `tcp_conn` are the fields, set or nil, and stay set when the
  -- sockets are closed; `message_processing` is open or closed; `workers` is how many workers' loops have
  -- not come to their end.
  pub record Instance : Type 0 where
    pub server : Server
    pub conn : Bool
    pub tcp_conn : Bool
    pub udp_open : Bool
    pub tcp_open : Bool
    pub disposed : Bool
    pub expire_after_secs : ℤ
    pub message_processing : Bool
    pub workers : ℕ

  -- A server that is made and does not listen yet.
  unfoldable pub made : ℤ → Server → Instance
  made expire_after_secs s = record {
    server = s;
    conn = false;
    tcp_conn = false;
    udp_open = false;
    tcp_open = false;
    disposed = false;
    expire_after_secs = expire_after_secs;
    message_processing = true;
    workers = 0;
  }

  listen_tcp : ℕ → Option Bytes → Instance → Instance × Option ServerError
  listen_tcp num_cpu none s = (
    record s { tcp_conn = true; tcp_open = true; workers = s.workers + setup_workers num_cpu },
    none,
  )
  listen_tcp num_cpu (some err) s = (s, some (failed err))

  listen_udp : ℕ → Option Bytes → Option Bytes → Instance → Instance × Option ServerError
  unfolding listen_tcp
  listen_udp num_cpu tcp_error none s =
      listen_tcp num_cpu tcp_error (record s { conn = true; udp_open = true })
  listen_udp num_cpu tcp_error (some err) s = (s, some (failed err))

  -- With the number of CPUs, and the errors of `ListenUDP` and `ListenTCP`.
  unfoldable pub listen : ℕ → Option Bytes → Option Bytes → Instance → Instance × Option ServerError
  unfolding listen_udp
  listen num_cpu udp_error tcp_error s =
      if s.conn then (s, some server_already_init) else listen_udp num_cpu tcp_error udp_error s

  -- To close a nil UDP connection is a panic, and so would it be to close the channel twice. A socket is
  -- closed whatever its error; the workers, which range over the channel, end when it is closed and they
  -- have handled what it holds.
  unfoldable pub close :
      Option Bytes → Option Bytes → Instance → Outcome (Instance × Option ServerError)
  unfolding first_error tcp_close_error
  close udp_error tcp_error s =
      if s.disposed
      then done (s, none)
      else if s.conn && s.message_processing
      then (let stopped = record s.server { store = Methods.disable_cleanup s.server.store } in
          done (
            record s {
              disposed = true;
              server = stopped;
              udp_open = false;
              tcp_open = false;
              message_processing = false;
              workers = 0;
            },
            first_error udp_error (tcp_close_error s.tcp_conn tcp_error),
          ))
      else panic

  unfoldable pub clear : Instance → Instance
  clear s = record s { server = record s.server { store = Methods.new_store s.expire_after_secs } }

  -- `addr_string` is `UDPAddr.String`.
  unfoldable pub peers : (UdpAddr → Bytes) → Instance → Bytes
  unfolding print_peers
  peers addr_string s = print_peers addr_string true [] s.server.peers
