-- ===== src/Client/Config.antt =====
-- client/client.go: `NewClient` and its lists of servers, `Listen`, `Close` and `PendingRequests`.
mod Tests
pub mod Closed
pub mod Lists
pub mod New
pub mod Listened
use dracula.Protocol.Pad.{space}
use dracula.Client.Responses.{client_already_init, failed, CallError}
use dracula.Prelude.Int.{ℤ}
use dracula.RawMessage.{UdpAddr}
use dracula.Client.State.{TcpAddr, Client}
use dracula.Server.Peers.{split, Parsers}
use dracula.Prelude.{
  false, ◌&&◌, length, ◌++◌, true, index, ◌>>=◌, none, ◌==◌, done, panic, some, if◌then◌else◌, Bool,
  Outcome, [], ◌∷◌, List, Option, ℕ, Bytes,
}
use mathlib.Core.List.{reverse}
use dracula.Client.Cache as Cache
use dracula.Client.Pool as Pool

pub record Config : Type 0 where
  pub remote_udp_ip_port_list : Bytes
  pub remote_tcp_ip_port_list : Bytes
  pub timeout : ℕ
  pub pre_shared_key : Bytes

-- 1 s
abbrev second : ℕ
second = 1000000000

-- `strings.Trim(s, " ")`
abbrev trim_front_spaces : Bytes → Bytes
trim_front_spaces [] = []
trim_front_spaces (c ∷ s) = let rest = trim_front_spaces s in if c == space then rest else c ∷ s

unfoldable pub trim_spaces : Bytes → Bytes
trim_spaces s = reverse (trim_front_spaces (reverse (trim_front_spaces s)))

-- A nil IP, which is an empty slice, where the text does not parse.
abbrev pub or_nil : Option Bytes → Bytes
or_nil none = []
or_nil (some ip) = ip

parsed_port : Parsers → Bytes → Option ℤ → Outcome (List UdpAddr)
parsed_port net host none = panic
parsed_port net host (some sport) =
    done (record { ip = or_nil (net.parse_ip host); port = sport } ∷ [])

-- A part without a host is skipped.
unfoldable pub parse_server : Parsers → List Bytes → Outcome (List UdpAddr)
unfolding parsed_port
parse_server net [] = panic
parse_server net ([] ∷ p) = done []
parse_server net (host ∷ port ∷ []) = parsed_port net host (net.atoi port)
parse_server net (host ∷ p) = panic

unfoldable pub parse_servers : Parsers → List Bytes → Outcome (List UdpAddr)
unfolding parse_server
parse_servers net [] = done []
parse_servers net (ip_port ∷ parts) = do
  server ← parse_server net (split b':' (trim_spaces ip_port))
  servers ← parse_servers net parts
  done (server ++ servers)

-- All TCP servers are skipped if the first part is empty.
parse_tcp_servers : Parsers → List Bytes → Outcome (List TcpAddr)
parse_tcp_servers net tcp_parts = do
  first ← index tcp_parts 0
  if length first == 0 then done [] else parse_servers net tcp_parts

-- The connections that are closed: not the nil pointer.
closed_conns : List (Option ℕ) → List ℕ
closed_conns [] = []
closed_conns (none ∷ keys) = closed_conns keys
closed_conns (some conn ∷ keys) = conn ∷ closed_conns keys

module _ {C : Type 0} where
  unfoldable pub new_client : Parsers → Config → Outcome (Client C)
  unfolding parse_tcp_servers
  new_client net conf =
      let timeout = if conf.timeout == 0 then second else conf.timeout in
      let udp_parts = split b',' (trim_spaces conf.remote_udp_ip_port_list) in
      let tcp_parts = split b',' (trim_spaces conf.remote_tcp_ip_port_list) in
      (do
        servers ← parse_servers net udp_parts
        tcp_server_list ← parse_tcp_servers net tcp_parts
        if length servers == 0 && length tcp_server_list == 0
            then panic
            else done (record {
              conn = false;
              udp_pool = Pool.new_pool servers;
              tcp_pool = [];
              tcp_pool_map = [];
              tcp_server_list = tcp_server_list;
              messages_waiting = Cache.new_cache timeout;
              message_id_counter = 0;
              pre_shared_key = conf.pre_shared_key;
              disposed = false;
              timeout_duration = timeout;
            }))

  unfoldable pub pending_requests : Client C → ℕ
  pending_requests c = Cache.len c.messages_waiting

  connected : Client C → Option Bytes → Client C × Option CallError
  connected c (some err) = (c, some (failed err))
  connected c none = (record c { conn = true }, none)

  -- `Listen` up to the start of its goroutines, with the error of `ListenUDP`.
  unfoldable pub open_conn : Option Bytes → Client C → Client C × Option CallError
  unfolding connected
  open_conn listen_error c =
      if c.conn then (c, some client_already_init) else connected c listen_error

  seeded : (UdpAddr → Bool) → Client C × Option CallError → Client C × Option CallError
  seeded check_fails (c, none) = (record c { udp_pool = Pool.listen check_fails c.udp_pool }, none)
  seeded check_fails (c, some err) = (c, some err)

  -- `Listen`, by the servers whose first health check fails; the requests of these checks, and what comes
  -- between them, are in Client/Health.antt.
  unfoldable pub listen : (UdpAddr → Bool) → Option Bytes → Client C → Client C × Option CallError
  unfolding open_conn seeded
  listen check_fails listen_error c = seeded check_fails (open_conn listen_error c)

  close_tcp : Client C → Option Bytes → Client C × List ℕ × Option CallError
  unfolding closed_conns
  close_tcp c (some err) = (c, [], some (failed err))
  close_tcp c none = (record c { tcp_pool_map = [] }, closed_conns c.tcp_pool_map, none)

  -- With the error of closing the UDP connection; the TCP connections that are closed are returned too.
  unfoldable pub close : Option Bytes → Client C → Outcome (Client C × List ℕ × Option CallError)
  unfolding close_tcp
  close close_error c = if c.disposed then done (c, [], none) else (do
    messages_waiting' ← Cache.dispose c.messages_waiting
    let c' = record c {
      disposed = true;
      messages_waiting = messages_waiting';
      udp_pool = Pool.dispose c.udp_pool;
    }
    done (close_tcp c' (if c.conn then close_error else none)))
