-- ===== src/Commands/Serve.antt =====
-- cmd/server/main.go: from the flags and the environment to a server that runs, or an exit.
use dracula.Server.Rest.{trim}
use dracula.Server.{Server}
use dracula.Server.Lifecycle.{ServerError, Instance}
use dracula.Maps.{HashMap, RedBlackTree}
use dracula.Protocol.Packet.{Hasher}
use dracula.Server.Peers.{new_server, new_server_with_peers, Parsers}
use dracula.Prelude.Int.{ℤ}
pub mod Started
use dracula.Server.Lifecycle as Lifecycle
use dracula.Prelude.{
  Bytes, ℕ, Bool, Option, Outcome, ◌==◌, ◌&&◌, not, length, if◌then◌else◌, ◌>>=◌, done, none, some,
}

pub record Flags : Type 0 where
  pub help : Bool
  pub expire_after_secs : ℤ
  pub rest_host_port : Bytes
  pub secret : Bytes
  pub peer_ip_port : Bytes
  pub peers : Bytes
  pub print_version : Bool
  pub prom_host_port : Bytes

-- What the command meets: the variable DRACULA_SECRET, the parsers, the number of CPUs, the errors of
-- listening by UDP, TCP and for the metrics, and what the HTTP server's goroutine has sent.
pub record Surroundings : Type 0 where
  pub dracula_secret : Bytes
  pub parsers : Parsers
  pub num_cpu : ℕ
  pub udp_error : Option Bytes
  pub tcp_error : Option Bytes
  pub http_finished : Option (Option Bytes)
  pub metrics_error : Option Bytes

unfoldable pub pre_shared_secret : Surroundings → Flags → Bytes
pre_shared_secret world f = if not (length f.secret == 0) then f.secret else world.dracula_secret

module _ ⦃hash : Hasher⦄ ⦃t : RedBlackTree⦄ ⦃h : HashMap⦄ where
  -- It returns after the help or the version, exits with the status 1 or runs for ever.
  pub data End : Type 0 where
    returns : End
    peers_without_self startup_error : End
    runs : Instance → End

  after_metrics : Instance → Option Bytes → End
  after_metrics s none = runs s
  after_metrics s (some err) = startup_error

  metrics : Surroundings → Flags → Instance → End
  unfolding after_metrics
  metrics world f s =
      if length f.prom_host_port == 0 then runs s else after_metrics s world.metrics_error

  after_http : Surroundings → Flags → Instance → Option Bytes → End
  unfolding metrics
  after_http world f s none = metrics world f s
  after_http world f s (some err) = startup_error

  after_listen : Surroundings → Flags → Instance × Option ServerError → End
  unfolding after_http
  after_listen world f (s, none) =
      after_http world f s (Lifecycle.listen_http f.rest_host_port world.http_finished)
  after_listen world f (s, some err) = startup_error

  -- The server of the flags.
  unfoldable pub server_of : Surroundings → Flags → Outcome Server
  unfolding pre_shared_secret
  server_of world f =
      let peer_list = trim f.peers in
      if not (length peer_list == 0)
      then new_server_with_peers world.parsers f.expire_after_secs (pre_shared_secret world f)
          f.peer_ip_port peer_list
      else new_server f.expire_after_secs (pre_shared_secret world f)

  unfoldable pub main : Surroundings → Flags → Outcome End
  unfolding server_of after_listen
  main world f =
      if f.help
      then done returns
      else if f.print_version
      then done returns
      else if not (length (trim f.peers) == 0) && length f.peer_ip_port == 0
      then done peers_without_self
      else (do
        s ← server_of world f
        let s' = Lifecycle.made f.expire_after_secs s
        done (
            after_listen world f
              (Lifecycle.listen world.num_cpu world.udp_error world.tcp_error s')))
