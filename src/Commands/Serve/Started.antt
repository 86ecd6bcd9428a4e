-- ===== src/Commands/Serve/Started.antt =====
-- cmd/server/main.go: a server that runs.
use dracula.Server.Lifecycle.Runs.{listen-made}
use dracula.Server.Rest.{trim}
use dracula.Server.{Server}
use dracula.Commands.Serve.{
  after_http, after_metrics, server_of, main, after_listen, Flags, Surroundings, metrics, runs, End,
}
use dracula.Server.Lifecycle.{ServerError, Instance}
use dracula.Maps.{HashMap, RedBlackTree}
use dracula.Protocol.Packet.{Hasher}
use dracula.Prelude.{
  done_injective, bind-done, ◌&&◌, not, Bytes, ◌+◌, false, some, true, none, inr, ◌==◌, inl, done,
  Option, length, if-cases, ◌≡◌, ap,
}
use dracula.Server.Lifecycle as Lifecycle

module _ ⦃hash : Hasher⦄ ⦃t : RedBlackTree⦄ ⦃h : HashMap⦄ where
  runs_injective : {s s' : Instance} → End.runs s ≡ runs s' → s ≡ s'
  runs_injective e = cc

  after_metrics-runs :
      (s s' : Instance) (err : Option Bytes) → after_metrics s err ≡ runs s' → s ≡ s'
  unfolding after_metrics
  after_metrics-runs s s' none e = runs_injective e
  after_metrics-runs s s' (some err) e = absurd (cc)

  metrics-runs :
      (world : Surroundings) (f : Flags) (s s' : Instance) → metrics world f s ≡ runs s' → s ≡ s'
  unfolding metrics
  metrics-runs world f s s' e = elim (if-cases (length f.prom_host_port == 0) _ _ (runs s') e) [
    | inl (_, e') ↦ runs_injective e'
    | inr (_, e') ↦ after_metrics-runs s s' world.metrics_error e'
  ]

  after_http-runs :
      (world : Surroundings) (f : Flags) (s s' : Instance) (err : Option Bytes)
      → after_http world f s err ≡ runs s'
      → s ≡ s'
  unfolding after_http
  after_http-runs world f s s' none e = metrics-runs world f s s' e
  after_http-runs world f s s' (some err) e = absurd (cc)

  -- What listens is a server of these flags, with no error.
  after_listen-runs :
      (world : Surroundings) (f : Flags) (listened : Instance × Option ServerError) (s : Instance)
      → after_listen world f listened ≡ runs s
      → listened ≡ (s, none)
  unfolding after_listen
  after_listen-runs world f (s', none) s e = ap (λ x. (x, none)) (after_http-runs world f s' s _ e)
  after_listen-runs world f (s', some err) s e = absurd (cc)

  -- The command runs a server only where it has listened by UDP and TCP without an error. The server is
  -- the one that the flags make, with their expiry, it is not disposed of, its sockets and its channel of messages are open,
  -- and there is one worker more than CPUs.
  pub main-runs :
      (world : Surroundings) (f : Flags) (s : Instance)
      → main world f ≡ done (runs s)
      → (server : Server) × (server_of world f ≡ done server)
        × (world.udp_error ≡ none)
        × (world.tcp_error ≡ none)
        × (s ≡ record {
          server = server;
          conn = true;
          tcp_conn = true;
          udp_open = true;
          tcp_open = true;
          disposed = false;
          expire_after_secs = f.expire_after_secs;
          message_processing = true;
          workers = world.num_cpu + 1;
        })
  unfolding main Lifecycle.made
  main-runs world f s e = elim (if-cases f.help _ _ (done (runs s)) e) [
    | inl (_, e1) ↦ absurd (cc)
    | inr (_, e1) ↦ elim (if-cases f.print_version _ _ (done (runs s)) e1) [
      | inl (_, e2) ↦ absurd (cc)
      | inr (_, e2) ↦
          elim (if-cases (not (length (trim f.peers) == 0) && length f.peer_ip_port == 0) _ _
            (done (runs s)) e2) [
              | inl (_, e3) ↦ absurd (cc)
              | inr (_, e3) ↦
                  let (server, made', e4) = bind-done (server_of world f) _ (runs s) e3 in
                  let listened = after_listen-runs world f _ s (done_injective e4) in
                  let (udp, tcp, is) =
                    listen-made world.num_cpu world.udp_error world.tcp_error f.expire_after_secs
                      server s listened in
                  (server, made', udp, tcp, is)
            ]
    ]
  ]
