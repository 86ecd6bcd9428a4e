-- ===== src/Server/Lifecycle/Runs.antt =====
-- server/server.go: any calls of `Listen`, `Close` and `Clear`.
use dracula.Store as Methods
use dracula.Prelude.Int.{ℤ}
use dracula.Maps.{HashMap, RedBlackTree}
use dracula.Server.{Server}
use dracula.Protocol.Packet.{Hasher}
use dracula.Server.Lifecycle.{
  tcp_close_error, first_error, failed, made, server_already_init, listen_tcp, ServerError,
  listen_udp, Instance, print_peers, setup_workers, start_workers,
}
use dracula.Prelude.{
  ◌&&◌, sym, ap, inr, if-either, none, inl, some, Bool-cases, true, ◌∙◌, ◌>>=◌, if◌then◌else◌, zero,
  done, [], ◌∷◌, not, Outcome, false, suc, List, arith, ◌+◌, ℕ, Bytes, Option, refl, ◌≡◌,
}
use dracula.Server.Lifecycle as Lifecycle

pub data Operation : Type 0 where
  listen : Option Bytes → Option Bytes → Operation
  close : Option Bytes → Option Bytes → Operation
  clear : Operation

start_workers-sum : (more started : ℕ) → start_workers more started ≡ more + started
unfolding start_workers
start_workers-sum zero started = omega arith
start_workers-sum (suc more) started = omega (arith, start_workers-sum more (started + 1))

setup_workers-suc : (num_workers : ℕ) → setup_workers num_workers ≡ num_workers + 1
unfolding setup_workers
setup_workers-suc num_workers = omega (arith, start_workers-sum (num_workers + 1) 0)

module _ ⦃hash : Hasher⦄ ⦃t : RedBlackTree⦄ ⦃h : HashMap⦄ where
  unfoldable pub operate : ℕ → Instance → Operation → Outcome Instance
  operate num_cpu s (listen udp_error tcp_error) =
      done (Lifecycle.listen num_cpu udp_error tcp_error s).0
  operate num_cpu s (close udp_error tcp_error) = do
    (s', err) ← Lifecycle.close udp_error tcp_error s
    done s'
  operate num_cpu s clear = done (Lifecycle.clear s)

  unfoldable pub run_operations : ℕ → Instance → List Operation → Outcome Instance
  unfolding operate
  run_operations num_cpu s [] = done s
  run_operations num_cpu s (o ∷ os) = do s' ← operate num_cpu s o; run_operations num_cpu s' os

  -- The server has got its UDP connection. Until it is disposed of, its sockets and the channel are open and,
  -- if it has got the TCP listener too, one worker more than CPUs runs; after that all are closed and
  -- no worker runs.
  pub record IsSteady (num_cpu : ℕ) (s : Instance) : Type 0 where
    pub conn : s.conn ≡ true
    pub channel : s.message_processing ≡ not s.disposed
    pub udp : s.udp_open ≡ not s.disposed
    pub tcp : s.tcp_open ≡ not s.disposed && s.tcp_conn
    pub workers : s.workers ≡ (if s.tcp_open then num_cpu + 1 else 0)

  listen-IsSteady :
      (num_cpu : ℕ) (udp_error tcp_error : Option Bytes) (s : Instance)
      → IsSteady num_cpu s
      → IsSteady num_cpu (Lifecycle.listen num_cpu udp_error tcp_error s).0
  unfolding Lifecycle.listen
  listen-IsSteady num_cpu udp_error tcp_error s ok =
      if-either (λ x. IsSteady num_cpu x.0) s.conn (s, some server_already_init)
        (listen_udp num_cpu tcp_error udp_error s) (λ _. ok)
        (λ closed. let clash : true ≡ false = sym ok.conn ∙ closed in absurd (cc))

  close-IsSteady :
      (num_cpu : ℕ) (udp_error tcp_error : Option Bytes) (s : Instance)
      → IsSteady num_cpu s
      → (s' : Instance) × (err : Option ServerError) × (Lifecycle.close udp_error tcp_error s
          ≡ done (s', err))
        × IsSteady num_cpu s'
  unfolding Lifecycle.close
  close-IsSteady num_cpu udp_error tcp_error s ok = elim (Bool-cases s.disposed) [
    | inl ended ↦ (s, none, simp ended, ok)
    | inr open' ↦
        let channel : s.message_processing ≡ true = ok.channel ∙ ap not open' in
        let stopped : Server = record s.server { store = Methods.disable_cleanup s.server.store } in
        (
          record s {
            disposed = true;
            server = stopped;
            udp_open = false;
            tcp_open = false;
            message_processing = false;
            workers = 0;
          },
          first_error udp_error (tcp_close_error s.tcp_conn tcp_error),
          simp (open', ok.conn, channel),
          record { conn = ok.conn; channel = refl; udp = refl; tcp = refl; workers = refl },
        )
  ]

  operate-IsSteady :
      (num_cpu : ℕ) (s : Instance) (o : Operation)
      → IsSteady num_cpu s
      → (s' : Instance) × (operate num_cpu s o ≡ done s') × IsSteady num_cpu s'
  unfolding operate Lifecycle.clear
  operate-IsSteady num_cpu s (listen udp_error tcp_error) ok =
      (_, refl, listen-IsSteady num_cpu udp_error tcp_error s ok)
  operate-IsSteady num_cpu s (close udp_error tcp_error) ok =
      let (s', err, closes, ok') = close-IsSteady num_cpu udp_error tcp_error s ok in
      (s', rw closes, ok')
  operate-IsSteady num_cpu s clear ok = (
    _,
    refl,
    record {
      conn = ok.conn;
      channel = ok.channel;
      udp = ok.udp;
      tcp = ok.tcp;
      workers = ok.workers;
    },
  )

  run_operations-IsSteady :
      (num_cpu : ℕ) (s : Instance) (os : List Operation)
      → IsSteady num_cpu s
      → (s' : Instance) × (run_operations num_cpu s os ≡ done s') × IsSteady num_cpu s'
  unfolding run_operations
  run_operations-IsSteady num_cpu s [] ok = (s, refl, ok)
  run_operations-IsSteady num_cpu s (o ∷ os) ok =
      let (s', operates, ok') = operate-IsSteady num_cpu s o ok in
      let (s'', runs, ok'') = run_operations-IsSteady num_cpu s' os ok' in
      (s'', rw (operates, runs), ok'')

  first_listen-IsSteady :
      (num_cpu : ℕ) (tcp_error : Option Bytes) (ttl : ℤ) (server : Server)
      → IsSteady num_cpu (Lifecycle.listen num_cpu none tcp_error (made ttl server)).0
  unfolding Lifecycle.listen listen_udp listen_tcp made
  first_listen-IsSteady num_cpu none ttl server = record {
    conn = refl;
    channel = refl;
    udp = refl;
    tcp = refl;
    workers = omega (arith, setup_workers-suc num_cpu);
  }
  first_listen-IsSteady num_cpu (some err) ttl server = record {
    conn = refl;
    channel = refl;
    udp = refl;
    tcp = refl;
    workers = refl;
  }

  -- A server that was made and whose first call is a `Listen` that gets the UDP connection: any further
  -- calls of `Listen`, `Close` and `Clear`, with any errors of the connections, return without a panic; at
  -- the end, unless the server is closed, its UDP socket and the channel are open, and so is the TCP
  -- listener if it got one, and then one worker more than CPUs runs, and none else, however often
  -- `Listen` was called; if it is closed, both sockets and the channel are closed and no worker runs.
  pub run_operations-listen :
      (num_cpu : ℕ) (ttl : ℤ) (server : Server) (tcp_error : Option Bytes) (os : List Operation)
      → (s : Instance) × (run_operations num_cpu (made ttl server) (listen none tcp_error ∷ os)
          ≡ done s)
        × IsSteady num_cpu s
  unfolding run_operations operate
  run_operations-listen num_cpu ttl server tcp_error os =
      run_operations-IsSteady num_cpu (Lifecycle.listen num_cpu none tcp_error (made ttl server)).0
        os (first_listen-IsSteady num_cpu tcp_error ttl server)

  -- What a `Listen` without an error leaves of a server that was made.
  pub listen-made :
      (num_cpu : ℕ) (udp_error tcp_error : Option Bytes) (ttl : ℤ) (server : Server) (s : Instance)
      → Lifecycle.listen num_cpu udp_error tcp_error (made ttl server) ≡ (s, none)
      → (udp_error ≡ none)
        × (tcp_error ≡ none)
        × (s ≡ record (made ttl server) {
          conn = true;
          tcp_conn = true;
          udp_open = true;
          tcp_open = true;
          workers = num_cpu + 1;
        })
  unfolding Lifecycle.listen listen_udp listen_tcp made
  listen-made num_cpu none none ttl server s e = (
    refl,
    refl,
    ap (λ x. x.0) (sym e)
        ∙ ap
            (λ n. record (made ttl server) {
              conn = true;
              tcp_conn = true;
              udp_open = true;
              tcp_open = true;
              workers = n;
            })
            (omega (arith, setup_workers-suc num_cpu)),
  )
  listen-made num_cpu none (some err) ttl server s e = absurd (cc)
  listen-made num_cpu (some err) tcp_error ttl server s e = absurd (cc)
