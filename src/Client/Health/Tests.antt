-- ===== src/Client/Health/Tests.antt =====
-- client/client.go and client/serverpool/serverpool.go: a client that listens, with numbers for callbacks.
use dracula.Client.Examples.{
  literal, server_net, clock, local, server, network, client, remote_server,
}
use dracula.Client.Health.{Check, Lists, Waits, listen, round, round_of, seeded}
use dracula.Client.Health.Chosen.{Chooses, choose-round_of}
use dracula.Client.Health.Results.{Results, Checks}
use dracula.Client.Health.Listened.{HasListened, listen-run}
use dracula.Client.Health.Answered.{Talks, round-answered, Exchanges, listen-answered}
use dracula.Client.Cache.Cases.{entry}
use dracula.Client.Cache.{is_expired}
use dracula.Client.Pool.{choose}
use dracula.Client.Responses.{CallError}
use dracula.Client.State.{Client}
use dracula.RawMessage.{UdpAddr}
use dracula.Protocol.Packet.XxHash.{xx_hash}
use dracula.Maps.Assoc.{assoc_tree, assoc_hash}
use dracula.Prelude.Int.{pos, sub64}
use dracula.Prelude.{
  ℕ, Bytes, List, Option, true, false, none, some, done, ◌∷◌, [], ◌≡◌, ◌==◌, refl, bytes_of, index,
  arith,
}

abbrev addr_string : UdpAddr → Bytes
addr_string s = bytes_of "10.0.0.1:3509"

-- It has two servers.
abbrev quiet : Client ℕ
quiet = record client {
  conn = false;
  udp_pool = record {
    servers = remote_server ∷ local ∷ [];
    healthy = [];
    unhealthy = [];
    disposed = false;
  };
}

quiet-fresh : is_expired (pos 101) quiet.messages_waiting (entry (pos 100) 0 11) ≡ false
unfolding sub64
quiet-fresh = refl

listen-answered_example :
    (checks : List (Check ℕ)) × (w : Waits ℕ (Option CallError)) × (s : UdpAddr) × (i : ℕ)
    × Exchanges literal server_net clock local addr_string
        (λ s. server)
        (record quiet { conn = true })
        quiet.udp_pool.servers
        checks
    × (listen ◌==◌ addr_string none checks quiet ≡ done w)
    × (w.result ≡ some none)
    × (w.client.udp_pool.healthy ≡ quiet.udp_pool.servers)
    × (choose network.rand w.client.udp_pool ≡ done (some s))
    × (index quiet.udp_pool.servers i ≡ done s)
listen-answered_example =
    listen-answered literal server_net clock local addr_string (λ s. server) ◌==◌ network (pos 101)
      11 refl quiet network.rand refl refl refl quiet-fresh (λ s b. refl)
      (refl, omega arith, (refl, omega arith, tt)) (omega arith)

-- The client has its connection, and its servers answer the checks.
abbrev listening : Client ℕ
listening = record quiet { conn = true }

listening-Talks : Talks network (pos 101) 11 listening
listening-Talks = record {
  conn = refl;
  open' = refl;
  empty = refl;
  fresh = quiet-fresh;
  writes = λ s b. refl;
}

abbrev answered :
    (checks : List (Check ℕ)) × (w : Waits ℕ Lists) × Exchanges literal server_net clock local
      addr_string
      (λ s. server)
      listening
      quiet.udp_pool.servers
      checks
    × (round ◌==◌ addr_string listening quiet.udp_pool.servers checks ≡ done w)
    × (w.result ≡ some (quiet.udp_pool.servers, []))
    × (w.client.udp_pool ≡ listening.udp_pool)
answered =
    round-answered literal server_net clock local addr_string (λ s. server) ◌==◌ network (pos 101)
      11 refl listening quiet.udp_pool.servers listening-Talks
      (refl, omega arith, (refl, omega arith, tt))

-- The same round, with the pool that it leaves.
abbrev rounded : Waits ℕ Lists
rounded = record answered.1 { client = seeded ◌==◌ addr_string answered.1.client answered.1.result }

abbrev round_of-rounded : round_of ◌==◌ addr_string answered.0 listening ≡ done rounded
unfolding round_of
round_of-rounded = rw answered.3

choose-round_of_example :
    (rs : Results) × (c' : Client ℕ) × Checks addr_string ◌==◌ listening quiet.udp_pool.servers
      answered.0 rs c'
    × Chooses network.rand rounded.client.udp_pool rs
choose-round_of_example =
    choose-round_of addr_string ◌==◌ network.rand answered.0 listening rounded
      (quiet.udp_pool.servers, []) round_of-rounded answered.4

abbrev listened :
    (checks : List (Check ℕ)) × (w : Waits ℕ (Option CallError)) × (s : UdpAddr) × (i : ℕ)
    × Exchanges literal server_net clock local addr_string
        (λ s. server)
        listening
        quiet.udp_pool.servers
        checks
    × (listen ◌==◌ addr_string none checks quiet ≡ done w)
    × (w.result ≡ some none)
    × (w.client.udp_pool.healthy ≡ quiet.udp_pool.servers)
    × (choose network.rand w.client.udp_pool ≡ done (some s))
    × (index quiet.udp_pool.servers i ≡ done s)
listened =
    listen-answered literal server_net clock local addr_string (λ s. server) ◌==◌ network (pos 101)
      11 refl quiet network.rand refl refl refl quiet-fresh (λ s b. refl)
      (refl, omega arith, (refl, omega arith, tt)) (omega arith)

abbrev no_error : Option Bytes
no_error = none

listen-run_example :
    (quiet.conn ≡ false)
    × (no_error ≡ none)
    × HasListened addr_string ◌==◌ quiet listened.0 listened.1.client listened.1.called
listen-run_example =
    listen-run addr_string ◌==◌ no_error listened.0 quiet listened.1 listened.5 listened.6
