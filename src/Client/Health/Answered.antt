-- ===== src/Client/Health/Answered.antt =====
-- client/client.go, client/serverpool/serverpool.go and server/server.go: health checks that the
-- servers' workers answer.
use dracula.Client.Health.{
  Check, Lists, Waits, first_call, check, round, after_check, place, round_of, seeded, listen,
  listened,
}
use dracula.Client.Responses.Counted.{handle_response-worker}
use dracula.Client.Responses.{CallError, Called}
use dracula.Client.Cache.Entries.{delete_absent}
use dracula.Client.Cache.Cases.{entry}
use dracula.Client.Cache.{ResponseCache, find, delete, is_expired}
use dracula.Client.Udp.Cases.{registered, send_udp-IsRegistered}
use dracula.Client.Requests.Started.{made_packet, counted_up, next_id}
use dracula.Client.Requests.{healthcheck, healthcheck_result}
use dracula.Client.State.{Client, Environment, Sent}
use dracula.Client.Runs.{response, run, step, send_request, receive}
use dracula.Client.Config.{open_conn}
use dracula.Client.Pool.{Random, choose}
use dracula.Client.Pool.Chosen.{choose-some}
use dracula.Server.{Server, Network, Clock, worker, write_udp}
use dracula.Server.Counts.{in_key}
use dracula.Server.Requests.{datagram}
use dracula.RawMessage.{UdpAddr}
use dracula.Tree.{Regexp}
use dracula.Maps.{HashMap, RedBlackTree}
use dracula.Protocol.Words.{uint32_to_bytes, uint32_round_trip, length-uint32_to_bytes}
use dracula.Protocol.Command.{cmd_count}
use dracula.Protocol.Packet.{Packet, Hasher, to_bytes, new_packet_from_parts, namespace_size}
use dracula.Prelude.Int.{ℤ}
use dracula.Prelude.{
  ℕ, Bool, List, Option, Bytes, true, false, none, some, [], ◌∷◌, ◌++◌, done, ◌≡◌, ◌≤◌, ◌==◌,
  length, refl, ap, ◌∙◌, sym, subst, bytes_of, arith, done_injective, index, ==_refl,
}

-- The namespace of a check.
abbrev pub check_namespace : (UdpAddr → Bytes) → UdpAddr → Bytes
check_namespace addr_string s = bytes_of "server_healthcheck_" ++ addr_string s

module _ ⦃hash : Hasher⦄ ⦃t : RedBlackTree⦄ ⦃h : HashMap⦄ (addr_string : UdpAddr → Bytes)
    (server : UdpAddr → Server) where
  -- The servers have a key, and the namespaces of their checks fit into a packet.
  abbrev pub AllAnswer : Bytes → List UdpAddr → Type 0
  AllAnswer key [] = Unit
  AllAnswer key (s ∷ servers) =
      ((server s).pre_shared_key ≡ key)
      × (length (check_namespace addr_string s) ≤ namespace_size)
      × AllAnswer key servers

module _ {C : Type 0} where
  -- The client can talk to a server.
  pub record Talks (env : Environment) (now : ℤ) (cb : C) (c : Client C) : Type 0 where
    pub conn : c.conn ≡ true
    pub open' : c.disposed ≡ false
    pub empty : c.messages_waiting.cache ≡ []
    pub fresh : is_expired now c.messages_waiting (entry env.add_now 0 cb) ≡ false
    pub writes : (s : UdpAddr) (b : Bytes) → env.write_to_udp s b ≡ none

module _ {C : Type 0} ⦃hash : Hasher⦄ ⦃t : RedBlackTree⦄ ⦃h : HashMap⦄ (re : Regexp) (net : Network)
    (clock : Clock) (local : UdpAddr) (addr_string : UdpAddr → Bytes)
    (server : UdpAddr → Server) where
  -- A check sends one datagram, the server's worker answers it, and the answer is the only event until the
  -- callback is called.
  pub record Exchange (c : Client C) (s : UdpAddr) (k : Check C) : Type 0 where
    pub sent : Sent C
    pub bytes : Bytes
    pub reply : Bytes
    pub server' : Server
    pub now : ℤ
    pub made : healthcheck addr_string k.network c s k.callback ≡ done sent
    pub effects : sent.effects ≡ write_udp s bytes ∷ []
    pub handled :
        worker re net clock (server s) (datagram local bytes)
        ≡ done (server', write_udp local reply ∷ [])
    pub meanwhile : k.meanwhile ≡ response now reply ∷ []

  -- So it is for each server, one after the other.
  pub data Exchanges : Client C → List UdpAddr → List (Check C) → Type 0 where
    nothing : (c : Client C) → Exchanges c [] []
    then' :
        {c : Client C} {s : UdpAddr} {k : Check C} {servers : List UdpAddr}
        {checks : List (Check C)}
        → Exchange c s k
        → Exchanges (counted_up c) servers checks
        → Exchanges c (s ∷ servers) (k ∷ checks)

  healthcheck-registered :
      (env : Environment) (c : Client C) (s : UdpAddr) (cb : C) (p : Packet) (b : Bytes)
      → new_packet_from_parts cmd_count
          (uint32_to_bytes (next_id c.message_id_counter))
          (check_namespace addr_string s)
          (bytes_of "check")
          c.pre_shared_key
        ≡ done p
      → to_bytes p ≡ done (b, none)
      → find (next_id c.message_id_counter) c.messages_waiting.cache ≡ none
      → c.conn ≡ true
      → env.write_to_udp s b ≡ none
      → healthcheck addr_string env c s cb
        ≡ done (record {
          client = registered env.add_now (next_id c.message_id_counter) cb (counted_up c);
          effects = write_udp s b ∷ [];
          called = [];
        })
  unfolding healthcheck
  healthcheck-registered env c s cb p b made printed free open' writes =
      let (p', packet, makes, same, _, _, _, _, _) =
        made_packet c cmd_count (check_namespace addr_string s) (bytes_of "check") in
      let one : p' ≡ p = done_injective (sym packet.1 ∙ made) in
      let sent =
        send_udp-IsRegistered env (counted_up c) p' s cb b (ap to_bytes one ∙ printed)
          (subst (λ i. find i c.messages_waiting.cache ≡ none) (sym packet.0) free) open' writes in
      rw (makes, sent, packet.0)

  check-answered :
      (same : C → C → Bool) (env : Environment) (now : ℤ) (cb : C) (c : Client C) (s : UdpAddr)
      → Talks env now cb c
      → same cb cb ≡ true
      → (server s).pre_shared_key ≡ c.pre_shared_key
      → length (check_namespace addr_string s) ≤ namespace_size
      → (k : Check C) × (r : Called C) × Exchange c s k
        × (check same addr_string c s k
            ≡ done (record { client = counted_up c; called = r ∷ []; result = some none }))
        × (k.network ≡ env)
        × (k.callback ≡ cb)
  unfolding check run step send_request receive first_call healthcheck_result
  check-answered same env now cb c s talks self key fits =
      let id = next_id c.message_id_counter in
      let w = entry env.add_now id cb in
      let rc : ResponseCache C = record c.messages_waiting {
        cache = w ∷ c.messages_waiting.cache;
      } in
      let here : (w.message_id == id) ≡ true = ==_refl id in
      let free : find id c.messages_waiting.cache ≡ none = ap (find id) talks.empty in
      let found : find id rc.cache ≡ some w = rw here in
      let rest : delete id rc.cache ≡ c.messages_waiting.cache =
        rw here (delete_absent id c.messages_waiting.cache free) in
      let (p, b, reply, answer_bytes, made, written, handled, answered, _) =
        handle_response-worker re net clock (server s) local in_key (uint32_to_bytes id) id
          (check_namespace addr_string s) (bytes_of "check") now rc w (length-uint32_to_bytes id)
          (uint32_round_trip id (omega arith)) fits (omega arith) found talks.fresh in
      let makes =
        ap
          (new_packet_from_parts cmd_count (uint32_to_bytes id) (check_namespace addr_string s)
            (bytes_of "check"))
          (sym key)
        ∙ made in
      let sent =
        healthcheck-registered env c s cb p b makes written free talks.conn (talks.writes s b) in
      let r : Called C = record { callback = cb; data_value = answer_bytes; err = none } in
      let back = answered ∙ ap (λ es. done (record rc { cache = es }, r ∷ [])) rest in
      let k : Check C = record {
        network = env;
        callback = cb;
        meanwhile = response now reply ∷ [];
      } in
      (
        k,
        r,
        record {
          sent = _;
          bytes = b;
          reply = reply;
          server' = _;
          now = now;
          made = sent;
          effects = refl;
          handled = handled;
          meanwhile = refl;
        },
        rw (sent, talks.open', back, self),
        refl,
        refl,
      )

  module _ (same : C → C → Bool) (env : Environment) (now : ℤ) (cb : C)
      (self : same cb cb ≡ true) where
    pub round-answered :
        (c : Client C) (servers : List UdpAddr)
        → Talks env now cb c
        → AllAnswer addr_string server c.pre_shared_key servers
        → (checks : List (Check C)) × (w : Waits C Lists) × Exchanges c servers checks
          × (round same addr_string c servers checks ≡ done w)
          × (w.result ≡ some (servers, []))
          × (w.client.udp_pool ≡ c.udp_pool)
    unfolding round after_check place
    round-answered c [] talks keys = ([], _, Exchanges.nothing c, refl, refl, refl)
    round-answered c (s ∷ servers) talks (key, fit, keys) =
        let (k, r, exchange, checks_it, _, _) =
          check-answered same env now cb c s talks self key fit in
        let next : Talks env now cb (counted_up c) = record {
          conn = talks.conn;
          open' = talks.open';
          empty = talks.empty;
          fresh = talks.fresh;
          writes = talks.writes;
        } in
        let (checks, w, exchanges, rest, found, pool) =
          round-answered (counted_up c) servers next keys in
        (
          k ∷ checks,
          record w { called = r ∷ w.called; result = some (s ∷ servers, []) },
          Exchanges.then' exchange exchanges,
          rw (checks_it, rest, found) refl,
          refl,
          pool,
        )

    -- A client that does not listen yet and is not disposed of, on which nothing waits, that has the key of
    -- all its servers, one at least, and writes to them without an error; the namespace of each check, which
    -- holds the server's address, has at most 64 bytes, and a check does not expire before its answer. There
    -- are checks, each of them one datagram of the client that the server's worker answers with one, the
    -- only event until the callback is called, with which `Listen` returns without an error, all the
    -- servers are healthy, and `Choose` returns one of them, whatever its random numbers.
    pub listen-answered :
        (c : Client C) (rand : Random)
        → c.conn ≡ false
        → c.disposed ≡ false
        → c.messages_waiting.cache ≡ []
        → is_expired now c.messages_waiting (entry env.add_now 0 cb) ≡ false
        → ((s : UdpAddr) (b : Bytes) → env.write_to_udp s b ≡ none)
        → AllAnswer addr_string server c.pre_shared_key c.udp_pool.servers
        → 1 ≤ length c.udp_pool.servers
        → (checks : List (Check C)) × (w : Waits C (Option CallError)) × (s : UdpAddr) × (i : ℕ)
          × Exchanges (record c { conn = true }) c.udp_pool.servers checks
          × (listen same addr_string none checks c ≡ done w)
          × (w.result ≡ some none)
          × (w.client.udp_pool.healthy ≡ c.udp_pool.servers)
          × (choose rand w.client.udp_pool ≡ done (some s))
          × (index c.udp_pool.servers i ≡ done s)
    unfolding listen listened round_of seeded open_conn
    listen-answered c rand shut open' empty fresh writes keys some_server =
        let c' : Client C = record c { conn = true } in
        let talks : Talks env now cb c' = record {
          conn = refl;
          open' = open';
          empty = empty;
          fresh = fresh;
          writes = writes;
        } in
        let (checks, w, exchanges, rounds, found, pool) =
          round-answered c' c.udp_pool.servers talks keys in
        let seeds = record w.client.udp_pool { healthy = c.udp_pool.servers; unhealthy = [] } in
        let (s, i, chosen, at) = choose-some rand seeds some_server in
        (
          checks,
          record {
            client = record w.client { udp_pool = seeds };
            called = w.called;
            result = some none;
          },
          s,
          i,
          exchanges,
          rw (shut, rounds, found) refl,
          refl,
          refl,
          chosen,
          at,
        )
