-- ===== src/Client/Config/New.antt =====
-- client/client.go: a client that `NewClient` has made.
use dracula.Server.Peers.{split, Parsers}
use dracula.Client.State.{Client}
use dracula.Client.Config.{trim_spaces, parse_tcp_servers, parse_servers, new_client, Config}
use dracula.Prelude.{
  ◌∙◌, sym, ap, index, arith, done_injective, subst, inr, inl, panic, ◌&&◌, ◌==◌, if-cases, ◌+◌,
  length, ◌≤◌, false, bind-done, done, [], refl, ◌≡◌,
}
use dracula.Client.Cache as Cache
use dracula.Client.Pool as Pool

parse_tcp_servers-none :
    (net : Parsers) → parse_tcp_servers net (split b',' (trim_spaces [])) ≡ done []
unfolding parse_tcp_servers split index trim_spaces
parse_tcp_servers-none net = refl

module _ {C : Type 0} where
  -- Nothing waits, nothing is connected, and it knows a server at least.
  pub record IsNew (conf : Config) (c : Client C) : Type 0 where
    pub cache : c.messages_waiting.cache ≡ []
    pub flag : c.messages_waiting.disposed ≡ false
    pub disposed : c.disposed ≡ false
    pub pool : c.udp_pool.disposed ≡ false
    pub counter : c.message_id_counter ≡ 0
    pub conn : c.conn ≡ false
    pub key : c.pre_shared_key ≡ conf.pre_shared_key
    pub tcp_pool : c.tcp_pool ≡ []
    pub server : 1 ≤ length c.udp_pool.servers + length c.tcp_server_list

  pub new_client-IsNew :
      (net : Parsers) (conf : Config) (c : Client C) → new_client net conf ≡ done c → IsNew conf c
  unfolding new_client Pool.new_pool Cache.new_cache
  new_client-IsNew net conf c e =
      let (servers, _, e1) = bind-done (parse_servers net _) _ c e in
      let (tcp_servers, _, e2) = bind-done (parse_tcp_servers net _) _ c e1 in
      elim (if-cases (length servers == 0 && length tcp_servers == 0) panic _ (done c) e2) [
        | inl (_, e3) ↦ absurd (cc)
        | inr (some_server, e3) ↦ subst (IsNew conf) (done_injective e3) (record {
          cache = refl;
          flag = refl;
          disposed = refl;
          pool = refl;
          counter = refl;
          conn = refl;
          key = refl;
          tcp_pool = refl;
          server = ground (arith, some_server);
        })
      ]

  pub new_client-no_tcp :
      (net : Parsers) (conf : Config) (c : Client C)
      → conf.remote_tcp_ip_port_list ≡ []
      → new_client net conf ≡ done c
      → c.tcp_server_list ≡ []
  unfolding new_client
  new_client-no_tcp net conf c no_tcp e =
      let parts = split b',' (trim_spaces conf.remote_tcp_ip_port_list) in
      let (servers, _, e1) = bind-done (parse_servers net _) _ c e in
      let (tcp_servers, tcp, e2) = bind-done (parse_tcp_servers net parts) _ c e1 in
      let none_read : parse_tcp_servers net parts ≡ done [] =
        ap (λ s. parse_tcp_servers net (split b',' (trim_spaces s))) no_tcp
        ∙ parse_tcp_servers-none net in
      let empty : [] ≡ tcp_servers = done_injective (sym none_read ∙ tcp) in
      elim (if-cases (length servers == 0 && length tcp_servers == 0) panic _ (done c) e2) [
        | inl (_, e3) ↦ absurd (cc)
        | inr (_, e3) ↦ subst (λ x. x.tcp_server_list ≡ []) (done_injective e3) (sym empty)
      ]
