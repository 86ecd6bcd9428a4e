-- ===== src/Client/Config/Lists.antt =====
-- client/client.go: the lists of servers that `NewClient` reads.
use dracula.Client.State.{Client}
use dracula.Server.Peers.{Parsers, split}
use dracula.Protocol.Pad.{space}
use dracula.Server.Peers.Listed.{split-join, host_port, Peer, Lack, split-append, split-plain, has}
use dracula.Client.Config.{
  second, Config, new_client, parse_tcp_servers, parsed_port, or_nil, parse_servers, parse_server,
  trim_front_spaces, trim_spaces,
}
use dracula.Server.{join}
use dracula.Prelude.{
  if◌then◌else◌, length-append, index, some, done, length, map, ◌≤◌, [], arith, ◌||◌, false, ◌==◌,
  ◌++◌, ◌∷◌, List, Bytes, ℕ, refl, ◌≡◌, ap, ◌∙◌,
}
use dracula.Client.Cache as Cache
use dracula.Client.Pool as Pool
use mathlib.Core.List.{reverse, reverse-cons, reverse-reverse}

has-append : (c : ℕ) (s rest : Bytes) → has c (s ++ rest) ≡ (has c s || has c rest)
has-append c [] rest = refl
has-append c (x ∷ s) rest = ground (arith, has-append c s rest)

has-reverse : (c : ℕ) (s : Bytes) → has c s ≡ false → has c (reverse s) ≡ false
has-reverse c [] h = refl
has-reverse c (x ∷ s) h =
    ap (has c) (reverse-cons x s)
    ∙ ground (arith, has-append c (reverse s) (x ∷ []), has-reverse c s (ground (arith, h)))

has-join :
    (c sep : ℕ) (parts : List Bytes)
    → (sep == c) ≡ false
    → Lack c parts
    → has c (join (sep ∷ []) parts) ≡ false
unfolding join
has-join c sep [] other h = refl
has-join c sep (part ∷ []) other (h, _) = h
has-join c sep (part ∷ next ∷ parts) other (h, hs) =
    let rest = join (sep ∷ []) (next ∷ parts) in
    ground (arith, has-append c part (sep ∷ rest), has-join c sep (next ∷ parts) other hs, h, other)

trim_front_spaces-plain : (s : Bytes) → has space s ≡ false → trim_front_spaces s ≡ s
trim_front_spaces-plain [] h = refl
trim_front_spaces-plain (x ∷ s) h = ground (arith, h)

trim_spaces-plain : (s : Bytes) → has space s ≡ false → trim_spaces s ≡ s
unfolding trim_spaces
trim_spaces-plain s h = rw (
  trim_front_spaces-plain s h,
  trim_front_spaces-plain (reverse s) (has-reverse space s h),
  reverse-reverse s,
)

-- A server of a list: the texts have no colon, comma or space, the host is not empty, and the number is
-- parsed. A host that is not parsed is a nil IP.
pub record IsListed (net : Parsers) (e : Peer) : Type 0 where
  pub host : 1 ≤ length e.host
  pub host_colon : has b':' e.host ≡ false
  pub num_colon : has b':' e.num ≡ false
  pub comma : has b',' (host_port e) ≡ false
  pub space : has space (host_port e) ≡ false
  pub ip : or_nil (net.parse_ip e.host) ≡ e.address.ip
  pub port : net.atoi e.num ≡ some e.address.port

abbrev pub AreListed : Parsers → List Peer → Type 0
AreListed net [] = Unit
AreListed net (e ∷ es) = IsListed net e × AreListed net es

commas-Lack : (net : Parsers) (es : List Peer) → AreListed net es → Lack b',' (map host_port es)
commas-Lack net [] oks = tt
commas-Lack net (e ∷ es) (ok, oks) = (ok.comma, commas-Lack net es oks)

spaces-Lack : (net : Parsers) (es : List Peer) → AreListed net es → Lack space (map host_port es)
spaces-Lack net [] oks = tt
spaces-Lack net (e ∷ es) (ok, oks) = (ok.space, spaces-Lack net es oks)

-- The text of a list.
abbrev pub listing : List Peer → Bytes
listing es = join (b',' ∷ []) (map host_port es)

trim_spaces-listing :
    (net : Parsers) (es : List Peer) → AreListed net es → trim_spaces (listing es) ≡ listing es
trim_spaces-listing net es oks =
    trim_spaces-plain (listing es)
      (has-join space b',' (map host_port es) refl (spaces-Lack net es oks))

parse_server-split :
    (net : Parsers) (e : Peer)
    → IsListed net e
    → parse_server net (split b':' (trim_spaces (host_port e))) ≡ done (e.address ∷ [])
unfolding parse_server parsed_port
parse_server-split net e ok =
    ap (λ s. parse_server net (split b':' s)) (trim_spaces-plain (host_port e) ok.space)
    ∙ ap (parse_server net) (
        split-append b':' e.host e.num ok.host_colon
        ∙ ap (◌∷◌ e.host) (split-plain b':' e.num ok.num_colon))
    ∙ parsed e.host ok.host ok.ip
  where
    parsed :
        (host : Bytes)
        → 1 ≤ length host
        → or_nil (net.parse_ip host) ≡ e.address.ip
        → parse_server net (host ∷ e.num ∷ []) ≡ done (e.address ∷ [])
    parsed [] h k = absurd (omega arith)
    parsed (c ∷ host) h k = rw (ok.port, k)

parse_servers-map :
    (net : Parsers) (es : List Peer)
    → AreListed net es
    → parse_servers net (map host_port es) ≡ done (map (λ e. e.address) es)
unfolding parse_servers
parse_servers-map net [] oks = refl
parse_servers-map net (e ∷ es) (ok, oks) =
    rw (parse_server-split net e ok, parse_servers-map net es oks)

parse_tcp_servers-listing :
    (net : Parsers) (es : List Peer)
    → AreListed net es
    → parse_tcp_servers net (split b',' (trim_spaces (listing es))) ≡ done (map (λ e. e.address) es)
unfolding parse_tcp_servers split index trim_spaces join
parse_tcp_servers-listing net [] oks = refl
parse_tcp_servers-listing net (e ∷ es) (ok, oks) =
    let some_host : (length (host_port e) == 0) ≡ false =
      ground (arith, ok.host, length-append e.host (b':' ∷ e.num)) in
    ap (parse_tcp_servers net) (
      ap (split b',') (trim_spaces-listing net (e ∷ es) (ok, oks))
      ∙ split-join b',' (host_port e) (map host_port es) (commas-Lack net (e ∷ es) (ok, oks)))
    ∙ rw some_host (parse_servers-map net (e ∷ es) (ok, oks))

module _ {C : Type 0} where
  -- A client that is made with a list of servers by UDP, one at least, and a list by TCP, each joined by
  -- commas, each server a host that is not empty, a colon and a number that is parsed, without other colons
  -- or commas and without spaces: it has the servers of both lists in order, with a nil IP for a host that
  -- is not parsed.
  pub new_client-listing :
      (net : Parsers) (conf : Config) (e : Peer) (es tcp : List Peer)
      → AreListed net (e ∷ es)
      → AreListed net tcp
      → conf.remote_udp_ip_port_list ≡ listing (e ∷ es)
      → conf.remote_tcp_ip_port_list ≡ listing tcp
      → (c : Client C) × (new_client net conf ≡ done c)
        × (c.udp_pool.servers ≡ map (λ s. s.address) (e ∷ es))
        × (c.tcp_server_list ≡ map (λ s. s.address) tcp)
  unfolding new_client Pool.new_pool
  new_client-listing net conf e es tcp oks tcp_oks udp_list tcp_list =
      let parts =
        ap (λ s. parse_servers net (split b',' (trim_spaces s))) udp_list
        ∙ ap (λ s. parse_servers net (split b',' s)) (trim_spaces-listing net (e ∷ es) oks)
        ∙ ap (parse_servers net)
            (split-join b',' (host_port e) (map host_port es) (commas-Lack net (e ∷ es) oks))
        ∙ parse_servers-map net (e ∷ es) oks in
      let tcp_parts =
        ap (λ s. parse_tcp_servers net (split b',' (trim_spaces s))) tcp_list
        ∙ parse_tcp_servers-listing net tcp tcp_oks in
      let servers = map (λ s. s.address) (e ∷ es) in
      let tcp_server_list = map (λ s. s.address) tcp in
      let timeout = if conf.timeout == 0 then second else conf.timeout in
      let some_server : (length servers == 0) ≡ false = ground arith in
      (
        record {
          conn = false;
          udp_pool = Pool.new_pool servers;
          tcp_pool = [];
          tcp_pool_map = [];
          tcp_server_list = tcp_server_list;
          messages_waiting = Cache.new_cache timeout;
          message_id_counter = 0;
          pre_shared_key = conf.pre_shared_key;
          disposed = false;
          timeout_duration = timeout;
        },
        rw (parts, tcp_parts, some_server),
        refl,
        refl,
      )
