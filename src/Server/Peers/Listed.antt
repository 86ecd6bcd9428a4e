-- ===== src/Server/Peers/Listed.antt =====
-- server/server.go: the peers that `NewServerWithPeers` reads off a list.
use dracula.Store.{new_store}
use dracula.Prelude.Int.{ltb_ℤ, ◌≤ℤ◌, ℤ}
use dracula.Maps.{HashMap, RedBlackTree}
use dracula.RawMessage.{UdpAddr}
use dracula.Protocol.Packet.{Hasher}
use dracula.Server.{join}
use dracula.Server.Peers.{
  minimum_expiry_secs, new_server, new_server_with_peers, or_bad_peers_format, parse_peers,
  parse_host_port, onto_first, Parsers, split,
}
use dracula.Prelude.{
  length-append, ◌<◌, true, length, ltb, inr, inl, bytes_eq, ap, refl, Bool-cases, not, ◌∙◌, ◌||◌,
  ◌==◌, keep, done, some, [], arith, map, ◌∷◌, false, ◌++◌, List, ◌≡◌, Bool, Bytes, ℕ,
}

abbrev pub has : ℕ → Bytes → Bool
has c [] = false
has c (x ∷ s) = x == c || has c s

pub split-append :
    (sep : ℕ) (s rest : Bytes)
    → has sep s ≡ false
    → split sep (s ++ (sep ∷ rest)) ≡ s ∷ split sep rest
unfolding split onto_first
split-append sep [] rest h = ground arith
split-append sep (x ∷ s) rest h =
    let other : (x == sep) ≡ false = ground arith in
    rw (other, split-append sep s rest (ground arith))

pub split-plain : (sep : ℕ) (s : Bytes) → has sep s ≡ false → split sep s ≡ s ∷ []
unfolding split onto_first
split-plain sep [] h = refl
split-plain sep (x ∷ s) h =
    let other : (x == sep) ≡ false = ground arith in rw (other, split-plain sep s (ground arith))

-- Parts without a byte.
abbrev pub Lack : ℕ → List Bytes → Type 0
Lack c [] = Unit
Lack c (part ∷ parts) = (has c part ≡ false) × Lack c parts

pub split-join :
    (sep : ℕ) (part : Bytes) (parts : List Bytes)
    → Lack sep (part ∷ parts)
    → split sep (join (sep ∷ []) (part ∷ parts)) ≡ part ∷ parts
unfolding join
split-join sep part [] (h, _) = split-plain sep part h
split-join sep part (next ∷ parts) (h, hs) =
    split-append sep part (join (sep ∷ []) (next ∷ parts)) h
    ∙ ap (◌∷◌ part) (split-join sep next parts hs)

-- A peer of the list: its two texts, and what the parsers make of them.
pub record Peer : Type 0 where
  pub host : Bytes
  pub num : Bytes
  pub address : UdpAddr

abbrev pub host_port : Peer → Bytes
host_port e = e.host ++ (b':' ∷ e.num)

-- The texts have no colon and no comma, and are parsed.
pub record IsPeer (net : Parsers) (e : Peer) : Type 0 where
  pub host_colon : has b':' e.host ≡ false
  pub num_colon : has b':' e.num ≡ false
  pub comma : has b',' (host_port e) ≡ false
  pub ip : net.parse_ip e.host ≡ some e.address.ip
  pub port : net.atoi e.num ≡ some e.address.port

abbrev pub ArePeers : Parsers → List Peer → Type 0
ArePeers net [] = Unit
ArePeers net (e ∷ es) = IsPeer net e × ArePeers net es

commas-Lack : (net : Parsers) (es : List Peer) → ArePeers net es → Lack b',' (map host_port es)
commas-Lack net [] oks = tt
commas-Lack net (e ∷ es) (ok, oks) = (ok.comma, commas-Lack net es oks)

parse_host_port-split :
    (net : Parsers) (e : Peer)
    → IsPeer net e
    → parse_host_port net (split b':' (host_port e)) ≡ done e.address
unfolding parse_host_port or_bad_peers_format
parse_host_port-split net e ok = rw (
  split-append b':' e.host e.num ok.host_colon,
  split-plain b':' e.num ok.num_colon,
  ok.ip,
  ok.port,
)

-- The others' addresses, in order.
abbrev pub others : Bytes → List Peer → List UdpAddr
others self es = map (λ e. e.address) (keep (λ e. not (bytes_eq (host_port e) self)) es)

parse_peers-others :
    (net : Parsers) (self : Bytes) (es : List Peer)
    → ArePeers net es
    → parse_peers net self (map host_port es) ≡ done (others self es)
unfolding parse_peers
parse_peers-others net self [] oks = refl
parse_peers-others net self (e ∷ es) (ok, oks) = elim (Bool-cases (bytes_eq (host_port e) self)) [
  | inl mine ↦ rw (mine, parse_peers-others net self es oks)
  | inr other ↦ rw (other, parse_host_port-split net e ok, parse_peers-others net self es oks)
]

join_some : (e : Peer) (es : List Peer) → 0 < length (join (b',' ∷ []) (map host_port (e ∷ es)))
unfolding join
join_some e [] = omega (arith, length-append e.host (b':' ∷ e.num))
join_some e (e' ∷ es) =
    let rest = join (b',' ∷ []) (map host_port (e' ∷ es)) in
    omega (arith, length-append (host_port e) (b',' ∷ rest))

module _ ⦃hash : Hasher⦄ ⦃t : RedBlackTree⦄ ⦃h : HashMap⦄ where
  -- A server that is made with an expiry of two seconds or more, and with a list of peers that are
  -- joined by commas, each an address that parses, a colon and a number, without other colons or
  -- commas, starts with an empty store and has the peers of the list in order, all but those whose text
  -- is its own.
  pub new_server_with_peers-join :
      (net : Parsers) (ttl : ℤ) (key self : Bytes) (e : Peer) (es : List Peer)
      → minimum_expiry_secs ≤ℤ ttl
      → IsPeer net e
      → ArePeers net es
      → new_server_with_peers net ttl key self (join (b',' ∷ []) (map host_port (e ∷ es)))
        ≡ done
            (record { store = new_store ttl; pre_shared_key = key; peers = others self (e ∷ es) })
  unfolding new_server_with_peers new_server
  new_server_with_peers-join net ttl key self e es enough ok oks =
      let long : ltb_ℤ ttl minimum_expiry_secs ≡ false = ground arith in
      let some_text : ltb 0 (length (join (b',' ∷ []) (map host_port (e ∷ es)))) ≡ true =
        ground (arith, join_some e es) in
      rw (
        long,
        some_text,
        split-join b',' (host_port e) (map host_port es) (commas-Lack net (e ∷ es) (ok, oks)),
        parse_peers-others net self (e ∷ es) (ok, oks),
      )
