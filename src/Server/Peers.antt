-- ===== src/Server/Peers.antt =====
-- server/server.go: `NewServer` and `NewServerWithPeers`, which reads the list of peers.
use dracula.Store.{new_store}
use dracula.Server.{Server}
use dracula.RawMessage.{UdpAddr}
use dracula.Maps.{HashMap, RedBlackTree}
use dracula.Protocol.Packet.{Hasher}
use dracula.Prelude.Int.{ltb_ℤ, pos, ℤ}
use dracula.Prelude.{
  length, none, ltb, bytes_eq, ◌>>=◌, done, some, ◌==◌, [], panic, if◌then◌else◌, Outcome, ◌∷◌,
  List, Option, ℕ, Bytes,
}
pub mod Listed
mod Tests

-- `net.ParseIP` and `strconv.Atoi`, which may fail.
pub record Parsers : Type 0 where
  pub parse_ip : Bytes → Option Bytes
  pub atoi : Bytes → Option ℤ

onto_first : ℕ → List Bytes → List Bytes
onto_first c [] = (c ∷ []) ∷ []
onto_first c (part ∷ parts) = (c ∷ part) ∷ parts

-- `strings.Split` at a separator of one byte.
unfoldable pub split : ℕ → Bytes → List Bytes
unfolding onto_first
split sep [] = [] ∷ []
split sep (c ∷ s) = let parts = split sep s in if c == sep then [] ∷ parts else onto_first c parts

or_bad_peers_format : {A : Type 0} → Option A → Outcome A
or_bad_peers_format none = panic
or_bad_peers_format (some a) = done a

parse_host_port : Parsers → List Bytes → Outcome UdpAddr
unfolding or_bad_peers_format
parse_host_port net (host ∷ num ∷ []) = do
  ip ← or_bad_peers_format (net.parse_ip host)
  port ← or_bad_peers_format (net.atoi num)
  done (record { ip = ip; port = port })
parse_host_port net _ = panic

-- The loop over the parts of the list, without this server's own.
parse_peers : Parsers → Bytes → List Bytes → Outcome (List UdpAddr)
unfolding parse_host_port split
parse_peers net self [] = done []
parse_peers net self (peer_host_port ∷ parts) =
    let rest = parse_peers net self parts in
    if bytes_eq peer_host_port self then rest else (do
      peer ← parse_host_port net (split b':' peer_host_port)
      peers ← rest
      done (peer ∷ peers))

abbrev pub minimum_expiry_secs : ℤ
minimum_expiry_secs = pos 2

module _ ⦃hash : Hasher⦄ ⦃t : RedBlackTree⦄ ⦃h : HashMap⦄ where
  unfoldable pub new_server : ℤ → Bytes → Outcome Server
  new_server expire_after_secs pre_shared_key =
      if ltb_ℤ expire_after_secs minimum_expiry_secs
      then panic
      else done (record {
        store = new_store expire_after_secs;
        pre_shared_key = pre_shared_key;
        peers = [];
      })

  unfoldable pub new_server_with_peers : Parsers → ℤ → Bytes → Bytes → Bytes → Outcome Server
  unfolding new_server split parse_peers
  new_server_with_peers net expire_after_secs pre_shared_key self_peer_host_port peer_string_list =
      do
        s ← new_server expire_after_secs pre_shared_key
        peers ←
            (if ltb 0 (length peer_string_list)
              then parse_peers net self_peer_host_port (split b',' peer_string_list)
              else done [])
        done (record s { peers = peers })
