-- ===== src/Server/Peers/Tests.antt =====
-- server/server.go: a server with a list of peers of which one is itself.
use dracula.Prelude.Int.{ℤ, pos}
use dracula.Prelude.{
  Bytes, Option, bytes_eq, bytes_of, done, if◌then◌else◌, none, some, refl, ◌≡◌, [], ◌∷◌, arith,
}
use dracula.Protocol.Packet.XxHash.{xx_hash}
use dracula.Maps.Assoc.{assoc_tree, assoc_hash}
use dracula.Store.{new_store}
use dracula.Server.{join}
use dracula.Server.Peers.{Parsers, new_server_with_peers}
use dracula.Server.Peers.Listed.{Peer, IsPeer, host_port, new_server_with_peers-join}

abbrev parse_ip : Bytes → Option Bytes
parse_ip s =
    if bytes_eq s (bytes_of "10.0.0.1")
    then some (10 ∷ 0 ∷ 0 ∷ 1 ∷ [])
    else if bytes_eq s (bytes_of "10.0.0.2")
    then some (10 ∷ 0 ∷ 0 ∷ 2 ∷ [])
    else none

abbrev atoi : Bytes → Option ℤ
atoi s = if bytes_eq s (bytes_of "3509") then some (pos 3509) else none

abbrev net : Parsers
net = record { parse_ip = parse_ip; atoi = atoi }

abbrev mine : Peer
mine = record {
  host = bytes_of "10.0.0.1";
  num = bytes_of "3509";
  address = record { ip = 10 ∷ 0 ∷ 0 ∷ 1 ∷ []; port = pos 3509 };
}

abbrev other : Peer
other = record {
  host = bytes_of "10.0.0.2";
  num = bytes_of "3509";
  address = record { ip = 10 ∷ 0 ∷ 0 ∷ 2 ∷ []; port = pos 3509 };
}

mine-IsPeer : IsPeer net mine
mine-IsPeer = record { host_colon = refl; num_colon = refl; comma = refl; ip = refl; port = refl }

other-IsPeer : IsPeer net other
other-IsPeer = record { host_colon = refl; num_colon = refl; comma = refl; ip = refl; port = refl }

abbrev key : Bytes
key = bytes_of "supersecret"

new_server_with_peers-join_example :
    new_server_with_peers net
      (pos 60)
      key
      (host_port mine)
      (join (b',' ∷ []) (host_port mine ∷ host_port other ∷ []))
    ≡ done (record { store = new_store (pos 60); pre_shared_key = key; peers = other.address ∷ [] })
new_server_with_peers-join_example =
    new_server_with_peers-join net (pos 60) key (host_port mine) mine (other ∷ []) (omega arith)
      mine-IsPeer (other-IsPeer, tt)
