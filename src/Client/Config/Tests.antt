-- ===== src/Client/Config/Tests.antt =====
-- client/client.go: closing a concrete client.
use dracula.Client.Config.Lists.{new_client-listing, listing, IsListed}
use dracula.Server.Peers.Listed.{Peer}
use dracula.Server.Peers.{Parsers}
use dracula.Prelude.Int.{ℤ, pos}
use dracula.Client.Config.{new_client, Config}
use dracula.Client.State.{Client}
use dracula.Prelude.{
  map, arith, bytes_eq, if◌then◌else◌, Bytes, bytes_of, done, none, some, ◌∷◌, Option, [], ℕ, refl,
  ◌≡◌,
}

abbrev atoi : Bytes → Option ℤ
atoi s = if bytes_eq s (bytes_of "3509") then some (pos 3509) else none

abbrev parse_ip : Bytes → Option Bytes
parse_ip s = if bytes_eq s (bytes_of "10.0.0.1") then some (10 ∷ 0 ∷ 0 ∷ 1 ∷ []) else none

abbrev parsers : Parsers
parsers = record { parse_ip = parse_ip; atoi = atoi }

abbrev first : Peer
first = record {
  host = bytes_of "10.0.0.1";
  num = bytes_of "3509";
  address = record { ip = 10 ∷ 0 ∷ 0 ∷ 1 ∷ []; port = pos 3509 };
}

-- The name of a host is not an IP.
abbrev second_host : Peer
second_host = record {
  host = bytes_of "dracula";
  num = bytes_of "3509";
  address = record { ip = []; port = pos 3509 };
}

first-IsListed : IsListed parsers first
first-IsListed = record {
  host = omega arith;
  host_colon = refl;
  num_colon = refl;
  comma = refl;
  space = refl;
  ip = refl;
  port = refl;
}

second_host-IsListed : IsListed parsers second_host
second_host-IsListed = record {
  host = omega arith;
  host_colon = refl;
  num_colon = refl;
  comma = refl;
  space = refl;
  ip = refl;
  port = refl;
}

abbrev conf : Config
conf = record {
  remote_udp_ip_port_list = listing (first ∷ second_host ∷ []);
  remote_tcp_ip_port_list = listing (first ∷ []);
  timeout = 0;
  pre_shared_key = bytes_of "supersecret";
}

new_client-listing_example :
    (c : Client ℕ) × (new_client parsers conf ≡ done c)
    × (c.udp_pool.servers ≡ map (λ s. s.address) (first ∷ second_host ∷ []))
    × (c.tcp_server_list ≡ map (λ s. s.address) (first ∷ []))
new_client-listing_example =
    new_client-listing parsers conf first (second_host ∷ []) (first ∷ [])
      (first-IsListed, (second_host-IsListed, tt)) (first-IsListed, tt) refl refl
