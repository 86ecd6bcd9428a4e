-- ===== src/Client/Examples.antt =====
-- client/client.go: a concrete client and its server, for the tests of the client's parts.
use dracula.Prelude.Int.{pos}
use dracula.Client.State.{delivers, Client, Environment}
use dracula.RawMessage.{UdpAddr}
use dracula.Server.{Server, Clock, Network}
use dracula.Client.Pool.{Random}
use dracula.Tree.{Regexp}
use dracula.Prelude.{some, none, [], true, bytes_eq, ℕ, bytes_of, ◌∷◌, false, inr, Bytes}
use dracula.Store as Methods
use dracula.Maps.Assoc.{assoc_tree, assoc_hash}
use dracula.Protocol.Packet.XxHash.{xx_hash}

abbrev pub literal : Regexp
literal = record { compile = λ pattern. inr (bytes_eq pattern) }

abbrev pub server_net : Network
server_net = record { udp_fails = λ addr b. false }

abbrev pub clock : Clock
clock = record { now = pos 100; secs = pos 100; times = λ ns k. pos 100 }

abbrev pub local : UdpAddr
local = record { ip = 10 ∷ 0 ∷ 0 ∷ 7 ∷ []; port = pos 40000 }

abbrev pub remote_server : UdpAddr
remote_server = record { ip = 10 ∷ 0 ∷ 0 ∷ 1 ∷ []; port = pos 3509 }

abbrev pub users : Bytes
users = bytes_of "users"

abbrev pub alice : Bytes
alice = bytes_of "alice"

abbrev pub server : Server
server = record {
  store = Methods.put (pos 90) (pos 90) (Methods.new_store (pos 60)) users alice;
  pre_shared_key = bytes_of "supersecret";
  peers = [];
}

abbrev pub first_server : Random
first_server = record { intn = λ n. 0; intn_lt = λ n h. h }

-- A network that writes, and a connection that ends before it delivers a line.
abbrev pub network : Environment
network = record {
  rand = first_server;
  add_now = pos 100;
  pull_now = pos 100;
  write_to_udp = λ addr b. none;
  write_to_tcp = λ conn b. none;
  dial_tcp = λ addr. some 3;
  selected = 0;
  remote_addr = λ conn. remote_server;
  turn = some (delivers [] (bytes_of "EOF"));
}

-- A client that listens, with one healthy server, and with a connection in its pool.
abbrev pub client : Client ℕ
client = record {
  conn = true;
  udp_pool = record {
    servers = remote_server ∷ [];
    healthy = remote_server ∷ [];
    unhealthy = [];
    disposed = false;
  };
  tcp_pool = 3 ∷ [];
  tcp_pool_map = some 3 ∷ [];
  tcp_server_list = remote_server ∷ [];
  messages_waiting = record {
    cache = [];
    disposed = false;
    cleanup_every = 1;
    timeout_secs = pos 6;
  };
  message_id_counter = 7;
  pre_shared_key = bytes_of "supersecret";
  disposed = false;
  timeout_duration = 1000000000;
}
