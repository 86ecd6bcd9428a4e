-- ===== src/Server/Lifecycle/Tests.antt =====
-- server/server.go: a concrete server that is made, listens and is closed.
use dracula.Server.Lifecycle.Runs.{run_operations-listen, IsSteady, run_operations, Operation}
use dracula.Prelude.Int.{pos}
use dracula.Server.{Server}
use dracula.RawMessage.{UdpAddr}
use dracula.Server.Lifecycle.{server_already_init, failed, made, Instance}
use dracula.Prelude.{panic, some, done, [], ◌∷◌, none, Bytes, bytes_of, List, refl, ◌≡◌}
use dracula.Store as Methods
use dracula.Server.Lifecycle as Lifecycle
use dracula.Maps.Assoc.{assoc_tree, assoc_hash}
use dracula.Protocol.Packet.XxHash.{xx_hash}

abbrev peer : UdpAddr
peer = record { ip = bytes_of "10.0.0.1"; port = pos 3509 }

abbrev peer2 : UdpAddr
peer2 = record { ip = bytes_of "10.0.0.2"; port = pos 3509 }

abbrev server : Server
server = record {
  store = Methods.new_store (pos 60);
  pre_shared_key = bytes_of "supersecret";
  peers = peer ∷ peer2 ∷ [];
}

abbrev idle : Instance
idle = made (pos 60) server

ip_of : UdpAddr → Bytes
ip_of addr = addr.ip

abbrev operations : List Operation
operations =
    Operation.listen none none
    ∷ Operation.clear
    ∷ Operation.close none none
    ∷ Operation.close none none
    ∷ []

run_operations-listen_example :
    (s : Instance) × (run_operations 4
        (made (pos 60) server)
        (Operation.listen none none ∷ operations)
      ≡ done s)
    × IsSteady 4 s
run_operations-listen_example = run_operations-listen 4 (pos 60) server none operations

-- After a failure at TCP the server cannot listen any more.
abbrev half : Instance
half = (Lifecycle.listen 4 none (some (bytes_of "in use")) idle).0

listen-half : (Lifecycle.listen 4 none none half).1 ≡ some server_already_init
unfolding Lifecycle.listen made
listen-half = refl

-- To close a server that does not listen is a panic.
close-idle : Lifecycle.close none none idle ≡ panic
unfolding Lifecycle.close made
close-idle = refl
