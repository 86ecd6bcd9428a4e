-- ===== src/Server/Rest/Tests.antt =====
-- server/restserver.go: runs of the handlers.
use dracula.Prelude.Int.{pos, add64}
use dracula.Prelude.{Bytes, arith, bytes_eq, bytes_of, if◌then◌else◌, refl, true, ◌≡◌, ◌+◌, []}
use dracula.Protocol.Packet.XxHash.{xx_hash}
use dracula.Maps.Assoc.{assoc_tree, assoc_hash}
use dracula.Tree.{alive}
use dracula.Store as Methods
use dracula.Store.Views.{new_store-IsUniform}
use dracula.Server.{Clock, Server}
use dracula.Server.Rest.{Request, count_response, ok, rest_server, trim}
use dracula.Server.Rest.Put.{rest_server-put}

abbrev clock : Clock
clock = record { now = pos 100; secs = pos 100; times = λ ns k. pos 100 }

abbrev server : Server
server = record {
  store = Methods.new_store (pos 60);
  pre_shared_key = bytes_of "supersecret";
  peers = [];
}

abbrev query : Bytes → Bytes
query name = if bytes_eq name (bytes_of "namespace") then bytes_of " users" else bytes_of "alice "

abbrev request : Request
request = record { method = bytes_of "GET"; path = bytes_of "/put"; query = query }

trim_run : trim (bytes_of " alice ") ≡ bytes_of "alice"
unfolding trim
trim_run = refl

fresh : alive (pos 101) (add64 (pos 100) server.store.expire_after_secs) ≡ true
unfolding add64 Methods.new_store
fresh = refl

rest_server-put_example :
    let ns = trim (query (bytes_of "namespace")) in
    let key = trim (query (bytes_of "key")) in
    rest_server clock (pos 101) server request ≡ (
      record server {
        store =
            (Methods.count
              (pos 101)
              (Methods.put (pos 100) (pos 100) server.store ns key)
              ns
              key).0;
      },
      ok (count_response ((Methods.count (pos 101) server.store ns key).1 + 1)),
    )
unfolding trim
rest_server-put_example =
    rest_server-put clock (pos 101) server request refl refl (omega arith) (omega arith)
      (new_store-IsUniform (pos 60)) (omega arith) fresh
