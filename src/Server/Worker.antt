-- ===== src/Server/Worker.antt =====
-- server/server.go: what a worker does with a message, by what `ParsePacket` and `Validate` say.
use dracula.Prelude.{none, some, refl, done, Bytes, ◌≡◌}
use dracula.Server.{dispatch, reject, Bytes, worker, RawMessage, Server, Clock, Network}
use dracula.Tree.{Regexp}
use dracula.Maps.{HashMap, RedBlackTree}
use dracula.Protocol.Packet.{Error, parse_packet, hash_packet, validate, Packet, Hasher}

module _ ⦃hash : Hasher⦄ ⦃t : RedBlackTree⦄ ⦃h : HashMap⦄ (re : Regexp) (net : Network)
    (clock : Clock) (s : Server) (m : RawMessage) where
  -- The packet that the rest of the worker handles.
  abbrev pub from_client : Packet → Packet
  from_client q = record q { request_client = m.maybe_tcp_client }

  validate-from_client : (q : Packet) (key : Bytes) → validate (from_client q) key ≡ validate q key
  unfolding validate hash_packet
  validate-from_client q key = refl

  pub worker-accepted :
      (q : Packet)
      → parse_packet m.message ≡ done (some q, none)
      → validate q s.pre_shared_key ≡ done none
      → worker re net clock s m ≡ dispatch re net clock s m (from_client q)
  unfolding worker
  worker-accepted q parses valid = rw (parses, validate-from_client q s.pre_shared_key, valid)

  pub worker-forged :
      (q : Packet) (err : Error)
      → parse_packet m.message ≡ done (some q, none)
      → validate q s.pre_shared_key ≡ done (some err)
      → worker re net clock s m ≡ reject s m (from_client q) err
  unfolding worker
  worker-forged q err parses invalid = rw (parses, validate-from_client q s.pre_shared_key, invalid)

  pub worker-malformed :
      (q : Packet) (err : Error)
      → parse_packet m.message ≡ done (some q, some err)
      → worker re net clock s m ≡ reject s m (from_client q) err
  unfolding worker
  worker-malformed q err parses = rw parses
