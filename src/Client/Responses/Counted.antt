-- ===== src/Client/Responses/Counted.antt =====
-- client/client.go: from a client's count request to its callback.
use dracula.Prelude.Int.{ℤ}
use dracula.Prelude.{Bytes, done, length, min, false, none, some, ◌≡◌, ◌≤◌, [], ◌∷◌, subst, ℕ}
use dracula.Protocol.Command.{is_request_cmd, is_response_cmd}
use dracula.Protocol.Packet.{
  Packet, Hasher, new_packet_from_parts, to_bytes, parse_packet, namespace_size, data_value_size,
}
use dracula.Protocol.Text.{trim_space}
use dracula.Protocol.Words.{uint32_from_bytes}
use dracula.Maps.{HashMap, RedBlackTree}
use dracula.Tree.{Regexp}
use dracula.Server.{UdpAddr, Server, Clock, Network, worker, write_udp, max_uint32}
use dracula.Server.Requests.{datagram}
use dracula.Server.Counts.{
  Counting, in_key, in_namespace, in_server, command_of, counted, worker-counted,
}
use dracula.Client.Cache as Cache
use dracula.Client.Cache.{Waiting, ResponseCache, find, delete, is_expired}
use dracula.Client.Responses.{handle_response, respond_to}

module _ {C : Type 0} where
  respond_to-counting :
      (c : Counting) (packet : Packet) (cb : C)
      → packet.command ≡ command_of c
      → respond_to packet cb
        ≡ record { callback = cb; data_value = packet.data_value; err = none } ∷ []
  unfolding respond_to is_response_cmd is_request_cmd
  respond_to-counting in_key packet cb e = rw e
  respond_to-counting in_namespace packet cb e = rw e
  respond_to-counting in_server packet cb e = rw e

  handle_response-counting :
      (c : Counting) (now : ℤ) (rc : ResponseCache C) (message : Bytes) (packet : Packet)
      (w : Waiting C)
      → parse_packet message ≡ done (some packet, none)
      → packet.command ≡ command_of c
      → find packet.message_id rc.cache ≡ some w
      → is_expired now rc w ≡ false
      → handle_response now rc message
        ≡ done (
          record rc { cache = delete packet.message_id rc.cache },
          record { callback = w.callback; data_value = packet.data_value; err = none } ∷ [],
        )
  unfolding handle_response Cache.pull
  handle_response-counting c now rc message packet w parses e found fresh =
      rw (parses, found, fresh, respond_to-counting c packet w.callback e)

  -- A count by UDP, from the request to the callback: the server's worker answers the client's packet,
  -- and the client, where the callback still waits under the identifier of the request, calls it once,
  -- without an error and with bytes off which `Uint32FromBytes` reads the least of the server's count
  -- and 2^32 - 1; the callback waits no more. The identifier has four bytes, the namespace at most 64
  -- and the key at most 1419.
  pub handle_response-worker :
      ⦃hash : Hasher⦄ ⦃t : RedBlackTree⦄ ⦃h : HashMap⦄ (re : Regexp) (net : Network) (clock : Clock)
      (s : Server) (remote : UdpAddr) (c : Counting) (ib : Bytes) (id : ℕ) (ns dv : Bytes) (now : ℤ)
      (rc : ResponseCache C) (w : Waiting C)
      → length ib ≡ 4
      → uint32_from_bytes ib ≡ done id
      → length ns ≤ namespace_size
      → length dv ≤ data_value_size
      → find id rc.cache ≡ some w
      → is_expired now rc w ≡ false
      → let (s', n) = counted c clock s.store (trim_space ns) (trim_space dv) in
        (p : Packet) × (b : Bytes) × (reply : Bytes) × (answer_bytes : Bytes)
        × (new_packet_from_parts (command_of c) ib ns dv s.pre_shared_key ≡ done p)
        × (to_bytes p ≡ done (b, none))
        × (worker re net clock s (datagram remote b)
            ≡ done (record s { store = s' }, write_udp remote reply ∷ []))
        × (handle_response now rc reply
            ≡ done (
              record rc { cache = delete id rc.cache },
              record { callback = w.callback; data_value = answer_bytes; err = none } ∷ [],
            ))
        × (uint32_from_bytes answer_bytes ≡ done (min n max_uint32))
  handle_response-worker re net clock s remote c ib id ns dv now rc w ei e en ed found fresh =
      let (p, b, res, reply, served, word) =
        worker-counted re net clock s remote c ib id ns dv ei e en ed in
      let same : res.message_id ≡ id = cc in
      let handled =
        handle_response-counting c now rc reply res w served.parsed served.command (rw same found)
          fresh in
      (
        p,
        b,
        reply,
        res.data_value,
        served.made,
        served.written,
        served.handled,
        subst
            (λ i.
              handle_response now rc reply
              ≡ done (
                record rc { cache = delete i rc.cache },
                record { callback = w.callback; data_value = res.data_value; err = none } ∷ [],
              ))
            same handled,
        word,
      )
