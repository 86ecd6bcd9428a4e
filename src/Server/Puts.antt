-- ===== src/Server/Puts.antt =====
-- server/server.go: a put request over UDP, and what it sends to the peers.
use dracula.Server.Worker.{worker-accepted}
use dracula.Server.Requests.{
  serve, data_value_string-client, namespace_string-client, datagram, answered_udp, Served,
}
use dracula.Protocol.Text.{trim_space}
use dracula.Tree.{Regexp}
use dracula.Protocol.Packet.Wire.{packet_round_trip, Travels}
use dracula.Protocol.Words.{uint32_from_bytes}
use dracula.Protocol.Command.{
  cmd_put, cmd_put_replicate, is_tcp_only_cmd, is_response_cmd, is_request_cmd,
}
use dracula.Prelude.{
  ap₂, ap, Bool-cases, ◌∙◌, inr, inl, ◌++◌, arith, false, ◌⊎◌, true, ◌∷◌, [], ◌==◌, if◌then◌else◌,
  List, refl, ◌≤◌, none, length, done, ◌≡◌, Bytes, ℕ,
}
use dracula.Store as Methods
use dracula.Server.{
  worker, write_udp, answer, Effect, RawMessage, UdpAddr, Clock, dispatch, put_request,
  send_to_peers, Server, Network, republish,
}
use dracula.Maps.{HashMap, RedBlackTree}
use dracula.Protocol.Packet.{
  data_value_string, namespace_string, data_value_size, namespace_size, Packet, hash_packet,
  new_packet_from_parts, set_hash, Hasher,
}

module _ ⦃hash : Hasher⦄ where
  -- Hashing a packet that came over the wire, under another command, is making it anew.
  set_hash-received :
      (c c' : ℕ) (ib : Bytes) (id : ℕ) (ns dv key : Bytes) (p q : Packet) (b : Bytes)
      → uint32_from_bytes ib ≡ done id
      → Travels c ib id ns dv key p q b
      → set_hash (record q { command = c'; request_client = none }) key
        ≡ new_packet_from_parts c' ib ns dv key
  unfolding set_hash new_packet_from_parts hash_packet
  set_hash-received c c' ib id ns dv key p q b e t =
      rw (e, t.message_id_bytes, t.namespace_padded, t.data_value_padded, t.message_id)

  module _ ⦃t : RedBlackTree⦄ ⦃h : HashMap⦄ where
    republish-received :
        (net : Network) (s : Server) (c : ℕ) (ib : Bytes) (id : ℕ) (ns dv : Bytes) (p q : Packet)
        (b : Bytes)
        → uint32_from_bytes ib ≡ done id
        → length ib ≡ 4
        → length ns ≤ namespace_size
        → length dv ≤ data_value_size
        → Travels c ib id ns dv s.pre_shared_key p q b
        → (p' : Packet) × (q' : Packet) × (copy : Bytes) × Travels cmd_put_replicate ib id ns dv
            s.pre_shared_key p' q' copy
          × (republish net s (record q { request_client = none })
              ≡ done (send_to_peers net copy s.peers))
    unfolding republish is_request_cmd is_response_cmd is_tcp_only_cmd
    republish-received net s c ib id ns dv p q b e ei en ed r =
        let key = s.pre_shared_key in
        let (p', q', copy, r') =
          packet_round_trip cmd_put_replicate ib id ns dv key refl ei e en ed in
        (
          p',
          q',
          copy,
          r',
          rw (set_hash-received c cmd_put_replicate ib id ns dv key p q b e r, r'.made, r'.written),
        )

    put_request-answered :
        (net : Network) (clock : Clock) (s : Server) (m : RawMessage) (q : Packet) (ns k : Bytes)
        (acks copies : List Effect)
        → namespace_string q ≡ ns
        → data_value_string q ≡ k
        → answer s m q cmd_put [] ≡ done acks
        → republish net s q ≡ done copies
        → (length s.peers == 0) ≡ true ⊎ (length s.peers == 0) ≡ false
        → put_request net clock s m q
          ≡ done (
            record s { store = Methods.put clock.now clock.secs s.store ns k },
            acks ++ (if length s.peers == 0 then [] else copies),
          )
    unfolding put_request
    put_request-answered net clock s m q ns k acks copies en ek ea er (inl e) = rw (en, ek, ea, e)
    put_request-answered net clock s m q ns k acks copies en ek ea er (inr e) =
        rw (en, ek, ea, e, er)

    no_peers :
        (net : Network) (b : Bytes) (peers : List UdpAddr)
        → (if length peers == 0 then [] else send_to_peers net b peers) ≡ send_to_peers net b peers
    unfolding send_to_peers
    no_peers net b [] = refl
    no_peers net b (peer ∷ peers) =
        let some_peer : (length (peer ∷ peers) == 0) ≡ false = ground arith in rw some_peer

    dispatch-put :
        (re : Regexp) (net : Network) (clock : Clock) (s : Server) (m : RawMessage) (q : Packet)
        → q.command ≡ cmd_put
        → dispatch re net clock s m q ≡ put_request net clock s m q
    unfolding dispatch
    dispatch-put re net clock s m q e = rw e

    dispatch-put_replicate :
        (re : Regexp) (net : Network) (clock : Clock) (s : Server) (m : RawMessage) (q : Packet)
        → q.command ≡ cmd_put_replicate
        → dispatch re net clock s m q
          ≡ done (
            record s {
              store =
                  Methods.put clock.now clock.secs s.store
                    (namespace_string q)
                    (data_value_string q);
            },
            [],
          )
    unfolding dispatch
    dispatch-put_replicate re net clock s m q e = rw e

    -- A client's put request by UDP, with an identifier of four bytes, at most 64 bytes of namespace and
    -- 1419 of key, puts the entry, trimmed, in the store, and is acknowledged by an empty answer under
    -- the same identifier; then one packet goes to the peers in order, up to the first to which sending
    -- fails, and a peer with the same key reads that packet as the same entry under the replication
    -- command.
    pub worker-put :
        (re : Regexp) (net : Network) (clock : Clock) (s : Server) (remote : UdpAddr) (ib : Bytes)
        (id : ℕ) (ns dv : Bytes)
        → length ib ≡ 4
        → uint32_from_bytes ib ≡ done id
        → length ns ≤ namespace_size
        → length dv ≤ data_value_size
        → let s' = Methods.put clock.now clock.secs s.store (trim_space ns) (trim_space dv) in
          (p : Packet) × (b : Bytes) × (res : Packet) × (reply : Bytes) × (p' : Packet)
          × (q' : Packet) × (copy : Bytes) × Served re net clock s remote cmd_put ib ns dv s' p b
              cmd_put []
              (send_to_peers net copy s.peers)
              res
              reply
          × Travels cmd_put_replicate ib id ns dv s.pre_shared_key p' q' copy
    unfolding is_request_cmd is_response_cmd is_tcp_only_cmd
    worker-put re net clock s remote ib id ns dv ei e en ed =
        let key = s.pre_shared_key in
        let (p, q, b, t) = packet_round_trip cmd_put ib id ns dv key refl ei e en ed in
        let (p', q', copy, r', sent) =
          republish-received net s cmd_put ib id ns dv p q b e ei en ed t in
        let (id'', p'', res, reply, r, answered, word) =
          answered_udp re net clock s remote cmd_put ib id ns dv p q b cmd_put [] t ei en refl
            (omega arith) in
        let on_hand : Packet = record q { request_client = none } in
        let m = datagram remote b in
        let acks = write_udp remote reply ∷ [] in
        let served =
          put_request-answered net clock s m on_hand (trim_space ns) (trim_space dv) acks
            (send_to_peers net copy s.peers) (namespace_string-client q none ∙ t.namespace)
            (data_value_string-client q none ∙ t.data_value) answered sent
            (Bool-cases (length s.peers == 0)) in
        let s' = Methods.put clock.now clock.secs s.store (trim_space ns) (trim_space dv) in
        let dispatched =
          dispatch-put re net clock s m on_hand t.command
          ∙ served
          ∙ ap (λ copies. done (record s { store = s' }, acks ++ copies))
              (no_peers net copy s.peers) in
        (
          p,
          b,
          res,
          reply,
          p',
          q',
          copy,
          serve re net clock s remote cmd_put ib id ns dv s' p q b cmd_put id'' []
              (send_to_peers net copy s.peers) p'' res reply t r word dispatched,
          r',
        )

    -- A replication packet puts its entry in the store of the server that it reaches by UDP and that
    -- has the key it was made with; nothing is sent, neither an answer nor another replication.
    pub worker-replicated :
        (re : Regexp) (net : Network) (clock : Clock) (s : Server) (remote : UdpAddr) (ib : Bytes)
        (id : ℕ) (ns dv : Bytes) (p q : Packet) (b : Bytes)
        → Travels cmd_put_replicate ib id ns dv s.pre_shared_key p q b
        → worker re net clock s (datagram remote b)
          ≡ done (
            record s {
              store = Methods.put clock.now clock.secs s.store (trim_space ns) (trim_space dv);
            },
            [],
          )
    worker-replicated re net clock s remote ib id ns dv p q b t =
        worker-accepted re net clock s (datagram remote b) q t.parsed t.valid
        ∙ dispatch-put_replicate re net clock s (datagram remote b)
            (record q { request_client = none }) t.command
        ∙ ap₂
            (λ ns' k.
              done (record s { store = Methods.put clock.now clock.secs s.store ns' k }, []))
            (namespace_string-client q none ∙ t.namespace)
            (data_value_string-client q none ∙ t.data_value)
