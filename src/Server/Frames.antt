-- ===== src/Server/Frames.antt =====
-- server/server.go: a frame that `readUDPFrames` reads, and the messages that the worker handles.
use dracula.Protocol.Packet.Parse.{parse_packet_cases}
use dracula.Protocol.Packet.Wire.{validate_total}
use dracula.Protocol.Words.{uint32_to_bytes}
use dracula.Protocol.Command.{
  cmd_tcp_only_namespaces, cmd_tcp_only_keys, cmd_count_server, cmd_count_namespace, cmd_count,
  cmd_put, cmd_put_replicate, res_error,
}
use dracula.Store.{Store}
use dracula.Store as Methods
use dracula.Server.Total.{republish_total, answer_total}
use dracula.Tree.{Regexp}
use dracula.Maps.{HashMap, RedBlackTree}
use dracula.Prelude.{
  ◌⊎◌, panic, ◌<◌, some, inr, ◌>>=◌, inl, Option, Bool-cases, refl, ◌==◌, [], ◌∷◌, bytes_of, false,
  length-replicate, true, ◌≤◌, ℕ, length-take, none, if◌then◌else◌, done, ◌-◌, Bool, length-append,
  replicate, ◌++◌, List, arith, Outcome, ◌≡◌, take, length, Bytes,
}
use dracula.Protocol.Packet.{
  error_text, data_value_string, namespace_string, Error, Packet, packet_size, Hasher,
}
use dracula.Server.{
  received, worker, checked, authenticate, answer, utf8_of_byte, clamp_uint32, join, dispatch,
  put_request, list_request, count_request, reject, Effect, Clock, Network, Server, RawMessage,
  UdpAddr,
}

-- The buffer of 1500 zeros, of which a datagram fills the front; the rest of a longer one is lost.
unfoldable pub read_udp_frame : UdpAddr → Bytes → RawMessage
read_udp_frame remote sent = record {
  message = take packet_size sent ++ replicate (packet_size - length sent) 0;
  remote = remote;
  maybe_tcp_client = none;
}

pub length-read_udp_frame :
    (remote : UdpAddr) (sent : Bytes) → length (read_udp_frame remote sent).message ≡ packet_size
unfolding read_udp_frame
length-read_udp_frame remote sent = ground (
  arith,
  length-append (take packet_size sent) (replicate (packet_size - length sent) 0),
  length-take packet_size sent,
  length-replicate {A = ℕ} (packet_size - length sent) 0,
)

module _ ⦃hash : Hasher⦄ ⦃t : RedBlackTree⦄ ⦃h : HashMap⦄ where
  abbrev pub Handles : Outcome (Server × List Effect) → Type 0
  Handles o = (s' : Server) × (effects : List Effect) × (o ≡ done (s', effects))

  module _ (re : Regexp) (net : Network) (clock : Clock) (s : Server) (m : RawMessage) where
    reject_total :
        (q : Packet) (err : Error) → 4 ≤ length q.message_id_bytes → Handles (reject s m q err)
    unfolding reject
    reject_total q err k =
        let (effects, e) = answer_total s m q res_error (error_text err) k in (s, effects, rw e)

    count_request_total :
        (q : Packet) (c : ℕ) (found : Store × ℕ)
        → 4 ≤ length q.message_id_bytes
        → Handles (count_request s m q c found)
    unfolding count_request
    count_request_total q c (s', n) k =
        let (effects, e) = answer_total s m q c (uint32_to_bytes (clamp_uint32 n)) k in
        (record s { store = s' }, effects, rw e)

    list_request_total :
        (q : Packet) (c : ℕ) (found : Store × List Bytes)
        → 4 ≤ length q.message_id_bytes
        → Handles (list_request s m q c found)
    unfolding list_request
    list_request_total q c (s', items) k =
        let (effects, e) = answer_total s m q c (join (10 ∷ []) items) k in
        (record s { store = s' }, effects, rw e)

    put_request_total :
        (q : Packet) → 4 ≤ length q.message_id_bytes → Handles (put_request net clock s m q)
    unfolding put_request
    put_request_total q k =
        let store' =
          Methods.put clock.now clock.secs s.store (namespace_string q) (data_value_string q) in
        let (acks, e) = answer_total s m q cmd_put [] k in
        let (copies, f) = republish_total net s q k in
        elim (Bool-cases (length s.peers == 0)) [
          | inl alone ↦ (record s { store = store' }, acks ++ [], rw (e, alone))
          | inr peers ↦ (record s { store = store' }, acks ++ copies, rw (e, peers, f))
        ]

    choose :
        (b : Bool) (x y : Outcome (Server × List Effect))
        → Handles x
        → Handles y
        → Handles (if b then x else y)
    choose true x y hx hy = hx
    choose false x y hx hy = hy

    unknown_total :
        (q : Packet)
        → 4 ≤ length q.message_id_bytes
        → Handles (
            answer s m q res_error (bytes_of "unknown_command_" ++ utf8_of_byte q.command)
            >>= λ effects. done (s, effects))
    unknown_total q k =
        let text = bytes_of "unknown_command_" ++ utf8_of_byte q.command in
        let (effects, e) = answer_total s m q res_error text k in (s, effects, rw e)

    dispatch_total :
        (q : Packet) → 4 ≤ length q.message_id_bytes → Handles (dispatch re net clock s m q)
    unfolding dispatch
    dispatch_total q k =
        let ns = namespace_string q in
        let key = data_value_string q in
        let c = q.command in
        let st = s.store in
        let times = clock.times in
        choose (c == cmd_put_replicate) _ _ (_, _, refl)
          (choose (c == cmd_put) _ _ (put_request_total q k) (
            choose (c == cmd_count) _ _
              (count_request_total q cmd_count (Methods.count clock.now st ns key) k)
              (choose (c == cmd_count_namespace) _ _
                (count_request_total q cmd_count_namespace (Methods.count_entries times st ns) k)
                (choose (c == cmd_count_server) _ _
                  (count_request_total q cmd_count_server (Methods.count_server_entries times st) k)
                  (choose (c == cmd_tcp_only_keys) _ _
                    (list_request_total q cmd_tcp_only_keys (Methods.key_match re times st ns key)
                      k)
                    (choose (c == cmd_tcp_only_namespaces) _ _
                      (list_request_total q cmd_tcp_only_namespaces (Methods.namespaces times st) k)
                      (unknown_total q k)))))))

    authenticate_total :
        (q : Packet) (err : Option Error)
        → 4 ≤ length q.message_id_bytes
        → Handles (authenticate re net clock s m q err)
    unfolding authenticate
    authenticate_total q none k = dispatch_total q k
    authenticate_total q (some err) k = reject_total q err k

    checked_total :
        (q : Packet) (err : Option Error)
        → 4 ≤ length q.message_id_bytes
        → Handles (checked re net clock s m q err)
    unfolding checked
    checked_total q (some err) k = reject_total q err k
    checked_total q none k =
        let (err, e) = validate_total q s.pre_shared_key in
        let (s', effects, f) = authenticate_total q err k in (s', effects, rw (e, f))

    -- A message of 82 bytes or more is handled without a panic, whatever it says; any shorter one
    -- panics the worker, which uses the nil packet.
    pub worker_cases :
        (length m.message < 82) × (worker re net clock s m ≡ panic)
        ⊎ (82 ≤ length m.message) × Handles (worker re net clock s m)
    unfolding worker received
    worker_cases = elim (parse_packet_cases m.message) [
      | inl (small, e) ↦ inl (small, rw e)
      | inr (large, (q, err, e, sized)) ↦
          let (s', effects, f) =
            checked_total (record q { request_client = m.maybe_tcp_client }) err
              (omega (arith, sized.message_id_bytes)) in
          inr (large, (s', effects, rw (e, f)))
    ]
