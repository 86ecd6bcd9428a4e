-- ===== src/Server/Lists.antt =====
-- server/server.go: the two requests for a list, which come by TCP.
use dracula.Server.Requests.{namespace_string-client, data_value_string-client}
use dracula.Server.Worker.{worker-accepted, from_client}
use dracula.Protocol.Packet.Wire.{packet_round_trip, Travels}
use dracula.Protocol.Packet.Tcp.{to_bytes-stopped}
use dracula.Protocol.Packet.RoundTrip.{IsCommand}
use dracula.Protocol.Pad.{length-pad_right, pad_right}
use dracula.Protocol.Text.{trim_space}
use dracula.Protocol.Words.{uint32_from_bytes_total}
use dracula.Protocol.Command.{
  cmd_tcp_only_keys, cmd_tcp_only_namespaces, is_tcp_only_cmd, is_request_cmd, is_response_cmd,
}
use dracula.Protocol.Packet.{
  Packet, Hasher, namespace_string, data_value_string, namespace_size, data_value_size, stop_symbol,
}
use dracula.Store as Methods
use dracula.Store.{Store}
use dracula.Tree.{Regexp}
use dracula.Maps.{HashMap, RedBlackTree}
use dracula.Server.{
  Server, Network, Clock, RawMessage, UdpAddr, Effect, write_tcp, answer, respond, worker, dispatch,
  list_request, join, respond_or_log_error_tcp,
}
use dracula.Prelude.{
  ℕ, Bytes, List, [], ◌∷◌, ◌++◌, ◌≡◌, ◌≤◌, length, done, some, refl, ap, ap₂, subst, ◌∙◌, true,
  arith,
}

-- The two commands that list.
pub data Listing : Type 0 where
  of_keys of_namespaces : Listing

abbrev pub list_command : Listing → ℕ
list_command of_keys = cmd_tcp_only_keys
list_command of_namespaces = cmd_tcp_only_namespaces

pub list_command-tcp : (k : Listing) → is_tcp_only_cmd (list_command k) ≡ true
unfolding is_tcp_only_cmd
list_command-tcp of_keys = refl
list_command-tcp of_namespaces = refl

pub list_command-IsCommand : (k : Listing) → IsCommand (list_command k)
unfolding is_request_cmd is_response_cmd is_tcp_only_cmd
list_command-IsCommand of_keys = refl
list_command-IsCommand of_namespaces = refl

-- The text of a list.
abbrev pub lines : List Bytes → Bytes
lines items = join (10 ∷ []) items

module _ ⦃hash : Hasher⦄ ⦃t : RedBlackTree⦄ ⦃h : HashMap⦄ where
  abbrev pub listed : Regexp → Listing → Clock → Store → Bytes → Bytes → Store × List Bytes
  listed re of_keys clock s ns pattern = Methods.key_match re clock.times s ns pattern
  listed re of_namespaces clock s ns pattern = Methods.namespaces clock.times s

  dispatch-listing :
      (re : Regexp) (net : Network) (clock : Clock) (s : Server) (m : RawMessage) (q : Packet)
      (k : Listing)
      → q.command ≡ list_command k
      → dispatch re net clock s m q
        ≡ list_request s m q
            (list_command k)
            (listed re k clock s.store (namespace_string q) (data_value_string q))
  unfolding dispatch
  dispatch-listing re net clock s m q of_keys e = rw e
  dispatch-listing re net clock s m q of_namespaces e = rw e

  -- An answer over TCP is a packet and the stop symbol.
  answer_tcp :
      (s : Server) (m : RawMessage) (packet : Packet) (k : Listing) (dv : Bytes) (conn : ℕ)
      → packet.request_client ≡ some conn
      → length packet.message_id_bytes ≡ 4
      → length packet.namespace ≤ namespace_size
      → length dv ≤ data_value_size
      → (id : ℕ) × (p : Packet) × (q : Packet) × (b : Bytes) × Travels
          (list_command k)
          packet.message_id_bytes
          id
          packet.namespace
          dv
          s.pre_shared_key
          p
          q
          b
        × (answer s m packet (list_command k) dv ≡ done (write_tcp conn (b ++ stop_symbol) ∷ []))
  unfolding answer respond respond_or_log_error_tcp
  answer_tcp s m packet k dv conn tcp ei en ed =
      let ib = packet.message_id_bytes in
      let c = list_command k in
      let key = s.pre_shared_key in
      let (id, e, _) = uint32_from_bytes_total ib (omega arith) in
      let (p, q, b, t) =
        packet_round_trip c ib id packet.namespace dv key (list_command-IsCommand k) ei e en ed in
      let printed =
        to_bytes-stopped (some conn) c ib id packet.namespace dv key p q b t (list_command-tcp k) ei
          en ed in
      (id, p, q, b, t, rw (t.made, tcp, printed))

  list_request-answered :
      (s : Server) (m : RawMessage) (q : Packet) (command : ℕ) (found : Store × List Bytes)
      (effects : List Effect)
      → answer s m q command (lines found.1) ≡ done effects
      → list_request s m q command found ≡ done (record s { store = found.0 }, effects)
  unfolding list_request
  list_request-answered s m q command found effects e = rw e

  -- A list request that came by TCP leaves the store that its method leaves, and is answered on its
  -- connection by a packet and the stop symbol; the packet is read as the list's items, one on each line.
  pub worker-listed :
      (re : Regexp) (net : Network) (clock : Clock) (s : Server) (remote : UdpAddr) (conn : ℕ)
      (k : Listing) (ib : Bytes) (id : ℕ) (ns dv : Bytes) (p q : Packet) (b : Bytes)
      → Travels (list_command k) ib id ns dv s.pre_shared_key p q b
      → length ib ≡ 4
      → length ns ≤ namespace_size
      → let (s', items) = listed re k clock s.store (trim_space ns) (trim_space dv) in
        length (lines items) ≤ data_value_size
        → (id' : ℕ) × (p' : Packet) × (res : Packet) × (reply : Bytes) × Travels
            (list_command k)
            ib
            id'
            (pad_right ns namespace_size)
            (lines items)
            s.pre_shared_key
            p'
            res
            reply
          × (worker re net clock s
                (record { message = b; remote = remote; maybe_tcp_client = some conn })
              ≡ done (record s { store = s' }, write_tcp conn (reply ++ stop_symbol) ∷ []))
  worker-listed re net clock s remote conn k ib id ns dv p q b t ei en fits =
      let c = list_command k in
      let m : RawMessage = record { message = b; remote = remote; maybe_tcp_client = some conn } in
      let q' = from_client re net clock s m q in
      let found = listed re k clock s.store (trim_space ns) (trim_space dv) in
      let (id', p', res, reply, r, answered) =
        answer_tcp s m q' k (lines found.1) conn refl (ap length t.message_id_bytes ∙ ei)
          (omega (arith, ap length t.namespace_padded, length-pad_right ns namespace_size en))
          fits in
      let dispatched =
        dispatch-listing re net clock s m q' k t.command
        ∙ ap (list_request s m q' c) (
            ap₂ (listed re k clock s.store) (namespace_string-client q (some conn) ∙ t.namespace)
              (data_value_string-client q (some conn) ∙ t.data_value))
        ∙ list_request-answered s m q' c found _ answered in
      (
        id',
        p',
        res,
        reply,
        subst
            (λ x.
              Travels c x id' (pad_right ns namespace_size) (lines found.1) s.pre_shared_key p' res
                reply)
            t.message_id_bytes
            (subst
              (λ x.
                Travels c q.message_id_bytes id' x (lines found.1) s.pre_shared_key p' res reply)
              t.namespace_padded r),
        worker-accepted re net clock s m q t.parsed t.valid ∙ dispatched,
      )
