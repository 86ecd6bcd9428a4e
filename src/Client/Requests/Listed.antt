-- ===== src/Client/Requests/Listed.antt =====
-- client/client.go and server/server.go: a list by TCP, from the call to what it returns.
mod Tests
use dracula.Client.Requests.Keys.{list_called, results-lines}
use dracula.Client.Requests.Started.{made_packet, counted_up, next_id}
use dracula.Client.Requests.{start, key_match_result, list_namespaces_result}
use dracula.Client.Sending.{send_or_callback_err}
use dracula.Client.Tcp.Delivered.{pooled, send_tcp-delivered, handle_tcp_message-parsed}
use dracula.Client.Tcp.Reading.{handle_tcp_message}
use dracula.Client.Responses.{Called, CallError, call}
use dracula.Client.State.{Sent, Client, Environment, delivers}
use dracula.Server.Peers.Listed.{Lack}
use dracula.Server.Lists.{
  Listing, of_keys, of_namespaces, list_command, list_command-tcp, list_command-IsCommand, lines,
  listed, worker-listed,
}
use dracula.RawMessage.Packets.{ReadsBack, EndsPlainly, StopsOnce, read_one_tcp_message-wire}
use dracula.RawMessage.{UdpAddr, read_lines}
use dracula.Protocol.Packet.Tcp.{wire, Travels-wire, to_bytes-stopped, stopped}
use dracula.Protocol.Packet.Wire.{Travels, packet_round_trip}
use dracula.Protocol.Pad.{pad_right, length-pad_right}
use dracula.Protocol.Text.{trim_space, trim_left, trim_right}
use dracula.Protocol.Text.Padding.{trim_space-pad_right}
use dracula.Protocol.Words.{uint32_to_bytes, uint32_round_trip, length-uint32_to_bytes}
use dracula.Protocol.Packet.{
  Packet, Hasher, namespace_size, data_value_size, stop_symbol, to_bytes, new_packet_from_parts,
}
use dracula.Protocol.Command.{is_tcp_only_cmd}
use dracula.Tree.{Regexp}
use dracula.Maps.{HashMap, RedBlackTree}
use dracula.Server.{Server, Network, Clock, write_tcp, worker, join}
use dracula.Prelude.{
  subst, ℕ, Bytes, List, Option, Outcome, [], ◌∷◌, ◌++◌, ◌≡◌, ◌≤◌, ◌<◌, length, length-append, done,
  some, none, get_elem?, refl, ap, ◌∙◌, sym, arith, true, inl, done_injective,
}

le-length-lines : (item : Bytes) (items : List Bytes) → length item ≤ length (lines (item ∷ items))
unfolding join
le-length-lines item [] = omega arith
le-length-lines item (x ∷ items) =
    omega (arith, length-append item ((10 ∷ []) ++ lines (x ∷ items)))

trim_space_plain : (b : Bytes) → trim_left b ≡ b → trim_right b ≡ b → trim_space b ≡ b
unfolding trim_space
trim_space_plain b l r = ap trim_right l ∙ r

command-visible : (k : Listing) → (33 ≤ list_command k) × (list_command k < 128)
command-visible of_keys = (omega arith, omega arith)
command-visible of_namespaces = (omega arith, omega arith)

module _ {C : Type 0} where
  -- What the method returns.
  abbrev pub list_result : Listing → Called C → Outcome (List Bytes × Option CallError)
  list_result of_keys r = key_match_result r
  list_result of_namespaces r = done (list_namespaces_result r)

  list_result-lines :
      (k : Listing) (cb : C) (item : Bytes) (items : List Bytes)
      → 1 ≤ length item
      → Lack 10 (item ∷ items)
      → list_result k (list_called cb (item ∷ items)) ≡ done (item ∷ items, none)
  list_result-lines of_keys cb item items h plain = (results-lines cb item items h plain).0
  list_result-lines of_namespaces cb item items h plain =
      ap done (results-lines cb item items h plain).1

  module _ ⦃hash : Hasher⦄ where
    -- The bytes of the next identifier.
    abbrev pub id_bytes : Client C → Bytes
    id_bytes c = uint32_to_bytes (next_id c.message_id_counter)

    start-delivered :
        (env : Environment) (c : Client C) (k : Listing) (ns dv : Bytes) (cb : C) (conn : ℕ)
        (key : Bytes) (p q : Packet) (b message err : Bytes) (called : List (Called C))
        → Travels (list_command k) (id_bytes c) (next_id c.message_id_counter) ns dv key p q b
        → key ≡ c.pre_shared_key
        → length ns ≤ namespace_size
        → length dv ≤ data_value_size
        → get_elem? c.tcp_pool env.selected ≡ some conn
        → ((sent : Bytes) → env.write_to_tcp conn sent ≡ none)
        → ReadsBack (env.remote_addr conn) conn message
        → handle_tcp_message cb message ≡ done called
        → start
            (record env { turn = some (delivers (read_lines (message ++ stop_symbol)) err) })
            c
            (list_command k)
            ns
            dv
            cb
          ≡ done (record {
            client = pooled env conn (counted_up c);
            effects = write_tcp conn (b ++ stop_symbol) ∷ [];
            called = called;
          })
    unfolding start send_or_callback_err
    start-delivered env c k ns dv cb conn key p q b message err called t same_key en ed selected
          writes reads handled =
        let command = list_command k in
        let env' : Environment = record env {
          turn = some (delivers (read_lines (message ++ stop_symbol)) err);
        } in
        let (p', packet, makes, same, _, _, _, _, _) = made_packet c command ns dv in
        let made : new_packet_from_parts command (id_bytes c) ns dv c.pre_shared_key ≡ done p =
          ap (new_packet_from_parts command (id_bytes c) ns dv) (sym same_key) ∙ t.made in
        let one : p ≡ p' = done_injective (sym made ∙ packet.1) in
        let by_tcp : is_tcp_only_cmd p'.command ≡ true =
          ap is_tcp_only_cmd same ∙ list_command-tcp k in
        let printed : to_bytes (stopped p'.request_client p') ≡ done (b ++ stop_symbol, none) =
          ap (λ x. to_bytes (stopped x.request_client x)) (sym one)
          ∙ to_bytes-stopped p.request_client command (id_bytes c) (next_id c.message_id_counter) ns
              dv key p q b t (list_command-tcp k)
              (length-uint32_to_bytes (next_id c.message_id_counter)) en ed in
        rw (makes, by_tcp)
          (send_tcp-delivered env' (counted_up c) p' cb conn (b ++ stop_symbol) _ err _ called
            selected printed (writes _) refl reads handled)

    -- A list by TCP, from the call of the client's method to what it returns. The server has the client's
    -- key, the pool selects a connection and writing succeeds, and the client's first read delivers the
    -- bytes that the server writes. The namespace has at most 64 bytes and the pattern at most 1419, the
    -- pattern ends with no white space and is not empty (or both are empty, and the identifier does not end
    -- with white space), and no stop symbol ends inside the two packets. The server's list has some items, the
    -- first not empty, without line breaks, with no white space at the ends of the whole, and of at most
    -- 1419 bytes. Then the server reads the client's packet whole off its connection, the worker answers
    -- with one packet, and the method returns the server's list, without an error, with the connection in
    -- the pool again.
    pub lists-whole :
        ⦃t : RedBlackTree⦄ ⦃h : HashMap⦄ (re : Regexp) (net : Network) (clock : Clock)
        (server : Server) (local : UdpAddr) (conn' : ℕ) (k : Listing) (env : Environment)
        (c : Client C) (conn : ℕ) (ns dv err : Bytes) (cb : C) (item : Bytes) (items : List Bytes)
        → server.pre_shared_key ≡ c.pre_shared_key
        → get_elem? c.tcp_pool env.selected ≡ some conn
        → ((sent : Bytes) → env.write_to_tcp conn sent ≡ none)
        → length ns ≤ namespace_size
        → length dv ≤ data_value_size
        → EndsPlainly (id_bytes c) ns dv
        → StopsOnce (wire (list_command k) (id_bytes c) ns dv server.pre_shared_key)
        → (listed re k clock server.store (trim_space ns) (trim_space dv)).1 ≡ item ∷ items
        → 1 ≤ length item
        → Lack 10 (item ∷ items)
        → trim_left (lines (item ∷ items)) ≡ lines (item ∷ items)
        → trim_right (lines (item ∷ items)) ≡ lines (item ∷ items)
        → length (lines (item ∷ items)) ≤ data_value_size
        → StopsOnce (
            wire
              (list_command k)
              (id_bytes c)
              (pad_right ns namespace_size)
              (lines (item ∷ items))
              server.pre_shared_key)
        → (b : Bytes) × (reply : Bytes) × (s : Sent C) × (s.effects
            ≡ write_tcp conn (b ++ stop_symbol) ∷ [])
          × ReadsBack local conn' b
          × (worker re net clock server
                (record { message = b; remote = local; maybe_tcp_client = some conn' })
              ≡ done (
                record server {
                  store = (listed re k clock server.store (trim_space ns) (trim_space dv)).0;
                },
                write_tcp conn' (reply ++ stop_symbol) ∷ [],
              ))
          × (start
                (record env { turn = some (delivers (read_lines (reply ++ stop_symbol)) err) })
                c
                (list_command k)
                ns
                dv
                cb
              ≡ done s)
          × (s.client ≡ pooled env conn (counted_up c))
          × (s.called ≡ list_called cb (item ∷ items) ∷ [])
          × (list_result k (list_called cb (item ∷ items)) ≡ done (item ∷ items, none))
    unfolding call
    lists-whole re net clock server local conn' k env c conn ns dv err cb item items same_key
          selected writes en ed ends once found some_text plain left right fits once' =
        let command = list_command k in
        let id = next_id c.message_id_counter in
        let key = server.pre_shared_key in
        let ei = length-uint32_to_bytes id in
        let (lo, hi) = command-visible k in
        let text = lines (item ∷ items) in
        let ns' = pad_right ns namespace_size in
        let en' : length ns' ≤ namespace_size =
          omega (arith, length-pad_right ns namespace_size en) in
        let long : 1 ≤ length text = omega (arith, le-length-lines item items) in
        let (p, q, b, t) =
          packet_round_trip command (id_bytes c) id ns dv key (list_command-IsCommand k) ei
            (uint32_round_trip id (omega arith)) en ed in
        let (id', p', res, reply, r, handled) =
          worker-listed re net clock server local conn' k (id_bytes c) id ns dv p q b t ei en
            (rw found fits) in
        let r' : Travels command (id_bytes c) id' ns' text key p' res reply =
          subst (λ x. Travels command (id_bytes c) id' ns' (lines x) key p' res reply) found r in
        let data_read : trim_space res.data_value ≡ text =
          ap trim_space r'.data_value_padded
          ∙ trim_space-pad_right text data_value_size
          ∙ trim_space_plain text left right in
        let reads : ReadsBack (env.remote_addr conn) conn reply =
          subst (ReadsBack (env.remote_addr conn) conn)
            (sym (Travels-wire command (id_bytes c) id' ns' text key p' res reply r' ei en' fits))
            (read_one_tcp_message-wire command lo hi (env.remote_addr conn) conn (id_bytes c) ns'
              text key ei en' fits (inl (long, right)) once') in
        (
          b,
          reply,
          _,
          refl,
          subst (ReadsBack local conn')
              (sym (Travels-wire command (id_bytes c) id ns dv key p q b t ei en ed))
              (read_one_tcp_message-wire command lo hi local conn' (id_bytes c) ns dv key ei en ed
                ends once),
          handled,
          start-delivered env c k ns dv cb conn key p q b reply err _ t same_key en ed selected
              writes reads
              (handle_tcp_message-parsed cb reply res r'.size r'.parsed
                ∙ ap (λ x. done (call cb x none)) data_read),
          refl,
          refl,
          list_result-lines k cb item items some_text plain,
        )
