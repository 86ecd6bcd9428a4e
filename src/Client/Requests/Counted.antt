-- ===== src/Client/Requests/Counted.antt =====
-- client/client.go and server/server.go: a count by UDP, from the call to what it returns.
use dracula.Client.Responses.Counted.{handle_response-worker}
use dracula.Client.Cache.Entries.{delete_absent}
use dracula.Server.Requests.{datagram}
use dracula.Client.Sending.Cases.{send_or_callback_err-IsRegistered}
use dracula.Client.Responses.{handle_response, Called}
use dracula.Protocol.Text.{trim_space}
use dracula.Client.Cache.Cases.{entry}
use dracula.Client.Udp.Cases.{registered}
use dracula.Client.Cache.{delete, ResponseCache, is_expired, find}
use dracula.Prelude.Int.{ℤ}
use dracula.Client.Requests.Started.{made_packet, counted_up, next_id}
use dracula.Server.{max_uint32, worker, write_udp, Server, Clock, Network}
use dracula.Tree.{Regexp}
use dracula.RawMessage.{UdpAddr}
use dracula.Maps.{HashMap, RedBlackTree}
use dracula.Server.Counts.{counted, in_server, in_namespace, in_key, command_of, Counting}
use dracula.Client.State.{Sent, Client, Environment}
use dracula.Protocol.Command.{is_tcp_only_cmd}
use dracula.Protocol.Words.{
  uint32_round_trip, length-uint32_to_bytes, uint32_to_bytes, uint32_from_bytes-take,
  uint32_from_bytes,
}
use dracula.Protocol.Packet.{
  data_value_size, namespace_size, to_bytes, new_packet_from_parts, Packet, Hasher,
}
use dracula.Client.Requests.{count_result, start, count_callback}
use dracula.Prelude.{
  ==_refl, ◌==◌, min, subst, ap, ◌∙◌, sym, done_injective, [], ◌∷◌, ◌≤◌, true, some, false, arith,
  slice-done, length, le→ltb_false, none, done, ℕ, Bytes, refl, ◌≡◌,
}
use dracula.Client.Pool as Pool

count_callback-word :
    (b : Bytes) (n : ℕ) → uint32_from_bytes b ≡ done n → count_callback b none ≡ done (n, none)
unfolding count_callback
count_callback-word b n e =
    let (long, word) = uint32_from_bytes-take b n e in
    rw (le→ltb_false (length b) 4 long, slice-done 0 4 b (omega arith) long, word)

command_of-udp : (k : Counting) → is_tcp_only_cmd (command_of k) ≡ false
unfolding is_tcp_only_cmd
command_of-udp in_key = refl
command_of-udp in_namespace = refl
command_of-udp in_server = refl

module _ {C : Type 0} ⦃hash : Hasher⦄ where
  start-registered :
      (env : Environment) (c : Client C) (command : ℕ) (ns dv : Bytes) (cb : C) (remote : UdpAddr)
      (p : Packet) (b : Bytes)
      → is_tcp_only_cmd command ≡ false
      → Pool.choose env.rand c.udp_pool ≡ done (some remote)
      → new_packet_from_parts command
          (uint32_to_bytes (next_id c.message_id_counter))
          ns
          dv
          c.pre_shared_key
        ≡ done p
      → to_bytes p ≡ done (b, none)
      → find (next_id c.message_id_counter) c.messages_waiting.cache ≡ none
      → c.conn ≡ true
      → env.write_to_udp remote b ≡ none
      → start env c command ns dv cb
        ≡ done (record {
          client = registered env.add_now (next_id c.message_id_counter) cb (counted_up c);
          effects = write_udp remote b ∷ [];
          called = [];
        })
  unfolding start
  start-registered env c command ns dv cb remote p b udp picked made printed free open' writes =
      let (p', packet, makes, same, h, k, _, _, _) = made_packet c command ns dv in
      let one : p' ≡ p = done_injective (sym packet.1 ∙ made) in
      let by_udp : is_tcp_only_cmd p'.command ≡ false = ap is_tcp_only_cmd same ∙ udp in
      let sent =
        send_or_callback_err-IsRegistered env (counted_up c) p' remote cb b by_udp picked
          (ap to_bytes one ∙ printed)
          (subst (λ i. find i c.messages_waiting.cache ≡ none) (sym packet.0) free) open' writes in
      rw (makes, sent, packet.0)

  -- A count by UDP, from the call of the client's method to what it returns. The client listens, has the
  -- server's key, chooses a healthy server and writes to it without an error; the next identifier is free
  -- and does not expire before the answer; the namespace has at most 64 bytes and the key at most 1419.
  -- Then one datagram is sent, the server's worker answers it with one, and the client that receives it
  -- calls the callback, which waits no more; the method returns the least of the server's count and
  -- 2^32 - 1, and no error.
  pub count-whole :
      ⦃t : RedBlackTree⦄ ⦃h : HashMap⦄ (re : Regexp) (net : Network) (clock : Clock)
      (server : Server) (local : UdpAddr) (k : Counting) (env : Environment) (c : Client C)
      (remote : UdpAddr) (ns dv : Bytes) (now : ℤ) (cb : C)
      → server.pre_shared_key ≡ c.pre_shared_key
      → Pool.choose env.rand c.udp_pool ≡ done (some remote)
      → c.conn ≡ true
      → ((b : Bytes) → env.write_to_udp remote b ≡ none)
      → find (next_id c.message_id_counter) c.messages_waiting.cache ≡ none
      → is_expired now c.messages_waiting (entry env.add_now (next_id c.message_id_counter) cb)
        ≡ false
      → length ns ≤ namespace_size
      → length dv ≤ data_value_size
      → let (store', n) = counted k clock server.store (trim_space ns) (trim_space dv) in
        (s : Sent C) × (b : Bytes) × (reply : Bytes) × (r : Called C) × (start env c
            (command_of k)
            ns
            dv
            cb
          ≡ done s)
        × (s.effects ≡ write_udp remote b ∷ [])
        × (worker re net clock server (datagram local b)
            ≡ done (record server { store = store' }, write_udp local reply ∷ []))
        × (handle_response now s.client.messages_waiting reply ≡ done (c.messages_waiting, r ∷ []))
        × (r.callback ≡ cb)
        × (count_result r ≡ done (min n max_uint32, none))
  unfolding count_result
  count-whole re net clock server local k env c remote ns dv now cb key picked open' writes free
        fresh en ed =
      let id = next_id c.message_id_counter in
      let w = entry env.add_now id cb in
      let rc : ResponseCache C = record c.messages_waiting {
        cache = w ∷ c.messages_waiting.cache;
      } in
      let here : (w.message_id == id) ≡ true = ==_refl id in
      let found : find id rc.cache ≡ some w = rw here in
      let rest : delete id rc.cache ≡ c.messages_waiting.cache =
        rw here (delete_absent id c.messages_waiting.cache free) in
      let (p, b, reply, answer_bytes, made, written, handled, answered, word) =
        handle_response-worker re net clock server local k (uint32_to_bytes id) id ns dv now rc w
          (length-uint32_to_bytes id) (uint32_round_trip id (omega arith)) en ed found fresh in
      let udp : is_tcp_only_cmd (command_of k) ≡ false = command_of-udp k in
      let makes : new_packet_from_parts (command_of k) (uint32_to_bytes id) ns dv c.pre_shared_key
          ≡ done p =
        subst (λ x. new_packet_from_parts (command_of k) (uint32_to_bytes id) ns dv x ≡ done p) key
          made in
      let r : Called C = record { callback = cb; data_value = answer_bytes; err = none } in
      (
        record {
          client = registered env.add_now id cb (counted_up c);
          effects = write_udp remote b ∷ [];
          called = [];
        },
        b,
        reply,
        r,
        start-registered env c (command_of k) ns dv cb remote p b udp picked makes written free
            open' (writes b),
        refl,
        handled,
        answered ∙ ap (λ es. done (record rc { cache = es }, r ∷ [])) rest,
        refl,
        count_callback-word answer_bytes _ word,
      )
