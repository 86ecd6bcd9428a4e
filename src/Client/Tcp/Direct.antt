-- ===== src/Client/Tcp/Direct.antt =====
-- client/client.go: a request over TCP does not touch the cache of callbacks.
use dracula.Protocol.Pad.{pad_right}
use dracula.Protocol.Packet.{to_bytes, stop_symbol, packet_size, Error, parse_packet, Packet}
use dracula.Server.{write_tcp, Effect}
use dracula.Client.Tcp.Reading.{
  tolerate_large, conn_after, read_turn, handle_tcp_message, respond_tcp,
}
use dracula.Client.Responses.{bad_packet, failed, no_healthy_tcp_servers, call, CallError, Called}
use dracula.Client.Tcp.{
  printed_tcp, get_conn, on_conn, write_tcp_or_call, await_tcp, received_tcp, send_tcp,
  get_selected, new_conn, put_back,
}
use dracula.Client.State.{Turn, Environment, fails, Sent, Client}
use dracula.Prelude.{
  index, ◌++◌, length, ◌∷◌, sym, get_elem?, ltb, done_injective, subst, Bool-cases, inl, bind-done,
  Bytes, none, some, inr, ◌⊎◌, ℕ, [], Option, List, refl, done, ◌≡◌, ap,
}

module _ {C : Type 0} where
  -- A callback is called at most once, and it is the one of the request.
  abbrev pub AtMostOnce : C → List (Called C) → Type 0
  AtMostOnce cb called =
      (called ≡ []) ⊎ ((b : Bytes) × (err : Option CallError) × (called ≡ call cb b err))

  -- What a request over TCP leaves as it was.
  pub record Keeps (c c' : Client C) : Type 0 where
    pub messages_waiting : c'.messages_waiting ≡ c.messages_waiting
    pub disposed : c'.disposed ≡ c.disposed
    pub counter : c'.message_id_counter ≡ c.message_id_counter
    pub key : c'.pre_shared_key ≡ c.pre_shared_key
    pub pool : c'.udp_pool ≡ c.udp_pool

  pub record IsDirect (c : Client C) (cb : C) (s : Sent C) : Type 0 where
    pub keeps : Keeps c s.client
    pub once : AtMostOnce cb s.called

  same : (c : Client C) → Keeps c c
  same c = record {
    messages_waiting = refl;
    disposed = refl;
    counter = refl;
    key = refl;
    pool = refl;
  }

  put_back-Keeps :
      (key after : Option ℕ) (c c' : Client C) → Keeps c c' → Keeps c (put_back key after c')
  unfolding put_back
  put_back-Keeps key none c c' k = record {
    messages_waiting = k.messages_waiting;
    disposed = k.disposed;
    counter = k.counter;
    key = k.key;
    pool = k.pool;
  }
  put_back-Keeps key (some conn) c c' k = record {
    messages_waiting = k.messages_waiting;
    disposed = k.disposed;
    counter = k.counter;
    key = k.key;
    pool = k.pool;
  }

  respond_tcp-AtMostOnce :
      (cb : C) (packet : Option Packet) (err : Option Error) (called : List (Called C))
      → respond_tcp cb packet err ≡ done called
      → AtMostOnce cb called
  unfolding respond_tcp
  respond_tcp-AtMostOnce cb (some packet) none called e = inr (_, _, sym (done_injective e))
  respond_tcp-AtMostOnce cb none none called e = absurd (cc)
  respond_tcp-AtMostOnce cb packet (some err) called e = inr (_, _, sym (done_injective e))

  handle_tcp_message-AtMostOnce :
      (cb : C) (message : Bytes) (called : List (Called C))
      → handle_tcp_message cb message ≡ done called
      → AtMostOnce cb called
  unfolding handle_tcp_message
  handle_tcp_message-AtMostOnce cb message called e =
      let ((packet, err), _, e') =
        bind-done (parse_packet (pad_right message packet_size)) _ called e in
      respond_tcp-AtMostOnce cb packet (tolerate_large err) called e'

  fails-IsDirect :
      (c c' : Client C) (cb : C) (err : CallError) → Keeps c c' → IsDirect c cb (fails c' cb err)
  fails-IsDirect c c' cb err k = record { keeps = k; once = inr (_, _, refl) }

  silent-IsDirect :
      (c c' : Client C) (cb : C) (effects : List Effect)
      → Keeps c c'
      → IsDirect c cb (record { client = c'; effects = effects; called = [] })
  silent-IsDirect c c' cb effects k = record { keeps = k; once = inl refl }

  module _ (env : Environment) (c : Client C) (cb : C) (s : Sent C) where
    received_tcp-IsDirect :
        (conn : ℕ) (effects : List Effect) (turn : Turn) (c' : Client C) (messages : List Bytes)
        → Keeps c c'
        → received_tcp cb conn effects turn c' messages ≡ done s
        → IsDirect c cb s
    unfolding received_tcp
    received_tcp-IsDirect conn effects turn c' [] k e =
        subst (IsDirect c cb) (done_injective e) (silent-IsDirect c c' cb effects k)
    received_tcp-IsDirect conn effects turn c' (message ∷ messages) k e =
        let (called, handled, e') = bind-done (handle_tcp_message cb message) _ s e in
        subst (IsDirect c cb) (done_injective e') (record {
          keeps = put_back-Keeps (some conn) (conn_after conn turn) c c' k;
          once = handle_tcp_message-AtMostOnce cb message called handled;
        })

    await_tcp-IsDirect :
        (packet : Packet) (conn : ℕ) (effects : List Effect) (c' : Client C) (turn : Option Turn)
        → Keeps c c'
        → await_tcp env packet cb conn effects c' turn ≡ done s
        → IsDirect c cb s
    unfolding await_tcp
    await_tcp-IsDirect packet conn effects c' none k e =
        subst (IsDirect c cb) (done_injective e) (silent-IsDirect c c' cb effects k)
    await_tcp-IsDirect packet conn effects c' (some turn) k e =
        let ((messages, last), _, e') = bind-done (read_turn env packet conn turn) _ s e in
        received_tcp-IsDirect conn effects turn c' messages k e'

    write_tcp_or_call-IsDirect :
        (packet : Packet) (conn : ℕ) (b : Bytes) (c' : Client C) (err : Option Bytes)
        → Keeps c c'
        → write_tcp_or_call env packet cb conn b c' err ≡ done s
        → IsDirect c cb s
    unfolding write_tcp_or_call
    write_tcp_or_call-IsDirect packet conn b c' none k e =
        await_tcp-IsDirect packet conn (write_tcp conn b ∷ []) c' env.turn k e
    write_tcp_or_call-IsDirect packet conn b c' (some err) k e =
        subst (IsDirect c cb) (done_injective e)
          (fails-IsDirect c _ cb (failed err) (put_back-Keeps (some conn) none c c' k))

    on_conn-IsDirect :
        (packet : Packet) (c' : Client C) (key : Option (Option ℕ))
        → Keeps c c'
        → on_conn env packet cb c' key ≡ done s
        → IsDirect c cb s
    unfolding on_conn printed_tcp
    on_conn-IsDirect packet c' none k e = absurd (cc)
    on_conn-IsDirect packet c' (some none) k e =
        subst (IsDirect c cb) (done_injective e)
          (fails-IsDirect c _ cb no_healthy_tcp_servers (put_back-Keeps none none c c' k))
    on_conn-IsDirect packet c' (some (some conn)) k e =
        let packet' : Packet = record packet { data_value = packet.data_value ++ stop_symbol } in
        let ((b, err), _, e') = bind-done (to_bytes packet') _ s e in printed b err e'
      where
        printed :
            (b : Bytes) (err : Option Error)
            → printed_tcp env
                (record packet { data_value = packet.data_value ++ stop_symbol })
                cb
                conn
                c'
                b
                err
              ≡ done s
            → IsDirect c cb s
        printed b (some err) e' =
            subst (IsDirect c cb) (done_injective e') (
              fails-IsDirect c _ cb (bad_packet err)
                (put_back-Keeps (some conn) (some conn) c c' k))
        printed b none e' = write_tcp_or_call-IsDirect _ conn b c' (env.write_to_tcp conn b) k e'

  new_conn-Keeps :
      (env : Environment) (c c' : Client C) (key : Option (Option ℕ))
      → new_conn env c ≡ done (c', key)
      → Keeps c c'
  unfolding new_conn
  new_conn-Keeps env c c' key e = elim (Bool-cases (ltb (length c.tcp_server_list) 1)) [
    | inl no_server ↦ subst (Keeps c) (ap (λ r. r.0) (done_injective (rw no_server at e))) (same c)
    | inr some_server ↦
        let (server, _, e') =
          bind-done (index c.tcp_server_list (env.rand.intn (length c.tcp_server_list))) _ (c', key)
            (rw some_server at e) in
        subst (Keeps c) (ap (λ r. r.0) (done_injective e')) (record {
          messages_waiting = refl;
          disposed = refl;
          counter = refl;
          key = refl;
          pool = refl;
        })
  ]

  get_selected-Keeps :
      (env : Environment) (c c' : Client C) (item : Option ℕ) (key : Option (Option ℕ))
      → get_selected env c item ≡ done (c', key)
      → Keeps c c'
  unfolding get_selected
  get_selected-Keeps env c c' none key e = new_conn-Keeps env c c' key e
  get_selected-Keeps env c c' (some conn) key e =
      subst (Keeps c) (ap (λ r. r.0) (done_injective e)) (record {
        messages_waiting = refl;
        disposed = refl;
        counter = refl;
        key = refl;
        pool = refl;
      })

  -- A request over TCP, if it returns, leaves the callbacks that wait as they were, and calls its own
  -- callback at most once and no other.
  pub send_tcp-IsDirect :
      (env : Environment) (c : Client C) (packet : Packet) (cb : C) (s : Sent C)
      → send_tcp env c packet cb ≡ done s
      → IsDirect c cb s
  unfolding send_tcp get_conn
  send_tcp-IsDirect env c packet cb s e =
      let ((c', key), got, e') = bind-done (get_conn env c) _ s e in
      on_conn-IsDirect env c cb s packet c' key
        (get_selected-Keeps env c c' (get_elem? c.tcp_pool env.selected) key got) e'
