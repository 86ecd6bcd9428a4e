-- ===== src/Client/Config/Listened.antt =====
-- client/client.go: `Listen` leaves the callbacks as they are.
use dracula.Client.Responses.{client_already_init}
use dracula.Client.Config.{connected, open_conn}
use dracula.Client.State.{Client}
use dracula.Prelude.{if-either, none, some, true, false, Bytes, Option, refl, ◌≡◌}

module _ {C : Type 0} where
  pub record IsListening (c c' : Client C) : Type 0 where
    pub messages_waiting : c'.messages_waiting ≡ c.messages_waiting
    pub disposed : c'.disposed ≡ c.disposed
    pub counter : c'.message_id_counter ≡ c.message_id_counter
    pub pool : c'.udp_pool ≡ c.udp_pool

  connected-IsListening : (c : Client C) (err : Option Bytes) → IsListening c (connected c err).0
  unfolding connected
  connected-IsListening c none = record {
    messages_waiting = refl;
    disposed = refl;
    counter = refl;
    pool = refl;
  }
  connected-IsListening c (some err) = record {
    messages_waiting = refl;
    disposed = refl;
    counter = refl;
    pool = refl;
  }

  pub open_conn-IsListening :
      (err : Option Bytes) (c : Client C) → IsListening c (open_conn err c).0
  unfolding open_conn
  open_conn-IsListening err c =
      if-either (λ x. IsListening c x.0) c.conn (c, some client_already_init) (connected c err)
        (λ _. record { messages_waiting = refl; disposed = refl; counter = refl; pool = refl })
        (λ _. connected-IsListening c err)

  connected-done :
      (c : Client C) (err : Option Bytes)
      → (connected c err).1 ≡ none
      → (connected c err).0 ≡ record c { conn = true }
  unfolding connected
  connected-done c none h = refl
  connected-done c (some err) h = absurd (cc)

  -- Without an error the client has its connection, and is as it was otherwise.
  pub open_conn-done :
      (err : Option Bytes) (c : Client C)
      → (open_conn err c).1 ≡ none
      → (open_conn err c).0 ≡ record c { conn = true }
  unfolding open_conn
  open_conn-done err c =
      if-either (λ x. x.1 ≡ none → x.0 ≡ record c { conn = true }) c.conn
        (c, some client_already_init) (connected c err) (λ _ h. absurd (cc))
        (λ _. connected-done c err)

  connected-open : (c : Client C) (err : Option Bytes) → (connected c err).1 ≡ none → err ≡ none
  unfolding connected
  connected-open c none h = refl
  connected-open c (some err) h = absurd (cc)

  -- It had none before, and `ListenUDP` returns no error.
  pub open_conn-new :
      (err : Option Bytes) (c : Client C)
      → (open_conn err c).1 ≡ none
      → (c.conn ≡ false) × (err ≡ none)
  unfolding open_conn
  open_conn-new err c =
      if-either (λ x. x.1 ≡ none → (c.conn ≡ false) × (err ≡ none)) c.conn
        (c, some client_already_init) (connected c err) (λ _ h. absurd (cc))
        (λ closed h. (closed, connected-open c err h))
