-- ===== src/Client/Config/Closed.antt =====
-- client/client.go: `Close`.
use dracula.Client.Responses.{CallError}
use dracula.Client.Config.{close_tcp, close}
use dracula.Client.State.{Client}
use dracula.Prelude.{
  if◌then◌else◌, inr, inl, Bool-cases, [], done, ℕ, none, List, some, Bytes, Option, true, refl,
  ◌≡◌, ◌∙◌,
}
use dracula.Client.Cache as Cache
use dracula.Client.Pool as Pool

module _ {C : Type 0} where
  -- Closed, with the same callbacks waiting.
  pub record IsClosed (c c' : Client C) : Type 0 where
    pub disposed : c'.disposed ≡ true
    pub pool : c'.udp_pool.disposed ≡ true
    pub flag : c'.messages_waiting.disposed ≡ true
    pub cache : c'.messages_waiting.cache ≡ c.messages_waiting.cache
    pub counter : c'.message_id_counter ≡ c.message_id_counter

  abbrev marked : Client C → Client C
  marked c = record c {
    disposed = true;
    messages_waiting = record c.messages_waiting { disposed = true };
    udp_pool = Pool.dispose c.udp_pool;
  }

  close_tcp-IsClosed : (c : Client C) (err : Option Bytes) → IsClosed c (close_tcp (marked c) err).0
  unfolding close_tcp Pool.dispose
  close_tcp-IsClosed c none = record {
    disposed = refl;
    pool = refl;
    flag = refl;
    cache = refl;
    counter = refl;
  }
  close_tcp-IsClosed c (some err) = record {
    disposed = refl;
    pool = refl;
    flag = refl;
    cache = refl;
    counter = refl;
  }

  -- A client whose cache and pool are disposed of when it is, as after any events, is closed without a panic,
  -- whatever error the connection has; the same callbacks wait; and to close it once more does nothing,
  -- and closes no connection, whatever the error then.
  pub close-IsClosed :
      (err : Option Bytes) (c : Client C)
      → c.messages_waiting.disposed ≡ c.disposed
      → c.udp_pool.disposed ≡ c.disposed
      → (c' : Client C) × (conns : List ℕ) × (res : Option CallError) × (close err c
          ≡ done (c', conns, res))
        × IsClosed c c'
        × ((err' : Option Bytes) → close err' c' ≡ done (c', [], none))
  unfolding close Cache.dispose
  close-IsClosed err c flag pool = elim (Bool-cases c.disposed) [
    | inl ended ↦ (
      c,
      [],
      none,
      simp ended,
      record {
        disposed = ended;
        pool = pool ∙ ended;
        flag = flag ∙ ended;
        cache = refl;
        counter = refl;
      },
      λ err'. simp ended,
    )
    | inr open' ↦
        let (c', conns, res) = close_tcp (marked c) (if c.conn then err else none) in
        let shut : IsClosed c c' = close_tcp-IsClosed c (if c.conn then err else none) in
        (c', conns, res, simp (open', flag), shut, λ err'. simp shut.disposed)
  ]
