-- ===== src/Client/Runs.antt =====
-- client/client.go: a client at work, as a list of events: the calls of its methods, each with what the
-- network does, the datagrams that come, the cleanups that are due, and the ends of the pool's rounds of
-- health checks, with the lists that they found.
mod Tests
pub mod Calls
pub mod Once
pub mod Identifiers
pub mod Started
use dracula.Client.Responses.{handle_response, handle_timeout, Called}
use dracula.RawMessage.{UdpAddr}
use dracula.Protocol.Packet.{Hasher}
use dracula.Prelude.Int.{ℤ}
use dracula.Client.State.{Sent, Client, Environment}
use dracula.Prelude.{
  [], ◌>>=◌, done, if◌then◌else◌, ◌++◌, Option, Outcome, Bool, ◌∷◌, ℕ, List, Bytes,
}
use dracula.Client.Cache as Cache
use dracula.Client.Requests as Methods
use dracula.Client.Config as Config
use dracula.Client.Pool as Pool

-- A call of a method that sends.
pub data Request : Type 0 where
  count key_match put : Bytes → Bytes → Request
  count_namespace : Bytes → Request
  count_server list_namespaces : Request
  healthcheck : UdpAddr → Request

pub data Event (C : Type 0) : Type 0 where
  request : Environment → Request → C → Event C
  response : ℤ → Bytes → Event C
  cleanup : ℤ → List ℕ → Event C
  listen : Option Bytes → Event C
  checked : List UdpAddr → List UdpAddr → Event C
  close : Option Bytes → Event C

module _ {C : Type 0} where
  pub time_outs : List C → List (Called C)
  time_outs [] = []
  time_outs (cb ∷ cbs) = handle_timeout cb ++ time_outs cbs

  -- The loop of `handleResponsesForever` ends when it finds the client disposed.
  unfoldable pub receive : ℤ → Bytes → Client C → Outcome (Client C × List (Called C))
  receive now message c = if c.disposed then done (c, []) else (do
    (messages_waiting', called) ← handle_response now c.messages_waiting message
    done (record c { messages_waiting = messages_waiting' }, called))

  module _ ⦃hash : Hasher⦄ (addr_string : UdpAddr → Bytes) where
    unfoldable pub send_request : Environment → Client C → Request → C → Outcome (Sent C)
    send_request env c (count ns key) cb = Methods.count env c ns key cb
    send_request env c (key_match ns pattern) cb = Methods.key_match env c ns pattern cb
    send_request env c (put ns value) cb = Methods.put env c ns value cb
    send_request env c (count_namespace ns) cb = Methods.count_namespace env c ns cb
    send_request env c count_server cb = Methods.count_server env c cb
    send_request env c list_namespaces cb = Methods.list_namespaces env c cb
    send_request env c (healthcheck server) cb = Methods.healthcheck addr_string env c server cb

    unfoldable pub step : Client C → Event C → Outcome (Client C × List (Called C))
    unfolding send_request receive time_outs
    step c (request env r cb) = do s ← send_request env c r cb; done (s.client, s.called)
    step c (response now message) = receive now message c
    step c (cleanup now order) =
        let (messages_waiting', cbs) = Cache.check_cleanup now order c.messages_waiting in
        done (record c { messages_waiting = messages_waiting' }, time_outs cbs)
    step c (Event.listen listen_error) = done ((Config.open_conn listen_error c).0, [])
    step c (checked healthy unhealthy) =
        done (record c { udp_pool = Pool.seed healthy unhealthy c.udp_pool }, [])
    step c (Event.close close_error) = do
      (c', conns, err) ← Config.close close_error c
      done (c', [])

    -- The client after the events, and all the calls of callbacks, in order.
    unfoldable pub run : Client C → List (Event C) → Outcome (Client C × List (Called C))
    unfolding step
    run c [] = done (c, [])
    run c (e ∷ es) = do
      (c', called) ← step c e
      (c'', called') ← run c' es
      done (c'', called ++ called')

  -- The callbacks of the requests that are made.
  abbrev pub given : List (Event C) → List C
  given [] = []
  given (request env r cb ∷ es) = cb ∷ given es
  given (e ∷ es) = given es
