-- ===== src/Client/Health.antt =====
-- client/serverpool/serverpool.go and client/client.go: the rounds of health checks, and `Listen` with
-- its first round. A check is a request that waits for its callback; what the other goroutines do until
-- the callback is called is a list of events.
pub mod Events
pub mod Answered
pub mod Results
pub mod Listened
pub mod Ended
pub mod Chosen
mod Tests
use dracula.Client.Responses.{CallError, Called}
use dracula.Client.Requests.{healthcheck_result}
use dracula.Client.State.{Client, Environment}
use dracula.Client.Runs.{Request, Event, request, run}
use dracula.RawMessage.{UdpAddr}
use dracula.Protocol.Packet.{Hasher}
use dracula.Prelude.{
  Bool, List, Option, Outcome, Bytes, true, false, none, some, [], ◌∷◌, ◌++◌, done, ◌>>=◌,
  if◌then◌else◌,
}
use mathlib.Core.Option as Option
use dracula.Client.Config as Config
use dracula.Client.Pool as Pool

-- What one check meets, its callback, and the events until the callback is called.
pub record Check (C : Type 0) : Type 0 where
  pub network : Environment
  pub callback : C
  pub meanwhile : List (Event C)

-- The healthy servers and the others.
abbrev pub Lists : Type 0
Lists = List UdpAddr × List UdpAddr

unfoldable pub place : UdpAddr → Option CallError → Lists → Lists
place s none (healthy, unhealthy) = (s ∷ healthy, unhealthy)
place s (some err) (healthy, unhealthy) = (healthy, s ∷ unhealthy)

-- The client, the calls of callbacks so far, and a result, or none while it is awaited.
pub record Waits (C A : Type 0) : Type 0 where
  pub client : Client C
  pub called : List (Called C)
  pub result : Option A

module _ {C : Type 0} where
  module _ (same : C → C → Bool) where
    unfoldable pub first_call : C → List (Called C) → Option (Called C)
    first_call cb [] = none
    first_call cb (r ∷ rs) =
        let rest = first_call cb rs in if same r.callback cb then some r else rest

    module _ ⦃hash : Hasher⦄ (addr_string : UdpAddr → Bytes) where
      -- `Healthcheck`, up to what it returns.
      unfoldable pub check : Client C → UdpAddr → Check C → Outcome (Waits C (Option CallError))
      unfolding first_call
      check c s k = do
        (c', called) ←
            run addr_string c (request k.network (Request.healthcheck s) k.callback ∷ k.meanwhile)
        done (record {
          client = c';
          called = called;
          result = Option.map healthcheck_result (first_call k.callback called);
        })

      -- The servers that are left are checked when a check has returned.
      after_check :
          UdpAddr
          → Waits C (Option CallError)
          → Outcome (Waits C Lists)
          → Option (Option CallError)
          → Outcome (Waits C Lists)
      unfolding place
      after_check s w rest none =
          done (record { client = w.client; called = w.called; result = none })
      after_check s w rest (some err) = do
        later ← rest
        done (record later {
          called = w.called ++ later.called;
          result = Option.map (place s err) later.result;
        })

      -- `healthcheck` of the pool. Without a further check it waits.
      unfoldable pub round : Client C → List UdpAddr → List (Check C) → Outcome (Waits C Lists)
      unfolding check after_check
      round c [] checks = done (record { client = c; called = []; result = some ([], []) })
      round c (s ∷ servers) [] = done (record { client = c; called = []; result = none })
      round c (s ∷ servers) (k ∷ checks) = do
        w ← check c s k
        after_check s w (round w.client servers checks) w.result

      -- The end of a round.
      seeded : Client C → Option Lists → Client C
      seeded c none = c
      seeded c (some (healthy, unhealthy)) = record c {
        udp_pool = Pool.seed healthy unhealthy c.udp_pool;
      }

      unfoldable pub round_of : List (Check C) → Client C → Outcome (Waits C Lists)
      unfolding round seeded
      round_of checks c = do
        w ← round c c.udp_pool.servers checks
        done (record w { client = seeded w.client w.result })

      listened : List (Check C) → Client C × Option CallError → Outcome (Waits C (Option CallError))
      unfolding round_of
      listened checks (c, some err) =
          done (record { client = c; called = []; result = some (some err) })
      listened checks (c, none) = do
        w ← round_of checks c
        done (record {
          client = w.client;
          called = w.called;
          result = Option.map (λ lists. none) w.result;
        })

      -- `Listen`, with the error of `ListenUDP`.
      unfoldable pub listen :
          Option Bytes → List (Check C) → Client C → Outcome (Waits C (Option CallError))
      unfolding listened
      listen listen_error checks c = listened checks (Config.open_conn listen_error c)

      -- One turn of `loopHealthcheck`, and whether it calls itself again.
      unfoldable pub loop_healthcheck : List (Check C) → Client C → Outcome (Waits C Bool)
      unfolding round_of
      loop_healthcheck checks c =
          if c.udp_pool.disposed
          then done (record { client = c; called = []; result = some false })
          else (do
            w ← round_of checks c
            done (record {
              client = w.client;
              called = w.called;
              result = Option.map (λ lists. true) w.result;
            }))
