-- ===== src/Client/Runs/Calls.antt =====
-- client/client.go: which callbacks an event calls, and which wait after it.
use dracula.Client.Config.Listened.{open_conn-IsListening}
use dracula.Client.Config.Closed.{close-IsClosed}
use dracula.RawMessage.{UdpAddr}
use dracula.Client.Cache.Cases.{check_cleanup-disposed}
use dracula.Client.Cache.Ledger.{check_cleanup-Balanced}
use dracula.Client.Responses.Cases.{handle_response-IsHandled, IsHandled}
use dracula.Client.Cache.{find, callback_of, ResponseCache}
use dracula.Client.Requests.Requested.{IsRequested}
use dracula.Protocol.Packet.{Packet}
use dracula.Client.Tcp.Direct.{AtMostOnce}
use dracula.Prelude.Int.{ℤ}
use dracula.Client.Responses.{CallError, handle_response, handle_timeout, respond_to, call, Called}
use dracula.Client.Cache.Entries.{IsMap-delete, tally-delete, tally-append, callbacks, tally, IsMap}
use dracula.Client.State.{Sent, Client}
use dracula.Prelude.{
  Option, if-cases, bind-done, done_injective, done, Bytes, ◌⊎◌, subst, inr, arith, inl, [], ◌∷◌,
  ◌++◌, ◌≤◌, ◌+◌, map, ℕ, Bool, List, refl, ◌≡◌, ap, ◌∙◌, sym,
}
use dracula.Client.Cache as Cache
use mathlib.Core.List.{map-append}
use dracula.Client.Config as Config
use dracula.Client.Pool as Pool
use dracula.Client.Runs.{checked, given, request, response, cleanup, Event, time_outs, receive}
use dracula.Client.Cache.Ledger as Ledger

module _ {C : Type 0} where
  -- No identifier waits twice, and the cache and the pool are disposed of with the client.
  pub record IsSound (c : Client C) : Type 0 where
    pub is_map : IsMap c.messages_waiting.cache
    pub flag : c.messages_waiting.disposed ≡ c.disposed
    pub pool : c.udp_pool.disposed ≡ c.disposed

  abbrev pub calls : List (Called C) → List C
  calls called = map (λ r. r.callback) called

  pub given-cons : (e : Event C) (es : List (Event C)) → given (e ∷ es) ≡ given (e ∷ []) ++ given es
  given-cons (request env r cb) es = refl
  given-cons (response now message) es = refl
  given-cons (cleanup now order) es = refl
  given-cons (Event.listen err) es = refl
  given-cons (checked healthy unhealthy) es = refl
  given-cons (Event.close close_error) es = refl

  module _ (p : C → Bool) where
    -- How many callbacks that pass a test wait.
    abbrev pub waits : Client C → ℕ
    waits c = tally p (callbacks c.messages_waiting.cache)

    calls-AtMostOnce :
        (cb : C) (called : List (Called C))
        → AtMostOnce cb called
        → tally p (calls called) ≤ tally p (cb ∷ [])
    unfolding call
    calls-AtMostOnce cb called (inl e) = rw e (omega arith)
    calls-AtMostOnce cb called (inr (b, err, e)) = rw e (omega arith)

    pub calls-append :
        (xs ys : List (Called C))
        → tally p (calls (xs ++ ys)) ≡ tally p (calls xs) + tally p (calls ys)
    calls-append xs ys =
        ap (tally p) (map-append (λ r. r.callback) xs ys) ∙ tally-append p (calls xs) (calls ys)

    -- A step keeps the client sound, and what it calls had been waiting or is given.
    pub record Once (c : Client C) (given : List C) (c' : Client C) (called : List (Called C))
        : Type 0 where
      pub sound : IsSound c'
      pub once : waits c' + tally p (calls called) ≤ waits c + tally p given

    pub requested-Once :
        (now : ℤ) (c : Client C) (cb : C) (s : Sent C)
        → IsSound c
        → IsRequested now c cb s
        → Once c (cb ∷ []) s.client s.called
    requested-Once now c cb s ok r = elim r.outcome [
      | inl (same, once) ↦ record {
        sound = record {
          is_map = subst IsMap (sym same) ok.is_map;
          flag = r.flag ∙ ok.flag ∙ sym r.disposed;
          pool = ap (λ p. p.disposed) r.pool ∙ ok.pool ∙ sym r.disposed;
        };
        once = rw same (omega (arith, calls-AtMostOnce cb s.called once));
      }
      | inr (free, longer, none_called) ↦ record {
        sound = record {
          is_map = subst IsMap (sym longer) (free, ok.is_map);
          flag = r.flag ∙ ok.flag ∙ sym r.disposed;
          pool = ap (λ p. p.disposed) r.pool ∙ ok.pool ∙ sym r.disposed;
        };
        once = rw (longer, none_called) (ground arith);
      }
    ]

    respond_to-once :
        (packet : Packet) (cb : C) → tally p (calls (respond_to packet cb)) ≤ tally p (cb ∷ [])
    unfolding respond_to call
    respond_to-once packet cb = ground arith

    within :
        (called : List (Called C)) (cb : C)
        → (called ≡ []) ⊎ ((packet : Packet) × (called ≡ respond_to packet cb))
        → tally p (calls called) ≤ tally p (cb ∷ [])
    within called cb (inl e) = rw e (omega arith)
    within called cb (inr (packet, e)) = rw e (respond_to-once packet cb)

    handled-Once :
        (c : Client C) (rc' : ResponseCache C) (called : List (Called C))
        → IsSound c
        → IsHandled c.messages_waiting rc' called
        → Once c [] (record c { messages_waiting = rc' }) called
    handled-Once c rc' called ok (inl (same, none_called)) =
        rw (same, none_called) (record { sound = ok; once = omega arith })
    handled-Once c rc' called ok (inr (id, w, found, shorter, calls')) =
        let taken = tally-delete p id c.messages_waiting.cache ok.is_map in
        let one : tally p (calls called)
            ≤ tally p (callback_of (find id c.messages_waiting.cache)) =
          rw found (unfold callback_of in within called w.callback calls') in
        rw shorter (record {
          sound = record {
            is_map = IsMap-delete id c.messages_waiting.cache ok.is_map;
            flag = ok.flag;
            pool = ok.pool;
          };
          once = omega (arith, taken, one);
        })

    time_outs-calls : (cbs : List C) → calls (time_outs cbs) ≡ cbs
    unfolding time_outs handle_timeout call
    time_outs-calls [] = refl
    time_outs-calls (cb ∷ cbs) = ap (◌∷◌ cb) (time_outs-calls cbs)

    pub swept-Once :
        (c : Client C) (now : ℤ) (order : List ℕ)
        → IsSound c
        → Once c []
            (record c { messages_waiting = (Cache.check_cleanup now order c.messages_waiting).0 })
            (time_outs (Cache.check_cleanup now order c.messages_waiting).1)
    unfolding Ledger.step
    swept-Once c now order ok =
        let b = check_cleanup-Balanced p now order c.messages_waiting ok.is_map in
        let cbs = (Cache.check_cleanup now order c.messages_waiting).1 in
        let sent = ap (tally p) (time_outs-calls cbs) in
        record {
          sound = record {
            is_map = b.is_map;
            flag = check_cleanup-disposed now order c.messages_waiting ∙ ok.flag;
            pool = ok.pool;
          };
          once = omega (arith, b.balance, sent);
        }

    pub receive-Once :
        (c c' : Client C) (now : ℤ) (message : Bytes) (called : List (Called C))
        → IsSound c
        → receive now message c ≡ done (c', called)
        → Once c [] c' called
    unfolding receive
    receive-Once c c' now message called ok e =
        elim (if-cases c.disposed _ _ (done (c', called)) e) [
          | inl (ended, e') ↦
              subst (λ r. Once c [] r.0 r.1) (done_injective e')
                (record { sound = ok; once = omega arith })
          | inr (open', e') ↦
              let ((rc', called'), handled, e'') =
                bind-done (handle_response now c.messages_waiting message) _ (c', called) e' in
              subst (λ r. Once c [] r.0 r.1) (done_injective e'')
                (handled-Once c rc' called' ok
                  (handle_response-IsHandled now c.messages_waiting rc' message called' handled))
        ]

    still-Once :
        (c c' : Client C)
        → IsSound c
        → c'.messages_waiting.cache ≡ c.messages_waiting.cache
        → c'.messages_waiting.disposed ≡ c'.disposed
        → c'.udp_pool.disposed ≡ c'.disposed
        → Once c [] c' []
    still-Once c c' ok same flag pool = record {
      sound = record { is_map = subst IsMap (sym same) ok.is_map; flag = flag; pool = pool };
      once = rw same (omega arith);
    }

    pub listen-Once :
        (c : Client C) (err : Option Bytes) → IsSound c → Once c [] (Config.open_conn err c).0 []
    listen-Once c err ok =
        let l = open_conn-IsListening err c in
        still-Once c _ ok (ap (λ m. m.cache) l.messages_waiting)
          (ap (λ m. m.disposed) l.messages_waiting ∙ ok.flag ∙ sym l.disposed)
          (ap (λ p. p.disposed) l.pool ∙ ok.pool ∙ sym l.disposed)

    pub checked-Once :
        (c : Client C) (healthy unhealthy : List UdpAddr)
        → IsSound c
        → Once c [] (record c { udp_pool = Pool.seed healthy unhealthy c.udp_pool }) []
    checked-Once c healthy unhealthy ok = still-Once c _ ok refl ok.flag ok.pool

    pub close-Once :
        (c c' : Client C) (close_error : Option Bytes) (conns : List ℕ) (err : Option CallError)
        → IsSound c
        → Config.close close_error c ≡ done (c', conns, err)
        → Once c [] c' []
    close-Once c c' close_error conns err ok e =
        let (c'', _, _, closes, shut, _) = close-IsClosed close_error c ok.flag ok.pool in
        subst (λ x. Once c [] x []) (ap (λ r. r.0) (done_injective (sym closes ∙ e)))
          (still-Once c c'' ok shut.cache (shut.flag ∙ sym shut.disposed)
            (shut.pool ∙ sym shut.disposed))
