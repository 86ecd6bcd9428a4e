-- ===== src/Client/Runs/Once.antt =====
-- client/client.go: no callback is called twice.
use dracula.Client.Config.New.{new_client-IsNew}
use dracula.Server.Peers.{Parsers}
use dracula.Client.Runs.Started.{send_request-IsRequested}
use dracula.RawMessage.{UdpAddr}
use dracula.Protocol.Packet.{Hasher}
use dracula.Client.Responses.{Called}
use dracula.Client.Cache.Entries.{tally-append, callbacks, tally}
use dracula.Client.State.{Client}
use dracula.Prelude.{
  bind-done, done_injective, done, Bytes, subst, arith, [], ◌∷◌, ◌≤◌, ◌+◌, Bool, List, ◌≡◌, ap, ◌∙◌,
  sym,
}
use dracula.Client.Config as Config
use dracula.Client.Runs.{checked, step, run, given, cleanup, response, send_request, request, Event}
use dracula.Client.Runs.Calls.{
  given-cons, Once, calls-append, requested-Once, swept-Once, receive-Once, listen-Once,
  checked-Once, close-Once, IsSound, calls, waits,
}

module _ {C : Type 0} where
  module _ (p : C → Bool) where
    module _ ⦃hash : Hasher⦄ (addr_string : UdpAddr → Bytes) where
      pub step-Once :
          (c c' : Client C) (e : Event C) (called : List (Called C))
          → IsSound c
          → step addr_string c e ≡ done (c', called)
          → Once p c (given (e ∷ [])) c' called
      unfolding step
      step-Once c c' (request env r cb) called ok e =
          let (s, sent, e') = bind-done (send_request addr_string env c r cb) _ (c', called) e in
          subst (λ x. Once p c (cb ∷ []) x.0 x.1) (done_injective e')
            (requested-Once p env.add_now c cb s ok
              (send_request-IsRequested addr_string env c r cb s sent))
      step-Once c c' (response now message) called ok e =
          receive-Once p c c' now message called ok e
      step-Once c c' (cleanup now order) called ok e =
          subst (λ x. Once p c [] x.0 x.1) (done_injective e) (swept-Once p c now order ok)
      step-Once c c' (Event.listen err) called ok e =
          subst (λ x. Once p c [] x.0 x.1) (done_injective e) (listen-Once p c err ok)
      step-Once c c' (checked healthy unhealthy) called ok e =
          subst (λ x. Once p c [] x.0 x.1) (done_injective e)
            (checked-Once p c healthy unhealthy ok)
      step-Once c c' (Event.close close_error) called ok e =
          let ((c'', conns, err), closes, e') =
            bind-done (Config.close close_error c) _ (c', called) e in
          subst (λ x. Once p c [] x.0 x.1) (done_injective e')
            (close-Once p c c'' close_error conns err ok closes)

      -- In any run of events that returns, from a client whose cache has no identifier twice and is disposed
      -- of when the client is, this stays so, and the callbacks that wait at the end and those that were
      -- called are together at most those that waited at first and those of the requests, as often: no
      -- callback is called twice for one request. So it is for the callbacks that pass any test.
      pub run-Once :
          (c c' : Client C) (es : List (Event C)) (called : List (Called C))
          → IsSound c
          → run addr_string c es ≡ done (c', called)
          → Once p c (given es) c' called
      unfolding run
      run-Once c c' [] called ok e =
          subst (λ x. Once p c [] x.0 x.1) (done_injective e)
            (record { sound = ok; once = omega arith })
      run-Once c c' (ev ∷ es) called ok e =
          let ((c1, called1), stepped, e1) = bind-done (step addr_string c ev) _ (c', called) e in
          let ((c2, called2), ran, e2) = bind-done (run addr_string c1 es) _ (c', called) e1 in
          let first = step-Once c c1 ev called1 ok stepped in
          let rest = run-Once c1 c2 es called2 first.sound ran in
          subst (λ x. Once p c (given (ev ∷ es)) x.0 x.1) (done_injective e2)
            (record {
              sound = rest.sound;
              once = omega (
                arith,
                first.once,
                rest.once,
                calls-append p called1 called2,
                ap (tally p) (given-cons ev es),
                tally-append p (given (ev ∷ [])) (given es),
              );
            })

      -- A client that `NewClient` made, after any events, if the run returns: the callbacks that wait and
      -- those that were called are together at most those of the requests, as often, so no request has
      -- its callback called twice. So it is for the callbacks that pass any test.
      pub run-new_client :
          (net : Parsers) (conf : Config.Config) (c c' : Client C) (es : List (Event C))
          (called : List (Called C))
          → Config.new_client net conf ≡ done c
          → run addr_string c es ≡ done (c', called)
          → waits p c' + tally p (calls called) ≤ tally p (given es)
      run-new_client net conf c c' es called made ran =
          let new = new_client-IsNew net conf c made in
          let first : IsSound c = record {
            is_map = rw new.cache tt;
            flag = new.flag ∙ sym new.disposed;
            pool = new.pool ∙ sym new.disposed;
          } in
          omega (
            arith,
            (run-Once c c' es called first ran).once,
            ap (λ es. tally p (callbacks es)) new.cache,
          )
