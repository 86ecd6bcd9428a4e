-- ===== src/Client/Health/Ended.antt =====
-- client/client.go and client/serverpool/serverpool.go: the loops of a client that was closed.
use dracula.Client.Health.{Check, loop_healthcheck}
use dracula.Client.Config.Closed.{close-IsClosed}
use dracula.Client.Config.Listened.{open_conn-IsListening}
use dracula.Client.Config.New.{new_client-IsNew}
use dracula.Client.Runs.Calls.{IsSound}
use dracula.Client.Runs.Once.{step-Once}
use dracula.Client.Runs.Started.{send_request-IsRequested}
use dracula.Client.Runs.{
  Event, request, response, cleanup, checked, step, run, receive, send_request,
}
use dracula.Client.Responses.{Called, handle_response}
use dracula.Client.State.{Client}
use dracula.Server.Peers.{Parsers}
use dracula.RawMessage.{UdpAddr}
use dracula.Protocol.Packet.{Hasher}
use dracula.Prelude.Int.{ℤ}
use dracula.Prelude.{
  Bool, List, Bytes, true, false, some, [], ◌∷◌, done, ◌≡◌, refl, ap, ◌∙◌, sym, subst, ◌⊎◌, inl,
  inr, bind-done, done_injective, if-cases,
}
use dracula.Client.Config as Config

module _ {C : Type 0} where
  -- `Close` is called among the events.
  abbrev pub Closes : List (Event C) → Type 0
  Closes [] = ⊥
  Closes (Event.close err ∷ es) = Unit
  Closes (e ∷ es) = Closes es

  receive-disposed :
      (c c' : Client C) (now : ℤ) (message : Bytes) (called : List (Called C))
      → receive now message c ≡ done (c', called)
      → c'.disposed ≡ c.disposed
  unfolding receive
  receive-disposed c c' now message called e =
      elim (if-cases c.disposed _ _ (done (c', called)) e) [
        | inl (ended, e') ↦ ap (λ r. r.0.disposed) (sym (done_injective e'))
        | inr (open', e') ↦
            let (_, _, e'') =
              bind-done (handle_response now c.messages_waiting message) _ (c', called) e' in
            ap (λ r. r.0.disposed) (sym (done_injective e''))
      ]

  module _ ⦃hash : Hasher⦄ (addr_string : UdpAddr → Bytes) where
    -- What is disposed of stays so.
    step-disposed :
        (c c' : Client C) (e : Event C) (called : List (Called C))
        → IsSound c
        → step addr_string c e ≡ done (c', called)
        → (c.disposed ≡ true) ⊎ Closes (e ∷ [])
        → c'.disposed ≡ true
    unfolding step
    step-disposed c c' (request env r cb) called ok e (inl ended) =
        let (s, sent, e') = bind-done (send_request addr_string env c r cb) _ (c', called) e in
        ap (λ r. r.0.disposed) (sym (done_injective e'))
        ∙ (send_request-IsRequested addr_string env c r cb s sent).disposed
        ∙ ended
    step-disposed c c' (response now message) called ok e (inl ended) =
        receive-disposed c c' now message called e ∙ ended
    step-disposed c c' (cleanup now order) called ok e (inl ended) =
        ap (λ r. r.0.disposed) (sym (done_injective e)) ∙ ended
    step-disposed c c' (Event.listen err) called ok e (inl ended) =
        ap (λ r. r.0.disposed) (sym (done_injective e))
        ∙ (open_conn-IsListening err c).disposed
        ∙ ended
    step-disposed c c' (checked healthy unhealthy) called ok e (inl ended) =
        ap (λ r. r.0.disposed) (sym (done_injective e)) ∙ ended
    step-disposed c c' (Event.close err) called ok e h =
        let (shut, conns, res, closes, is, _) = close-IsClosed err c ok.flag ok.pool in
        let ((c'', conns', res'), closed, e') = bind-done (Config.close err c) _ (c', called) e in
        ap (λ r. r.0.disposed) (sym (done_injective e'))
        ∙ ap (λ r. r.0.disposed) (done_injective (sym closed ∙ closes))
        ∙ is.disposed
    step-disposed c c' (request env r cb) called ok e (inr h) = absurd h
    step-disposed c c' (response now message) called ok e (inr h) = absurd h
    step-disposed c c' (cleanup now order) called ok e (inr h) = absurd h
    step-disposed c c' (Event.listen err) called ok e (inr h) = absurd h
    step-disposed c c' (checked healthy unhealthy) called ok e (inr h) = absurd h

    Closes-cons :
        (e : Event C) (es : List (Event C)) → Closes (e ∷ es) → Closes (e ∷ []) ⊎ Closes es
    Closes-cons (request env r cb) es h = inr h
    Closes-cons (response now message) es h = inr h
    Closes-cons (cleanup now order) es h = inr h
    Closes-cons (Event.listen err) es h = inr h
    Closes-cons (checked healthy unhealthy) es h = inr h
    Closes-cons (Event.close err) es h = inl tt

    first_or_later :
        (c c1 : Client C) (e : Event C) (es : List (Event C)) (called : List (Called C))
        → IsSound c
        → step addr_string c e ≡ done (c1, called)
        → (c.disposed ≡ true) ⊎ Closes (e ∷ es)
        → (c1.disposed ≡ true) ⊎ Closes es
    first_or_later c c1 e es called ok stepped (inl ended) =
        inl (step-disposed c c1 e called ok stepped (inl ended))
    first_or_later c c1 e es called ok stepped (inr closes) = elim (Closes-cons e es closes) [
      | inl now ↦ inl (step-disposed c c1 e called ok stepped (inr now))
      | inr later ↦ inr later
    ]

    run-disposed :
        (c c' : Client C) (es : List (Event C)) (called : List (Called C))
        → IsSound c
        → run addr_string c es ≡ done (c', called)
        → (c.disposed ≡ true) ⊎ Closes es
        → IsSound c' × (c'.disposed ≡ true)
    unfolding run
    run-disposed c c' [] called ok e (inl ended) =
        subst (λ r. IsSound r.0 × (r.0.disposed ≡ true)) (done_injective e) (ok, ended)
    run-disposed c c' [] called ok e (inr h) = absurd h
    run-disposed c c' (ev ∷ es) called ok e h =
        let ((c1, called1), stepped, e1) = bind-done (step addr_string c ev) _ (c', called) e in
        let ((c2, called2), ran, e2) = bind-done (run addr_string c1 es) _ (c', called) e1 in
        let sound = (step-Once (λ cb. true) addr_string c c1 ev called1 ok stepped).sound in
        subst (λ r. IsSound r.0 × (r.0.disposed ≡ true)) (done_injective e2)
          (run-disposed c1 c2 es called2 sound ran (first_or_later c c1 ev es called1 ok stepped h))

    -- On a client that `NewClient` made, after any events among which is a call of `Close`, if the run
    -- returns: the loop of health checks ends in its next turn, without a check, and the loop that handles
    -- responses handles none more, whatever comes.
    pub run-ends :
        (same : C → C → Bool) (net : Parsers) (conf : Config.Config) (c c' : Client C)
        (es : List (Event C)) (called : List (Called C)) (checks : List (Check C)) (now : ℤ)
        (message : Bytes)
        → Config.new_client net conf ≡ done c
        → run addr_string c es ≡ done (c', called)
        → Closes es
        → (loop_healthcheck same addr_string checks c'
            ≡ done (record { client = c'; called = []; result = some false }))
          × (receive now message c' ≡ done (c', []))
    unfolding loop_healthcheck receive
    run-ends same net conf c c' es called checks now message made ran closes =
        let new = new_client-IsNew net conf c made in
        let sound : IsSound c = record {
          is_map = rw new.cache tt;
          flag = new.flag ∙ sym new.disposed;
          pool = new.pool ∙ sym new.disposed;
        } in
        let (sound', ended) = run-disposed c c' es called sound ran (inr closes) in
        (rw (sound'.pool ∙ ended) refl, rw ended refl)
