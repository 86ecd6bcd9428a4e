-- ===== src/Client/Runs/Identifiers.antt =====
-- client/client.go: the identifiers of a client's requests, which wrap after 2^32.
use dracula.Client.Runs.Once.{step-Once}
use dracula.Client.Config.New.{new_client-IsNew}
use dracula.Server.Peers.{Parsers}
use dracula.Client.Cache.Bounds.{find-UpTo, UpTo-check_cleanup, UpTo-delete, UpTo-mono, UpTo}
use dracula.Client.Config.Listened.{open_conn-IsListening}
use dracula.Client.Runs.Started.{send_request-IsRequested}
use dracula.Client.Requests.Started.{next_id}
use dracula.Client.Config.Closed.{close-IsClosed}
use dracula.Client.Requests.Requested.{IsRequested}
use dracula.Client.Runs.Calls.{given-cons, IsSound}
use dracula.Client.Responses.Cases.{handle_response-IsHandled, IsHandled}
use dracula.Client.Responses.{handle_response, CallError, Called}
use dracula.RawMessage.{UdpAddr}
use dracula.Client.State.{Sent, Client}
use dracula.Protocol.Packet.{Hasher}
use dracula.Client.Runs.{
  checked, step, run, cleanup, response, send_request, request, given, Event, ◌∷◌, receive,
}
use dracula.Prelude.Int.{ℤ}
use dracula.Client.Cache.{find, ResponseCache}
use dracula.Prelude.{
  length-append, add-zero, bind-done, true, done_injective, inr, length, if-cases, inl, none, done,
  [], ◌^◌, arith, ◌+◌, ◌<◌, Option, Bytes, subst, List, ℕ, ◌≡◌, refl, ap, ◌∙◌, sym,
}
use dracula.Client.Config as Config

module _ {C : Type 0} where
  -- The identifiers that wait are up to the counter, which has counted the requests.
  pub record Numbered (made : ℕ) (c : Client C) : Type 0 where
    pub counter : c.message_id_counter ≡ made
    pub up_to : UpTo made c.messages_waiting.cache

  requested-Numbered :
      (now : ℤ) (n : ℕ) (c : Client C) (cb : C) (s : Sent C)
      → n + 1 < 2 ^ 32
      → Numbered n c
      → IsRequested now c cb s
      → Numbered (n + 1) s.client
  requested-Numbered now n c cb s h u r =
      let next : next_id c.message_id_counter ≡ n + 1 = rw u.counter (omega arith) in
      let old = UpTo-mono n (n + 1) c.messages_waiting.cache (omega arith) u.up_to in
      elim r.outcome [
        | inl (same, _) ↦ record {
          counter = r.counter ∙ next;
          up_to = subst (UpTo (n + 1)) (sym same) old;
        }
        | inr (_, longer, _) ↦ record {
          counter = r.counter ∙ next;
          up_to = subst (UpTo (n + 1)) (sym longer) (omega (arith, next), old);
        }
      ]

  handled-Numbered :
      (n : ℕ) (c : Client C) (rc' : ResponseCache C) (called : List (Called C))
      → Numbered n c
      → IsHandled c.messages_waiting rc' called
      → Numbered n (record c { messages_waiting = rc' })
  handled-Numbered n c rc' called u (inl (same, _)) = record {
    counter = u.counter;
    up_to = rw same u.up_to;
  }
  handled-Numbered n c rc' called u (inr (id, w, found, shorter, _)) = record {
    counter = u.counter;
    up_to = rw shorter (UpTo-delete n id c.messages_waiting.cache u.up_to);
  }

  receive-Numbered :
      (n : ℕ) (c c' : Client C) (now : ℤ) (message : Bytes) (called : List (Called C))
      → Numbered n c
      → receive now message c ≡ done (c', called)
      → Numbered n c'
  unfolding receive
  receive-Numbered n c c' now message called u e =
      elim (if-cases c.disposed _ _ (done (c', called)) e) [
        | inl (ended, e') ↦ subst (λ r. Numbered n r.0) (done_injective e') u
        | inr (open', e') ↦
            let ((rc', called'), handled, e'') =
              bind-done (handle_response now c.messages_waiting message) _ (c', called) e' in
            subst (λ r. Numbered n r.0) (done_injective e'')
              (handled-Numbered n c rc' called' u
                (handle_response-IsHandled now c.messages_waiting rc' message called' handled))
      ]

  still-Numbered :
      (n : ℕ) (c c' : Client C)
      → Numbered n c
      → c'.messages_waiting.cache ≡ c.messages_waiting.cache
      → c'.message_id_counter ≡ c.message_id_counter
      → Numbered n c'
  still-Numbered n c c' u same counted = record {
    counter = counted ∙ u.counter;
    up_to = subst (UpTo n) (sym same) u.up_to;
  }

  close-Numbered :
      (n : ℕ) (c c' : Client C) (close_error : Option Bytes) (conns : List ℕ)
      (err : Option CallError)
      → IsSound c
      → Numbered n c
      → Config.close close_error c ≡ done (c', conns, err)
      → Numbered n c'
  close-Numbered n c c' close_error conns err ok u e =
      let (c'', _, _, closes, shut, _) = close-IsClosed close_error c ok.flag ok.pool in
      subst (Numbered n) (ap (λ r. r.0) (done_injective (sym closes ∙ e)))
        (still-Numbered n c c'' u shut.cache shut.counter)

  module _ ⦃hash : Hasher⦄ (addr_string : UdpAddr → Bytes) where
    step-Numbered :
        (n : ℕ) (c c' : Client C) (e : Event C) (called : List (Called C))
        → IsSound c
        → Numbered n c
        → n + length (given (e ∷ [])) < 2 ^ 32
        → step addr_string c e ≡ done (c', called)
        → Numbered (n + length (given (e ∷ []))) c'
    unfolding step
    step-Numbered n c c' (request env r cb) called ok u h e =
        let (s, sent, e') = bind-done (send_request addr_string env c r cb) _ (c', called) e in
        subst (λ x. Numbered (n + 1) x.0) (done_injective e')
          (requested-Numbered env.add_now n c cb s h u
            (send_request-IsRequested addr_string env c r cb s sent))
    step-Numbered n c c' (response now message) called ok u h e =
        rw (add-zero n) (receive-Numbered n c c' now message called u e)
    step-Numbered n c c' (cleanup now order) called ok u h e = rw (add-zero n) (
        subst (λ x. Numbered n x.0) (done_injective e)
          (record {
            counter = u.counter;
            up_to = UpTo-check_cleanup n now order c.messages_waiting u.up_to;
          }))
    step-Numbered n c c' (Event.listen err) called ok u h e =
        let l = open_conn-IsListening err c in
        rw (add-zero n) (
          subst (λ x. Numbered n x.0) (done_injective e)
            (still-Numbered n c _ u (ap (λ m. m.cache) l.messages_waiting) l.counter))
    step-Numbered n c c' (checked healthy unhealthy) called ok u h e =
        rw (add-zero n)
          (subst (λ x. Numbered n x.0) (done_injective e) (still-Numbered n c _ u refl refl))
    step-Numbered n c c' (Event.close close_error) called ok u h e =
        let ((c'', conns, err), closes, e') =
          bind-done (Config.close close_error c) _ (c', called) e in
        rw (add-zero n) (
          subst (λ x. Numbered n x.0) (done_injective e')
            (close-Numbered n c c'' close_error conns err ok u closes))

    run-Numbered :
        (n : ℕ) (c c' : Client C) (es : List (Event C)) (called : List (Called C))
        → IsSound c
        → Numbered n c
        → n + length (given es) < 2 ^ 32
        → run addr_string c es ≡ done (c', called)
        → Numbered (n + length (given es)) c'
    unfolding run
    run-Numbered n c c' [] called ok u h e =
        rw (add-zero n) (subst (λ x. Numbered n x.0) (done_injective e) u)
    run-Numbered n c c' (ev ∷ es) called ok u h e =
        let ((c1, called1), stepped, e1) = bind-done (step addr_string c ev) _ (c', called) e in
        let ((c2, called2), ran, e2) = bind-done (run addr_string c1 es) _ (c', called) e1 in
        let m = length (given (ev ∷ [])) in
        let size : length (given (ev ∷ es)) ≡ m + length (given es) =
          ap length (given-cons ev es) ∙ length-append (given (ev ∷ [])) (given es) in
        let sound = (step-Once (λ cb. true) addr_string c c1 ev called1 ok stepped).sound in
        let first = step-Numbered n c c1 ev called1 ok u (omega (arith, size, h)) stepped in
        let rest = run-Numbered (n + m) c1 c2 es called2 sound first (omega (arith, size, h)) ran in
        let total : n + m + length (given es) ≡ n + length (given (ev ∷ es)) =
          omega (arith, size) in
        subst (λ x. Numbered (n + length (given (ev ∷ es))) x.0) (done_injective e2)
          (subst (λ k. Numbered k c2) total rest)

    -- After any events on a client that `NewClient` made, with fewer than 2^32 - 1 requests, if the run
    -- returns, the counter has counted the requests, and the identifier of the next request is free: until
    -- the identifiers wrap, no request is refused because its identifier waits.
    pub run-next_id :
        (net : Parsers) (conf : Config.Config) (c c' : Client C) (es : List (Event C))
        (called : List (Called C))
        → Config.new_client net conf ≡ done c
        → run addr_string c es ≡ done (c', called)
        → 1 + length (given es) < 2 ^ 32
        → (c'.message_id_counter ≡ length (given es))
          × (find (next_id c'.message_id_counter) c'.messages_waiting.cache ≡ none)
    run-next_id net conf c c' es called made ran h =
        let new = new_client-IsNew net conf c made in
        let sound : IsSound c = record {
          is_map = rw new.cache tt;
          flag = new.flag ∙ sym new.disposed;
          pool = new.pool ∙ sym new.disposed;
        } in
        let first : Numbered 0 c = record { counter = new.counter; up_to = rw new.cache tt } in
        let counted : 0 + length (given es) ≡ length (given es) = omega arith in
        let last : Numbered (length (given es)) c' =
          subst (λ k. Numbered k c') counted
            (run-Numbered 0 c c' es called sound first (omega (arith, h)) ran) in
        (
          last.counter,
          find-UpTo (length (given es)) (next_id c'.message_id_counter) c'.messages_waiting.cache
              last.up_to (rw last.counter (omega (arith, h))),
        )
