-- ===== src/Client/Responses/Cases.antt =====
-- client/client.go: a response takes at most one callback out of the cache, and calls at most that.
use dracula.Client.Cache.Cases.{pulled_entry, pull-cases}
use dracula.Protocol.Packet.{parse_packet, Error, Packet}
use dracula.Prelude.Int.{ℤ}
use dracula.Client.Responses.{
  respond_to, Called, handle_parsed, pulled, handle_response, handle_packet,
}
use dracula.Client.Cache.{is_expired, delete, find, Waiting, ResponseCache}
use dracula.Prelude.{
  ltb, done_injective, subst, Bool-cases, some, inr, ℕ, none, inl, ◌⊎◌, bind-done, done, [], Bytes,
  Option, List, refl, ◌≡◌,
}

module _ {C : Type 0} where
  -- What a response leaves of the cache, and the calls that it makes.
  abbrev pub IsHandled : ResponseCache C → ResponseCache C → List (Called C) → Type 0
  IsHandled rc rc' called =
      (rc' ≡ rc) × (called ≡ [])
      ⊎ ((id : ℕ) × (w : Waiting C) × (find id rc.cache ≡ some w)
          × (rc' ≡ record rc { cache = delete id rc.cache })
          × ((called ≡ []) ⊎ ((packet : Packet) × (called ≡ respond_to packet w.callback))))

  pulled-cases :
      (now : ℤ) (rc : ResponseCache C) (packet : Packet) (w : Waiting C)
      → (pulled packet (pulled_entry now rc w) ≡ [])
        ⊎ ((q : Packet) × (pulled packet (pulled_entry now rc w) ≡ respond_to q w.callback))
  unfolding pulled
  pulled-cases now rc packet w = elim (Bool-cases (is_expired now rc w)) [
    | inl late ↦ inl (rw late)
    | inr fresh ↦ inr (packet, rw fresh)
  ]

  handle_packet-IsHandled :
      (now : ℤ) (rc : ResponseCache C) (packet : Packet)
      → IsHandled rc (handle_packet now rc packet).0 (handle_packet now rc packet).1
  unfolding handle_packet pulled
  handle_packet-IsHandled now rc packet = elim (pull-cases now packet.message_id rc) [
    | inl (absent, e) ↦ rw e (inl (refl, refl))
    | inr (w, found, e) ↦
        rw e (inr (packet.message_id, w, found, refl, pulled-cases now rc packet w))
  ]

  handle_parsed-IsHandled :
      (now : ℤ) (rc rc' : ResponseCache C) (packet : Option Packet) (err : Option Error)
      (called : List (Called C))
      → handle_parsed now rc packet err ≡ done (rc', called)
      → IsHandled rc rc' called
  unfolding handle_parsed
  handle_parsed-IsHandled now rc rc' none none called e = absurd (cc)
  handle_parsed-IsHandled now rc rc' none (some err) called e = inl (cc, cc)
  handle_parsed-IsHandled now rc rc' (some packet) none called e =
      subst (λ r. IsHandled rc r.0 r.1) (done_injective e) (handle_packet-IsHandled now rc packet)
  handle_parsed-IsHandled now rc rc' (some packet) (some err) called e =
      elim (Bool-cases (ltb 0 packet.message_id)) [
        | inl numbered ↦
            subst (λ r. IsHandled rc r.0 r.1) (done_injective (rw numbered at e))
              (handle_packet-IsHandled now rc packet)
        | inr unnumbered ↦
            subst (λ r. IsHandled rc r.0 r.1) (done_injective (rw unnumbered at e))
              (inl (refl, refl))
      ]

  pub handle_response-IsHandled :
      (now : ℤ) (rc rc' : ResponseCache C) (message : Bytes) (called : List (Called C))
      → handle_response now rc message ≡ done (rc', called)
      → IsHandled rc rc' called
  unfolding handle_response
  handle_response-IsHandled now rc rc' message called e =
      let ((packet, err), _, e') = bind-done (parse_packet message) _ (rc', called) e in
      handle_parsed-IsHandled now rc rc' packet err called e'
