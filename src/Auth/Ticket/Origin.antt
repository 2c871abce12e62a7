-- ===== src/Auth/Ticket/Origin.antt =====
-- Where tickets come from, and that a fresh one is accepted.
use uncord_server.Prelude.{
  ℕ, ◌<◌, ◌≡◌, refl, ap, Bool, true, false, ◌&&◌, ◌||◌, All, All-imp, some, List, [], ◌∷◌, arith,
  Bytes, bytes_eq, bytes_eq_refl, ◌==◌, ok, context, >>=-eq-ok, context-eq-ok,
}
use uncord_server.Uuid.{Uuid, UuidText}
use uncord_server.Valkey.{Valkey}
use uncord_server.Valkey.Call.{World, Weather, answered, call, call_reply, call-answered}
use uncord_server.Auth.Ticket.{
  gateway_ticket_key, gateway_ticket_ttl, create_gateway_ticket, ticket_user, get_del,
  consume_gateway_ticket,
}
use uncord_server.Auth.Ticket.Histories.{
  Kind, gateway, mfa, same_kind, Operation, create_gateway, create_mfa, consume, consume_ticket,
  perform_all, Strings, Writes, elapse-Strings, perform_all-Strings,
}
use uncord_server.Auth.Ticket.SingleUse.{consumed}

-- Some operation of the history creates this ticket, of this kind, for this user.
abbrev pub issues : Kind → Bytes → Uuid → Operation → Bool
issues k t id (create_gateway id' t') = same_kind k gateway && bytes_eq t t' && id == id'
issues k t id (create_mfa id' t' ttl) = same_kind k mfa && bytes_eq t t' && id == id'
issues k t id (consume k' t') = false

abbrev pub issued : Kind → Bytes → Uuid → List Operation → Bool
issued k t id [] = false
issued k t id (o ∷ os) = issues k t id o || issued k t id os

module _ (V : Valkey) (T : UuidText) where
  open V use {State, string_at, ttl, set, del, elapse}
  open T use {to_text, of_text}

  -- A string that some creation of the history wrote.
  abbrev Issued : List Operation → Kind → Bytes → Bytes → Type 0
  Issued os k t v = (id : Uuid) × (v ≡ to_text id) × (issued k t id os ≡ true)

  Issued-later :
      (o : Operation) (os : List Operation) (k : Kind) (t v : Bytes)
      → Issued os k t v
      → Issued (o ∷ os) k t v
  Issued-later o os k t v (id, e, h) = (id, e, ground arith)

  Writes-later :
      (x : Operation) (os : List Operation) (o : Operation)
      → Writes V T (Issued os) o
      → Writes V T (Issued (x ∷ os)) o
  Writes-later x os (create_gateway id t) h = Issued-later x os gateway t (to_text id) h
  Writes-later x os (create_mfa id t ttl) h = Issued-later x os mfa t (to_text id) h
  Writes-later x os (consume k t) h = tt

  Writes-first : (o : Operation) (os : List Operation) → Writes V T (Issued (o ∷ os)) o
  Writes-first (create_gateway id t) os = (id, refl, ground (arith, bytes_eq_refl t))
  Writes-first (create_mfa id t ttl) os = (id, refl, ground (arith, bytes_eq_refl t))
  Writes-first (consume k t) os = tt

  Writes-Issued : (os : List Operation) → All (Writes V T (Issued os)) os
  Writes-Issued [] = tt
  Writes-Issued (o ∷ os) =
      (Writes-first o os, All-imp os (λ x. Writes-later o os x) (Writes-Issued os))

  -- From a server without tickets: whoever is let in by a ticket, by that very ticket of that kind some
  -- call of the history was to create for that user. So an MFA ticket never opens the gateway.
  pub consume-issued :
      (os : List Operation) (k : Kind) (t : Bytes) (id : Uuid) (w : World State)
      → Strings V T (λ _ _ _. ⊥) w.server
      → (consume_ticket V T k t (perform_all V T os w)).0 ≡ ok id
      → issued k t id os ≡ true
  consume-issued os k t id w none_yet done =
      let (s, from, v, there, parsed, _) =
        consumed V T (Strings V T (Issued os)) (elapse-Strings V T (Issued os)) k t
          (perform_all V T os w) id
          (perform_all-Strings V T (Issued os) os w (Writes-Issued os)
            (λ k' t' v' live. absurd (none_yet k' t' v' live)))
          done in
      let (id', text, made) = from k t v there in
      ground (arith, T.of_text-to_text id', ap of_text text)

  fresh_ticket :
      (key : Bytes) (v : Bytes) (lifetime n : ℕ) (s : State)
      → n < lifetime
      → string_at key (elapse n (set key v lifetime s)) ≡ some v
  fresh_ticket key v lifetime n s h = ground (
    arith,
    V.string-elapse n (set key v lifetime s) key,
    V.string-set key v lifetime s key,
    V.ttl-set key v lifetime s key,
    bytes_eq_refl key,
  )

  -- A created gateway ticket is accepted, and gives its user, if the next call is answered within its
  -- thirty seconds.
  pub create-consume_gateway :
      (t : Bytes) (id : Uuid) (n : ℕ) (ws : List Weather) (w : World State)
      → (create_gateway_ticket V T t id w).0 ≡ ok t
      → (create_gateway_ticket V T t id w).1.schedule ≡ record { elapsed = n; link = answered } ∷ ws
      → n < gateway_ticket_ttl
      → (consume_gateway_ticket V T t (create_gateway_ticket V T t id w).1).0 ≡ ok id
  unfolding create_gateway_ticket consume_gateway_ticket ticket_user
  create-consume_gateway t id n ws w done next h =
      let command : State → Unit {0} × State =
        λ s. (tt, set (gateway_ticket_key t) (to_text id) gateway_ticket_ttl s) in
      let (a, got, _) =
        >>=-eq-ok (context "store gateway ticket" (call elapse command w).0) (λ _. ok t) done in
      let (s, _, _, after) =
        call_reply elapse command (λ _. Unit {0}) (λ _ _ _. tt) w a tt
          (context-eq-ok "store gateway ticket" (call elapse command w).0 got) in
      rw
        (
          call-answered elapse (get_del V T (gateway_ticket_key t)) (call elapse command w).1 n ws
              next,
          after,
          fresh_ticket (gateway_ticket_key t) (to_text id) gateway_ticket_ttl n s h,
          T.of_text-to_text id,
        )
        refl
