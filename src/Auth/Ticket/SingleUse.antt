-- ===== src/Auth/Ticket/SingleUse.antt =====
-- A ticket is good for one use, and within its lifetime it is good.
use uncord_server.Prelude.{
  ℕ, ◌≡◌, refl, sym, ap, ◌∙◌, Bool, true, false, ◌&&◌, ◌⊎◌, inl, inr, All, All-imp, Option, none,
  some, List, arith, Bytes, bytes_eq, bytes_eq_refl, ok, err, wrap, failed, invalid_token, ◌>>=◌,
  context, >>=-eq-ok, context-eq-ok,
}
use Prim.Native.String.{String}
use uncord_server.Uuid.{Uuid, UuidText}
use uncord_server.Valkey.{Valkey}
use uncord_server.Valkey.Call.{World, call, call_reply, call_outcome}
use uncord_server.Auth.Ticket.{ticket_user, get_del, consume_gateway_ticket, consume_mfa_ticket}
use uncord_server.Auth.Ticket.Histories.{
  Kind, gateway, mfa, same_kind, ticket_key, ticket_key-bytes_eq, Operation, create_gateway,
  create_mfa, consume, consume_ticket, perform_all, Strings, Writes, elapse-Strings,
  perform_all-Strings,
}

-- The texts of the errors.
abbrev pub consume_text : Kind → String
consume_text gateway = "consume gateway ticket"
consume_text mfa = "consume MFA ticket"

abbrev pub parse_text : Kind → String
parse_text gateway = "parse user ID from gateway ticket"
parse_text mfa = "parse user ID from MFA ticket"

-- The operation creates this very ticket.
abbrev pub mints : Kind → Bytes → Operation → Bool
mints k t (create_gateway id t') = same_kind k gateway && bytes_eq t t'
mints k t (create_mfa id t' ttl) = same_kind k mfa && bytes_eq t t'
mints k t (consume k' t') = false

module _ (V : Valkey) (T : UuidText) where
  open V use {State, string_at, ttl, set, del, elapse}
  open T use {to_text, of_text}

  -- Both functions, over the kind.
  pub consume_ticket-result :
      (k : Kind) (t : Bytes) (w : World State)
      → (consume_ticket V T k t w).0 ≡ (
          context (consume_text k) (call elapse (get_del V T (ticket_key k t)) w).0
          >>= ticket_user V T (parse_text k))
  unfolding consume_ticket consume_gateway_ticket consume_mfa_ticket
  consume_ticket-result gateway t w = refl
  consume_ticket-result mfa t w = refl

  pub consume_ticket-server :
      (k : Kind) (t : Bytes) (w : World State)
      → (consume_ticket V T k t w).1 ≡ (call elapse (get_del V T (ticket_key k t)) w).1
  unfolding consume_ticket consume_gateway_ticket consume_mfa_ticket
  consume_ticket-server gateway t w = refl
  consume_ticket-server mfa t w = refl

  pub ticket_user-eq-ok :
      (what : String) (o : Option Bytes) (id : Uuid)
      → ticket_user V T what o ≡ ok id
      → (v : Bytes) × (o ≡ some v) × (of_text v ≡ ok id)
  unfolding ticket_user
  ticket_user-eq-ok what none id h = cc
  ticket_user-eq-ok what (some v) id h = (v, refl, context-eq-ok what (of_text v) h)

  -- What a consumed ticket tells of the server that it was read from.
  pub consumed :
      (P : State → Type 0)
      → ((n : ℕ) (s : State) → P s → P (elapse n s))
      → (k : Kind) (t : Bytes) (w : World State) (id : Uuid) → P w.server
      → (consume_ticket V T k t w).0 ≡ ok id
      → (s : State) × P s
        × (v : Bytes) × (string_at (ticket_key k t) s ≡ some v)
        × (of_text v ≡ ok id)
        × ((consume_ticket V T k t w).1.server ≡ del (ticket_key k t) s)
  consumed P time k t w id h done =
      let reply = call elapse (get_del V T (ticket_key k t)) w in
      let (o, got, parsed) =
        >>=-eq-ok (context (consume_text k) reply.0) (ticket_user V T (parse_text k))
          (sym (consume_ticket-result k t w) ∙ done) in
      let (s, p, e, after) =
        call_reply elapse (get_del V T (ticket_key k t)) P time w o h
          (context-eq-ok (consume_text k) reply.0 got) in
      let (v, there, is) = ticket_user-eq-ok (parse_text k) o id parsed in
      (s, p, v, e ∙ there, is, ap (λ x. x.server) (consume_ticket-server k t w) ∙ after)

  -- No key of this very ticket.
  abbrev Other : Kind → Bytes → Kind → Bytes → Bytes → Type 0
  Other k t k' t' v = (same_kind k k' && bytes_eq t t') ≡ false

  del-Other : (k : Kind) (t : Bytes) (s : State) → Strings V T (Other k t) (del (ticket_key k t) s)
  del-Other k t s k' t' v live =
      ground
        (arith, V.string-del (ticket_key k t) s (ticket_key k' t'), ticket_key-bytes_eq k k' t t')

  Writes-Other :
      (k : Kind) (t : Bytes) (o : Operation) → mints k t o ≡ false → Writes V T (Other k t) o
  Writes-Other k t (create_gateway id t') h = h
  Writes-Other k t (create_mfa id t' ttl) h = h
  Writes-Other k t (consume k' t') h = tt

  same_kind_refl : (k : Kind) → same_kind k k ≡ true
  same_kind_refl gateway = refl
  same_kind_refl mfa = refl

  nothing_there :
      (k : Kind) (t : Bytes) (s : State) (o : Option Bytes)
      → Strings V T (Other k t) s
      → string_at (ticket_key k t) s ≡ o
      → o ≡ none
  nothing_there k t s none h e = refl
  nothing_there k t s (some v) h e =
      absurd (ground (arith, h k t v e, same_kind_refl k, bytes_eq_refl t))

  refused :
      (k : Kind) (t : Bytes) (w : World State)
      → Strings V T (Other k t) w.server
      → ((consume_ticket V T k t w).0 ≡ err invalid_token)
        ⊎ ((consume_ticket V T k t w).0 ≡ err (wrap (consume_text k) failed))
  unfolding ticket_user
  refused k t w h =
      elim (call_outcome elapse (get_del V T (ticket_key k t)) (Strings V T (Other k t))
        (elapse-Strings V T (Other k t)) w h) [
          | inl (s, gone, e) ↦
              inl (rw (consume_ticket-result k t w, e, nothing_there k t s _ gone refl) refl)
          | inr e ↦ inr (rw (consume_ticket-result k t w, e) refl)
        ]

  -- Once a ticket has been consumed, every later attempt to consume it is refused as invalid or fails
  -- for the connection, whatever ticket calls of both kinds are made in between that do not create
  -- that very ticket anew.
  pub consume-consume :
      (k : Kind) (t : Bytes) (id : Uuid) (os : List Operation) (w : World State)
      → (consume_ticket V T k t w).0 ≡ ok id
      → All (λ o. mints k t o ≡ false) os
      → let w' = perform_all V T os (consume_ticket V T k t w).1 in
        ((consume_ticket V T k t w').0 ≡ err invalid_token)
        ⊎ ((consume_ticket V T k t w').0 ≡ err (wrap (consume_text k) failed))
  consume-consume k t id os w done fresh = refused k t _ (
      perform_all-Strings V T (Other k t) os _ (All-imp os (λ o. Writes-Other k t o) fresh) (
        let (s, _, _, _, _, after) = consumed (λ _. Unit {0}) (λ _ _ _. tt) k t w id tt done in
        rw after (del-Other k t s)))
