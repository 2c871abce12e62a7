-- ===== src/Auth/Ticket/Histories.antt =====
-- Histories of ticket calls, of both kinds, and what they keep of the keys.
use uncord_server.Prelude.{
  ℕ, ◌≡◌, refl, sym, All, Bool, true, false, ◌&&◌, inl, inr, some, List, [], ◌∷◌, arith, Bytes,
  bytes_eq, bytes_eq_iff, Bool-cases, Result,
}
use uncord_server.Uuid.{Uuid, UuidText}
use uncord_server.Valkey.{Valkey}
use uncord_server.Valkey.Call.{World, call_keeps}
use uncord_server.Auth.Ticket.{
  gateway_ticket_key, mfa_ticket_key, gateway_ticket_ttl, create_gateway_ticket, create_mfa_ticket,
  consume_gateway_ticket, consume_mfa_ticket,
}

pub data Kind : Type 0 where
  gateway mfa : Kind

abbrev pub same_kind : Kind → Kind → Bool
same_kind gateway gateway = true
same_kind mfa mfa = true
same_kind _ _ = false

abbrev pub ticket_key : Kind → Bytes → Bytes
ticket_key gateway t = gateway_ticket_key t
ticket_key mfa t = mfa_ticket_key t

pub data Operation : Type 0 where
  create_gateway : Uuid → Bytes → Operation
  create_mfa : Uuid → Bytes → ℕ → Operation
  consume : Kind → Bytes → Operation

-- The keys of the two kinds never meet.
pub ticket_key-bytes_eq :
    (j k : Kind) (a b : Bytes)
    → bytes_eq (ticket_key j a) (ticket_key k b) ≡ (same_kind j k && bytes_eq a b)
unfolding bytes_eq
ticket_key-bytes_eq gateway gateway a b = refl
ticket_key-bytes_eq gateway mfa a b = refl
ticket_key-bytes_eq mfa gateway a b = refl
ticket_key-bytes_eq mfa mfa a b = refl

same_ticket :
    (j k : Kind) (a b : Bytes)
    → bytes_eq (ticket_key j a) (ticket_key k b) ≡ true
    → (j ≡ k) × (a ≡ b)
same_ticket gateway gateway a b h =
    (refl, ground (arith, ticket_key-bytes_eq gateway gateway a b, bytes_eq_iff a b))
same_ticket gateway mfa a b h = absurd (ground (arith, ticket_key-bytes_eq gateway mfa a b))
same_ticket mfa gateway a b h = absurd (ground (arith, ticket_key-bytes_eq mfa gateway a b))
same_ticket mfa mfa a b h =
    (refl, ground (arith, ticket_key-bytes_eq mfa mfa a b, bytes_eq_iff a b))

module _ (V : Valkey) (T : UuidText) where
  open V use {State, string_at, set, del, elapse}
  open T use {to_text}

  unfoldable pub consume_ticket : Kind → Bytes → World State → Result Uuid × World State
  consume_ticket gateway t w = consume_gateway_ticket V T t w
  consume_ticket mfa t w = consume_mfa_ticket V T t w

  unfoldable pub perform : Operation → World State → World State
  unfolding consume_ticket
  perform (create_gateway id t) w = (create_gateway_ticket V T t id w).1
  perform (create_mfa id t ttl) w = (create_mfa_ticket V T t id ttl w).1
  perform (consume k t) w = (consume_ticket k t w).1

  unfoldable pub perform_all : List Operation → World State → World State
  unfolding perform
  perform_all [] w = w
  perform_all (o ∷ os) w = perform_all os (perform o w)

  -- Each string of a ticket key satisfies `P`.
  abbrev pub Strings : (Kind → Bytes → Bytes → Type 0) → State → Type 0
  Strings P s = (k : Kind) (t v : Bytes) → string_at (ticket_key k t) s ≡ some v → P k t v

  -- What an operation may write satisfies `P`.
  abbrev pub Writes : (Kind → Bytes → Bytes → Type 0) → Operation → Type 0
  Writes P (create_gateway id t) = P gateway t (to_text id)
  Writes P (create_mfa id t ttl) = P mfa t (to_text id)
  Writes P (consume k t) = Unit {0}

  module _ (P : Kind → Bytes → Bytes → Type 0) where
    pub elapse-Strings : (n : ℕ) (s : State) → Strings P s → Strings P (elapse n s)
    elapse-Strings n s h k t v live = h k t v (ground (arith, V.string-elapse n s (ticket_key k t)))

    pub set-Strings :
        (k : Kind) (t v : Bytes) (ttl : ℕ) (s : State)
        → P k t v
        → Strings P s
        → Strings P (set (ticket_key k t) v ttl s)
    set-Strings k t v ttl s new h k' t' v' live =
        elim (Bool-cases (bytes_eq (ticket_key k t) (ticket_key k' t'))) [
          | inl same ↦
              let (kinds, texts) = same_ticket k k' t t' same in
              rw (sym kinds, sym texts, written same) new
          | inr other ↦
              h k' t' v' (ground (arith, V.string-set (ticket_key k t) v ttl s (ticket_key k' t')))
        ]
      where
        written : bytes_eq (ticket_key k t) (ticket_key k' t') ≡ true → v' ≡ v
        written same = ground (arith, V.string-set (ticket_key k t) v ttl s (ticket_key k' t'))

    pub del-Strings : (key : Bytes) (s : State) → Strings P s → Strings P (del key s)
    del-Strings key s h k t v live = h k t v (ground (arith, V.string-del key s (ticket_key k t)))

    pub perform-Strings :
        (o : Operation) (w : World State)
        → Writes P o
        → Strings P w.server
        → Strings P (perform o w).server
    unfolding perform consume_ticket create_gateway_ticket create_mfa_ticket consume_gateway_ticket
        consume_mfa_ticket
    perform-Strings (create_gateway id t) w new h =
        call_keeps elapse _ (Strings P) elapse-Strings
          (λ s k. set-Strings gateway t (to_text id) gateway_ticket_ttl s new k) w h
    perform-Strings (create_mfa id t ttl) w new h =
        call_keeps elapse _ (Strings P) elapse-Strings
          (λ s k. set-Strings mfa t (to_text id) ttl s new k) w h
    perform-Strings (consume gateway t) w new h =
        call_keeps elapse _ (Strings P) elapse-Strings (del-Strings (gateway_ticket_key t)) w h
    perform-Strings (consume mfa t) w new h =
        call_keeps elapse _ (Strings P) elapse-Strings (del-Strings (mfa_ticket_key t)) w h

    pub perform_all-Strings :
        (os : List Operation) (w : World State)
        → All (Writes P) os
        → Strings P w.server
        → Strings P (perform_all os w).server
    unfolding perform_all
    perform_all-Strings [] w new h = h
    perform_all-Strings (o ∷ os) w new h =
        perform_all-Strings os (perform o w) new.1 (perform-Strings o w new.0 h)
