-- ===== src/Presence/Typing.antt =====
-- Typing indicators: repeated calls are suppressed for ten seconds.
use uncord_server.Prelude.{
  ℕ, ◌≡◌, refl, ap, ◌∙◌, Bool, true, false, not, none, some, List, ◌∷◌, arith, Bytes, codes,
  Bool-cases, inl, inr, if◌then◌else◌, ltb, ok, context-eq-ok,
}
use uncord_server.Uuid.{Uuid, UuidText}
use uncord_server.Valkey.{Valkey, is_some}
use uncord_server.Valkey.Call.{World, Weather, answered, call, call_reply, call-answered}
use uncord_server.Presence.{typing_ttl, typing_key, set_nx, set_typing, clear_typing}
use uncord_server.Presence.Visible.{string-elapse-set}

module _ (V : Valkey) (T : UuidText) where
  open V use {State, string_at, ttl, set, del, elapse}

  set_nx-created :
      (key : Bytes) (s : State)
      → (set_nx V T key s).0 ≡ true
      → (set_nx V T key s).1 ≡ set key (codes "1") typing_ttl s
  unfolding set_nx
  set_nx-created key s h = elim (Bool-cases (is_some (string_at key s))) [
    | inl there ↦ absurd (ground arith)
    | inr missing ↦ rw (missing, set_nx) refl
  ]

  set_nx-is_some :
      (key : Bytes) (s : State) → (set_nx V T key s).0 ≡ not (is_some (string_at key s))
  unfolding set_nx
  set_nx-is_some key s = ground arith

  present_if : (b : Bool) (v : Bytes) → is_some (if b then some v else none) ≡ b
  present_if true v = refl
  present_if false v = refl

  set_typing-created :
      (c u : Uuid) (w : World State)
      → (set_typing V T c u w).0 ≡ ok true
      → (s : State) × ((set_typing V T c u w).1.server
          ≡ set (typing_key V T c u) (codes "1") typing_ttl s)
  unfolding set_typing
  set_typing-created c u w done =
      let command = set_nx V T (typing_key V T c u) in
      let (s, _, e, after) =
        call_reply elapse command (λ _. Unit {0}) (λ _ _ _. tt) w true tt
          (context-eq-ok "set typing" (call elapse command w).0 done) in
      (s, after ∙ set_nx-created (typing_key V T c u) s e)

  set_typing-answered :
      (c u : Uuid) (w : World State) (n : ℕ) (ws : List Weather)
      → w.schedule ≡ record { elapsed = n; link = answered } ∷ ws
      → (set_typing V T c u w).0 ≡ ok (set_nx V T (typing_key V T c u) (elapse n w.server)).0
  unfolding set_typing
  set_typing-answered c u w n ws e =
      rw (call-answered elapse (set_nx V T (typing_key V T c u)) w n ws e) refl

  clear_typing-answered :
      (c u : Uuid) (w : World State) (n : ℕ) (ws : List Weather)
      → w.schedule ≡ record { elapsed = n; link = answered } ∷ ws
      → (clear_typing V T c u w).0
        ≡ ok (is_some (string_at (typing_key V T c u) (elapse n w.server)))
  unfolding clear_typing
  clear_typing-answered c u w n ws e =
      rw
        (call-answered elapse
          (λ s. (is_some (string_at (typing_key V T c u) s), del (typing_key V T c u) s)) w n ws e)
        refl

  -- Once a call has announced that a user types, a call to clear it, if it is the next one and is
  -- answered, reports whether the indicator was still there: true before ten seconds have passed,
  -- false from then on.
  pub set_typing-clear_typing :
      (c u : Uuid) (n : ℕ) (ws : List Weather) (w : World State)
      → (set_typing V T c u w).0 ≡ ok true
      → (set_typing V T c u w).1.schedule ≡ record { elapsed = n; link = answered } ∷ ws
      → (clear_typing V T c u (set_typing V T c u w).1).0 ≡ ok (ltb n typing_ttl)
  set_typing-clear_typing c u n ws w done next =
      let key = typing_key V T c u in
      let (s, after) = set_typing-created c u w done in
      clear_typing-answered c u (set_typing V T c u w).1 n ws next
      ∙ ap ok (
          ap is_some (
            ap (λ t. string_at key (elapse n t)) after
            ∙ string-elapse-set V T key (codes "1") typing_ttl n s)
          ∙ present_if (ltb n typing_ttl) (codes "1"))

  -- Once a call has announced that a user types in a channel, the next one of the same user and
  -- channel, if it is answered, is suppressed before ten seconds have passed, and announces anew from
  -- then on.
  pub set_typing-set_typing :
      (c u : Uuid) (n : ℕ) (ws : List Weather) (w : World State)
      → (set_typing V T c u w).0 ≡ ok true
      → (set_typing V T c u w).1.schedule ≡ record { elapsed = n; link = answered } ∷ ws
      → (set_typing V T c u (set_typing V T c u w).1).0 ≡ ok (not (ltb n typing_ttl))
  set_typing-set_typing c u n ws w done next =
      let key = typing_key V T c u in
      let (s, after) = set_typing-created c u w done in
      set_typing-answered c u (set_typing V T c u w).1 n ws next
      ∙ ap ok (
          set_nx-is_some key _
          ∙ ap (λ o. not (is_some o))
              (ap (λ t. string_at key (elapse n t)) after
                ∙ string-elapse-set V T key (codes "1") typing_ttl n s)
          ∙ ap not (present_if (ltb n typing_ttl) (codes "1")))
