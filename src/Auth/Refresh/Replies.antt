-- ===== src/Auth/Refresh/Replies.antt =====
-- What the replies of the token calls tell of the store.
use uncord_server.Prelude.{
  ℕ, ◌≡◌, ◌≢◌, refl, ◌∙◌, Option, none, some, arith, Bytes, bytes_eq_refl, Option-cases, inl, inr,
  ok, context, >>=-eq-ok, context-eq-ok,
}
use uncord_server.Uuid.{Uuid, UuidText}
use uncord_server.Valkey.{Valkey}
use uncord_server.Valkey.Call.{World, call, call_reply}
use uncord_server.Auth.Refresh.{
  refresh_key, rotate_script, revoke_all_script, validate_refresh_token, rotate_refresh_token,
  revoke_all_refresh_tokens, found_user, rotated,
}
use uncord_server.Auth.Refresh.Revoke.{revoke_all_script-string}
use uncord_server.Auth.Refresh.Safety.{IsWritten, IsSound, elapse-IsSound}

module _ (V : Valkey) (T : UuidText) where
  open V use {State, string_at, ttl, set, del, sadd, srem, expire, elapse}
  open T use {to_text, of_text}

  pub found_user-eq-ok :
      (o : Option Bytes) (id : Uuid)
      → found_user V T o ≡ ok id
      → (user : Bytes) × (o ≡ some user) × (of_text user ≡ ok id)
  unfolding found_user
  found_user-eq-ok none id h = cc
  found_user-eq-ok (some user) id h =
      (user, refl, context-eq-ok "parse user ID from refresh token" (of_text user) h)

  pub rotated-eq-ok :
      (new : Bytes) (o : Option Bytes) (x : Bytes × Uuid)
      → rotated V T new o ≡ ok x
      → (user : Bytes) × (o ≡ some user) × (of_text user ≡ ok x.1) × (x.0 ≡ new)
  unfolding rotated
  rotated-eq-ok new none x h = cc
  rotated-eq-ok new (some user) x h =
      let (id, got, e) =
        >>=-eq-ok (context "parse user ID from refresh token" (of_text user)) (λ id. ok (new, id))
          h in
      let parsed = context-eq-ok "parse user ID from refresh token" (of_text user) got in
      (user, refl, ground (arith, parsed, e), ground (arith, e))

  -- A reply that names a user is read from the key of the token.
  pub validate_read :
      (P : State → Type 0)
      → ((n : ℕ) (s : State) → P s → P (elapse n s))
      → (t : Bytes) (w : World State) (id : Uuid) → P w.server
      → (validate_refresh_token V T t w).0 ≡ ok id
      → (s : State) × P s
        × (user : Bytes) × (string_at (refresh_key t) s ≡ some user)
        × (of_text user ≡ ok id)
  unfolding validate_refresh_token
  validate_read P time t w id h got =
      let reply = call elapse (λ s. (string_at (refresh_key t) s, s)) w in
      let (o, c, f) = >>=-eq-ok (context "get refresh token" reply.0) (found_user V T) got in
      let (s, ps, e, _) =
        call_reply elapse (λ s. (string_at (refresh_key t) s, s)) P time w o h
          (context-eq-ok "get refresh token" reply.0 c) in
      let (user, is, parsed) = found_user-eq-ok o id f in (s, ps, user, e ∙ is, parsed)

  pub rotate_script-old :
      (old new : Bytes) (lifetime : ℕ) (s : State) (user : Bytes)
      → (rotate_script V old new lifetime s).0 ≡ some user
      → string_at (refresh_key old) s ≡ some user
  unfolding rotate_script
  rotate_script-old old new lifetime s user h =
      elim (Option-cases (string_at (refresh_key old) s)) [
        | inl e ↦ absurd (ground arith)
        | inr (u, e) ↦ e ∙ ground arith
      ]

  pub rotate_read :
      (P : State → Type 0)
      → ((n : ℕ) (s : State) → P s → P (elapse n s))
      → (new old : Bytes) (lifetime : ℕ) (w : World State) (x : Bytes × Uuid) → P w.server
      → (rotate_refresh_token V T new old lifetime w).0 ≡ ok x
      → (s : State) × P s
        × (user : Bytes) × (string_at (refresh_key old) s ≡ some user)
        × (of_text user ≡ ok x.1)
        × (x.0 ≡ new)
        × ((rotate_refresh_token V T new old lifetime w).1.server
            ≡ (rotate_script V old new lifetime s).1)
  unfolding rotate_refresh_token
  rotate_read P time new old lifetime w x h got =
      let reply = call elapse (rotate_script V old new lifetime) w in
      let (o, c, f) = >>=-eq-ok (context "rotate refresh token" reply.0) (rotated V T new) got in
      let (s, ps, e, after) =
        call_reply elapse (rotate_script V old new lifetime) P time w o h
          (context-eq-ok "rotate refresh token" reply.0 c) in
      let (user, is, parsed, same) = rotated-eq-ok new o x f in
      (s, ps, user, rotate_script-old old new lifetime s user (e ∙ is), parsed, same, after)

  -- No key holds a token of the user.
  pub record IsRevoked (id : Uuid) (s : State) : Type 0 where
    pub written : IsWritten V T s
    pub gone : (t : Bytes) → string_at (refresh_key t) s ≢ some (to_text id)

  pub elapse-IsRevoked :
      (id : Uuid) (n : ℕ) (s : State) → IsRevoked id s → IsRevoked id (elapse n s)
  elapse-IsRevoked id n s h = record {
    written = λ t u live. h.written t u (ground (arith, V.string-elapse n s (refresh_key t)));
    gone = λ t live. h.gone t (ground (arith, V.string-elapse n s (refresh_key t)));
  }

  -- A stored text that parses to a user is that user's.
  pub written_user :
      (s : State) (t user : Bytes) (id : Uuid)
      → IsWritten V T s
      → string_at (refresh_key t) s ≡ some user
      → of_text user ≡ ok id
      → user ≡ to_text id
  written_user s t user id h e parsed =
      let (id', is) = h t user e in ground (arith, is, parsed, T.of_text-to_text id')

  pub revoke-IsRevoked :
      (lifetime : ℕ) (id : Uuid) (w : World State)
      → IsSound V T lifetime w.server
      → (revoke_all_refresh_tokens V T id w).0 ≡ ok tt
      → IsRevoked id (revoke_all_refresh_tokens V T id w).1.server
  unfolding revoke_all_refresh_tokens
  revoke-IsRevoked lifetime id w h got =
      let reply = call elapse (revoke_all_script V (to_text id)) w in
      let (n, c, _) = >>=-eq-ok (context "revoke refresh tokens" reply.0) (λ _. ok tt) got in
      let (s, sound, _, after) =
        call_reply elapse (revoke_all_script V (to_text id)) (IsSound V T lifetime)
          (elapse-IsSound V T lifetime) w n h (context-eq-ok "revoke refresh tokens" reply.0 c) in
      rw after (record {
        written = λ t u live.
            sound.written t u
              (revoke_all_script-string V lifetime (to_text id) s sound.tracked t u live).1;
        gone = λ t live. ground (
          arith,
          (revoke_all_script-string V lifetime (to_text id) s sound.tracked t (to_text id) live).0,
          bytes_eq_refl (to_text id),
        );
      })
