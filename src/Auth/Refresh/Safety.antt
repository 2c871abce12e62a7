-- ===== src/Auth/Refresh/Safety.antt =====
-- What a client can rely on: a refresh token is good for one rotation, and a revocation reaches every
-- token of the user, after any history of calls, lost replies and waiting.
use uncord_server.Prelude.{
  ℕ, ◌≡◌, refl, some, List, [], ◌∷◌, arith, Bytes, bytes_eq, Bool-cases, Option-cases, inl, inr,
}
use uncord_server.Uuid.{Uuid, UuidText}
use uncord_server.Valkey.{Valkey}
use uncord_server.Valkey.Call.{World, call_keeps}
use uncord_server.Auth.Refresh.{
  refresh_key, user_refresh_key, remove_stale, create_script, rotate_script, revoke_all_script,
  create_refresh_token, validate_refresh_token, rotate_refresh_token, revoke_all_refresh_tokens,
}
use uncord_server.Auth.Refresh.Views.{stored, string-store_token, string-remove_stale}
use uncord_server.Auth.Refresh.Tracked.{IsTracked, create_script-IsTracked, rotate_script-IsTracked}
use uncord_server.Auth.Refresh.Revoke.{
  elapse-IsTracked, revoke_all_script-IsTracked, revoke_all_script-string,
}

module _ (V : Valkey) (T : UuidText) where
  open V use {State, string_at, ttl, set, del, sadd, srem, expire, elapse}
  open T use {to_text, of_text}

  -- Every token key holds the text of a user's UUID.
  abbrev pub IsWritten : State → Type 0
  IsWritten s =
      (t u : Bytes) → string_at (refresh_key t) s ≡ some u → (id : Uuid) × (u ≡ to_text id)

  -- The invariant of the token store, for tokens of one lifetime.
  pub record IsSound (lifetime : ℕ) (s : State) : Type 0 where
    pub tracked : IsTracked V lifetime s
    pub written :
        (t u : Bytes) → string_at (refresh_key t) s ≡ some u → (id : Uuid) × (u ≡ to_text id)

  pub store_token-IsWritten :
      (id : Uuid) (user token : Bytes) (lifetime : ℕ) (s : State)
      → user ≡ to_text id
      → IsWritten s
      → IsWritten (stored V user token lifetime (remove_stale V (user_refresh_key user) s))
  store_token-IsWritten id user token lifetime s is h t u live =
      elim (Bool-cases (bytes_eq token t)) [
        | inl same ↦ (
          id,
          ground (
            arith,
            string-store_token V user token lifetime (remove_stale V (user_refresh_key user) s) t,
          ),
        )
        | inr other ↦ h t u (
            ground (
              arith,
              string-store_token V user token lifetime (remove_stale V (user_refresh_key user) s) t,
              string-remove_stale V (user_refresh_key user) s (refresh_key t),
            ))
      ]

  pub consume-IsWritten :
      (user old : Bytes) (s : State)
      → IsWritten s
      → IsWritten (srem (user_refresh_key user) old (del (refresh_key old) s))
  consume-IsWritten user old s h t u live = h t u (
      ground (
        arith,
        V.string-srem (user_refresh_key user) old (del (refresh_key old) s) (refresh_key t),
        V.string-del (refresh_key old) s (refresh_key t),
      ))

  pub create_script-IsSound :
      (id : Uuid) (token : Bytes) (lifetime : ℕ) (s : State)
      → IsSound lifetime s
      → IsSound lifetime (create_script V (to_text id) token lifetime s).1
  unfolding create_script
  create_script-IsSound id token lifetime s h = record {
    tracked =
        unfold create_script in create_script-IsTracked V (to_text id) token lifetime s h.tracked;
    written = store_token-IsWritten id (to_text id) token lifetime s refl h.written;
  }

  pub rotate_script-IsSound :
      (old new : Bytes) (lifetime : ℕ) (s : State)
      → IsSound lifetime s
      → IsSound lifetime (rotate_script V old new lifetime s).1
  unfolding rotate_script
  rotate_script-IsSound old new lifetime s h = record {
    tracked = rotate_script-IsTracked V old new lifetime s h.tracked;
    written = elim (Option-cases (string_at (refresh_key old) s)) [
      | inl e ↦ rw (e, rotate_script) h.written
      | inr (user, e) ↦
          rw (e, rotate_script)
            (let (id, is) = h.written old user e in
              store_token-IsWritten id user new lifetime _ is
                (consume-IsWritten user old s h.written))
    ];
  }

  pub revoke_all_script-IsSound :
      (user : Bytes) (lifetime : ℕ) (s : State)
      → IsSound lifetime s
      → IsSound lifetime (revoke_all_script V user s).1
  revoke_all_script-IsSound user lifetime s h = record {
    tracked = revoke_all_script-IsTracked V lifetime user s h.tracked;
    written =
        λ t u live. h.written t u (revoke_all_script-string V lifetime user s h.tracked t u live).1;
  }

  pub elapse-IsSound :
      (lifetime n : ℕ) (s : State) → IsSound lifetime s → IsSound lifetime (elapse n s)
  elapse-IsSound lifetime n s h = record {
    tracked = elapse-IsTracked V lifetime n s h.tracked;
    written = λ t u live. h.written t u (ground (arith, V.string-elapse n s (refresh_key t)));
  }

  -- The calls that the service makes, each with the new token where it takes one.
  pub data Operation : Type 0 where
    create : Uuid → Bytes → Operation
    rotate : Bytes → Bytes → Operation
    validate : Bytes → Operation
    revoke : Uuid → Operation

  unfoldable pub perform : ℕ → Operation → World State → World State
  perform lifetime (create id token) w = (create_refresh_token V T token id lifetime w).1
  perform lifetime (rotate new old) w = (rotate_refresh_token V T new old lifetime w).1
  perform lifetime (validate token) w = (validate_refresh_token V T token w).1
  perform lifetime (revoke id) w = (revoke_all_refresh_tokens V T id w).1

  unfoldable pub perform_all : ℕ → List Operation → World State → World State
  perform_all lifetime [] w = w
  perform_all lifetime (o ∷ os) w = perform_all lifetime os (perform lifetime o w)

  pub perform-IsSound :
      (lifetime : ℕ) (o : Operation) (w : World State)
      → IsSound lifetime w.server
      → IsSound lifetime (perform lifetime o w).server
  unfolding perform create_refresh_token rotate_refresh_token validate_refresh_token
      revoke_all_refresh_tokens
  perform-IsSound lifetime (create id token) w h =
      call_keeps elapse _ (IsSound lifetime) (elapse-IsSound lifetime)
        (create_script-IsSound id token lifetime) w h
  perform-IsSound lifetime (rotate new old) w h =
      call_keeps elapse _ (IsSound lifetime) (elapse-IsSound lifetime)
        (rotate_script-IsSound old new lifetime) w h
  perform-IsSound lifetime (validate token) w h =
      call_keeps elapse _ (IsSound lifetime) (elapse-IsSound lifetime) (λ s k. k) w h
  perform-IsSound lifetime (revoke id) w h =
      call_keeps elapse _ (IsSound lifetime) (elapse-IsSound lifetime)
        (revoke_all_script-IsSound (to_text id) lifetime) w h

  -- Every history of calls keeps a sound store sound, whatever calls fail: each token key is tracked
  -- by its user's set, which lives at least as long, and holds the text of a UUID.
  pub perform_all-IsSound :
      (lifetime : ℕ) (os : List Operation) (w : World State)
      → IsSound lifetime w.server
      → IsSound lifetime (perform_all lifetime os w).server
  unfolding perform_all
  perform_all-IsSound lifetime [] w h = h
  perform_all-IsSound lifetime (o ∷ os) w h =
      perform_all-IsSound lifetime os (perform lifetime o w) (perform-IsSound lifetime o w h)
