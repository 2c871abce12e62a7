-- ===== src/Auth/Refresh/Guarantees.antt =====
-- What a client of the token store can rely on, after any history of calls, lost replies and waiting.
use uncord_server.Prelude.{
  ℕ, ◌≡◌, ◌≢◌, ◌∙◌, ap, Bool, false, ◌==◌, some, List, [], ◌∷◌, arith, Bytes, bytes_eq, Bool-cases,
  Option-cases, inl, inr, ok, All,
}
use uncord_server.Uuid.{Uuid, UuidText}
use uncord_server.Valkey.{Valkey}
use uncord_server.Valkey.Call.{World, call_keeps}
use uncord_server.Auth.Refresh.{
  refresh_key, user_refresh_key, remove_stale, create_script, rotate_script, revoke_all_script,
  create_refresh_token, validate_refresh_token, rotate_refresh_token, revoke_all_refresh_tokens,
}
use uncord_server.Auth.Refresh.Views.{stored, string-store_token, string-remove_stale}
use uncord_server.Auth.Refresh.Revoke.{revoke_all_script-string}
use uncord_server.Auth.Refresh.Safety.{
  create_script-IsSound, rotate_script-IsSound, revoke_all_script-IsSound, IsSound, elapse-IsSound,
  perform-IsSound, Operation, create, rotate, validate, revoke, perform, perform_all,
}
use uncord_server.Auth.Refresh.Replies.{validate_read, rotate_read, written_user, revoke-IsRevoked}

module _ (V : Valkey) (T : UuidText) where
  open V use {State, string_at, ttl, set, del, sadd, srem, expire, elapse}
  open T use {to_text, of_text}

  -- Whether the call gives the user a new token out of nothing: a login.
  abbrev pub logs_in : Uuid → Operation V T → Bool
  logs_in id (create id' token) = id' == id
  logs_in id _ = false

  record IsQuiet (lifetime : ℕ) (id : Uuid) (s : State) : Type 0 where
    sound : IsSound V T lifetime s
    gone : (t : Bytes) → string_at (refresh_key t) s ≢ some (to_text id)

  store_token-gone :
      (user token : Bytes) (lifetime : ℕ) (id : Uuid) (s : State)
      → user ≢ to_text id
      → ((t : Bytes) → string_at (refresh_key t) s ≢ some (to_text id))
      → (t : Bytes)
      → string_at
          (refresh_key t)
          (stored V user token lifetime (remove_stale V (user_refresh_key user) s))
        ≢ some (to_text id)
  store_token-gone user token lifetime id s other gone t live =
      elim (Bool-cases (bytes_eq token t)) [
        | inl same ↦ other (
            ground (
              arith,
              string-store_token V user token lifetime (remove_stale V (user_refresh_key user) s) t,
            ))
        | inr diff ↦ gone t (
            ground (
              arith,
              string-store_token V user token lifetime (remove_stale V (user_refresh_key user) s) t,
              string-remove_stale V (user_refresh_key user) s (refresh_key t),
            ))
      ]

  elapse-IsQuiet :
      (lifetime : ℕ) (id : Uuid) (n : ℕ) (s : State)
      → IsQuiet lifetime id s
      → IsQuiet lifetime id (elapse n s)
  elapse-IsQuiet lifetime id n s h = record {
    sound = elapse-IsSound V T lifetime n s h.sound;
    gone = λ t live. h.gone t (ground (arith, V.string-elapse n s (refresh_key t)));
  }

  to_text_ne : (a b : Uuid) → (a == b) ≡ false → to_text a ≢ to_text b
  to_text_ne a b h e = ground (arith, T.of_text-to_text a, T.of_text-to_text b, ap of_text e)

  create_script-IsQuiet :
      (lifetime : ℕ) (id other : Uuid) (token : Bytes) (s : State)
      → (other == id) ≡ false
      → IsQuiet lifetime id s
      → IsQuiet lifetime id (create_script V (to_text other) token lifetime s).1
  unfolding create_script
  create_script-IsQuiet lifetime id other token s ne h = record {
    sound = unfold create_script in create_script-IsSound V T other token lifetime s h.sound;
    gone = store_token-gone (to_text other) token lifetime id s (to_text_ne other id ne) h.gone;
  }

  rotate_script-IsQuiet :
      (lifetime : ℕ) (id : Uuid) (new old : Bytes) (s : State)
      → IsQuiet lifetime id s
      → IsQuiet lifetime id (rotate_script V old new lifetime s).1
  unfolding rotate_script
  rotate_script-IsQuiet lifetime id new old s h = record {
    sound = rotate_script-IsSound V T old new lifetime s h.sound;
    gone = elim (Option-cases (string_at (refresh_key old) s)) [
      | inl e ↦ rw (e, rotate_script) h.gone
      | inr (user, e) ↦
          rw (e, rotate_script)
            (store_token-gone user new lifetime id _ (λ same. h.gone old (e ∙ ap some same))
              (consumed old user s h.gone))
    ];
  }
    where
      consumed :
          (old user : Bytes) (s : State)
          → ((t : Bytes) → string_at (refresh_key t) s ≢ some (to_text id))
          → (t : Bytes)
          → string_at (refresh_key t) (srem (user_refresh_key user) old (del (refresh_key old) s))
            ≢ some (to_text id)
      consumed old user s gone t live = gone t (
          ground (
            arith,
            V.string-srem (user_refresh_key user) old (del (refresh_key old) s) (refresh_key t),
            V.string-del (refresh_key old) s (refresh_key t),
          ))

  revoke_all_script-IsQuiet :
      (lifetime : ℕ) (id : Uuid) (user : Bytes) (s : State)
      → IsQuiet lifetime id s
      → IsQuiet lifetime id (revoke_all_script V user s).1
  revoke_all_script-IsQuiet lifetime id user s h = record {
    sound = revoke_all_script-IsSound V T user lifetime s h.sound;
    gone = λ t live.
        h.gone t (revoke_all_script-string V lifetime user s h.sound.tracked t (to_text id) live).1;
  }

  perform-IsQuiet :
      (lifetime : ℕ) (id : Uuid) (o : Operation V T) (w : World State)
      → logs_in id o ≡ false
      → IsQuiet lifetime id w.server
      → IsQuiet lifetime id (perform V T lifetime o w).server
  unfolding perform create_refresh_token rotate_refresh_token validate_refresh_token
      revoke_all_refresh_tokens
  perform-IsQuiet lifetime id (create other token) w ne h =
      call_keeps elapse _ (IsQuiet lifetime id) (elapse-IsQuiet lifetime id)
        (λ s k. create_script-IsQuiet lifetime id other token s ne k) w h
  perform-IsQuiet lifetime id (rotate new old) w ne h =
      call_keeps elapse _ (IsQuiet lifetime id) (elapse-IsQuiet lifetime id)
        (rotate_script-IsQuiet lifetime id new old) w h
  perform-IsQuiet lifetime id (validate token) w ne h =
      call_keeps elapse _ (IsQuiet lifetime id) (elapse-IsQuiet lifetime id) (λ s k. k) w h
  perform-IsQuiet lifetime id (revoke other) w ne h =
      call_keeps elapse _ (IsQuiet lifetime id) (elapse-IsQuiet lifetime id)
        (revoke_all_script-IsQuiet lifetime id (to_text other)) w h

  perform_all-IsQuiet :
      (lifetime : ℕ) (id : Uuid) (os : List (Operation V T)) (w : World State)
      → All (λ o. logs_in id o ≡ false) os
      → IsQuiet lifetime id w.server
      → IsQuiet lifetime id (perform_all V T lifetime os w).server
  unfolding perform_all
  perform_all-IsQuiet lifetime id [] w ne h = h
  perform_all-IsQuiet lifetime id (o ∷ os) w ne h =
      perform_all-IsQuiet lifetime id os (perform V T lifetime o w) ne.1
        (perform-IsQuiet lifetime id o w ne.0 h)

  -- From a sound store: once a revocation for a user has succeeded, and until that user is given a
  -- token anew, no token validates as the user's and none can be rotated into one, whatever calls are
  -- made in between, failed ones included.
  pub revoke-validate :
      (lifetime : ℕ) (id : Uuid) (os : List (Operation V T)) (w : World State)
      → IsSound V T lifetime w.server
      → (revoke_all_refresh_tokens V T id w).0 ≡ ok tt
      → All (λ o. logs_in id o ≡ false) os
      → let w' = perform_all V T lifetime os (revoke_all_refresh_tokens V T id w).1 in
        ((t : Bytes) → (validate_refresh_token V T t w').0 ≢ ok id)
        × ((new old t : Bytes) → (rotate_refresh_token V T new old lifetime w').0 ≢ ok (t, id))
  revoke-validate lifetime id os w h done ne = (
    λ t got.
        let (s, q, user, at_key, parsed) =
          validate_read V T (IsQuiet lifetime id) (elapse-IsQuiet lifetime id) t _ id quiet got in
        q.gone t (at_key ∙ ap some (written_user V T s t user id q.sound.written at_key parsed)),
    λ new old t got.
        let (s, q, user, at_key, parsed, _, _) =
          rotate_read V T (IsQuiet lifetime id) (elapse-IsQuiet lifetime id) new old lifetime _
            (t, id) quiet got in
        q.gone old
          (at_key ∙ ap some (written_user V T s old user id q.sound.written at_key parsed)),
  )
    where
      quiet :
          IsQuiet lifetime id
            (perform_all V T lifetime os (revoke_all_refresh_tokens V T id w).1).server
      quiet = perform_all-IsQuiet lifetime id os (revoke_all_refresh_tokens V T id w).1 ne (record {
        sound = unfold perform in perform-IsSound V T lifetime (revoke id) w h;
        gone = (revoke-IsRevoked V T lifetime id w h done).gone;
      })
