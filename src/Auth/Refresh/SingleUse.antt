-- ===== src/Auth/Refresh/SingleUse.antt =====
-- A refresh token is good for one rotation, which hands its user on to the new token.
use uncord_server.Prelude.{
  ℕ, ◌<◌, ◌≡◌, Bool, true, false, ◌⊎◌, none, some, List, [], ◌∷◌, map, arith, Bytes, bytes_eq,
  bytes_eq_refl, bytes_eq_iff, Option-cases, inl, inr, ok, err, wrap, failed, refresh_token_reused,
  All,
}
use uncord_server.Uuid.{Uuid, UuidText}
use uncord_server.Valkey.{Valkey}
use uncord_server.Valkey.Call.{World, Weather, answered, call_keeps, call_outcome, call-answered}
use uncord_server.Auth.Refresh.{
  refresh_key, user_refresh_key, remove_stale, create_script, rotate_script, revoke_all_script,
  create_refresh_token, validate_refresh_token, rotate_refresh_token, revoke_all_refresh_tokens,
  found_user, rotated, del_all,
}
use uncord_server.Auth.Refresh.Views.{
  refresh_key-bytes_eq, keys_apart', stored, string-store_token, string-remove_stale,
  token_ttl-store_token,
}
use uncord_server.Auth.Refresh.Revoke.{string-del_all}
use uncord_server.Auth.Refresh.Safety.{
  Operation, create, rotate, validate, revoke, perform, perform_all,
}
use uncord_server.Auth.Refresh.Replies.{rotate_read}

module _ (V : Valkey) (T : UuidText) where
  open V use {State, string_at, members, ttl, set, del, sadd, srem, expire, elapse}
  open T use {to_text, of_text}

  -- Whether the call stores this very token. A fresh UUID is no token of before.
  abbrev pub mints : Bytes → Operation V T → Bool
  mints token (create _ new) = bytes_eq new token
  mints token (rotate new _) = bytes_eq new token
  mints token _ = false

  abbrev pub IsSpent : Bytes → State → Type 0
  IsSpent token s = string_at (refresh_key token) s ≡ none

  pub elapse-IsSpent :
      (token : Bytes) (n : ℕ) (s : State) → IsSpent token s → IsSpent token (elapse n s)
  elapse-IsSpent token n s h = ground (arith, V.string-elapse n s (refresh_key token))

  store_token-IsSpent :
      (token user new : Bytes) (lifetime : ℕ) (s : State)
      → bytes_eq new token ≡ false
      → IsSpent token s
      → IsSpent token (stored V user new lifetime (remove_stale V (user_refresh_key user) s))
  store_token-IsSpent token user new lifetime s other h = ground (
    arith,
    string-store_token V user new lifetime (remove_stale V (user_refresh_key user) s) token,
    string-remove_stale V (user_refresh_key user) s (refresh_key token),
  )

  create_script-IsSpent :
      (token user new : Bytes) (lifetime : ℕ) (s : State)
      → bytes_eq new token ≡ false
      → IsSpent token s
      → IsSpent token (create_script V user new lifetime s).1
  unfolding create_script
  create_script-IsSpent = store_token-IsSpent

  consume-IsSpent :
      (token user old : Bytes) (s : State)
      → (bytes_eq old token ≡ true) ⊎ IsSpent token s
      → IsSpent token (srem (user_refresh_key user) old (del (refresh_key old) s))
  consume-IsSpent token user old s h = ground (
    arith,
    h,
    V.string-srem (user_refresh_key user) old (del (refresh_key old) s) (refresh_key token),
    V.string-del (refresh_key old) s (refresh_key token),
    refresh_key-bytes_eq old token,
  )

  -- A rotation spends the old token, found or not, and does not bring another back.
  rotate_script-IsSpent :
      (token old new : Bytes) (lifetime : ℕ) (s : State)
      → bytes_eq new token ≡ false
      → (bytes_eq old token ≡ true) ⊎ IsSpent token s
      → IsSpent token (rotate_script V old new lifetime s).1
  unfolding rotate_script
  rotate_script-IsSpent token old new lifetime s other h =
      elim (Option-cases (string_at (refresh_key old) s)) [
        | inl e ↦ rw (e, rotate_script) (ground (arith, h, e, bytes_eq_iff old token))
        | inr (user, e) ↦
            rw (e, rotate_script)
              (store_token-IsSpent token user new lifetime _ other
                (consume-IsSpent token user old s h))
      ]

  revoke_all_script-IsSpent :
      (token user : Bytes) (s : State)
      → IsSpent token s
      → IsSpent token (revoke_all_script V user s).1
  unfolding revoke_all_script
  revoke_all_script-IsSpent token user s h = ground (
    arith,
    V.string-del (user_refresh_key user)
        (del_all V (map refresh_key (members (user_refresh_key user) s)) s) (refresh_key token),
    string-del_all V (members (user_refresh_key user) s) s token,
    keys_apart' user token,
  )

  perform-IsSpent :
      (token : Bytes) (lifetime : ℕ) (o : Operation V T) (w : World State)
      → mints token o ≡ false
      → IsSpent token w.server
      → IsSpent token (perform V T lifetime o w).server
  unfolding perform create_refresh_token rotate_refresh_token validate_refresh_token
      revoke_all_refresh_tokens
  perform-IsSpent token lifetime (create id new) w ne h =
      call_keeps elapse _ (IsSpent token) (elapse-IsSpent token)
        (λ s. create_script-IsSpent token (to_text id) new lifetime s ne) w h
  perform-IsSpent token lifetime (rotate new old) w ne h =
      call_keeps elapse _ (IsSpent token) (elapse-IsSpent token)
        (λ s k. rotate_script-IsSpent token old new lifetime s ne (inr k)) w h
  perform-IsSpent token lifetime (validate t) w ne h =
      call_keeps elapse _ (IsSpent token) (elapse-IsSpent token) (λ s k. k) w h
  perform-IsSpent token lifetime (revoke id) w ne h =
      call_keeps elapse _ (IsSpent token) (elapse-IsSpent token)
        (revoke_all_script-IsSpent token (to_text id)) w h

  pub perform_all-IsSpent :
      (token : Bytes) (lifetime : ℕ) (os : List (Operation V T)) (w : World State)
      → All (λ o. mints token o ≡ false) os
      → IsSpent token w.server
      → IsSpent token (perform_all V T lifetime os w).server
  unfolding perform_all
  perform_all-IsSpent token lifetime [] w ne h = h
  perform_all-IsSpent token lifetime (o ∷ os) w ne h =
      perform_all-IsSpent token lifetime os (perform V T lifetime o w) ne.1
        (perform-IsSpent token lifetime o w ne.0 h)

  nothing_found :
      (token new : Bytes) (lifetime : ℕ) (s : State)
      → IsSpent token s
      → (rotate_script V token new lifetime s).0 ≡ none
  unfolding rotate_script
  nothing_found token new lifetime s spent = rw (spent, rotate_script)

  -- A spent token is refused as reused, unless the call fails.
  pub spent_refused :
      (token new : Bytes) (lifetime : ℕ) (w : World State)
      → IsSpent token w.server
      → ((rotate_refresh_token V T new token lifetime w).0 ≡ err refresh_token_reused)
        ⊎ ((rotate_refresh_token V T new token lifetime w).0
            ≡ err (wrap "rotate refresh token" failed))
  unfolding rotate_refresh_token rotated
  spent_refused token new lifetime w h =
      elim (call_outcome elapse (rotate_script V token new lifetime) (IsSpent token)
        (elapse-IsSpent token) w h) [
          | inl (s, spent, e) ↦ inl (ground (arith, e, nothing_found token new lifetime s spent))
          | inr e ↦ inr (ground (arith, e))
        ]

  pub rotate-IsSpent :
      (old new : Bytes) (lifetime : ℕ) (w : World State) (x : Bytes × Uuid)
      → bytes_eq new old ≡ false
      → (rotate_refresh_token V T new old lifetime w).0 ≡ ok x
      → IsSpent old (rotate_refresh_token V T new old lifetime w).1.server
  rotate-IsSpent old new lifetime w x fresh done =
      let (s, _, _, _, _, _, after) =
        rotate_read V T (λ _. Unit {0}) (λ _ _ _. tt) new old lifetime w x tt done in
      rw after (rotate_script-IsSpent old old new lifetime s fresh (inl (bytes_eq_refl old)))

  -- Once a rotation of a token into a different one has succeeded, every later one of the same token
  -- is refused as a reuse or fails for the connection, whatever calls are made in between that do not
  -- store that very token anew.
  pub rotate-rotate :
      (old new again : Bytes) (lifetime : ℕ) (os : List (Operation V T)) (w : World State)
      (x : Bytes × Uuid)
      → bytes_eq new old ≡ false
      → (rotate_refresh_token V T new old lifetime w).0 ≡ ok x
      → All (λ o. mints old o ≡ false) os
      → let w' = perform_all V T lifetime os (rotate_refresh_token V T new old lifetime w).1 in
        ((rotate_refresh_token V T again old lifetime w').0 ≡ err refresh_token_reused)
        ⊎ ((rotate_refresh_token V T again old lifetime w').0
            ≡ err (wrap "rotate refresh token" failed))
  rotate-rotate old new again lifetime os w x fresh done ne =
      spent_refused old again lifetime _
        (perform_all-IsSpent old lifetime os _ ne (rotate-IsSpent old new lifetime w x fresh done))

  rotate_script-new :
      (old new user : Bytes) (lifetime : ℕ) (s : State)
      → string_at (refresh_key old) s ≡ some user
      → (string_at (refresh_key new) (rotate_script V old new lifetime s).1 ≡ some user)
        × (ttl (refresh_key new) (rotate_script V old new lifetime s).1 ≡ some lifetime)
  unfolding rotate_script
  rotate_script-new old new user lifetime s e =
      let before =
        remove_stale V (user_refresh_key user)
          (srem (user_refresh_key user) old (del (refresh_key old) s)) in
      rw (e, rotate_script)
        (
          ground (arith, string-store_token V user new lifetime before new, bytes_eq_refl new),
          ground (arith, token_ttl-store_token V user new lifetime before new, bytes_eq_refl new),
        )

  still_there :
      (k user : Bytes) (lifetime n : ℕ) (s : State)
      → string_at k s ≡ some user
      → ttl k s ≡ some lifetime
      → n < lifetime
      → string_at k (elapse n s) ≡ some user
  still_there k user lifetime n s e l h = ground (arith, V.string-elapse n s k)

  -- A successful rotation returns the new token, and if the next call is answered within the
  -- lifetime, validation of the new token gives the user that the rotation returned.
  pub rotate-validate :
      (old new : Bytes) (lifetime n : ℕ) (ws : List Weather) (w : World State) (x : Bytes × Uuid)
      → (rotate_refresh_token V T new old lifetime w).0 ≡ ok x
      → (rotate_refresh_token V T new old lifetime w).1.schedule
        ≡ record { elapsed = n; link = answered } ∷ ws
      → n < lifetime
      → (x.0 ≡ new)
        × ((validate_refresh_token V T new (rotate_refresh_token V T new old lifetime w).1).0
            ≡ ok x.1)
  unfolding validate_refresh_token found_user
  rotate-validate old new lifetime n ws w x done next h =
      let w1 = (rotate_refresh_token V T new old lifetime w).1 in
      let (s, _, user, was, parsed, same, after) =
        rotate_read V T (λ _. Unit {0}) (λ _ _ _. tt) new old lifetime w x tt done in
      let (there, left) = rotate_script-new old new user lifetime s was in
      let live : string_at (refresh_key new) (elapse n w1.server) ≡ some user =
        still_there (refresh_key new) user lifetime n w1.server (rw after there) (rw after left)
          h in
      (
        same,
        ground (
          arith,
          call-answered elapse (λ s. (string_at (refresh_key new) s, s)) w1 n ws next,
          live,
          parsed,
        ),
      )
