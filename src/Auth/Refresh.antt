-- ===== src/Auth/Refresh.antt =====
-- internal/auth/refresh.go: refresh tokens in Valkey. Each script runs at once on the server; its
-- table of stale entries is a list here. A token is the text that `uuid.New` makes, an argument.
pub mod Views
pub mod Tracked
pub mod Revoke
pub mod Safety
pub mod Replies
pub mod Guarantees
pub mod SingleUse
use uncord_server.Prelude.{
  ℕ, Bool, true, false, not, Option, none, some, List, [], ◌∷◌, ◌++◌, map, Bytes, codes, length,
  keep_if, Result, ok, err, ◌>>=◌, context, refresh_token_reused, refresh_token_not_found,
}
use uncord_server.Uuid.{Uuid, UuidText}
use uncord_server.Valkey.{Valkey, is_some}
use uncord_server.Valkey.Call.{World, call}

abbrev pub refresh_key : Bytes → Bytes
refresh_key token = codes "refresh:" ++ token

-- `userRefreshKey` takes the UUID, the scripts its text.
abbrev pub user_refresh_key : Bytes → Bytes
user_refresh_key user = codes "user_refresh:" ++ user

module _ (V : Valkey) where
  open V use {State, string_at, members, set, del, sadd, srem, expire, elapse}

  -- The entries whose token key has expired.
  unfoldable pub stale_entries : State → List Bytes → List Bytes
  stale_entries s entries = keep_if (λ m. not (is_some (string_at (refresh_key m) s))) entries

  unfoldable pub srem_all : Bytes → List Bytes → State → State
  srem_all key [] s = s
  srem_all key (m ∷ ms) s = srem_all key ms (srem key m s)

  unfoldable pub del_all : List Bytes → State → State
  del_all [] s = s
  del_all (k ∷ ks) s = del_all ks (del k s)

  -- Both scripts collect the stale entries of the user's set and remove them,
  unfoldable pub remove_stale : Bytes → State → State
  remove_stale user_set s = srem_all user_set (stale_entries s (members user_set s)) s

  -- and end by storing the new token.
  unfoldable pub store_token : Bytes → Bytes → Bytes → ℕ → State → State
  store_token user_set user token ttl s =
      expire user_set ttl (sadd user_set token (set (refresh_key token) user ttl s))

  unfoldable pub create_script : Bytes → Bytes → ℕ → State → Unit {0} × State
  create_script user token ttl s = (
    tt,
    store_token (user_refresh_key user) user token ttl (remove_stale (user_refresh_key user) s),
  )

  unfoldable pub rotate_script : Bytes → Bytes → ℕ → State → Option Bytes × State
  rotate_script old_token new_token ttl s = elim (string_at (refresh_key old_token) s) [
    | none ↦ (none, s)
    | some user ↦
        let user_set = user_refresh_key user in
        let s1 = srem user_set old_token (del (refresh_key old_token) s) in
        (some user, store_token user_set user new_token ttl (remove_stale user_set s1))
  ]

  unfoldable pub revoke_all_script : Bytes → State → ℕ × State
  revoke_all_script user s =
      let tokens = members (user_refresh_key user) s in
      (length tokens, del (user_refresh_key user) (del_all (map refresh_key tokens) s))

  module _ (T : UuidText) where
    open T use {to_text, of_text}

    unfoldable pub create_refresh_token :
        Bytes → Uuid → ℕ → World State → Result Bytes × World State
    create_refresh_token token user_id ttl w =
        let (r, w') = call elapse (create_script (to_text user_id) token ttl) w in
        (context "create refresh token" r >>= λ _. ok token, w')

    -- A missing key is `redis.Nil`.
    unfoldable pub found_user : Option Bytes → Result Uuid
    found_user none = err refresh_token_not_found
    found_user (some user) = context "parse user ID from refresh token" (of_text user)

    unfoldable pub validate_refresh_token : Bytes → World State → Result Uuid × World State
    unfolding found_user
    validate_refresh_token token w =
        let (r, w') = call elapse (λ s. (string_at (refresh_key token) s, s)) w in
        (context "get refresh token" r >>= found_user, w')

    unfoldable pub rotated : Bytes → Option Bytes → Result (Bytes × Uuid)
    rotated new_token none = err refresh_token_reused
    rotated new_token (some user) = do
      user_id ← context "parse user ID from refresh token" (of_text user)
      ok (new_token, user_id)

    unfoldable pub rotate_refresh_token :
        Bytes → Bytes → ℕ → World State → Result (Bytes × Uuid) × World State
    unfolding rotated
    rotate_refresh_token new_token old_token ttl w =
        let (r, w') = call elapse (rotate_script old_token new_token ttl) w in
        (context "rotate refresh token" r >>= rotated new_token, w')

    unfoldable pub revoke_all_refresh_tokens : Uuid → World State → Result (Unit {0}) × World State
    revoke_all_refresh_tokens user_id w =
        let (r, w') = call elapse (revoke_all_script (to_text user_id)) w in
        (context "revoke refresh tokens" r >>= λ _. ok tt, w')
