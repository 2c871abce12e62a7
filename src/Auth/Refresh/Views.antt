-- ===== src/Auth/Refresh/Views.antt =====
-- What the scripts of internal/auth/refresh.go leave under each key.
use uncord_server.Prelude.{
  ℕ, ◌≡◌, refl, ◌∙◌, true, false, not, ◌&&◌, ◌||◌, some, List, [], ◌∷◌, arith, Bytes, bytes_eq,
  bytes_eq_refl, bytes_eq_iff, if◌then◌else◌,
}
use uncord_server.Valkey.{Valkey, is_some, has_bytes}
use uncord_server.Auth.Refresh.{
  refresh_key, user_refresh_key, stale_entries, srem_all, remove_stale, store_token,
}

pub refresh_key-bytes_eq : (a b : Bytes) → bytes_eq (refresh_key a) (refresh_key b) ≡ bytes_eq a b
unfolding bytes_eq
refresh_key-bytes_eq a b = refl

pub user_refresh_key-bytes_eq :
    (a b : Bytes) → bytes_eq (user_refresh_key a) (user_refresh_key b) ≡ bytes_eq a b
unfolding bytes_eq
user_refresh_key-bytes_eq a b = refl

pub keys_apart : (a b : Bytes) → bytes_eq (refresh_key a) (user_refresh_key b) ≡ false
unfolding bytes_eq
keys_apart a b = refl

pub keys_apart' : (a b : Bytes) → bytes_eq (user_refresh_key a) (refresh_key b) ≡ false
unfolding bytes_eq
keys_apart' a b = refl

module _ (V : Valkey) where
  open V use {State, string_at, members, ttl, set, del, sadd, srem, expire, elapse}

  pub stale_expired :
      (s : State) (t : Bytes) (xs : List Bytes)
      → has_bytes t (stale_entries V s xs) ≡ true
      → is_some (string_at (refresh_key t) s) ≡ false
  unfolding stale_entries
  stale_expired s t [] h = cc
  stale_expired s t (x ∷ xs) h = ground (arith, stale_expired s t xs, bytes_eq_iff x t)

  pub string-srem_all :
      (k : Bytes) (xs : List Bytes) (s : State) (j : Bytes)
      → string_at j (srem_all V k xs s) ≡ string_at j s
  unfolding srem_all
  string-srem_all k [] s j = refl
  string-srem_all k (x ∷ xs) s j = string-srem_all k xs (srem k x s) j ∙ V.string-srem k x s j

  pub string-remove_stale :
      (k : Bytes) (s : State) (j : Bytes) → string_at j (remove_stale V k s) ≡ string_at j s
  unfolding remove_stale
  string-remove_stale k s j = string-srem_all k (stale_entries V s (members k s)) s j

  pub ttl-srem_all :
      (k : Bytes) (xs : List Bytes) (s : State) (j : Bytes)
      → bytes_eq k j ≡ false
      → ttl j (srem_all V k xs s) ≡ ttl j s
  unfolding srem_all
  ttl-srem_all k [] s j h = refl
  ttl-srem_all k (x ∷ xs) s j h = ttl-srem_all k xs (srem k x s) j h ∙ V.ttl-srem k x s j h

  pub member-srem_all :
      (k : Bytes) (xs : List Bytes) (s : State) (j x : Bytes)
      → has_bytes x (members j (srem_all V k xs s))
        ≡ (not (bytes_eq k j && has_bytes x xs) && has_bytes x (members j s))
  unfolding srem_all
  member-srem_all k [] s j x = ground arith
  member-srem_all k (y ∷ xs) s j x =
      ground (arith, member-srem_all k xs (srem k y s) j x, V.member-srem k y s j x)

  -- Removing the stale entries keeps every entry whose token is live.
  pub member-remove_stale :
      (k : Bytes) (s : State) (j t : Bytes)
      → is_some (string_at (refresh_key t) s) ≡ true
      → has_bytes t (members j (remove_stale V k s)) ≡ has_bytes t (members j s)
  unfolding remove_stale
  member-remove_stale k s j t live = ground (
    arith,
    member-srem_all k (stale_entries V s (members k s)) s j t,
    stale_expired s t (members k s),
  )

  module _ (user token : Bytes) (lifetime : ℕ) where
    abbrev pub stored : State → State
    stored = store_token V (user_refresh_key user) user token lifetime

    pub string-store_token :
        (s : State) (t : Bytes)
        → string_at (refresh_key t) (stored s)
          ≡ (if bytes_eq token t then some user else string_at (refresh_key t) s)
    unfolding store_token
    string-store_token s t = ground (
      arith,
      V.string-expire (user_refresh_key user) lifetime
          (sadd (user_refresh_key user) token (set (refresh_key token) user lifetime s))
          (refresh_key t),
      V.string-sadd (user_refresh_key user) token (set (refresh_key token) user lifetime s)
          (refresh_key t),
      V.string-set (refresh_key token) user lifetime s (refresh_key t),
      refresh_key-bytes_eq token t,
    )

    pub member-store_token :
        (s : State) (u t : Bytes)
        → has_bytes t (members (user_refresh_key u) (stored s))
          ≡ (bytes_eq user u && bytes_eq token t || has_bytes t (members (user_refresh_key u) s))
    unfolding store_token
    member-store_token s u t = ground (
      arith,
      V.member-expire (user_refresh_key user) lifetime
          (sadd (user_refresh_key user) token (set (refresh_key token) user lifetime s))
          (user_refresh_key u) t,
      V.member-sadd (user_refresh_key user) token (set (refresh_key token) user lifetime s)
          (user_refresh_key u) t,
      V.member-set (refresh_key token) user lifetime s (user_refresh_key u) t,
      keys_apart token u,
      user_refresh_key-bytes_eq user u,
    )

    pub added :
        (s : State)
        → has_bytes token (
            members
              (user_refresh_key user)
              (sadd (user_refresh_key user) token (set (refresh_key token) user lifetime s)))
          ≡ true
    added s = ground (
      arith,
      V.member-sadd (user_refresh_key user) token (set (refresh_key token) user lifetime s)
          (user_refresh_key user) token,
      bytes_eq_refl (user_refresh_key user),
      bytes_eq_refl token,
    )

    pub token_ttl-store_token :
        (s : State) (t : Bytes)
        → ttl (refresh_key t) (stored s)
          ≡ (if bytes_eq token t then some lifetime else ttl (refresh_key t) s)
    unfolding store_token
    token_ttl-store_token s t = ground (
      arith,
      V.ttl-expire (user_refresh_key user) token lifetime
          (sadd (user_refresh_key user) token (set (refresh_key token) user lifetime s))
          (refresh_key t) (added s),
      V.ttl-sadd (user_refresh_key user) token (set (refresh_key token) user lifetime s)
          (refresh_key t) (keys_apart' user t),
      V.ttl-set (refresh_key token) user lifetime s (refresh_key t),
      keys_apart' user t,
      refresh_key-bytes_eq token t,
    )

    pub set_ttl-store_token :
        (s : State) (u : Bytes)
        → ttl (user_refresh_key u) (stored s)
          ≡ (if bytes_eq user u then some lifetime else ttl (user_refresh_key u) s)
    unfolding store_token
    set_ttl-store_token s u = ground (
      arith,
      V.ttl-expire (user_refresh_key user) token lifetime
          (sadd (user_refresh_key user) token (set (refresh_key token) user lifetime s))
          (user_refresh_key u) (added s),
      V.ttl-sadd (user_refresh_key user) token (set (refresh_key token) user lifetime s)
          (user_refresh_key u),
      V.ttl-set (refresh_key token) user lifetime s (user_refresh_key u),
      keys_apart token u,
      user_refresh_key-bytes_eq user u,
    )
