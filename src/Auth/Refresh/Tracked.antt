-- ===== src/Auth/Refresh/Tracked.antt =====
-- Every live refresh token stands in the set of its user, and the set lives at least as long.
use uncord_server.Prelude.{
  ℕ, ◌≤◌, ◌≡◌, refl, sym, ◌∙◌, true, false, some, arith, Bytes, bytes_eq, bytes_eq_iff, Bool-cases,
  Option-cases, inl, inr,
}
use uncord_server.Valkey.{Valkey, has_bytes}
use uncord_server.Auth.Refresh.{
  refresh_key, user_refresh_key, remove_stale, create_script, rotate_script, stale_entries,
}
use uncord_server.Auth.Refresh.Views.{
  refresh_key-bytes_eq, user_refresh_key-bytes_eq, keys_apart, keys_apart', string-srem_all,
  ttl-srem_all, member-remove_stale, stored, string-store_token, member-store_token,
  token_ttl-store_token, set_ttl-store_token,
}

module _ (V : Valkey) where
  open V use {State, string_at, members, ttl, set, del, sadd, srem, expire, elapse}

  abbrev pub IsMember : Bytes → Bytes → State → Type 0
  IsMember user token s = has_bytes token (members (user_refresh_key user) s) ≡ true

  -- The token key lives no longer than the set, and neither longer than the lifetime of a new token.
  pub record Lives (lifetime : ℕ) (user token : Bytes) (s : State) : Type 0 where
    pub token_left : ℕ
    pub set_left : ℕ
    pub token_ttl : ttl (refresh_key token) s ≡ some token_left
    pub set_ttl : ttl (user_refresh_key user) s ≡ some set_left
    pub shorter : token_left ≤ set_left
    pub bounded : set_left ≤ lifetime

  abbrev pub IsTracked : ℕ → State → Type 0
  IsTracked lifetime s =
      (token user : Bytes)
      → string_at (refresh_key token) s ≡ some user
      → IsMember user token s × Lives lifetime user token s

  pub Lives-same :
      (lifetime : ℕ) (u t : Bytes) (s s' : State)
      → ttl (refresh_key t) s' ≡ ttl (refresh_key t) s
      → ttl (user_refresh_key u) s' ≡ ttl (user_refresh_key u) s
      → Lives lifetime u t s
      → Lives lifetime u t s'
  Lives-same lifetime u t s s' a b l = record {
    token_left = l.token_left;
    set_left = l.set_left;
    token_ttl = a ∙ l.token_ttl;
    set_ttl = b ∙ l.set_ttl;
    shorter = l.shorter;
    bounded = l.bounded;
  }

  -- What holds of a live token before a new token of `user` is stored: that user's own set may have
  -- no time to live.
  record Waits (user : Bytes) (lifetime : ℕ) (s : State) (t u : Bytes) : Type 0 where
    member : IsMember u t s
    left : ℕ
    has_left : ttl (refresh_key t) s ≡ some left
    fits : left ≤ lifetime
    alien : bytes_eq user u ≡ false → Lives lifetime u t s

  abbrev IsPending : Bytes → ℕ → State → Type 0
  IsPending user lifetime s =
      (t u : Bytes) → string_at (refresh_key t) s ≡ some u → Waits user lifetime s t u

  tracked-Waits :
      (user : Bytes) (lifetime : ℕ) (s : State) → IsTracked lifetime s → IsPending user lifetime s
  tracked-Waits user lifetime s tracked t u live =
      let (m, l) = tracked t u live in
      record {
        member = m;
        left = l.token_left;
        has_left = l.token_ttl;
        fits = omega (arith, l.shorter, l.bounded);
        alien = λ _. l;
      }

  module _ (user token : Bytes) (lifetime : ℕ) where
    new_Lives :
        (s : State) (t u : Bytes)
        → bytes_eq token t ≡ true
        → bytes_eq user u ≡ true
        → Lives lifetime u t (stored V user token lifetime s)
    new_Lives s t u same mine = record {
      token_left = lifetime;
      set_left = lifetime;
      token_ttl = ground (arith, token_ttl-store_token V user token lifetime s t);
      set_ttl = ground (arith, set_ttl-store_token V user token lifetime s u);
      shorter = omega arith;
      bounded = omega arith;
    }

    old_Lives :
        (s : State) (t u : Bytes)
        → bytes_eq token t ≡ false
        → Waits user lifetime s t u
        → Lives lifetime u t (stored V user token lifetime s)
    old_Lives s t u other w = elim (Bool-cases (bytes_eq user u)) [
      | inl mine ↦ record {
        token_left = w.left;
        set_left = lifetime;
        token_ttl = ground (arith, token_ttl-store_token V user token lifetime s t, w.has_left);
        set_ttl = ground (arith, set_ttl-store_token V user token lifetime s u);
        shorter = w.fits;
        bounded = omega arith;
      }
      | inr alien ↦
          Lives-same lifetime u t s _
            (ground (arith, token_ttl-store_token V user token lifetime s t))
            (ground (arith, set_ttl-store_token V user token lifetime s u)) (w.alien alien)
    ]

    store_token-IsTracked :
        (s : State)
        → IsPending user lifetime s
        → IsTracked lifetime (stored V user token lifetime s)
    store_token-IsTracked s pending t u live = elim (Bool-cases (bytes_eq token t)) [
      | inl same ↦
          let own : user ≡ u = ground (arith, string-store_token V user token lifetime s t) in
          let mine : bytes_eq user u ≡ true = (bytes_eq_iff user u).1 own in
          (
            ground (arith, member-store_token V user token lifetime s u t),
            new_Lives s t u same mine,
          )
      | inr other ↦
          let w = pending t u (ground (arith, string-store_token V user token lifetime s t)) in
          (
            ground (arith, member-store_token V user token lifetime s u t, w.member),
            old_Lives s t u other w,
          )
    ]

  -- Removing the stale entries of the user's set leaves only that set's time open.
  remove_stale-IsPending :
      (user : Bytes) (lifetime : ℕ) (s : State)
      → IsPending user lifetime s
      → IsPending user lifetime (remove_stale V (user_refresh_key user) s)
  unfolding remove_stale
  remove_stale-IsPending user lifetime s pending t u live =
      let gone = stale_entries V s (members (user_refresh_key user) s) in
      let was : string_at (refresh_key t) s ≡ some u =
        sym (string-srem_all V (user_refresh_key user) gone s (refresh_key t)) ∙ live in
      let w = pending t u was in
      let token_same =
        ttl-srem_all V (user_refresh_key user) gone s (refresh_key t) (keys_apart' user t) in
      record {
        member =
            member-remove_stale V (user_refresh_key user) s (user_refresh_key u) t (rw was refl)
            ∙ w.member;
        left = w.left;
        has_left = token_same ∙ w.has_left;
        fits = w.fits;
        alien = λ other.
            Lives-same lifetime u t s _ token_same
              (ttl-srem_all V (user_refresh_key user) gone s (user_refresh_key u)
                (user_refresh_key-bytes_eq user u ∙ other))
              (w.alien other);
      }

  -- Consuming the old token.
  consume-IsPending :
      (user old : Bytes) (lifetime : ℕ) (s : State)
      → IsPending user lifetime s
      → IsPending user lifetime (srem (user_refresh_key user) old (del (refresh_key old) s))
  consume-IsPending user old lifetime s pending t u live =
      let string_same =
        V.string-srem (user_refresh_key user) old (del (refresh_key old) s) (refresh_key t) in
      let string_del = V.string-del (refresh_key old) s (refresh_key t) in
      let other : bytes_eq old t ≡ false =
        ground (arith, string_same, string_del, refresh_key-bytes_eq old t) in
      let w = pending t u (ground (arith, string_same, string_del, refresh_key-bytes_eq old t)) in
      let token_same : ttl (refresh_key t)
            (srem (user_refresh_key user) old (del (refresh_key old) s))
          ≡ ttl (refresh_key t) s =
        V.ttl-srem (user_refresh_key user) old (del (refresh_key old) s) (refresh_key t)
          (keys_apart' user t)
        ∙ V.ttl-del (refresh_key old) s (refresh_key t) (refresh_key-bytes_eq old t ∙ other) in
      record {
        member = ground (
          arith,
          w.member,
          V.member-srem (user_refresh_key user) old (del (refresh_key old) s) (user_refresh_key u)
              t,
          V.member-del (refresh_key old) s (user_refresh_key u) t,
          keys_apart old u,
        );
        left = w.left;
        has_left = token_same ∙ w.has_left;
        fits = w.fits;
        alien = λ alien.
            Lives-same lifetime u t s _ token_same
              (V.ttl-srem (user_refresh_key user) old (del (refresh_key old) s) (user_refresh_key u)
                  (user_refresh_key-bytes_eq user u ∙ alien)
                ∙ V.ttl-del (refresh_key old) s (user_refresh_key u) (keys_apart old u))
              (w.alien alien);
      }

  -- `createScript` keeps the invariant.
  pub create_script-IsTracked :
      (user token : Bytes) (lifetime : ℕ) (s : State)
      → IsTracked lifetime s
      → IsTracked lifetime (create_script V user token lifetime s).1
  unfolding create_script
  create_script-IsTracked user token lifetime s tracked =
      store_token-IsTracked user token lifetime _
        (remove_stale-IsPending user lifetime s (tracked-Waits user lifetime s tracked))

  -- `rotateScript` keeps it, whether or not it finds the old token.
  pub rotate_script-IsTracked :
      (old new : Bytes) (lifetime : ℕ) (s : State)
      → IsTracked lifetime s
      → IsTracked lifetime (rotate_script V old new lifetime s).1
  unfolding rotate_script
  rotate_script-IsTracked old new lifetime s tracked =
      elim (Option-cases (string_at (refresh_key old) s)) [
        | inl e ↦ rw (e, rotate_script) tracked
        | inr (user, e) ↦
            rw (e, rotate_script)
              (store_token-IsTracked user new lifetime _ (
                remove_stale-IsPending user lifetime _
                  (consume-IsPending user old lifetime s (tracked-Waits user lifetime s tracked))))
      ]
