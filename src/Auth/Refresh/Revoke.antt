-- ===== src/Auth/Refresh/Revoke.antt =====
-- Time and revocation: what they leave of the tokens, and that the invariant survives both.
use uncord_server.Prelude.{
  ℕ, ◌-◌, ◌≡◌, refl, ◌∙◌, true, false, none, some, List, [], ◌∷◌, map, arith, Bytes, bytes_eq,
  bytes_eq_iff, if◌then◌else◌,
}
use uncord_server.Valkey.{Valkey, has_bytes, outlives}
use uncord_server.Auth.Refresh.{refresh_key, user_refresh_key, del_all, revoke_all_script}
use uncord_server.Auth.Refresh.Views.{
  refresh_key-bytes_eq, user_refresh_key-bytes_eq, keys_apart, keys_apart',
}
use uncord_server.Auth.Refresh.Tracked.{Lives, IsTracked, Lives-same}

module _ (V : Valkey) where
  open V use {State, string_at, members, ttl, set, del, sadd, srem, expire, elapse}

  elapse-Lives :
      (lifetime n : ℕ) (u t : Bytes) (s : State)
      → outlives n (ttl (refresh_key t) s) ≡ true
      → Lives V lifetime u t s
      → Lives V lifetime u t (elapse n s)
  elapse-Lives lifetime n u t s out l = record {
    token_left = l.token_left - n;
    set_left = l.set_left - n;
    token_ttl = ground (arith, V.ttl-elapse n s (refresh_key t), l.token_ttl);
    set_ttl =
        ground (arith, V.ttl-elapse n s (user_refresh_key u), l.set_ttl, l.token_ttl, l.shorter);
    shorter = omega (arith, l.shorter);
    bounded = omega (arith, l.bounded);
  }

  pub elapse-IsTracked :
      (lifetime n : ℕ) (s : State) → IsTracked V lifetime s → IsTracked V lifetime (elapse n s)
  elapse-IsTracked lifetime n s tracked t u live =
      let out : outlives n (ttl (refresh_key t) s) ≡ true =
        ground (arith, V.string-elapse n s (refresh_key t)) in
      let (m, l) = tracked t u (ground (arith, V.string-elapse n s (refresh_key t))) in
      (
        ground (
          arith,
          V.member-elapse n s (user_refresh_key u) t,
          m,
          l.token_ttl,
          l.set_ttl,
          l.shorter,
        ),
        elapse-Lives lifetime n u t s out l,
      )

  pub string-del_all :
      (ts : List Bytes) (s : State) (t : Bytes)
      → string_at (refresh_key t) (del_all V (map refresh_key ts) s)
        ≡ (if has_bytes t ts then none else string_at (refresh_key t) s)
  unfolding del_all
  string-del_all [] s t = refl
  string-del_all (x ∷ ts) s t = ground (
    arith,
    string-del_all ts (del (refresh_key x) s) t,
    V.string-del (refresh_key x) s (refresh_key t),
    refresh_key-bytes_eq x t,
  )

  -- After the script no token of the user is left, and those of others are as they were.
  pub revoke_all_script-string :
      (lifetime : ℕ) (user : Bytes) (s : State)
      → IsTracked V lifetime s
      → (t u : Bytes) → string_at (refresh_key t) (revoke_all_script V user s).1 ≡ some u
      → (bytes_eq user u ≡ false)
        × (string_at (refresh_key t) s ≡ some u)
        × (has_bytes t (members (user_refresh_key user) s) ≡ false)
  unfolding revoke_all_script
  revoke_all_script-string lifetime user s tracked t u live =
      let ts = members (user_refresh_key user) s in
      let strings = string-del_all ts s t in
      let last =
        V.string-del (user_refresh_key user) (del_all V (map refresh_key ts) s) (refresh_key t) in
      let was : string_at (refresh_key t) s ≡ some u =
        ground (arith, strings, last, keys_apart' user t) in
      let out : has_bytes t ts ≡ false = ground (arith, strings, last, keys_apart' user t) in
      (ground (arith, (tracked t u was).0, bytes_eq_iff user u, out), was, out)

  member-del_all :
      (ts : List Bytes) (s : State) (u t : Bytes)
      → has_bytes t (members (user_refresh_key u) (del_all V (map refresh_key ts) s))
        ≡ has_bytes t (members (user_refresh_key u) s)
  unfolding del_all
  member-del_all [] s u t = refl
  member-del_all (x ∷ ts) s u t = ground (
    arith,
    member-del_all ts (del (refresh_key x) s) u t,
    V.member-del (refresh_key x) s (user_refresh_key u) t,
    keys_apart x u,
  )

  ttl-del_all :
      (ts : List Bytes) (s : State) (t : Bytes)
      → has_bytes t ts ≡ false
      → ttl (refresh_key t) (del_all V (map refresh_key ts) s) ≡ ttl (refresh_key t) s
  unfolding del_all
  ttl-del_all [] s t out = refl
  ttl-del_all (x ∷ ts) s t out =
      ttl-del_all ts (del (refresh_key x) s) t (ground arith)
      ∙ V.ttl-del (refresh_key x) s (refresh_key t) (refresh_key-bytes_eq x t ∙ ground arith)

  set_ttl-del_all :
      (ts : List Bytes) (s : State) (u : Bytes)
      → ttl (user_refresh_key u) (del_all V (map refresh_key ts) s) ≡ ttl (user_refresh_key u) s
  unfolding del_all
  set_ttl-del_all [] s u = refl
  set_ttl-del_all (x ∷ ts) s u =
      set_ttl-del_all ts (del (refresh_key x) s) u
      ∙ V.ttl-del (refresh_key x) s (user_refresh_key u) (keys_apart x u)

  pub revoke_all_script-IsTracked :
      (lifetime : ℕ) (user : Bytes) (s : State)
      → IsTracked V lifetime s
      → IsTracked V lifetime (revoke_all_script V user s).1
  unfolding revoke_all_script
  revoke_all_script-IsTracked lifetime user s tracked t u live =
      let ts = members (user_refresh_key user) s in
      let gone = del_all V (map refresh_key ts) s in
      let (alien, was, out) =
        revoke_all_script-string lifetime user s tracked t u (unfold revoke_all_script in live) in
      let (m, l) = tracked t u was in
      (
        ground (
          arith,
          m,
          alien,
          V.member-del (user_refresh_key user) gone (user_refresh_key u) t,
          member-del_all ts s u t,
          user_refresh_key-bytes_eq user u,
        ),
        Lives-same V lifetime u t s _
            (V.ttl-del (user_refresh_key user) gone (refresh_key t) (keys_apart' user t)
              ∙ ttl-del_all ts s t out)
            (V.ttl-del (user_refresh_key user) gone (user_refresh_key u)
                (user_refresh_key-bytes_eq user u ∙ alien)
              ∙ set_ttl-del_all ts s u)
            l,
      )
