-- ===== src/Permission/Resolver/Coherence.antt =====
-- The cache never changes an answer: coherence of the cached values with the database.
use uncord_server.Prelude.{
  ◌≡◌, ◌≢◌, refl, sym, ◌∙◌, inl, inr, some, arith, ◌==◌, if◌then◌else◌, Result, ok, err, ◌>>=◌,
  Option-cases,
}
use uncord_server.Permission.Bitfield.{Bitfield}
use uncord_server.Permission.Store.{Uuid, Store}
use uncord_server.Permission.Cache.{Cache, Holds, Adds, IsCache}
use uncord_server.Permission.Resolver.{
  server_perm_key, base_permissions, compute, hit, remember, through_cache, resolve, has_permission,
  resolve_server,
}

pub Holds-Adds :
    {A : Type 0} (cache : Cache A) (P Q : Uuid → Uuid → A → Type 0) (s t : cache.State)
    → Holds cache P s
    → Adds cache s Q t
    → ((u c : Uuid) (p : A) → Q u c p → P u c p)
    → Holds cache P t
Holds-Adds cache P Q s t h added imp u c p e = elim (added u c p e) [
  | inl old ↦ h u c p old
  | inr new ↦ imp u c p new
]

module _ (B : Bitfield) (store : Store B.Permission) where
  open B use {Permission, has}

  -- The permissions of the server, or of a channel, as they are computed from the database.
  abbrev pub server_permissions : Uuid → Result Permission
  server_permissions user_id = base_permissions B store user_id >>= λ br. ok br.perm

  abbrev pub expected : Uuid → Uuid → Result Permission
  expected user_id key =
      if key == server_perm_key then server_permissions user_id else compute B store user_id key

  -- Every cached value is what the computation gives.
  abbrev pub Coherent : (cache : Cache B.Permission) → cache.State → Type 0
  Coherent cache = Holds cache (λ u c p. expected u c ≡ ok p)

  module _ (cache : Cache B.Permission) (laws : IsCache cache) where
    open cache use {State}

    remember_result :
        (u c : Uuid) (r : Result Permission) (s : State) → (remember B store cache u c r s).0 ≡ r
    unfolding remember
    remember_result u c (ok p) s = refl
    remember_result u c (err e) s = refl

    remembered :
        (u c : Uuid) (p : Permission)
        → expected u c ≡ ok p
        → (u' c' : Uuid) (p' : Permission) → (u' ≡ u) × (c' ≡ c) × (p' ≡ p)
        → expected u' c' ≡ ok p'
    remembered u c p h u' c' p' (a, b, e) = rw (a, b, e) h

    pub remember-Coherent :
        (u c : Uuid) (r : Result Permission) (s : State)
        → expected u c ≡ r
        → Coherent cache s
        → Coherent cache (remember B store cache u c r s).1
    unfolding remember
    remember-Coherent u c (err e) s h co = co
    remember-Coherent u c (ok p) s h co =
        Holds-Adds cache _ _ s _ co (laws.set_adds u c p s)
          (λ u' c' p' q. remembered u c p h u' c' p' q)

    pub get-Coherent :
        (u c : Uuid) (s : State) → Coherent cache s → Coherent cache (cache.get u c s).1
    get-Coherent u c s co = Holds-Adds cache _ _ s _ co (laws.get_keeps u c s) (λ _ _ _ q. absurd q)

    hit-expected :
        (u c : Uuid) (s : State) (p : Permission)
        → Coherent cache s
        → hit (cache.get u c s).0 ≡ some p
        → expected u c ≡ ok p
    hit-expected u c s p co h = co u c p (laws.get_hit u c s p (ground arith))

    through_cache_lem :
        (u c : Uuid) (r : Result Permission) (s : State)
        → expected u c ≡ r
        → Coherent cache s
        → ((through_cache B store cache u c r s).0 ≡ r)
          × Coherent cache (through_cache B store cache u c r s).1
    unfolding through_cache
    through_cache_lem u c r s h co = elim (Option-cases (hit (cache.get u c s).0)) [
      | inl e ↦
          rw (e, through_cache)
            (
              remember_result u c r (cache.get u c s).1,
              remember-Coherent u c r (cache.get u c s).1 h (get-Coherent u c s co),
            )
      | inr (p, e) ↦
          rw (e, through_cache) (sym (hit-expected u c s p co e) ∙ h, get-Coherent u c s co)
    ]

    -- From a coherent cache the answer for a channel is the computed one, errors included, and the
    -- cache stays coherent. The channel's identifier is not the zero UUID.
    pub resolve-eq-compute :
        (u c : Uuid) (s : State)
        → c ≢ server_perm_key
        → Coherent cache s
        → ((resolve B store cache u c s).0 ≡ compute B store u c)
          × Coherent cache (resolve B store cache u c s).1
    unfolding resolve
    resolve-eq-compute u c s real co = through_cache_lem u c _ s (ground arith) co

    -- The same of the server-level permissions.
    pub resolve_server-eq-server_permissions :
        (u : Uuid) (s : State)
        → Coherent cache s
        → ((resolve_server B store cache u s).0 ≡ server_permissions u)
          × Coherent cache (resolve_server B store cache u s).1
    unfolding resolve_server
    resolve_server-eq-server_permissions u s co = through_cache_lem u server_perm_key _ s refl co

    -- The two tests, `HasPermission` and `HasServerPermission`, answer by the computed permissions.
    pub has_permission-eq-has :
        (u c : Uuid) (perm p : Permission) (s : State)
        → c ≢ server_perm_key
        → Coherent cache s
        → compute B store u c ≡ ok p
        → (has_permission B store cache u c perm s).0 ≡ ok (has p perm)
    unfolding has_permission
    has_permission-eq-has u c perm p s real co h = rw ((resolve-eq-compute u c s real co).0, h)
