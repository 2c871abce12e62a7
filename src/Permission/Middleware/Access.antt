-- ===== src/Permission/Middleware/Access.antt =====
-- Who reaches the handler behind the middleware.
use uncord_server.Prelude.{
  ◌≡◌, ◌≢◌, refl, sym, ◌∙◌, Bool, true, false, [], ◌∷◌, arith, Bytes, Result, ok, err, ◌>>=◌,
  ok_injective,
}
use uncord_server.Uuid.{Uuid, UuidText}
use uncord_server.Permission.Bitfield.{Bitfield}
use uncord_server.Permission.Store.{Store}
use uncord_server.Permission.Cache.{Cache, IsCache}
use uncord_server.Permission.Resolver.{
  server_perm_key, compute, has_permission, has_server_permission, resolve, resolve_server,
}
use uncord_server.Permission.Resolver.Coherence.{
  Coherent, server_permissions, resolve-eq-compute, resolve_server-eq-server_permissions,
}
use uncord_server.Permission.Middleware.{
  next, decide, check_channel, require_permission, require_server_permission,
}

decide-next : (r : Result Bool) → decide r ≡ next → r ≡ ok true
unfolding decide
decide-next (err e) h = absurd (ground arith)
decide-next (ok false) h = absurd (ground arith)
decide-next (ok true) h = refl

module _ (B : Bitfield) (store : Store B.Permission) (cache : Cache B.Permission)
    (laws : IsCache cache) (T : UuidText) where
  open B use {Permission, has}
  open cache use {State}
  open T use {of_text}

  granted_by :
      (r : Result Permission) (perm : Permission)
      → (r >>= λ p. ok (has p perm)) ≡ ok true
      → (p : Permission) × (r ≡ ok p) × (has p perm ≡ true)
  granted_by (err e) perm h = cc
  granted_by (ok p) perm h = (p, refl, ok_injective h)

  pub has_permission-true :
      (u c : Uuid) (perm : Permission) (s : State)
      → c ≢ server_perm_key
      → Coherent B store cache s
      → (has_permission B store cache u c perm s).0 ≡ ok true
      → (p : Permission) × (compute B store u c ≡ ok p) × (has p perm ≡ true)
  unfolding has_permission
  has_permission-true u c perm s real co h =
      let (p, e, t) = granted_by (resolve B store cache u c s).0 perm h in
      (p, sym (resolve-eq-compute B store cache laws u c s real co).0 ∙ e, t)

  check_channel-next :
      (perm : Permission) (u : Uuid) (r : Result Uuid) (s : State)
      → Coherent B store cache s
      → ((c : Uuid) → r ≡ ok c → c ≢ server_perm_key)
      → (check_channel B store cache T perm u r s).0 ≡ next
      → (c : Uuid) × (p : Permission) × (r ≡ ok c)
        × (compute B store u c ≡ ok p)
        × (has p perm ≡ true)
  unfolding check_channel
  check_channel-next perm u (err e) s co real h = absurd (ground arith)
  check_channel-next perm u (ok c) s co real h =
      let (p, e, t) = has_permission-true u c perm s (real c refl) co (decide-next _ h) in
      (c, p, refl, e, t)

  -- With a coherent cache, a request reaches the handler behind `RequirePermission` only if its user is
  -- known, its channel parses, and the permissions computed for them include the required one. The
  -- channel is not the zero UUID.
  pub require_permission-next :
      (perm : Permission) (user : Result Uuid) (channel_id : Bytes) (s : State)
      → Coherent B store cache s
      → ((c : Uuid) → of_text channel_id ≡ ok c → c ≢ server_perm_key)
      → (require_permission B store cache T perm user channel_id s).0 ≡ next
      → (u : Uuid) × (c : Uuid) × (p : Permission) × (user ≡ ok u)
        × (of_text channel_id ≡ ok c)
        × (compute B store u c ≡ ok p)
        × (has p perm ≡ true)
  unfolding require_permission
  require_permission-next perm (err e) channel_id s co real h = absurd (ground arith)
  require_permission-next perm (ok u) [] s co real h = absurd (ground arith)
  require_permission-next perm (ok u) (x ∷ xs) s co real h =
      let (c, p, parsed, e, t) = check_channel-next perm u (of_text (x ∷ xs)) s co real h in
      (u, c, p, refl, parsed, e, t)

  -- The same of `RequireServerPermission` and the permissions of the server.
  pub require_server_permission-next :
      (perm : Permission) (user : Result Uuid) (s : State)
      → Coherent B store cache s
      → (require_server_permission B store cache T perm user s).0 ≡ next
      → (u : Uuid) × (p : Permission) × (user ≡ ok u)
        × (server_permissions B store u ≡ ok p)
        × (has p perm ≡ true)
  unfolding require_server_permission has_server_permission
  require_server_permission-next perm (err e) s co h = absurd (ground arith)
  require_server_permission-next perm (ok u) s co h =
      let (p, e, t) = granted_by (resolve_server B store cache u s).0 perm (decide-next _ h) in
      (u, p, refl, sym (resolve_server-eq-server_permissions B store cache laws u s co).0 ∙ e, t)
