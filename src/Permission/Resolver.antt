-- ===== src/Permission/Resolver.antt =====
-- internal/permission/resolver.go: effective permissions, with and without the cache.
pub mod Effective
pub mod Coherence
pub mod Filters
use uncord_server.Prelude.{
  ◌≡◌, Bool, true, false, Option, none, some, List, [], ◌∷◌, map, ◌==◌, if◌then◌else◌, Result, ok,
  err, ◌>>=◌, context, lookup, put,
}
use uncord_server.Permission.Bitfield.{Bitfield}
use uncord_server.Permission.Store.{Uuid, channel, category, Override, RolePermEntry, Store}
use uncord_server.Permission.Cache.{Cache}
use uncord_server.Permission.Overrides.{apply_overrides}

-- `baseResult`: the output of the steps 1 and 2.
pub record BaseResult (Permission : Type 0) : Type 0 where
  pub perm : Permission
  pub role_ids : List Uuid
  pub admin : Bool

-- The zero UUID, which stands for the server in the cache's keys.
abbrev pub server_perm_key : Uuid
server_perm_key = 0

-- A failed read of the cache is logged, and counts as a miss.
abbrev pub hit {ℓ} : {A : Type ℓ} → Result (Option A) → Option A
hit (ok o) = o
hit (err _) = none

abbrev pub or_nil {ℓ} : {A : Type ℓ} → Result (List A) → List A
or_nil (ok m) = m
or_nil (err _) = []

module _ (B : Bitfield) (store : Store B.Permission) where
  open B use {Permission, empty, all_permissions, manage_server, has, add}

  unfoldable pub role_union : Permission → List (RolePermEntry Permission) → Permission
  role_union base [] = base
  role_union base (entry ∷ entries) = role_union (add base entry.permissions) entries

  abbrev pub administrator : BaseResult Permission
  administrator = record { perm = all_permissions; role_ids = []; admin = true }

  unfoldable pub of_roles : List (RolePermEntry Permission) → BaseResult Permission
  of_roles entries =
      let base = role_union empty entries in
      if has base manage_server
      then administrator
      else record { perm = base; role_ids = map (λ e. e.role_id) entries; admin = false }

  unfoldable pub base_permissions : Uuid → Result (BaseResult Permission)
  base_permissions user_id = do
    is_owner ← context "check owner" (store.is_owner user_id)
    if is_owner then ok administrator else do
      entries ← context "get role permissions" (store.role_permissions user_id)
      ok (of_roles entries)

  unfoldable pub category_overrides :
      Permission → List Uuid → Uuid → Option Uuid → Result Permission
  category_overrides base role_ids user_id none = ok base
  category_overrides base role_ids user_id (some id) = do
    overrides ← context "get category overrides" (store.overrides category id)
    ok (apply_overrides B base overrides role_ids user_id)

  unfoldable pub channel_overrides : Permission → List Uuid → Uuid → Uuid → Result Permission
  channel_overrides base role_ids user_id channel_id = do
    info ← context "get channel info" (store.channel_info channel_id)
    base' ← category_overrides base role_ids user_id info.category_id
    overrides ← context "get channel overrides" (store.overrides channel channel_id)
    ok (apply_overrides B base' overrides role_ids user_id)

  unfoldable pub compute : Uuid → Uuid → Result Permission
  compute user_id channel_id = do
    br ← base_permissions user_id
    if br.admin then ok br.perm else channel_overrides br.perm br.role_ids user_id channel_id

  -- The loop of the two filters: cached answers, computed ones, and those to cache.
  pub check_all :
      (Uuid → Result Permission)
      → List (Uuid × Permission)
      → Permission
      → List (Uuid × Permission)
      → List Uuid
      → Result (List Bool × List (Uuid × Permission))
  check_all calculate cached perm to_cache [] = ok ([], to_cache)
  check_all calculate cached perm to_cache (id ∷ ids) = elim (lookup id cached) [
    | some effective ↦ do
      (answers, misses) ← check_all calculate cached perm to_cache ids
      ok (has effective perm ∷ answers, misses)
    | none ↦ do
      effective ← calculate id
      (answers, misses) ← check_all calculate cached perm (put id effective to_cache) ids
      ok (has effective perm ∷ answers, misses)
  ]

  module _ (cache : Cache B.Permission) where
    open cache use {State}

    -- A failed write to the cache is logged.
    unfoldable pub remember : Uuid → Uuid → Result Permission → State → Result Permission × State
    remember user_id key (err e) s = (err e, s)
    remember user_id key (ok perm) s = let (_, s') = cache.set user_id key perm s in (ok perm, s')

    -- The read of the cache, and the computation where it misses.
    unfoldable pub through_cache :
        Uuid → Uuid → Result Permission → State → Result Permission × State
    through_cache user_id key computed s =
        let (r, s') = cache.get user_id key s in
        elim (hit r) [ some perm ↦ (ok perm, s') | none ↦ remember user_id key computed s' ]

    unfoldable pub resolve : Uuid → Uuid → State → Result Permission × State
    resolve user_id channel_id s = through_cache user_id channel_id (compute user_id channel_id) s

    unfoldable pub has_permission : Uuid → Uuid → Permission → State → Result Bool × State
    has_permission user_id channel_id perm s =
        let (r, s') = resolve user_id channel_id s in
        (r >>= λ effective. ok (has effective perm), s')

    unfoldable pub resolve_server : Uuid → State → Result Permission × State
    resolve_server user_id s =
        through_cache user_id server_perm_key (base_permissions user_id >>= λ br. ok br.perm) s

    unfoldable pub has_server_permission : Uuid → Permission → State → Result Bool × State
    has_server_permission user_id perm s =
        let (r, s') = resolve_server user_id s in (r >>= λ effective. ok (has effective perm), s')

    -- The bulk write, made only if there is something to write.
    pub remember_all :
        (List (Uuid × Permission) → State → Result (Unit {0}) × State)
        → Result (List Bool × List (Uuid × Permission))
        → State
        → Result (List Bool) × State
    remember_all write (err e) s = (err e, s)
    remember_all write (ok (answers, [])) s = (ok answers, s)
    remember_all write (ok (answers, m ∷ ms)) s = let (_, s') = write (m ∷ ms) s in (ok answers, s')

    pub filter_channels :
        BaseResult Permission → Uuid → List Uuid → Permission → State → Result (List Bool) × State
    filter_channels br user_id channel_ids perm s =
        if br.admin
        then (ok (map (λ _. true) channel_ids), s)
        else let (r, s') = cache.get_many user_id channel_ids s in
          remember_all (cache.set_many user_id)
            (check_all (channel_overrides br.perm br.role_ids user_id) (or_nil r) perm []
              channel_ids)
            s'

    pub filter_permitted : Uuid → List Uuid → Permission → State → Result (List Bool) × State
    filter_permitted user_id channel_ids perm s = elim (base_permissions user_id) [
      | err e ↦ (err e, s)
      | ok br ↦ filter_channels br user_id channel_ids perm s
    ]

    pub filter_users_permitted : List Uuid → Uuid → Permission → State → Result (List Bool) × State
    filter_users_permitted user_ids channel_id perm s =
        let (r, s') = cache.get_many_users user_ids channel_id s in
        remember_all (cache.set_many_users channel_id)
          (check_all (λ user_id. compute user_id channel_id) (or_nil r) perm [] user_ids) s'
