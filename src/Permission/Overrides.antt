-- ===== src/Permission/Overrides.antt =====
-- `applyOverrides` of internal/permission/resolver.go.
pub mod Precedence
use uncord_server.Prelude.{
  Bool, true, false, ◌&&◌, Option, none, some, List, [], ◌∷◌, ◌==◌, contains, if◌then◌else◌,
}
use uncord_server.Permission.Bitfield.{Bitfield}
use uncord_server.Permission.Store.{Uuid, PrincipalType, role, user, Override}

abbrev pub is_user : PrincipalType → Bool
is_user user = true
is_user _ = false

abbrev pub is_role : PrincipalType → Bool
is_role role = true
is_role _ = false

-- The variables of the loop: `roleAllow`, `roleDeny` and `userOverride`.
pub record Merged (Permission : Type 0) : Type 0 where
  pub role_allow : Permission
  pub role_deny : Permission
  pub user_override : Option (Override Permission)

module _ (B : Bitfield) where
  open B use {Permission, empty, add, remove}

  -- One round of the loop.
  unfoldable pub merge_override :
      List Uuid → Uuid → Merged Permission → Override Permission → Merged Permission
  merge_override user_roles user_id m o =
      if is_user o.principal_type && o.principal_id == user_id
      then record m { user_override = some o }
      else if is_role o.principal_type && contains o.principal_id user_roles
      then record m { role_allow = add m.role_allow o.allow; role_deny = add m.role_deny o.deny }
      else m

  unfoldable pub merge_overrides :
      List Uuid → Uuid → Merged Permission → List (Override Permission) → Merged Permission
  merge_overrides user_roles user_id m [] = m
  merge_overrides user_roles user_id m (o ∷ os) =
      merge_overrides user_roles user_id (merge_override user_roles user_id m o) os

  -- The user's own override, applied on top.
  unfoldable pub apply_user : Permission → Option (Override Permission) → Permission
  apply_user base none = base
  apply_user base (some o) = remove (add base o.allow) o.deny

  unfoldable pub apply_overrides :
      Permission → List (Override Permission) → List Uuid → Uuid → Permission
  unfolding apply_user
  apply_overrides base overrides user_roles user_id =
      let start : Merged Permission = record {
        role_allow = empty;
        role_deny = empty;
        user_override = none;
      } in
      let m = merge_overrides user_roles user_id start overrides in
      apply_user (remove (add base m.role_allow) m.role_deny) m.user_override
