-- ===== src/Permission/Store.antt =====
-- internal/permission/store.go: the rows that the resolver reads, and the interface `Store`.
use uncord_server.Prelude.{Bool, Option, List, Bytes, Result}
pub use uncord_server.Uuid.{Uuid}

pub data TargetType : Type 0 where
  channel category : TargetType

-- Go's type is a string; the code compares it with "role" and "user" only.
pub data PrincipalType : Type 0 where
  role user : PrincipalType
  other : Bytes → PrincipalType

pub record Override (Permission : Type 0) : Type 0 where
  pub principal_type : PrincipalType
  pub principal_id : Uuid
  pub allow : Permission
  pub deny : Permission

pub record ChannelInfo : Type 0 where
  pub id : Uuid
  pub category_id : Option Uuid

pub record RolePermEntry (Permission : Type 0) : Type 0 where
  pub role_id : Uuid
  pub permissions : Permission

-- The interface `Store`: reads of one state of the database, each of which may fail.
pub record Store (Permission : Type 0) : Type 0 where
  pub is_owner : Uuid → Result Bool
  pub role_permissions : Uuid → Result (List (RolePermEntry Permission))
  pub channel_info : Uuid → Result ChannelInfo
  pub overrides : TargetType → Uuid → Result (List (Override Permission))
