-- ===== src/Auth/Service.antt =====
-- internal/auth/service.go: the service over the repository of users, Valkey and the cryptography. An
-- action takes the state of the database and of Valkey, and returns them. Random values are arguments,
-- and so is the time. A read of the database leaves it as it is. Logging is left out.
pub mod Sessions
pub mod Registration
pub mod Mfa
pub mod Setup
pub mod Accounts
use Prim.Native.String.{String}
use uncord_server.Prelude.{
  ℕ, ◌≡◌, Bool, true, false, Option, List, Bytes, Error, Result, ok, err, wrap, if◌then◌else◌,
  context,
}
use uncord_server.Actions.{Action}
use uncord_server.Uuid.{Uuid, UuidText}
use uncord_server.Valkey.{Valkey}
use uncord_server.Valkey.Counters.{Counters}
use uncord_server.Valkey.Call.{World}
use uncord_server.Auth.Credentials.{Addresses}

-- internal/user: the fields that the service uses.
pub record User : Type 0 where
  pub id : Uuid
  pub email : Bytes
  pub username : Bytes
  pub mfa_enabled : Bool
  pub email_verified : Bool

pub record Credentials : Type 0 where
  pub user : User
  pub password_hash : Bytes
  pub mfa_secret : Option Bytes

pub record MfaRecoveryCode : Type 0 where
  pub id : Uuid
  pub code_hash : Bytes

pub record CreateParams : Type 0 where
  pub email : Bytes
  pub username : Bytes
  pub password_hash : Bytes
  pub verify_token : Bytes
  pub verify_expiry : ℕ

pub data TombstoneType : Type 0 where
  tombstone_email tombstone_username : TombstoneType

pub record Tombstone : Type 0 where
  pub identifier_type : TombstoneType
  pub hmac_hash : Bytes

-- The repositories of users and of the server, over a database.
pub record Users : Type 1 where
  pub Database : Type 0
  pub get_by_id : Uuid → Database → Result User
  pub get_by_email : Bytes → Database → Result Credentials
  pub get_credentials_by_id : Uuid → Database → Result Credentials
  pub check_tombstone : TombstoneType → Bytes → Database → Result Bool
  pub get_unused_recovery_codes : Uuid → Database → Result (List MfaRecoveryCode)
  pub owner_id : Database → Result Uuid
  pub create : CreateParams → Database → Result Uuid × Database
  pub verify_email : Bytes → Database → Result Uuid × Database
  pub replace_verification_token : Uuid → Bytes → ℕ → ℕ → Database → Result (Unit {0}) × Database
  pub record_login_attempt : Bytes → Bytes → Bool → Database → Result (Unit {0}) × Database
  pub update_password_hash : Uuid → Bytes → Database → Result (Unit {0}) × Database
  pub use_recovery_code : Uuid → Database → Result (Unit {0}) × Database
  pub replace_recovery_codes : Uuid → List Bytes → Database → Result (Unit {0}) × Database
  pub enable_mfa : Uuid → Bytes → List Bytes → Database → Result (Unit {0}) × Database
  pub disable_mfa : Uuid → Database → Result (Unit {0}) × Database
  pub delete_with_tombstones : Uuid → List Tombstone → Database → Result (Unit {0}) × Database

-- The packages that the service calls, and its configuration. Salts are inside `hash_password`.
pub record Service : Type 1 where
  pub users : Users
  pub valkey : Valkey
  pub counters : Counters valkey
  pub uuid_text : UuidText
  pub addresses : Addresses
  pub is_blocked : Bytes → Result Bool
  pub hmac_identifier : Bytes → Result Bytes
  pub hash_password : Bytes → Result Bytes
  pub verify_password : Bytes → Bytes → Result Bool
  pub needs_rehash : Bytes → Result Bool
  pub new_access_token : Uuid → Bool → Result Bytes
  pub encrypt_totp_secret : Bytes → Result Bytes
  pub decrypt_totp_secret : Bytes → Result Bytes
  pub totp_validate : ℕ → Bytes → Bytes → Bool
  pub hash_recovery_code : Bytes → Result Bytes
  pub verify_recovery_code : Bytes → Bytes → Result Bool
  pub mfa_configured : Bool
  pub mfa_ticket_ttl : ℕ
  pub jwt_refresh_ttl : ℕ
  pub deletion_tombstone_usernames : Bool

pub record TokenPair : Type 0 where
  pub access_token : Bytes
  pub refresh_token : Bytes

pub record AuthResult : Type 0 where
  pub user : User
  pub tokens : TokenPair

-- The database, Valkey, and the messages that have been sent to the permission caches.
module _ (S : Service) where
  pub record Site : Type 0 where
    pub database : S.users.Database
    pub world : World S.valkey.State
    pub invalidated : List Uuid

  -- A read of the database, a change of it, and a call of Valkey.
  abbrev pub reads : {A : Type 0} → (S.users.Database → Result A) → Action Site A
  reads f s = (f s.database, s)

  abbrev pub writes :
      {A : Type 0} → (S.users.Database → Result A × S.users.Database) → Action Site A
  writes f s = ((f s.database).0, record s { database = (f s.database).1 })

  abbrev pub calls :
      {A : Type 0} → (World S.valkey.State → Result A × World S.valkey.State) → Action Site A
  calls f s = ((f s.world).0, record s { world = (f s.world).1 })
