-- ===== src/Auth/Service/Accounts.antt =====
-- internal/auth/service.go: the deletion of an account, and the check of a password. What is published
-- to the permission caches is added to a list.
pub mod Deleted
use uncord_server.Prelude.{
  Bool, true, false, List, [], ◌∷◌, Bytes, Error, sentinel, Result, ok, err, ◌==◌, if◌then◌else◌,
}
use uncord_server.Actions.{Action, ◌>>=◌, pure, known, refuse_if, within_context, best_effort}
use uncord_server.Uuid.{Uuid}
use uncord_server.Auth.Service.{
  Service, Credentials, Tombstone, tombstone_email, tombstone_username, Users, Site, reads, writes,
}
use uncord_server.Auth.Service.Sessions.{revoke_all_user_tokens}
use uncord_server.Auth.Service.Mfa.{check_password}

abbrev pub not_the_owner : Error
not_the_owner = sentinel "the server owner cannot delete their account"

module _ (S : Service) where
  unfoldable pub verify_user_password : Uuid → Bytes → Action (Site S) (Unit {0})
  verify_user_password user_id password = do
    creds ←
        within_context "get credentials for password verification"
          (reads S (S.users.get_credentials_by_id user_id))
    check_password S "verify password" password creds

  unfoldable pub username_tombstones : Bool → Bytes → Action (Site S) (List Tombstone)
  username_tombstones false username = pure []
  username_tombstones true username = do
    hmac ←
        within_context "compute username HMAC"
          (known (S.hmac_identifier (S.addresses.to_lower username)))
    pure (record { identifier_type = tombstone_username; hmac_hash = hmac } ∷ [])

  unfoldable pub tell_caches : Uuid → Action (Site S) (Unit {0})
  tell_caches user_id s = (ok tt, record s { invalidated = user_id ∷ s.invalidated })

  -- What follows the deletion is only logged if it fails.
  unfoldable pub finish_deletion : Uuid → List Tombstone → Action (Site S) (Unit {0})
  finish_deletion user_id tombstones = do
    _ ←
        within_context "delete user with tombstones"
          (writes S (S.users.delete_with_tombstones user_id tombstones))
    _ ← best_effort (revoke_all_user_tokens S user_id)
    best_effort (tell_caches user_id)

  unfoldable pub delete_account : Uuid → Bytes → Action (Site S) (Unit {0})
  delete_account user_id password = do
    creds ←
        within_context "get credentials for account deletion"
          (reads S (S.users.get_credentials_by_id user_id))
    _ ← check_password S "verify password for account deletion" password creds
    owner ← within_context "get server config" (reads S S.users.owner_id)
    _ ← refuse_if (owner == user_id) not_the_owner
    hmac ← within_context "compute email HMAC" (known (S.hmac_identifier creds.user.email))
    more ← username_tombstones S.deletion_tombstone_usernames creds.user.username
    finish_deletion user_id (record { identifier_type = tombstone_email; hmac_hash = hmac } ∷ more)
