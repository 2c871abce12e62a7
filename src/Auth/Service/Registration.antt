-- ===== src/Auth/Service/Registration.antt =====
-- internal/auth/service.go: `Register`. The mail with the verification token is left out.
use uncord_server.Prelude.{
  ℕ, ◌+◌, Bool, true, false, Bytes, Error, sentinel, wrap, cause, already_exists, if◌then◌else◌,
}
use uncord_server.Actions.{Action, ◌>>=◌, pure, known, refuse_if, translated, within_context}
use uncord_server.Auth.Credentials.{validate_email, validate_username, validate_password}
use uncord_server.Auth.Service.{
  Service, tombstone_email, tombstone_username, AuthResult, Site, reads, writes,
}
use uncord_server.Auth.Service.Sessions.{or_false, issue_tokens}

pub record RegisterRequest : Type 0 where
  pub email : Bytes
  pub username : Bytes
  pub password : Bytes

abbrev pub account_tombstoned : Error
account_tombstoned = sentinel "email or username was previously used by a deleted account"

abbrev pub is_already_exists : Error → Bool
is_already_exists already_exists = true
is_already_exists _ = false

module _ (S : Service) where
  unfoldable pub refuse_tombstoned_email : Bytes → Action (Site S) (Unit {0})
  refuse_tombstoned_email email = do
    hmac ← within_context "compute email HMAC" (known (S.hmac_identifier email))
    tombstoned ←
        within_context "check email tombstone"
          (reads S (S.users.check_tombstone tombstone_email hmac))
    refuse_if tombstoned account_tombstoned

  unfoldable pub refuse_tombstoned_username : Bytes → Action (Site S) (Unit {0})
  refuse_tombstoned_username username = do
    hmac ←
        within_context "compute username HMAC"
          (known (S.hmac_identifier (S.addresses.to_lower username)))
    tombstoned ←
        within_context "check username tombstone"
          (reads S (S.users.check_tombstone tombstone_username hmac))
    refuse_if tombstoned account_tombstoned

  -- The block list fails open: an error blocks nobody.
  unfoldable pub register_user : Bytes → Bytes → ℕ → RegisterRequest → Action (Site S) AuthResult
  register_user fresh verify_token now req = do
    address ← known (validate_email S.addresses req.email)
    _ ← known (validate_username req.username)
    _ ← known (validate_password S.addresses req.password)
    _ ←
        refuse_if (or_false S (S.is_blocked address.1))
          (sentinel "disposable email addresses are not allowed")
    _ ← refuse_tombstoned_email address.0
    _ ← refuse_tombstoned_username req.username
    hash ← within_context "hash password" (known (S.hash_password req.password))
    user_id ←
        translated
          (λ e.
            if is_already_exists (cause e)
            then sentinel "email or username already taken"
            else wrap "create user" e)
          (writes S (
            S.users.create (record {
              email = address.0;
              username = req.username;
              password_hash = hash;
              verify_token = verify_token;
              verify_expiry = now + 86400;
            })))
    tokens ← issue_tokens S fresh user_id false
    pure (record {
      user = record {
        id = user_id;
        email = address.0;
        username = req.username;
        mfa_enabled = false;
        email_verified = false;
      };
      tokens = tokens;
    })
