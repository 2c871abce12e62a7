-- ===== src/Auth/Service/Setup.antt =====
-- internal/auth/service.go: the setup of a second factor. The generated key is an argument, and so are
-- the recovery codes.
pub mod Locked
use uncord_server.Prelude.{
  ℕ, Bool, true, false, not, List, Bytes, Error, sentinel, invalid_mfa_code, leb, Result, ok, err,
  if◌then◌else◌,
}
use uncord_server.Actions.{Action, ◌>>=◌, pure, known, refuse_if, within_context, best_effort}
use uncord_server.Uuid.{Uuid}
use uncord_server.Auth.Pending.{
  max_mfa_setup_attempts, store_pending_mfa_secret, consume_pending_mfa_secret,
  increment_mfa_setup_attempts, reset_mfa_setup_attempts,
}
use uncord_server.Auth.Service.{Service, Credentials, Users, Site, reads, writes, calls}
use uncord_server.Auth.Service.Mfa.{mfa_not_configured, check_password, hash_codes}

-- What `totp.Generate` makes: the secret and its address.
pub record MfaSetupResult : Type 0 where
  pub secret : Bytes
  pub uri : Bytes

abbrev pub mfa_setup_locked : Error
mfa_setup_locked = sentinel "too many failed MFA setup attempts"

-- An error leaves the count at 0.
abbrev pub or_zero : Result ℕ → ℕ
or_zero (ok n) = n
or_zero (err _) = 0

module _ (S : Service) where
  unfoldable pub begin_mfa_setup : MfaSetupResult → Uuid → Bytes → Action (Site S) MfaSetupResult
  begin_mfa_setup key user_id password = do
    _ ← refuse_if (not S.mfa_configured) mfa_not_configured
    creds ←
        within_context "get credentials for MFA setup"
          (reads S (S.users.get_credentials_by_id user_id))
    _ ← check_password S "verify password for MFA setup" password creds
    _ ← refuse_if creds.user.mfa_enabled (sentinel "MFA is already enabled on this account")
    encrypted ← within_context "encrypt TOTP secret" (known (S.encrypt_totp_secret key.secret))
    _ ← calls S (store_pending_mfa_secret S.valkey S.counters S.uuid_text user_id encrypted)
    _ ← best_effort (calls S (reset_mfa_setup_attempts S.valkey S.counters S.uuid_text user_id))
    pure key

  -- The secret is stored again, so that the user can try again.
  unfoldable pub store_again : Uuid → Bytes → Action (Site S) (List Bytes)
  store_again user_id encrypted = do
    _ ←
        best_effort
          (calls S (store_pending_mfa_secret S.valkey S.counters S.uuid_text user_id encrypted))
    known (err invalid_mfa_code)

  unfoldable pub count_wrong_code : Uuid → Bytes → Action (Site S) (List Bytes)
  count_wrong_code user_id encrypted s =
      let (r, w) = increment_mfa_setup_attempts S.valkey S.counters S.uuid_text user_id s.world in
      if leb max_mfa_setup_attempts (or_zero r)
      then (err mfa_setup_locked, record s { world = w })
      else store_again user_id encrypted (record s { world = w })

  unfoldable pub confirm_code : List Bytes → Uuid → Bytes → Bool → Action (Site S) (List Bytes)
  confirm_code codes user_id encrypted false = count_wrong_code user_id encrypted
  confirm_code codes user_id encrypted true = do
    hashes ← known (hash_codes S codes)
    _ ← within_context "enable MFA" (writes S (S.users.enable_mfa user_id encrypted hashes))
    pure codes

  unfoldable pub confirm_mfa_setup : List Bytes → ℕ → Uuid → Bytes → Action (Site S) (List Bytes)
  confirm_mfa_setup codes now user_id code = do
    _ ← refuse_if (not S.mfa_configured) mfa_not_configured
    encrypted ← calls S (consume_pending_mfa_secret S.valkey S.counters S.uuid_text user_id)
    secret ← within_context "decrypt pending MFA secret" (known (S.decrypt_totp_secret encrypted))
    confirm_code codes user_id encrypted (S.totp_validate now code secret)
