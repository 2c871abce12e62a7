-- ===== src/Auth/Service/Mfa.antt =====
-- internal/auth/service.go: the second factor, by a code of the authenticator or a recovery code.
pub mod Checked
use Prim.Native.String.{String}
use uncord_server.Prelude.{
  ℕ, Bool, true, false, ◌||◌, not, Option, none, some, List, [], ◌∷◌, Bytes, Error, sentinel, wrap,
  cause, invalid_mfa_code, Result, ok, err, ◌>>=◌ as and_then, context, if◌then◌else◌,
}
use uncord_server.Actions.{
  Action, ◌>>=◌, pure, known, refuse_if, translated, within_context, best_effort,
}
use uncord_server.Uuid.{Uuid}
use uncord_server.Auth.Ticket.{consume_mfa_ticket}
use uncord_server.Auth.Service.{
  Service, Credentials, MfaRecoveryCode, Users, TokenPair, AuthResult, Site, reads, writes, calls,
}
use uncord_server.Auth.Service.Sessions.{
  invalid_credentials, or_false, issue_tokens, revoke_all_user_tokens,
}

abbrev pub mfa_not_enabled : Error
mfa_not_enabled = sentinel "MFA is not enabled on this account"

abbrev pub mfa_not_configured : Error
mfa_not_configured = sentinel "MFA is not configured on this server"

abbrev pub is_invalid_code : Error → Bool
is_invalid_code invalid_mfa_code = true
is_invalid_code _ = false

module _ (S : Service) where
  unfoldable pub complete_mfa_login : Bytes → Credentials → Action (Site S) AuthResult
  complete_mfa_login fresh creds = do
    tokens ← issue_tokens S fresh creds.user.id creds.user.email_verified
    pure (record { user = creds.user; tokens = tokens })

  -- All codes are looked at; the first one that fits counts.
  unfoldable pub first_match : Bytes → List MfaRecoveryCode → Option MfaRecoveryCode
  first_match code [] = none
  first_match code (rc ∷ rcs) =
      let later = first_match code rcs in
      if or_false S (S.verify_recovery_code code rc.code_hash) then some rc else later

  unfoldable pub use_match : Option MfaRecoveryCode → Action (Site S) (Unit {0})
  use_match none = known (err invalid_mfa_code)
  use_match (some rc) =
      within_context "mark recovery code used" (writes S (S.users.use_recovery_code rc.id))

  unfoldable pub try_recovery_code : Uuid → Bytes → Action (Site S) (Unit {0})
  try_recovery_code user_id code = do
    codes ←
        within_context "get recovery codes" (reads S (S.users.get_unused_recovery_codes user_id))
    use_match (first_match code codes)

  unfoldable pub mfa_secret_of : Option Bytes → Action (Site S) Bytes
  mfa_secret_of none = known (err mfa_not_enabled)
  mfa_secret_of (some encrypted) = pure encrypted

  -- A code of the authenticator, or else a recovery code, which is used up.
  unfoldable pub check_code : String → Uuid → Bytes → Bool → Action (Site S) (Unit {0})
  check_code what user_id code true = pure tt
  check_code what user_id code false =
      translated (λ e. if is_invalid_code (cause e) then invalid_mfa_code else wrap what e)
        (try_recovery_code user_id code)

  unfoldable pub verify_mfa : Bytes → ℕ → Bytes → Bytes → Action (Site S) AuthResult
  verify_mfa fresh now ticket code = do
    user_id ← calls S (consume_mfa_ticket S.valkey S.uuid_text ticket)
    creds ←
        within_context "get credentials for MFA verify"
          (reads S (S.users.get_credentials_by_id user_id))
    encrypted ← mfa_secret_of creds.mfa_secret
    _ ← refuse_if (not S.mfa_configured) mfa_not_configured
    secret ← within_context "decrypt MFA secret" (known (S.decrypt_totp_secret encrypted))
    _ ← check_code "try recovery code during login" user_id code (S.totp_validate now code secret)
    complete_mfa_login fresh creds

  unfoldable pub check_password : String → Bytes → Credentials → Action (Site S) (Unit {0})
  check_password what password creds = do
    match ← within_context what (known (S.verify_password password creds.password_hash))
    refuse_if (not match) invalid_credentials

  unfoldable pub disable_mfa : ℕ → Uuid → Bytes → Bytes → Action (Site S) (Unit {0})
  disable_mfa now user_id password code = do
    creds ←
        within_context "get credentials for MFA disable"
          (reads S (S.users.get_credentials_by_id user_id))
    _ ← check_password "verify password for MFA disable" password creds
    _ ← refuse_if (not creds.user.mfa_enabled) mfa_not_enabled
    encrypted ← mfa_secret_of creds.mfa_secret
    _ ← refuse_if (not S.mfa_configured) mfa_not_configured
    secret ← within_context "decrypt MFA secret" (known (S.decrypt_totp_secret encrypted))
    _ ←
        check_code "try recovery code during MFA disable" user_id code
          (S.totp_validate now code secret)
    _ ← within_context "disable MFA" (writes S (S.users.disable_mfa user_id))
    best_effort (revoke_all_user_tokens S user_id)

  unfoldable pub hash_codes : List Bytes → Result (List Bytes)
  hash_codes [] = ok []
  hash_codes (c ∷ cs) =
      let rest = hash_codes cs in
      elim (context "hash recovery code" (S.hash_recovery_code c)) [
        | err e ↦ err e
        | ok h ↦ elim rest [ err e ↦ err e | ok hs ↦ ok (h ∷ hs) ]
      ]

  -- `codes` are the new ones, which are random.
  unfoldable pub regenerate_recovery_codes :
      List Bytes → Uuid → Bytes → Action (Site S) (List Bytes)
  regenerate_recovery_codes codes user_id password = do
    creds ←
        within_context "get credentials for recovery code regeneration"
          (reads S (S.users.get_credentials_by_id user_id))
    _ ← check_password "verify password for recovery code regeneration" password creds
    _ ← refuse_if (not creds.user.mfa_enabled) mfa_not_enabled
    hashes ← known (hash_codes codes)
    _ ←
        within_context "replace recovery codes"
          (writes S (S.users.replace_recovery_codes user_id hashes))
    pure codes
