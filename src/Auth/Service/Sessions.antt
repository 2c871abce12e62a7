-- ===== src/Auth/Service/Sessions.antt =====
-- internal/auth/service.go: login, refresh and the verification of an address. The mail that carries a
-- verification token is left out: the source only logs what comes of it.
pub mod Verified
pub mod Spent
use uncord_server.Prelude.{
  ℕ, ◌+◌, Bool, true, false, Option, List, Bytes, Error, sentinel, wrap, cause, user_not_found,
  used_verification, verification_cooldown, invalid_token, refresh_token_reused,
  refresh_token_not_found, Result, ok, err, if◌then◌else◌,
}
use uncord_server.Actions.{
  Action, ◌>>=◌, pure, known, refuse_if, when, translated, within_context, best_effort,
}
use uncord_server.Uuid.{Uuid}
use uncord_server.Auth.Credentials.{validate_email}
use uncord_server.Auth.Refresh.{
  create_refresh_token, validate_refresh_token, rotate_refresh_token, revoke_all_refresh_tokens,
}
use uncord_server.Auth.Ticket.{create_gateway_ticket, create_mfa_ticket}
use uncord_server.Auth.Service.{
  Service, User, Credentials, Users, TokenPair, AuthResult, Site, reads, writes, calls,
}

pub record LoginRequest : Type 0 where
  pub email : Bytes
  pub password : Bytes
  pub ip : Bytes

-- `LoginResult`: a ticket for the second factor, or the tokens.
pub data LoginResult : Type 0 where
  mfa_required : Bytes → LoginResult
  logged_in : AuthResult → LoginResult

abbrev pub invalid_credentials : Error
invalid_credentials = sentinel "invalid email or password"

abbrev pub is_user_not_found : Error → Bool
is_user_not_found user_not_found = true
is_user_not_found _ = false

abbrev pub is_used_verification : Error → Bool
is_used_verification used_verification = true
is_used_verification _ = false

abbrev pub is_cooldown : Error → Bool
is_cooldown verification_cooldown = true
is_cooldown _ = false

abbrev pub is_reused : Error → Bool
is_reused refresh_token_reused = true
is_reused _ = false

abbrev pub is_token_not_found : Error → Bool
is_token_not_found refresh_token_not_found = true
is_token_not_found _ = false

-- Whether the lookup of a refresh token failed since there is none.
abbrev pub lookup_not_found : Result Uuid → Bool
lookup_not_found (ok _) = false
lookup_not_found (err e) = is_token_not_found (cause e)

module _ (S : Service) where
  unfoldable pub revoke_all_user_tokens : Uuid → Action (Site S) (Unit {0})
  revoke_all_user_tokens user_id = calls S (revoke_all_refresh_tokens S.valkey S.uuid_text user_id)

  unfoldable pub issue_gateway_ticket : Bytes → Uuid → Action (Site S) Bytes
  issue_gateway_ticket ticket user_id =
      calls S (create_gateway_ticket S.valkey S.uuid_text ticket user_id)

  unfoldable pub issue_tokens : Bytes → Uuid → Bool → Action (Site S) TokenPair
  issue_tokens token user_id email_verified = do
    access ←
        within_context "create access token" (known (S.new_access_token user_id email_verified))
    fresh ←
        within_context "create refresh token"
          (calls S (create_refresh_token S.valkey S.uuid_text token user_id S.jwt_refresh_ttl))
    pure (record { access_token = access; refresh_token = fresh })

  unfoldable pub record_attempt : Bytes → Bytes → Bool → Action (Site S) (Unit {0})
  record_attempt email ip success =
      best_effort (writes S (S.users.record_login_attempt email ip success))

  -- The attempt is recorded, and the login refused.
  unfoldable pub failed_login : {A : Type 0} → Bytes → Bytes → Action (Site S) A
  failed_login email ip = do _ ← record_attempt email ip false; known (err invalid_credentials)

  unfoldable pub found_account : Bytes → Bytes → Result Credentials → Action (Site S) Credentials
  found_account email ip (ok c) = pure c
  found_account email ip (err e) =
      if is_user_not_found (cause e) then failed_login email ip else known (err (wrap "get user" e))

  unfoldable pub refuse_mismatch : Bytes → Bytes → Bool → Action (Site S) (Unit {0})
  refuse_mismatch email ip true = pure tt
  refuse_mismatch email ip false = failed_login email ip

  abbrev pub or_false : Result Bool → Bool
  or_false (ok b) = b
  or_false (err _) = false

  -- The password is hashed anew if the stored hash has old parameters; failures are logged.
  unfoldable pub rehash : Bytes → Credentials → Action (Site S) (Unit {0})
  rehash password c = when (or_false (S.needs_rehash c.password_hash)) (
      best_effort (do
        new_hash ← known (S.hash_password password)
        writes S (S.users.update_password_hash c.user.id new_hash)))

  unfoldable pub login_mfa : Bytes → Bytes → Bytes → Credentials → Action (Site S) LoginResult
  login_mfa ticket email ip c = do
    t ←
        within_context "create MFA ticket"
          (calls S (create_mfa_ticket S.valkey S.uuid_text ticket c.user.id S.mfa_ticket_ttl))
    _ ← record_attempt email ip true
    pure (mfa_required t)

  unfoldable pub login_tokens :
      Bytes → Bytes → LoginRequest → Credentials → Action (Site S) LoginResult
  login_tokens token email req c = do
    _ ← rehash req.password c
    _ ← record_attempt email req.ip true
    tokens ← issue_tokens token c.user.id c.user.email_verified
    pure (logged_in (record { user = c.user; tokens = tokens }))

  unfoldable pub login_by_factor :
      Bytes → Bytes → LoginRequest → Credentials → Bool → Action (Site S) LoginResult
  login_by_factor fresh email req c true = login_mfa fresh email req.ip c
  login_by_factor fresh email req c false = login_tokens fresh email req c

  -- `fresh` is the random text of the ticket or of the refresh token.
  unfoldable pub login : Bytes → LoginRequest → Action (Site S) LoginResult
  login fresh req = do
    address ← known (validate_email S.addresses req.email)
    c ← λ s. found_account address.0 req.ip (S.users.get_by_email address.0 s.database) s
    match ←
        within_context "verify password" (known (S.verify_password req.password c.password_hash))
    _ ← refuse_mismatch address.0 req.ip match
    login_by_factor fresh address.0 req c c.user.mfa_enabled

  -- The family of a reused token is revoked if its user was found before.
  unfoldable pub revoke_family : Result Uuid → Action (Site S) (Unit {0})
  revoke_family (ok user_id) = best_effort (revoke_all_user_tokens user_id)
  revoke_family (err _) = pure tt

  unfoldable pub rotated_or_refused :
      Result Uuid → Result (Bytes × Uuid) → Action (Site S) (Bytes × Uuid)
  rotated_or_refused looked_up (ok new) = pure new
  rotated_or_refused looked_up (err e) =
      if is_reused (cause e)
      then (do _ ← revoke_family looked_up; known (err refresh_token_reused))
      else if lookup_not_found looked_up
      then known (err refresh_token_reused)
      else known (err e)

  unfoldable pub rotate_looked_up : Bytes → Bytes → Result Uuid → Action (Site S) (Bytes × Uuid)
  rotate_looked_up new_token old_token looked_up s =
      let (r, w) =
        rotate_refresh_token S.valkey S.uuid_text new_token old_token S.jwt_refresh_ttl s.world in
      rotated_or_refused looked_up r (record s { world = w })

  unfoldable pub rotate_checked : Bytes → Bytes → Action (Site S) (Bytes × Uuid)
  rotate_checked new_token old_token s =
      let (looked_up, w) = validate_refresh_token S.valkey S.uuid_text old_token s.world in
      rotate_looked_up new_token old_token looked_up (record s { world = w })

  unfoldable pub refresh : Bytes → Bytes → Action (Site S) TokenPair
  refresh new_token old_token = do
    new ← rotate_checked new_token old_token
    u ← within_context "get user for refresh" (reads S (S.users.get_by_id new.1))
    access ←
        within_context "create access token" (known (S.new_access_token new.1 u.email_verified))
    pure (record { access_token = access; refresh_token = new.0 })

  unfoldable pub verify_email : Bytes → Bytes → Action (Site S) AuthResult
  verify_email fresh token = do
    user_id ←
        translated
          (λ e. if is_used_verification (cause e) then invalid_token else wrap "verify email" e)
          (writes S (S.users.verify_email token))
    u ← within_context "get user after email verification" (reads S (S.users.get_by_id user_id))
    tokens ← issue_tokens fresh user_id true
    pure (record { user = u; tokens = tokens })

  -- A day for the new token, and a minute between two of them.
  unfoldable pub resend_verification : Bytes → ℕ → Uuid → Action (Site S) (Unit {0})
  resend_verification verify_token now user_id = do
    u ← within_context "get user for resend verification" (reads S (S.users.get_by_id user_id))
    _ ← refuse_if u.email_verified (sentinel "email is already verified")
    translated
        (λ e.
          if is_cooldown (cause e)
          then sentinel "please wait before requesting another verification email"
          else wrap "replace verification token" e)
        (writes S (S.users.replace_verification_token user_id verify_token (now + 86400) 60))
