-- ===== src/Auth/Service/Sessions/Verified.antt =====
-- Who is logged in.
use uncord_server.Prelude.{
  ◌≡◌, refl, ap, ◌∙◌, Bool, true, false, Bool-cases, inl, inr, subst, ok_injective, Bytes, cause,
  Result, ok, err, context-eq-ok, arith,
}
use uncord_server.Actions.{◌>>=◌, >>=-eq-ok}
use uncord_server.Auth.Credentials.{validate_email}
use uncord_server.Auth.Service.{Service, Credentials, Site}
use uncord_server.Auth.Service.Sessions.{
  LoginRequest, LoginResult, mfa_required, logged_in, is_user_not_found, record_attempt,
  failed_login, found_account, refuse_mismatch, login_mfa, login_tokens, login_by_factor, login,
}

module _ (S : Service) where
  -- A ticket is for an account with a second factor, tokens are for one without, with its user.
  pub Fits : Credentials → LoginResult → Type 0
  Fits c (mfa_required t) = c.user.mfa_enabled ≡ true
  Fits c (logged_in a) = (c.user.mfa_enabled ≡ false) × (a.user ≡ c.user)

  found_account-eq-ok :
      (email ip : Bytes) (r : Result Credentials) (s : Site S) (c : Credentials)
      → (found_account S email ip r s).0 ≡ ok c
      → r ≡ ok c
  unfolding found_account failed_login record_attempt ◌>>=◌
  found_account-eq-ok email ip (ok x) s c h = h
  found_account-eq-ok email ip (err e) s c h = elim (Bool-cases (is_user_not_found (cause e))) [
    | inl missing ↦ absurd (ground (arith, missing))
    | inr other ↦ absurd (ground (arith, other))
  ]

  refuse_mismatch-eq-ok :
      (email ip : Bytes) (match : Bool) (s : Site S) (u : Unit {0})
      → (refuse_mismatch S email ip match s).0 ≡ ok u
      → match ≡ true
  unfolding refuse_mismatch failed_login record_attempt ◌>>=◌
  refuse_mismatch-eq-ok email ip true s u h = refl
  refuse_mismatch-eq-ok email ip false s u h = absurd (ground arith)

  login_mfa-Fits :
      (ticket email ip : Bytes) (c : Credentials) (s : Site S) (out : LoginResult)
      → c.user.mfa_enabled ≡ true
      → (login_mfa S ticket email ip c s).0 ≡ ok out
      → Fits c out
  unfolding login_mfa Fits
  login_mfa-Fits ticket email ip c s out enabled h =
      let (t, _, h1) = >>=-eq-ok _ _ _ _ h in
      let (_, _, h2) = >>=-eq-ok _ _ _ _ h1 in
      subst (Fits c) {x = mfa_required t} (ok_injective h2) enabled

  login_tokens-Fits :
      (token email : Bytes) (req : LoginRequest) (c : Credentials) (s : Site S) (out : LoginResult)
      → c.user.mfa_enabled ≡ false
      → (login_tokens S token email req c s).0 ≡ ok out
      → Fits c out
  unfolding login_tokens Fits
  login_tokens-Fits token email req c s out disabled h =
      let (_, _, h1) = >>=-eq-ok _ _ _ _ h in
      let (_, _, h2) = >>=-eq-ok _ _ _ _ h1 in
      let (tokens, _, h3) = >>=-eq-ok _ _ _ _ h2 in
      subst (Fits c) {x = logged_in (record { user = c.user; tokens = tokens })} (ok_injective h3)
        (disabled, refl)

  login_by_factor-Fits :
      (fresh email : Bytes) (req : LoginRequest) (c : Credentials) (b : Bool) (s : Site S)
      (out : LoginResult)
      → c.user.mfa_enabled ≡ b
      → (login_by_factor S fresh email req c b s).0 ≡ ok out
      → Fits c out
  unfolding login_by_factor
  login_by_factor-Fits fresh email req c true s out e h =
      login_mfa-Fits fresh email req.ip c s out e h
  login_by_factor-Fits fresh email req c false s out e h =
      login_tokens-Fits fresh email req c s out e h

  -- A login that succeeds is for an account of the database with the normalised address, whose password
  -- hash the password fits. Tokens are given only for an account without a second factor, with its user;
  -- an account with one gets a ticket.
  pub login-Fits :
      (fresh : Bytes) (req : LoginRequest) (s : Site S) (out : LoginResult)
      → (login S fresh req s).0 ≡ ok out
      → (address : Bytes × Bytes) × (c : Credentials) × (validate_email S.addresses req.email
          ≡ ok address)
        × (S.users.get_by_email address.0 s.database ≡ ok c)
        × (S.verify_password req.password c.password_hash ≡ ok true)
        × Fits c out
  unfolding login
  login-Fits fresh req s out h =
      let (address, valid, h1) = >>=-eq-ok _ _ _ _ h in
      let (c, found, h2) = >>=-eq-ok _ _ _ _ h1 in
      let (match, checked, h3) = >>=-eq-ok _ _ _ _ h2 in
      let (u, passed, h4) = >>=-eq-ok _ _ _ _ h3 in
      (
        address,
        c,
        valid,
        found_account-eq-ok address.0 req.ip _ s c found,
        context-eq-ok "verify password" (S.verify_password req.password c.password_hash) checked
            ∙ ap ok (refuse_mismatch-eq-ok address.0 req.ip match _ u passed),
        login_by_factor-Fits fresh address.0 req c c.user.mfa_enabled _ out refl h4,
      )
