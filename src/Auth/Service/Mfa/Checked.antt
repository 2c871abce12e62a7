-- ===== src/Auth/Service/Mfa/Checked.antt =====
-- What a login with a second factor rests on.
use uncord_server.Prelude.{
  ℕ, ◌≡◌, refl, sym, ◌∙◌, ap, subst, Bool, true, false, not, ◌⊎◌, inl, inr, Bool-cases, Option,
  none, some, List, [], ◌∷◌, ◌++◌, Bytes, Result, ok, err, ok_injective, context-eq-ok, arith,
}
use Prim.Native.String.{String}
use uncord_server.Actions.{>>=-ran, refuse_if-eq-ok, translate-eq-ok}
use uncord_server.Uuid.{Uuid}
use uncord_server.Auth.Ticket.{consume_mfa_ticket}
use uncord_server.Auth.Refresh.{create_refresh_token}
use uncord_server.Valkey.Call.{World}
use uncord_server.Auth.Service.{Service, Credentials, MfaRecoveryCode, AuthResult, Site}
use uncord_server.Auth.Service.Sessions.{or_false, issue_tokens}
use uncord_server.Auth.Service.Mfa.{
  mfa_not_configured, complete_mfa_login, first_match, use_match, try_recovery_code, mfa_secret_of,
  check_code, verify_mfa,
}

module _ (S : Service) where
  -- A recovery code that fits and stands among those of the list.
  abbrev pub Matches : Bytes → List MfaRecoveryCode → MfaRecoveryCode → Type 0
  Matches code codes rc =
      (S.verify_recovery_code code rc.code_hash ≡ ok true)
      × ((before : List MfaRecoveryCode) × (after : List MfaRecoveryCode) × (codes
            ≡ before ++ rc ∷ after))

  -- One of the user's unused recovery codes fits, and the database is the one in which it has been
  -- marked as used.
  abbrev pub RecoveryUsed : Uuid → Bytes → S.users.Database → S.users.Database → Type 0
  RecoveryUsed user_id code db db' =
      (codes : List MfaRecoveryCode) × (rc : MfaRecoveryCode) × (S.users.get_unused_recovery_codes
          user_id db
        ≡ ok codes)
      × Matches code codes rc
      × (S.users.use_recovery_code rc.id db ≡ (ok tt, db'))

  -- What a login with a second factor leaves: the code is that of the secret, and the database is as it
  -- was, or a recovery code has been used.
  abbrev pub Checked : ℕ → Bytes → Uuid → Bytes → S.users.Database → S.users.Database → Type 0
  Checked now secret user_id code db db' =
      ((S.totp_validate now code secret ≡ true) × (db' ≡ db)) ⊎ RecoveryUsed user_id code db db'

  or_false-true : (r : Result Bool) → or_false S r ≡ true → r ≡ ok true
  or_false-true (ok b) h = ap ok h
  or_false-true (err e) h = absurd (ground arith)

  first_match-Matches :
      (code : Bytes) (codes : List MfaRecoveryCode) (rc : MfaRecoveryCode)
      → first_match S code codes ≡ some rc
      → Matches code codes rc
  unfolding first_match
  first_match-Matches code [] rc = λ h. absurd (ground arith)
  first_match-Matches code (c ∷ cs) rc =
      elim (Bool-cases (or_false S (S.verify_recovery_code code c.code_hash))) [
        | inl fits ↦ rw (fits) (λ h.
            let same : c ≡ rc = cc in
            subst (Matches code (c ∷ cs)) same (or_false-true _ fits, ([], cs, refl)))
        | inr other ↦ rw (other) (λ h.
            let (checked, (before, after, e)) = first_match-Matches code cs rc h in
            (checked, (c ∷ before, after, ap (λ xs. c ∷ xs) e)))
      ]

  along :
      (now : ℕ) (secret : Bytes) (user_id : Uuid) (code : Bytes)
      {start start' end end' : S.users.Database}
      → start ≡ start'
      → end ≡ end'
      → Checked now secret user_id code start end
      → Checked now secret user_id code start' end'
  along now secret user_id code {start' = start'} {end = end} p q h =
      subst (Checked now secret user_id code start') q
        (subst (λ db. Checked now secret user_id code db end) p h)

  use_match-eq-ok :
      (code : Bytes) (codes : List MfaRecoveryCode) (o : Option MfaRecoveryCode) (s : Site S)
      (x : Unit {0})
      → first_match S code codes ≡ o
      → (use_match S o s).0 ≡ ok x
      → (rc : MfaRecoveryCode) × Matches code codes rc
        × (S.users.use_recovery_code rc.id s.database ≡ (ok tt, (use_match S o s).1.database))
        × ((use_match S o s).1.world ≡ s.world)
  unfolding use_match
  use_match-eq-ok code codes none s x found h = absurd (ground arith)
  use_match-eq-ok code codes (some rc) s x found h = (
    rc,
    first_match-Matches code codes rc found,
    ap (λ r. (r, (S.users.use_recovery_code rc.id s.database).1))
        (context-eq-ok "mark recovery code used" _ h),
    refl,
  )

  check_code-eq-ok :
      (what : String) (now : ℕ) (secret : Bytes) (user_id : Uuid) (code : Bytes) (b : Bool)
      (s : Site S) (x : Unit {0})
      → S.totp_validate now code secret ≡ b
      → (check_code S what user_id code b s).0 ≡ ok x
      → Checked now secret user_id code s.database (check_code S what user_id code b s).1.database
        × ((check_code S what user_id code b s).1.world ≡ s.world)
  unfolding check_code try_recovery_code
  check_code-eq-ok what now secret user_id code true s x valid h = (inl (valid, refl), refl)
  check_code-eq-ok what now secret user_id code false s x valid h =
      let (codes, unused, h1, last) = >>=-ran _ _ _ _ (translate-eq-ok _ _ x h) in
      let (rc, fits, used, kept) =
        use_match-eq-ok code codes (first_match S code codes) s x refl h1 in
      (
        inr (
          codes,
          rc,
          context-eq-ok "get recovery codes" _ unused,
          fits,
          used ∙ ap (λ (t : Site S). (ok tt, t.database)) (sym last),
        ),
        ap (λ (t : Site S). t.world) last ∙ kept,
      )

  mfa_secret_of-eq-ok :
      (o : Option Bytes) (s : Site S) (e : Bytes)
      → (mfa_secret_of S o s).0 ≡ ok e
      → (o ≡ some e) × ((mfa_secret_of S o s).1 ≡ s)
  unfolding mfa_secret_of
  mfa_secret_of-eq-ok none s e h = absurd (ground arith)
  mfa_secret_of-eq-ok (some x) s e h = (ap some (ok_injective h), refl)

  -- The server after a refresh token has been issued to a user.
  abbrev pub issued : Bytes → Uuid → World S.valkey.State → World S.valkey.State
  issued fresh user_id w =
      (create_refresh_token S.valkey S.uuid_text fresh user_id S.jwt_refresh_ttl w).1

  complete_mfa_login-eq-ok :
      (fresh : Bytes) (c : Credentials) (s : Site S) (r : AuthResult)
      → (complete_mfa_login S fresh c s).0 ≡ ok r
      → (r.user ≡ c.user)
        × ((complete_mfa_login S fresh c s).1.database ≡ s.database)
        × ((complete_mfa_login S fresh c s).1.world ≡ issued fresh c.user.id s.world)
  unfolding complete_mfa_login issue_tokens
  complete_mfa_login-eq-ok fresh c s r h =
      let (_, issue, done, last) = >>=-ran _ _ _ _ h in
      let (_, _, created, last') = >>=-ran _ _ _ _ issue in
      let (_, _, _, last'') = >>=-ran _ _ _ _ created in
      let end = last ∙ last' ∙ last'' in
      (
        sym (ap (λ a. a.user) (ok_injective done)),
        ap (λ (t : Site S). t.database) end,
        ap (λ (t : Site S). t.world) end,
      )

  -- A login with a second factor that succeeds consumed an accepted ticket of a user, whose account it
  -- returns. Either the code is that of the account's decrypted secret at the time, and the database is
  -- as it was; or it is one of the user's unused recovery codes, and the database is the one in which
  -- this code has been marked as used. On the server the ticket has been consumed, and then a refresh
  -- token for the account has been created, and nothing else was called.
  pub verify_mfa-Checked :
      (fresh : Bytes) (now : ℕ) (ticket code : Bytes) (s : Site S) (r : AuthResult)
      → (verify_mfa S fresh now ticket code s).0 ≡ ok r
      → (user_id : Uuid) × (c : Credentials) × (encrypted : Bytes) × (secret : Bytes)
        × ((consume_mfa_ticket S.valkey S.uuid_text ticket s.world).0 ≡ ok user_id)
        × (S.users.get_credentials_by_id user_id s.database ≡ ok c)
        × (c.mfa_secret ≡ some encrypted)
        × (S.decrypt_totp_secret encrypted ≡ ok secret)
        × (r.user ≡ c.user)
        × Checked now secret user_id code s.database
            (verify_mfa S fresh now ticket code s).1.database
        × ((verify_mfa S fresh now ticket code s).1.world
            ≡ issued fresh c.user.id (consume_mfa_ticket S.valkey S.uuid_text ticket s.world).1)
  unfolding verify_mfa
  verify_mfa-Checked fresh now ticket code s r h =
      let (user_id, consumed, h1, e1) = >>=-ran _ _ _ _ h in
      let (c, creds, h2, e2) = >>=-ran _ _ _ _ h1 in
      let (encrypted, has, h3, e3) = >>=-ran _ _ _ _ h2 in
      let (u, configured, h4, e4) = >>=-ran _ _ _ _ h3 in
      let (secret, decrypted, h5, e5) = >>=-ran _ _ _ _ h4 in
      let (x, checked, h6, e6) = >>=-ran _ _ _ _ h5 in
      let (some_secret, kept) = mfa_secret_of-eq-ok c.mfa_secret _ encrypted has in
      let (_, kept') = refuse_if-eq-ok (not S.mfa_configured) mfa_not_configured _ configured in
      let (fits, called) =
        check_code-eq-ok "try recovery code during login" now secret user_id code
          (S.totp_validate now code secret) _ x refl checked in
      let (same, final, world) = complete_mfa_login-eq-ok fresh c _ r h6 in
      let end = e1 ∙ e2 ∙ e3 ∙ e4 ∙ e5 ∙ e6 in
      let before = kept' ∙ kept in
      (
        user_id,
        c,
        encrypted,
        secret,
        consumed,
        context-eq-ok "get credentials for MFA verify" _ creds,
        some_secret,
        context-eq-ok "decrypt MFA secret" _ decrypted,
        same,
        along now secret user_id code (ap (λ (t : Site S). t.database) before)
            (sym (ap (λ (t : Site S). t.database) end ∙ final)) fits,
        ap (λ (t : Site S). t.world) end
            ∙ world
            ∙ ap (issued fresh c.user.id) (called ∙ ap (λ (t : Site S). t.world) before),
      )
