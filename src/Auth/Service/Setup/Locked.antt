-- ===== src/Auth/Service/Setup/Locked.antt =====
-- How often a code may be guessed during the setup.
use uncord_server.Prelude.{
  of_either, ℕ, zero, suc, ◌==◌, if◌then◌else◌, Option, some, ◌≤◌, ◌<◌, ◌≡◌, refl, sym, ◌∙◌, ap,
  subst, true, false, not, ◌⊎◌, inl, inr, Bool-cases, none, some, List, [], Bytes, bytes_eq,
  bytes_eq_refl, leb, invalid_mfa_code, Result, ok, err, context, arith,
}
use uncord_server.Actions.{◌>>=◌ as then, >>=-first, refuse_if}
use uncord_server.Uuid.{Uuid}
use uncord_server.Valkey.Call.{World, call}
use uncord_server.Auth.Pending.{
  mfa_pending_key, mfa_pending_attempts_key, pending_mfa_ttl, max_mfa_setup_attempts,
  pending_secret, store_pending_mfa_secret, consume_pending_mfa_secret, incr_with_ttl,
  increment_mfa_setup_attempts,
}
use uncord_server.Auth.Service.{Service, Site}
use uncord_server.Auth.Service.Mfa.{mfa_not_configured}
use uncord_server.Auth.Service.Setup.{
  mfa_setup_locked, store_again, count_wrong_code, confirm_code, confirm_mfa_setup,
}

keys_apart : (a b : Bytes) → bytes_eq (mfa_pending_key a) (mfa_pending_attempts_key b) ≡ false
unfolding bytes_eq
keys_apart a b = refl

keys_apart' : (a b : Bytes) → bytes_eq (mfa_pending_attempts_key a) (mfa_pending_key b) ≡ false
unfolding bytes_eq
keys_apart' a b = refl

module _ (S : Service) (user_id : Uuid) where
  open S use {valkey, counters, uuid_text}
  open valkey use {State, string_at, ttl, set, del, expire}
  open counters use {count_at, incr}

  abbrev pending : Bytes
  pending = mfa_pending_key (uuid_text.to_text user_id)

  abbrev attempts : Bytes
  attempts = mfa_pending_attempts_key (uuid_text.to_text user_id)

  abbrev calm : State → World State
  calm v = record { server = v; schedule = [] }

  consumed :
      (v : State) (e : Bytes)
      → string_at pending v ≡ some e
      → consume_pending_mfa_secret valkey counters uuid_text user_id (calm v)
        ≡ (ok e, calm (del pending v))
  unfolding consume_pending_mfa_secret pending_secret call
  consumed v e found = rw (found, pending_secret) refl

  abbrev run_script : State → State
  run_script v = (incr_with_ttl valkey counters uuid_text attempts pending_mfa_ttl v).1

  stored :
      (v : State) (e : Bytes)
      → store_pending_mfa_secret valkey counters uuid_text user_id e (calm v)
        ≡ (ok tt, calm (set pending e pending_mfa_ttl v))
  unfolding store_pending_mfa_secret call
  stored v e = refl

  -- What the script keeps in both of its branches.
  script-keeps {ℓ} :
      (P : State → Type ℓ) (v : State)
      → P (incr attempts v)
      → P (expire attempts pending_mfa_ttl (incr attempts v))
      → P (run_script v)
  unfolding incr_with_ttl
  script-keeps P v h k = of_either P (count_at attempts (incr attempts v) == 1) k h

  incremented : (v : State) → count_at attempts (incr attempts v) ≡ suc (count_at attempts v)
  incremented v = counters.count-incr attempts v attempts ∙ rw (bytes_eq_refl attempts) refl

  counted :
      (v : State)
      → increment_mfa_setup_attempts valkey counters uuid_text user_id (calm v)
        ≡ (ok (suc (count_at attempts v)), calm (run_script v))
  unfolding increment_mfa_setup_attempts incr_with_ttl call
  counted v = ap (λ n. (ok n, calm (run_script v))) (incremented v)

  count_script : (v : State) → count_at attempts (run_script v) ≡ suc (count_at attempts v)
  count_script v =
      script-keeps (λ s. count_at attempts s ≡ suc (count_at attempts v)) v (incremented v)
        (counters.count-expire attempts pending_mfa_ttl (incr attempts v) attempts (omega arith)
          ∙ incremented v)

  string_script : (v : State) → string_at pending (run_script v) ≡ string_at pending v
  string_script v =
      script-keeps (λ s. string_at pending s ≡ string_at pending v) v kept
        (valkey.string-expire attempts pending_mfa_ttl (incr attempts v) pending ∙ kept)
    where
      kept : string_at pending (incr attempts v) ≡ string_at pending v
      kept =
          counters.string-incr attempts v pending
            (keys_apart' (uuid_text.to_text user_id) (uuid_text.to_text user_id))

  -- The time of the counter starts with the first wrong code.
  abbrev time_after : ℕ → Option ℕ → Option ℕ
  time_after count before = if count == 0 then some pending_mfa_ttl else before

  ttl_script :
      (v : State) → ttl attempts (run_script v) ≡ time_after (count_at attempts v) (ttl attempts v)
  unfolding incr_with_ttl
  ttl_script v = by_count (count_at attempts v) refl
    where
      first : State
      first = incr attempts v

      by_count :
          (n : ℕ)
          → count_at attempts v ≡ n
          → ttl attempts (run_script v) ≡ time_after n (ttl attempts v)
      by_count zero e =
          ap (λ n. ttl attempts (if n == 1 then expire attempts pending_mfa_ttl first else first))
            (incremented v ∙ ap suc e)
          ∙ counters.ttl-expire attempts pending_mfa_ttl (incr attempts v) attempts (omega arith)
              (omega (arith, incremented v))
          ∙ rw (bytes_eq_refl attempts) refl
      by_count (suc n) e =
          ap (λ n. ttl attempts (if n == 1 then expire attempts pending_mfa_ttl first else first))
            (incremented v ∙ ap suc e)
          ∙ ap (λ b. ttl attempts (if b then expire attempts pending_mfa_ttl first else first))
              later
          ∙ counters.ttl-incr attempts v attempts (omega (arith, e))
          ∙ ap (λ b. if b then some pending_mfa_ttl else ttl attempts v) (sym never)
        where
          later : (suc (suc n) == 1) ≡ false
          later = ground arith

          never : (suc n == 0) ≡ false
          never = ground arith

  -- The server after the secret has been taken and the code counted.
  abbrev taken : State → State
  taken v = run_script (del pending v)

  count_del : (v : State) → count_at attempts (del pending v) ≡ count_at attempts v
  count_del v =
      counters.count-del pending v attempts
      ∙ rw (keys_apart (uuid_text.to_text user_id) (uuid_text.to_text user_id)) refl

  count_taken : (v : State) → count_at attempts (taken v) ≡ suc (count_at attempts v)
  count_taken v = count_script (del pending v) ∙ ap suc (count_del v)

  ttl_taken :
      (v : State) → ttl attempts (taken v) ≡ time_after (count_at attempts v) (ttl attempts v)
  ttl_taken v =
      ttl_script (del pending v)
      ∙ ap (λ n. time_after n (ttl attempts (del pending v))) (count_del v)
      ∙ ap (time_after (count_at attempts v)) (
          valkey.ttl-del pending v attempts
            (keys_apart (uuid_text.to_text user_id) (uuid_text.to_text user_id)))

  string_taken : (v : State) → string_at pending (taken v) ≡ none
  string_taken v =
      string_script (del pending v)
      ∙ valkey.string-del pending v pending
      ∙ rw (bytes_eq_refl pending) refl

  -- A wrong code is counted, and the count lives ten minutes from the first one on. The fifth one locks the setup: the pending secret is gone. Before that the
  -- secret stays.
  abbrev pub Counted : Bytes → State → Result (List Bytes) × Site S → Type 0
  Counted e v out =
      (count_at attempts out.1.world.server ≡ suc (count_at attempts v))
      × (ttl attempts out.1.world.server ≡ time_after (count_at attempts v) (ttl attempts v))
      × (((5 ≤ suc (count_at attempts v))
            × (out.0 ≡ err mfa_setup_locked)
            × (string_at pending out.1.world.server ≡ none))
          ⊎ ((suc (count_at attempts v) < 5)
              × (out.0 ≡ err invalid_mfa_code)
              × (string_at pending out.1.world.server ≡ some e)
              × (ttl pending out.1.world.server ≡ some pending_mfa_ttl)))

  count_wrong_code-Counted :
      (e : Bytes) (v : State) (s : Site S)
      → s.world ≡ calm (del pending v)
      → Counted e v (count_wrong_code S user_id e s)
  unfolding count_wrong_code store_again store_pending_mfa_secret call then
  count_wrong_code-Counted e v s is =
      elim (Bool-cases (leb max_mfa_setup_attempts (suc (count_at attempts v)))) [
        | inl many ↦
            rw (is, counted (del pending v), count_del v, many)
              (count_taken v, ttl_taken v, inl ((ground arith), refl, string_taken v))
        | inr few ↦
            rw (is, counted (del pending v), count_del v, few)
              (counted_again, timed_again, inr ((ground arith), refl, kept_again, renewed))
      ]
    where
      counted_again :
          count_at attempts (set pending e pending_mfa_ttl (taken v)) ≡ suc (count_at attempts v)
      counted_again =
          counters.count-set pending e pending_mfa_ttl (taken v) attempts
            (keys_apart (uuid_text.to_text user_id) (uuid_text.to_text user_id))
          ∙ count_taken v

      timed_again :
          ttl attempts (set pending e pending_mfa_ttl (taken v))
          ≡ time_after (count_at attempts v) (ttl attempts v)
      timed_again =
          valkey.ttl-set pending e pending_mfa_ttl (taken v) attempts
          ∙ rw (keys_apart (uuid_text.to_text user_id) (uuid_text.to_text user_id)) (ttl_taken v)

      renewed : ttl pending (set pending e pending_mfa_ttl (taken v)) ≡ some pending_mfa_ttl
      renewed =
          valkey.ttl-set pending e pending_mfa_ttl (taken v) pending
          ∙ rw (bytes_eq_refl pending) refl

      kept_again : string_at pending (set pending e pending_mfa_ttl (taken v)) ≡ some e
      kept_again =
          valkey.string-set pending e pending_mfa_ttl (taken v) pending
          ∙ rw (bytes_eq_refl pending) refl

  -- Where second factors are configured, the pending secret can be decrypted, and all calls are answered
  -- at once, a wrong code for the secret adds one to the count of the user's wrong codes. The first one
  -- lets the count live for ten minutes, and a later one leaves its time as it is. If it is the fifth one
  -- or a later one, the setup is refused as locked and the secret is gone; before that it is refused as
  -- wrong, and the secret stays and has ten minutes again.
  pub confirm_mfa_setup-Counted :
      (codes : List Bytes) (now : ℕ) (code e secret : Bytes) (v : State) (s : Site S)
      → s.world ≡ calm v
      → S.mfa_configured ≡ true
      → string_at pending v ≡ some e
      → S.decrypt_totp_secret e ≡ ok secret
      → S.totp_validate now code secret ≡ false
      → Counted e v (confirm_mfa_setup S codes now user_id code s)
  unfolding confirm_mfa_setup confirm_code
  confirm_mfa_setup-Counted codes now code e secret v s is configured found decrypted wrong =
      let s' : Site S = record s { world = calm (del pending v) } in
      subst (Counted e v)
        (sym (
          >>=-first _ _ s tt s (ap (λ b. refuse_if (not b) mfa_not_configured s) configured)
          ∙ >>=-first _ _ s e s' (
              ap (λ r. (r.0, record s { world = r.1 }))
                (ap (consume_pending_mfa_secret valkey counters uuid_text user_id) is
                  ∙ consumed v e found))
          ∙ >>=-first _ _ s' secret s'
              (ap (λ r. (context "decrypt pending MFA secret" r, s')) decrypted)
          ∙ ap (λ b. confirm_code S codes user_id e b s') wrong))
        (count_wrong_code-Counted e v s' refl)
