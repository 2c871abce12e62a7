-- ===== src/Auth/Pending.antt =====
-- internal/auth/mfa_pending.go: the pending secret of a second factor, and the counter of wrong codes.
use uncord_server.Prelude.{
  ℕ, ◌==◌, if◌then◌else◌, Option, none, some, ◌++◌, Bytes, codes, Result, ok, err, ◌>>=◌, context,
  invalid_token,
}
use uncord_server.Uuid.{Uuid, UuidText}
use uncord_server.Valkey.{Valkey}
use uncord_server.Valkey.Counters.{Counters}
use uncord_server.Valkey.Call.{World, call}
use uncord_server.Auth.Ticket.{get_del}

abbrev pub pending_mfa_ttl : ℕ
pending_mfa_ttl = 600

abbrev pub max_mfa_setup_attempts : ℕ
max_mfa_setup_attempts = 5

-- The keys take the text of the user's UUID.
abbrev pub mfa_pending_key : Bytes → Bytes
mfa_pending_key user = codes "mfa_pending:" ++ user

abbrev pub mfa_pending_attempts_key : Bytes → Bytes
mfa_pending_attempts_key user = codes "mfa_pending_attempts:" ++ user

-- A missing key is `redis.Nil`.
unfoldable pub pending_secret : Option Bytes → Result Bytes
pending_secret none = err invalid_token
pending_secret (some val) = ok val

module _ (V : Valkey) (N : Counters V) (T : UuidText) where
  open V use {State, set, del, expire, elapse}
  open N use {count_at, incr}
  open T use {to_text}

  unfoldable pub store_pending_mfa_secret :
      Uuid → Bytes → World State → Result (Unit {0}) × World State
  store_pending_mfa_secret user_id secret w =
      let (r, w') =
        call {A = Unit {0}} elapse
          (λ s. (tt, set (mfa_pending_key (to_text user_id)) secret pending_mfa_ttl s)) w in
      (context "store pending MFA secret" r, w')

  unfoldable pub consume_pending_mfa_secret : Uuid → World State → Result Bytes × World State
  consume_pending_mfa_secret user_id w =
      let (r, w') = call elapse (get_del V T (mfa_pending_key (to_text user_id))) w in
      (context "consume pending MFA secret" r >>= pending_secret, w')

  -- The script: INCR, EXPIRE for a count that has just begun, and the new count is returned.
  unfoldable pub incr_with_ttl : Bytes → ℕ → State → ℕ × State
  incr_with_ttl key seconds s =
      let s' = incr key s in
      let count = count_at key s' in (count, if count == 1 then expire key seconds s' else s')

  unfoldable pub increment_mfa_setup_attempts : Uuid → World State → Result ℕ × World State
  increment_mfa_setup_attempts user_id w =
      let (r, w') =
        call elapse (incr_with_ttl (mfa_pending_attempts_key (to_text user_id)) pending_mfa_ttl)
          w in
      (context "increment MFA setup attempts" r, w')

  unfoldable pub reset_mfa_setup_attempts : Uuid → World State → Result (Unit {0}) × World State
  reset_mfa_setup_attempts user_id w =
      let (r, w') =
        call {A = Unit {0}} elapse (λ s. (tt, del (mfa_pending_attempts_key (to_text user_id)) s))
          w in
      (context "reset MFA setup attempts" r, w')
