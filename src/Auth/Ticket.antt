-- ===== src/Auth/Ticket.antt =====
-- internal/auth/gateway_ticket.go and internal/auth/mfa_ticket.go: single-use tickets in Valkey. A
-- ticket is the text that `uuid.New` makes, an argument. GETDEL is one command of the server.
pub mod Histories
pub mod SingleUse
pub mod Origin
use Prim.Native.String.{String}
use uncord_server.Prelude.{
  ℕ, Option, none, some, ◌++◌, Bytes, codes, Result, ok, err, ◌>>=◌, context, invalid_token,
}
use uncord_server.Uuid.{Uuid, UuidText}
use uncord_server.Valkey.{Valkey}
use uncord_server.Valkey.Call.{World, call}

abbrev pub gateway_ticket_ttl : ℕ
gateway_ticket_ttl = 30

abbrev pub gateway_ticket_key : Bytes → Bytes
gateway_ticket_key ticket = codes "gateway_ticket:" ++ ticket

abbrev pub mfa_ticket_key : Bytes → Bytes
mfa_ticket_key ticket = codes "mfa_ticket:" ++ ticket

module _ (V : Valkey) (T : UuidText) where
  open V use {State, string_at, set, del, elapse}
  open T use {to_text, of_text}

  unfoldable pub create_gateway_ticket : Bytes → Uuid → World State → Result Bytes × World State
  create_gateway_ticket ticket user_id w =
      let (r, w') =
        call {A = Unit {0}} elapse
          (λ s. (tt, set (gateway_ticket_key ticket) (to_text user_id) gateway_ticket_ttl s)) w in
      (context "store gateway ticket" r >>= λ _. ok ticket, w')

  unfoldable pub create_mfa_ticket : Bytes → Uuid → ℕ → World State → Result Bytes × World State
  create_mfa_ticket ticket user_id ttl w =
      let (r, w') =
        call {A = Unit {0}} elapse (λ s. (tt, set (mfa_ticket_key ticket) (to_text user_id) ttl s))
          w in
      (context "store MFA ticket" r >>= λ _. ok ticket, w')

  -- A missing key is `redis.Nil`.
  unfoldable pub ticket_user : String → Option Bytes → Result Uuid
  ticket_user what none = err invalid_token
  ticket_user what (some val) = context what (of_text val)

  abbrev pub get_del : Bytes → State → Option Bytes × State
  get_del key s = (string_at key s, del key s)

  unfoldable pub consume_gateway_ticket : Bytes → World State → Result Uuid × World State
  consume_gateway_ticket ticket w =
      let (r, w') = call elapse (get_del (gateway_ticket_key ticket)) w in
      (context "consume gateway ticket" r >>= ticket_user "parse user ID from gateway ticket", w')

  unfoldable pub consume_mfa_ticket : Bytes → World State → Result Uuid × World State
  consume_mfa_ticket ticket w =
      let (r, w') = call elapse (get_del (mfa_ticket_key ticket)) w in
      (context "consume MFA ticket" r >>= ticket_user "parse user ID from MFA ticket", w')
