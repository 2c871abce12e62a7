-- ===== src/Gateway/Session.antt =====
-- internal/gateway/session.go: the sessions of disconnected clients and their replay buffers, in Valkey.
-- A pipeline is one call. Time stamps are arguments.
pub mod Buffer
pub mod Replay
pub mod Resume
use uncord_server.Prelude.{
  ℕ, ◌≡◌, Bool, true, false, Option, none, some, List, [], ◌∷◌, ◌++◌, Bytes, codes, ltb,
  if◌then◌else◌, Result, ok, err, ◌>>=◌, context, session_not_found,
}
use uncord_server.Strconv.{ℤ, pos, negsuc}
use uncord_server.Uuid.{Uuid, UuidText}
use uncord_server.Valkey.{Valkey}
use uncord_server.Valkey.Lists.{Lists}
use uncord_server.Valkey.Call.{World, call}
use uncord_server.Gateway.Frame.{Frame}

pub record SessionData : Type 0 where
  pub user_id : Bytes
  pub last_seq : ℕ
  pub disconnected_at : ℕ

-- A dispatch frame with its sequence number.
pub record ReplayEntry : Type 0 where
  pub seq : ℕ
  pub payload : Frame

-- The package encoding/json on the two types: what is written is read back.
pub record Codec : Type 0 where
  pub write_session : SessionData → Bytes
  pub read_session : Bytes → Result SessionData
  pub write_entry : ReplayEntry → Bytes
  pub read_entry : Bytes → Option ReplayEntry
  pub read_session-write_session : (d : SessionData) → read_session (write_session d) ≡ ok d
  pub read_entry-write_entry : (e : ReplayEntry) → read_entry (write_entry e) ≡ some e

pub record LoadedSession : Type 0 where
  pub user_id : Uuid
  pub last_seq : ℕ

-- `SessionStore`: the lifetime and the size of the buffers.
pub record SessionStore : Type 0 where
  pub ttl : ℕ
  pub max_replay : ℕ

abbrev pub session_key : Bytes → Bytes
session_key session_id = codes "gwsession:" ++ session_id

abbrev pub replay_key : Bytes → Bytes
replay_key session_id = codes "gwreplay:" ++ session_id

-- `seq > after`, where the number that a client sends may be negative.
abbrev pub is_after : ℤ → ℕ → Bool
is_after (pos n) seq = ltb n seq
is_after (negsuc n) seq = true

module _ (V : Valkey) (L : Lists V) (T : UuidText) (J : Codec) (store : SessionStore) where
  open V use {State, string_at, set, del, expire, elapse}
  open L use {list_at, rpush, ltrim}
  open T use {to_text, of_text}

  unfoldable pub save_session : Bytes → Uuid → ℕ → ℕ → World State → Result (Unit {0}) × World State
  save_session session_id user_id last_seq now w =
      let sd =
        J.write_session
          (record { user_id = to_text user_id; last_seq = last_seq; disconnected_at = now }) in
      let (r, w') =
        call {A = Unit {0}} elapse
          (λ s. (
            tt,
            expire (replay_key session_id) store.ttl (set (session_key session_id) sd store.ttl s),
          ))
          w in
      (context "save session" r, w')

  unfoldable pub loaded : Option Bytes → Result LoadedSession
  loaded none = err session_not_found
  loaded (some raw) = do
    sd ← context "unmarshal session" (J.read_session raw)
    user_id ← context "parse session user ID" (of_text sd.user_id)
    ok (record { user_id = user_id; last_seq = sd.last_seq })

  unfoldable pub load_session : Bytes → World State → Result LoadedSession × World State
  load_session session_id w =
      let (r, w') = call elapse (λ s. (string_at (session_key session_id) s, s)) w in
      (context "load session" r >>= loaded, w')

  unfoldable pub delete_session : Bytes → World State → Result (Unit {0}) × World State
  delete_session session_id w =
      let (r, w') =
        call {A = Unit {0}} elapse
          (λ s. (tt, del (replay_key session_id) (del (session_key session_id) s))) w in
      (context "delete session" r, w')

  -- RPUSH, LTRIM and EXPIRE in one pipeline.
  unfoldable pub append_command : Bytes → ReplayEntry → State → Unit {0} × State
  append_command key entry s =
      (tt, expire key store.ttl (ltrim key store.max_replay (rpush key (J.write_entry entry) s)))

  unfoldable pub append_replay : Bytes → ℕ → Frame → World State → Result (Unit {0}) × World State
  append_replay session_id seq payload w =
      let (r, w') =
        call elapse
          (append_command (replay_key session_id) (record { seq = seq; payload = payload })) w in
      (context "append replay" r, w')

  -- The loop over the items: malformed ones are skipped.
  unfoldable pub missed : ℤ → List Bytes → List Frame
  missed after [] = []
  missed after (item ∷ items) =
      let rest = missed after items in
      elim (J.read_entry item) [
        | none ↦ rest
        | some entry ↦ if is_after after entry.seq then entry.payload ∷ rest else rest
      ]

  unfoldable pub replay : Bytes → ℤ → World State → Result (List Frame) × World State
  replay session_id after w =
      let (r, w') = call elapse (λ s. (list_at (replay_key session_id) s, s)) w in
      (context "read replay buffer" r >>= λ raw. ok (missed after raw), w')
