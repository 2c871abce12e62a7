-- ===== src/Gateway/Session/Resume.antt =====
-- A saved session is found again within its lifetime.
use uncord_server.Prelude.{
  ℕ, ◌<◌, ◌≡◌, refl, false, some, List, ◌∷◌, arith, Bytes, bytes_eq, bytes_eq_refl, ok,
  context-eq-ok,
}
use uncord_server.Uuid.{Uuid, UuidText}
use uncord_server.Valkey.{Valkey}
use uncord_server.Valkey.Lists.{Lists}
use uncord_server.Valkey.Call.{World, Weather, answered, call, call_reply, call-answered}
use uncord_server.Gateway.Session.{
  Codec, SessionData, SessionStore, session_key, replay_key, save_session, loaded, load_session,
}

keys_differ : (a b : Bytes) → bytes_eq (replay_key a) (session_key b) ≡ false
unfolding bytes_eq
keys_differ a b = refl

-- EXPIRE of another key keeps what time a key has.
abbrev pub KeepsOthers : Valkey → Type 0
KeepsOthers V =
    (k : Bytes) (t : ℕ) (s : V.State) (j : Bytes)
    → bytes_eq k j ≡ false
    → V.ttl j (V.expire k t s) ≡ V.ttl j s

module _ (V : Valkey) (L : Lists V) (T : UuidText) (J : Codec) (store : SessionStore) where
  open V use {State, string_at, ttl, set, expire, elapse}
  open T use {to_text, of_text}

  -- A session that was saved is loaded with its user and its sequence number, if the next call is
  -- answered within the lifetime of sessions.
  pub save_session-load_session :
      KeepsOthers V
      → (sid : Bytes) (id : Uuid) (seq now n : ℕ) (ws : List Weather) (w : World State)
      → (save_session V L T J store sid id seq now w).0 ≡ ok tt
      → (save_session V L T J store sid id seq now w).1.schedule
        ≡ record { elapsed = n; link = answered } ∷ ws
      → n < store.ttl
      → (load_session V L T J store sid (save_session V L T J store sid id seq now w).1).0
        ≡ ok (record { user_id = id; last_seq = seq })
  unfolding save_session load_session loaded
  save_session-load_session others sid id seq now n ws w done next h =
      let sd : SessionData = record {
        user_id = to_text id;
        last_seq = seq;
        disconnected_at = now;
      } in
      let command : State → Unit {0} × State = λ s. (
        tt,
        expire (replay_key sid) store.ttl (set (session_key sid) (J.write_session sd) store.ttl s),
      ) in
      let (s, _, _, after) =
        call_reply elapse command (λ _. Unit {0}) (λ _ _ _. tt) w tt tt
          (context-eq-ok "save session" (call elapse command w).0 done) in
      rw
        (
          call-answered elapse (λ s. (string_at (session_key sid) s, s)) (call elapse command w).1 n
              ws next,
          after,
          still s,
          J.read_session-write_session sd,
          T.of_text-to_text id,
        )
        refl
    where
      still :
          (s : State)
          → string_at (session_key sid) (
              elapse n (
                expire (replay_key sid) store.ttl (
                  set
                    (session_key sid)
                    (J.write_session
                      (record { user_id = to_text id; last_seq = seq; disconnected_at = now }))
                    store.ttl
                    s)))
            ≡ some (
                J.write_session
                  (record { user_id = to_text id; last_seq = seq; disconnected_at = now }))
      still s =
          let v =
            J.write_session
              (record { user_id = to_text id; last_seq = seq; disconnected_at = now }) in
          let s1 = set (session_key sid) v store.ttl s in
          ground (
            arith,
            V.string-elapse n (expire (replay_key sid) store.ttl s1) (session_key sid),
            V.string-expire (replay_key sid) store.ttl s1 (session_key sid),
            others (replay_key sid) store.ttl s1 (session_key sid) (keys_differ sid sid),
            V.ttl-set (session_key sid) v store.ttl s (session_key sid),
            V.string-set (session_key sid) v store.ttl s (session_key sid),
            bytes_eq_refl (session_key sid),
          )
