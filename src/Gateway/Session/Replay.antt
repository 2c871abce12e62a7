-- ===== src/Gateway/Session/Replay.antt =====
-- The replay gives a client exactly what it has missed.
use uncord_server.Prelude.{
  ℕ, suc, ◌+◌, ◌-◌, ◌≤◌, ◌<◌, ◌≡◌, refl, sym, ◌∙◌, ap, inl, inr, Bool-cases, ltb, List, [], ◌∷◌,
  ◌++◌, map, length, length-append, drop, arith, Bytes, bytes_eq_refl, ok,
}
use uncord_server.Strconv.{pos}
use uncord_server.Uuid.{UuidText}
use uncord_server.Valkey.{Valkey}
use uncord_server.Valkey.Lists.{Lists, last_items}
use uncord_server.Valkey.Call.{World, call, call-calm}
use uncord_server.Gateway.Frame.{Frame}
use uncord_server.Gateway.Session.{
  Codec, ReplayEntry, SessionStore, replay_key, append_command, append_replay, replay,
}
use uncord_server.Gateway.Session.Buffer.{
  numbered, numbered-append, length-numbered, length-map, map-append, last_items_fits,
  last_items_full, written, missed-numbered,
}
use mathlib.Core.List.{append_assoc, append-nil}

module _ (V : Valkey) (L : Lists V) (T : UuidText) (J : Codec) (store : SessionStore) where
  open V use {State, expire, elapse}
  open L use {list_at, rpush, ltrim}

  -- The frames that a client is sent, one after the other.
  unfoldable pub append_all : Bytes → ℕ → List Frame → World State → World State
  append_all sid seq [] w = w
  append_all sid seq (f ∷ fs) w =
      append_all sid (suc seq) fs (append_replay V L T J store sid (suc seq) f w).1

  list-append_command :
      (key : Bytes) (e : ReplayEntry) (s : State)
      → list_at key (append_command V L T J store key e s).1
        ≡ last_items store.max_replay (list_at key s ++ J.write_entry e ∷ [])
  unfolding append_command
  list-append_command key e s =
      L.list-expire key store.ttl _ key
      ∙ ground (
        arith,
        bytes_eq_refl key,
        L.list-ltrim key store.max_replay (rpush key (J.write_entry e) s) key,
        L.list-rpush key (J.write_entry e) s key,
      )

  written-append :
      (t : ℕ) (rest : List Frame) (f : Frame)
      → written V L T J store t rest
          ++ J.write_entry (record { seq = suc (t + length rest); payload = f }) ∷ []
        ≡ written V L T J store t (rest ++ f ∷ [])
  written-append t rest f = sym (
      ap (map J.write_entry) (numbered-append t rest f)
      ∙ map-append J.write_entry (numbered t rest)
          (record { seq = suc (t + length rest); payload = f } ∷ []))

  length-written : (t : ℕ) (rest : List Frame) → length (written V L T J store t rest) ≡ length rest
  length-written t rest = length-map J.write_entry (numbered t rest) ∙ length-numbered t rest

  -- A buffer that holds the frames after `t`: one more, or one more and the oldest forgotten.
  append_fits :
      (key : Bytes) (t : ℕ) (rest : List Frame) (f : Frame) (s : State)
      → list_at key s ≡ written V L T J store t rest
      → length rest < store.max_replay
      → list_at key
          (append_command V L T J store key
            (record { seq = suc (t + length rest); payload = f })
            s).1
        ≡ written V L T J store t (rest ++ f ∷ [])
  append_fits key t rest f s held fits =
      list-append_command key (record { seq = suc (t + length rest); payload = f }) s
      ∙ ap (λ xs. last_items store.max_replay xs)
          (ap (λ xs. xs ++ J.write_entry (record { seq = suc (t + length rest); payload = f }) ∷ [])
              held
            ∙ written-append t rest f)
      ∙ last_items_fits store.max_replay _
          (omega (arith, length-written t (rest ++ f ∷ []), length-append rest (f ∷ [])))

  append_full :
      (key : Bytes) (t : ℕ) (r f : Frame) (rest : List Frame) (s : State)
      → list_at key s ≡ written V L T J store t (r ∷ rest)
      → suc (length rest) ≡ store.max_replay
      → list_at key
          (append_command V L T J store key
            (record { seq = suc (t + suc (length rest)); payload = f })
            s).1
        ≡ written V L T J store (suc t) (rest ++ f ∷ [])
  append_full key t r f rest s held full =
      list-append_command key (record { seq = suc (t + suc (length rest)); payload = f }) s
      ∙ ap (λ xs. last_items store.max_replay xs)
          (ap
              (λ xs.
                xs
                ++ J.write_entry (record { seq = suc (t + suc (length rest)); payload = f }) ∷ [])
              held
            ∙ written-append t (r ∷ rest) f)
      ∙ last_items_full store.max_replay (J.write_entry (record { seq = suc t; payload = r })) _
          (omega (arith, full))
          (omega
            (arith, length-written (suc t) (rest ++ f ∷ []), length-append rest (f ∷ []), full))

  append_replay-calm :
      (sid : Bytes) (seq : ℕ) (f : Frame) (w : World State)
      → w.schedule ≡ []
      → ((append_replay V L T J store sid seq f w).1.server
          ≡ (append_command V L T J store
              (replay_key sid)
              (record { seq = seq; payload = f })
              w.server).1)
        × ((append_replay V L T J store sid seq f w).1.schedule ≡ [])
  unfolding append_replay call
  append_replay-calm sid seq f w calm = rw (calm, call) (refl, refl)

  -- The buffer that a call finds, and the one that it leaves.
  abbrev Holds : Bytes → ℕ → List Frame → World State → Type 0
  Holds sid t rest w = list_at (replay_key sid) w.server ≡ written V L T J store t rest

  replay_here :
      (sid : Bytes) (t seen : ℕ) (rest : List Frame) (w : World State)
      → w.schedule ≡ []
      → Holds sid t rest w
      → t ≤ seen
      → (replay V L T J store sid (pos seen) w).0 ≡ ok (drop (seen - t) (rest ++ []))
  unfolding replay
  replay_here sid t seen rest w calm held old =
      let (answered, _) = call-calm elapse (λ s. (list_at (replay_key sid) s, s)) w calm in
      rw (answered, held)
        (ap ok (
          missed-numbered V L T J store t seen rest old
          ∙ ap (drop (seen - t)) (sym (append-nil rest))))

  moved :
      (sid : Bytes) (t t' n : ℕ) (rest rest' : List Frame) (f : Frame) (w : World State)
      → n ≡ t + length rest
      → w.schedule ≡ []
      → list_at
          (replay_key sid)
          (append_command V L T J store
            (replay_key sid)
            (record { seq = suc (t + length rest); payload = f })
            w.server).1
        ≡ written V L T J store t' rest'
      → Holds sid t' rest' (append_replay V L T J store sid (suc n) f w).1
  moved sid t t' n rest rest' f w at calm e = rw ((append_replay-calm sid (suc n) f w calm).0, at) e

  -- The frames after `t` are there, `rest` of them, and the frames `fs` follow.
  replay_from :
      (sid : Bytes) (t seen n : ℕ) (rest fs : List Frame) (w : World State)
      → n ≡ t + length rest
      → w.schedule ≡ []
      → Holds sid t rest w
      → length rest ≤ store.max_replay
      → 1 ≤ store.max_replay
      → t ≤ seen
      → n + length fs ≤ seen + store.max_replay
      → (replay V L T J store sid (pos seen) (append_all sid n fs w)).0
        ≡ ok (drop (seen - t) (rest ++ fs))
  unfolding append_all
  replay_from sid t seen n rest [] w at calm held fits least old enough =
      replay_here sid t seen rest w calm held old
  replay_from sid t seen n [] (f ∷ fs) w at calm held fits least old enough =
      replay_from sid t seen (suc n) (f ∷ []) fs (append_replay V L T J store sid (suc n) f w).1
        (omega (arith, at)) (append_replay-calm sid (suc n) f w calm).1
        (moved sid t t n [] (f ∷ []) f w at calm
          (append_fits (replay_key sid) t [] f w.server held (omega arith)))
        least least old (omega arith)
  replay_from sid t seen n (r ∷ rest) (f ∷ fs) w at calm held fits least old enough =
      elim (Bool-cases (ltb (suc (length rest)) store.max_replay)) [
        | inl room ↦
            replay_from sid t seen (suc n) (r ∷ (rest ++ f ∷ [])) fs
              (append_replay V L T J store sid (suc n) f w).1
              (omega (arith, length-append rest (f ∷ []), at))
              (append_replay-calm sid (suc n) f w calm).1
              (moved sid t t n (r ∷ rest) (r ∷ (rest ++ f ∷ [])) f w at calm
                (append_fits (replay_key sid) t (r ∷ rest) f w.server held (ground arith)))
              (ground (arith, length-append rest (f ∷ []))) least old (omega arith)
            ∙ ap (λ xs. ok (drop (seen - t) (r ∷ xs))) (append_assoc rest (f ∷ []) fs)
        | inr full ↦
            replay_from sid (suc t) seen (suc n) (rest ++ f ∷ []) fs
              (append_replay V L T J store sid (suc n) f w).1
              (omega (arith, length-append rest (f ∷ []), at))
              (append_replay-calm sid (suc n) f w calm).1
              (moved sid t (suc t) n (r ∷ rest) (rest ++ f ∷ []) f w at calm
                (append_full (replay_key sid) t r f rest w.server held (ground arith)))
              (ground (arith, length-append rest (f ∷ []))) least (ground arith) (omega arith)
            ∙ ap ok (
                ap (drop (seen - suc t)) (append_assoc rest (f ∷ []) fs)
                ∙ ap (λ k. drop k (r ∷ (rest ++ f ∷ fs))) {x = suc (seen - suc t)} {y = seen - t}
                    (ground arith))
      ]

  -- Of consecutive frames that were appended to an empty buffer, while all calls are answered, the replay
  -- after a sequence number returns exactly those with a greater one, in order, provided that the client
  -- misses no more than the buffer holds.
  pub replay-append_all :
      (sid : Bytes) (start seen : ℕ) (fs : List Frame) (w : World State)
      → w.schedule ≡ []
      → list_at (replay_key sid) w.server ≡ []
      → 1 ≤ store.max_replay
      → start ≤ seen
      → start + length fs ≤ seen + store.max_replay
      → (replay V L T J store sid (pos seen) (append_all sid start fs w)).0
        ≡ ok (drop (seen - start) fs)
  replay-append_all sid start seen fs w calm empty least old enough =
      replay_from sid start seen start [] fs w (omega arith) calm empty (omega arith) least old
        enough
