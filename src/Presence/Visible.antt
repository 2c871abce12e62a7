-- ===== src/Presence/Visible.antt =====
-- What the presence calls show of a status that was set.
use uncord_server.Prelude.{
  ℕ, ◌≡◌, refl, subst, ap, ◌∙◌, Bool, true, false, inl, inr, All, All-imp, Option, none, some, List,
  [], ◌∷◌, map, arith, Bytes, bytes_eq, bytes_eq_refl, Bool-cases, if◌then◌else◌, ltb, contains, ok,
  context, >>=-eq-ok, context-eq-ok, ok_injective,
}
use uncord_server.Uuid.{Uuid, UuidText}
use uncord_server.Valkey.{Valkey}
use uncord_server.Valkey.Call.{World, Weather, answered, call, call_reply, call-answered}
use uncord_server.Presence.{
  presence_ttl, status_invisible, status_offline, PresenceState, presence_key, set_presence,
  found_status, get_presence, visible, get_many_presence,
}

module _ (V : Valkey) (T : UuidText) where
  open V use {State, string_at, ttl, set, del, elapse}
  open T use {to_text}

  -- The key of a value that was just set, some time later.
  pub string-elapse-set :
      (key v : Bytes) (lifetime n : ℕ) (s : State)
      → string_at key (elapse n (set key v lifetime s)) ≡ (if ltb n lifetime then some v else none)
  string-elapse-set key v lifetime n s = ground (
    arith,
    V.string-elapse n (set key v lifetime s) key,
    V.string-set key v lifetime s key,
    V.ttl-set key v lifetime s key,
    bytes_eq_refl key,
  )

  found_if :
      (b : Bool) (status : Bytes)
      → found_status V T (if b then some status else none) ≡ (if b then status else status_offline)
  unfolding found_status
  found_if true status = refl
  found_if false status = refl

  -- After a status was set, the next call that is answered reads that status before 120 seconds have
  -- passed, and reads the user as offline from then on.
  pub set_presence-get_presence :
      (user_id : Uuid) (status : Bytes) (n : ℕ) (ws : List Weather) (w : World State)
      → (set_presence V T user_id status w).0 ≡ ok tt
      → (set_presence V T user_id status w).1.schedule
        ≡ record { elapsed = n; link = answered } ∷ ws
      → (get_presence V T user_id (set_presence V T user_id status w).1).0
        ≡ ok (if ltb n presence_ttl then status else status_offline)
  unfolding set_presence get_presence
  set_presence-get_presence user_id status n ws w done next =
      let key = presence_key V T user_id in
      let command : State → Unit {0} × State = λ s. (tt, set key status presence_ttl s) in
      let (s, _, _, after) =
        call_reply elapse command (λ _. Unit {0}) (λ _ _ _. tt) w tt tt
          (context-eq-ok "set presence" (call elapse command w).0 done) in
      rw
        (
          call-answered elapse (λ s. (string_at key s, s)) (call elapse command w).1 n ws next,
          after,
          string-elapse-set key status presence_ttl n s,
          found_if (ltb n presence_ttl) status,
        )
        refl

  -- A state that may be shown: stored for one of the asked users, and not invisible.
  abbrev pub Shown : State → List Uuid → PresenceState → Type 0
  Shown s ids p =
      (id : Uuid) × (contains id ids ≡ true)
      × (p.user_id ≡ to_text id)
      × (string_at (presence_key V T id) s ≡ some p.status)
      × (bytes_eq p.status status_invisible ≡ false)

  Shown-later :
      (s : State) (i : Uuid) (ids : List Uuid) (p : PresenceState)
      → Shown s ids p
      → Shown s (i ∷ ids) p
  Shown-later s i ids p (id, a, b, c, d) = (id, ground (arith, a), b, c, d)

  visible-Shown :
      (s : State) (ids : List Uuid)
      → All (Shown s ids) (visible V T ids (map (λ i. string_at (presence_key V T i) s) ids))
  unfolding visible
  visible-Shown s [] = tt
  visible-Shown s (id ∷ ids) =
      first (All-imp _ (λ p. Shown-later s id ids p) (visible-Shown s ids))
        (string_at (presence_key V T id) s) refl
    where
      first :
          (rest : All
            (Shown s (id ∷ ids))
            (visible V T ids (map (λ i. string_at (presence_key V T i) s) ids)))
          → (o : Option Bytes) → string_at (presence_key V T id) s ≡ o
          → All
              (Shown s (id ∷ ids))
              (visible V T (id ∷ ids) (o ∷ map (λ i. string_at (presence_key V T i) s) ids))
      first rest none e = rest
      first rest (some status) e = elim (Bool-cases (bytes_eq status status_invisible)) [
        | inl hidden ↦ rw (hidden) rest
        | inr seen ↦ rw (seen) ((id, ground arith, refl, e, seen), rest)
      ]

  -- The server's state after some waiting.
  pub data Later (s : State) : State → Type 0 where
    now : Later s s
    wait : {t : State} (n : ℕ) → Later s t → Later s (elapse n t)

  -- All that the bulk read shows is the stored status of a user that was asked for, and no user who is
  -- invisible is shown; the statuses are those of the server at the time of the read.
  pub get_many_presence-Shown :
      (ids : List Uuid) (w : World State) (ps : List PresenceState)
      → (get_many_presence V T ids w).0 ≡ ok ps
      → (s : State) × Later w.server s × All (Shown s ids) ps
  unfolding get_many_presence
  get_many_presence-Shown [] w ps h =
      (w.server, now, subst (All (Shown w.server [])) (ok_injective h) tt)
  get_many_presence-Shown (id ∷ ids) w ps h =
      let command : State → List (Option Bytes) × State =
        λ s. (map (λ i. string_at (presence_key V T i) s) (id ∷ ids), s) in
      let (vals, got, r) =
        >>=-eq-ok (context "mget presence" (call elapse command w).0)
          (λ vals. ok (visible V T (id ∷ ids) vals)) h in
      let (s, later, e, _) =
        call_reply elapse command (Later w.server) (λ n _. wait n) w vals now
          (context-eq-ok "mget presence" (call elapse command w).0 got) in
      (
        s,
        later,
        subst (All (Shown s (id ∷ ids))) (ap (visible V T (id ∷ ids)) e ∙ ok_injective r)
            (visible-Shown s (id ∷ ids)),
      )
