-- ===== src/Gateway/Hub/Identity/Users.antt =====
-- Whom Identify and Resume make of a client.
use uncord_server.Prelude.{
  ℕ, ◌≡◌, refl, sym, ◌∙◌, ap, Bool, true, false, inl, inr, Bool-cases, List, [], Bytes, leb, ◌==◌,
  ==_refl, Result, ok, err, arith,
}
use uncord_server.Uuid.{Uuid}
use uncord_server.Json.{Document, object}
use uncord_server.Valkey.Call.{World}
use uncord_server.Presence.{get_presence}
use uncord_server.Gateway.Frame.{Frame}
use uncord_server.Gateway.Session.{LoadedSession, load_session}
use uncord_server.Gateway.Client.{Client}
use uncord_server.Gateway.Hub.{
  HubDeps, ReadyData, Hub, on_client, total_clients, register, publish_presence,
}
use uncord_server.Gateway.Hub.Registry.{SameWho}
use uncord_server.Gateway.Hub.Connect.{
  ResumeData, event_ready, event_resumed, is_ahead, send_dispatch, enqueue_all, become_identified,
  become_resumed, authenticate_token, greet, welcome, identify_user, refuse_resume, reads_offline,
  back_online, set_online, keep_presence, restore_presence, finish_resume, resume_replayed,
  resume_session, resume_user,
}
use uncord_server.Gateway.Hub.Entering.{
  enqueue-SameWho, send_dispatch-SameWho, closed-SameWho, resumed-SameWho,
}

-- Only an identified client has a user.
pub no_change : (a b : Bool) {T : Type 0} → a ≡ false → b ≡ a → b ≡ true → T
no_change a b e f g = absurd (ground arith)

module _ (D : HubDeps) where
  abbrev pub After : ℕ → Hub D → Hub D → Type 0
  After i h h' = SameWho (h.table i) (h'.table i)

  pub After-on_client :
      (i : ℕ) (f : Client → Client) (h : Hub D)
      → ((c : Client) → SameWho c (f c))
      → After i h (on_client D i f h)
  unfolding on_client
  After-on_client i f h same = rw (==_refl i) (same (h.table i))

  pub client_at :
      (i : ℕ) (f : Client → Client) (h : Hub D) → (on_client D i f h).table i ≡ f (h.table i)
  unfolding on_client
  client_at i f h = rw (==_refl i) refl

  register-table : (i : ℕ) (h : Hub D) → (register D i h).1.table ≡ h.table
  unfolding register
  register-table i h = elim (Bool-cases (leb D.gateway_max_connections (total_clients h.clients))) [
    | inl full ↦ rw (full, register) refl
    | inr room ↦ rw (room, register) refl
  ]

  greet-After :
      (i : ℕ) (u : Uuid) (payload : Document) (r : Result (Unit {0})) (h : Hub D)
      → After i h (greet D i u payload r h)
  unfolding greet publish_presence
  greet-After i u payload (err e) h = After-on_client i _ h (closed-SameWho _)
  greet-After i u payload (ok _) h =
      After-on_client i _ h (send_dispatch-SameWho event_ready payload)

  -- The client that has been registered is the one it was made.
  registered_user :
      (i : ℕ) (f : Client → Client) (h : Hub D)
      → ((register D i (on_client D i f h)).1.table i).user_id ≡ (f (h.table i)).user_id
  registered_user i f h =
      ap (λ t. (t i).user_id) (register-table i (on_client D i f h))
      ∙ ap (λ c. c.user_id) (client_at i f h)

  welcome-user :
      (i : ℕ) (u : Uuid) (sid : Bytes) (r : Result ReadyData) (h : Hub D)
      → (h.table i).identified ≡ false
      → ((welcome D i u sid r h).table i).identified ≡ true
      → ((welcome D i u sid r h).table i).user_id ≡ u
  unfolding welcome become_identified
  welcome-user i u sid (err e) h unknown known =
      no_change _ _ unknown (After-on_client i _ h (closed-SameWho _)).1 known
  welcome-user i u sid (ok ready) h unknown known =
      (greet-After i u _ _ _).0 ∙ registered_user i (become_identified u sid) h

  pub identify_user-user :
      (i : ℕ) (sid : Bytes) (r : Result Uuid) (h : Hub D)
      → (h.table i).identified ≡ false
      → ((identify_user D i sid r h).table i).identified ≡ true
      → r ≡ ok ((identify_user D i sid r h).table i).user_id
  unfolding identify_user
  identify_user-user i sid (err e) h unknown known =
      no_change _ _ unknown (After-on_client i _ h (closed-SameWho _)).1 known
  identify_user-user i sid (ok u) h unknown known =
      ap ok (sym (welcome-user i u sid _ _ unknown known))

  back_online-After :
      (i : ℕ) (u : Uuid) (r : Result (Unit {0})) (h : Hub D) → After i h (back_online D u r h)
  unfolding back_online publish_presence
  back_online-After i u (err e) h = (refl, refl)
  back_online-After i u (ok _) h = (refl, refl)

  restore_presence-After : (i : ℕ) (u : Uuid) (h : Hub D) → After i h (restore_presence D u h)
  unfolding restore_presence set_online keep_presence
  restore_presence-After i u h =
      elim (Bool-cases (reads_offline D (get_presence D.valkey D.uuid_text u h.world).0)) [
        | inl away ↦ rw (away) (back_online-After i u _ _)
        | inr here ↦ rw (here) (refl, refl)
      ]

  finish_resume-user :
      (i : ℕ) (u : Uuid) (sid : Bytes) (missed : List Frame) (r : Result (Unit {0})) (h : Hub D)
      → ((finish_resume D i u sid missed r h).table i).user_id ≡ (h.table i).user_id
  unfolding finish_resume
  finish_resume-user i u sid missed (err e) h = (After-on_client i _ h (closed-SameWho _)).0
  finish_resume-user i u sid missed (ok _) h =
      (restore_presence-After i u _).0
      ∙ (After-on_client i (λ c. send_dispatch event_resumed (object []) (enqueue_all missed c))
          (record h { world = _ }) (resumed-SameWho missed)).0

  resume_replayed-user :
      (i : ℕ) (u : Uuid) (sid : Bytes) (last : ℕ) (r : Result (List Frame)) (h : Hub D)
      → (h.table i).identified ≡ false
      → ((resume_replayed D i u sid last r h).table i).identified ≡ true
      → ((resume_replayed D i u sid last r h).table i).user_id ≡ u
  unfolding resume_replayed become_resumed refuse_resume
  resume_replayed-user i u sid last (err e) h unknown known =
      no_change _ _ unknown (After-on_client i _ h (enqueue-SameWho _)).1 known
  resume_replayed-user i u sid last (ok missed) h unknown known =
      finish_resume-user i u sid missed _ _ ∙ registered_user i (become_resumed u sid last) h

  -- What a resumption rests on: a session of the very user, whose last event the client is not ahead of.
  abbrev pub RestsOn : ResumeData → Result LoadedSession → Client → Type 0
  RestsOn rd r c =
      (s : LoadedSession) × (r ≡ ok s)
      × (s.user_id ≡ c.user_id)
      × (is_ahead rd.seq s.last_seq ≡ false)

  resume_session-RestsOn :
      (i : ℕ) (u : Uuid) (rd : ResumeData) (r : Result LoadedSession) (h : Hub D)
      → (h.table i).identified ≡ false
      → ((resume_session D i u rd r h).table i).identified ≡ true
      → (((resume_session D i u rd r h).table i).user_id ≡ u)
        × RestsOn rd r ((resume_session D i u rd r h).table i)
  unfolding resume_session refuse_resume
  resume_session-RestsOn i u rd (err e) h unknown =
      λ known. no_change _ _ unknown (After-on_client i _ h (enqueue-SameWho _)).1 known
  resume_session-RestsOn i u rd (ok s) h unknown = elim (Bool-cases (s.user_id == u)) [
    | inr other ↦
        rw (other)
          (λ known. no_change _ _ unknown (After-on_client i _ h (enqueue-SameWho _)).1 known)
    | inl own ↦ elim (Bool-cases (is_ahead rd.seq s.last_seq)) [
      | inl ahead ↦
          rw (own, ahead)
            (λ known. no_change _ _ unknown (After-on_client i _ h (enqueue-SameWho _)).1 known)
      | inr behind ↦
          rw (own, behind)
            (λ known.
              let is_u = resume_replayed-user i u rd.session_id s.last_seq _ _ unknown known in
              (is_u, (s, refl, (ground arith), behind)))
    ]
  ]

  -- The token's user is the client's, and the session that was loaded after it is that user's.
  abbrev pub ResumedBy : ResumeData → World D.valkey.State → Client → Type 0
  ResumedBy rd w c =
      ((authenticate_token D rd.token w).0 ≡ ok c.user_id)
      × RestsOn rd
          (load_session D.valkey D.lists D.uuid_text D.codec D.sessions rd.session_id
            (authenticate_token D rd.token w).1).0
          c

  pub resume_user-user :
      (i : ℕ) (rd : ResumeData) (r : Result Uuid) (h : Hub D)
      → (h.table i).identified ≡ false
      → ((resume_user D i rd r h).table i).identified ≡ true
      → (r ≡ ok ((resume_user D i rd r h).table i).user_id)
        × RestsOn rd
            (load_session D.valkey D.lists D.uuid_text D.codec D.sessions rd.session_id h.world).0
            ((resume_user D i rd r h).table i)
  unfolding resume_user
  resume_user-user i rd (err e) h unknown known =
      no_change _ _ unknown (After-on_client i _ h (closed-SameWho _)).1 known
  resume_user-user i rd (ok u) h unknown known =
      let (is_u, rests) = resume_session-RestsOn i u rd _ _ unknown known in
      (ap ok (sym is_u), rests)
