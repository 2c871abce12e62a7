-- ===== src/Gateway/Hub/Identity.antt =====
-- Who a connection becomes.
pub mod Users
use uncord_server.Prelude.{
  ℕ, ◌≡◌, refl, sym, ◌∙◌, ap, Bool, true, false, inl, inr, Bool-cases, List, [], ◌∷◌, Bytes,
  contains, leb, ◌==◌, ==_refl, Result, ok, err, arith,
}
use uncord_server.Uuid.{Uuid}
use uncord_server.Json.{Document, object}
use uncord_server.Valkey.Call.{World}
use uncord_server.Presence.{get_presence}
use uncord_server.Gateway.Frame.{Frame}
use uncord_server.Gateway.Session.{LoadedSession, load_session}
use uncord_server.Gateway.Client.{Client, CloseCode, close_send, rate_limited}
use uncord_server.Gateway.Hub.{
  HubDeps, ReadyData, Hub, on_client, total_clients, register, publish_presence, drop_client,
  save_on_disconnect, take_out, unregister, connections,
}
use uncord_server.Gateway.Hub.Registry.{SameWho}
use uncord_server.Gateway.Hub.Connect.{
  ResumeData, event_ready, event_resumed, is_ahead, send_dispatch, enqueue_all, become_identified,
  become_resumed, authenticate_token, greet, welcome, identify_user, handle_identify, refuse_resume,
  reads_offline, back_online, set_online, keep_presence, restore_presence, finish_resume,
  resume_replayed, resume_session, resume_user, handle_resume,
}
use uncord_server.Gateway.Hub.Steps.{
  Message, not_json, server_opcode, other_opcode, heartbeat, identify, presence_update, resume,
  close_client, client_heartbeat, with_token, client_identify, resume_fields, with_resume,
  client_resume, client_presence_update, end_client, route, receive,
}
use uncord_server.Gateway.Hub.Entering.{
  enqueue-SameWho, send_dispatch-SameWho, closed-SameWho, resumed-SameWho, rate-SameWho,
}
use uncord_server.Gateway.Hub.Identity.Users.{
  no_change, After, After-on_client, client_at, identify_user-user, RestsOn, ResumedBy,
  resume_user-user,
}

module _ (D : HubDeps) where
  -- The message that lets a client in: a token, and for a resumption a session.
  pub EnteredBy : Message → World D.valkey.State → Client → Type 0
  EnteredBy not_json w c = ⊥
  EnteredBy server_opcode w c = ⊥
  EnteredBy other_opcode w c = ⊥
  EnteredBy heartbeat w c = ⊥
  EnteredBy (presence_update r) w c = ⊥
  EnteredBy (identify (err e)) w c = ⊥
  EnteredBy (identify (ok token)) w c = (authenticate_token D token w).0 ≡ ok c.user_id
  EnteredBy (resume (err e)) w c = ⊥
  EnteredBy (resume (ok rd)) w c = ResumedBy D rd w c

  close_client-After :
      (i : ℕ) (code : CloseCode) (h : Hub D) → After D i h (close_client D i code h)
  unfolding close_client
  close_client-After i code h = After-on_client D i _ h (closed-SameWho code)

  with_token-user :
      (i : ℕ) (sid : Bytes) (r : Result Bytes) (h : Hub D)
      → (h.table i).identified ≡ false
      → ((with_token D i sid r h).table i).identified ≡ true
      → EnteredBy (identify r) h.world ((with_token D i sid r h).table i)
  unfolding with_token handle_identify EnteredBy
  with_token-user i sid (err e) h unknown known =
      no_change _ _ unknown (close_client-After i _ h).1 known
  with_token-user i sid (ok []) h unknown known =
      no_change _ _ unknown (close_client-After i _ h).1 known
  with_token-user i sid (ok (b ∷ token)) h unknown known =
      identify_user-user D i sid _ _ unknown known

  resume_fields-user :
      (i : ℕ) (rd : ResumeData) (token sid : Bytes) (h : Hub D)
      → (h.table i).identified ≡ false
      → ((resume_fields D i rd token sid h).table i).identified ≡ true
      → ResumedBy D rd h.world ((resume_fields D i rd token sid h).table i)
  unfolding resume_fields handle_resume
  resume_fields-user i rd [] sid h unknown known =
      no_change _ _ unknown (close_client-After i _ h).1 known
  resume_fields-user i rd (b ∷ token) [] h unknown known =
      no_change _ _ unknown (close_client-After i _ h).1 known
  resume_fields-user i rd (b ∷ token) (c ∷ sid) h unknown known =
      resume_user-user D i rd _ _ unknown known

  with_resume-user :
      (i : ℕ) (r : Result ResumeData) (h : Hub D)
      → (h.table i).identified ≡ false
      → ((with_resume D i r h).table i).identified ≡ true
      → EnteredBy (resume r) h.world ((with_resume D i r h).table i)
  unfolding with_resume EnteredBy
  with_resume-user i (err e) h unknown known =
      no_change _ _ unknown (close_client-After i _ h).1 known
  with_resume-user i (ok rd) h unknown known =
      resume_fields-user i rd rd.token rd.session_id h unknown known

  drop_client-table : (u : Uuid) (cs : List ℕ) (h : Hub D) → (drop_client D u cs h).table ≡ h.table
  unfolding drop_client
  drop_client-table u [] h = refl
  drop_client-table u (x ∷ xs) h = refl

  save-table :
      (i now : ℕ) (remaining : List ℕ) (h : Hub D)
      → (save_on_disconnect D i now remaining h).table ≡ h.table
  unfolding save_on_disconnect
  save-table i now [] h = refl
  save-table i now (x ∷ xs) h = refl

  take_out-identified :
      (i now : ℕ) (rest : List ℕ) (h : Hub D)
      → (h.table i).identified ≡ false
      → ((take_out D i now rest h).table i).identified ≡ false
  unfolding take_out close_send
  take_out-identified i now rest h unknown = rw (unknown) (
      ap (λ c. c.identified) (client_at D i close_send (drop_client D (h.table i).user_id rest h))
      ∙ ap (λ t. (t i).identified) (drop_client-table (h.table i).user_id rest h)
      ∙ unknown)

  unregister-identified :
      (i now : ℕ) (h : Hub D)
      → (h.table i).identified ≡ false
      → ((unregister D i now h).table i).identified ≡ false
  unfolding unregister
  unregister-identified i now h unknown =
      elim (Bool-cases (contains i (connections D (h.table i).user_id h))) [
        | inl present ↦ rw (present) (take_out-identified i now _ h unknown)
        | inr absent ↦ rw (absent) unknown
      ]

  end_client-identified :
      (i now : ℕ) (h : Hub D)
      → (h.table i).identified ≡ false
      → ((end_client D i now h).table i).identified ≡ false
  unfolding end_client
  end_client-identified i now h unknown =
      ap (λ c. c.identified) (client_at D i _ (unregister D i now h))
      ∙ unregister-identified i now h unknown

  ends :
      (i now : ℕ) (code : CloseCode) (h : Hub D) {T : Type 0}
      → (h.table i).identified ≡ false
      → ((end_client D i now (close_client D i code h)).table i).identified ≡ true
      → T
  ends i now code h unknown known =
      no_change _ _ unknown
        (end_client-identified i now _ ((close_client-After i code h).1 ∙ unknown) ∙ sym unknown)
        known

  route-EnteredBy :
      (i now : ℕ) (sid : Bytes) (m : Message) (h : Hub D)
      → (h.table i).identified ≡ false
      → ((route D i now sid m h).table i).identified ≡ true
      → EnteredBy m h.world ((route D i now sid m h).table i)
  unfolding route client_heartbeat client_identify client_resume client_presence_update
  route-EnteredBy i now sid not_json h unknown = λ known. ends i now _ h unknown known
  route-EnteredBy i now sid server_opcode h unknown = λ known. ends i now _ h unknown known
  route-EnteredBy i now sid other_opcode h unknown = λ known. no_change _ _ unknown refl known
  route-EnteredBy i now sid heartbeat h unknown =
      rw (unknown)
        (λ known. no_change _ _ unknown (After-on_client D i _ h (enqueue-SameWho _)).1 known)
  route-EnteredBy i now sid (presence_update r) h unknown =
      rw (unknown) (λ known. no_change _ _ unknown (close_client-After i _ h).1 known)
  route-EnteredBy i now sid (identify r) h unknown =
      rw (unknown) (with_token-user i sid r h unknown)
  route-EnteredBy i now sid (resume r) h unknown = rw (unknown) (with_resume-user i r h unknown)

  -- A message after which its sender, who was not identified, is identified carries a token that was
  -- accepted then, a gateway ticket or an access token, and the client is that token's user. If it resumes
  -- a session, the session exists, is that user's, and the client is not ahead of it.
  pub receive-EnteredBy :
      (i now : ℕ) (sid : Bytes) (m : Message) (h : Hub D)
      → (h.table i).identified ≡ false
      → ((receive D i now sid m h).table i).identified ≡ true
      → EnteredBy m h.world ((receive D i now sid m h).table i)
  unfolding receive on_client
  receive-EnteredBy i now sid m h unknown =
      let c = (rate_limited D.rate_limit_count D.rate_limit_window now (h.table i)).1 in
      let counted : ((on_client D i (λ _. c) h).table i).identified ≡ false =
        ap (λ k. k.identified) (client_at D i (λ _. c) h)
        ∙ (rate-SameWho _ _ now (h.table i)).1
        ∙ unknown in
      elim (Bool-cases (rate_limited D.rate_limit_count D.rate_limit_window now (h.table i)).0) [
        | inl over ↦ rw (over) (λ known. ends i now _ _ counted known)
        | inr within ↦ rw (within) (λ known. route-EnteredBy i now sid m _ counted known)
      ]
