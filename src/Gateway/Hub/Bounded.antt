-- ===== src/Gateway/Hub/Bounded.antt =====
-- Every step of the gateway keeps the registry.
use uncord_server.Prelude.{
  ℕ, ◌≡◌, refl, false, inl, inr, Bool-cases, List, [], ◌∷◌, Bytes, Result, ok, err, arith,
}
use uncord_server.Uuid.{Uuid}
use uncord_server.Json.{Document}
use uncord_server.Presence.{valid_status}
use uncord_server.Gateway.Client.{Client, close_connection, pump, rate_limited}
use uncord_server.Gateway.Hub.{
  HubDeps, Hub, on_client, total_clients, finish_offline, delayed_offline,
}
use uncord_server.Gateway.Hub.Registry.{
  IsRegistry, SameWho, on_client-IsRegistry, unregister-IsRegistry,
}
use uncord_server.Gateway.Hub.Connect.{
  ResumeData, handle_identify, handle_resume, announce_update, handle_presence_update,
  hub_refresh_presence,
}
use uncord_server.Gateway.Hub.Dispatch.{
  Envelope, ephemeral_event, on_clients, deliver_one, deliver_all, deliver, handle_event,
  close_clients, shutdown,
}
use uncord_server.Gateway.Hub.Steps.{
  Message, not_json, server_opcode, other_opcode, heartbeat, identify, presence_update, resume,
  close_client, client_heartbeat, with_token, client_identify, resume_fields, with_resume,
  client_resume, with_status, client_presence_update, end_client, route, receive, Step, received,
  read_failed, pumped, identify_timeout, published, waited, shut_down, step, run,
}
use uncord_server.Gateway.Hub.Entering.{
  enqueue-SameWho, send_dispatch-SameWho, say_goodbye-SameWho, rate-SameWho, pump-SameWho, Keeps,
  elsewhere, publish_presence-Keeps, same-Keeps, close-Keeps, identify_user-keeps,
  resume_user-keeps,
}

module _ (D : HubDeps) where
  close_client-Keeps : (i : ℕ) (code : _) → Keeps D (close_client D i code)
  unfolding close_client
  close_client-Keeps i code = close-Keeps D i code

  client_heartbeat-Keeps : (i : ℕ) → Keeps D (client_heartbeat D i)
  unfolding client_heartbeat hub_refresh_presence
  client_heartbeat-Keeps i h reg = elim (Bool-cases (h.table i).identified) [
    | inl known ↦ rw (known) (elsewhere D _ _ (same-Keeps D i _ (enqueue-SameWho _) h reg))
    | inr unknown ↦ rw (unknown) (same-Keeps D i _ (enqueue-SameWho _) h reg)
  ]

  with_token-keeps :
      (i : ℕ) (sid : Bytes) (r : Result Bytes) (h : Hub D)
      → (h.table i).identified ≡ false
      → IsRegistry D h
      → IsRegistry D (with_token D i sid r h)
  unfolding with_token handle_identify
  with_token-keeps i sid (err e) h unknown reg = close_client-Keeps i _ h reg
  with_token-keeps i sid (ok []) h unknown reg = close_client-Keeps i _ h reg
  with_token-keeps i sid (ok (b ∷ token)) h unknown reg =
      identify_user-keeps D i sid _ _ unknown (elsewhere D h _ reg)

  resume_fields-keeps :
      (i : ℕ) (rd : ResumeData) (token sid : Bytes) (h : Hub D)
      → (h.table i).identified ≡ false
      → IsRegistry D h
      → IsRegistry D (resume_fields D i rd token sid h)
  unfolding resume_fields handle_resume
  resume_fields-keeps i rd [] sid h unknown reg = close_client-Keeps i _ h reg
  resume_fields-keeps i rd (b ∷ token) [] h unknown reg = close_client-Keeps i _ h reg
  resume_fields-keeps i rd (b ∷ token) (c ∷ sid) h unknown reg =
      resume_user-keeps D i rd _ _ unknown (elsewhere D h _ reg)

  with_resume-keeps :
      (i : ℕ) (r : Result ResumeData) (h : Hub D)
      → (h.table i).identified ≡ false
      → IsRegistry D h
      → IsRegistry D (with_resume D i r h)
  unfolding with_resume
  with_resume-keeps i (err e) h unknown reg = close_client-Keeps i _ h reg
  with_resume-keeps i (ok rd) h unknown reg =
      resume_fields-keeps i rd rd.token rd.session_id h unknown reg

  announce_update-Keeps :
      (u : Uuid) (status : Bytes) (r : Result (Unit {0})) → Keeps D (announce_update D u status r)
  unfolding announce_update
  announce_update-Keeps u status (err e) h reg = reg
  announce_update-Keeps u status (ok _) h reg = publish_presence-Keeps D u _ h reg

  with_status-Keeps : (i : ℕ) (r : Result Bytes) → Keeps D (with_status D i r)
  unfolding with_status handle_presence_update
  with_status-Keeps i (err e) h reg = close_client-Keeps i _ h reg
  with_status-Keeps i (ok status) h reg = elim (Bool-cases (valid_status status)) [
    | inl valid ↦ rw (valid) (announce_update-Keeps _ status _ _ (elsewhere D h _ reg))
    | inr invalid ↦ rw (invalid) (close_client-Keeps i _ h reg)
  ]

  end_client-Keeps : (i now : ℕ) → Keeps D (end_client D i now)
  unfolding end_client
  end_client-Keeps i now h reg =
      same-Keeps D i (λ c. record c { conn = close_connection c.conn }) (λ c. (refl, refl)) _
        (unregister-IsRegistry D i now h reg)

  route-Keeps : (i now : ℕ) (sid : Bytes) (m : Message) → Keeps D (route D i now sid m)
  unfolding route client_identify client_resume client_presence_update
  route-Keeps i now sid not_json h reg = end_client-Keeps i now _ (close_client-Keeps i _ h reg)
  route-Keeps i now sid server_opcode h reg =
      end_client-Keeps i now _ (close_client-Keeps i _ h reg)
  route-Keeps i now sid other_opcode h reg = reg
  route-Keeps i now sid heartbeat h reg = client_heartbeat-Keeps i h reg
  route-Keeps i now sid (identify r) h reg = elim (Bool-cases (h.table i).identified) [
    | inl known ↦ rw (known) (close_client-Keeps i _ h reg)
    | inr unknown ↦ rw (unknown) (with_token-keeps i sid r h unknown reg)
  ]
  route-Keeps i now sid (presence_update r) h reg = elim (Bool-cases (h.table i).identified) [
    | inl known ↦ rw (known) (with_status-Keeps i r h reg)
    | inr unknown ↦ rw (unknown) (close_client-Keeps i _ h reg)
  ]
  route-Keeps i now sid (resume r) h reg = elim (Bool-cases (h.table i).identified) [
    | inl known ↦ rw (known) (close_client-Keeps i _ h reg)
    | inr unknown ↦ rw (unknown) (with_resume-keeps i r h unknown reg)
  ]

  receive-Keeps : (i now : ℕ) (sid : Bytes) (m : Message) → Keeps D (receive D i now sid m)
  unfolding receive
  receive-Keeps i now sid m h reg =
      let c = (rate_limited D.rate_limit_count D.rate_limit_window now (h.table i)).1 in
      let counted : IsRegistry D (on_client D i (λ _. c) h) =
        on_client-IsRegistry D i (λ _. c) h reg (λ _. rate-SameWho _ _ now (h.table i)) in
      elim (Bool-cases (rate_limited D.rate_limit_count D.rate_limit_window now (h.table i)).0) [
        | inl over ↦ rw (over) (end_client-Keeps i now _ (close_client-Keeps i _ _ counted))
        | inr within ↦ rw (within) (route-Keeps i now sid m _ counted)
      ]

  on_clients-Keeps :
      (f : Client → Client) (is : List ℕ)
      → ((c : Client) → SameWho c (f c))
      → Keeps D (on_clients D f is)
  unfolding on_clients
  on_clients-Keeps f [] same h reg = reg
  on_clients-Keeps f (i ∷ is) same h reg =
      on_clients-Keeps f is same _ (same-Keeps D i f same h reg)

  deliver_all-Keeps :
      (event : Bytes) (payload : Document) (is : List ℕ) → Keeps D (deliver_all D event payload is)
  unfolding deliver_all deliver_one
  deliver_all-Keeps event payload [] h reg = reg
  deliver_all-Keeps event payload (i ∷ is) h reg =
      deliver_all-Keeps event payload is _
        (elsewhere D _ _ (same-Keeps D i _ (send_dispatch-SameWho event payload) h reg))

  deliver-Keeps : (env : Envelope) (is : List ℕ) → Keeps D (deliver D env is)
  unfolding deliver
  deliver-Keeps env is h reg = elim (Bool-cases (ephemeral_event env.event)) [
    | inl short ↦ rw (short) (on_clients-Keeps _ is (enqueue-SameWho _) h reg)
    | inr kept ↦ rw (kept) (deliver_all-Keeps env.event env.payload is h reg)
  ]

  close_clients-Keeps : (m : List (Uuid × List ℕ)) → Keeps D (close_clients D m)
  unfolding close_clients
  close_clients-Keeps [] h reg = reg
  close_clients-Keeps (e ∷ m) h reg =
      close_clients-Keeps m _ (on_clients-Keeps _ e.1 say_goodbye-SameWho h reg)

  finish_offline-Keeps : (u : Uuid) (cs : List ℕ) → Keeps D (finish_offline D u cs)
  unfolding finish_offline
  finish_offline-Keeps u [] h reg = publish_presence-Keeps D u _ _ (elsewhere D h _ reg)
  finish_offline-Keeps u (x ∷ xs) h reg = reg

  step-Keeps : (s : Step D) → Keeps D (step D s)
  unfolding step handle_event delayed_offline shutdown total_clients
  step-Keeps (received i now sid m) h reg = receive-Keeps i now sid m h reg
  step-Keeps (read_failed i now) h reg = end_client-Keeps i now h reg
  step-Keeps (pumped i picks_done) h reg =
      same-Keeps D i (pump picks_done) (pump-SameWho picks_done) h reg
  step-Keeps (identify_timeout i) h reg = elim (Bool-cases (h.table i).identified) [
    | inl known ↦ rw (known) reg
    | inr unknown ↦ rw (unknown) (close_client-Keeps i _ h reg)
  ]
  step-Keeps (published env) h reg = deliver-Keeps env _ _ (elsewhere D h _ reg)
  step-Keeps (waited u) h reg =
      finish_offline-Keeps u _ _ (record { owned = reg.owned; bounded = reg.bounded })
  step-Keeps shut_down h reg = record { owned = tt; bounded = omega arith }

  -- Whatever happens to the gateway in whatever order, from a registry that keeps the invariant: each
  -- registered connection is identified and stands under its own user, and there are never more
  -- connections than configured.
  pub run-IsRegistry : (ss : List (Step D)) (h : Hub D) → IsRegistry D h → IsRegistry D (run D ss h)
  unfolding run
  run-IsRegistry [] h reg = reg
  run-IsRegistry (s ∷ ss) h reg = run-IsRegistry ss (step D s h) (step-Keeps s h reg)
