-- ===== src/Gateway/Hub/Steps.antt =====
-- internal/gateway/client.go: what a client's messages lead to, and the steps of the whole gateway. A
-- message is what its JSON decodes to.
use uncord_server.Prelude.{Bool, ℕ, List, [], ◌∷◌, Bytes, if◌then◌else◌, Result, ok, err}
use uncord_server.Uuid.{Uuid}
use uncord_server.Presence.{valid_status}
use uncord_server.Gateway.Frame.{heartbeat_ack}
use uncord_server.Gateway.Client.{
  CloseCode, close_unknown_opcode, close_decode_error, close_not_authenticated, close_auth_failed,
  close_already_authenticated, close_rate_limited, close_with_code, close_connection, enqueue, pump,
  rate_limited,
}
use uncord_server.Gateway.Hub.{HubDeps, Hub, on_client, unregister, delayed_offline}
use uncord_server.Gateway.Hub.Connect.{
  ResumeData, handle_identify, handle_resume, handle_presence_update, hub_refresh_presence,
}
use uncord_server.Gateway.Hub.Dispatch.{Envelope, handle_event, shutdown}

-- A frame of the client by its opcode; the data of three of them parse or do not.
pub data Message : Type 0 where
  not_json server_opcode other_opcode heartbeat : Message
  identify : Result Bytes → Message
  presence_update : Result Bytes → Message
  resume : Result ResumeData → Message

module _ (D : HubDeps) where
  unfoldable pub close_client : ℕ → CloseCode → Hub D → Hub D
  close_client i code h = on_client D i (close_with_code code) h

  unfoldable pub client_heartbeat : ℕ → Hub D → Hub D
  client_heartbeat i h =
      let h' = on_client D i (enqueue heartbeat_ack) h in
      if (h.table i).identified then hub_refresh_presence D (h.table i).user_id h' else h'

  unfoldable pub with_token : ℕ → Bytes → Result Bytes → Hub D → Hub D
  with_token i sid (err _) h = close_client i close_decode_error h
  with_token i sid (ok []) h = close_client i close_auth_failed h
  with_token i sid (ok (b ∷ token)) h = handle_identify D i sid (b ∷ token) h

  unfoldable pub client_identify : ℕ → Bytes → Result Bytes → Hub D → Hub D
  client_identify i sid r h =
      if (h.table i).identified
      then close_client i close_already_authenticated h
      else with_token i sid r h

  unfoldable pub resume_fields : ℕ → ResumeData → Bytes → Bytes → Hub D → Hub D
  resume_fields i rd [] sid h = close_client i close_auth_failed h
  resume_fields i rd (b ∷ token) [] h = close_client i close_auth_failed h
  resume_fields i rd (b ∷ token) (c ∷ sid) h = handle_resume D i rd h

  unfoldable pub with_resume : ℕ → Result ResumeData → Hub D → Hub D
  with_resume i (err _) h = close_client i close_decode_error h
  with_resume i (ok rd) h = resume_fields i rd rd.token rd.session_id h

  unfoldable pub client_resume : ℕ → Result ResumeData → Hub D → Hub D
  client_resume i r h =
      if (h.table i).identified
      then close_client i close_already_authenticated h
      else with_resume i r h

  unfoldable pub with_status : ℕ → Result Bytes → Hub D → Hub D
  with_status i (err _) h = close_client i close_decode_error h
  with_status i (ok status) h =
      if valid_status status
      then handle_presence_update D i status h
      else close_client i close_decode_error h

  unfoldable pub client_presence_update : ℕ → Result Bytes → Hub D → Hub D
  client_presence_update i r h =
      if (h.table i).identified then with_status i r h else close_client i close_not_authenticated h

  -- The end of `readPump`.
  unfoldable pub end_client : ℕ → ℕ → Hub D → Hub D
  end_client i now h =
      on_client D i (λ c. record c { conn = close_connection c.conn }) (unregister D i now h)

  unfoldable pub route : ℕ → ℕ → Bytes → Message → Hub D → Hub D
  route i now sid not_json h = end_client i now (close_client i close_decode_error h)
  route i now sid server_opcode h = end_client i now (close_client i close_unknown_opcode h)
  route i now sid other_opcode h = h
  route i now sid heartbeat h = client_heartbeat i h
  route i now sid (identify r) h = client_identify i sid r h
  route i now sid (presence_update r) h = client_presence_update i r h
  route i now sid (resume r) h = client_resume i r h

  -- One round of the loop of `readPump`; an unknown opcode is ignored.
  unfoldable pub receive : ℕ → ℕ → Bytes → Message → Hub D → Hub D
  receive i now sid message h =
      let (limited, c) = rate_limited D.rate_limit_count D.rate_limit_window now (h.table i) in
      let h' = on_client D i (λ _. c) h in
      if limited
      then end_client i now (close_client i close_rate_limited h')
      else route i now sid message h'

  -- What may happen next, in any order: a message, a failed read, the write pump, the timer of the
  -- identification, an event, the end of a wait, the end of the server.
  pub data Step : Type 0 where
    received : ℕ → ℕ → Bytes → Message → Step
    read_failed : ℕ → ℕ → Step
    pumped : ℕ → Bool → Step
    identify_timeout : ℕ → Step
    published : Envelope → Step
    waited : Uuid → Step
    shut_down : Step

  unfoldable pub step : Step → Hub D → Hub D
  step (received i now sid message) h = receive i now sid message h
  step (read_failed i now) h = end_client i now h
  step (pumped i picks_done) h = on_client D i (pump picks_done) h
  step (identify_timeout i) h =
      if (h.table i).identified then h else close_client i close_not_authenticated h
  step (published env) h = handle_event D env h
  step (waited u) h = delayed_offline D u h
  step shut_down h = shutdown D h

  unfoldable pub run : List Step → Hub D → Hub D
  run [] h = h
  run (s ∷ ss) h = run ss (step s h)
