-- ===== src/Gateway/Hub/Connect.antt =====
-- internal/gateway/hub.go: Identify and Resume, and the presence of a user. The session's new identifier
-- is an argument.
use uncord_server.Prelude.{
  ℕ, Bool, true, false, Option, none, some, List, [], ◌∷◌, Bytes, codes, bytes_eq, ltb, ◌==◌,
  if◌then◌else◌, Result, ok, err, ◌>>=◌, context,
}
use uncord_server.Strconv.{ℤ, pos, negsuc}
use uncord_server.Uuid.{Uuid}
use uncord_server.Json.{Document, object}
use uncord_server.Valkey.Call.{World}
use uncord_server.Auth.Ticket.{consume_gateway_ticket}
use uncord_server.Presence.{
  status_online, status_offline, status_invisible, set_presence, get_presence, get_many_presence,
  refresh_presence,
}
use uncord_server.Gateway.Frame.{Frame, dispatch, invalid_session}
use uncord_server.Gateway.Session.{LoadedSession, load_session, replay, delete_session}
use uncord_server.Gateway.Client.{
  Client, close_auth_failed, close_unknown_error, close_with_code, next_seq, enqueue,
}
use uncord_server.Gateway.Hub.{HubDeps, ReadyData, Hub, on_client, register, publish_presence}

-- The payload of op 6.
pub record ResumeData : Type 0 where
  pub token : Bytes
  pub session_id : Bytes
  pub seq : ℤ

abbrev pub event_ready : Bytes
event_ready = codes "READY"

abbrev pub event_resumed : Bytes
event_resumed = codes "RESUMED"

-- `data.Seq > session.LastSeq`.
abbrev pub is_ahead : ℤ → ℕ → Bool
is_ahead (pos n) last = ltb last n
is_ahead (negsuc n) last = false

-- A sequenced dispatch to one client.
unfoldable pub send_dispatch : Bytes → Document → Client → Client
send_dispatch event payload c = let c' = next_seq c in enqueue (dispatch c'.seq event payload) c'

unfoldable pub enqueue_all : List Frame → Client → Client
enqueue_all [] c = c
enqueue_all (f ∷ fs) c = enqueue_all fs (enqueue f c)

unfoldable pub become_identified : Uuid → Bytes → Client → Client
become_identified u sid c = record c { user_id = u; session_id = sid; identified = true }

unfoldable pub become_resumed : Uuid → Bytes → ℕ → Client → Client
become_resumed u sid seq c = record c {
  user_id = u;
  session_id = sid;
  seq = seq;
  identified = true;
}

module _ (D : HubDeps) where
  open D use {valkey, lists, uuid_text, codec, sessions, reads}

  abbrev pub State : Type 0
  State = World valkey.State

  -- A gateway ticket, and if that fails an access token.
  unfoldable pub authenticate_token : Bytes → State → Result Uuid × State
  authenticate_token token w =
      let (r, w') = consume_gateway_ticket valkey uuid_text token w in
      elim r [
        | ok user_id ↦ (ok user_id, w')
        | err _ ↦ (D.access_subject token >>= λ subject. uuid_text.of_text subject, w')
      ]

  abbrev pub or_none {ℓ} : {A : Type ℓ} → Result A → Option A
  or_none (ok a) = some a
  or_none (err _) = none

  -- The reads run at once in the source, which returns the error that comes first; here the first in
  -- the order of the text.
  unfoldable pub read_ready : Uuid → Result (List Uuid × ReadyData)
  read_ready user_id = do
    u ← context "get user" (reads.get_user user_id)
    srv ← context "get server config" reads.get_server
    chs ← context "list channels" reads.list_channels
    rs ← context "list roles" reads.list_roles
    ms ← context "list members" reads.list_members
    states ← context "list read states" (reads.list_read_states user_id)
    ok (
      ms.0,
      record {
        user = u;
        server = srv;
        channels = chs;
        roles = rs;
        members = ms.1;
        presences = [];
        read_states = states;
        onboarding = or_none reads.get_onboarding;
        session_id = [];
      },
    )

  unfoldable pub assemble_ready : Uuid → State → Result ReadyData × State
  assemble_ready user_id w = elim (read_ready user_id) [
    | err e ↦ (err e, w)
    | ok (ids, ready) ↦
        let (r, w') = get_many_presence valkey uuid_text ids w in
        (context "get presences" r >>= λ ps. ok (record ready { presences = ps }), w')
  ]

  -- The client is registered, greeted and announced.
  unfoldable pub greet : ℕ → Uuid → Document → Result (Unit {0}) → Hub D → Hub D
  greet i u payload (err _) h = on_client D i (close_with_code close_unknown_error) h
  greet i u payload (ok _) h =
      publish_presence D u status_online (on_client D i (send_dispatch event_ready payload) h)

  unfoldable pub welcome : ℕ → Uuid → Bytes → Result ReadyData → Hub D → Hub D
  welcome i u sid (err _) h = on_client D i (close_with_code close_unknown_error) h
  welcome i u sid (ok ready) h =
      let (r, h') = register D i (on_client D i (become_identified u sid) h) in
      greet i u (D.ready_document (record ready { session_id = sid })) r h'

  unfoldable pub identify_user : ℕ → Bytes → Result Uuid → Hub D → Hub D
  identify_user i sid (err _) h = on_client D i (close_with_code close_auth_failed) h
  identify_user i sid (ok u) h =
      let (_, w) = set_presence valkey uuid_text u status_online h.world in
      let (r, w') = assemble_ready u w in welcome i u sid r (record h { world = w' })

  unfoldable pub handle_identify : ℕ → Bytes → Bytes → Hub D → Hub D
  handle_identify i sid token h =
      let (r, w) = authenticate_token token h.world in
      identify_user i sid r (record h { world = w })

  unfoldable pub refuse_resume : ℕ → Hub D → Hub D
  refuse_resume i h = on_client D i (enqueue (invalid_session false)) h

  -- A failed read gives the empty status.
  unfoldable pub reads_offline : Result Bytes → Bool
  reads_offline (ok status) = bytes_eq status status_offline
  reads_offline (err _) = false

  unfoldable pub back_online : Uuid → Result (Unit {0}) → Hub D → Hub D
  back_online u (err _) h = h
  back_online u (ok _) h = publish_presence D u status_online h

  unfoldable pub set_online : Uuid → Hub D → Hub D
  set_online u h =
      let (r, w) = set_presence valkey uuid_text u status_online h.world in
      back_online u r (record h { world = w })

  unfoldable pub keep_presence : Uuid → Hub D → Hub D
  keep_presence u h =
      let (_, w) = refresh_presence valkey uuid_text u h.world in record h { world = w }

  -- A user who reads as offline is online again; otherwise the key is refreshed.
  unfoldable pub restore_presence : Uuid → Hub D → Hub D
  restore_presence u h =
      let (r, w) = get_presence valkey uuid_text u h.world in
      if reads_offline r
      then set_online u (record h { world = w })
      else keep_presence u (record h { world = w })

  unfoldable pub finish_resume : ℕ → Uuid → Bytes → List Frame → Result (Unit {0}) → Hub D → Hub D
  finish_resume i u sid missed (err _) h = on_client D i (close_with_code close_unknown_error) h
  finish_resume i u sid missed (ok _) h =
      let (_, w) = delete_session valkey lists uuid_text codec sessions sid h.world in
      restore_presence u (
        on_client D i (λ c. send_dispatch event_resumed (object []) (enqueue_all missed c))
          (record h { world = w }))

  unfoldable pub resume_replayed : ℕ → Uuid → Bytes → ℕ → Result (List Frame) → Hub D → Hub D
  resume_replayed i u sid last (err _) h = refuse_resume i h
  resume_replayed i u sid last (ok missed) h =
      let (r, h') = register D i (on_client D i (become_resumed u sid last) h) in
      finish_resume i u sid missed r h'

  -- The checks of the loaded session: it is the user's, and the client is not ahead of it.
  unfoldable pub resume_session : ℕ → Uuid → ResumeData → Result LoadedSession → Hub D → Hub D
  resume_session i u rd (err _) h = refuse_resume i h
  resume_session i u rd (ok session) h =
      if session.user_id == u
      then (if is_ahead rd.seq session.last_seq
          then refuse_resume i h
          else let (r, w) =
              replay valkey lists uuid_text codec sessions rd.session_id rd.seq h.world in
            resume_replayed i u rd.session_id session.last_seq r (record h { world = w }))
      else refuse_resume i h

  unfoldable pub resume_user : ℕ → ResumeData → Result Uuid → Hub D → Hub D
  resume_user i rd (err _) h = on_client D i (close_with_code close_auth_failed) h
  resume_user i rd (ok u) h =
      let (r, w) = load_session valkey lists uuid_text codec sessions rd.session_id h.world in
      resume_session i u rd r (record h { world = w })

  unfoldable pub handle_resume : ℕ → ResumeData → Hub D → Hub D
  handle_resume i rd h =
      let (r, w) = authenticate_token rd.token h.world in
      resume_user i rd r (record h { world = w })

  -- An invisible user is announced as offline.
  unfoldable pub announce_update : Uuid → Bytes → Result (Unit {0}) → Hub D → Hub D
  announce_update u status (err _) h = h
  announce_update u status (ok _) h =
      publish_presence D u (if bytes_eq status status_invisible then status_offline else status) h

  unfoldable pub handle_presence_update : ℕ → Bytes → Hub D → Hub D
  handle_presence_update i status h =
      let u = (h.table i).user_id in
      let (r, w) = set_presence valkey uuid_text u status h.world in
      announce_update u status r (record h { world = w })

  unfoldable pub hub_refresh_presence : Uuid → Hub D → Hub D
  hub_refresh_presence u h =
      let (_, w) = refresh_presence valkey uuid_text u h.world in record h { world = w }
