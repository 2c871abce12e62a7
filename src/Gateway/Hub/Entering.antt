-- ===== src/Gateway/Hub/Entering.antt =====
-- Identify, Resume and the helpers keep the registry.
use uncord_server.Prelude.{
  of_either, Bool, ◌&&◌, ℕ, suc, ◌≡◌, refl, ◌∙◌, true, false, inl, inr, Bool-cases, List, [], ◌∷◌,
  Bytes, ◌==◌, ==_refl, Result, ok, err, arith,
}
use uncord_server.Uuid.{Uuid}
use uncord_server.Json.{Document, object}
use uncord_server.Valkey.Call.{World}
use uncord_server.Presence.{get_presence}
use uncord_server.Gateway.Frame.{Frame}
use uncord_server.Gateway.Session.{LoadedSession}
use uncord_server.Gateway.Client.{
  Client, CloseCode, close_send, close_with_code, next_seq, enqueue, pump, rate_limited, Connection,
  Writer, writing, draining, ended, end_writer, write_message, receive_message, await_done,
  pump_from, open_connection, closed, closed_with,
}
use uncord_server.Gateway.Hub.{HubDeps, ReadyData, Hub, on_client, register, publish_presence}
use uncord_server.Gateway.Hub.Registry.{
  IsRegistry, SameWho, on_client-IsRegistry, register-IsRegistry,
}
use uncord_server.Gateway.Hub.Connect.{
  ResumeData, event_ready, event_resumed, is_ahead, send_dispatch, enqueue_all, become_identified,
  become_resumed, greet, welcome, identify_user, refuse_resume, reads_offline, back_online,
  set_online, keep_presence, restore_presence, finish_resume, resume_replayed, resume_session,
  resume_user,
}
use uncord_server.Gateway.Hub.Dispatch.{say_goodbye}

pub enqueue-SameWho : (f : Frame) (c : Client) → SameWho c (enqueue f c)
unfolding enqueue
enqueue-SameWho f c = ground arith

pub send_dispatch-SameWho :
    (event : Bytes) (payload : Document) (c : Client) → SameWho c (send_dispatch event payload c)
unfolding send_dispatch next_seq
send_dispatch-SameWho event payload c = enqueue-SameWho _ (record c { seq = suc c.seq })

SameWho-trans : (a b c : Client) → SameWho a b → SameWho b c → SameWho a c
SameWho-trans a b c h k = (k.0 ∙ h.0, k.1 ∙ h.1)

enqueue_all-SameWho : (fs : List Frame) (c : Client) → SameWho c (enqueue_all fs c)
unfolding enqueue_all
enqueue_all-SameWho [] c = (refl, refl)
enqueue_all-SameWho (f ∷ fs) c =
    SameWho-trans c (enqueue f c) (enqueue_all fs (enqueue f c)) (enqueue-SameWho f c)
      (enqueue_all-SameWho fs (enqueue f c))

pub resumed-SameWho :
    (missed : List Frame) (c : Client)
    → SameWho c (send_dispatch event_resumed (object []) (enqueue_all missed c))
resumed-SameWho missed c =
    SameWho-trans c (enqueue_all missed c)
      (send_dispatch event_resumed (object []) (enqueue_all missed c))
      (enqueue_all-SameWho missed c)
      (send_dispatch-SameWho event_resumed (object []) (enqueue_all missed c))

pub closed-SameWho : (code : CloseCode) (c : Client) → SameWho c (close_with_code code c)
unfolding close_with_code
closed-SameWho code c = (refl, refl)

pub say_goodbye-SameWho : (c : Client) → SameWho c (say_goodbye c)
unfolding say_goodbye close_send close_with_code
say_goodbye-SameWho c = enqueue-SameWho _ c

pub rate-SameWho :
    (count window now : ℕ) (c : Client) → SameWho c (rate_limited count window now c).1
unfolding rate_limited
rate-SameWho count window now c = (refl, refl)

write_message-SameWho : (m : Frame) (c : Client) → SameWho c (write_message m c)
unfolding write_message end_writer
write_message-SameWho m c = by_connection c.conn refl
  where
    by_connection : (conn : Connection) → c.conn ≡ conn → SameWho c (write_message m c)
    by_connection open_connection e = rw (e, write_message) (refl, refl)
    by_connection closed e = rw (e, write_message) (refl, refl)
    by_connection (closed_with code) e = rw (e, write_message) (refl, refl)

receive_message-SameWho :
    (default : Client → Client) (waiting : List Frame) (c : Client)
    → SameWho c (default c)
    → SameWho c (receive_message default waiting c)
unfolding receive_message
receive_message-SameWho default [] c h = h
receive_message-SameWho default (m ∷ rest) c h = write_message-SameWho m (record c { send = rest })

pump_from-SameWho :
    (writer : Writer) (picks_done : Bool) (c : Client) → SameWho c (pump_from writer picks_done c)
unfolding pump_from await_done end_writer
pump_from-SameWho writing picks_done c =
    of_either (SameWho c) (c.done && picks_done) (refl, refl)
      (receive_message-SameWho await_done c.send c
        (of_either (SameWho c) c.done (refl, refl) (refl, refl)))
pump_from-SameWho draining picks_done c = receive_message-SameWho end_writer c.send c (refl, refl)
pump_from-SameWho ended picks_done c = (refl, refl)

pub pump-SameWho : (picks_done : Bool) (c : Client) → SameWho c (pump picks_done c)
unfolding pump
pump-SameWho picks_done c = pump_from-SameWho c.writer picks_done c

module _ (D : HubDeps) where
  abbrev pub Keeps : (Hub D → Hub D) → Type 0
  Keeps f = (h : Hub D) → IsRegistry D h → IsRegistry D (f h)

  -- What changes neither the registry nor the clients.
  pub elsewhere :
      (h : Hub D) (w : World D.valkey.State)
      → IsRegistry D h
      → IsRegistry D (record h { world = w })
  elsewhere h w reg = record { owned = reg.owned; bounded = reg.bounded }

  pub publish_presence-Keeps : (u : Uuid) (status : Bytes) → Keeps (publish_presence D u status)
  unfolding publish_presence
  publish_presence-Keeps u status h reg = record { owned = reg.owned; bounded = reg.bounded }

  pub same-Keeps :
      (i : ℕ) (f : Client → Client) → ((c : Client) → SameWho c (f c)) → Keeps (on_client D i f)
  same-Keeps i f same h reg = on_client-IsRegistry D i f h reg (λ _. same (h.table i))

  pub close-Keeps : (i : ℕ) (code : CloseCode) → Keeps (on_client D i (close_with_code code))
  close-Keeps i code = same-Keeps i (close_with_code code) (closed-SameWho code)

  now_identified :
      (i : ℕ) (f : Client → Client) (h : Hub D)
      → ((c : Client) → (f c).identified ≡ true)
      → ((on_client D i f h).table i).identified ≡ true
  unfolding on_client
  now_identified i f h known = rw (==_refl i) (known (h.table i))

  -- A client that is not identified yet stands in no slice, so it may become anybody.
  identified_now :
      (i : ℕ) (f : Client → Client) (h : Hub D)
      → (h.table i).identified ≡ false
      → ((c : Client) → (f c).identified ≡ true)
      → IsRegistry D h
      → IsRegistry D (register D i (on_client D i f h)).1
  identified_now i f h unknown known reg =
      register-IsRegistry D i (on_client D i f h) (now_identified i f h known)
        (on_client-IsRegistry D i f h reg (λ e. absurd (ground arith)))

  greet-Keeps :
      (i : ℕ) (u : Uuid) (payload : Document) (r : Result (Unit {0}))
      → Keeps (greet D i u payload r)
  unfolding greet
  greet-Keeps i u payload (err e) h reg = close-Keeps i _ h reg
  greet-Keeps i u payload (ok _) h reg =
      publish_presence-Keeps u _ _
        (same-Keeps i _ (send_dispatch-SameWho event_ready payload) h reg)

  welcome-keeps :
      (i : ℕ) (u : Uuid) (sid : Bytes) (r : Result ReadyData) (h : Hub D)
      → (h.table i).identified ≡ false
      → IsRegistry D h
      → IsRegistry D (welcome D i u sid r h)
  unfolding welcome become_identified
  welcome-keeps i u sid (err e) h unknown reg = close-Keeps i _ h reg
  welcome-keeps i u sid (ok ready) h unknown reg = greet-Keeps i u _ _ _ (
      identified_now i (λ c. record c { user_id = u; session_id = sid; identified = true }) h
        unknown (λ c. refl) reg)

  pub identify_user-keeps :
      (i : ℕ) (sid : Bytes) (r : Result Uuid) (h : Hub D)
      → (h.table i).identified ≡ false
      → IsRegistry D h
      → IsRegistry D (identify_user D i sid r h)
  unfolding identify_user
  identify_user-keeps i sid (err e) h unknown reg = close-Keeps i _ h reg
  identify_user-keeps i sid (ok u) h unknown reg =
      welcome-keeps i u sid _ _ unknown (elsewhere h _ reg)

  back_online-Keeps : (u : Uuid) (r : Result (Unit {0})) → Keeps (back_online D u r)
  unfolding back_online
  back_online-Keeps u (err e) h reg = reg
  back_online-Keeps u (ok _) h reg = publish_presence-Keeps u _ h reg

  restore_presence-Keeps : (u : Uuid) → Keeps (restore_presence D u)
  unfolding restore_presence set_online keep_presence
  restore_presence-Keeps u h reg =
      let (r, w) = get_presence D.valkey D.uuid_text u h.world in
      elim (Bool-cases (reads_offline D r)) [
        | inl away ↦ rw (away) (back_online-Keeps u _ _ (elsewhere h _ reg))
        | inr here ↦ rw (here) (elsewhere h _ reg)
      ]

  finish_resume-Keeps :
      (i : ℕ) (u : Uuid) (sid : Bytes) (missed : List Frame) (r : Result (Unit {0}))
      → Keeps (finish_resume D i u sid missed r)
  unfolding finish_resume
  finish_resume-Keeps i u sid missed (err e) h reg = close-Keeps i _ h reg
  finish_resume-Keeps i u sid missed (ok _) h reg = restore_presence-Keeps u _ (
      same-Keeps i (λ c. send_dispatch event_resumed (object []) (enqueue_all missed c))
        (resumed-SameWho missed) _ (elsewhere h _ reg))

  refuse-Keeps : (i : ℕ) → Keeps (refuse_resume D i)
  unfolding refuse_resume
  refuse-Keeps i h reg = same-Keeps i _ (enqueue-SameWho _) h reg

  resume_replayed-keeps :
      (i : ℕ) (u : Uuid) (sid : Bytes) (last : ℕ) (r : Result (List Frame)) (h : Hub D)
      → (h.table i).identified ≡ false
      → IsRegistry D h
      → IsRegistry D (resume_replayed D i u sid last r h)
  unfolding resume_replayed become_resumed
  resume_replayed-keeps i u sid last (err e) h unknown reg = refuse-Keeps i h reg
  resume_replayed-keeps i u sid last (ok missed) h unknown reg =
      finish_resume-Keeps i u sid missed _ _ (
        identified_now i
          (λ c. record c { user_id = u; session_id = sid; seq = last; identified = true }) h unknown
          (λ c. refl) reg)

  resume_session-keeps :
      (i : ℕ) (u : Uuid) (rd : ResumeData) (r : Result LoadedSession) (h : Hub D)
      → (h.table i).identified ≡ false
      → IsRegistry D h
      → IsRegistry D (resume_session D i u rd r h)
  unfolding resume_session
  resume_session-keeps i u rd (err e) h unknown reg = refuse-Keeps i h reg
  resume_session-keeps i u rd (ok session) h unknown reg =
      elim (Bool-cases (session.user_id == u)) [
        | inr other ↦ rw (other) (refuse-Keeps i h reg)
        | inl own ↦ elim (Bool-cases (is_ahead rd.seq session.last_seq)) [
          | inl ahead ↦ rw (own, ahead) (refuse-Keeps i h reg)
          | inr behind ↦
              rw (own, behind) (resume_replayed-keeps i u _ _ _ _ unknown (elsewhere h _ reg))
        ]
      ]

  pub resume_user-keeps :
      (i : ℕ) (rd : ResumeData) (r : Result Uuid) (h : Hub D)
      → (h.table i).identified ≡ false
      → IsRegistry D h
      → IsRegistry D (resume_user D i rd r h)
  unfolding resume_user
  resume_user-keeps i rd (err e) h unknown reg = close-Keeps i _ h reg
  resume_user-keeps i rd (ok u) h unknown reg =
      resume_session-keeps i u rd _ _ unknown (elsewhere h _ reg)
