-- ===== src/Examples/Statuses.antt =====
-- The presence theorems, applied to the example server.
use uncord_server.Prelude.{◌≡◌, refl, true, All, [], ◌∷◌, bytes_eq, ok, false}
use uncord_server.Valkey.Call.{World, call, answered}
use uncord_server.Presence.{
  PresenceState, status_idle, set_presence, get_presence, visible, get_many_presence, set_nx,
  set_typing, clear_typing,
}
use uncord_server.Presence.Visible.{
  Shown, Later, set_presence-get_presence, get_many_presence-Shown,
}
use uncord_server.Presence.Typing.{set_typing-set_typing, set_typing-clear_typing}
use uncord_server.Examples.Server.{Memory, memory, uuid_text, empty_memory}

-- The second call comes five seconds after the first.
abbrev five_later : World Memory
five_later = record {
  server = empty_memory;
  schedule = record { elapsed = 0; link = answered } ∷ record { elapsed = 5; link = answered } ∷ [];
}

status_set : (set_presence memory uuid_text 7 status_idle five_later).0 ≡ ok tt
unfolding set_presence call
status_set = refl

status_schedule :
    (set_presence memory uuid_text 7 status_idle five_later).1.schedule
    ≡ record { elapsed = 5; link = answered } ∷ []
unfolding set_presence call
status_schedule = refl

set_presence-get_presence_example :
    (get_presence memory uuid_text 7 (set_presence memory uuid_text 7 status_idle five_later).1).0
    ≡ ok status_idle
set_presence-get_presence_example =
    set_presence-get_presence memory uuid_text 7 status_idle 5 [] five_later status_set
      status_schedule

abbrev idle_user : PresenceState
idle_user = record { user_id = uuid_text.to_text 7; status = status_idle }

abbrev after_set : World Memory
after_set = (set_presence memory uuid_text 7 status_idle five_later).1

bulk_read : (get_many_presence memory uuid_text (6 ∷ 7 ∷ []) after_set).0 ≡ ok (idle_user ∷ [])
unfolding get_many_presence set_presence visible call bytes_eq
bulk_read = refl

get_many_presence-Shown_example :
    (s : Memory) × Later memory uuid_text after_set.server s
    × All (Shown memory uuid_text s (6 ∷ 7 ∷ [])) (idle_user ∷ [])
get_many_presence-Shown_example =
    get_many_presence-Shown memory uuid_text (6 ∷ 7 ∷ []) after_set (idle_user ∷ []) bulk_read

typing_set : (set_typing memory uuid_text 3 7 five_later).0 ≡ ok true
unfolding set_typing set_nx call
typing_set = refl

typing_schedule :
    (set_typing memory uuid_text 3 7 five_later).1.schedule
    ≡ record { elapsed = 5; link = answered } ∷ []
unfolding set_typing set_nx call
typing_schedule = refl

set_typing-set_typing_example :
    (set_typing memory uuid_text 3 7 (set_typing memory uuid_text 3 7 five_later).1).0 ≡ ok false
set_typing-set_typing_example =
    set_typing-set_typing memory uuid_text 3 7 5 [] five_later typing_set typing_schedule

set_typing-clear_typing_example :
    (clear_typing memory uuid_text 3 7 (set_typing memory uuid_text 3 7 five_later).1).0 ≡ ok true
set_typing-clear_typing_example =
    set_typing-clear_typing memory uuid_text 3 7 5 [] five_later typing_set typing_schedule
