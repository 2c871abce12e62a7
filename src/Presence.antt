-- ===== src/Presence.antt =====
-- internal/presence/presence.go: presence and typing, in keys of Valkey that expire. A status is its
-- text. The errors leave out the identifiers that the source writes into their text.
pub mod Visible
pub mod Typing
use uncord_server.Prelude.{
  ℕ, Bool, true, false, not, ◌||◌, Option, none, some, List, [], ◌∷◌, ◌++◌, map, Bytes, codes,
  bytes_eq, if◌then◌else◌, Result, ok, err, ◌>>=◌, context,
}
use uncord_server.Uuid.{Uuid, UuidText}
use uncord_server.Valkey.{Valkey, is_some}
use uncord_server.Valkey.Call.{World, call}

abbrev pub presence_ttl : ℕ
presence_ttl = 120

abbrev pub typing_ttl : ℕ
typing_ttl = 10

abbrev pub status_online : Bytes
status_online = codes "online"

abbrev pub status_idle : Bytes
status_idle = codes "idle"

abbrev pub status_dnd : Bytes
status_dnd = codes "dnd"

abbrev pub status_invisible : Bytes
status_invisible = codes "invisible"

abbrev pub status_offline : Bytes
status_offline = codes "offline"

-- The protocol's `PresenceState`.
pub record PresenceState : Type 0 where
  pub user_id : Bytes
  pub status : Bytes

-- The `switch`: the four statuses that a client may set.
unfoldable pub valid_status : Bytes → Bool
valid_status status =
    bytes_eq status status_online
    || bytes_eq status status_idle
    || bytes_eq status status_dnd
    || bytes_eq status status_invisible

module _ (V : Valkey) (T : UuidText) where
  open V use {State, string_at, set, del, expire, elapse}
  open T use {to_text}

  abbrev pub presence_key : Uuid → Bytes
  presence_key user_id = codes "presence:" ++ to_text user_id

  abbrev pub typing_key : Uuid → Uuid → Bytes
  typing_key channel_id user_id =
      codes "typing:" ++ (to_text channel_id ++ (b':' ∷ to_text user_id))

  unfoldable pub set_presence : Uuid → Bytes → World State → Result (Unit {0}) × World State
  set_presence user_id status w =
      let (r, w') =
        call {A = Unit {0}} elapse (λ s. (tt, set (presence_key user_id) status presence_ttl s))
          w in
      (context "set presence" r, w')

  -- A missing key means offline.
  unfoldable pub found_status : Option Bytes → Bytes
  found_status none = status_offline
  found_status (some status) = status

  unfoldable pub get_presence : Uuid → World State → Result Bytes × World State
  get_presence user_id w =
      let (r, w') = call elapse (λ s. (string_at (presence_key user_id) s, s)) w in
      (context "get presence" r >>= λ o. ok (found_status o), w')

  -- The loop over the values: missing and invisible users are left out.
  unfoldable pub visible : List Uuid → List (Option Bytes) → List PresenceState
  visible [] vals = []
  visible (id ∷ ids) [] = []
  visible (id ∷ ids) (none ∷ vals) = visible ids vals
  visible (id ∷ ids) (some status ∷ vals) =
      let rest = visible ids vals in
      if bytes_eq status status_invisible
      then rest
      else record { user_id = to_text id; status = status } ∷ rest

  unfoldable pub get_many_presence :
      List Uuid → World State → Result (List PresenceState) × World State
  get_many_presence [] w = (ok [], w)
  get_many_presence (id ∷ ids) w =
      let (r, w') = call elapse (λ s. (map (λ i. string_at (presence_key i) s) (id ∷ ids), s)) w in
      (context "mget presence" r >>= λ vals. ok (visible (id ∷ ids) vals), w')

  unfoldable pub refresh_presence : Uuid → World State → Result (Unit {0}) × World State
  refresh_presence user_id w =
      let (r, w') =
        call {A = Unit {0}} elapse (λ s. (tt, expire (presence_key user_id) presence_ttl s)) w in
      (context "refresh presence" r, w')

  unfoldable pub delete_presence : Uuid → World State → Result (Unit {0}) × World State
  delete_presence user_id w =
      let (r, w') = call {A = Unit {0}} elapse (λ s. (tt, del (presence_key user_id) s)) w in
      (context "delete presence" r, w')

  -- SET key 1 EX 10 NX: nothing happens where the key is there.
  unfoldable pub set_nx : Bytes → State → Bool × State
  set_nx key s =
      if is_some (string_at key s) then (false, s) else (true, set key (codes "1") typing_ttl s)

  unfoldable pub set_typing : Uuid → Uuid → World State → Result Bool × World State
  set_typing channel_id user_id w =
      let (r, w') = call elapse (set_nx (typing_key channel_id user_id)) w in
      (context "set typing" r, w')

  -- DEL reports the number of keys that it removed.
  unfoldable pub clear_typing : Uuid → Uuid → World State → Result Bool × World State
  clear_typing channel_id user_id w =
      let (r, w') =
        call elapse
          (λ s. (
            is_some (string_at (typing_key channel_id user_id) s),
            del (typing_key channel_id user_id) s,
          ))
          w in
      (context "clear typing" r, w')
