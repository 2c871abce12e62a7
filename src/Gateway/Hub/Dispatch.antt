-- ===== src/Gateway/Hub/Dispatch.antt =====
-- internal/gateway/hub.go: an event of the pub/sub channel, and the end of the server. The order of a
-- map is that of the list. An envelope that does not parse is not an event.
use Prim.Native.String.{String}
use text.Mathlib.Text.{◌==◌ as str_eq}
use uncord_server.Prelude.{
  ℕ, Bool, true, Option, none, some, List, [], ◌∷◌, ◌++◌, lookup, put, contains, Bytes, codes,
  bytes_eq, ◌||◌, if◌then◌else◌, Result, ok, err,
}
use uncord_server.Uuid.{Uuid, UuidText}
use uncord_server.Json.{Scalar, str, Document, object, garbage}
use uncord_server.Valkey.Call.{World}
use uncord_server.Permission.Resolver.{has_permission}
use uncord_server.Permission.ValkeyCache.Laws.{valkey_cache}
use uncord_server.Presence.{delete_presence}
use uncord_server.Gateway.Frame.{Frame, dispatch, ephemeral, reconnect}
use uncord_server.Gateway.Session.{append_replay}
use uncord_server.Gateway.Client.{Client, close_going_away, close_send, close_with_code, enqueue}
use uncord_server.Gateway.Hub.{HubDeps, Hub, on_client}
use uncord_server.Gateway.Hub.Connect.{send_dispatch}

-- `envelope`: type, data and targets.
pub record Envelope : Type 0 where
  pub event : Bytes
  pub payload : Document
  pub targets : List Uuid

abbrev pub ephemeral_event : Bytes → Bool
ephemeral_event event =
    bytes_eq event (codes "TYPING_START") || bytes_eq event (codes "TYPING_STOP")

-- `channelScoped`: the last text under the key "channel_id"; other values leave it.
unfoldable pub scoped_text : List (String × Scalar) → Bytes → Bytes
scoped_text [] acc = acc
scoped_text ((key, str t) ∷ fields) acc =
    scoped_text fields (if str_eq key "channel_id" then t else acc)
scoped_text ((key, _) ∷ fields) acc = scoped_text fields acc

unfoldable pub channel_text : Document → Bytes
channel_text garbage = []
channel_text (object fields) = scoped_text fields []

abbrev pub or_nothing {ℓ} : {A : Type ℓ} → Result A → Option A
or_nothing (ok a) = some a
or_nothing (err _) = none

unfoldable pub parse_scope : UuidText → Bytes → Option Uuid
parse_scope T [] = none
parse_scope T (b ∷ t) = or_nothing (T.of_text (b ∷ t))

-- The identified ones of a user's connections.
unfoldable pub identified_of : (ℕ → Client) → List ℕ → List ℕ
identified_of table [] = []
identified_of table (i ∷ is) =
    let rest = identified_of table is in if (table i).identified then i ∷ rest else rest

-- The empty list of targets is everybody.
unfoldable pub is_target : List Uuid → Uuid → Bool
is_target [] u = true
is_target (t ∷ ts) u = contains u (t ∷ ts)

unfoldable pub targets_of : (ℕ → Client) → List Uuid → List (Uuid × List ℕ) → List ℕ
targets_of table targets [] = []
targets_of table targets ((u, cs) ∷ m) =
    let rest = targets_of table targets m in
    if is_target targets u then identified_of table cs ++ rest else rest

-- What `Shutdown` does to a client.
unfoldable pub say_goodbye : Client → Client
say_goodbye c = close_with_code close_going_away (close_send (enqueue reconnect c))

module _ (D : HubDeps) where
  open D use {valkey, lists, uuid_text, codec, sessions, bitfield, store, scan_fuel}

  -- The filter by ViewChannels; `cached` has the answers so far. A failed check leaves the client out.
  unfoldable pub permitted :
      (ℕ → Client)
      → Uuid
      → List (Uuid × Bool)
      → List ℕ
      → World valkey.State
      → List ℕ × World valkey.State
  permitted table c cached [] w = ([], w)
  permitted table c cached (i ∷ is) w = elim (lookup (table i).user_id cached) [
    | some allowed ↦
        let (rest, w') = permitted table c cached is w in ((if allowed then i ∷ rest else rest), w')
    | none ↦
        let (r, w1) =
          has_permission bitfield store (valkey_cache bitfield valkey uuid_text scan_fuel)
            (table i).user_id c bitfield.view_channels w in
        elim r [
          | err _ ↦ permitted table c cached is w1
          | ok allowed ↦
              let (rest, w') = permitted table c (put (table i).user_id allowed cached) is w1 in
              ((if allowed then i ∷ rest else rest), w')
        ]
  ]

  unfoldable pub on_clients : (Client → Client) → List ℕ → Hub D → Hub D
  on_clients f [] h = h
  on_clients f (i ∷ is) h = on_clients f is (on_client D i f h)

  unfoldable pub append_frame : Bytes → ℕ → Frame → World valkey.State → World valkey.State
  append_frame [] seq frame w = w
  append_frame (b ∷ sid) seq frame w =
      (append_replay valkey lists uuid_text codec sessions (b ∷ sid) seq frame w).1

  -- A sequenced frame for one client, kept for its replay.
  unfoldable pub deliver_one : Bytes → Document → ℕ → Hub D → Hub D
  deliver_one event payload i h =
      let h' = on_client D i (send_dispatch event payload) h in
      let c = h'.table i in
      record h' { world = append_frame c.session_id c.seq (dispatch c.seq event payload) h'.world }

  unfoldable pub deliver_all : Bytes → Document → List ℕ → Hub D → Hub D
  deliver_all event payload [] h = h
  deliver_all event payload (i ∷ is) h =
      deliver_all event payload is (deliver_one event payload i h)

  unfoldable pub deliver : Envelope → List ℕ → Hub D → Hub D
  deliver env chosen h =
      if ephemeral_event env.event
      then on_clients (enqueue (ephemeral env.event env.payload)) chosen h
      else deliver_all env.event env.payload chosen h

  -- Events of a channel go to those who may view it; targeted ones, and the others, are not filtered.
  unfoldable pub filter_scope :
      Option Uuid → List Uuid → List ℕ → Hub D → List ℕ × World valkey.State
  filter_scope none targets chosen h = (chosen, h.world)
  filter_scope (some c) (t ∷ ts) chosen h = (chosen, h.world)
  filter_scope (some c) [] chosen h = permitted h.table c [] chosen h.world

  unfoldable pub handle_event : Envelope → Hub D → Hub D
  handle_event env h =
      let chosen = targets_of h.table env.targets h.clients in
      let (allowed, w) =
        filter_scope (parse_scope uuid_text (channel_text env.payload)) env.targets chosen h in
      deliver env allowed (record h { world = w })

  -- `Shutdown`: presence is deleted, and each client told to reconnect and closed.
  unfoldable pub delete_presences : List (Uuid × List ℕ) → World valkey.State → World valkey.State
  delete_presences [] w = w
  delete_presences (e ∷ m) w = delete_presences m (delete_presence valkey uuid_text e.0 w).1

  unfoldable pub close_clients : List (Uuid × List ℕ) → Hub D → Hub D
  close_clients [] h = h
  close_clients (e ∷ m) h = close_clients m (on_clients say_goodbye e.1 h)

  unfoldable pub shutdown : Hub D → Hub D
  shutdown h =
      let h' = close_clients h.clients (record h { world = delete_presences h.clients h.world }) in
      record h' { clients = [] }
