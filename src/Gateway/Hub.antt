-- ===== src/Gateway/Hub.antt =====
-- internal/gateway/hub.go: the registry of clients. A client is named by a number, which stands for the
-- pointer: `table` has the clients, and each number is used for one connection. A step below runs to its
-- end before the next one; the optional services of the hub are all there. PUBLISH is outside the
-- modelled server: `announced` has the presence changes that were handed to it.
pub mod Registry
pub mod Connect
pub mod Dispatch
pub mod Steps
pub mod Entering
pub mod Bounded
pub mod Delivery
pub mod Identity
use uncord_server.Prelude.{
  ℕ, ◌+◌, Bool, true, false, not, Option, none, some, List, [], ◌∷◌, ◌++◌, keep_if, length, lookup,
  put, contains, Bytes, leb, ◌==◌, if◌then◌else◌, Result, ok, err, ◌>>=◌, context, max_connections,
}
use uncord_server.Uuid.{Uuid, UuidText}
use uncord_server.Json.{Document}
use uncord_server.Valkey.{Valkey}
use uncord_server.Valkey.Lists.{Lists}
use uncord_server.Valkey.Call.{World}
use uncord_server.Permission.Bitfield.{Bitfield}
use uncord_server.Permission.Store.{Store}
use uncord_server.Presence.{PresenceState, delete_presence, status_offline}
use uncord_server.Gateway.Session.{Codec, SessionStore, save_session}
use uncord_server.Gateway.Client.{Client, new_client, close_send}

-- The reads of the database for READY, and what they return, as JSON.
pub record Reads : Type 0 where
  pub get_user : Uuid → Result Document
  pub get_server : Result Document
  pub list_channels : Result Document
  pub list_roles : Result Document
  pub list_members : Result (List Uuid × Document)
  pub list_read_states : Uuid → Result Document
  pub get_onboarding : Result Document

pub record ReadyData : Type 0 where
  pub user : Document
  pub server : Document
  pub channels : Document
  pub roles : Document
  pub members : Document
  pub presences : List PresenceState
  pub read_states : Document
  pub onboarding : Option Document
  pub session_id : Bytes

-- `HubDeps`, and the configuration that the hub reads. `access_subject` is `ValidateAccessToken`, the
-- subject of a valid access token; `ready_document` is the JSON of the payload.
pub record HubDeps : Type 1 where
  pub valkey : Valkey
  pub lists : Lists valkey
  pub uuid_text : UuidText
  pub codec : Codec
  pub bitfield : Bitfield
  pub store : Store bitfield.Permission
  pub scan_fuel : ℕ
  pub sessions : SessionStore
  pub reads : Reads
  pub access_subject : Bytes → Result Bytes
  pub ready_document : ReadyData → Document
  pub gateway_max_connections : ℕ
  pub rate_limit_count : ℕ
  pub rate_limit_window : ℕ

abbrev pub or_empty {ℓ} : {A : Type ℓ} → Option (List A) → List A
or_empty none = []
or_empty (some xs) = xs

-- `delete(m, k)` on a map.
unfoldable pub erase {ℓ} : {V : Type ℓ} → ℕ → List (ℕ × V) → List (ℕ × V)
erase k m = keep_if (λ e. not (e.0 == k)) m

-- The number of connections of all users.
unfoldable pub total_clients : List (Uuid × List ℕ) → ℕ
total_clients [] = 0
total_clients (e ∷ m) = length e.1 + total_clients m

unfoldable pub last_or : ℕ → List ℕ → ℕ
last_or x [] = x
last_or x (y ∷ ys) = last_or y ys

unfoldable pub all_but_last : List ℕ → List ℕ
all_but_last [] = []
all_but_last (x ∷ []) = []
all_but_last (x ∷ (y ∷ ys)) = x ∷ all_but_last (y ∷ ys)

-- The last connection takes the place of the removed one, and the slice loses its end.
unfoldable pub replace_by_last : List ℕ → List ℕ
replace_by_last [] = []
replace_by_last (y ∷ ys) = last_or y ys ∷ all_but_last (y ∷ ys)

unfoldable pub swap_remove : ℕ → List ℕ → List ℕ
swap_remove i [] = []
swap_remove i (x ∷ xs) =
    let rest = swap_remove i xs in if x == i then replace_by_last xs else x ∷ rest

module _ (D : HubDeps) where
  pub record Hub : Type 0 where
    pub clients : List (Uuid × List ℕ)
    pub table : ℕ → Client
    pub announced : List (Uuid × Bytes)
    -- The users for whom a `delayedOffline` waits.
    pub offline : List Uuid
    pub world : World D.valkey.State

  abbrev pub new_hub : World D.valkey.State → Hub
  new_hub w = record {
    clients = [];
    table = λ _. new_client;
    announced = [];
    offline = [];
    world = w;
  }

  unfoldable pub on_client : ℕ → (Client → Client) → Hub → Hub
  on_client i f h = record h { table = λ j. if j == i then f (h.table i) else h.table j }

  abbrev pub connections : Uuid → Hub → List ℕ
  connections u h = or_empty (lookup u h.clients)

  unfoldable pub register : ℕ → Hub → Result (Unit {0}) × Hub
  register i h =
      if leb D.gateway_max_connections (total_clients h.clients)
      then (err max_connections, h)
      else let u = (h.table i).user_id in
        (ok tt, record h { clients = put u (connections u h ++ i ∷ []) h.clients })

  unfoldable pub publish_presence : Uuid → Bytes → Hub → Hub
  publish_presence u status h = record h { announced = h.announced ++ (u, status) ∷ [] }

  -- The slice of the user without the client; an empty one is deleted.
  unfoldable pub drop_client : Uuid → List ℕ → Hub → Hub
  drop_client u [] h = record h { clients = erase u h.clients }
  drop_client u (x ∷ xs) h = record h { clients = put u (x ∷ xs) h.clients }

  -- The session is saved, and a `delayedOffline` started if the user has no connection left.
  unfoldable pub save_on_disconnect : ℕ → ℕ → List ℕ → Hub → Hub
  save_on_disconnect i now remaining h =
      let c = h.table i in
      let (_, w) =
        save_session D.valkey D.lists D.uuid_text D.codec D.sessions c.session_id c.user_id c.seq
          now h.world in
      elim remaining [
        | [] ↦ record h { world = w; offline = c.user_id ∷ h.offline }
        | x ∷ xs ↦ record h { world = w }
      ]

  unfoldable pub take_out : ℕ → ℕ → List ℕ → Hub → Hub
  take_out i now remaining h =
      let h' = on_client i close_send (drop_client (h.table i).user_id remaining h) in
      if (h.table i).identified then save_on_disconnect i now remaining h' else h'

  -- A client that is not in its user's slice is left alone.
  unfoldable pub unregister : ℕ → ℕ → Hub → Hub
  unregister i now h =
      if contains i (connections (h.table i).user_id h)
      then take_out i now (swap_remove i (connections (h.table i).user_id h)) h
      else h

  unfoldable pub finish_offline : Uuid → List ℕ → Hub → Hub
  finish_offline u [] h =
      let (_, w) = delete_presence D.valkey D.uuid_text u h.world in
      publish_presence u status_offline (record h { world = w })
  finish_offline u (x ∷ xs) h = h

  -- The end of the wait: one `delayedOffline` of the user less.
  unfoldable pub remove_one : ℕ → List ℕ → List ℕ
  remove_one u [] = []
  remove_one u (x ∷ xs) = let rest = remove_one u xs in if x == u then xs else x ∷ rest

  unfoldable pub delayed_offline : Uuid → Hub → Hub
  delayed_offline u h =
      finish_offline u (connections u h) (record h { offline = remove_one u h.offline })
