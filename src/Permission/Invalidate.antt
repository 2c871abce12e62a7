-- ===== src/Permission/Invalidate.antt =====
-- internal/permission/invalidate.go: the messages that the API publishes after a change, and what the
-- subscriber does with one. Keys of a JSON object are compared exactly.
pub mod Soundness
use text.Mathlib.Text.{◌==◌ as str_eq}
use Prim.Native.String.{String}
use uncord_server.Prelude.{
  ℕ, Bool, true, false, Option, none, some, List, [], ◌∷◌, ◌++◌, ◌==◌, if◌then◌else◌, Result, ok,
  err, ◌>>=◌, malformed,
}
use uncord_server.Uuid.{Uuid, UuidText}
use uncord_server.Json.{Scalar, null, bool, num, str, nested, Document, garbage, object}
use uncord_server.Permission.Cache.{Cache}

pub record InvalidationMessage : Type 0 where
  pub version : ℕ
  pub user_id : Option Uuid
  pub channel_id : Option Uuid
  pub all : Bool

abbrev pub invalidation_version : ℕ
invalidation_version = 1

abbrev pub zero_message : InvalidationMessage
zero_message = record { version = 0; user_id = none; channel_id = none; all = false }

module _ (T : UuidText) where
  open T use {to_text, of_text}

  -- `omitempty` leaves out a nil pointer and `false`.
  pub marshal_id : String → Option Uuid → List (String × Scalar)
  marshal_id key none = []
  marshal_id key (some u) = (key, str (to_text u)) ∷ []

  pub marshal_all : Bool → List (String × Scalar)
  marshal_all false = []
  marshal_all true = ("all", bool true) ∷ []

  pub marshal : InvalidationMessage → Document
  unfolding marshal_id marshal_all
  marshal m = object (
      ("v", num m.version)
      ∷ (marshal_id "user_id" m.user_id
          ++ (marshal_id "channel_id" m.channel_id ++ marshal_all m.all)))

  pub publish : InvalidationMessage → Document
  unfolding marshal
  publish m = marshal (record m { version = invalidation_version })

  pub invalidate_user : Uuid → Document
  unfolding publish
  invalidate_user u = publish (record zero_message { user_id = some u })

  pub invalidate_channel : Uuid → Document
  unfolding publish
  invalidate_channel c = publish (record zero_message { channel_id = some c })

  pub invalidate_user_channel : Uuid → Uuid → Document
  unfolding publish
  invalidate_user_channel u c =
      publish (record zero_message { user_id = some u; channel_id = some c })

  pub invalidate_all : Document
  unfolding publish
  invalidate_all = publish (record zero_message { all = true })

  -- `json.Unmarshal` into a field: `null` leaves a number or a Boolean and clears a pointer.
  pub read_version : Scalar → InvalidationMessage → Result InvalidationMessage
  read_version null m = ok m
  read_version (num n) m = ok (record m { version = n })
  read_version _ m = err malformed

  pub read_id : Scalar → Result (Option Uuid)
  read_id null = ok none
  read_id (str t) = do u ← of_text t; ok (some u)
  read_id _ = err malformed

  pub read_all : Scalar → InvalidationMessage → Result InvalidationMessage
  read_all null m = ok m
  read_all (bool b) m = ok (record m { all = b })
  read_all _ m = err malformed

  pub read_field : String → Scalar → InvalidationMessage → Result InvalidationMessage
  unfolding read_version read_id read_all
  read_field key value m =
      if str_eq key "v"
      then read_version value m
      else if str_eq key "user_id"
      then (do id ← read_id value; ok (record m { user_id = id }))
      else if str_eq key "channel_id"
      then (do id ← read_id value; ok (record m { channel_id = id }))
      else if str_eq key "all"
      then read_all value m
      else ok m

  pub read_fields : List (String × Scalar) → InvalidationMessage → Result InvalidationMessage
  unfolding read_field
  read_fields [] m = ok m
  read_fields ((key, value) ∷ fields) m = do m' ← read_field key value m; read_fields fields m'

  pub unmarshal : Document → Result InvalidationMessage
  unfolding read_fields
  unmarshal garbage = err malformed
  unmarshal (object fields) = read_fields fields zero_message

  module _ {Permission : Type 0} (cache : Cache Permission) where
    open cache use {State}

    -- The `switch`: the deletion that the message asks for. Its error is only logged.
    unfoldable pub delete_for : Bool → Option Uuid → Option Uuid → State → Result (Unit {0}) × State
    delete_for true user channel s = cache.delete_all s
    delete_for false (some u) (some c) s = cache.delete_exact u c s
    delete_for false (some u) none s = cache.delete_by_user u s
    delete_for false none (some c) s = cache.delete_by_channel c s
    delete_for false none none s = (ok tt, s)

    -- A message that does not parse, or has another version, is skipped.
    pub handle_decoded : Result InvalidationMessage → State → Result (Unit {0}) × State
    unfolding delete_for
    handle_decoded (err e) s = (ok tt, s)
    handle_decoded (ok m) s =
        if m.version == invalidation_version
        then delete_for m.all m.user_id m.channel_id s
        else (ok tt, s)

    pub handle_message : Document → State → Result (Unit {0}) × State
    unfolding handle_decoded
    handle_message payload s = handle_decoded (unmarshal payload) s
