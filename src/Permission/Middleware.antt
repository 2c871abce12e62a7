-- ===== src/Permission/Middleware.antt =====
-- internal/permission/middleware.go: the checks before a handler. `httputil.UserID` reads the identity
-- that the authentication stored with the request; its result is an argument, as is the parameter
-- "channelID" of the route. The handler that follows is not run here: `next` says that it is.
pub mod Access
use Prim.Native.String.{String}
use uncord_server.Prelude.{ℕ, Bool, true, false, [], ◌∷◌, Bytes, Error, Result, ok, err}
use uncord_server.Uuid.{Uuid, UuidText}
use uncord_server.Permission.Bitfield.{Bitfield}
use uncord_server.Permission.Store.{Store}
use uncord_server.Permission.Cache.{Cache}
use uncord_server.Permission.Resolver.{has_permission, has_server_permission}

-- Error codes of the protocol.
pub data Code : Type 0 where
  missing_channel_id invalid_channel_id internal_error missing_permissions : Code

pub data Response : Type 0 where
  next : Response
  returned : Error → Response
  fail : ℕ → Code → String → Response

-- The end of both functions: what the answer of the resolver leads to.
unfoldable pub decide : Result Bool → Response
decide (err e) = fail 500 internal_error "Failed to check permissions"
decide (ok false) = fail 403 missing_permissions "You do not have the required permissions"
decide (ok true) = next

module _ (B : Bitfield) (store : Store B.Permission) (cache : Cache B.Permission)
    (T : UuidText) where
  open B use {Permission}
  open cache use {State}
  open T use {of_text}

  unfoldable pub check_channel : Permission → Uuid → Result Uuid → State → Response × State
  check_channel perm user_id (err e) s =
      (fail 400 invalid_channel_id "Invalid channel ID format", s)
  check_channel perm user_id (ok channel_id) s =
      let (allowed, s') = has_permission B store cache user_id channel_id perm s in
      (decide allowed, s')

  unfoldable pub require_permission : Permission → Result Uuid → Bytes → State → Response × State
  require_permission perm (err e) channel_id s = (returned e, s)
  require_permission perm (ok user_id) [] s =
      (fail 400 missing_channel_id "Channel ID is required", s)
  require_permission perm (ok user_id) (c ∷ cs) s = check_channel perm user_id (of_text (c ∷ cs)) s

  unfoldable pub require_server_permission : Permission → Result Uuid → State → Response × State
  require_server_permission perm (err e) s = (returned e, s)
  require_server_permission perm (ok user_id) s =
      let (allowed, s') = has_server_permission B store cache user_id perm s in (decide allowed, s')
