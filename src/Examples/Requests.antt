-- ===== src/Examples/Requests.antt =====
-- The theorems about the middleware, applied to the example server.
use uncord_server.Prelude.{
  ◌≡◌, ◌≢◌, refl, ap, ◌∙◌, true, arith, Bytes, Result, ok, ◌>>=◌, ok_injective,
}
use uncord_server.Uuid.{Uuid}
use uncord_server.Permission.Resolver.{server_perm_key, compute, has_server_permission}
use uncord_server.Permission.Resolver.Coherence.{
  server_permissions, has_permission-eq-has, resolve_server-eq-server_permissions,
}
use uncord_server.Permission.ValkeyCache.Refines.{valkey_cache-IsCache}
use uncord_server.Permission.Middleware.{
  next, decide, check_channel, require_permission, require_server_permission,
}
use uncord_server.Permission.Middleware.Access.{
  require_permission-next, require_server_permission-next,
}
use uncord_server.Examples.Server.{memory, uuid_text}
use uncord_server.Examples.Permissions.{Flags, flags, includes, database, view_flag}
use uncord_server.Examples.Access.{answers, idle, idle-Coherent, view_computed, base_computed}

abbrev visitor : Result Uuid
visitor = ok 2

abbrev channel_text : Bytes
channel_text = uuid_text.to_text 21

let_in :
    (require_permission flags database answers uuid_text view_flag (ok 2) channel_text idle).0
    ≡ next
unfolding require_permission check_channel decide
let_in = ap decide (
    has_permission-eq-has flags database answers (valkey_cache-IsCache flags memory uuid_text 5) 2
      21 view_flag view_flag idle (λ e. absurd (omega arith)) idle-Coherent (view_computed 2 refl))

not_the_server : (c : Uuid) → uuid_text.of_text channel_text ≡ ok c → c ≢ server_perm_key
not_the_server c h e = absurd (omega (arith, ok_injective h))

require_permission-next_example :
    (u : Uuid) × (c : Uuid) × (p : Flags) × (visitor ≡ ok u)
    × (uuid_text.of_text channel_text ≡ ok c)
    × (compute flags database u c ≡ ok p)
    × (includes p view_flag ≡ true)
require_permission-next_example =
    require_permission-next flags database answers (valkey_cache-IsCache flags memory uuid_text 5)
      uuid_text view_flag (ok 2) channel_text idle idle-Coherent not_the_server let_in

server_let_in :
    (require_server_permission flags database answers uuid_text view_flag (ok 2) idle).0 ≡ next
unfolding require_server_permission has_server_permission decide
server_let_in =
    ap (λ r. decide (r >>= λ p. ok (includes p view_flag)))
      ((resolve_server-eq-server_permissions flags database answers
          (valkey_cache-IsCache flags memory uuid_text 5) 2 idle idle-Coherent).0
        ∙ ap (λ r. r >>= λ br. ok br.perm) base_computed)

require_server_permission-next_example :
    (u : Uuid) × (p : Flags) × (visitor ≡ ok u)
    × (server_permissions flags database u ≡ ok p)
    × (includes p view_flag ≡ true)
require_server_permission-next_example =
    require_server_permission-next flags database answers
      (valkey_cache-IsCache flags memory uuid_text 5) uuid_text view_flag (ok 2) idle idle-Coherent
      server_let_in
