-- ===== src/Permission/ValkeyCache.antt =====
-- internal/permission/cache.go: `ValkeyCache`, the cache of permissions in Valkey. A pipeline of SETs is
-- one call here, and runs from the end of the map's list, since Go's order of a map is not fixed. The
-- loop over the pages of SCAN takes fuel, and fails where the pages do not end in time.
pub mod Keys
pub mod Scan
pub mod Laws
pub mod Refines
pub mod Progress
use Prim.Native.String.{String}
use uncord_server.Prelude.{
  ℕ, zero, suc, ◌≡◌, Bool, true, false, Option, none, some, List, [], ◌∷◌, ◌++◌, map, Bytes, codes,
  length, ◌==◌, if◌then◌else◌, Result, ok, err, failed, wrap, ◌>>=◌, context, put,
}
use uncord_server.Uuid.{Uuid, UuidText}
use uncord_server.Strconv.{format_int, parse_int}
use uncord_server.Valkey.{Valkey}
use uncord_server.Valkey.Call.{World, call}
use uncord_server.Permission.Bitfield.{Bitfield}

abbrev pub cache_ttl : ℕ
cache_ttl = 300

abbrev pub cache_prefix : Bytes
cache_prefix = codes "perms"

abbrev pub scan_batch_size : ℕ
scan_batch_size = 100

module _ (B : Bitfield) (V : Valkey) (T : UuidText) where
  open B use {Permission, to_int, of_int}
  open V use {State, string_at, set, del, scan, elapse}
  open T use {to_text}

  pub cache_key : Uuid → Uuid → Bytes
  cache_key user_id channel_id =
      cache_prefix ++ (b':' ∷ (to_text user_id ++ (b':' ∷ to_text channel_id)))

  pub read_value : Option Bytes → Result (Option Permission)
  read_value none = ok none
  read_value (some val) = do
    n ← context "parse cached permission" (parse_int val)
    ok (some (of_int n))

  pub get : Uuid → Uuid → World State → Result (Option Permission) × World State
  get user_id channel_id w =
      let (r, w') = call elapse (λ s. (string_at (cache_key user_id channel_id) s, s)) w in
      (context "cache get" r >>= read_value, w')

  pub set_one : Uuid → Uuid → Permission → World State → Result (Unit {0}) × World State
  set_one user_id channel_id perm w =
      let (r, w') =
        call {A = Unit {0}} elapse
          (λ s. (tt, set (cache_key user_id channel_id) (format_int (to_int perm)) cache_ttl s))
          w in
      (context "cache set" r, w')

  -- The loop over the values: what is missing or does not parse is left out.
  pub collect : List Uuid → List (Option Bytes) → List (Uuid × Permission)
  collect [] vals = []
  collect (id ∷ ids) [] = []
  collect (id ∷ ids) (none ∷ vals) = collect ids vals
  collect (id ∷ ids) (some val ∷ vals) = elim (parse_int val) [
    | ok n ↦ put id (of_int n) (collect ids vals)
    | err _ ↦ collect ids vals
  ]

  -- `GetMany` and `GetManyUsers`, over the text of their error and the key of an item. Nothing is
  -- asked for no items.
  pub get_all :
      String
      → (Uuid → Bytes)
      → List Uuid
      → World State
      → Result (List (Uuid × Permission)) × World State
  get_all what key [] w = (ok [], w)
  get_all what key (id ∷ ids) w =
      let (r, w') = call elapse (λ s. (map (λ i. string_at (key i) s) (id ∷ ids), s)) w in
      (context what r >>= λ vals. ok (collect (id ∷ ids) vals), w')

  pub set_entries : (Uuid → Bytes) → List (Uuid × Permission) → State → State
  set_entries key [] s = s
  set_entries key ((id, perm) ∷ m) s =
      set (key id) (format_int (to_int perm)) cache_ttl (set_entries key m s)

  -- `SetMany` and `SetManyUsers`.
  pub set_all :
      String
      → (Uuid → Bytes)
      → List (Uuid × Permission)
      → World State
      → Result (Unit {0}) × World State
  set_all what key [] w = (ok tt, w)
  set_all what key (e ∷ m) w =
      let (r, w') = call {A = Unit {0}} elapse (λ s. (tt, set_entries key (e ∷ m) s)) w in
      (context what r, w')

  pub delete_keys : List Bytes → State → State
  delete_keys [] s = s
  delete_keys (k ∷ ks) s = delete_keys ks (del k s)

  -- DEL of a page, left out where the page is empty.
  pub delete_page : List Bytes → World State → Result (Unit {0}) × World State
  delete_page [] w = (ok tt, w)
  delete_page (k ∷ ks) w =
      let (r, w') = call {A = Unit {0}} elapse (λ s. (tt, delete_keys (k ∷ ks) s)) w in
      (context "delete keys" r, w')

  -- After the DEL of a page: the next round, unless the cursor is back at 0.
  pub after_delete :
      (World State → Result (Unit {0}) × World State)
      → Bool
      → Result (Unit {0})
      → World State
      → Result (Unit {0}) × World State
  after_delete next_round last (err e) w = (err e, w)
  after_delete next_round true (ok _) w = (ok tt, w)
  after_delete next_round false (ok _) w = next_round w

  pub after_page :
      (ℕ → World State → Result (Unit {0}) × World State)
      → Result (List Bytes × ℕ)
      → World State
      → Result (Unit {0}) × World State
  unfolding after_delete
  after_page next_round (err e) w = (err (wrap "scan keys" e), w)
  after_page next_round (ok (keys, next)) w =
      let (r, w') = delete_page keys w in after_delete (next_round next) (next == 0) r w'

  pub scan_and_delete : ℕ → ℕ → Bytes → World State → Result (Unit {0}) × World State
  unfolding after_page
  scan_and_delete zero cursor pattern w = (err failed, w)
  scan_and_delete (suc fuel) cursor pattern w =
      let (r, w') = call elapse (λ s. (scan cursor pattern scan_batch_size s, s)) w in
      after_page (λ next v. scan_and_delete fuel next pattern v) r w'

  abbrev pub user_pattern : Uuid → Bytes
  user_pattern user_id = (cache_prefix ++ (b':' ∷ (to_text user_id ++ (b':' ∷ [])))) ++ b'*' ∷ []

  abbrev pub channel_pattern : Uuid → Bytes
  channel_pattern channel_id = (cache_prefix ++ (b':' ∷ [])) ++ b'*' ∷ (b':' ∷ to_text channel_id)

  abbrev pub all_pattern : Bytes
  all_pattern = (cache_prefix ++ (b':' ∷ [])) ++ b'*' ∷ []

  pub delete_exact : Uuid → Uuid → World State → Result (Unit {0}) × World State
  delete_exact user_id channel_id w =
      call {A = Unit {0}} elapse (λ s. (tt, del (cache_key user_id channel_id) s)) w
