-- ===== src/Examples/Access.antt =====
-- The permission theorems, applied to the example server.
use uncord_server.Prelude.{
  ℕ, ◌≡◌, ◌≢◌, refl, true, false, some, [], ◌∷◌, arith, ok, inl, ◌⊎◌, ◌<◌, Bytes, codes, ◌==◌,
  if◌then◌else◌,
}
use uncord_server.Uuid.{Uuid}
use uncord_server.Valkey.Call.{World}
use uncord_server.Permission.Store.{channel, category}
use uncord_server.Permission.Overrides.{
  apply_overrides, merge_overrides, merge_override, apply_user,
}
use uncord_server.Permission.Overrides.Precedence.{bit-apply_overrides, verdict, decided}
use uncord_server.Permission.Cache.{Cache, IsCache}
use uncord_server.Permission.Resolver.{
  server_perm_key, base_permissions, of_roles, compute, channel_overrides, category_overrides,
  resolve, filter_permitted, filter_users_permitted, role_union,
}
use uncord_server.Permission.Resolver.Effective.{compute_administrator, compute_bits, granted}
use uncord_server.Permission.Resolver.Coherence.{expected, Coherent, resolve-eq-compute}
use uncord_server.Permission.Resolver.Filters.{filter_permitted-eq, filter_users_permitted-eq}
use uncord_server.Permission.ValkeyCache.{scan_and_delete, user_pattern}
use uncord_server.Permission.ValkeyCache.Progress.{scan_and_delete-answered}
use uncord_server.Permission.Invalidate.{
  InvalidationMessage, zero_message, publish, handle_message, delete_for,
}
use uncord_server.Permission.Invalidate.Soundness.{publish-Coherent, handle_message-publish}
use uncord_server.Permission.ValkeyCache.Laws.{valkey_cache}
use uncord_server.Permission.ValkeyCache.Refines.{valkey_cache-IsCache}
use uncord_server.Examples.Server.{Memory, memory, uuid_text, empty_memory}
use uncord_server.Examples.Permissions.{Flags, flags, flag, database, rows, everyone, view_flag}
use uncord_server.Permission.Store.{Store}

abbrev pub answers : Cache Flags
answers = valkey_cache flags memory uuid_text 5

abbrev pub idle : World Memory
idle = record { server = empty_memory; schedule = [] }

bit-apply_overrides_example :
    flag (apply_overrides flags view_flag (rows category 20) (10 ∷ []) 2) 0 ≡ false
bit-apply_overrides_example = bit-apply_overrides flags (10 ∷ []) 2 view_flag (rows category 20) 0

compute_administrator_example :
    compute flags database 1 99 ≡ ok (record { view = true; manage = true })
compute_administrator_example = compute_administrator flags database 1 99 [] (inl refl)

compute_bits_example :
    (p : Flags) × (compute flags database 2 21 ≡ ok p)
    × ((i : ℕ)
        → flag p i
          ≡ decided (verdict flags (rows channel 21) (10 ∷ []) 2 i) (
              decided
                (verdict flags (rows category 20) (10 ∷ []) 2 i)
                (granted flags database everyone i)))
unfolding role_union
compute_bits_example =
    compute_bits flags database 2 21 everyone (record { id = 21; category_id = some 20 })
      (rows category 20) (rows channel 21) refl refl refl refl refl refl

pub view_computed : (u : Uuid) → u ≡ 2 → compute flags database u 21 ≡ ok view_flag
unfolding compute base_permissions of_roles role_union channel_overrides category_overrides
    apply_overrides merge_overrides merge_override apply_user
view_computed u is = rw is refl

pub idle-Coherent : Coherent flags database answers idle
idle-Coherent u c p e = absurd (ground arith)

resolve-eq-compute_example :
    ((resolve flags database answers 2 21 idle).0 ≡ compute flags database 2 21)
    × Coherent flags database answers (resolve flags database answers 2 21 idle).1
resolve-eq-compute_example =
    resolve-eq-compute flags database answers (valkey_cache-IsCache flags memory uuid_text 5) 2 21
      idle (λ e. absurd (omega arith)) idle-Coherent

abbrev SamePair : Uuid → Uuid → Uuid → Uuid → Type 0
SamePair u c u' c' = (u ≡ u') × (c ≡ c')

valkey_cache-IsCache_example : IsCache (valkey_cache flags memory uuid_text 5)
valkey_cache-IsCache_example = valkey_cache-IsCache flags memory uuid_text 5

page_ends :
    (cursor : ℕ) (pattern : Bytes) (n : ℕ) (s : Memory)
    → ((memory.scan cursor pattern n s).1 ≡ 0) ⊎ ((memory.scan cursor pattern n s).1 < cursor)
page_ends cursor pattern n s = inl refl

scan_and_delete-answered_example :
    (scan_and_delete flags memory uuid_text 1 0 (codes "perms:*") idle).0 ≡ ok tt
scan_and_delete-answered_example =
    scan_and_delete-answered flags memory uuid_text (λ cursor. cursor) page_ends 1 0
      (codes "perms:*") idle (omega arith) refl

pub base_computed :
    base_permissions flags database 2
    ≡ ok (record { perm = view_flag; role_ids = 10 ∷ []; admin = false })
unfolding base_permissions of_roles role_union
base_computed = refl

filter_permitted-eq_example :
    ((filter_permitted flags database answers 2 (21 ∷ 21 ∷ []) view_flag idle).0
      ≡ ok (true ∷ true ∷ []))
    × Coherent flags database answers
        (filter_permitted flags database answers 2 (21 ∷ 21 ∷ []) view_flag idle).1
filter_permitted-eq_example =
    filter_permitted-eq flags database answers (valkey_cache-IsCache flags memory uuid_text 5) 2
      (21 ∷ 21 ∷ []) view_flag (λ _. view_flag)
      (record { perm = view_flag; role_ids = 10 ∷ []; admin = false }) idle idle-Coherent refl
      base_computed ((away, view_computed 2 refl), ((away, view_computed 2 refl), tt))
  where
    away : 21 ≢ server_perm_key
    away e = absurd (omega arith)

filter_users_permitted-eq_example :
    ((filter_users_permitted flags database answers (2 ∷ []) 21 view_flag idle).0 ≡ ok (true ∷ []))
    × Coherent flags database answers
        (filter_users_permitted flags database answers (2 ∷ []) 21 view_flag idle).1
filter_users_permitted-eq_example =
    filter_users_permitted-eq flags database answers (valkey_cache-IsCache flags memory uuid_text 5)
      (2 ∷ []) 21 view_flag (λ _. view_flag) idle idle-Coherent (λ e. absurd (omega arith))
      (view_computed 2 refl, tt)

-- User 2 is given nothing by the roles any more: the new database denies the view everywhere.
abbrev emptied : Store Flags
emptied = record database { role_permissions = λ u. if u == 2 then ok [] else ok everyone }

same_base :
    (u : Uuid) → ¬ (u ≡ 2) → base_permissions flags database u ≡ base_permissions flags emptied u
unfolding base_permissions of_roles role_union
same_base u other = rw (differs) refl
  where
    differs : (u == 2) ≡ false
    differs = ground arith

same_for_others :
    (u c : Uuid) → ¬ (u ≡ 2) → expected flags database u c ≡ expected flags emptied u c
unfolding compute channel_overrides category_overrides
same_for_others u c other = rw (same_base u other) refl

abbrev user_changed : InvalidationMessage
user_changed = record zero_message { user_id = some 2 }

handled : (handle_message uuid_text answers (publish uuid_text user_changed) idle).0 ≡ ok tt
unfolding delete_for
handled =
    rw
      (handle_message-publish uuid_text answers (valkey_cache-IsCache flags memory uuid_text 5)
        user_changed idle)
      (scan_and_delete-answered flags memory uuid_text (λ cursor. cursor) page_ends 5 0
        (user_pattern flags memory uuid_text 2) idle (omega arith) refl)

publish-Coherent_example :
    Coherent flags emptied answers
      (handle_message uuid_text answers (publish uuid_text user_changed) idle).1
publish-Coherent_example =
    publish-Coherent uuid_text flags database emptied answers
      (valkey_cache-IsCache flags memory uuid_text 5) user_changed idle idle-Coherent
      same_for_others handled
