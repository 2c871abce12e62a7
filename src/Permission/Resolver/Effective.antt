-- ===== src/Permission/Resolver/Effective.antt =====
-- What `compute` returns, one bit at a time, from the rows that it reads.
use uncord_server.Prelude.{
  ℕ, ◌≡◌, refl, Bool, true, false, ◌||◌, ◌⊎◌, inl, inr, Option, none, some, List, [], ◌∷◌, map,
  arith, Result, ok,
}
use uncord_server.Permission.Bitfield.{Bitfield}
use uncord_server.Permission.Store.{
  Uuid, channel, category, Override, RolePermEntry, ChannelInfo, Store,
}
use uncord_server.Permission.Overrides.{apply_overrides}
use uncord_server.Permission.Overrides.Precedence.{decided, verdict, bit-apply_overrides}
use uncord_server.Permission.Resolver.{
  role_union, of_roles, base_permissions, category_overrides, channel_overrides, compute,
}

module _ (B : Bitfield) (store : Store B.Permission) where
  open B use {Permission, empty, all_permissions, manage_server, has, add, bit}

  -- Some role of the list has the bit.
  abbrev pub granted : List (RolePermEntry Permission) → ℕ → Bool
  granted [] i = false
  granted (e ∷ es) i = bit e.permissions i || granted es i

  abbrev pub role_ids_of : List (RolePermEntry Permission) → List Uuid
  role_ids_of = map (λ e. e.role_id)

  -- The overrides of the channel's category, none where it stands in no category.
  abbrev pub reads_category : Option Uuid → Result (List (Override Permission))
  reads_category none = ok []
  reads_category (some id) = store.overrides category id

  bit-role_union_from :
      (base : Permission) (es : List (RolePermEntry Permission)) (i : ℕ)
      → bit (role_union B store base es) i ≡ (bit base i || granted es i)
  unfolding role_union
  bit-role_union_from base [] i = ground arith
  bit-role_union_from base (e ∷ es) i =
      ground
        (arith, bit-role_union_from (add base e.permissions) es i, B.bit-add base e.permissions i)

  bit-role_union :
      (es : List (RolePermEntry Permission)) (i : ℕ)
      → bit (role_union B store empty es) i ≡ granted es i
  bit-role_union es i = ground (arith, bit-role_union_from empty es i, B.bit-empty i)

  -- The owner, and whoever's roles together hold ManageServer, has all permissions in every
  -- channel, whatever the overrides are and even if the channel's rows cannot be read.
  pub compute_administrator :
      (user_id channel_id : Uuid) (es : List (RolePermEntry Permission))
      → (store.is_owner user_id ≡ ok true)
        ⊎ ((store.is_owner user_id ≡ ok false)
            × (store.role_permissions user_id ≡ ok es)
            × ((i : ℕ) → bit manage_server i ≡ true → granted es i ≡ true))
      → compute B store user_id channel_id ≡ ok all_permissions
  unfolding compute base_permissions of_roles
  compute_administrator user_id channel_id es (inl owner) = ground arith
  compute_administrator user_id channel_id es (inr (a, b, c)) = ground (arith, holds)
    where
      holds : has (role_union B store empty es) manage_server ≡ true
      holds = (B.has_iff _ _).1 (λ i h. ground (arith, bit-role_union es i, c i))

  category_bits :
      (base : Permission) (ids : List Uuid) (user_id : Uuid) (id : Option Uuid)
      (os : List (Override Permission))
      → reads_category id ≡ ok os
      → (p : Permission) × (category_overrides B store base ids user_id id ≡ ok p)
        × ((i : ℕ) → bit p i ≡ decided (verdict B os ids user_id i) (bit base i))
  unfolding category_overrides
  category_bits base ids user_id none [] h = (base, refl, λ i. refl)
  category_bits base ids user_id none (o ∷ os) h = absurd (ground arith)
  category_bits base ids user_id (some id) os h = (
    apply_overrides B base os ids user_id,
    ground arith,
    bit-apply_overrides B ids user_id base os,
  )

  -- Where the rows can be read and the user is no administrator, a bit is decided by the channel's
  -- overrides, else by those of the category, else by the union of the roles.
  pub compute_bits :
      (user_id channel_id : Uuid) (es : List (RolePermEntry Permission)) (info : ChannelInfo)
      (of_category of_channel : List (Override Permission))
      → store.is_owner user_id ≡ ok false
      → store.role_permissions user_id ≡ ok es
      → has (role_union B store empty es) manage_server ≡ false
      → store.channel_info channel_id ≡ ok info
      → reads_category info.category_id ≡ ok of_category
      → store.overrides channel channel_id ≡ ok of_channel
      → (p : Permission) × (compute B store user_id channel_id ≡ ok p)
        × ((i : ℕ)
            → bit p i
              ≡ decided
                  (verdict B of_channel (role_ids_of es) user_id i)
                  (decided (verdict B of_category (role_ids_of es) user_id i) (granted es i)))
  unfolding compute base_permissions of_roles channel_overrides
  compute_bits user_id channel_id es info of_category of_channel a b c d e f =
      let base : Permission = role_union B store empty es in
      let (mid, got, mid_bits) =
        category_bits base (role_ids_of es) user_id info.category_id of_category e in
      (
        apply_overrides B mid of_channel (role_ids_of es) user_id,
        ground (arith, got),
        λ i. ground (
          arith,
          bit-apply_overrides B (role_ids_of es) user_id mid of_channel i,
          mid_bits i,
          bit-role_union es i,
        ),
      )
