-- ===== src/Permission/Bitfield.antt =====
-- The permission bitfield of the module uncord-protocol (package permissions), which the server
-- imports and does not contain: its type, constants and operations, with the documented meaning
-- of `Add` (union), `Remove` (difference) and `Has` (all bits of the argument are set).
use uncord_server.Strconv.{ℤ, IsInt64}
use uncord_server.Prelude.{ℕ, ◌≡◌, ◌↔◌, Bool, true, false, not, ◌&&◌, ◌||◌}

pub record Bitfield : Type 1 where
  pub Permission : Type 0
  pub empty : Permission
  pub all_permissions : Permission
  pub manage_server : Permission
  pub view_channels : Permission
  pub has : Permission → Permission → Bool
  pub add : Permission → Permission → Permission
  pub remove : Permission → Permission → Permission
  pub bit : Permission → ℕ → Bool
  -- `int64(p)` and `permissions.Permission(n)`.
  pub to_int : Permission → ℤ
  pub of_int : ℤ → Permission
  pub of_int-to_int : (p : Permission) → of_int (to_int p) ≡ p
  pub to_int-IsInt64 : (p : Permission) → IsInt64 (to_int p)
  pub bit-empty : (i : ℕ) → bit empty i ≡ false
  pub bit-add : (p q : Permission) (i : ℕ) → bit (add p q) i ≡ (bit p i || bit q i)
  pub bit-remove : (p q : Permission) (i : ℕ) → bit (remove p q) i ≡ (bit p i && not (bit q i))
  pub has_iff : (p q : Permission) → (has p q ≡ true) ↔ ((i : ℕ) → bit q i ≡ true → bit p i ≡ true)
