-- ===== src/Examples/Permissions.antt =====
-- A server with two permissions, bit 0 to view and bit 1 to manage, and a database of two users.
use uncord_server.Prelude.{
  ℕ, zero, suc, ◌≡◌, ◌↔◌, refl, Bool, true, false, not, ◌&&◌, ◌||◌, some, List, [], ◌∷◌, arith,
  ◌==◌, if◌then◌else◌, ok, err, failed,
}
use uncord_server.Strconv.{ℤ, pos, negsuc, IsInt64}
use uncord_server.Permission.Bitfield.{Bitfield}
use uncord_server.Permission.Store.{
  Uuid, TargetType, channel, category, role, user, Override, RolePermEntry, Store,
}

pub record Flags : Type 0 where
  pub view : Bool
  pub manage : Bool

abbrev pub flag : Flags → ℕ → Bool
flag p zero = p.view
flag p (suc zero) = p.manage
flag p (suc (suc _)) = false

abbrev pub implies : Bool → Bool → Bool
implies a b = not a || b

abbrev pub includes : Flags → Flags → Bool
includes p q = implies q.view p.view && implies q.manage p.manage

abbrev pub as_number : Bool → Bool → ℤ
as_number false false = pos 0
as_number true false = pos 1
as_number false true = pos 2
as_number true true = pos 3

abbrev pub of_number : ℤ → Flags
of_number (pos zero) = record { view = false; manage = false }
of_number (pos (suc zero)) = record { view = true; manage = false }
of_number (pos (suc (suc zero))) = record { view = false; manage = true }
of_number (pos (suc (suc (suc _)))) = record { view = true; manage = true }
of_number (negsuc _) = record { view = false; manage = false }

pub of_number-as_number : (a b : Bool) → of_number (as_number a b) ≡ record { view = a; manage = b }
of_number-as_number false false = refl
of_number-as_number true false = refl
of_number-as_number false true = refl
of_number-as_number true true = refl

pub as_number-IsInt64 : (a b : Bool) → IsInt64 (as_number a b)
as_number-IsInt64 false false = omega arith
as_number-IsInt64 true false = omega arith
as_number-IsInt64 false true = omega arith
as_number-IsInt64 true true = omega arith

pub flag_add :
    (p q : Flags) (i : ℕ)
    → flag (record { view = p.view || q.view; manage = p.manage || q.manage }) i
      ≡ (flag p i || flag q i)
flag_add p q zero = refl
flag_add p q (suc zero) = refl
flag_add p q (suc (suc _)) = refl

pub flag_remove :
    (p q : Flags) (i : ℕ)
    → flag (record { view = p.view && not q.view; manage = p.manage && not q.manage }) i
      ≡ (flag p i && not (flag q i))
flag_remove p q zero = refl
flag_remove p q (suc zero) = refl
flag_remove p q (suc (suc _)) = refl

pub flag_empty : (i : ℕ) → flag (record { view = false; manage = false }) i ≡ false
flag_empty zero = refl
flag_empty (suc zero) = refl
flag_empty (suc (suc _)) = refl

pub includes_iff :
    (p q : Flags) → (includes p q ≡ true) ↔ ((i : ℕ) → flag q i ≡ true → flag p i ≡ true)
includes_iff p q = (there, back)
  where
    there : includes p q ≡ true → (i : ℕ) → flag q i ≡ true → flag p i ≡ true
    there h zero f = ground arith
    there h (suc zero) f = ground arith
    there h (suc (suc i)) f = f

    back : ((i : ℕ) → flag q i ≡ true → flag p i ≡ true) → includes p q ≡ true
    back h =
        let a : q.view ≡ true → p.view ≡ true = h 0 in
        let b : q.manage ≡ true → p.manage ≡ true = h 1 in ground (arith, a, b)

abbrev pub flags : Bitfield
flags = record {
  Permission = Flags;
  empty = record { view = false; manage = false };
  all_permissions = record { view = true; manage = true };
  manage_server = record { view = false; manage = true };
  view_channels = record { view = true; manage = false };
  has = includes;
  add = λ p q. record { view = p.view || q.view; manage = p.manage || q.manage };
  remove = λ p q. record { view = p.view && not q.view; manage = p.manage && not q.manage };
  bit = flag;
  to_int = λ p. as_number p.view p.manage;
  of_int = of_number;
  of_int-to_int = λ p. of_number-as_number p.view p.manage;
  to_int-IsInt64 = λ p. as_number-IsInt64 p.view p.manage;
  bit-empty = flag_empty;
  bit-add = flag_add;
  bit-remove = flag_remove;
  has_iff = includes_iff;
}

abbrev pub nothing : Flags
nothing = record { view = false; manage = false }

abbrev pub view_flag : Flags
view_flag = record { view = true; manage = false }

-- User 1 owns the server; everybody has role 10, which may view. Channel 21 stands in category 20,
-- which denies role 10 the view; the channel itself grants it to user 2.
abbrev pub rows : TargetType → Uuid → List (Override Flags)
rows category id =
    if id == 20
    then record { principal_type = role; principal_id = 10; allow = nothing; deny = view_flag } ∷ []
    else []
rows channel id =
    if id == 21
    then record { principal_type = user; principal_id = 2; allow = view_flag; deny = nothing } ∷ []
    else []

abbrev pub everyone : List (RolePermEntry Flags)
everyone = record { role_id = 10; permissions = view_flag } ∷ []

abbrev pub database : Store Flags
database = record {
  is_owner = λ u. ok (u == 1);
  role_permissions = λ _. ok everyone;
  channel_info =
      λ c. if c == 21 then ok (record { id = 21; category_id = some 20 }) else err failed;
  overrides = λ t id. ok (rows t id);
}
