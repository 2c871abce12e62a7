-- ===== src/Permission/Overrides/Precedence.antt =====
-- Which override decides a bit: a specification of `applyOverrides` one bit at a time.
use uncord_server.Prelude.{
  ℕ, ◌≡◌, refl, Bool, true, false, ◌&&◌, ◌||◌, Option, none, some, List, [], ◌∷◌, arith, ◌==◌,
  contains, if◌then◌else◌,
}
use uncord_server.Permission.Bitfield.{Bitfield}
use uncord_server.Permission.Store.{Uuid, Override}
use uncord_server.Permission.Overrides.{
  is_user, is_role, Merged, merge_override, merge_overrides, apply_user, apply_overrides,
}

-- What one level says of one bit: nothing, granted or denied; `or_else` is precedence.
abbrev pub Verdict : Type 0
Verdict = Option Bool

abbrev pub or_else {ℓ} : {A : Type ℓ} → Option A → Option A → Option A
or_else none v = v
or_else (some a) v = some a

abbrev pub decided : Verdict → Bool → Bool
decided none b = b
decided (some a) b = a

-- A denial beats a grant.
abbrev pub rule : Bool → Bool → Verdict
rule allowed denied = if denied then some false else if allowed then some true else none

-- The last override in the list that is the user's own.
abbrev pub own_override : {A : Type 0} → Uuid → List (Override A) → Option (Override A)
own_override user_id [] = none
own_override user_id (o ∷ os) =
    or_else (own_override user_id os)
      (if is_user o.principal_type && o.principal_id == user_id then some o else none)

module _ (B : Bitfield) where
  open B use {Permission, bit, bit-add, bit-remove, bit-empty, empty, add, remove}

  -- Some override of a role that the user holds has the bit, in the field that `side` reads.
  abbrev pub role_has :
      (Override Permission → Permission) → List Uuid → List (Override Permission) → ℕ → Bool
  role_has side roles [] i = false
  role_has side roles (o ∷ os) i =
      (is_role o.principal_type && contains o.principal_id roles && bit (side o) i)
      || role_has side roles os i

  abbrev pub role_verdict : List Uuid → List (Override Permission) → ℕ → Verdict
  role_verdict roles os i =
      rule (role_has (λ o. o.allow) roles os i) (role_has (λ o. o.deny) roles os i)

  abbrev pub own_verdict : Option (Override Permission) → ℕ → Verdict
  own_verdict none i = none
  own_verdict (some o) i = rule (bit o.allow i) (bit o.deny i)

  -- The user's own override comes before those of the roles.
  abbrev pub verdict : List (Override Permission) → List Uuid → Uuid → ℕ → Verdict
  verdict os roles user_id i =
      or_else (own_verdict (own_override user_id os) i) (role_verdict roles os i)

  module _ (roles : List Uuid) (user_id : Uuid) where
    step-allow :
        (m : Merged Permission) (o : Override Permission) (i : ℕ)
        → bit (merge_override B roles user_id m o).role_allow i ≡ (
            bit m.role_allow i
            || (is_role o.principal_type && contains o.principal_id roles && bit o.allow i))
    unfolding merge_override
    step-allow m o i = ground (arith, bit-add m.role_allow o.allow i)

    step-deny :
        (m : Merged Permission) (o : Override Permission) (i : ℕ)
        → bit (merge_override B roles user_id m o).role_deny i ≡ (
            bit m.role_deny i
            || (is_role o.principal_type && contains o.principal_id roles && bit o.deny i))
    unfolding merge_override
    step-deny m o i = ground (arith, bit-add m.role_deny o.deny i)

    step-own :
        (m : Merged Permission) (o : Override Permission)
        → (merge_override B roles user_id m o).user_override ≡ (
            if is_user o.principal_type && o.principal_id == user_id
            then some o
            else m.user_override)
    unfolding merge_override
    step-own m o = ground arith

    merge-allow :
        (m : Merged Permission) (os : List (Override Permission)) (i : ℕ)
        → bit (merge_overrides B roles user_id m os).role_allow i
          ≡ (bit m.role_allow i || role_has (λ o. o.allow) roles os i)
    unfolding merge_overrides
    merge-allow m [] i = ground arith
    merge-allow m (o ∷ os) i =
        ground (arith, step-allow m o i, merge-allow (merge_override B roles user_id m o) os i)

    merge-deny :
        (m : Merged Permission) (os : List (Override Permission)) (i : ℕ)
        → bit (merge_overrides B roles user_id m os).role_deny i
          ≡ (bit m.role_deny i || role_has (λ o. o.deny) roles os i)
    unfolding merge_overrides
    merge-deny m [] i = ground arith
    merge-deny m (o ∷ os) i =
        ground (arith, step-deny m o i, merge-deny (merge_override B roles user_id m o) os i)

    merge-own :
        (m : Merged Permission) (os : List (Override Permission))
        → (merge_overrides B roles user_id m os).user_override
          ≡ or_else (own_override user_id os) m.user_override
    unfolding merge_overrides
    merge-own m [] = refl
    merge-own m (o ∷ os) =
        ground (arith, step-own m o, merge-own (merge_override B roles user_id m o) os)

    -- The bit after a grant and a denial.
    bit-granted :
        (p allow deny : Permission) (i : ℕ)
        → bit (remove (add p allow) deny) i ≡ decided (rule (bit allow i) (bit deny i)) (bit p i)
    bit-granted p allow deny i = ground (arith, bit-add p allow i, bit-remove (add p allow) deny i)

    bit-apply_user :
        (p : Permission) (o : Option (Override Permission)) (i : ℕ)
        → bit (apply_user B p o) i ≡ decided (own_verdict o i) (bit p i)
    unfolding apply_user
    bit-apply_user p none i = refl
    bit-apply_user p (some o) i = bit-granted p o.allow o.deny i

    -- `applyOverrides`, one bit at a time: the last override of the user's own decides, else those of
    -- the user's roles together, and within a level a denial beats a grant; else the bit stays.
    pub bit-apply_overrides :
        (base : Permission) (os : List (Override Permission)) (i : ℕ)
        → bit (apply_overrides B base os roles user_id) i
          ≡ decided (verdict os roles user_id i) (bit base i)
    unfolding apply_overrides
    bit-apply_overrides base os i =
        let start : Merged Permission = record {
          role_allow = empty;
          role_deny = empty;
          user_override = none;
        } in
        let m : Merged Permission = merge_overrides B roles user_id start os in
        ground (
          arith,
          merge-own start os,
          merge-allow start os i,
          merge-deny start os i,
          bit-empty i,
          bit-granted base m.role_allow m.role_deny i,
          bit-apply_user (remove (add base m.role_allow) m.role_deny) m.user_override i,
        )
