-- ===== src/Validation/Limits.antt =====
-- The numbers: sizes of pages, and the uses of an invite.
use uncord_server.Prelude.{
  ℕ, zero, suc, ◌≤◌, ◌<◌, ◌≡◌, refl, ◌↔◌, false, Option, none, some, arith, Bool-cases, inl, inr,
  ltb, ok,
}
use uncord_server.Strconv.{ℤ, pos, negsuc}
use uncord_server.Validation.{clamp_limit, Invite, has_expired, is_used_up, invite_valid}

-- Every requested size is brought between 1 and 100, and a size that is there already is kept.
pub clamp_limit-bounds :
    (limit : ℤ)
    → (n : ℕ) × (clamp_limit limit ≡ pos n)
      × (1 ≤ n)
      × (n ≤ 100)
      × ((m : ℕ) → limit ≡ pos m → 1 ≤ m → m ≤ 100 → n ≡ m)
unfolding clamp_limit
clamp_limit-bounds (negsuc k) =
    (50, refl, omega arith, omega arith, λ m e a b. absurd (ground arith))
clamp_limit-bounds (pos zero) = (50, refl, omega arith, omega arith, λ m e a b. ground arith)
clamp_limit-bounds (pos (suc k)) = elim (Bool-cases (ltb 100 (suc k))) [
  | inl over ↦ (100, rw (over) refl, omega arith, omega arith, λ m e a b. ground arith)
  | inr fits ↦ (suc k, rw (fits) refl, omega arith, ground arith, λ m e a b. ground arith)
]

has_expired_iff :
    (o : Option ℕ) (now : ℕ) → (has_expired o now ≡ false) ↔ ((at : ℕ) → o ≡ some at → now < at)
unfolding has_expired
has_expired_iff none now = (λ h at e. absurd (ground arith), λ h. refl)
has_expired_iff (some t) now = (λ h at e. ground arith, λ h. ground (arith, h t refl))

is_used_up_iff :
    (o : Option ℕ) (count : ℕ)
    → (is_used_up o count ≡ false) ↔ ((most : ℕ) → o ≡ some most → count < most)
unfolding is_used_up
is_used_up_iff none count = (λ h most e. absurd (ground arith), λ h. refl)
is_used_up_iff (some m) count = (λ h most e. ground arith, λ h. ground (arith, h m refl))

-- An invite is usable exactly if the time is before its expiry, where it has one, and it has been used
-- fewer times than its maximum, where it has one.
pub invite_valid_iff :
    (inv : Invite) (now : ℕ)
    → (invite_valid inv now ≡ ok tt) ↔ (
        ((at : ℕ) → inv.expires_at ≡ some at → now < at)
        × ((most : ℕ) → inv.max_uses ≡ some most → inv.use_count < most))
unfolding invite_valid
invite_valid_iff inv now = (
  λ h. (
    (has_expired_iff inv.expires_at now).0 (ground arith),
    (is_used_up_iff inv.max_uses inv.use_count).0 (ground arith),
  ),
  λ h. ground (
    arith,
    (has_expired_iff inv.expires_at now).1 h.0,
    (is_used_up_iff inv.max_uses inv.use_count).1 h.1,
  ),
)
