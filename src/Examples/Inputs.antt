-- ===== src/Examples/Inputs.antt =====
-- The theorems about the checks of input, applied to texts of one-byte characters where only the byte
-- 32 is white space, taken off the front.
use uncord_server.Prelude.{
  ℕ, ◌≤◌, ◌<◌, ◌≡◌, refl, ◌↔◌, some, Bytes, [], ◌∷◌, codes, length, ◌==◌, if◌then◌else◌, arith, ok,
}
use uncord_server.Strconv.{pos}
use uncord_server.Validation.{
  Texts, Invite, trimmed, trimmed_pointer, normalize, between, message_content, content_checked,
  channel_name_error, clamp_limit, invite_valid,
}
use uncord_server.Validation.Accepted.{trimmed_iff, between-normalize}
use uncord_server.Validation.Limits.{clamp_limit-bounds, invite_valid_iff}

abbrev pub trim_front : Bytes → Bytes
trim_front [] = []
trim_front (c ∷ s) = let rest = trim_front s in if c == 32 then rest else c ∷ s

pub trim_front-trim_front : (s : Bytes) → trim_front (trim_front s) ≡ trim_front s
trim_front-trim_front [] = refl
trim_front-trim_front (c ∷ s) = ground (arith, trim_front-trim_front s)

abbrev texts : Texts
texts = record {
  trim_space = trim_front;
  rune_count = length;
  trim_space-trim_space = trim_front-trim_front;
}

abbrev hall : Bytes
hall = codes "hall"

trimmed_iff_example :
    (trimmed texts (channel_name_error texts) 100 (codes " hall") ≡ ok hall)
    ↔ ((hall ≡ trim_front (codes " hall")) × (1 ≤ length hall) × (length hall ≤ 100))
trimmed_iff_example = trimmed_iff texts (channel_name_error texts) 100 (codes " hall") hall

hall_accepted :
    trimmed_pointer texts (channel_name_error texts) 100 (some (codes " hall")) ≡ ok (some hall)
unfolding trimmed_pointer trimmed
hall_accepted = refl

between-normalize_example :
    (between texts (channel_name_error texts) 32 (normalize texts (some (codes " hall"))) ≡ ok tt)
    ↔ (trimmed_pointer texts (channel_name_error texts) 32 (some (codes " hall"))
        ≡ ok (normalize texts (some (codes " hall"))))
between-normalize_example =
    between-normalize texts (channel_name_error texts) 32 (some (codes " hall"))

hall_sent : message_content texts (codes " hall") 10 ≡ ok hall
unfolding message_content content_checked
hall_sent = refl

clamp_limit-bounds_example :
    (n : ℕ) × (clamp_limit (pos 500) ≡ pos n)
    × (1 ≤ n)
    × (n ≤ 100)
    × ((m : ℕ) → pos 500 ≡ pos m → 1 ≤ m → m ≤ 100 → n ≡ m)
clamp_limit-bounds_example = clamp_limit-bounds (pos 500)

abbrev once : Invite
once = record { expires_at = some 60; max_uses = some 1; use_count = 0 }

invite_valid_iff_example : (invite_valid once 59 ≡ ok tt) ↔ (
    ((at : ℕ) → once.expires_at ≡ some at → 59 < at)
    × ((most : ℕ) → once.max_uses ≡ some most → once.use_count < most))
invite_valid_iff_example = invite_valid_iff once 59
