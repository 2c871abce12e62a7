-- ===== src/Uuid.antt =====
-- UUIDs, and their text. A UUID is a 16-byte array that Go compares by value, so it is a number here.
-- Its text is written and read by the package google/uuid, which the repository does not contain.
use uncord_server.Prelude.{ℕ, ◌≡◌, Bytes, Result, ok, All, length, Bool, false, ◌==◌, ◌||◌}

abbrev pub Uuid : Type 0
Uuid = ℕ

-- The characters with a meaning in a glob pattern: * ? [ ] \
abbrev pub is_special : ℕ → Bool
is_special b = b == b'*' || b == b'?' || b == b'[' || b == b']' || b == 92

-- A text that a pattern matches literally.
abbrev pub IsPlain : Bytes → Type 0
IsPlain = All (λ b. is_special b ≡ false)

-- `u.String()` and `uuid.Parse`: 36 characters, hexadecimal digits and dashes.
pub record UuidText : Type 0 where
  pub to_text : Uuid → Bytes
  pub of_text : Bytes → Result Uuid
  pub of_text-to_text : (u : Uuid) → of_text (to_text u) ≡ ok u
  pub length-to_text : (u : Uuid) → length (to_text u) ≡ 36
  pub to_text-IsPlain : (u : Uuid) → IsPlain (to_text u)
