-- ===== src/Auth/Credentials.antt =====
-- internal/auth/validation.go: the checks of e-mail addresses, usernames and passwords. The address that
-- `mail.ParseAddress` finds, `strings.ToLower` and the count of characters are parameters.
use uncord_server.Prelude.{
  ℕ, Bool, true, ◌&&◌, ◌||◌, List, [], ◌∷◌, Bytes, length, leb, ltb, ◌==◌, if◌then◌else◌, Error,
  sentinel, Result, ok, err,
}

pub record Addresses : Type 0 where
  pub parse_address : Bytes → Result Bytes
  pub to_lower : Bytes → Bytes
  pub rune_count : Bytes → ℕ

abbrev pub max_email_length : ℕ
max_email_length = 254

abbrev pub invalid_email : Error
invalid_email = sentinel "invalid email format"

-- `SplitN` at the first '@': the parts, or one part only.
unfoldable pub split_at_sign : Bytes → List Bytes
split_at_sign [] = [] ∷ []
split_at_sign (b ∷ bs) =
    let rest = split_at_sign bs in
    if b == b'@'
    then [] ∷ (bs ∷ [])
    else elim rest [ [] ↦ (b ∷ []) ∷ [] | part ∷ parts ↦ (b ∷ part) ∷ parts ]

-- The normalised address and its domain.
unfoldable pub email_parts : Bytes → List Bytes → Result (Bytes × Bytes)
email_parts normalised ((l ∷ local) ∷ ((d ∷ domain) ∷ [])) = ok (normalised, d ∷ domain)
email_parts normalised ((l ∷ local) ∷ ((d ∷ domain) ∷ (x ∷ xs))) = err invalid_email
email_parts normalised ((l ∷ local) ∷ ([] ∷ xs)) = err invalid_email
email_parts normalised ((l ∷ local) ∷ []) = err invalid_email
email_parts normalised ([] ∷ xs) = err invalid_email
email_parts normalised [] = err invalid_email

unfoldable pub checked_email : Bytes → Result (Bytes × Bytes)
checked_email normalised =
    if ltb max_email_length (length normalised)
    then err invalid_email
    else email_parts normalised (split_at_sign normalised)

unfoldable pub validate_email : Addresses → Bytes → Result (Bytes × Bytes)
validate_email A email = elim (A.parse_address email) [
  | err _ ↦ err invalid_email
  | ok address ↦ checked_email (A.to_lower address)
]

abbrev pub in_range : ℕ → ℕ → ℕ → Bool
in_range low high c = leb low c && leb c high

-- The class [a-zA-Z0-9_.].
abbrev pub is_username_char : ℕ → Bool
is_username_char c =
    in_range b'a' b'z' c || in_range b'A' b'Z' c || in_range b'0' b'9' c || c == b'_' || c == b'.'

unfoldable pub matches_username : Bytes → Bool
matches_username [] = true
matches_username (c ∷ cs) = is_username_char c && matches_username cs

unfoldable pub validate_username : Bytes → Result (Unit {0})
validate_username username =
    if ltb (length username) 2 || ltb 32 (length username)
    then err (sentinel "username must be between 2 and 32 characters")
    else if matches_username username
    then ok tt
    else err (sentinel "username may only contain letters, digits, underscores, and periods")

unfoldable pub validate_password : Addresses → Bytes → Result (Unit {0})
validate_password A password =
    if ltb (A.rune_count password) 8
    then err (sentinel "password must be at least 8 characters")
    else if ltb 128 (A.rune_count password)
    then err (sentinel "password must be at most 128 characters")
    else ok tt
