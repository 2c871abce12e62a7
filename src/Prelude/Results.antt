-- ===== src/Prelude/Results.antt =====
-- Go's error values, and results that carry one.
use Prim.Native.String.{String}
use mathlib.Core.Path.{◌≡◌, refl}
use mathlib.Core.Logic.{◌⊎◌, inl, inr}

-- One constructor for each sentinel error that the modelled code returns or tests. `wrap` is
-- `fmt.Errorf("...: %w", err)`, `sentinel` an `errors.New` by its text, `failed` an error of a service that the
-- code does not look into, `malformed` one of a parser.
pub data Error : Type 0 where
  failed : Error
  wrap : String → Error → Error
  sentinel : String → Error
  refresh_token_reused refresh_token_not_found invalid_token malformed session_not_found
        max_connections :
      Error
  user_not_found already_exists used_verification verification_cooldown invalid_mfa_code : Error

-- What a Go function returns with an error beside it.
pub data Result {ℓ} (V : Type ℓ) : Type ℓ where
  err : Error → Result V
  ok : V → Result V

infixl 5 ◌>>=◌
abbrev pub ◌>>=◌ {ℓ κ} : {V : Type ℓ} {W : Type κ} → Result V → (V → Result W) → Result W
err e >>= next = err e
ok v >>= next = next v

-- `if err != nil { return ..., fmt.Errorf("context: %w", err) }`
abbrev pub context {ℓ} : {A : Type ℓ} → String → Result A → Result A
context w (ok a) = ok a
context w (err e) = err (wrap w e)

pub Result-cases {ℓ} :
    {A : Type ℓ} (r : Result A) → ((a : A) × (r ≡ ok a)) ⊎ ((e : Error) × (r ≡ err e))
Result-cases (ok a) = inl (a, refl)
Result-cases (err e) = inr (e, refl)

-- The error below the contexts, which `errors.Is` finds.
abbrev pub cause : Error → Error
cause (wrap w e) = cause e
cause failed = failed
cause (sentinel w) = sentinel w
cause refresh_token_reused = refresh_token_reused
cause refresh_token_not_found = refresh_token_not_found
cause invalid_token = invalid_token
cause malformed = malformed
cause session_not_found = session_not_found
cause max_connections = max_connections
cause user_not_found = user_not_found
cause already_exists = already_exists
cause used_verification = used_verification
cause verification_cooldown = verification_cooldown
cause invalid_mfa_code = invalid_mfa_code

-- Inversion of a successful chain.
pub >>=-eq-ok {ℓ κ} :
    {V : Type ℓ} {W : Type κ} (r : Result V) (next : V → Result W) {w : W}
    → (r >>= next) ≡ ok w
    → (v : V) × (r ≡ ok v) × (next v ≡ ok w)
>>=-eq-ok (err e) next done = cc
>>=-eq-ok (ok v) next done = (v, refl, done)

pub context-eq-ok {ℓ} :
    {A : Type ℓ} (w : String) (r : Result A) {a : A} → context w r ≡ ok a → r ≡ ok a
context-eq-ok w (ok a) h = h
context-eq-ok w (err e) h = cc

pub ok_injective {ℓ} : {A : Type ℓ} {a b : A} → ok a ≡ ok b → a ≡ b
ok_injective h = cc
