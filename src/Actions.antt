-- ===== src/Actions.antt =====
-- Functions that take a state and return a result and the state: the methods of a service. The state
-- comes back after an error too.
use Prim.Native.String.{String}
use uncord_server.Prelude.{
  ◌≡◌, ◌≢◌, refl, sym, ap, ◌∙◌, Bool, true, false, Error, Result, ok, err, context, arith,
}

abbrev pub Action : Type 0 → Type 0 → Type 0
Action S A = S → Result A × S

abbrev pub act_on : {S A B : Type 0} → Result A → (A → Action S B) → Action S B
act_on (ok a) k s = k a s
act_on (err e) k s = (err e, s)

infixl 5 ◌>>=◌
unfoldable pub ◌>>=◌ : {S A B : Type 0} → Action S A → (A → Action S B) → Action S B
◌>>=◌ m k s = act_on (m s).0 k (m s).1

abbrev pub pure : {S A : Type 0} → A → Action S A
pure a s = (ok a, s)

-- A result that is known already, one that is read from the state, and a part of the state that is
-- changed.
abbrev pub known : {S A : Type 0} → Result A → Action S A
known r s = (r, s)

abbrev pub asks : {S A : Type 0} → (S → Result A) → Action S A
asks f s = (f s, s)

abbrev pub refuse_if : {S : Type 0} → Bool → Error → Action S (Unit {0})
refuse_if true e s = (err e, s)
refuse_if false e s = (ok tt, s)

abbrev pub when : {S : Type 0} → Bool → Action S (Unit {0}) → Action S (Unit {0})
when true m s = m s
when false m s = (ok tt, s)

abbrev pub translate : {A : Type 0} → (Error → Error) → Result A → Result A
translate f (ok a) = ok a
translate f (err e) = err (f e)

-- What an error is turned into; the context that it gets; an error that is only logged.
abbrev pub translated : {S A : Type 0} → (Error → Error) → Action S A → Action S A
translated f m s = (translate f (m s).0, (m s).1)

abbrev pub within_context : {S A : Type 0} → String → Action S A → Action S A
within_context w m s = (context w (m s).0, (m s).1)

abbrev pub best_effort : {S A : Type 0} → Action S A → Action S (Unit {0})
best_effort m s = (ok tt, (m s).1)

-- Inversion of an action that succeeds.
pub >>=-eq-ok :
    {S A B : Type 0} (m : Action S A) (k : A → Action S B) (s : S) (b : B)
    → ((m >>= k) s).0 ≡ ok b
    → (a : A) × ((m s).0 ≡ ok a) × ((k a (m s).1).0 ≡ ok b)
unfolding ◌>>=◌
>>=-eq-ok {A = A} m k s b h = found (m s).0 (m s).1 h
  where
    found :
        (r : Result A) (s' : _)
        → (act_on r k s').0 ≡ ok b
        → (a : A) × (r ≡ ok a) × ((k a s').0 ≡ ok b)
    found (ok a) s' e = (a, refl, e)
    found (err x) s' e = absurd (ground arith)

-- With the state: what the rest of the action returns, from where the first part has left it.
pub >>=-ran :
    {S A B : Type 0} (m : Action S A) (k : A → Action S B) (s : S) (b : B)
    → ((m >>= k) s).0 ≡ ok b
    → (a : A) × ((m s).0 ≡ ok a) × ((k a (m s).1).0 ≡ ok b) × (((m >>= k) s).1 ≡ (k a (m s).1).1)
unfolding ◌>>=◌
>>=-ran {A = A} m k s b h = found (m s).0 (m s).1 h
  where
    found :
        (r : Result A) (s' : _)
        → (act_on r k s').0 ≡ ok b
        → (a : A) × (r ≡ ok a) × ((k a s').0 ≡ ok b) × ((act_on r k s').1 ≡ (k a s').1)
    found (ok a) s' e = (a, refl, e, refl)
    found (err x) s' e = absurd (ground arith)

pub refuse_if-eq-ok :
    {S : Type 0} (c : Bool) (e : Error) (s : S)
    → (refuse_if c e s).0 ≡ ok tt
    → (c ≡ false) × ((refuse_if c e s).1 ≡ s)
refuse_if-eq-ok true e s h = absurd (ground arith)
refuse_if-eq-ok false e s h = (refl, refl)

pub translate-eq-ok :
    {A : Type 0} (f : Error → Error) (r : Result A) (a : A) → translate f r ≡ ok a → r ≡ ok a
translate-eq-ok f (ok b) a h = h
translate-eq-ok f (err e) a h = absurd (ground arith)

-- Actions that leave the state.
pub >>=-state :
    {S A B : Type 0} (m : Action S A) (k : A → Action S B) (s : S)
    → (m s).1 ≡ s
    → ((a : A) → (k a s).1 ≡ s)
    → ((m >>= k) s).1 ≡ s
unfolding ◌>>=◌
>>=-state {A = A} m k s same rest = found (m s).0 (m s).1 same
  where
    found : (r : Result A) (s' : _) → s' ≡ s → (act_on r k s').1 ≡ s
    found (ok a) s' e = ap (λ t. (k a t).1) e ∙ rest a
    found (err x) s' e = e

pub refuse_if-state : {S : Type 0} (c : Bool) (e : Error) (s : S) → (refuse_if c e s).1 ≡ s
refuse_if-state true e s = refl
refuse_if-state false e s = refl

-- An action that does nothing but return an error.
abbrev pub Refuses : {S A : Type 0} → Action S A → S → Type 0
Refuses {A = A} m s = ((a : A) → (m s).0 ≢ ok a) × ((m s).1 ≡ s)

pub >>=-Refuses :
    {S A B : Type 0} (m : Action S A) (k : A → Action S B) (s : S)
    → (m s).1 ≡ s
    → ((a : A) → (m s).0 ≡ ok a → Refuses (k a) s)
    → Refuses (m >>= k) s
unfolding ◌>>=◌
>>=-Refuses {A = A} {B = B} m k s same rest = found (m s).0 (m s).1 same rest
  where
    found :
        (r : Result A) (s' : _)
        → s' ≡ s
        → ((a : A) → r ≡ ok a → Refuses (k a) s)
        → ((b : B) → (act_on r k s').0 ≢ ok b) × ((act_on r k s').1 ≡ s)
    found (ok a) s' e f = (
      (λ b h. (f a refl).0 b (ap (λ t. (k a t).0) (sym e) ∙ h)),
      ap (λ t. (k a t).1) e ∙ (f a refl).1,
    )
    found (err x) s' e f = ((λ b h. absurd (ground arith)), e)

-- The first part is known to succeed.
pub >>=-first :
    {S A B : Type 0} (m : Action S A) (k : A → Action S B) (s : S) (a : A) (s' : S)
    → m s ≡ (ok a, s')
    → (m >>= k) s ≡ k a s'
unfolding ◌>>=◌
>>=-first m k s a s' e = ap (λ r. act_on r.0 k r.1) e
