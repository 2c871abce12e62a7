-- ===== src/Gateway/Session/Buffer.antt =====
-- The replay buffer under one APPEND: it holds consecutive frames, and forgets the oldest one if full.
use uncord_server.Prelude.{
  ℕ, zero, suc, ◌+◌, ◌-◌, ◌≤◌, ◌≡◌, refl, ◌∙◌, ap, true, inl, inr, Bool-cases, ltb, List, [], ◌∷◌,
  ◌++◌, map, length, drop, arith, Bytes,
}
use uncord_server.Strconv.{pos}
use uncord_server.Uuid.{UuidText}
use uncord_server.Valkey.{Valkey}
use uncord_server.Valkey.Lists.{Lists, last_items}
use uncord_server.Gateway.Frame.{Frame}
use uncord_server.Gateway.Session.{Codec, ReplayEntry, SessionStore, missed}

-- Frames with the sequence numbers that follow `start`.
abbrev pub numbered : ℕ → List Frame → List ReplayEntry
numbered start [] = []
numbered start (f ∷ fs) = record { seq = suc start; payload = f } ∷ numbered (suc start) fs

pub numbered-append :
    (start : ℕ) (fs : List Frame) (f : Frame)
    → numbered start (fs ++ f ∷ [])
      ≡ numbered start fs ++ record { seq = suc (start + length fs); payload = f } ∷ []
numbered-append start [] f = ap (λ n. record { seq = suc n; payload = f } ∷ []) (omega arith)
numbered-append start (x ∷ fs) f =
    ap (λ r. record { seq = suc start; payload = x } ∷ r)
      (numbered-append (suc start) fs f
        ∙ ap (λ n. numbered (suc start) fs ++ record { seq = suc n; payload = f } ∷ [])
            (omega arith))

pub length-numbered : (start : ℕ) (fs : List Frame) → length (numbered start fs) ≡ length fs
length-numbered start [] = refl
length-numbered start (f ∷ fs) = ap suc (length-numbered (suc start) fs)

pub length-map {ℓ κ} :
    {A : Type ℓ} {B : Type κ} (f : A → B) (xs : List A) → length (map f xs) ≡ length xs
length-map f [] = refl
length-map f (x ∷ xs) = ap suc (length-map f xs)

pub map-append {ℓ κ} :
    {A : Type ℓ} {B : Type κ} (f : A → B) (xs ys : List A) → map f (xs ++ ys) ≡ map f xs ++ map f ys
map-append f [] ys = refl
map-append f (x ∷ xs) ys = ap (λ r. f x ∷ r) (map-append f xs ys)

-- Trimming keeps a list that fits, and drops one item from a list that is longer by one.
pub last_items_fits {ℓ} :
    {A : Type ℓ} (most : ℕ) (xs : List A) → length xs ≤ most → last_items most xs ≡ xs
unfolding last_items
last_items_fits zero xs h = refl
last_items_fits (suc most) xs h =
    ap (λ n. drop n xs) {x = length xs - suc most} {y = 0} (omega arith)

pub last_items_full {ℓ} :
    {A : Type ℓ} (most : ℕ) (x : A) (xs : List A)
    → 1 ≤ most
    → length xs ≡ most
    → last_items most (x ∷ xs) ≡ xs
unfolding last_items
last_items_full zero x xs least full = absurd (omega arith)
last_items_full (suc most) x xs least full =
    ap (λ n. drop n (x ∷ xs)) {x = length (x ∷ xs) - suc most} {y = 1} (omega arith)

module _ (V : Valkey) (L : Lists V) (T : UuidText) (J : Codec) (store : SessionStore) where
  abbrev pub written : ℕ → List Frame → List Bytes
  written start fs = map J.write_entry (numbered start fs)

  missed-all :
      (start seen : ℕ) (fs : List Frame)
      → seen ≤ start
      → missed V L T J store (pos seen) (written start fs) ≡ fs
  unfolding missed
  missed-all start seen [] h = refl
  missed-all start seen (f ∷ fs) h =
      rw
        (
          J.read_entry-write_entry (record { seq = suc start; payload = f }),
          newer,
          missed-all (suc start) seen fs (omega arith),
        )
        refl
    where
      newer : ltb seen (suc start) ≡ true
      newer = ground arith

  -- What a client gets that has seen everything up to `seen`.
  pub missed-numbered :
      (start seen : ℕ) (fs : List Frame)
      → start ≤ seen
      → missed V L T J store (pos seen) (written start fs) ≡ drop (seen - start) fs
  unfolding missed
  missed-numbered start seen [] h = drop_nil (seen - start)
    where
      drop_nil : (n : ℕ) → ◌≡◌ {A = List Frame} [] (drop n [])
      drop_nil zero = refl
      drop_nil (suc n) = refl
  missed-numbered start seen (f ∷ fs) h = elim (Bool-cases (ltb seen (suc start))) [
    | inl last ↦
        missed-all start seen (f ∷ fs) (ground arith)
        ∙ ap (λ n. drop n (f ∷ fs)) {x = 0} {y = seen - start} (ground arith)
    | inr old ↦
        rw (J.read_entry-write_entry (record { seq = suc start; payload = f }), old)
          (missed-numbered (suc start) seen fs (ground arith)
            ∙ ap (λ n. drop n (f ∷ fs)) {x = suc (seen - suc start)} {y = seen - start}
                (ground arith))
  ]
