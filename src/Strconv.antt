-- ===== src/Strconv.antt =====
-- The standard library's strconv.FormatInt(n, 10) and strconv.ParseInt(s, 10, 64), which carry a
-- permission bitfield to the cache and back.
use uncord_server.Prelude.{
  ℕ, zero, suc, ◌+◌, ◌-◌, ◌*◌, ◌/◌, ◌%◌, ◌^◌, ◌≤◌, ◌<◌, ◌≡◌, refl, sym, ◌∙◌, ap, ◌&&◌, [], ◌∷◌,
  ◌++◌, arith, Bytes, ltb, leb, ◌==◌, if◌then◌else◌, Result, ok, err, malformed, Bool-cases, inl,
  inr,
}
use mathlib.Core.List.{append_assoc, append-nil}

-- `negsuc n` is -(n + 1).
pub data ℤ : Type 0 where
  pos : ℕ → ℤ
  negsuc : ℕ → ℤ

abbrev pub IsInt64 : ℤ → Type 0
IsInt64 (pos n) = n < 2 ^ 63
IsInt64 (negsuc n) = n < 2 ^ 63

-- The fuel is one more than the number, which is enough.
digits : ℕ → ℕ → Bytes
digits zero n = []
digits (suc fuel) n =
    let more = digits fuel (n / 10) ++ (48 + n % 10) ∷ [] in
    if ltb n 10 then (48 + n) ∷ [] else more

pub format_int : ℤ → Bytes
unfolding digits
format_int (pos n) = digits (suc n) n
format_int (negsuc n) = b'-' ∷ digits (suc (n + 1)) (n + 1)

parse_from : ℕ → Bytes → Result ℕ
parse_from acc [] = ok acc
parse_from acc (c ∷ s) =
    let rest = parse_from (acc * 10 + (c - 48)) s in
    if leb 48 c && leb c 57 then rest else err malformed

parse_digits : Bytes → Result ℕ
parse_digits [] = err malformed
parse_digits (c ∷ s) = parse_from 0 (c ∷ s)

to_positive : Result ℕ → Result ℤ
to_positive (err e) = err e
to_positive (ok n) = if ltb n (2 ^ 63) then ok (pos n) else err malformed

-- -0 is 0.
to_negative : Result ℕ → Result ℤ
to_negative (err e) = err e
to_negative (ok n) =
    if n == 0 then ok (pos 0) else if leb n (2 ^ 63) then ok (negsuc (n - 1)) else err malformed

pub parse_int : Bytes → Result ℤ
unfolding parse_digits parse_from to_positive to_negative
parse_int [] = err malformed
parse_int (c ∷ s) =
    if c == b'-'
    then to_negative (parse_digits s)
    else if c == b'+'
    then to_positive (parse_digits s)
    else to_positive (parse_digits (c ∷ s))

parse_from-digit :
    (acc d : ℕ) (r : Bytes) → d < 10 → parse_from acc ((48 + d) ∷ r) ≡ parse_from (acc * 10 + d) r
unfolding parse_from
parse_from-digit acc d r h = let e : (48 + d) - 48 ≡ d = omega arith in rw e (ground arith)

parse_from-digits :
    (fuel n : ℕ) (r : Bytes) → n < fuel → parse_from 0 (digits fuel n ++ r) ≡ parse_from n r
unfolding digits
parse_from-digits zero n r h = absurd (omega arith)
parse_from-digits (suc fuel) n r h = elim (Bool-cases (ltb n 10)) [
  | inl small ↦
      rw small (parse_from-digit 0 n r (ground arith) ∙ ap (λ k. parse_from k r) (omega arith))
  | inr large ↦ rw large (
      rw append_assoc (
        parse_from-digits fuel (n / 10) ((48 + n % 10) ∷ r) (ground arith)
        ∙ parse_from-digit (n / 10) (n % 10) r (omega arith)
        ∙ ap (λ k. parse_from k r) (omega arith)))
]

-- A printed number starts with a digit, so with no sign.
digits_head :
    (fuel n : ℕ) (r : Bytes)
    → (d : ℕ) × (ds : Bytes) × (digits (suc fuel) n ++ r ≡ d ∷ ds) × (48 ≤ d)
unfolding digits
digits_head zero n r = elim (Bool-cases (ltb n 10)) [
  | inl small ↦ (48 + n, r, rw small, omega arith)
  | inr large ↦ (48 + n % 10, r, rw large, omega arith)
]
digits_head (suc fuel) n r = elim (Bool-cases (ltb n 10)) [
  | inl small ↦ (48 + n, r, rw small, omega arith)
  | inr large ↦
      let (d, ds, e, h) = digits_head fuel (n / 10) ((48 + n % 10) ∷ r) in
      (d, ds, rw large (rw append_assoc e), h)
]

parse_from-nil : (n : ℕ) → parse_from n [] ≡ ok n
unfolding parse_from
parse_from-nil n = refl

parse_digits-digits : (n : ℕ) → parse_digits (digits (suc n) n) ≡ ok n
unfolding parse_digits
parse_digits-digits n =
    let (d, ds, e, h) = digits_head n n [] in
    let whole : digits (suc n) n ≡ d ∷ ds = sym (append-nil (digits (suc n) n)) ∙ e in
    rw whole
      (ap (parse_from 0) (sym e) ∙ parse_from-digits (suc n) n [] (omega arith) ∙ parse_from-nil n)

parse_int-digits : (n : ℕ) → parse_int (digits (suc n) n) ≡ to_positive (ok n)
unfolding parse_int
parse_int-digits n =
    let (d, ds, e, h) = digits_head n n [] in
    let whole : digits (suc n) n ≡ d ∷ ds = sym (append-nil (digits (suc n) n)) ∙ e in
    rw whole (ground (arith, ap parse_digits whole, parse_digits-digits n))

-- Every 64-bit integer is read back as it was written.
pub parse_int-format_int : (z : ℤ) → IsInt64 z → parse_int (format_int z) ≡ ok z
unfolding parse_int format_int
parse_int-format_int (pos n) h = parse_int-digits n ∙ ground arith
parse_int-format_int (negsuc n) h = ground (arith, parse_digits-digits (n + 1))
