-- ===== src/Validation/Accepted.antt =====
-- Which texts are accepted, and that what is stored would be accepted again.
use uncord_server.Prelude.{
  ℕ, ◌≤◌, ◌≡◌, ◌≢◌, refl, sym, ◌∙◌, ap, ◌↔◌, Option, none, some, Bytes, [], ◌∷◌, arith, Error, ok,
  >>=-eq-ok, ok_injective,
}
use uncord_server.Validation.{
  Texts, trimmed, trimmed_pointer, normalize, between, content_checked, message_content,
}

module _ (X : Texts) where
  open X use {trim_space, rune_count}

  -- A required name is accepted if and only if it has between one and the greatest number of
  -- characters once it is trimmed, and the trimmed text is what is stored.
  pub trimmed_iff :
      (e : Error) (most : ℕ) (name t : Bytes)
      → (trimmed X e most name ≡ ok t)
        ↔ ((t ≡ trim_space name) × (1 ≤ rune_count t) × (rune_count t ≤ most))
  unfolding trimmed
  trimmed_iff e most name t = (there, back)
    where
      there :
          trimmed X e most name ≡ ok t
          → (t ≡ trim_space name) × (1 ≤ rune_count t) × (rune_count t ≤ most)
      there h = (ground arith, ground arith, ground arith)

      back :
          (t ≡ trim_space name) × (1 ≤ rune_count t) × (rune_count t ≤ most)
          → trimmed X e most name ≡ ok t
      back (same, least, fits) = ground (arith)

  trimmed_again :
      (e : Error) (most : ℕ) (name t : Bytes)
      → trimmed X e most name ≡ ok t
      → trimmed X e most t ≡ ok t
  trimmed_again e most name t h =
      let (same, least, fits) = (trimmed_iff e most name t).0 h in
      (trimmed_iff e most t t).1
        (same ∙ sym (X.trim_space-trim_space name) ∙ ap trim_space (sym same), least, fits)

  -- What the check of an optional name leaves in the pointer passes the check again, unchanged.
  pub trimmed_pointer-trimmed_pointer :
      (e : Error) (most : ℕ) (name left : Option Bytes)
      → trimmed_pointer X e most name ≡ ok left
      → trimmed_pointer X e most left ≡ ok left
  unfolding trimmed_pointer
  trimmed_pointer-trimmed_pointer e most none left h = rw (sym (ok_injective h)) refl
  trimmed_pointer-trimmed_pointer e most (some name) left h =
      let (t, got, same) = >>=-eq-ok (trimmed X e most name) (λ t. ok (some t)) h in
      rw (sym (ok_injective same), trimmed_again e most name t got) refl

  -- The two ways to write the check agree: trimming a text and then checking it, as the profile of a
  -- user does, accepts what the check that trims itself accepts.
  pub between-normalize :
      (e : Error) (most : ℕ) (text : Option Bytes)
      → (between X e most (normalize X text) ≡ ok tt)
        ↔ (trimmed_pointer X e most text ≡ ok (normalize X text))
  unfolding between normalize trimmed_pointer trimmed
  between-normalize e most none = (λ _. refl, λ _. refl)
  between-normalize e most (some text) = (λ h. ground arith, λ h. ground arith)

  -- The content of an accepted message is the trimmed one, is not empty, and is not too long.
  pub message_content-accepted :
      (content t : Bytes) (max_length : ℕ)
      → message_content X content max_length ≡ ok t
      → (t ≡ trim_space content) × (t ≢ []) × (rune_count t ≤ max_length)
  unfolding message_content content_checked
  message_content-accepted content t max_length h = checked (trim_space content) h
    where
      checked :
          (s : Bytes)
          → content_checked X max_length s ≡ ok t
          → (t ≡ s) × (t ≢ []) × (rune_count t ≤ max_length)
      checked [] h = absurd (ground arith)
      checked (b ∷ s) h = (ground arith, λ e. absurd (ground arith), ground arith)
