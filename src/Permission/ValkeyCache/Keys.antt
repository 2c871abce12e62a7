-- ===== src/Permission/ValkeyCache/Keys.antt =====
-- The keys of the cache: distinct pairs have distinct keys, and the patterns match the keys they should.
use uncord_server.Prelude.{
  ◌≡◌, refl, sym, ◌∙◌, ap, subst, true, [], ◌∷◌, ◌++◌, arith, Bytes, bytes_eq, bytes_eq→eq, length,
}
use uncord_server.Uuid.{Uuid, UuidText, IsPlain}
use uncord_server.Valkey.{Valkey}
use uncord_server.Permission.Bitfield.{Bitfield}
use uncord_server.Permission.ValkeyCache.{
  cache_key, cache_prefix, user_pattern, channel_pattern, all_pattern,
}
use mathlib.Core.List.{append_assoc, append-nil}

append_split :
    (xs ys r r' : Bytes) → xs ++ r ≡ ys ++ r' → length xs ≡ length ys → (xs ≡ ys) × (r ≡ r')
append_split [] [] r r' e h = (refl, e)
append_split [] (y ∷ ys) r r' e h = absurd (omega arith)
append_split (x ∷ xs) [] r r' e h = absurd (omega arith)
append_split (x ∷ xs) (y ∷ ys) r r' e h =
    let tails : xs ++ r ≡ ys ++ r' = cc in
    let (a, b) = append_split xs ys r r' tails (omega arith) in (cc a, b)

module _ (B : Bitfield) (V : Valkey) (T : UuidText) where
  open T use {to_text}

  to_text-injective : (u u' : Uuid) → to_text u ≡ to_text u' → u ≡ u'
  to_text-injective u u' e =
      ground (arith, T.of_text-to_text u, T.of_text-to_text u', ap T.of_text e)

  -- Different pairs of a user and a channel never share a key.
  pub cache_key-injective :
      (u c u' c' : Uuid)
      → bytes_eq (cache_key B V T u c) (cache_key B V T u' c') ≡ true
      → (u ≡ u') × (c ≡ c')
  unfolding cache_key
  cache_key-injective u c u' c' h =
      let whole =
        bytes_eq→eq (cache_key B V T u c) (cache_key B V T u' c') (unfold cache_key in h) in
      let tails : to_text u ++ (b':' ∷ to_text c) ≡ to_text u' ++ (b':' ∷ to_text c') = cc whole in
      let (a, b) =
        append_split (to_text u) (to_text u') _ _ tails
          (T.length-to_text u ∙ sym (T.length-to_text u')) in
      (to_text-injective u u' a, to_text-injective c c' (cc b))

  IsPlain-append : (a b : Bytes) → IsPlain a → IsPlain b → IsPlain (a ++ b)
  IsPlain-append [] b ha hb = hb
  IsPlain-append (x ∷ a) b ha hb = (ha.0, IsPlain-append a b ha.1 hb)

  IsPlain-prefix : IsPlain (cache_prefix ++ (b':' ∷ []))
  IsPlain-prefix = (refl, (refl, (refl, (refl, (refl, (refl, tt))))))

  -- Each pattern matches the keys that its deletion is for.
  pub user_pattern-matches :
      (u c : Uuid) → V.matches (user_pattern B V T u) (cache_key B V T u c) ≡ true
  unfolding cache_key
  user_pattern-matches u c =
      let head = cache_prefix ++ (b':' ∷ (to_text u ++ (b':' ∷ []))) in
      subst (λ k. V.matches (user_pattern B V T u) k ≡ true) (key_of u c)
        (V.matches_star head [] (to_text c)
          (IsPlain-append (cache_prefix ++ (b':' ∷ [])) _ IsPlain-prefix
            (IsPlain-append (to_text u) _ (T.to_text-IsPlain u) (refl, tt)))
          tt)
    where
      key_of :
          (u c : Uuid)
          → (cache_prefix ++ (b':' ∷ (to_text u ++ (b':' ∷ [])))) ++ (to_text c ++ [])
            ≡ cache_key B V T u c
      key_of u c = simp (append_assoc, append-nil)

  pub channel_pattern-matches :
      (u c : Uuid) → V.matches (channel_pattern B V T c) (cache_key B V T u c) ≡ true
  unfolding cache_key
  channel_pattern-matches u c =
      V.matches_star (cache_prefix ++ (b':' ∷ [])) (b':' ∷ to_text c) (to_text u) IsPlain-prefix
        (refl, T.to_text-IsPlain c)

  pub all_pattern-matches :
      (u c : Uuid) → V.matches (all_pattern B V T) (cache_key B V T u c) ≡ true
  unfolding cache_key
  all_pattern-matches u c =
      subst (λ k. V.matches (all_pattern B V T) k ≡ true)
        (ap (λ r. (cache_prefix ++ (b':' ∷ [])) ++ r)
          (append-nil (to_text u ++ (b':' ∷ to_text c))))
        (V.matches_star (cache_prefix ++ (b':' ∷ [])) [] (to_text u ++ (b':' ∷ to_text c))
          IsPlain-prefix tt)
