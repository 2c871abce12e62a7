-- ===== src/Permission/ValkeyCache/Refines.antt =====
-- `ValkeyCache` keeps the promises of the interface `Cache`.
use Prim.Native.String.{String}
use uncord_server.Prelude.{
  ℕ, ◌≡◌, sym, ◌∙◌, ap, ap₂, true, inl, inr, some, List, [], ◌∷◌, arith, Bytes, bytes_eq,
  bytes_eq_refl, ok, lookup,
}
use uncord_server.Uuid.{Uuid, UuidText}
use uncord_server.Strconv.{format_int}
use uncord_server.Valkey.{Valkey}
use uncord_server.Valkey.Call.{World, call, call_keeps, call_reply}
use uncord_server.Permission.Bitfield.{Bitfield}
use uncord_server.Permission.Cache.{IsCache, Adds, Drops}
use uncord_server.Permission.ValkeyCache.{
  cache_key, cache_ttl, get, set_one, get_all, set_all, scan_and_delete, user_pattern,
  channel_pattern, all_pattern, delete_exact,
}
use uncord_server.Permission.ValkeyCache.Keys.{
  cache_key-injective, user_pattern-matches, channel_pattern-matches, all_pattern-matches,
}
use uncord_server.Permission.ValkeyCache.Scan.{scan_and_delete-Left}
use uncord_server.Permission.ValkeyCache.Laws.{
  value_of, value_of-some, valkey_cache, From, elapse-From, From-Adds, read_From, value_of-format,
  get-hit, get_all-hit, get_all-From, Wrote, set_entries-From,
}

module _ (B : Bitfield) (V : Valkey) (T : UuidText) where
  open B use {Permission, to_int}
  open V use {State, string_at, set, del, elapse, matches}

  no_write :
      (R : Uuid → Uuid → Permission → Type 0) (u c : Uuid) (v : Bytes) (p : Permission)
      → ⊥
      → value_of B V T (some v) ≡ some p
      → R u c p
  no_write R u c v p never h = absurd never

  From-step :
      (Q : Bytes → Bytes → Type 0) (s t t' : State)
      → From B V T Q s t
      → From B V T Q t t'
      → From B V T Q s t'
  From-step Q s t t' h g k v live = elim (g k v live) [ inl old ↦ h k v old | inr new ↦ inr new ]

  set_one-Adds :
      (fuel : ℕ) (u c : Uuid) (p : Permission) (w : World State)
      → Adds
          (valkey_cache B V T fuel)
          w
          (λ u' c' p'. (u' ≡ u) × (c' ≡ c) × (p' ≡ p))
          (set_one B V T u c p w).1
  unfolding set_one
  set_one-Adds fuel u c p w =
      From-Adds B V T fuel Q _ w (set_one B V T u c p w).1
        (call_keeps elapse _ (From B V T Q w.server) (elapse-From B V T Q w.server)
          (λ t h. From-step Q w.server t _ h (λ k v live.
            ground
              (arith, V.string-set (cache_key B V T u c) (format_int (to_int p)) cache_ttl t k)))
          w (λ k v live. inl live))
        (λ u' c' v p' q value.
          let (a, b) = cache_key-injective B V T u c u' c' q.0 in
          (
            sym a,
            sym b,
            value_of-format B V T p p' (ap (λ x. value_of B V T (some x)) (sym q.1) ∙ value),
          ))
    where
      Q : Bytes → Bytes → Type 0
      Q k v = (bytes_eq (cache_key B V T u c) k ≡ true) × (v ≡ format_int (to_int p))

  set_all-From :
      (what : String) (key : Uuid → Bytes) (m : List (Uuid × Permission)) (w : World State)
      → From B V T (Wrote B V T key m) w.server (set_all B V T what key m w).1.server
  unfolding set_all
  set_all-From what key [] w = λ k v live. inl live
  set_all-From what key (e ∷ m) w =
      call_keeps elapse _ (From B V T (Wrote B V T key (e ∷ m)) w.server)
        (elapse-From B V T (Wrote B V T key (e ∷ m)) w.server)
        (λ t h. From-step _ w.server t _ h (set_entries-From B V T key (e ∷ m) t)) w
        (λ k v live. inl live)

  written_value :
      (m : List (Uuid × Permission)) (id : Uuid) (p p' : Permission) (v : Bytes)
      → lookup id m ≡ some p
      → v ≡ format_int (to_int p)
      → value_of B V T (some v) ≡ some p'
      → lookup id m ≡ some p'
  written_value m id p p' v at is value =
      at
      ∙ ap some
          (sym (value_of-format B V T p p' (ap (λ x. value_of B V T (some x)) (sym is) ∙ value)))

  set_many-Adds :
      (fuel : ℕ) (u : Uuid) (m : List (Uuid × Permission)) (w : World State)
      → Adds
          (valkey_cache B V T fuel)
          w
          (λ u' c' p'. (u' ≡ u) × (lookup c' m ≡ some p'))
          ((valkey_cache B V T fuel).set_many u m w).1
  set_many-Adds fuel u m w =
      From-Adds B V T fuel _ _ w
        (set_all B V T "cache pipeline set" (λ c. cache_key B V T u c) m w).1
        (set_all-From "cache pipeline set" (λ c. cache_key B V T u c) m w)
        (λ u' c' v p' q value.
          let (id, p, same, at, is) = q in
          let (a, b) = cache_key-injective B V T u id u' c' same in
          (sym a, ap (λ i. lookup i m) (sym b) ∙ written_value m id p p' v at is value))

  set_many_users-Adds :
      (fuel : ℕ) (c : Uuid) (m : List (Uuid × Permission)) (w : World State)
      → Adds
          (valkey_cache B V T fuel)
          w
          (λ u' c' p'. (c' ≡ c) × (lookup u' m ≡ some p'))
          ((valkey_cache B V T fuel).set_many_users c m w).1
  set_many_users-Adds fuel c m w =
      From-Adds B V T fuel _ _ w
        (set_all B V T "cache pipeline set users" (λ u. cache_key B V T u c) m w).1
        (set_all-From "cache pipeline set users" (λ u. cache_key B V T u c) m w)
        (λ u' c' v p' q value.
          let (id, p, same, at, is) = q in
          let (a, b) = cache_key-injective B V T id c u' c' same in
          (sym b, ap (λ i. lookup i m) (sym a) ∙ written_value m id p p' v at is value))

  -- A deletion by a pattern drops the pairs whose key the pattern matches.
  pattern-Drops :
      (fuel : ℕ) (pattern : Bytes) (D : Uuid → Uuid → Type 0) (w : World State)
      → ((u c : Uuid) → D u c → matches pattern (cache_key B V T u c) ≡ true)
      → (scan_and_delete B V T fuel 0 pattern w).0 ≡ ok tt
      → Drops (valkey_cache B V T fuel) w D (scan_and_delete B V T fuel 0 pattern w).1
  pattern-Drops fuel pattern D w covers done u c p e =
      let final = scan_and_delete B V T fuel 0 pattern w in
      let (v, at_key, value) =
        value_of-some B V T (string_at (cache_key B V T u c) final.1.server) p e in
      let (was, unmatched) =
        scan_and_delete-Left B V T fuel 0 pattern w.server w
          (λ k v live. (live, λ _. V.passed_start k)) done (cache_key B V T u c) v at_key in
      (ap (value_of B V T) was ∙ value, λ d. ground (arith, covers u c d, unmatched))

  exact-Drops :
      (fuel : ℕ) (u c : Uuid) (w : World State)
      → (delete_exact B V T u c w).0 ≡ ok tt
      → Drops
          (valkey_cache B V T fuel)
          w
          (λ u' c'. (u' ≡ u) × (c' ≡ c))
          (delete_exact B V T u c w).1
  unfolding delete_exact
  exact-Drops fuel u c w done u' c' p e =
      let command : State → Unit {0} × State = λ s. (tt, del (cache_key B V T u c) s) in
      let (t, from, _, after) =
        call_reply elapse command (From B V T (λ _ _. ⊥) w.server)
          (elapse-From B V T (λ _ _. ⊥) w.server) w tt (λ k v live. inl live) done in
      let (v, at_key, value) =
        value_of-some B V T (string_at (cache_key B V T u' c') (call elapse command w).1.server) p
          e in
      let strings = V.string-del (cache_key B V T u c) t (cache_key B V T u' c') in
      let there : string_at (cache_key B V T u' c') (del (cache_key B V T u c) t) ≡ some v =
        rw (sym after) at_key in
      let old : string_at (cache_key B V T u' c') t ≡ some v = ground (arith, strings, there) in
      (
        elim (from (cache_key B V T u' c') v old) [
          | inl was ↦ ap (value_of B V T) was ∙ value
          | inr never ↦ absurd never
        ],
        λ same. ground (
          arith,
          strings,
          there,
          ap₂ (cache_key B V T) same.0 same.1,
          bytes_eq_refl (cache_key B V T u c),
        ),
      )

  get-Adds :
      (fuel : ℕ) (u c : Uuid) (w : World State)
      → Adds (valkey_cache B V T fuel) w (λ _ _ _. ⊥) (get B V T u c w).1
  unfolding get
  get-Adds fuel u c w =
      From-Adds B V T fuel (λ _ _. ⊥) (λ _ _ _. ⊥) w (get B V T u c w).1
        (read_From B V T (λ s. string_at (cache_key B V T u c) s) w) (no_write (λ _ _ _. ⊥))

  -- The cache over Valkey keeps every promise that the resolver and the subscriber rely on: a hit is a
  -- value that was stored under the very pair, a write adds nothing else, and a deletion that reports
  -- success leaves no entry that it is for, whatever calls fail and whatever keys expire.
  pub valkey_cache-IsCache : (fuel : ℕ) → IsCache (valkey_cache B V T fuel)
  valkey_cache-IsCache fuel = record {
    get_hit = λ u c w p. get-hit B V T fuel u c w p;
    get_keeps = λ u c w. get-Adds fuel u c w;
    set_adds = λ u c p w. set_one-Adds fuel u c p w;
    get_many_hit =
        λ u cs w m c p. get_all-hit B V T "cache mget" (λ c. cache_key B V T u c) cs w m c p;
    get_many_keeps = λ u cs w.
        From-Adds B V T fuel (λ _ _. ⊥) (λ _ _ _. ⊥) w
          (get_all B V T "cache mget" (λ c. cache_key B V T u c) cs w).1
          (get_all-From B V T "cache mget" (λ c. cache_key B V T u c) cs w) (no_write (λ _ _ _. ⊥));
    set_many_adds = λ u m w. set_many-Adds fuel u m w;
    get_many_users_hit =
        λ us c w m u p. get_all-hit B V T "cache mget users" (λ u. cache_key B V T u c) us w m u p;
    get_many_users_keeps = λ us c w.
        From-Adds B V T fuel (λ _ _. ⊥) (λ _ _ _. ⊥) w
          (get_all B V T "cache mget users" (λ u. cache_key B V T u c) us w).1
          (get_all-From B V T "cache mget users" (λ u. cache_key B V T u c) us w)
          (no_write (λ _ _ _. ⊥));
    set_many_users_adds = λ c m w. set_many_users-Adds fuel c m w;
    delete_by_user_drops = λ u w done.
        pattern-Drops fuel (user_pattern B V T u) (λ u' _. u' ≡ u) w
          (λ u' c e. rw e (user_pattern-matches B V T u c)) done;
    delete_by_channel_drops = λ c w done.
        pattern-Drops fuel (channel_pattern B V T c) (λ _ c'. c' ≡ c) w
          (λ u c' e. rw e (channel_pattern-matches B V T u c)) done;
    delete_exact_drops = λ u c w done. exact-Drops fuel u c w done;
    delete_all_drops = λ w done.
        pattern-Drops fuel (all_pattern B V T) (λ _ _. Unit {0}) w
          (λ u c _. all_pattern-matches B V T u c) done;
  }
