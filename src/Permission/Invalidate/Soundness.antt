-- ===== src/Permission/Invalidate/Soundness.antt =====
-- A published invalidation deletes what it covers, so the cache agrees with the changed database.
use uncord_server.Prelude.{
  ℕ, sym, ◌∙◌, subst, ◌≡◌, refl, Bool, true, false, Option, none, some, arith, ok,
}
use uncord_server.Uuid.{Uuid, UuidText}
use uncord_server.Permission.Bitfield.{Bitfield}
use uncord_server.Permission.Store.{Store}
use uncord_server.Permission.Cache.{Cache, IsCache, Drops}
use uncord_server.Permission.Resolver.Coherence.{expected, Coherent}
use uncord_server.Permission.Invalidate.{
  InvalidationMessage, invalidation_version, marshal, publish, unmarshal, delete_for,
  handle_message,
}

module _ (T : UuidText) where
  unmarshal-fields :
      (v : ℕ) (u c : Option Uuid) (a : Bool)
      → unmarshal T (marshal T (record { version = v; user_id = u; channel_id = c; all = a }))
        ≡ ok (record { version = v; user_id = u; channel_id = c; all = a })
  unfolding unmarshal marshal
  unmarshal-fields v none none false = refl
  unmarshal-fields v none none true = refl
  unmarshal-fields v (some u) none false = rw (T.of_text-to_text u)
  unmarshal-fields v (some u) none true = rw (T.of_text-to_text u)
  unmarshal-fields v none (some c) false = rw (T.of_text-to_text c)
  unmarshal-fields v none (some c) true = rw (T.of_text-to_text c)
  unmarshal-fields v (some u) (some c) false =
      ground (arith, T.of_text-to_text u, T.of_text-to_text c)
  unmarshal-fields v (some u) (some c) true =
      ground (arith, T.of_text-to_text u, T.of_text-to_text c)

  -- What is published is read back, with the current version.
  pub unmarshal-publish :
      (m : InvalidationMessage)
      → unmarshal T (publish T m) ≡ ok (record m { version = invalidation_version })
  unfolding publish
  unmarshal-publish m = unmarshal-fields invalidation_version m.user_id m.channel_id m.all

  -- The pairs that a message covers.
  abbrev pub CoveredBy : Bool → Option Uuid → Option Uuid → Uuid → Uuid → Type 0
  CoveredBy true _ _ u c = Unit {0}
  CoveredBy false (some u') (some c') u c = (u ≡ u') × (c ≡ c')
  CoveredBy false (some u') none u c = u ≡ u'
  CoveredBy false none (some c') u c = c ≡ c'
  CoveredBy false none none u c = ⊥

  abbrev pub Covers : InvalidationMessage → Uuid → Uuid → Type 0
  Covers m = CoveredBy m.all m.user_id m.channel_id

  module _ {Permission : Type 0} (cache : Cache Permission) (laws : IsCache cache) where
    open cache use {State}

    delete_for-Drops :
        (a : Bool) (u c : Option Uuid) (s : State)
        → (delete_for T cache a u c s).0 ≡ ok tt
        → Drops cache s (CoveredBy a u c) (delete_for T cache a u c s).1
    unfolding delete_for
    delete_for-Drops true u c s h = laws.delete_all_drops s h
    delete_for-Drops false (some u) (some c) s h = laws.delete_exact_drops u c s h
    delete_for-Drops false (some u) none s h = laws.delete_by_user_drops u s h
    delete_for-Drops false none (some c) s h = laws.delete_by_channel_drops c s h
    delete_for-Drops false none none s h = λ u c p e. (e, λ f. f)

    pub handle_message-publish :
        (m : InvalidationMessage) (s : State)
        → handle_message T cache (publish T m) s ≡ delete_for T cache m.all m.user_id m.channel_id s
    unfolding handle_message
    handle_message-publish m s = rw (unmarshal-publish m, handle_message)

  -- The database has changed from `before` to `after`, and the permissions only of pairs that the
  -- message covers. Once the subscriber has handled the published message without an error, the
  -- cache, coherent with the old database, is coherent with the new one.
  pub publish-Coherent :
      (B : Bitfield) (before after : Store B.Permission) (cache : Cache B.Permission)
      (laws : IsCache cache) (m : InvalidationMessage) (s : cache.State)
      → Coherent B before cache s
      → ((u c : Uuid) → ¬ Covers m u c → expected B before u c ≡ expected B after u c)
      → (handle_message T cache (publish T m) s).0 ≡ ok tt
      → Coherent B after cache (handle_message T cache (publish T m) s).1
  publish-Coherent B before after cache laws m s co same done u c p e =
      let dropped =
        delete_for-Drops cache laws m.all m.user_id m.channel_id s
          (subst (λ r. r.0 ≡ ok tt) (handle_message-publish cache laws m s) done) u c p
          (subst (λ r. cache.entry r.1 u c ≡ some p) (handle_message-publish cache laws m s) e) in
      sym (same u c dropped.1) ∙ co u c p dropped.0
