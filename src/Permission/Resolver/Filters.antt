-- ===== src/Permission/Resolver/Filters.antt =====
-- `FilterPermitted` and `FilterUsersPermitted` answer as one permission test for each item would.
use uncord_server.Prelude.{
  ℕ, ◌≡◌, ◌≢◌, refl, ap, Bool, true, false, inl, inr, some, List, [], ◌∷◌, map, arith, ◌==◌, subst,
  Result, ok, err, ◌>>=◌, Option-cases, Bool-cases, Result-cases, All-imp, All, lookup, put,
  lookup-put,
}
use uncord_server.Permission.Bitfield.{Bitfield}
use uncord_server.Permission.Store.{Uuid, Store}
use uncord_server.Permission.Cache.{Cache, IsCache}
use uncord_server.Permission.Resolver.{
  server_perm_key, BaseResult, of_roles, base_permissions, channel_overrides, compute, or_nil,
  check_all, remember_all, filter_channels, filter_permitted, filter_users_permitted,
}
use uncord_server.Permission.Resolver.Coherence.{Holds-Adds, expected, Coherent}

module _ (B : Bitfield) (store : Store B.Permission) where
  open B use {Permission, has, all_permissions}

  -- Every pair that the loop collects satisfies `P`.
  abbrev Collects :
      (Uuid → Permission → Type 0) → Result (List Bool × List (Uuid × Permission)) → Type 0
  Collects P (err e) = Unit {0}
  Collects P (ok (_, m)) = (id : Uuid) (p : Permission) → lookup id m ≡ some p → P id p

  Collects-answer :
      (P : Uuid → Permission → Type 0) (b : Bool)
      (r : Result (List Bool × List (Uuid × Permission)))
      → Collects P r
      → Collects P (r >>= λ am. ok (b ∷ am.0, am.1))
  Collects-answer P b (err e) h = tt
  Collects-answer P b (ok (bs, m)) h = h

  module _ (calculate : Uuid → Result Permission) (cached : List (Uuid × Permission))
      (perm : Permission) where
    -- With sound cached values and no failing computation, the loop answers for every item.
    check_all_answers :
        (e : Uuid → Permission) (tc : List (Uuid × Permission)) (ids : List Uuid)
        → All
            (λ id.
              (calculate id ≡ ok (e id))
              × ((p : Permission) → lookup id cached ≡ some p → p ≡ e id))
            ids
        → (m : List (Uuid × Permission)) × (check_all B store calculate cached perm tc ids
            ≡ ok (map (λ id. has (e id) perm) ids, m))
    unfolding check_all
    check_all_answers e tc [] h = (tc, refl)
    check_all_answers e tc (id ∷ ids) (here, rest) = elim (Option-cases (lookup id cached)) [
      | inl miss ↦
          let (m, eq) = check_all_answers e (put id (e id) tc) ids rest in
          (m, ground (arith, miss, here.0, eq))
      | inr (p, found) ↦
          let (m, eq) = check_all_answers e tc ids rest in
          (m, ground (arith, found, here.1 p found, eq))
    ]

    put_holds :
        (P : Uuid → Permission → Type 0) (id : Uuid) (e : Permission)
        (tc : List (Uuid × Permission))
        → P id e
        → ((i : Uuid) (p : Permission) → lookup i tc ≡ some p → P i p)
        → (i : Uuid) (p : Permission) → lookup i (put id e tc) ≡ some p
        → P i p
    put_holds P id e tc h old i p found = elim (Bool-cases (id == i)) [
      | inl same ↦
          let same' : id ≡ i = ground arith in
          let value : e ≡ p = ground (arith, lookup-put id i e tc) in
          subst (λ x. P x p) same' (subst (P id) value h)
      | inr other ↦ old i p (ground (arith, lookup-put id i e tc))
    ]

    check_all-Collects :
        (P : Uuid → Permission → Type 0) (tc : List (Uuid × Permission)) (ids : List Uuid)
        → ((id : Uuid) (p : Permission) → lookup id tc ≡ some p → P id p)
        → All (λ id. (p : Permission) → calculate id ≡ ok p → P id p) ids
        → Collects P (check_all B store calculate cached perm tc ids)
    unfolding check_all
    check_all-Collects P tc [] old h = old
    check_all-Collects P tc (id ∷ ids) old (new, rest) = elim (Option-cases (lookup id cached)) [
      | inr (p, found) ↦
          rw (found, check_all)
            (Collects-answer P (has p perm) _ (check_all-Collects P tc ids old rest))
      | inl miss ↦ elim (Result-cases (calculate id)) [
        | inr (x, fails) ↦ rw (miss, check_all) (rw fails tt)
        | inl (e, computed) ↦
            rw (miss, check_all)
              (rw computed (
                Collects-answer P (has e perm) _ (
                  check_all-Collects P (put id e tc) ids (put_holds P id e tc (new e computed) old)
                    rest)))
      ]
    ]

  module _ (cache : Cache B.Permission) (laws : IsCache cache) where
    open cache use {State}

    -- The bulk write keeps the cache coherent if the collected pairs are sound.
    remember_all-Coherent :
        (write : List (Uuid × Permission) → State → Result (Unit {0}) × State)
        (P : Uuid → Permission → Type 0) (r : Result (List Bool × List (Uuid × Permission)))
        (s : State)
        → ((m : List (Uuid × Permission))
            → ((id : Uuid) (p : Permission) → lookup id m ≡ some p → P id p)
            → Coherent B store cache s
            → Coherent B store cache (write m s).1)
        → Collects P r
        → Coherent B store cache s
        → Coherent B store cache (remember_all B store cache write r s).1
    unfolding remember_all
    remember_all-Coherent write P (err e) s keeps h co = co
    remember_all-Coherent write P (ok (bs, [])) s keeps h co = co
    remember_all-Coherent write P (ok (bs, m ∷ ms)) s keeps h co = keeps (m ∷ ms) h co

    remember_all_answers :
        (write : List (Uuid × Permission) → State → Result (Unit {0}) × State) (bs : List Bool)
        (m : List (Uuid × Permission)) (s : State)
        → (remember_all B store cache write (ok (bs, m)) s).0 ≡ ok bs
    unfolding remember_all
    remember_all_answers write bs [] s = refl
    remember_all_answers write bs (m ∷ ms) s = refl

    -- What a bulk write of collected pairs may add is expected.
    channels-Coherent :
        (u : Uuid) (m : List (Uuid × Permission)) (s : State)
        → ((c : Uuid) (p : Permission) → lookup c m ≡ some p → expected B store u c ≡ ok p)
        → Coherent B store cache s
        → Coherent B store cache (cache.set_many u m s).1
    channels-Coherent u m s h co =
        Holds-Adds cache _ _ s _ co (laws.set_many_adds u m s) (λ u' c p q. rw (q.0) (h c p q.1))

    users-Coherent :
        (c : Uuid) (m : List (Uuid × Permission)) (s : State)
        → ((u : Uuid) (p : Permission) → lookup u m ≡ some p → expected B store u c ≡ ok p)
        → Coherent B store cache s
        → Coherent B store cache (cache.set_many_users c m s).1
    users-Coherent c m s h co =
        Holds-Adds cache _ _ s _ co (laws.set_many_users_adds c m s)
          (λ u c' p q. rw (q.0) (h u p q.1))

    or_nil_found {ℓ} :
        {A : Type ℓ} (r : Result (List (ℕ × A))) (k : ℕ) (a : A)
        → lookup k (or_nil r) ≡ some a
        → (m : List (ℕ × A)) × (r ≡ ok m) × (lookup k m ≡ some a)
    unfolding lookup
    or_nil_found (ok m) k a h = (m, refl, h)
    or_nil_found (err e) k a h = absurd (ground arith)

    none_in : (id : Uuid) (p : Permission) → lookup {V = Permission} id [] ≢ some p
    unfolding lookup
    none_in id p h = cc

    -- Both filters, over what their bulk read and write keep: `run` is what is left after the read.
    check_all_lem :
        (calculate : Uuid → Result Permission) (key : Uuid → Result Permission)
        (r : Result (List (Uuid × Permission))) (perm : Permission) (e : Uuid → Permission)
        (ids : List Uuid)
        → ((id : Uuid) (p : Permission) → lookup id (or_nil r) ≡ some p → key id ≡ ok p)
        → All (λ id. (calculate id ≡ ok (e id)) × (key id ≡ ok (e id))) ids
        → (m : List (Uuid × Permission)) × (check_all B store calculate (or_nil r) perm [] ids
            ≡ ok (map (λ id. has (e id) perm) ids, m))
          × ((id : Uuid) (p : Permission) → lookup id m ≡ some p → key id ≡ ok p)
    check_all_lem calculate key r perm e ids found h =
        let (m, eq) =
          check_all_answers calculate (or_nil r) perm e [] ids
            (All-imp ids (λ id w. (w.0, λ p hit. cc (found id p hit, w.1))) h) in
        (
          m,
          eq,
          subst (Collects (λ id p. key id ≡ ok p)) eq (
              check_all-Collects calculate (or_nil r) perm (λ id p. key id ≡ ok p) [] ids
                (λ id p none_found. absurd (none_in id p none_found))
                (All-imp ids (λ id w p computed. cc (w.0, w.1, computed)) h)),
        )

    or_nil_channels :
        (u : Uuid) (cs : List Uuid) (s : State) (c : Uuid) (p : Permission)
        → Coherent B store cache s
        → lookup c (or_nil (cache.get_many u cs s).0) ≡ some p
        → expected B store u c ≡ ok p
    or_nil_channels u cs s c p co h =
        let (m, got, found) = or_nil_found (cache.get_many u cs s).0 c p h in
        co u c p (laws.get_many_hit u cs s m c p got found)

    or_nil_users :
        (us : List Uuid) (c : Uuid) (s : State) (u : Uuid) (p : Permission)
        → Coherent B store cache s
        → lookup u (or_nil (cache.get_many_users us c s).0) ≡ some p
        → expected B store u c ≡ ok p
    or_nil_users us c s u p co h =
        let (m, got, found) = or_nil_found (cache.get_many_users us c s).0 u p h in
        co u c p (laws.get_many_users_hit us c s m u p got found)

    -- After the read: the answers and the bulk write.
    finish :
        (calculate key : Uuid → Result Permission) (r : Result (List (Uuid × Permission)))
        (write : List (Uuid × Permission) → State → Result (Unit {0}) × State) (perm : Permission)
        (e : Uuid → Permission) (ids : List Uuid) (s : State)
        → ((id : Uuid) (p : Permission) → lookup id (or_nil r) ≡ some p → key id ≡ ok p)
        → All (λ id. (calculate id ≡ ok (e id)) × (key id ≡ ok (e id))) ids
        → ((m : List (Uuid × Permission))
            → ((id : Uuid) (p : Permission) → lookup id m ≡ some p → key id ≡ ok p)
            → Coherent B store cache s
            → Coherent B store cache (write m s).1)
        → Coherent B store cache s
        → let t =
            remember_all B store cache write
              (check_all B store calculate (or_nil r) perm [] ids)
              s in
          (t.0 ≡ ok (map (λ id. has (e id) perm) ids)) × Coherent B store cache t.1
    finish calculate key r write perm e ids s found h keeps co =
        let (m, eq, good) = check_all_lem calculate key r perm e ids found h in
        rw eq (
          remember_all_answers write (map (λ id. has (e id) perm) ids) m s,
          remember_all-Coherent write (λ id p. key id ≡ ok p)
              (ok (map (λ id. has (e id) perm) ids, m)) s keeps good co,
        )

    map_constant :
        (f : Uuid → Bool) (cs : List Uuid)
        → All (λ c. f c ≡ true) cs
        → map (λ _. true) cs ≡ map f cs
    map_constant f [] h = refl
    map_constant f (c ∷ cs) h = ground (arith, h.0, map_constant f cs h.1)

    admin_perm :
        (u : Uuid) (br : BaseResult Permission)
        → base_permissions B store u ≡ ok br
        → br.admin ≡ true
        → br.perm ≡ all_permissions
    unfolding base_permissions of_roles
    admin_perm u br h a = ground arith

    channels_expected :
        (u c : Uuid) (p : Permission)
        → c ≢ server_perm_key
        → compute B store u c ≡ ok p
        → expected B store u c ≡ ok p
    channels_expected u c p real h = ground arith

    compute_admin :
        (u c : Uuid) (p : Permission) (br : BaseResult Permission)
        → base_permissions B store u ≡ ok br
        → br.admin ≡ true
        → compute B store u c ≡ ok p
        → p ≡ all_permissions
    unfolding compute
    compute_admin u c p br base a h = ground (arith, admin_perm u br base a)

    compute_overrides :
        (u c : Uuid) (p : Permission) (br : BaseResult Permission)
        → base_permissions B store u ≡ ok br
        → br.admin ≡ false
        → compute B store u c ≡ ok p
        → channel_overrides B store br.perm br.role_ids u c ≡ ok p
    unfolding compute
    compute_overrides u c p br base a h = ground arith

    filter_channels-eq :
        (u : Uuid) (cs : List Uuid) (perm : Permission) (e : Uuid → Permission)
        (br : BaseResult Permission) (s : State)
        → Coherent B store cache s
        → has all_permissions perm ≡ true
        → base_permissions B store u ≡ ok br
        → All (λ c. (c ≢ server_perm_key) × (compute B store u c ≡ ok (e c))) cs
        → ((filter_channels B store cache br u cs perm s).0 ≡ ok (map (λ c. has (e c) perm) cs))
          × Coherent B store cache (filter_channels B store cache br u cs perm s).1
    unfolding filter_channels
    filter_channels-eq u cs perm e br s co full base h = elim (Bool-cases br.admin) [
      | inl a ↦
          rw (a, filter_channels)
            (
              ap ok (
                  map_constant (λ c. has (e c) perm) cs
                    (All-imp cs (λ c w. rw (compute_admin u c (e c) br base a w.1) full) h)),
              co,
            )
      | inr a ↦
          rw (a, filter_channels)
            (finish (channel_overrides B store br.perm br.role_ids u) (expected B store u)
              (cache.get_many u cs s).0 (cache.set_many u) perm e cs (cache.get_many u cs s).1
              (λ c p. or_nil_channels u cs s c p co)
              (All-imp cs
                (λ c w.
                  (compute_overrides u c (e c) br base a w.1, channels_expected u c (e c) w.0 w.1))
                h)
              (λ m. channels-Coherent u m (cache.get_many u cs s).1)
              (Holds-Adds cache _ _ s _ co (laws.get_many_keeps u cs s) (λ _ _ _ q. absurd q)))
    ]

    -- With a coherent cache, and where the rows can be read, the filter over channels answers for each
    -- channel as the test of the computed permissions, and leaves the cache coherent. The permission
    -- is one of `AllPermissions`, and no channel is the zero UUID.
    pub filter_permitted-eq :
        (u : Uuid) (cs : List Uuid) (perm : Permission) (e : Uuid → Permission)
        (br : BaseResult Permission) (s : State)
        → Coherent B store cache s
        → has all_permissions perm ≡ true
        → base_permissions B store u ≡ ok br
        → All (λ c. (c ≢ server_perm_key) × (compute B store u c ≡ ok (e c))) cs
        → ((filter_permitted B store cache u cs perm s).0 ≡ ok (map (λ c. has (e c) perm) cs))
          × Coherent B store cache (filter_permitted B store cache u cs perm s).1
    unfolding filter_permitted
    filter_permitted-eq u cs perm e br s co full base h =
        rw (base, filter_permitted) (filter_channels-eq u cs perm e br s co full base h)

    -- The same of the filter over users.
    pub filter_users_permitted-eq :
        (us : List Uuid) (c : Uuid) (perm : Permission) (e : Uuid → Permission) (s : State)
        → Coherent B store cache s
        → c ≢ server_perm_key
        → All (λ u. compute B store u c ≡ ok (e u)) us
        → ((filter_users_permitted B store cache us c perm s).0 ≡ ok (map (λ u. has (e u) perm) us))
          × Coherent B store cache (filter_users_permitted B store cache us c perm s).1
    unfolding filter_users_permitted
    filter_users_permitted-eq us c perm e s co real h =
        finish (λ u. compute B store u c) (λ u. expected B store u c)
          (cache.get_many_users us c s).0 (cache.set_many_users c) perm e us
          (cache.get_many_users us c s).1 (λ u p. or_nil_users us c s u p co)
          (All-imp us (λ u w. (w, channels_expected u c (e u) real w)) h)
          (λ m. users-Coherent c m (cache.get_many_users us c s).1)
          (Holds-Adds cache _ _ s _ co (laws.get_many_users_keeps us c s) (λ _ _ _ q. absurd q))
