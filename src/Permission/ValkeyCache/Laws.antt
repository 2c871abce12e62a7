-- ===== src/Permission/ValkeyCache/Laws.antt =====
-- What the methods of `ValkeyCache` read and write, with failing calls and expiring keys.
use Prim.Native.String.{String}
use uncord_server.Prelude.{
  ℕ, ◌≡◌, refl, sym, ◌∙◌, ap, true, ◌⊎◌, inl, inr, Option, none, some, List, [], ◌∷◌, map, arith,
  Bytes, bytes_eq, Bool-cases, Option-cases, Error, ok, err, ok_injective, context, Result-cases,
  context-eq-ok, >>=-eq-ok, lookup, put, lookup-put, ◌==◌,
}
use uncord_server.Uuid.{Uuid, UuidText}
use uncord_server.Strconv.{ℤ, format_int, parse_int, parse_int-format_int}
use uncord_server.Valkey.{Valkey}
use uncord_server.Valkey.Call.{World, call, call_keeps, call_reply}
use uncord_server.Permission.Bitfield.{Bitfield}
use uncord_server.Permission.Cache.{Cache, Adds}
use uncord_server.Permission.ValkeyCache.{
  cache_key, cache_ttl, read_value, get, set_one, collect, get_all, set_entries, set_all,
  scan_and_delete, user_pattern, channel_pattern, all_pattern, delete_exact,
}

module _ (B : Bitfield) (V : Valkey) (T : UuidText) where
  open B use {Permission, to_int, of_int}
  open V use {State, string_at, set, del, elapse}

  abbrev pub value_of : Option Bytes → Option Permission
  value_of none = none
  value_of (some val) = elim (parse_int val) [ ok n ↦ some (of_int n) | err _ ↦ none ]

  -- The methods of `ValkeyCache`, with the fuel of the loop over SCAN.
  abbrev pub valkey_cache : ℕ → Cache Permission
  valkey_cache fuel = record {
    State = World State;
    get = get B V T;
    set = set_one B V T;
    get_many = λ user_id ids. get_all B V T "cache mget" (λ c. cache_key B V T user_id c) ids;
    set_many = λ user_id m. set_all B V T "cache pipeline set" (λ c. cache_key B V T user_id c) m;
    get_many_users =
        λ ids channel_id. get_all B V T "cache mget users" (λ u. cache_key B V T u channel_id) ids;
    set_many_users = λ channel_id m.
        set_all B V T "cache pipeline set users" (λ u. cache_key B V T u channel_id) m;
    delete_by_user = λ user_id. scan_and_delete B V T fuel 0 (user_pattern B V T user_id);
    delete_by_channel =
        λ channel_id. scan_and_delete B V T fuel 0 (channel_pattern B V T channel_id);
    delete_exact = delete_exact B V T;
    delete_all = scan_and_delete B V T fuel 0 (all_pattern B V T);
    entry = λ w u c. value_of (string_at (cache_key B V T u c) w.server);
  }

  -- A key that holds a value now held it before, or was written with it.
  abbrev pub From : (Bytes → Bytes → Type 0) → State → State → Type 0
  From Q s t = (k v : Bytes) → string_at k t ≡ some v → (string_at k s ≡ some v) ⊎ Q k v

  pub elapse-From :
      (Q : Bytes → Bytes → Type 0) (s : State) (n : ℕ) (t : State)
      → From Q s t
      → From Q s (elapse n t)
  elapse-From Q s n t h k v live = h k v (ground (arith, V.string-elapse n t k))

  pub value_of-some :
      (o : Option Bytes) (p : Permission)
      → value_of o ≡ some p
      → (v : Bytes) × (o ≡ some v) × (value_of (some v) ≡ some p)
  value_of-some none p h = cc
  value_of-some (some v) p h = (v, refl, h)

  -- From keys to entries.
  pub From-Adds :
      (fuel : ℕ) (Q : Bytes → Bytes → Type 0) (R : Uuid → Uuid → Permission → Type 0)
      (w w' : World State)
      → From Q w.server w'.server
      → ((u c : Uuid) (v : Bytes) (p : Permission)
          → Q (cache_key B V T u c) v
          → value_of (some v) ≡ some p
          → R u c p)
      → Adds (valkey_cache fuel) w R w'
  From-Adds fuel Q R w w' h q u c p e =
      let (v, at_key, value) = value_of-some (string_at (cache_key B V T u c) w'.server) p e in
      elim (h (cache_key B V T u c) v at_key) [
        | inl old ↦ inl (ap value_of old ∙ value)
        | inr new ↦ inr (q u c v p new value)
      ]

  -- A call whose command only reads.
  pub read_From :
      {A : Type 0} (f : State → A) (w : World State)
      → From (λ _ _. ⊥) w.server (call elapse (λ s. (f s, s)) w).1.server
  read_From f w =
      call_keeps elapse (λ s. (f s, s)) (From (λ _ _. ⊥) w.server) (elapse-From (λ _ _. ⊥) w.server)
        (λ s h. h) w (λ k v live. inl live)

  pub value_of-format :
      (p p' : Permission) → value_of (some (format_int (to_int p))) ≡ some p' → p' ≡ p
  value_of-format p p' h =
      ground (arith, parse_int-format_int (to_int p) (B.to_int-IsInt64 p), B.of_int-to_int p)

  pub persisted :
      (k : Bytes) (s t : State) (p : Permission)
      → From (λ _ _. ⊥) s t
      → value_of (string_at k t) ≡ some p
      → value_of (string_at k s) ≡ some p
  persisted k s t p from h =
      let (v, at_key, value) = value_of-some (string_at k t) p h in
      elim (from k v at_key) [ inl old ↦ ap value_of old ∙ value | inr never ↦ absurd never ]

  read_value-some :
      (o : Option Bytes) (p : Permission) → read_value B V T o ≡ ok (some p) → value_of o ≡ some p
  unfolding read_value
  read_value-some none p h = cc
  read_value-some (some v) p h = ground arith

  value_of-ok : (val : Bytes) (n : ℤ) → parse_int val ≡ ok n → value_of (some val) ≡ some (of_int n)
  value_of-ok val n h = ground arith

  collect-none :
      (f : Uuid → Option Bytes) (i : Uuid) (ids : List Uuid)
      → f i ≡ none
      → collect B V T (i ∷ ids) (map f (i ∷ ids)) ≡ collect B V T ids (map f ids)
  unfolding collect
  collect-none f i ids e = rw e

  collect_err :
      (f : Uuid → Option Bytes) (i : Uuid) (ids : List Uuid) (val : Bytes) (x : Error)
      → f i ≡ some val
      → parse_int val ≡ err x
      → collect B V T (i ∷ ids) (map f (i ∷ ids)) ≡ collect B V T ids (map f ids)
  unfolding collect
  collect_err f i ids val x e bad = ground arith

  collect_ok :
      (f : Uuid → Option Bytes) (i : Uuid) (ids : List Uuid) (val : Bytes) (n : ℤ)
      → f i ≡ some val
      → parse_int val ≡ ok n
      → collect B V T (i ∷ ids) (map f (i ∷ ids)) ≡ put i (of_int n) (collect B V T ids (map f ids))
  unfolding collect
  collect_ok f i ids val n e good = ground arith

  pub get-hit :
      (fuel : ℕ) (u c : Uuid) (w : World State) (p : Permission)
      → (get B V T u c w).0 ≡ ok (some p)
      → (valkey_cache fuel).entry w u c ≡ some p
  unfolding get read_value
  get-hit fuel u c w p h =
      let reply = call elapse (λ s. (string_at (cache_key B V T u c) s, s)) w in
      let (o, got, r) = >>=-eq-ok (context "cache get" reply.0) (read_value B V T) h in
      let (t, from, e, _) =
        call_reply elapse (λ s. (string_at (cache_key B V T u c) s, s)) (From (λ _ _. ⊥) w.server)
          (elapse-From (λ _ _. ⊥) w.server) w o (λ k v live. inl live)
          (context-eq-ok "cache get" reply.0 got) in
      persisted (cache_key B V T u c) w.server t p from (ap value_of e ∙ read_value-some o p r)

  collect_found :
      (f : Uuid → Option Bytes) (ids : List Uuid) (id : Uuid) (p : Permission)
      → lookup id (collect B V T ids (map f ids)) ≡ some p
      → value_of (f id) ≡ some p
  unfolding collect lookup
  collect_found f [] id p h = cc
  collect_found f (i ∷ ids) id p h = elim (Option-cases (f i)) [
    | inl e ↦ collect_found f ids id p (sym (ap (lookup id) (collect-none f i ids e)) ∙ h)
    | inr (val, e) ↦ elim (Result-cases (parse_int val)) [
      | inr (x, bad) ↦
          collect_found f ids id p (sym (ap (lookup id) (collect_err f i ids val x e bad)) ∙ h)
      | inl (n, good) ↦ elim (Bool-cases (i == id)) [
        | inl same ↦
            let here : i ≡ id = ground arith in
            let value : of_int n ≡ p = ground (
              arith,
              collect_ok f i ids val n e good,
              lookup-put i id (of_int n) (collect B V T ids (map f ids)),
            ) in
            ap (λ k. value_of (f k)) (sym here)
            ∙ ap value_of e
            ∙ value_of-ok val n good
            ∙ ap some value
        | inr other ↦ collect_found f ids id p (
            ground (
              arith,
              collect_ok f i ids val n e good,
              lookup-put i id (of_int n) (collect B V T ids (map f ids)),
            ))
      ]
    ]
  ]

  pub get_all-hit :
      (what : String) (key : Uuid → Bytes) (ids : List Uuid) (w : World State)
      (m : List (Uuid × Permission)) (id : Uuid) (p : Permission)
      → (get_all B V T what key ids w).0 ≡ ok m
      → lookup id m ≡ some p
      → value_of (string_at (key id) w.server) ≡ some p
  unfolding get_all lookup
  get_all-hit what key [] w m id p h found = absurd (ground arith)
  get_all-hit what key (i ∷ ids) w m id p h found =
      let command : State → List (Option Bytes) × State =
        λ s. (map (λ i. string_at (key i) s) (i ∷ ids), s) in
      let reply = call elapse command w in
      let (vals, got, r) =
        >>=-eq-ok (context what reply.0) (λ vals. ok (collect B V T (i ∷ ids) vals)) h in
      let (t, from, e, _) =
        call_reply elapse command (From (λ _ _. ⊥) w.server) (elapse-From (λ _ _. ⊥) w.server) w
          vals (λ k v live. inl live) (context-eq-ok what reply.0 got) in
      let same : collect B V T (i ∷ ids) (map (λ i. string_at (key i) t) (i ∷ ids)) ≡ m =
        ap (collect B V T (i ∷ ids)) e ∙ ok_injective r in
      persisted (key id) w.server t p from
        (collect_found (λ i. string_at (key i) t) (i ∷ ids) id p (ap (lookup id) same ∙ found))

  pub get_all-From :
      (what : String) (key : Uuid → Bytes) (ids : List Uuid) (w : World State)
      → From (λ _ _. ⊥) w.server (get_all B V T what key ids w).1.server
  unfolding get_all
  get_all-From what key [] w = λ k v live. inl live
  get_all-From what key (i ∷ ids) w = read_From (λ s. map (λ i. string_at (key i) s) (i ∷ ids)) w

  -- A written key is that of a pair of the map, with its value.
  abbrev pub Wrote : (Uuid → Bytes) → List (Uuid × Permission) → Bytes → Bytes → Type 0
  Wrote key m k v =
      (id : Uuid) × (p : Permission) × (bytes_eq (key id) k ≡ true)
      × (lookup id m ≡ some p)
      × (v ≡ format_int (to_int p))

  pub set_entries-From :
      (key : Uuid → Bytes) (m : List (Uuid × Permission)) (s : State)
      → From (Wrote key m) s (set_entries B V T key m s)
  unfolding set_entries lookup
  set_entries-From key [] s k v live = inl live
  set_entries-From key ((id, perm) ∷ m) s k v live =
      let strings =
        V.string-set (key id) (format_int (to_int perm)) cache_ttl (set_entries B V T key m s) k in
      elim (Bool-cases (bytes_eq (key id) k)) [
        | inl same ↦ inr (id, perm, same, ground arith, ground (arith, strings))
        | inr other ↦ elim (set_entries-From key m s k v (ground (arith, strings))) [
          | inl old ↦ inl old
          | inr (id', p, same, at, value) ↦ inr (id', p, same, ground (arith, ap key), value)
        ]
      ]
