-- ===== src/Permission/Cache.antt =====
-- internal/permission/cache.go: the interface `Cache` that the resolver and the subscriber use.
-- `entry` is the cached value of a pair, for the laws; entries may expire at any call.
use uncord_server.Prelude.{◌≡◌, ◌⊎◌, Option, some, List, Result, ok, lookup}
use uncord_server.Permission.Store.{Uuid}

pub record Cache (Permission : Type 0) : Type 1 where
  pub State : Type 0
  pub get : Uuid → Uuid → State → Result (Option Permission) × State
  pub set : Uuid → Uuid → Permission → State → Result (Unit {0}) × State
  pub get_many : Uuid → List Uuid → State → Result (List (Uuid × Permission)) × State
  pub set_many : Uuid → List (Uuid × Permission) → State → Result (Unit {0}) × State
  pub get_many_users : List Uuid → Uuid → State → Result (List (Uuid × Permission)) × State
  pub set_many_users : Uuid → List (Uuid × Permission) → State → Result (Unit {0}) × State
  pub delete_by_user : Uuid → State → Result (Unit {0}) × State
  pub delete_by_channel : Uuid → State → Result (Unit {0}) × State
  pub delete_exact : Uuid → Uuid → State → Result (Unit {0}) × State
  pub delete_all : State → Result (Unit {0}) × State
  pub entry : State → Uuid → Uuid → Option Permission

module _ {Permission : Type 0} (cache : Cache Permission) where
  open cache use {
    State, entry, get, set, get_many, set_many, get_many_users, set_many_users, delete_by_user,
    delete_by_channel, delete_exact, delete_all,
  }

  -- Every cached value satisfies `P`.
  abbrev pub Holds : (Uuid → Uuid → Permission → Type 0) → State → Type 0
  Holds P s = (u c : Uuid) (p : Permission) → entry s u c ≡ some p → P u c p

  -- After `t` come only entries of `s`, and those that satisfy `Q`.
  abbrev pub Adds : State → (Uuid → Uuid → Permission → Type 0) → State → Type 0
  Adds s Q t =
      (u c : Uuid) (p : Permission) → entry t u c ≡ some p → (entry s u c ≡ some p) ⊎ Q u c p

  -- After `t` come only entries of `s` that are not among the deleted ones.
  abbrev pub Drops : State → (Uuid → Uuid → Type 0) → State → Type 0
  Drops s D t =
      (u c : Uuid) (p : Permission) → entry t u c ≡ some p → (entry s u c ≡ some p) × ¬ D u c

  -- What the resolver and the subscriber rely on. A call that fails deletes no more than expiry does,
  -- and a failed write may have written; a deletion that succeeds has deleted.
  pub record IsCache : Type 0 where
    pub get_hit :
        (u c : Uuid) (s : State) (p : Permission)
        → (get u c s).0 ≡ ok (some p)
        → entry s u c ≡ some p
    pub get_keeps : (u c : Uuid) (s : State) → Adds s (λ _ _ _. ⊥) (get u c s).1
    pub set_adds :
        (u c : Uuid) (p : Permission) (s : State)
        → Adds s (λ u' c' p'. (u' ≡ u) × (c' ≡ c) × (p' ≡ p)) (set u c p s).1
    pub get_many_hit :
        (u : Uuid) (cs : List Uuid) (s : State) (m : List (Uuid × Permission)) (c : Uuid)
        (p : Permission)
        → (get_many u cs s).0 ≡ ok m
        → lookup c m ≡ some p
        → entry s u c ≡ some p
    pub get_many_keeps :
        (u : Uuid) (cs : List Uuid) (s : State) → Adds s (λ _ _ _. ⊥) (get_many u cs s).1
    pub set_many_adds :
        (u : Uuid) (m : List (Uuid × Permission)) (s : State)
        → Adds s (λ u' c' p'. (u' ≡ u) × (lookup c' m ≡ some p')) (set_many u m s).1
    pub get_many_users_hit :
        (us : List Uuid) (c : Uuid) (s : State) (m : List (Uuid × Permission)) (u : Uuid)
        (p : Permission)
        → (get_many_users us c s).0 ≡ ok m
        → lookup u m ≡ some p
        → entry s u c ≡ some p
    pub get_many_users_keeps :
        (us : List Uuid) (c : Uuid) (s : State) → Adds s (λ _ _ _. ⊥) (get_many_users us c s).1
    pub set_many_users_adds :
        (c : Uuid) (m : List (Uuid × Permission)) (s : State)
        → Adds s (λ u' c' p'. (c' ≡ c) × (lookup u' m ≡ some p')) (set_many_users c m s).1
    pub delete_by_user_drops :
        (u : Uuid) (s : State)
        → (delete_by_user u s).0 ≡ ok tt
        → Drops s (λ u' _. u' ≡ u) (delete_by_user u s).1
    pub delete_by_channel_drops :
        (c : Uuid) (s : State)
        → (delete_by_channel c s).0 ≡ ok tt
        → Drops s (λ _ c'. c' ≡ c) (delete_by_channel c s).1
    pub delete_exact_drops :
        (u c : Uuid) (s : State)
        → (delete_exact u c s).0 ≡ ok tt
        → Drops s (λ u' c'. (u' ≡ u) × (c' ≡ c)) (delete_exact u c s).1
    pub delete_all_drops :
        (s : State) → (delete_all s).0 ≡ ok tt → Drops s (λ _ _. Unit {0}) (delete_all s).1
