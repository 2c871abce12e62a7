-- ===== src/Valkey/Lists.antt =====
-- Lists in Valkey: RPUSH, LTRIM key -n -1 and LRANGE key 0 -1, with their documented effect.
use uncord_server.Prelude.{
  ℕ, zero, suc, ◌-◌, ◌≡◌, if◌then◌else◌, List, [], ◌∷◌, ◌++◌, length, drop, Bytes, bytes_eq,
}
use uncord_server.Valkey.{Valkey, outlives}

-- What LTRIM from -n leaves: the last n items, and everything where n is 0, since -0 is the first one.
unfoldable pub last_items {ℓ} : {A : Type ℓ} → ℕ → List A → List A
last_items zero xs = xs
last_items (suc n) xs = drop (length xs - suc n) xs

pub record Lists (V : Valkey) : Type 0 where
  pub list_at : Bytes → V.State → List Bytes
  pub rpush : Bytes → Bytes → V.State → V.State
  pub ltrim : Bytes → ℕ → V.State → V.State
  pub list-rpush :
      (k x : Bytes) (s : V.State) (j : Bytes)
      → list_at j (rpush k x s) ≡ (if bytes_eq k j then list_at j s ++ x ∷ [] else list_at j s)
  pub list-ltrim :
      (k : Bytes) (n : ℕ) (s : V.State) (j : Bytes)
      → list_at j (ltrim k n s) ≡ (if bytes_eq k j then last_items n (list_at j s) else list_at j s)
  pub list-expire :
      (k : Bytes) (t : ℕ) (s : V.State) (j : Bytes) → list_at j (V.expire k t s) ≡ list_at j s
  pub list-set :
      (k v : Bytes) (t : ℕ) (s : V.State) (j : Bytes)
      → list_at j (V.set k v t s) ≡ (if bytes_eq k j then [] else list_at j s)
  pub list-del :
      (k : Bytes) (s : V.State) (j : Bytes)
      → list_at j (V.del k s) ≡ (if bytes_eq k j then [] else list_at j s)
  pub list-elapse :
      (n : ℕ) (s : V.State) (j : Bytes)
      → list_at j (V.elapse n s) ≡ (if outlives n (V.ttl j s) then list_at j s else [])
  pub string-rpush :
      (k x : Bytes) (s : V.State) (j : Bytes) → V.string_at j (rpush k x s) ≡ V.string_at j s
  pub string-ltrim :
      (k : Bytes) (n : ℕ) (s : V.State) (j : Bytes) → V.string_at j (ltrim k n s) ≡ V.string_at j s
