-- ===== src/Valkey/Counters.antt =====
-- Counters in Valkey: INCR, with its documented effect. A key without a counter counts as 0.
use uncord_server.Prelude.{ℕ, suc, ◌≤◌, ◌≡◌, some, false, if◌then◌else◌, Bytes, bytes_eq}
use uncord_server.Valkey.{Valkey}

pub record Counters (V : Valkey) : Type 0 where
  pub count_at : Bytes → V.State → ℕ
  pub incr : Bytes → V.State → V.State
  pub count-incr :
      (k : Bytes) (s : V.State) (j : Bytes)
      → count_at j (incr k s) ≡ (if bytes_eq k j then suc (count_at j s) else count_at j s)
  pub count-set :
      (k v : Bytes) (t : ℕ) (s : V.State) (j : Bytes)
      → bytes_eq k j ≡ false
      → count_at j (V.set k v t s) ≡ count_at j s
  pub count-del :
      (k : Bytes) (s : V.State) (j : Bytes)
      → count_at j (V.del k s) ≡ (if bytes_eq k j then 0 else count_at j s)
  -- EXPIRE with a time that is not 0 gives the key this time, if it is there, and keeps the counters.
  pub count-expire :
      (k : Bytes) (t : ℕ) (s : V.State) (j : Bytes)
      → 1 ≤ t
      → count_at j (V.expire k t s) ≡ count_at j s
  pub ttl-expire :
      (k : Bytes) (t : ℕ) (s : V.State) (j : Bytes)
      → 1 ≤ t
      → 1 ≤ count_at k s
      → V.ttl j (V.expire k t s) ≡ (if bytes_eq k j then some t else V.ttl j s)
  -- INCR keeps the time of a counter, and the strings under other keys.
  pub ttl-incr :
      (k : Bytes) (s : V.State) (j : Bytes) → 1 ≤ count_at j s → V.ttl j (incr k s) ≡ V.ttl j s
  pub string-incr :
      (k : Bytes) (s : V.State) (j : Bytes)
      → bytes_eq k j ≡ false
      → V.string_at j (incr k s) ≡ V.string_at j s
