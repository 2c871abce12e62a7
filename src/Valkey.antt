-- ===== src/Valkey.antt =====
-- The Valkey server and the connection to it. The server is not part of the repository: its commands
-- are a parameter, with their documented effect on what a key holds and on how long it lives. A call
-- of the client may fail before or after the server has run the command, and time passes between calls.
pub mod Call
pub mod Lists
pub mod Counters
use uncord_server.Uuid.{IsPlain}
use uncord_server.Prelude.{
  ℕ, ◌-◌, ◌≤◌, ◌<◌, ◌≡◌, ◌≢◌, ◌⊎◌, Bool, true, false, not, ◌&&◌, ◌||◌, Option, none, some, List, [],
  ◌∷◌, ◌++◌, Bytes, bytes_eq, ltb, leb, if◌then◌else◌,
}

abbrev pub has_bytes : Bytes → List Bytes → Bool
has_bytes x [] = false
has_bytes x (y ∷ ys) = bytes_eq y x || has_bytes x ys

-- Whether a key with this time to live is there after `n` seconds; `none` lives for ever.
abbrev pub outlives : ℕ → Option ℕ → Bool
outlives n none = true
outlives n (some t) = ltb n t

abbrev pub remaining : ℕ → Option ℕ → Option ℕ
remaining n none = none
remaining n (some t) = if ltb n t then some (t - n) else none

abbrev pub is_some {ℓ} : {A : Type ℓ} → Option A → Bool
is_some none = false
is_some (some _) = true

pub record Valkey : Type 1 where
  pub State : Type 0
  -- What a key holds: a string, the members of a set, the seconds left.
  pub string_at : Bytes → State → Option Bytes
  pub members : Bytes → State → List Bytes
  pub ttl : Bytes → State → Option ℕ
  -- SET key value EX seconds, DEL, SADD, SREM, EXPIRE, INCR, and the passing of time.
  pub set : Bytes → Bytes → ℕ → State → State
  pub del : Bytes → State → State
  pub sadd : Bytes → Bytes → State → State
  pub srem : Bytes → Bytes → State → State
  pub expire : Bytes → ℕ → State → State
  pub elapse : ℕ → State → State
  pub string-set :
      (k v : Bytes) (t : ℕ) (s : State) (j : Bytes)
      → string_at j (set k v t s) ≡ (if bytes_eq k j then some v else string_at j s)
  pub string-del :
      (k : Bytes) (s : State) (j : Bytes)
      → string_at j (del k s) ≡ (if bytes_eq k j then none else string_at j s)
  pub string-sadd : (k x : Bytes) (s : State) (j : Bytes) → string_at j (sadd k x s) ≡ string_at j s
  pub string-srem : (k x : Bytes) (s : State) (j : Bytes) → string_at j (srem k x s) ≡ string_at j s
  pub string-expire :
      (k : Bytes) (t : ℕ) (s : State) (j : Bytes) → string_at j (expire k t s) ≡ string_at j s
  pub string-elapse :
      (n : ℕ) (s : State) (j : Bytes)
      → string_at j (elapse n s) ≡ (if outlives n (ttl j s) then string_at j s else none)
  pub member-set :
      (k v : Bytes) (t : ℕ) (s : State) (j x : Bytes)
      → has_bytes x (members j (set k v t s)) ≡ (not (bytes_eq k j) && has_bytes x (members j s))
  pub member-del :
      (k : Bytes) (s : State) (j x : Bytes)
      → has_bytes x (members j (del k s)) ≡ (not (bytes_eq k j) && has_bytes x (members j s))
  pub member-sadd :
      (k y : Bytes) (s : State) (j x : Bytes)
      → has_bytes x (members j (sadd k y s))
        ≡ (bytes_eq k j && bytes_eq y x || has_bytes x (members j s))
  pub member-srem :
      (k y : Bytes) (s : State) (j x : Bytes)
      → has_bytes x (members j (srem k y s))
        ≡ (not (bytes_eq k j && bytes_eq y x) && has_bytes x (members j s))
  pub member-expire :
      (k : Bytes) (t : ℕ) (s : State) (j x : Bytes)
      → has_bytes x (members j (expire k t s)) ≡ has_bytes x (members j s)
  pub member-elapse :
      (n : ℕ) (s : State) (j x : Bytes)
      → has_bytes x (members j (elapse n s)) ≡ (outlives n (ttl j s) && has_bytes x (members j s))
  pub ttl-set :
      (k v : Bytes) (t : ℕ) (s : State) (j : Bytes)
      → ttl j (set k v t s) ≡ (if bytes_eq k j then some t else ttl j s)
  -- DEL and SREM touch no other key; SADD keeps what time a key has.
  pub ttl-del :
      (k : Bytes) (s : State) (j : Bytes) → bytes_eq k j ≡ false → ttl j (del k s) ≡ ttl j s
  pub ttl-sadd :
      (k x : Bytes) (s : State) (j : Bytes) → bytes_eq k j ≡ false → ttl j (sadd k x s) ≡ ttl j s
  pub ttl-srem :
      (k x : Bytes) (s : State) (j : Bytes) → bytes_eq k j ≡ false → ttl j (srem k x s) ≡ ttl j s
  pub ttl-expire :
      (k x : Bytes) (t : ℕ) (s : State) (j : Bytes)
      → has_bytes x (members k s) ≡ true
      → ttl j (expire k t s) ≡ (if bytes_eq k j then some t else ttl j s)
  -- SCAN cursor MATCH pattern COUNT n: a page of keys and the next cursor, 0 at the end. `passed` are
  -- the keys that an iteration has had before a cursor: each key that is there and matches is on a
  -- page of the whole iteration. A star in a pattern stands for any characters.
  pub matches : Bytes → Bytes → Bool
  pub scan : ℕ → Bytes → ℕ → State → List Bytes × ℕ
  pub passed : ℕ → Bytes → Bool
  pub matches_star :
      (a b middle : Bytes)
      → IsPlain a
      → IsPlain b
      → matches (a ++ b'*' ∷ b) (a ++ (middle ++ b)) ≡ true
  pub passed_start : (k : Bytes) → passed 0 k ≡ false
  pub scan_page :
      (cursor : ℕ) (pattern : Bytes) (n : ℕ) (s : State) (k : Bytes)
      → is_some (string_at k s) ≡ true
      → matches pattern k ≡ true
      → passed cursor k ≡ false
      → (has_bytes k (scan cursor pattern n s).0 ≡ true)
        ⊎ (((scan cursor pattern n s).1 ≢ 0) × (passed (scan cursor pattern n s).1 k ≡ false))
  pub ttl-elapse : (n : ℕ) (s : State) (j : Bytes) → ttl j (elapse n s) ≡ remaining n (ttl j s)
