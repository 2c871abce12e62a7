-- ===== src/Examples/Server.antt =====
-- A Valkey server in memory: strings in an association list, sets and times as functions, a glob
-- matcher, and a SCAN that returns everything on one page. UUIDs have a text of 36 characters.
use uncord_server.Prelude.{
  ℕ, zero, suc, ◌+◌, ◌-◌, ◌≡◌, refl, ap, Bool, true, false, not, ◌&&◌, ◌||◌, inl, inr, Option, none,
  some, List, [], ◌∷◌, ◌++◌, arith, Bytes, bytes_eq, bytes_eq_iff, ◌==◌, if◌then◌else◌, Bool-cases,
  Result, ok, err, malformed, length,
}
use uncord_server.Uuid.{Uuid, UuidText, IsPlain}
use uncord_server.Valkey.Counters.{Counters}
use uncord_server.Valkey.Lists.{Lists, last_items}
use uncord_server.Valkey.{Valkey, has_bytes, outlives, remaining, is_some}

pub record Memory : Type 0 where
  pub strings : List (Bytes × Bytes)
  pub sets : Bytes → List Bytes
  pub times : Bytes → Option ℕ
  pub buffers : Bytes → List Bytes
  pub counts : Bytes → ℕ

abbrev pub find : Bytes → List (Bytes × Bytes) → Option Bytes
find k [] = none
find k ((j, v) ∷ m) = if bytes_eq j k then some v else find k m

abbrev pub keep : (Bytes → Bool) → List (Bytes × Bytes) → List (Bytes × Bytes)
keep p [] = []
keep p ((j, v) ∷ m) = let rest = keep p m in if p j then (j, v) ∷ rest else rest

pub find-keep :
    (p : Bytes → Bool) (k : Bytes) (m : List (Bytes × Bytes))
    → find k (keep p m) ≡ (if p k then find k m else none)
find-keep p k [] = ground arith
find-keep p k ((j, v) ∷ m) = elim (Bool-cases (bytes_eq j k)) [
  | inl same ↦
      let here : j ≡ k = (bytes_eq_iff j k).0 same in ground (arith, find-keep p k m, ap p here)
  | inr other ↦ ground (arith, find-keep p k m)
]

abbrev pub without : Bytes → List Bytes → List Bytes
without y [] = []
without y (x ∷ xs) = let rest = without y xs in if bytes_eq y x then rest else x ∷ rest

pub has_bytes-without :
    (y x : Bytes) (xs : List Bytes)
    → has_bytes x (without y xs) ≡ (not (bytes_eq y x) && has_bytes x xs)
has_bytes-without y x [] = ground arith
has_bytes-without y x (z ∷ xs) =
    ground (arith, has_bytes-without y x xs, bytes_eq_iff y z, bytes_eq_iff z x, bytes_eq_iff y x)

abbrev pub star : (Bytes → Bool) → Bytes → Bool
star f [] = f []
star f (k ∷ ks) = f (k ∷ ks) || star f ks

abbrev pub glob : Bytes → Bytes → Bool
glob [] [] = true
glob [] (k ∷ ks) = false
glob (p ∷ ps) [] = p == b'*' && glob ps []
glob (p ∷ ps) (k ∷ ks) = if p == b'*' then star (glob ps) (k ∷ ks) else p == k && glob ps ks

glob_refl : (b : Bytes) → IsPlain b → glob b b ≡ true
glob_refl [] h = refl
glob_refl (x ∷ b) h = ground (arith, h.0, glob_refl b h.1)

star-append : (f : Bytes → Bool) (m b : Bytes) → f b ≡ true → star f (m ++ b) ≡ true
star-append f [] [] h = h
star-append f [] (x ∷ b) h = ground arith
star-append f (x ∷ m) b h = ground (arith, star-append f m b h)

pub glob_star :
    (a b m : Bytes) → IsPlain a → IsPlain b → glob (a ++ b'*' ∷ b) (a ++ (m ++ b)) ≡ true
glob_star [] b m ha hb = front (m ++ b) (star-append (glob b) m b (glob_refl b hb))
  where
    front : (k : Bytes) → star (glob b) k ≡ true → glob (b'*' ∷ b) k ≡ true
    front [] h = h
    front (x ∷ k) h = h
glob_star (x ∷ a) b m ha hb = ground (arith, ha.0, glob_star a b m ha.1 hb)

abbrev pub page : Bytes → List (Bytes × Bytes) → List Bytes
page pattern [] = []
page pattern ((j, v) ∷ m) = let rest = page pattern m in if glob pattern j then j ∷ rest else rest

pub page_complete :
    (pattern k : Bytes) (m : List (Bytes × Bytes))
    → is_some (find k m) ≡ true
    → glob pattern k ≡ true
    → has_bytes k (page pattern m) ≡ true
page_complete pattern k [] h g = cc
page_complete pattern k ((j, v) ∷ m) h g = elim (Bool-cases (bytes_eq j k)) [
  | inl same ↦ ground (arith, ap (glob pattern) ((bytes_eq_iff j k).0 same))
  | inr other ↦ ground (arith, page_complete pattern k m)
]

pub del_law :
    (k j : Bytes) (m : List (Bytes × Bytes))
    → find j (keep (λ i. not (bytes_eq k i)) m) ≡ (if bytes_eq k j then none else find j m)
del_law k j m = ground (arith, find-keep (λ i. not (bytes_eq k i)) j m)

-- 35 dashes, and one character for the number.
abbrev dashes : ℕ → Bytes → Bytes
dashes zero tail = tail
dashes (suc n) tail = b'-' ∷ dashes n tail

abbrev pub parse_uuid : ℕ → Bytes → Result Uuid
parse_uuid n [] = err malformed
parse_uuid zero (c ∷ s) = ok (c - 128)
parse_uuid (suc n) (c ∷ s) = parse_uuid n s

pub parse_dashes : (n : ℕ) (u : Uuid) → parse_uuid n (dashes n ((128 + u) ∷ [])) ≡ ok u
parse_dashes zero u = ap ok (omega arith)
parse_dashes (suc n) u = parse_dashes n u

pub length-dashes : (n : ℕ) (t : Bytes) → length (dashes n t) ≡ n + length t
length-dashes zero t = omega arith
length-dashes (suc n) t = omega (arith, length-dashes n t)

pub dashes-IsPlain : (n : ℕ) (u : Uuid) → IsPlain (dashes n ((128 + u) ∷ []))
dashes-IsPlain zero u = (ground arith, tt)
dashes-IsPlain (suc n) u = (refl, dashes-IsPlain n u)

abbrev pub uuid_text : UuidText
uuid_text = record {
  to_text = λ u. dashes 35 ((128 + u) ∷ []);
  of_text = parse_uuid 35;
  of_text-to_text = parse_dashes 35;
  length-to_text = λ u. length-dashes 35 ((128 + u) ∷ []);
  to_text-IsPlain = dashes-IsPlain 35;
}

abbrev pub memory : Valkey
memory = record {
  State = Memory;
  string_at = λ k s. find k s.strings;
  members = λ k s. s.sets k;
  ttl = λ k s. s.times k;
  set = λ k v t s. record {
    strings = (k, v) ∷ s.strings;
    sets = λ j. if bytes_eq k j then [] else s.sets j;
    times = λ j. if bytes_eq k j then some t else s.times j;
    buffers = λ j. if bytes_eq k j then [] else s.buffers j;
    counts = λ j. if bytes_eq k j then 0 else s.counts j;
  };
  del = λ k s. record {
    strings = keep (λ j. not (bytes_eq k j)) s.strings;
    sets = λ j. if bytes_eq k j then [] else s.sets j;
    times = λ j. if bytes_eq k j then none else s.times j;
    buffers = λ j. if bytes_eq k j then [] else s.buffers j;
    counts = λ j. if bytes_eq k j then 0 else s.counts j;
  };
  sadd = λ k x s. record s { sets = λ j. if bytes_eq k j then x ∷ s.sets j else s.sets j };
  srem = λ k x s. record s { sets = λ j. if bytes_eq k j then without x (s.sets j) else s.sets j };
  expire = λ k t s. record s { times = λ j. if bytes_eq k j then some t else s.times j };
  elapse = λ n s. record {
    strings = keep (λ j. outlives n (s.times j)) s.strings;
    sets = λ j. if outlives n (s.times j) then s.sets j else [];
    times = λ j. remaining n (s.times j);
    buffers = λ j. if outlives n (s.times j) then s.buffers j else [];
    counts = λ j. if outlives n (s.times j) then s.counts j else 0;
  };
  string-set = λ k v t s j. refl;
  string-del = λ k s j. del_law k j s.strings;
  string-sadd = λ k x s j. refl;
  string-srem = λ k x s j. refl;
  string-expire = λ k t s j. refl;
  string-elapse = λ n s j. find-keep (λ j. outlives n (s.times j)) j s.strings;
  member-set = λ k v t s j x. ground arith;
  member-del = λ k s j x. ground arith;
  member-sadd = λ k y s j x. ground arith;
  member-srem = λ k y s j x. ground (arith, has_bytes-without y x (s.sets j));
  member-expire = λ k t s j x. refl;
  member-elapse = λ n s j x. ground arith;
  ttl-set = λ k v t s j. refl;
  ttl-del = λ k s j h. ground arith;
  ttl-sadd = λ k x s j h. refl;
  ttl-srem = λ k x s j h. refl;
  ttl-expire = λ k x t s j h. refl;
  matches = glob;
  scan = λ cursor pattern n s. (page pattern s.strings, 0);
  passed = λ cursor k. false;
  matches_star = λ a b m. glob_star a b m;
  passed_start = λ k. refl;
  scan_page = λ cursor pattern n s k live m h. inl (page_complete pattern k s.strings live m);
  ttl-elapse = λ n s j. refl;
}

abbrev pub empty_memory : Memory
empty_memory = record {
  strings = [];
  sets = λ _. [];
  times = λ _. none;
  buffers = λ _. [];
  counts = λ _. 0;
}

abbrev pub memory_lists : Lists memory
memory_lists = record {
  list_at = λ k s. s.buffers k;
  rpush = λ k x s. record s {
    buffers = λ j. if bytes_eq k j then s.buffers j ++ x ∷ [] else s.buffers j;
  };
  ltrim = λ k n s. record s {
    buffers = λ j. if bytes_eq k j then last_items n (s.buffers j) else s.buffers j;
  };
  list-rpush = λ k x s j. refl;
  list-ltrim = λ k n s j. refl;
  list-expire = λ k t s j. refl;
  list-set = λ k v t s j. refl;
  list-del = λ k s j. refl;
  list-elapse = λ n s j. refl;
  string-rpush = λ k x s j. refl;
  string-ltrim = λ k n s j. refl;
}

abbrev pub memory_counters : Counters memory
memory_counters = record {
  count_at = λ k s. s.counts k;
  incr = λ k s. record s { counts = λ j. if bytes_eq k j then suc (s.counts j) else s.counts j };
  count-incr = λ k s j. refl;
  count-set = λ k v t s j other. rw (other) refl;
  count-del = λ k s j. refl;
  count-expire = λ k t s j long. refl;
  ttl-expire = λ k t s j long there. refl;
  ttl-incr = λ k s j there. refl;
  string-incr = λ k s j other. refl;
}
