-- ===== src/Gateway/Hub/Registry.antt =====
-- The registry's invariant: each connection stands under its own, identified user, and there are no more
-- than the configured number.
use uncord_server.Prelude.{
  ℕ, suc, ◌+◌, ◌≤◌, ◌≡◌, refl, sym, subst, ◌∙◌, ap, Bool, true, not, inl, inr, Bool-cases, Option,
  none, some, List, [], ◌∷◌, ◌++◌, keep_if, length, length-append, lookup, put, contains, All,
  All-imp, leb, ◌==◌, ==_refl, if◌then◌else◌, arith,
}
use uncord_server.Uuid.{Uuid}
use uncord_server.Gateway.Client.{Client, close_send}
use uncord_server.Gateway.Hub.{
  HubDeps, or_empty, erase, total_clients, last_or, all_but_last, replace_by_last, swap_remove, Hub,
  on_client, connections, register, drop_client, save_on_disconnect, take_out, unregister,
}

-- Maps under `put` and `erase`.
module _ {V : Type 0} (P : ℕ × V → Type 0) where
  pub All-put : (k : ℕ) (v : V) (m : List (ℕ × V)) → All P m → P (k, v) → All P (put k v m)
  unfolding put
  All-put k v [] h new = (new, tt)
  All-put k v ((j, w) ∷ m) h new = elim (Bool-cases (j == k)) [
    | inl same ↦ rw (same) (new, h.1)
    | inr other ↦ rw (other) (h.0, All-put k v m h.1 new)
  ]

  pub All-keep_if : (p : ℕ × V → Bool) (m : List (ℕ × V)) → All P m → All P (keep_if p m)
  All-keep_if p [] h = tt
  All-keep_if p (e ∷ m) h = elim (Bool-cases (p e)) [
    | inl kept ↦ rw (kept) (h.0, All-keep_if p m h.1)
    | inr dropped ↦ rw (dropped) (All-keep_if p m h.1)
  ]

  pub All-erase : (k : ℕ) (m : List (ℕ × V)) → All P m → All P (erase k m)
  unfolding erase
  All-erase k m h = All-keep_if (λ e. not (e.0 == k)) m h

  pub All-lookup : (k : ℕ) (v : V) (m : List (ℕ × V)) → All P m → lookup k m ≡ some v → P (k, v)
  unfolding lookup
  All-lookup k v [] h e = absurd (ground arith)
  All-lookup k v ((j, w) ∷ m) h e = elim (Bool-cases (j == k)) [
    | inl same ↦ subst P (ground arith) h.0
    | inr other ↦ All-lookup k v m h.1 (ground arith)
  ]

total-put :
    (k : ℕ) (cs : List ℕ) (m : List (ℕ × List ℕ))
    → total_clients (put k cs m) + length (or_empty (lookup k m)) ≡ total_clients m + length cs
unfolding put lookup total_clients
total-put k cs [] = omega arith
total-put k cs ((j, v) ∷ m) = ground (arith, total-put k cs m)

total-erase : (k : ℕ) (m : List (ℕ × List ℕ)) → total_clients (erase k m) ≤ total_clients m
unfolding erase total_clients
total-erase k [] = omega arith
total-erase k ((j, v) ∷ m) = ground (arith, total-erase k m)

length-all_but_last : (x : ℕ) (xs : List ℕ) → length (all_but_last (x ∷ xs)) ≡ length xs
unfolding all_but_last
length-all_but_last x [] = refl
length-all_but_last x (y ∷ ys) = ap suc (length-all_but_last y ys)

length-replace_by_last : (xs : List ℕ) → length (replace_by_last xs) ≤ length xs
unfolding replace_by_last
length-replace_by_last [] = omega arith
length-replace_by_last (y ∷ ys) = omega (arith, length-all_but_last y ys)

pub length-swap_remove : (i : ℕ) (xs : List ℕ) → length (swap_remove i xs) ≤ length xs
unfolding swap_remove
length-swap_remove i [] = omega arith
length-swap_remove i (x ∷ xs) = ground (arith, length-swap_remove i xs, length-replace_by_last xs)

module _ (P : ℕ → Type 0) where
  All-last_or : (x : ℕ) (xs : List ℕ) → P x → All P xs → P (last_or x xs)
  unfolding last_or
  All-last_or x [] h hs = h
  All-last_or x (y ∷ ys) h hs = All-last_or y ys hs.0 hs.1

  All-all_but_last : (xs : List ℕ) → All P xs → All P (all_but_last xs)
  unfolding all_but_last
  All-all_but_last [] h = tt
  All-all_but_last (x ∷ []) h = tt
  All-all_but_last (x ∷ (y ∷ ys)) h = (h.0, All-all_but_last (y ∷ ys) h.1)

  All-replace_by_last : (xs : List ℕ) → All P xs → All P (replace_by_last xs)
  unfolding replace_by_last
  All-replace_by_last [] h = tt
  All-replace_by_last (y ∷ ys) h = (All-last_or y ys h.0 h.1, All-all_but_last (y ∷ ys) h)

  pub All-swap_remove : (i : ℕ) (xs : List ℕ) → All P xs → All P (swap_remove i xs)
  unfolding swap_remove
  All-swap_remove i [] h = tt
  All-swap_remove i (x ∷ xs) h = elim (Bool-cases (x == i)) [
    | inl here ↦ rw (here) (All-replace_by_last xs h.1)
    | inr later ↦ rw (later) (h.0, All-swap_remove i xs h.1)
  ]

  pub All-append : (xs : List ℕ) (y : ℕ) → All P xs → P y → All P (xs ++ y ∷ [])
  All-append [] y h hy = (hy, tt)
  All-append (x ∷ xs) y h hy = (h.0, All-append xs y h.1 hy)

-- The connection is one of an identified user.
abbrev pub Owns : (ℕ → Client) → Uuid → ℕ → Type 0
Owns table u i = ((table i).user_id ≡ u) × ((table i).identified ≡ true)

abbrev pub Owned : (ℕ → Client) → Uuid × List ℕ → Type 0
Owned table e = All (Owns table e.0) e.1

-- A step on a client that keeps who it is.
abbrev pub SameWho : Client → Client → Type 0
SameWho c c' = (c'.user_id ≡ c.user_id) × (c'.identified ≡ c.identified)

module _ (D : HubDeps) where
  pub record IsRegistry (h : Hub D) : Type 0 where
    pub owned : All (Owned h.table) h.clients
    pub bounded : total_clients h.clients ≤ D.gateway_max_connections

  pub connections-Owned :
      (u : Uuid) (h : Hub D) → IsRegistry h → All (Owns h.table u) (connections D u h)
  connections-Owned u h reg = found (lookup u h.clients) refl
    where
      found : (o : Option (List ℕ)) → lookup u h.clients ≡ o → All (Owns h.table u) (or_empty o)
      found none e = tt
      found (some cs) e = All-lookup (Owned h.table) u cs h.clients reg.owned e

  pub retable :
      (h : Hub D) (table : ℕ → Client)
      → IsRegistry h
      → ((i : ℕ) → (h.table i).identified ≡ true → SameWho (h.table i) (table i))
      → All (Owned table) h.clients
  retable h table reg same =
      All-imp h.clients (λ e. All-imp e.1 (λ i w. ((same i w.1).0 ∙ w.0, (same i w.1).1 ∙ w.1)))
        reg.owned

  pub on_client-IsRegistry :
      (i : ℕ) (f : Client → Client) (h : Hub D)
      → IsRegistry h
      → ((h.table i).identified ≡ true → SameWho (h.table i) (f (h.table i)))
      → IsRegistry (on_client D i f h)
  unfolding on_client
  on_client-IsRegistry i f h reg same = record {
    owned = retable h (λ j. if j == i then f (h.table i) else h.table j) reg each;
    bounded = reg.bounded;
  }
    where
      each :
          (j : ℕ)
          → (h.table j).identified ≡ true
          → SameWho (h.table j) (if j == i then f (h.table i) else h.table j)
      each j known = elim (Bool-cases (j == i)) [
        | inl here ↦
            let is : j ≡ i = ground arith in
            rw (is, ==_refl i) (same (ap (λ k. (h.table k).identified) (sym is) ∙ known))
        | inr other ↦ rw (other) (refl, refl)
      ]

  pub register-IsRegistry :
      (i : ℕ) (h : Hub D)
      → (h.table i).identified ≡ true
      → IsRegistry h
      → IsRegistry (register D i h).1
  unfolding register
  register-IsRegistry i h known reg =
      elim (Bool-cases (leb D.gateway_max_connections (total_clients h.clients))) [
        | inl full ↦ rw (full, register) reg
        | inr room ↦
            rw (room, register)
              (record {
                owned =
                    All-put (Owned h.table) (h.table i).user_id
                      (connections D (h.table i).user_id h ++ i ∷ []) h.clients reg.owned
                      (All-append (Owns h.table (h.table i).user_id) _ i
                        (connections-Owned (h.table i).user_id h reg) (refl, known));
                bounded = ground (
                  arith,
                  total-put (h.table i).user_id (connections D (h.table i).user_id h ++ i ∷ [])
                      h.clients,
                  length-append (connections D (h.table i).user_id h) (i ∷ []),
                );
              })
      ]

  drop_client-IsRegistry :
      (u : Uuid) (cs : List ℕ) (h : Hub D)
      → All (Owns h.table u) cs
      → length cs ≤ length (connections D u h)
      → IsRegistry h
      → IsRegistry (drop_client D u cs h)
  unfolding drop_client
  drop_client-IsRegistry u [] h own fewer reg = record {
    owned = All-erase (Owned h.table) u h.clients reg.owned;
    bounded = omega (arith, total-erase u h.clients, reg.bounded);
  }
  drop_client-IsRegistry u (x ∷ xs) h own fewer reg = record {
    owned = All-put (Owned h.table) u (x ∷ xs) h.clients reg.owned own;
    bounded = omega (arith, total-put u (x ∷ xs) h.clients, fewer, reg.bounded);
  }

  save_on_disconnect-IsRegistry :
      (i now : ℕ) (remaining : List ℕ) (h : Hub D)
      → IsRegistry h
      → IsRegistry (save_on_disconnect D i now remaining h)
  unfolding save_on_disconnect
  save_on_disconnect-IsRegistry i now [] h reg = record { owned = reg.owned; bounded = reg.bounded }
  save_on_disconnect-IsRegistry i now (x ∷ xs) h reg = record {
    owned = reg.owned;
    bounded = reg.bounded;
  }

  closes : (c : Client) → SameWho c (close_send c)
  unfolding close_send
  closes c = (refl, refl)

  pub unregister-IsRegistry :
      (i now : ℕ) (h : Hub D) → IsRegistry h → IsRegistry (unregister D i now h)
  unfolding unregister take_out
  unregister-IsRegistry i now h reg =
      let u = (h.table i).user_id in
      let cs = connections D u h in
      let rest = swap_remove i cs in
      let taken : IsRegistry (on_client D i close_send (drop_client D u rest h)) =
        on_client-IsRegistry i close_send (drop_client D u rest h)
          (drop_client-IsRegistry u rest h
            (All-swap_remove (Owns h.table u) i cs (connections-Owned u h reg))
            (length-swap_remove i cs) reg)
          (λ _. closes ((drop_client D u rest h).table i)) in
      elim (Bool-cases (contains i cs)) [
        | inr absent ↦ rw (absent) reg
        | inl present ↦ elim (Bool-cases (h.table i).identified) [
          | inl known ↦ rw (present, known) (save_on_disconnect-IsRegistry i now rest _ taken)
          | inr unknown ↦ rw (present, unknown) taken
        ]
      ]
