-- ===== src/Permission/ValkeyCache/Scan.antt =====
-- The loop over the pages of SCAN: where it ends without an error no matching key is left.
use uncord_server.Prelude.{
  ℕ, zero, suc, ◌≡◌, ◌≢◌, refl, sym, Bool, true, false, ◌==◌, ◌⊎◌, inl, inr, none, some, List, [],
  ◌∷◌, arith, Bytes, if◌then◌else◌, Bool-cases, Result, ok, err, context-eq-ok,
}
use uncord_server.Uuid.{UuidText}
use uncord_server.Valkey.{Valkey, has_bytes}
use uncord_server.Valkey.Call.{World, call, call_reply}
use uncord_server.Permission.Bitfield.{Bitfield}
use uncord_server.Permission.ValkeyCache.{
  delete_keys, delete_page, after_delete, after_page, scan_and_delete, scan_batch_size,
}

module _ (B : Bitfield) (V : Valkey) (T : UuidText) where
  open V use {State, string_at, del, scan, elapse, matches, passed}

  -- Nothing but what was there, and of that nothing that `P` rules out.
  abbrev pub Left : (Bytes → Type 0) → State → State → Type 0
  Left P s t = (k v : Bytes) → string_at k t ≡ some v → (string_at k s ≡ some v) × P k

  string-delete_keys :
      (ks : List Bytes) (s : State) (k : Bytes)
      → string_at k (delete_keys B V T ks s) ≡ (if has_bytes k ks then none else string_at k s)
  unfolding delete_keys
  string-delete_keys [] s k = refl
  string-delete_keys (x ∷ ks) s k =
      ground (arith, string-delete_keys ks (del x s) k, V.string-del x s k)

  pub elapse-Left : (P : Bytes → Type 0) (n : ℕ) (s t : State) → Left P s t → Left P s (elapse n t)
  elapse-Left P n s t h k v live = h k v (ground (arith, V.string-elapse n t k))

  -- After a page is deleted, none of its keys is there.
  delete_page-Left :
      (P : Bytes → Type 0) (ks : List Bytes) (s : State) (w : World State)
      → Left P s w.server
      → (delete_page B V T ks w).0 ≡ ok tt
      → Left (λ k. P k × (has_bytes k ks ≡ false)) s (delete_page B V T ks w).1.server
  unfolding delete_page
  delete_page-Left P [] s w h done = λ k v live. ((h k v live).0, ((h k v live).1, refl))
  delete_page-Left P (x ∷ ks) s w h done =
      let command : State → Unit {0} × State = λ s. (tt, delete_keys B V T (x ∷ ks) s) in
      let (t, left, _, after) =
        call_reply elapse command (Left P s) (λ n t. elapse-Left P n s t) w tt h
          (context-eq-ok "delete keys" (call elapse command w).0 done) in
      λ k v live.
        let strings = string-delete_keys (x ∷ ks) t k in
        let there : string_at k (delete_keys B V T (x ∷ ks) t) ≡ some v = rw (sym after) live in
        let (was, p) = left k v (ground (arith, strings, there)) in
        (was, (p, ground (arith, strings, there)))

  -- A matching key that is still there has not been passed.
  abbrev pub Ahead : Bytes → ℕ → Bytes → Type 0
  Ahead pattern cursor k = matches pattern k ≡ true → passed cursor k ≡ false

  abbrev OnPage : Bytes → List Bytes → ℕ → Bytes → Type 0
  OnPage pattern keys next k =
      matches pattern k ≡ true → (has_bytes k keys ≡ true) ⊎ ((next ≢ 0) × (passed next k ≡ false))

  page-Left :
      (pattern : Bytes) (cursor : ℕ) (s : State) (w : World State) (keys : List Bytes) (next : ℕ)
      → Left (Ahead pattern cursor) s w.server
      → (call elapse (λ s. (scan cursor pattern scan_batch_size s, s)) w).0 ≡ ok (keys, next)
      → Left
          (OnPage pattern keys next)
          s
          (call elapse (λ s. (scan cursor pattern scan_batch_size s, s)) w).1.server
  page-Left pattern cursor s w keys next h got =
      let (t, left, reply, after) =
        call_reply elapse (λ s. (scan cursor pattern scan_batch_size s, s))
          (Left (Ahead pattern cursor) s) (λ n t. elapse-Left (Ahead pattern cursor) n s t) w
          (keys, next) h got in
      λ k v live.
        let there : string_at k t ≡ some v = rw (sym after) live in
        let (was, ahead) = left k v there in
        (
          was,
          λ m. ground (
            arith,
            reply,
            ahead m,
            V.scan_page cursor pattern scan_batch_size t k (rw there refl) m,
          ),
        )

  abbrev pub Unmatched : Bytes → Bytes → Type 0
  Unmatched pattern k = matches pattern k ≡ false

  -- A page of which every key is deleted leaves keys ahead, or none at the end.
  deleted_page :
      (pattern : Bytes) (keys : List Bytes) (next : ℕ) (s t : State)
      → Left (λ k. OnPage pattern keys next k × (has_bytes k keys ≡ false)) s t
      → Left (λ k. (next ≡ 0 → Unmatched pattern k) × Ahead pattern next k) s t
  deleted_page pattern keys next s t h k v live =
      let (was, (page, out)) = h k v live in
      (
        was,
        (
          λ last. elim (Bool-cases (matches pattern k)) [
            | inl m ↦ absurd (ground (arith, page m, last))
            | inr other ↦ other
          ],
          λ m. ground (arith, page m),
        ),
      )

  after_delete-Left :
      (pattern : Bytes) (next : ℕ) (s : State)
      (next_round : World State → Result (Unit {0}) × World State) (r : Result (Unit {0}))
      (w : World State)
      → ((w : World State)
          → Left (Ahead pattern next) s w.server
          → (next_round w).0 ≡ ok tt
          → Left (Unmatched pattern) s (next_round w).1.server)
      → (r ≡ ok tt → Left (λ k. (next ≡ 0 → Unmatched pattern k) × Ahead pattern next k) s w.server)
      → (last : Bool) → (last ≡ (next == 0))
      → (after_delete B V T next_round last r w).0 ≡ ok tt
      → Left (Unmatched pattern) s (after_delete B V T next_round last r w).1.server
  unfolding after_delete
  after_delete-Left pattern next s next_round (err e) w rest h last is done = absurd (ground arith)
  after_delete-Left pattern next s next_round (ok tt) w rest h true is done =
      λ k v live. ((h refl k v live).0, (h refl k v live).1.0 (ground arith))
  after_delete-Left pattern next s next_round (ok tt) w rest h false is done =
      rest w (λ k v live. ((h refl k v live).0, (h refl k v live).1.1)) done

  after_page-Left :
      (pattern : Bytes) (s : State) (next_round : ℕ → World State → Result (Unit {0}) × World State)
      (r : Result (List Bytes × ℕ)) (w : World State)
      → ((next : ℕ) (w : World State)
          → Left (Ahead pattern next) s w.server
          → (next_round next w).0 ≡ ok tt
          → Left (Unmatched pattern) s (next_round next w).1.server)
      → ((keys : List Bytes) (next : ℕ)
          → r ≡ ok (keys, next)
          → Left (OnPage pattern keys next) s w.server)
      → (after_page B V T next_round r w).0 ≡ ok tt
      → Left (Unmatched pattern) s (after_page B V T next_round r w).1.server
  unfolding after_page
  after_page-Left pattern s next_round (err e) w rest h done = absurd (ground arith)
  after_page-Left pattern s next_round (ok (keys, next)) w rest h done =
      after_delete-Left pattern next s (next_round next) (delete_page B V T keys w).0
        (delete_page B V T keys w).1 (rest next)
        (λ deleted.
          deleted_page pattern keys next s _
            (delete_page-Left (OnPage pattern keys next) keys s w (h keys next refl) deleted))
        (next == 0) refl done

  -- Where the loop ends without an error, what is left was there before and does not match.
  pub scan_and_delete-Left :
      (fuel cursor : ℕ) (pattern : Bytes) (s : State) (w : World State)
      → Left (Ahead pattern cursor) s w.server
      → (scan_and_delete B V T fuel cursor pattern w).0 ≡ ok tt
      → Left (Unmatched pattern) s (scan_and_delete B V T fuel cursor pattern w).1.server
  unfolding scan_and_delete
  scan_and_delete-Left zero cursor pattern s w h done = absurd (ground arith)
  scan_and_delete-Left (suc fuel) cursor pattern s w h done =
      after_page-Left pattern s (λ next v. scan_and_delete B V T fuel next pattern v)
        (call elapse (λ s. (scan cursor pattern scan_batch_size s, s)) w).0
        (call elapse (λ s. (scan cursor pattern scan_batch_size s, s)) w).1
        (λ next w'. scan_and_delete-Left fuel next pattern s w')
        (λ keys next got. page-Left pattern cursor s w keys next h got) done
