-- ===== src/Permission/ValkeyCache/Progress.antt =====
-- The loop over SCAN ends: where all calls are answered and the server's cursors come to an end.
use uncord_server.Prelude.{
  ℕ, zero, suc, ◌<◌, ◌≡◌, refl, ◌⊎◌, inl, inr, List, [], ◌∷◌, arith, Bool, true, false, Bytes, ◌==◌,
  Result, ok, err,
}
use uncord_server.Uuid.{UuidText}
use uncord_server.Valkey.{Valkey}
use uncord_server.Valkey.Call.{World, call-calm}
use uncord_server.Permission.Bitfield.{Bitfield}
use uncord_server.Permission.ValkeyCache.{
  scan_batch_size, delete_keys, delete_page, after_delete, after_page, scan_and_delete,
}

module _ (B : Bitfield) (V : Valkey) (T : UuidText) where
  open V use {State, del, scan, elapse}

  delete_page-calm :
      (ks : List Bytes) (w : World State)
      → w.schedule ≡ []
      → ((delete_page B V T ks w).0 ≡ ok tt) × ((delete_page B V T ks w).1.schedule ≡ [])
  unfolding delete_page
  delete_page-calm [] w e = (refl, e)
  delete_page-calm (k ∷ ks) w e =
      let (answered, calm) =
        call-calm {A = Unit {0}} elapse (λ s. (tt, delete_keys B V T (k ∷ ks) s)) w e in
      (rw answered refl, calm)

  after_delete-calm :
      (next_round : World State → Result (Unit {0}) × World State) (last : Bool)
      (r : Result (Unit {0})) (w : World State)
      → r ≡ ok tt
      → (last ≡ true) ⊎ ((next_round w).0 ≡ ok tt)
      → (after_delete B V T next_round last r w).0 ≡ ok tt
  unfolding after_delete
  after_delete-calm next_round last (err e) w deleted ends = absurd (ground arith)
  after_delete-calm next_round true (ok _) w deleted ends = refl
  after_delete-calm next_round false (ok _) w deleted (inl last) = absurd (ground arith)
  after_delete-calm next_round false (ok _) w deleted (inr runs) = runs

  after_page-calm :
      (next_round : ℕ → World State → Result (Unit {0}) × World State) (r : Result (List Bytes × ℕ))
      (keys : List Bytes) (next : ℕ) (w : World State)
      → w.schedule ≡ []
      → r ≡ ok (keys, next)
      → (next ≡ 0) ⊎ ((v : World State) → v.schedule ≡ [] → (next_round next v).0 ≡ ok tt)
      → (after_page B V T next_round r w).0 ≡ ok tt
  unfolding after_page after_delete
  after_page-calm next_round r keys next w calm got ends =
      let (deleted, still) = delete_page-calm keys w calm in
      rw (got, after_page)
        (after_delete-calm (next_round next) (next == 0) _ _ deleted
          (elim ends [ inl last ↦ inl (ground arith) | inr runs ↦ inr (runs _ still) ]))

  -- If the server's cursors come down to 0, by some rank that each page lowers, then with more fuel
  -- than the rank the loop reports success, provided that all calls are answered.
  pub scan_and_delete-answered :
      (rank : ℕ → ℕ)
      → ((cursor : ℕ) (pattern : Bytes) (n : ℕ) (s : State)
          → ((scan cursor pattern n s).1 ≡ 0) ⊎ (rank (scan cursor pattern n s).1 < rank cursor))
      → (fuel cursor : ℕ) (pattern : Bytes) (w : World State) → rank cursor < fuel
      → w.schedule ≡ []
      → (scan_and_delete B V T fuel cursor pattern w).0 ≡ ok tt
  unfolding scan_and_delete
  scan_and_delete-answered rank falls zero cursor pattern w enough calm = absurd (omega arith)
  scan_and_delete-answered rank falls (suc fuel) cursor pattern w enough calm =
      let (answered, still) =
        call-calm elapse (λ s. (scan cursor pattern scan_batch_size s, s)) w calm in
      after_page-calm (λ next v. scan_and_delete B V T fuel next pattern v) _ _ _ _ still answered
        (elim (falls cursor pattern scan_batch_size w.server) [
          | inl last ↦ inl last
          | inr lower ↦
              inr (λ v calm'.
                scan_and_delete-answered rank falls fuel _ pattern v (omega arith) calm')
        ])
