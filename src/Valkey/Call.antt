-- ===== src/Valkey/Call.antt =====
-- A call of the client: the command may not reach the server, and the reply may not come back.
use uncord_server.Prelude.{
  ℕ, ◌≡◌, refl, ◌⊎◌, inl, inr, List, [], ◌∷◌, Result, ok, err, failed, arith,
}

pub data Link : Type 0 where
  answered lost_request lost_reply : Link

-- What happens at the next call: the seconds that have passed, and the fate of the call.
pub record Weather : Type 0 where
  pub elapsed : ℕ
  pub link : Link

-- The server's state, and what will happen at the calls to come; after the list all calls are
-- answered at once.
pub record World (S : Type 0) : Type 0 where
  pub server : S
  pub schedule : List Weather

-- Nothing has happened to the server since a state but that time has passed.
pub data OnlyTime {S : Type 0} (elapse : ℕ → S → S) (start : S) : S → Type 0 where
  at_once : OnlyTime elapse start start
  after : (n : ℕ) (s : S) → OnlyTime elapse start s → OnlyTime elapse start (elapse n s)

module _ {S A : Type 0} (elapse : ℕ → S → S) (command : S → A × S) where
  abbrev pub deliver : Link → S → List Weather → Result A × World S
  deliver answered s ws = let (a, s') = command s in (ok a, record { server = s'; schedule = ws })
  deliver lost_request s ws = (err failed, record { server = s; schedule = ws })
  deliver lost_reply s ws =
      let (_, s') = command s in (err failed, record { server = s'; schedule = ws })

  abbrev pub call_at : List Weather → S → Result A × World S
  call_at [] s = deliver answered s []
  call_at (w ∷ ws) s = deliver w.link (elapse w.elapsed s) ws

  unfoldable pub call : World S → Result A × World S
  call w = call_at w.schedule w.server

  -- After a call the server is as it was when the call began, some time later, or that with the
  -- command run. A reply is the command's.
  pub data Called (w : World S) (r : Result A × World S) : Type 0 where
    ran :
        (n : ℕ)
        → r.1.server ≡ (command (elapse n w.server)).1
        → (r.0 ≡ ok (command (elapse n w.server)).0) ⊎ (r.0 ≡ err failed)
        → Called w r
    ran_now : r.1.server ≡ (command w.server).1 → r.0 ≡ ok (command w.server).0 → Called w r
    not_run : (n : ℕ) → r.1.server ≡ elapse n w.server → r.0 ≡ err failed → Called w r

  Called-deliver :
      (l : Link) (n : ℕ) (s : S) (old : World S) (ws : List Weather)
      → old.server ≡ s
      → Called old (deliver l (elapse n s) ws)
  Called-deliver answered n s old ws e = ran n (rw e) (inl (rw e))
  Called-deliver lost_request n s old ws e = not_run n (rw e) refl
  Called-deliver lost_reply n s old ws e = ran n (rw e) (inr refl)

  Called-call_at :
      (ws : List Weather) (s : S) (old : World S) → old.server ≡ s → Called old (call_at ws s)
  Called-call_at [] s old e = ran_now (rw e) (rw e)
  Called-call_at (w ∷ ws) s old e = Called-deliver w.link w.elapsed s old ws e

  pub Called-call : (w : World S) → Called w (call w)
  unfolding call
  Called-call w = Called-call_at w.schedule w.server w refl

  -- What time and the command keep, a call keeps.
  pub call_keeps :
      (P : S → Type 0)
      → ((n : ℕ) (s : S) → P s → P (elapse n s))
      → ((s : S) → P s → P (command s).1)
      → (w : World S) → P w.server
      → P (call w).1.server
  call_keeps P time step w h = keeps (call w) (Called-call w)
    where
      keeps : (r : Result A × World S) → Called w r → P r.1.server
      keeps r (ran n e _) = rw e (step _ (time n _ h))
      keeps r (ran_now e _) = rw e (step _ h)
      keeps r (not_run n e _) = rw e (time n _ h)

  -- A reply is that of the command, run in some state that `P` holds of, and left by it.
  pub call_reply :
      (P : S → Type 0)
      → ((n : ℕ) (s : S) → P s → P (elapse n s))
      → (w : World S) (a : A) → P w.server
      → (call w).0 ≡ ok a
      → (s : S) × P s × ((command s).0 ≡ a) × ((call w).1.server ≡ (command s).1)
  call_reply P time w a h got = reply (call w) (Called-call w) got
    where
      reply :
          (r : Result A × World S)
          → Called w r
          → r.0 ≡ ok a
          → (s : S) × P s × ((command s).0 ≡ a) × (r.1.server ≡ (command s).1)
      reply r (ran n e (inl f)) g = (elapse n w.server, time n w.server h, ground (arith), e)
      reply r (ran n e (inr f)) g = absurd (ground arith)
      reply r (ran_now e f) g = (w.server, h, ground arith, e)
      reply r (not_run n e f) g = absurd (ground arith)

  -- A call is answered by the command, or fails.
  pub call_outcome :
      (P : S → Type 0)
      → ((n : ℕ) (s : S) → P s → P (elapse n s))
      → (w : World S) → P w.server
      → ((s : S) × P s × ((call w).0 ≡ ok (command s).0)) ⊎ ((call w).0 ≡ err failed)
  call_outcome P time w h = outcome (call w) (Called-call w)
    where
      outcome :
          (r : Result A × World S)
          → Called w r
          → ((s : S) × P s × (r.0 ≡ ok (command s).0)) ⊎ (r.0 ≡ err failed)
      outcome r (ran n e (inl f)) = inl (elapse n w.server, time n w.server h, f)
      outcome r (ran n e (inr f)) = inr f
      outcome r (ran_now e f) = inl (w.server, h, f)
      outcome r (not_run n e f) = inr f

  -- The reply where the next call is answered after `n` seconds.
  pub call-answered :
      (w : World S) (n : ℕ) (ws : List Weather)
      → w.schedule ≡ record { elapsed = n; link = answered } ∷ ws
      → (call w).0 ≡ ok (command (elapse n w.server)).0
  unfolding call
  call-answered w n ws e = rw (e, call_at)

  -- With no trouble ahead the call is answered, and there is none after it.
  pub call-calm :
      (w : World S)
      → w.schedule ≡ []
      → ((call w).0 ≡ ok (command w.server).0) × ((call w).1.schedule ≡ [])
  unfolding call
  call-calm w e = rw (e, call_at) (refl, refl)
