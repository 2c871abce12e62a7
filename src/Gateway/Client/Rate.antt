-- ===== src/Gateway/Client/Rate.antt =====
-- The rate limit: how many messages a client gets through.
use uncord_server.Prelude.{
  ℕ, suc, ◌+◌, ◌-◌, ◌≤◌, ◌<◌, ◌≡◌, true, false, All, List, [], ◌∷◌, ltb, if◌then◌else◌, arith,
}
use uncord_server.Gateway.Client.{Client, rate_limited}

-- The number of messages at the given times that are let through, up to the first that is not, which
-- ends the connection.
unfoldable pub accepted : ℕ → ℕ → List ℕ → Client → ℕ
accepted count window [] c = 0
accepted count window (t ∷ ts) c =
    let (limited, c') = rate_limited count window t c in
    let rest = accepted count window ts c' in if limited then 0 else suc rest

accepted_rest :
    (count window : ℕ) (ts : List ℕ) (c : Client)
    → All (λ x. x ≤ c.window_start + window) ts
    → c.event_count ≤ count
    → accepted count window ts c + c.event_count ≤ count
unfolding accepted rate_limited
accepted_rest count window [] c same fits = omega arith
accepted_rest count window (t ∷ ts) c same fits =
    let here : Client = record c { event_count = suc c.event_count } in
    rw (within) (ground (arith, accepted_rest count window ts here same.1))
  where
    within : ltb window (t - c.window_start) ≡ false
    within = ground (arith, same.0)

-- From a message that opens a new window, at most `count` messages that arrive within that window are let
-- through.
pub accepted-bound :
    (count window t : ℕ) (ts : List ℕ) (c : Client)
    → window < t - c.window_start
    → All (λ x. x ≤ t + window) ts
    → accepted count window (t ∷ ts) c ≤ count
unfolding accepted rate_limited
accepted-bound count window t ts c opens same =
    let here : Client = record c { event_count = 1; window_start = t } in
    rw (fresh) (ground (arith, accepted_rest count window ts here same))
  where
    fresh : ltb window (t - c.window_start) ≡ true
    fresh = ground arith
