-- ===== src/Gateway/Hub/Delivery.antt =====
-- Whom an event reaches.
use uncord_server.Prelude.{
  ℕ, ◌≡◌, ◌≢◌, refl, sym, subst, ◌∙◌, ap, Bool, true, false, ◌⊎◌, inl, inr, Bool-cases, Option,
  none, some, Option-cases, List, [], ◌∷◌, ◌++◌, lookup, put, lookup-put, contains, All, All-imp,
  Bytes, ◌==◌, if◌then◌else◌, Result-cases, ok, arith,
}
use uncord_server.Uuid.{Uuid}
use uncord_server.Json.{Document}
use uncord_server.Valkey.Call.{World}
use uncord_server.Permission.Resolver.{server_perm_key, compute, has_permission}
use uncord_server.Permission.Resolver.Coherence.{Coherent, resolve-eq-compute}
use uncord_server.Permission.Middleware.Access.{has_permission-true}
use uncord_server.Permission.ValkeyCache.Laws.{valkey_cache}
use uncord_server.Permission.ValkeyCache.Refines.{valkey_cache-IsCache}
use uncord_server.Gateway.Frame.{ephemeral}
use uncord_server.Gateway.Client.{Client, enqueue}
use uncord_server.Gateway.Hub.{HubDeps, Hub, on_client}
use uncord_server.Gateway.Hub.Registry.{Owns, Owned, IsRegistry}
use uncord_server.Gateway.Hub.Connect.{send_dispatch}
use uncord_server.Gateway.Hub.Dispatch.{
  Envelope, ephemeral_event, channel_text, parse_scope, identified_of, is_target, targets_of,
  permitted, on_clients, deliver_one, deliver_all, deliver, filter_scope, handle_event,
}

All-concat : (P : ℕ → Type 0) (xs ys : List ℕ) → All P xs → All P ys → All P (xs ++ ys)
All-concat P [] ys h k = k
All-concat P (x ∷ xs) ys h k = (h.0, All-concat P xs ys h.1 k)

-- The client is identified, and its user is among the targets, where there are any.
abbrev pub Targeted : (ℕ → Client) → List Uuid → ℕ → Type 0
Targeted table targets i =
    ((table i).identified ≡ true) × (is_target targets (table i).user_id ≡ true)

identified_of-All :
    (table : ℕ → Client) (targets : List Uuid) (u : Uuid) (cs : List ℕ)
    → All (Owns table u) cs
    → is_target targets u ≡ true
    → All (Targeted table targets) (identified_of table cs)
unfolding identified_of
identified_of-All table targets u [] own fits = tt
identified_of-All table targets u (i ∷ is) own fits = elim (Bool-cases (table i).identified) [
  | inl known ↦ rw (known) (
    (known, ap (is_target targets) own.0.0 ∙ fits),
    identified_of-All table targets u is own.1 fits,
  )
  | inr unknown ↦ rw (unknown) (identified_of-All table targets u is own.1 fits)
]

targets_of-All :
    (table : ℕ → Client) (targets : List Uuid) (m : List (Uuid × List ℕ))
    → All (Owned table) m
    → All (Targeted table targets) (targets_of table targets m)
unfolding targets_of
targets_of-All table targets [] own = tt
targets_of-All table targets ((u, cs) ∷ m) own = elim (Bool-cases (is_target targets u)) [
  | inl fits ↦ rw (fits) (
      All-concat (Targeted table targets) (identified_of table cs) (targets_of table targets m)
        (identified_of-All table targets u cs own.0 fits) (targets_of-All table targets m own.1))
  | inr not_for ↦ rw (not_for) (targets_of-All table targets m own.1)
]

module _ (D : HubDeps) where
  open D use {valkey, uuid_text, bitfield, store, scan_fuel}

  -- The computed permissions let the user view the channel.
  abbrev pub MayView : Uuid → Uuid → Type 0
  MayView c u =
      (p : bitfield.Permission) × (compute bitfield store u c ≡ ok p)
      × (bitfield.has p bitfield.view_channels ≡ true)

  -- Every cached permission is what the computation gives.
  abbrev pub HasCoherentCache : World valkey.State → Type 0
  HasCoherentCache w = Coherent bitfield store (valkey_cache bitfield valkey uuid_text scan_fuel) w

  has_permission-HasCoherentCache :
      (u c : Uuid) (w : World valkey.State)
      → c ≢ server_perm_key
      → HasCoherentCache w
      → HasCoherentCache
          (has_permission bitfield store
            (valkey_cache bitfield valkey uuid_text scan_fuel)
            u
            c
            bitfield.view_channels
            w).1
  unfolding has_permission
  has_permission-HasCoherentCache u c w real co =
      (resolve-eq-compute bitfield store (valkey_cache bitfield valkey uuid_text scan_fuel)
        (valkey_cache-IsCache bitfield valkey uuid_text scan_fuel) u c w real co).1

  -- The answers so far.
  abbrev Answered : Uuid → List (Uuid × Bool) → Type 0
  Answered c cached = (u : Uuid) → lookup u cached ≡ some true → MayView c u

  Answered-put :
      (c u : Uuid) (allowed : Bool) (cached : List (Uuid × Bool))
      → Answered c cached
      → (allowed ≡ true → MayView c u)
      → Answered c (put u allowed cached)
  Answered-put c u allowed cached known new v e = elim (Bool-cases (u == v)) [
    | inl same ↦
        subst (MayView c) (ground arith)
          (new (ground (arith, sym (lookup-put u v allowed cached) ∙ e)))
    | inr other ↦ known v (ground (arith, sym (lookup-put u v allowed cached) ∙ e))
  ]

  kept_if :
      (P : ℕ → Type 0) (allowed : Bool) (i : ℕ) (rest : List ℕ)
      → (allowed ≡ true → P i)
      → All P rest
      → All P (if allowed then i ∷ rest else rest)
  kept_if P true i rest h hs = (h refl, hs)
  kept_if P false i rest h hs = hs

  permitted-All :
      (P : ℕ → Type 0) (table : ℕ → Client) (c : Uuid) (cached : List (Uuid × Bool)) (is : List ℕ)
      (w : World valkey.State)
      → c ≢ server_perm_key
      → HasCoherentCache w
      → Answered c cached
      → All P is
      → All (λ i. P i × MayView c (table i).user_id) (permitted D table c cached is w).0
  unfolding permitted
  permitted-All P table c cached [] w real co known h = tt
  permitted-All P table c cached (i ∷ is) w real co known h =
      let u = (table i).user_id in
      let checked =
        has_permission bitfield store (valkey_cache bitfield valkey uuid_text scan_fuel) u c
          bitfield.view_channels w in
      let co' = has_permission-HasCoherentCache u c w real co in
      let granted : checked.0 ≡ ok true → MayView c u = λ e.
        has_permission-true bitfield store (valkey_cache bitfield valkey uuid_text scan_fuel)
          (valkey_cache-IsCache bitfield valkey uuid_text scan_fuel) uuid_text u c
          bitfield.view_channels w real co e in
      elim (Option-cases (lookup u cached)) [
        | inr (allowed, e) ↦
            rw (e, permitted)
              (kept_if (λ k. P k × MayView c (table k).user_id) allowed i _
                (λ fits. (h.0, known u (e ∙ ap some fits)))
                (permitted-All P table c cached is w real co known h.1))
        | inl new ↦ elim (Result-cases checked.0) [
          | inr (x, e) ↦
              rw (new, e, permitted)
                (permitted-All P table c cached is checked.1 real co' known h.1)
          | inl (allowed, e) ↦
              let fits : allowed ≡ true → MayView c u = λ is_true. granted (e ∙ ap ok is_true) in
              rw (new, e, permitted)
                (kept_if (λ k. P k × MayView c (table k).user_id) allowed i _ (λ t. (h.0, fits t))
                  (permitted-All P table c (put u allowed cached) is checked.1 real co'
                    (Answered-put c u allowed cached known fits) h.1))
        ]
      ]

  -- Who may get an event: a target, where it has targets; else, where it is of a channel, whoever may
  -- view that; else everybody.
  pub MayReceive : List Uuid → Option Uuid → Uuid → Type 0
  MayReceive (t ∷ ts) scope u = contains u (t ∷ ts) ≡ true
  MayReceive [] (some c) u = MayView c u
  MayReceive [] none u = Unit

  Receiver : (ℕ → Client) → List Uuid → Option Uuid → ℕ → Type 0
  Receiver table targets scope i =
      ((table i).identified ≡ true) × MayReceive targets scope (table i).user_id

  filter_scope-All :
      (scope : Option Uuid) (targets : List Uuid) (is : List ℕ) (h : Hub D)
      → HasCoherentCache h.world
      → ((c : Uuid) → scope ≡ some c → c ≢ server_perm_key)
      → All (Targeted h.table targets) is
      → All (Receiver h.table targets scope) (filter_scope D scope targets is h).0
  unfolding filter_scope Receiver MayReceive is_target lookup
  filter_scope-All none [] is h co real all = All-imp is (λ i t. (t.0, tt)) all
  filter_scope-All none (t ∷ ts) is h co real all = all
  filter_scope-All (some c) (t ∷ ts) is h co real all = all
  filter_scope-All (some c) [] is h co real all =
      All-imp (permitted D h.table c [] is h.world).0 (λ i t. (t.0.0, t.1))
        (permitted-All (Targeted h.table []) h.table c [] is h.world (real c refl) co
          (λ u. empty_answer u) all)
    where
      empty_answer : (u : Uuid) → lookup u [] ≡ some true → MayView c u
      empty_answer u e = absurd (ground arith)

  untouched :
      (P : ℕ → Type 0) (i : ℕ) (f : Client → Client) (h : Hub D) (j : ℕ)
      → P i
      → ((on_client D i f h).table j ≡ h.table j) ⊎ P j
  unfolding on_client
  untouched P i f h j hi = elim (Bool-cases (j == i)) [
    | inl same ↦ inr (subst P (ground arith) hi)
    | inr other ↦ inl (rw (other) refl)
  ]

  first_or :
      (P : ℕ → Type 0) (j : ℕ) (a b c : Client) → (b ≡ a) ⊎ P j → (c ≡ b) ⊎ P j → (c ≡ a) ⊎ P j
  first_or P j a b c (inr p) k = inr p
  first_or P j a b c (inl e) (inr p) = inr p
  first_or P j a b c (inl e) (inl f) = inl (f ∙ e)

  on_clients-reaches :
      (P : ℕ → Type 0) (f : Client → Client) (is : List ℕ) (h : Hub D) (j : ℕ)
      → All P is
      → ((on_clients D f is h).table j ≡ h.table j) ⊎ P j
  unfolding on_clients
  on_clients-reaches P f [] h j all = inl refl
  on_clients-reaches P f (i ∷ is) h j all =
      first_or P j _ _ _ (untouched P i f h j all.0)
        (on_clients-reaches P f is (on_client D i f h) j all.1)

  deliver_all-reaches :
      (P : ℕ → Type 0) (event : Bytes) (payload : Document) (is : List ℕ) (h : Hub D) (j : ℕ)
      → All P is
      → ((deliver_all D event payload is h).table j ≡ h.table j) ⊎ P j
  unfolding deliver_all deliver_one
  deliver_all-reaches P event payload [] h j all = inl refl
  deliver_all-reaches P event payload (i ∷ is) h j all =
      first_or P j _ _ _ (untouched P i (send_dispatch event payload) h j all.0)
        (deliver_all-reaches P event payload is (deliver_one D event payload i h) j all.1)

  deliver-reaches :
      (P : ℕ → Type 0) (env : Envelope) (is : List ℕ) (h : Hub D) (j : ℕ)
      → All P is
      → ((deliver D env is h).table j ≡ h.table j) ⊎ P j
  unfolding deliver
  deliver-reaches P env is h j all = elim (Bool-cases (ephemeral_event env.event)) [
    | inl short ↦
        rw (short) (on_clients-reaches P (enqueue (ephemeral env.event env.payload)) is h j all)
    | inr lasting ↦ rw (lasting) (deliver_all-reaches P env.event env.payload is h j all)
  ]

  -- With the registry's invariant and a coherent permission cache, an event leaves a client as it is, or
  -- the client is identified and its user may get the event: it is one of the targets, where there are
  -- any; else, for an event of a channel, its computed permissions let it view the channel. The channel
  -- is not the zero UUID.
  pub handle_event-MayReceive :
      (env : Envelope) (h : Hub D) (j : ℕ)
      → IsRegistry D h
      → HasCoherentCache h.world
      → ((c : Uuid)
          → parse_scope uuid_text (channel_text env.payload) ≡ some c
          → c ≢ server_perm_key)
      → ((handle_event D env h).table j ≡ h.table j)
        ⊎ (((h.table j).identified ≡ true)
            × MayReceive env.targets
                (parse_scope uuid_text (channel_text env.payload))
                (h.table j).user_id)
  unfolding handle_event Receiver
  handle_event-MayReceive env h j reg co real =
      let chosen = targets_of h.table env.targets h.clients in
      let scope = parse_scope uuid_text (channel_text env.payload) in
      let filtered = filter_scope D scope env.targets chosen h in
      deliver-reaches (Receiver h.table env.targets scope) env filtered.0
        (record h { world = filtered.1 }) j
        (filter_scope-All scope env.targets chosen h co real
          (targets_of-All h.table env.targets h.clients reg.owned))
