-- ===== src/Model/Order/Best.antt =====
-- crates/cng-core/src/model.rs: the order of `sort_candidates`, and what comes first.
use codex_no.Model.Order.{
  Precedes, LatencyLe, LatencyLe, Precedes, head-rank-le, ordered_lem, IsOrdered, IsTie,
}
use mathlib.Core.List.{Perm}
use codex_no.Base.{
  false, not, ◌<◌, ◌<◌, false, not, ◌≢◌, ◌≤◌, ◌≡◌, refl, Bool, true, List, [], ◌∷◌, arith, ◌⊎◌, inl,
  inr, keep_if, All,
}
use codex_no.Url.{UrlLib}
use codex_no.Model.{
  manual, system_pac, system_proxy, environment, known_loopback, CandidateSource, priority, unknown,
  is_healthy, priority, is_healthy, CandidateSource, down, healthy, HealthState, rank,
}
use codex_no.Model.Health.{CandidateHealth, sort_candidates}

-- The states and the sources, the better before the worse, as docs/architecture.md orders them.
unfoldable pub is_better_state : HealthState → HealthState → Bool
is_better_state healthy t = not (is_healthy t)
is_better_state HealthState.degraded unknown = true
is_better_state HealthState.degraded down = true
is_better_state unknown down = true
is_better_state _ _ = false

unfoldable pub is_better_source : CandidateSource → CandidateSource → Bool
is_better_source manual manual = false
is_better_source manual _ = true
is_better_source system_pac system_proxy = true
is_better_source system_pac environment = true
is_better_source system_pac known_loopback = true
is_better_source system_proxy environment = true
is_better_source system_proxy known_loopback = true
is_better_source environment known_loopback = true
is_better_source _ _ = false

rank-is_better : (s t : HealthState) → rank s < rank t → is_better_state s t ≡ true
unfolding rank is_better_state is_healthy
rank-is_better s t h = ground arith

rank_injective : (s t : HealthState) → rank s ≡ rank t → s ≡ t
unfolding rank
rank_injective s t h = ground arith

priority-is_better : (c d : CandidateSource) → priority c < priority d → is_better_source c d ≡ true
unfolding priority is_better_source
priority-is_better c d h = ground arith

priority_injective : (c d : CandidateSource) → priority c ≡ priority d → c ≡ d
unfolding priority
priority_injective c d h = ground arith

module _ (U : UrlLib) where
  -- The better state first; then the better source; then the smaller latency, a measured one first.
  abbrev pub Comes : CandidateHealth U → CandidateHealth U → Type 0
  Comes a b =
      (is_better_state a.state b.state ≡ true)
      ⊎ ((a.state ≡ b.state)
          × ((is_better_source a.candidate.source b.candidate.source ≡ true)
              ⊎ ((a.candidate.source ≡ b.candidate.source) × LatencyLe a.latency_ms b.latency_ms)))

  -- Every earlier element comes before every later one.
  abbrev pub Descends : List (CandidateHealth U) → Type 0
  Descends [] = Unit
  Descends (x ∷ xs) = All (λ y. Comes x y) xs × Descends xs

  Precedes-Comes : (a b : CandidateHealth U) → Precedes U a b → Comes a b
  Precedes-Comes a b (inl r) = inl (rank-is_better a.state b.state r)
  Precedes-Comes a b (inr (r, inl p)) =
      inr (rank_injective a.state b.state r, inl (priority-is_better _ _ p))
  Precedes-Comes a b (inr (r, inr (p, l))) =
      inr (rank_injective a.state b.state r, inr (priority_injective _ _ p, l))

  All-Comes :
      (x : CandidateHealth U) (ys : List (CandidateHealth U))
      → All (λ y. Precedes U x y) ys
      → All (λ y. Comes x y) ys
  All-Comes x [] h = tt
  All-Comes x (y ∷ ys) (p, h) = (Precedes-Comes x y p, All-Comes x ys h)

  IsOrdered-Descends : (xs : List (CandidateHealth U)) → IsOrdered U xs → Descends xs
  IsOrdered-Descends [] h = tt
  IsOrdered-Descends (x ∷ xs) (below, h) = (All-Comes x xs below, IsOrdered-Descends xs h)

  state_of_rank : (s t : HealthState) → rank s ≤ rank t → (s ≡ healthy) ⊎ (t ≢ healthy)
  unfolding rank
  state_of_rank s t h = ground arith

  down_of_rank : (s t : HealthState) → rank s ≤ rank t → (s ≢ down) ⊎ (t ≡ down)
  unfolding rank
  down_of_rank s t h = ground arith

  best_healthy :
      (best : CandidateHealth U) (cs : List (CandidateHealth U))
      → All (λ c. rank best.state ≤ rank c.state) cs
      → (best.state ≡ healthy) ⊎ All (λ c. c.state ≢ healthy) cs
  best_healthy best [] h = inr tt
  best_healthy best (c ∷ cs) (p, h) = elim (state_of_rank best.state c.state p) [
    | inl e ↦ inl e
    | inr n ↦ elim (best_healthy best cs h) [ inl e ↦ inl e | inr k ↦ inr (n, k) ]
  ]

  best_down :
      (best : CandidateHealth U) (cs : List (CandidateHealth U))
      → All (λ c. rank best.state ≤ rank c.state) cs
      → (best.state ≢ down) ⊎ All (λ c. c.state ≡ down) cs
  best_down best [] h = inr tt
  best_down best (c ∷ cs) (p, h) = elim (down_of_rank best.state c.state p) [
    | inl e ↦ inl e
    | inr n ↦ elim (best_down best cs h) [ inl e ↦ inl e | inr k ↦ inr (n, k) ]
  ]

  sort_candidates-best_first :
      (cs rest : List (CandidateHealth U)) (best : CandidateHealth U)
      → sort_candidates U cs ≡ best ∷ rest
      → ((best.state ≡ healthy) ⊎ All (λ c. c.state ≢ healthy) cs)
        × ((best.state ≢ down) ⊎ All (λ c. c.state ≡ down) cs)
  sort_candidates-best_first cs rest best e =
      let below = head-rank-le U cs rest best e in
      (best_healthy best cs below, best_down best cs below)

  -- The first of the sorted candidates is healthy unless none is, and it is not down unless all are.
  abbrev pub StartsBest : List (CandidateHealth U) → List (CandidateHealth U) → Type 0
  StartsBest cs [] = Unit
  StartsBest cs (best ∷ rest) =
      ((best.state ≡ healthy) ⊎ All (λ c. c.state ≢ healthy) cs)
      × ((best.state ≢ down) ⊎ All (λ c. c.state ≡ down) cs)

  -- `sort_candidates` returns the same candidates in the order healthy, degraded, unknown, down; among
  -- equal states in the order manual, PAC, system proxy, environment, known loopback; among equal
  -- sources by latency, those that have none last; and the members
  -- of a class of candidates that all tie with one another keep the order in which they came. The first
  -- of them is healthy unless none is, and it is usable, which means not down, unless all are down.
  pub sort_candidates-IsOrdered :
      (cs : List (CandidateHealth U)) (cls : CandidateHealth U → Bool)
      → ((a b : CandidateHealth U) → cls a ≡ true → cls b ≡ true → IsTie U a b)
      → Perm (sort_candidates U cs) cs
        × Descends (sort_candidates U cs)
        × (keep_if cls (sort_candidates U cs) ≡ keep_if cls cs)
        × StartsBest cs (sort_candidates U cs)
  sort_candidates-IsOrdered cs cls ties =
      let (same, order, stable) = ordered_lem U cs cls ties in
      (same, IsOrdered-Descends _ order, stable, starts (sort_candidates U cs) refl)
    where
      starts :
          (sorted : List (CandidateHealth U)) → sort_candidates U cs ≡ sorted → StartsBest cs sorted
      starts [] e = tt
      starts (best ∷ rest) e = sort_candidates-best_first cs rest best e
