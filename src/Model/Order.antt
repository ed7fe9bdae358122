-- ===== src/Model/Order.antt =====
-- crates/cng-core/src/model.rs: what `sort_candidates` promises.
pub mod Best
use mathlib.Core.List.{Perm}
use codex_no.Base.{
  ◌≢◌, ap, subst, ℕ, ◌<◌, ◌≤◌, ◌≡◌, refl, Bool, true, false, Option, none, some, List, [], ◌∷◌,
  arith, compare, Ordering, ◌⊎◌, inl, inr, keep_if, All,
}
use codex_no.Base.Sort.{sort_by-All_inv, IsSorted, sort_by-perm, sort_by-IsSorted, sort_by-keep_if}
use codex_no.Url.{UrlLib}
use codex_no.Model.{down, healthy, HealthState, rank, priority}
use codex_no.Model.Health.{CandidateHealth, then_with, compare_latency, le_health, sort_candidates}

-- A measured latency comes first, the smaller before the greater.
abbrev pub LatencyLe : Option ℕ → Option ℕ → Type 0
LatencyLe (some a) (some b) = a ≤ b
LatencyLe (some a) none = Unit
LatencyLe none (some b) = ⊥
LatencyLe none none = Unit

abbrev le_of : Ordering → Bool
le_of o = elim o [ Ordering.gt ↦ false | _ ↦ true ]

le_of-compare_latency : (p q : Option ℕ) → le_of (compare_latency p q) ≡ true → LatencyLe p q
unfolding compare_latency
le_of-compare_latency (some a) (some b) h = ground arith
le_of-compare_latency (some a) none h = tt
le_of-compare_latency none (some b) h = cc
le_of-compare_latency none none h = tt

compare_latency-LatencyLe : (p q : Option ℕ) → LatencyLe p q → le_of (compare_latency p q) ≡ true
unfolding compare_latency
compare_latency-LatencyLe (some a) (some b) h = ground arith
compare_latency-LatencyLe (some a) none h = refl
compare_latency-LatencyLe none (some b) h = elim h [ ]
compare_latency-LatencyLe none none h = refl

LatencyLe-total : (p q : Option ℕ) → LatencyLe p q ⊎ LatencyLe q p
LatencyLe-total (some a) (some b) = ground arith
LatencyLe-total (some a) none = inl tt
LatencyLe-total none (some b) = inr tt
LatencyLe-total none none = inl tt

LatencyLe-trans : (p q r : Option ℕ) → LatencyLe p q → LatencyLe q r → LatencyLe p r
LatencyLe-trans (some a) (some b) (some c) h k = omega arith
LatencyLe-trans (some a) q none h k = tt
LatencyLe-trans none none none h k = tt
LatencyLe-trans none none (some c) h k = k
LatencyLe-trans none (some b) r h k = elim h [ ]
LatencyLe-trans (some a) none (some c) h k = elim k [ ]

-- The lexicographic combination, over numbers.
lex_left :
    (r r' p p' : ℕ) (o : Ordering)
    → le_of (then_with (compare r r') (then_with (compare p p') o)) ≡ true
    → (r < r') ⊎ ((r ≡ r') × ((p < p') ⊎ ((p ≡ p') × (le_of o ≡ true))))
unfolding then_with
lex_left r r' p p' o h = ground arith

lex_right :
    (r r' p p' : ℕ) (o : Ordering)
    → (r < r') ⊎ ((r ≡ r') × ((p < p') ⊎ ((p ≡ p') × (le_of o ≡ true))))
    → le_of (then_with (compare r r') (then_with (compare p p') o)) ≡ true
unfolding then_with
lex_right r r' p p' o h = ground arith

module _ (U : UrlLib) where
  -- By state, then by source, then by latency.
  abbrev pub Precedes : CandidateHealth U → CandidateHealth U → Type 0
  Precedes a b =
      (rank a.state < rank b.state)
      ⊎ ((rank a.state ≡ rank b.state)
          × ((priority a.candidate.source < priority b.candidate.source)
              ⊎ ((priority a.candidate.source ≡ priority b.candidate.source)
                  × LatencyLe a.latency_ms b.latency_ms)))

  Precedes-of_le : (a b : CandidateHealth U) → le_health U a b ≡ true → Precedes a b
  unfolding le_health
  Precedes-of_le a b h =
      elim (lex_left (rank a.state) (rank b.state) (priority a.candidate.source)
        (priority b.candidate.source) (compare_latency a.latency_ms b.latency_ms) h) [
          | inl p ↦ inl p
          | inr (e, inl p) ↦ inr (e, inl p)
          | inr (e, inr (d, l)) ↦ inr (e, inr (d, le_of-compare_latency _ _ l))
        ]

  le_of_Precedes : (a b : CandidateHealth U) → Precedes a b → le_health U a b ≡ true
  unfolding le_health
  le_of_Precedes a b h =
      lex_right (rank a.state) (rank b.state) (priority a.candidate.source)
        (priority b.candidate.source) (compare_latency a.latency_ms b.latency_ms)
        (elim h [
          | inl p ↦ inl p
          | inr (e, inl p) ↦ inr (e, inl p)
          | inr (e, inr (d, l)) ↦ inr (e, inr (d, compare_latency-LatencyLe _ _ l))
        ])

  Precedes-total : (a b : CandidateHealth U) → Precedes a b ⊎ Precedes b a
  Precedes-total a b = ground (arith, LatencyLe-total a.latency_ms b.latency_ms)

  Precedes-trans : (a b c : CandidateHealth U) → Precedes a b → Precedes b c → Precedes a c
  Precedes-trans a b c h k = ground (arith, LatencyLe-trans a.latency_ms b.latency_ms c.latency_ms)

  le_health-total : (a b : CandidateHealth U) → le_health U a b ≡ false → le_health U b a ≡ true
  le_health-total a b h = elim (Precedes-total a b) [
    | inl p ↦ absurd (cc (le_of_Precedes a b p))
    | inr p ↦ le_of_Precedes b a p
  ]

  le_health_trans :
      (a b c : CandidateHealth U)
      → le_health U a b ≡ true
      → le_health U b c ≡ true
      → le_health U a c ≡ true
  le_health_trans a b c h k =
      le_of_Precedes a c (Precedes-trans a b c (Precedes-of_le a b h) (Precedes-of_le b c k))

  -- Every earlier element precedes every later one.
  abbrev pub IsOrdered : List (CandidateHealth U) → Type 0
  IsOrdered [] = Unit
  IsOrdered (x ∷ xs) = All (λ y. Precedes x y) xs × IsOrdered xs

  All-Precedes :
      (x : CandidateHealth U) (ys : List (CandidateHealth U))
      → All (λ y. le_health U x y ≡ true) ys
      → All (λ y. Precedes x y) ys
  All-Precedes x [] h = tt
  All-Precedes x (y ∷ ys) (p, h) = (Precedes-of_le x y p, All-Precedes x ys h)

  IsOrdered-of_IsSorted : (xs : List (CandidateHealth U)) → IsSorted (le_health U) xs → IsOrdered xs
  IsOrdered-of_IsSorted [] h = tt
  IsOrdered-of_IsSorted (x ∷ xs) (below, h) = (All-Precedes x xs below, IsOrdered-of_IsSorted xs h)

  -- The two candidates compare as equal: same state, same source, same latency.
  abbrev pub IsTie : CandidateHealth U → CandidateHealth U → Type 0
  IsTie a b =
      (a.state ≡ b.state)
      × (a.candidate.source ≡ b.candidate.source)
      × (a.latency_ms ≡ b.latency_ms)

  LatencyLe-refl : (p : Option ℕ) → LatencyLe p p
  LatencyLe-refl none = tt
  LatencyLe-refl (some a) = omega arith

  IsTie-Precedes : (a b : CandidateHealth U) → IsTie a b → Precedes a b
  IsTie-Precedes a b (s, c, l) = inr (
    ap rank s,
    inr (ap priority c, subst (LatencyLe a.latency_ms) l (LatencyLe-refl a.latency_ms)),
  )

  -- The same candidates, in order, with ties as they came.
  pub ordered_lem :
      (cs : List (CandidateHealth U)) (cls : CandidateHealth U → Bool)
      → ((a b : CandidateHealth U) → cls a ≡ true → cls b ≡ true → IsTie a b)
      → Perm (sort_candidates U cs) cs
        × IsOrdered (sort_candidates U cs)
        × (keep_if cls (sort_candidates U cs) ≡ keep_if cls cs)
  unfolding sort_candidates
  ordered_lem cs cls ties = (
    sort_by-perm (le_health U) cs,
    IsOrdered-of_IsSorted _ (sort_by-IsSorted (le_health U) le_health-total le_health_trans cs),
    sort_by-keep_if (le_health U) cls
        (λ a b p q. le_of_Precedes a b (IsTie-Precedes a b (ties a b p q))) cs,
  )

  pub rank-le : (a b : CandidateHealth U) → Precedes a b → rank a.state ≤ rank b.state
  rank-le a b h = ground arith

  All-rank-le :
      (x : CandidateHealth U) (ys : List (CandidateHealth U))
      → All (λ y. Precedes x y) ys
      → All (λ y. rank x.state ≤ rank y.state) ys
  All-rank-le x [] h = tt
  All-rank-le x (y ∷ ys) (p, h) = (rank-le x y p, All-rank-le x ys h)

  pub head-rank-le :
      (cs rest : List (CandidateHealth U)) (best : CandidateHealth U)
      → sort_candidates U cs ≡ best ∷ rest
      → All (λ c. rank best.state ≤ rank c.state) cs
  unfolding sort_candidates
  head-rank-le cs rest best e =
      sort_by-All_inv (le_health U) (λ c. rank best.state ≤ rank c.state) cs
        (rw e (omega arith, All-rank-le best rest (sorted.0)))
    where
      sorted : IsOrdered (best ∷ rest)
      sorted = IsOrdered-of_IsSorted (best ∷ rest) (
          subst (IsSorted (le_health U)) e
            (sort_by-IsSorted (le_health U) le_health-total le_health_trans cs))
