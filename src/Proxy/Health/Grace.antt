-- ===== src/Proxy/Health/Grace.antt =====
-- crates/cng-core/src/proxy.rs: how a candidate goes from working to down, round after round.
use codex_no.Base.{
  true, false, refl, inl, inr, none, some, Option-cases, ◌∷◌, [], suc, is_some, not, suc, subst,
  map, Bool, min, ℕ, ◌≡◌, Option, none, some, List, [], ◌∷◌, arith,
}
use codex_no.Url.{UrlLib}
use codex_no.Model.{HealthState, healthy, degraded, down, is_healthy, is_degraded}
use codex_no.Model.Candidate.{UpstreamCandidate}
use codex_no.Model.Health.{CandidateHealth}
use codex_no.Proxy.Health.{
  failures_after, state_after, Probing, u32_max, saturating_suc, probe_detail, check_candidate,
}

-- The failing rounds since the last success, newest first.
abbrev pub failing_run : List Bool → ℕ
failing_run [] = 0
failing_run (true ∷ r) = 0
failing_run (false ∷ r) = suc (failing_run r)

-- The documented states: a success is healthy, the first failure after a success is degraded, any
-- other failure is down.
abbrev pub documented_state : List Bool → HealthState
documented_state [] = down
documented_state (true ∷ r) = healthy
documented_state (false ∷ []) = down
documented_state (false ∷ true ∷ r) = degraded
documented_state (false ∷ false ∷ r) = down

saturating_suc-min : (n : ℕ) → saturating_suc (min n u32_max) ≡ min (suc n) u32_max
unfolding saturating_suc
saturating_suc-min n = ground arith

module _ (U : UrlLib) (limit : ℕ) (c : UpstreamCandidate U) where
  -- A failing round after a round that had the documented result.
  failed_lem :
      (flags : List Bool) (flag : Bool) (h : CandidateHealth U)
      → h.state ≡ documented_state (flag ∷ flags)
      → h.consecutive_failures ≡ min (failing_run (flag ∷ flags)) u32_max
      → (state_after U (some h) ≡ documented_state (false ∷ flag ∷ flags))
        × (failures_after U (some h) ≡ min (suc (failing_run (flag ∷ flags))) u32_max)
  unfolding state_after failures_after saturating_suc is_healthy is_degraded
  failed_lem flags true h s n = (ground arith, ground arith)
  failed_lem flags false h s n = (ground arith, ground arith)

  -- Rounds of one candidate, each with its own network and clock, newest first.
  abbrev pub succeeds : Probing U → Bool
  succeeds w = not (is_some (probe_detail U w limit c))

  -- The result of the newest round, each round being given the result of the one before it.
  unfoldable pub health_after : List (Probing U) → Option (CandidateHealth U)
  health_after [] = none
  health_after (w ∷ ws) = some (check_candidate U w limit c (health_after ws))

  abbrev pub Follows : List (Probing U) → CandidateHealth U → Type 0
  Follows ws h =
      (h.state ≡ documented_state (map succeeds ws))
      × (h.consecutive_failures ≡ min (failing_run (map succeeds ws)) u32_max)
      × (h.candidate ≡ c)

  previous_lem :
      (ws : List (Probing U)) (previous : Option (CandidateHealth U))
      → health_after ws ≡ previous
      → ((h : CandidateHealth U) → previous ≡ some h → Follows ws h)
      → (state_after U previous ≡ documented_state (false ∷ map succeeds ws))
        × (failures_after U previous ≡ min (suc (failing_run (map succeeds ws))) u32_max)
  unfolding health_after state_after failures_after
  previous_lem [] none e ih = (refl, refl)
  previous_lem [] (some h) e ih = cc
  previous_lem (v ∷ vs) none e ih = cc
  previous_lem (v ∷ vs) (some h) e ih =
      let (st, n, _) = ih h refl in failed_lem (map succeeds vs) (succeeds v) h st n

  check-Follows :
      (w : Probing U) (ws : List (Probing U)) (previous : Option (CandidateHealth U))
      → health_after ws ≡ previous
      → ((h : CandidateHealth U) → previous ≡ some h → Follows ws h)
      → Follows (w ∷ ws) (check_candidate U w limit c previous)
  unfolding check_candidate
  check-Follows w ws previous e ih = elim (Option-cases (probe_detail U w limit c)) [
    | inl works ↦ (ground arith, ground arith, ground arith)
    | inr (detail, broken) ↦
        let (st, n) = previous_lem ws previous e ih in (ground arith, ground arith, ground arith)
  ]

  -- After any rounds, with any outcomes, the candidate is healthy if the last probe succeeded,
  -- degraded if it is the first failure after a success, and down otherwise; its counter is the number
  -- of failures since the last success, capped at the greatest `u32`.
  pub health_after-Follows :
      (ws : List (Probing U)) (h : CandidateHealth U) → health_after ws ≡ some h → Follows ws h
  unfolding health_after
  health_after-Follows [] h e = cc
  health_after-Follows (w ∷ ws) h e =
      let same : check_candidate U w limit c (health_after ws) ≡ h = ground arith in
      subst (Follows (w ∷ ws)) same
        (check-Follows w ws (health_after ws) refl (health_after-Follows ws))
