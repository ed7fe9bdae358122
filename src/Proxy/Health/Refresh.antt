-- ===== src/Proxy/Health/Refresh.antt =====
-- crates/cng-core/src/proxy.rs: what a refresh of all candidates gives.
use codex_no.Base.{
  ℕ, ◌≡◌, refl, sym, ap, ◌∙◌, ◌≢◌, inl, inr, false, Option, none, some, List, [], ◌∷◌, ◌++◌, map,
  if◌then◌else◌, Bool-cases, All,
}
use codex_no.Base.Text.{Text, text_eq}
use mathlib.Core.Bool.{false≢true}
use mathlib.Core.List.{Perm, Forall₂}
use codex_no.Base.Text.Laws.{text_eq_iff}
use codex_no.Url.{UrlLib}
use codex_no.Model.Candidate.{UpstreamCandidate}
use codex_no.Model.Health.{CandidateHealth}
use codex_no.Model.Order.{IsOrdered, ordered_lem}
use codex_no.Proxy.Health.{Probing, check_candidate, previous_of, refresh_health}

module _ (U : UrlLib) where
  -- The latest entry with the id, if there is one.
  abbrev pub IsLatestWith : Text → List (CandidateHealth U) → Option (CandidateHealth U) → Type 0
  IsLatestWith id hs none = All (λ h. h.candidate.id ≢ id) hs
  IsLatestWith id hs (some h) =
      (before after : List (CandidateHealth U)) × (hs ≡ before ++ h ∷ after)
      × (h.candidate.id ≡ id)
      × All (λ k. k.candidate.id ≢ id) after

  latest_step :
      (id : Text) (h : CandidateHealth U) (hs : List (CandidateHealth U))
      (found : Option (CandidateHealth U))
      → IsLatestWith id hs found
      → IsLatestWith id (h ∷ hs) (elim found [
        | some later ↦ some later
        | none ↦ if text_eq h.candidate.id id then some h else none
      ])
  latest_step id h hs (some k) (before, after, e, same, rest) =
      (h ∷ before, after, ap (λ t. h ∷ t) e, same, rest)
  latest_step id h hs none rest = elim (Bool-cases (text_eq h.candidate.id id)) [
    | inl e ↦ rw e ([], hs, refl, (text_eq_iff h.candidate.id id).0 e, rest)
    | inr e ↦ rw e ((λ same. false≢true (sym e ∙ (text_eq_iff h.candidate.id id).1 same)), rest)
  ]

  previous_of-IsLatestWith :
      (id : Text) (hs : List (CandidateHealth U)) → IsLatestWith id hs (previous_of U hs id)
  unfolding previous_of
  previous_of-IsLatestWith id [] = tt
  previous_of-IsLatestWith id (h ∷ hs) =
      latest_step id h hs (previous_of U hs id) (previous_of-IsLatestWith id hs)

  -- The result of a candidate's probe, given the previous results.
  abbrev pub IsCheckOf :
      Probing U → ℕ → List (CandidateHealth U) → UpstreamCandidate U → CandidateHealth U → Type 0
  IsCheckOf w limit previous c h =
      (old : Option (CandidateHealth U)) × IsLatestWith c.id previous old
      × (h ≡ check_candidate U w limit c old)

  checks_lem :
      (w : Probing U) (limit : ℕ) (cs : List (UpstreamCandidate U))
      (previous : List (CandidateHealth U))
      → Forall₂
          (IsCheckOf w limit previous)
          cs
          (map (λ c. check_candidate U w limit c (previous_of U previous c.id)) cs)
  checks_lem w limit [] previous = Forall₂.nil
  checks_lem w limit (c ∷ cs) previous =
      Forall₂.cons (previous_of U previous c.id, previous_of-IsLatestWith c.id previous, refl)
        (checks_lem w limit cs previous)

  -- A refresh gives one result for each candidate that was discovered: each is the check of its
  -- candidate against the latest previous result with the candidate's id, the results are a
  -- rearrangement of these checks, and they are in the order of `sort_candidates`.
  pub refresh_health-IsOrdered :
      (w : Probing U) (limit : ℕ) (cs : List (UpstreamCandidate U))
      (previous : List (CandidateHealth U))
      → (checks : List (CandidateHealth U)) × Forall₂ (IsCheckOf w limit previous) cs checks
        × Perm (refresh_health U w cs previous limit) checks
        × IsOrdered U (refresh_health U w cs previous limit)
  unfolding refresh_health
  refresh_health-IsOrdered w limit cs previous =
      let checks = map (λ c. check_candidate U w limit c (previous_of U previous c.id)) cs in
      let (perm, ordered, _) =
        ordered_lem U checks (λ h. false) (λ a b p q. absurd (false≢true p)) in
      (checks, checks_lem w limit cs previous, perm, ordered)
