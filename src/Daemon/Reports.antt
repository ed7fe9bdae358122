-- ===== src/Daemon/Reports.antt =====
-- crates/cngd/src/main.rs: what the status tells.
use codex_no.Diagnostics.Guidance.{guidance_for}
use codex_no.Model.{GuardStatusKind, HealthState, DiagnosticEvent, is_healthy, is_degraded}
use codex_no.Daemon.{
  guidance_for, tells_not_network, GuardStatusKind, AppState, GuardStatus, World, DiagnosticEvent,
  status_kind, is_healthy, status, active_of,
}
use codex_no.Model.Health.{GuardStatus, CandidateHealth}
use codex_no.Base.{
  ◌≡◌, refl, ◌⊎◌, inl, inr, Bool, true, false, Option, none, some, List, ◌∷◌, ◌++◌, arith,
  Bool-cases, Option-cases, find_if, All, find_if-split, find_if-none,
}
use codex_no.Url.{UrlLib}

module _ (U : UrlLib) where
  -- The candidate is the first of the list that passes the test.
  abbrev pub IsFirst :
      (CandidateHealth U → Bool) → List (CandidateHealth U) → CandidateHealth U → Type 0
  IsFirst test cs c =
      (before rest : List (CandidateHealth U)) × (cs ≡ before ++ c ∷ rest)
      × (test c ≡ true)
      × All (λ d. test d ≡ false) before

  abbrev pub healthy_one : CandidateHealth U → Bool
  healthy_one c = is_healthy c.state

  abbrev pub degraded_one : CandidateHealth U → Bool
  degraded_one c = is_degraded c.state

  -- The three ways in which a list of candidates has an active one or none.
  abbrev pub HasHealthy : List (CandidateHealth U) → Option (CandidateHealth U) → Type 0
  HasHealthy cs active = (c : CandidateHealth U) × (active ≡ some c) × IsFirst healthy_one cs c

  abbrev pub HasDegraded : List (CandidateHealth U) → Option (CandidateHealth U) → Type 0
  HasDegraded cs active =
      All (λ d. healthy_one d ≡ false) cs
      × ((c : CandidateHealth U) × (active ≡ some c) × IsFirst degraded_one cs c)

  abbrev pub HasNone : List (CandidateHealth U) → Option (CandidateHealth U) → Type 0
  HasNone cs active =
      (active ≡ none) × All (λ d. healthy_one d ≡ false) cs × All (λ d. degraded_one d ≡ false) cs

  active_of-cases :
      (cs : List (CandidateHealth U))
      → HasHealthy cs (active_of U cs)
        ⊎ (HasDegraded cs (active_of U cs) ⊎ HasNone cs (active_of U cs))
  unfolding active_of
  active_of-cases cs = elim (Option-cases (find_if healthy_one cs)) [
    | inr (c, e) ↦ inl (c, rw (e, active_of) refl, find_if-split healthy_one cs c e)
    | inl e ↦
        let no_healthy = find_if-none healthy_one cs e in
        elim (Option-cases (find_if degraded_one cs)) [
          | inr (c, f) ↦
              inr (inl (no_healthy, (c, rw (e, active_of) f, find_if-split degraded_one cs c f)))
          | inl f ↦ inr (inr (rw (e, active_of) f, no_healthy, find_if-none degraded_one cs f))
        ]
  ]

  -- The status word, from what there is.
  abbrev pub IsReport :
      Bool → List (CandidateHealth U) → Option DiagnosticEvent → GuardStatus U → Type 0
  IsReport paused cs failure r =
      ((paused ≡ true) × (r.status ≡ GuardStatusKind.paused))
      ⊎ ((paused ≡ false)
          × (((r.status ≡ GuardStatusKind.protected) × HasHealthy cs r.active_upstream)
              ⊎ (((r.status ≡ GuardStatusKind.degraded) × HasDegraded cs r.active_upstream)
                  ⊎ (HasNone cs r.active_upstream
                      × (((r.status ≡ GuardStatusKind.non_network_failure)
                            × (tells_not_network failure ≡ true))
                          ⊎ ((r.status ≡ GuardStatusKind.vpn_unavailable)
                              × (tells_not_network failure ≡ false)))))))

  degraded-not_healthy : (h : HealthState) → is_degraded h ≡ true → is_healthy h ≡ false
  unfolding is_degraded is_healthy
  degraded-not_healthy h e = ground arith

  -- The status word is `Paused` if the guard is paused; otherwise `Protected` with the first healthy
  -- candidate as the active one if there is a healthy one; otherwise `Degraded` with the first degraded
  -- one; otherwise there is no active one and the word is `NonNetworkFailure` if the latest event is of
  -- a class that is not about the network, and `VpnUnavailable` if not. The advice is the one for this
  -- word and this event.
  pub status-IsReport :
      (w : World U) (s : AppState U)
      → IsReport s.config.paused s.runtime.candidates w.last_failure (status U w s)
        × ((status U w s).guidance ≡ guidance_for (status U w s).status w.last_failure)
  unfolding status status_kind
  status-IsReport w s = (report s.config.paused, refl)
    where
      cs : List (CandidateHealth U)
      cs = s.runtime.candidates

      kind : Bool → GuardStatusKind
      kind paused = status_kind U paused (active_of U cs) w.last_failure

      report :
          (paused : Bool)
          → ((paused ≡ true) × (kind paused ≡ GuardStatusKind.paused))
            ⊎ ((paused ≡ false)
                × (((kind paused ≡ GuardStatusKind.protected) × HasHealthy cs (active_of U cs))
                    ⊎ (((kind paused ≡ GuardStatusKind.degraded) × HasDegraded cs (active_of U cs))
                        ⊎ (HasNone cs (active_of U cs)
                            × (((kind paused ≡ GuardStatusKind.non_network_failure)
                                  × (tells_not_network w.last_failure ≡ true))
                                ⊎ ((kind paused ≡ GuardStatusKind.vpn_unavailable)
                                    × (tells_not_network w.last_failure ≡ false)))))))
      report true = inl (refl, refl)
      report false = inr (
        refl,
        (elim (active_of-cases cs) [
          | inl (c, e, split) ↦ inl (rw (e, split.3) refl, (c, e, split))
          | inr (inl (no_healthy, (c, e, split))) ↦
              inr (
                inl
                  (rw (e, degraded-not_healthy c.state split.3) refl, (no_healthy, (c, e, split))))
          | inr (inr (e, h, d)) ↦ inr (
              inr (
                (e, h, d),
                elim (Bool-cases (tells_not_network w.last_failure)) [
                  | inl t ↦ inl (rw (e, t) refl, t)
                  | inr t ↦ inr (rw (e, t) refl, t)
                ],
              ))
        ]),
      )
