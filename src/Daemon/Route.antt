-- ===== src/Daemon/Route.antt =====
-- crates/cngd/src/main.rs and crates/cng-core/src/proxy.rs: the status names the route that the relay
-- takes first.
mod Examples
use codex_no.Proxy.Runtime.{ProxyRuntime}
use codex_no.Daemon.Reports.{healthy_one, IsFirst}
use codex_no.Model.Order.{rank-le, IsOrdered, Precedes}
use codex_no.Proxy.Connect.{
  refused, opened, attempt, Attempt, via, connect_for_runtime, Dial, try_each, Outside,
}
use codex_no.Model.{GuardStatusKind, DiagnosticEvent}
use codex_no.Daemon.Reports.{IsReport, HasHealthy, status-IsReport}
use codex_no.Daemon.{AppState, World, status}
use codex_no.Daemon.Always.{Reachable-IsCoherent}
use codex_no.Daemon.Coherence.{HoldsNoSecret}
use codex_no.Daemon.Steps.{Reachable}
use codex_no.Config.{GuardConfig}
use codex_no.Model.Health.{GuardStatus}
use mathlib.Core.Bool.{false≢true}
use codex_no.Proxy.Errors.{redact_error}
use codex_no.Model.Health.{CandidateHealth}
use codex_no.Base.{
  ℕ, ◌≤◌, ◌≡◌, refl, sym, ◌∙◌, subst, inl, inr, Bool, true, false, Option, some, List, [], ◌∷◌,
  ◌++◌, arith, All,
}
use codex_no.Base.Text.{Text, codes}
use codex_no.Url.{UrlLib}
use codex_no.Model.{is_down, HealthState, is_healthy, rank}

healthy_rank : (s t : HealthState) → is_healthy t ≡ true → rank s ≤ rank t → is_healthy s ≡ true
unfolding rank is_healthy
healthy_rank s t h l = ground arith

healthy-not_down : (s : HealthState) → is_healthy s ≡ true → is_down s ≡ false
unfolding is_healthy is_down
healthy-not_down s h = ground arith

module _ (U : UrlLib) where
  -- In an ordered list a healthy candidate behind others has only healthy ones before it.
  head_healthy :
      (b : CandidateHealth U) (before rest : List (CandidateHealth U)) (c : CandidateHealth U)
      → All (λ y. Precedes U b y) (before ++ c ∷ rest)
      → is_healthy c.state ≡ true
      → is_healthy b.state ≡ true
  head_healthy b [] rest c (p, h) e = healthy_rank b.state c.state e (rank-le U b c p)
  head_healthy b (x ∷ before) rest c (p, h) e = head_healthy b before rest c h e

  first_lem :
      (cs : List (CandidateHealth U)) (c : CandidateHealth U)
      → IsOrdered U cs
      → IsFirst U (healthy_one U) cs c
      → (rest : List (CandidateHealth U)) × (cs ≡ c ∷ rest)
  first_lem cs c ordered ([], rest, e, good, none_before) = (rest, e)
  first_lem cs c ordered (b ∷ before, rest, e, good, (bad, others)) =
      let (below, _) : IsOrdered U (b ∷ (before ++ c ∷ rest)) = subst (IsOrdered U) e ordered in
      absurd (false≢true (sym bad ∙ head_healthy b before rest c below good))

  module _ (o : Outside U) (host : Text) (port : ℕ) where
    dials_first :
        (limit : ℕ) (fallback : Bool) (c : CandidateHealth U) (rest : List (CandidateHealth U))
        → is_down c.state ≡ false
        → (more : List (Dial U)) × ((try_each U o host port limit fallback [] (c ∷ rest)).dials
            ≡ via c.candidate ∷ more)
    unfolding try_each
    dials_first limit fallback c rest up = go (attempt U o host port limit c.candidate) refl
      where
        go :
            (a : Attempt)
            → attempt U o host port limit c.candidate ≡ a
            → (more : List (Dial U)) × ((try_each U o host port limit fallback [] (c ∷ rest)).dials
                ≡ via c.candidate ∷ more)
        go (opened s) e = ([], rw (up, e, try_each) refl)
        go (refused r) e = (
          (try_each U o host port limit fallback (redact_error o.redactor r ∷ []) rest).dials,
          rw (up, e, try_each) refl,
        )
        go codex_no.Proxy.Connect.timed_out e = (
          (try_each U o host port limit fallback (codes "connection timed out" ∷ []) rest).dials,
          rw (up, e, try_each) refl,
        )

  -- The status word `Protected` means that the guard is not paused and that the active one is healthy
  -- and first.
  protected_lem :
      (paused : Bool) (cs : List (CandidateHealth U)) (failure : Option DiagnosticEvent)
      (r : GuardStatus U)
      → IsReport U paused cs failure r
      → r.status ≡ GuardStatusKind.protected
      → (paused ≡ false) × HasHealthy U cs r.active_upstream
  protected_lem paused cs failure r (inl (p, e)) q = absurd (ground arith)
  protected_lem paused cs failure r (inr (p, inl (e, h))) q = (p, h)
  protected_lem paused cs failure r (inr (p, inr (inl (e, h)))) q = absurd (ground arith)
  protected_lem paused cs failure r (inr (p, inr (inr (h, inl (e, t))))) q = absurd (ground arith)
  protected_lem paused cs failure r (inr (p, inr (inr (h, inr (e, t))))) q = absurd (ground arith)

  -- The active candidate is healthy, and the next connection to the target dials it first.
  abbrev pub IsTaken : Outside U → Text → ℕ → ProxyRuntime U → Option (CandidateHealth U) → Type 0
  IsTaken o host port r active =
      (c : CandidateHealth U) × (active ≡ some c)
      × (is_healthy c.state ≡ true)
      × ((more : List (Dial U)) × ((connect_for_runtime U o host port r r).dials
            ≡ via c.candidate ∷ more))

  taken :
      (o : Outside U) (host : Text) (port : ℕ) (r : ProxyRuntime U)
      (active : Option (CandidateHealth U))
      → IsOrdered U r.candidates
      → HasHealthy U r.candidates active
      → IsTaken o host port r active
  unfolding connect_for_runtime
  taken o host port r active ordered (c, e, split) =
      let (rest, f) = first_lem r.candidates c ordered split in
      (
        c,
        e,
        split.3,
        rw (f) (
            dials_first o host port r.connect_timeout r.direct_fallback c rest
              (healthy-not_down c.state split.3)),
      )

  -- In every state that a daemon started without credentials can reach, if the status word is
  -- `Protected`, then the relay is not paused, the status names a healthy candidate as the active one,
  -- and a new connection of the relay, whatever its target and the network, dials this one first.
  pub status-IsTaken :
      (first : GuardConfig) {s : AppState U} (w : World U) (o : Outside U) (host : Text) (port : ℕ)
      → HoldsNoSecret U first first.manual_upstream
      → Reachable U first s
      → (status U w s).status ≡ GuardStatusKind.protected
      → (s.runtime.is_paused ≡ false) × IsTaken o host port s.runtime (status U w s).active_upstream
  status-IsTaken first {s} w o host port clean reach protected =
      let (_, same, _, _, ordered, _) = Reachable-IsCoherent U first clean reach in
      let (unpaused, h) =
        protected_lem s.config.paused s.runtime.candidates w.last_failure (status U w s)
          (status-IsReport U w s).0 protected in
      (same ∙ unpaused, taken o host port s.runtime _ ordered h)
