-- ===== src/Model/Health.antt =====
-- crates/cng-core/src/model.rs: `CandidateHealth` and the order of candidates.
use codex_no.Base.{ℕ, Bool, true, false, Option, none, some, List, compare, Ordering}
use codex_no.Base.Text.{Text}
use codex_no.Base.Sort.{sort_by}
use codex_no.Url.{UrlLib}
use codex_no.Model.{
  UserGuidance, RemoteControlStatus, DiagnosticEvent, GuardStatusKind, HealthState, unknown,
  FailureClass, rank, priority,
}
use codex_no.Model.Candidate.{UpstreamCandidate}

pub record CandidateHealth (U : UrlLib) : Type 0 where
  pub candidate : UpstreamCandidate U
  pub state : HealthState
  pub latency_ms : Option ℕ
  pub checked_at : ℕ
  pub consecutive_failures : ℕ
  pub failure : Option FailureClass
  pub detail : Option Text

-- `Ordering::then_with`.
unfoldable pub then_with : Ordering → Ordering → Ordering
then_with Ordering.lt o = Ordering.lt
then_with Ordering.eq o = o
then_with Ordering.gt o = Ordering.gt

-- A measured latency comes before an unmeasured one.
unfoldable pub compare_latency : Option ℕ → Option ℕ → Ordering
compare_latency (some a) (some b) = compare a b
compare_latency (some a) none = Ordering.lt
compare_latency none (some b) = Ordering.gt
compare_latency none none = Ordering.eq

module _ (U : UrlLib) where
  -- `CandidateHealth::unknown`, at the time `now`.
  unfoldable pub unknown_health : ℕ → UpstreamCandidate U → CandidateHealth U
  unknown_health now c = record {
    candidate = c;
    state = unknown;
    latency_ms = none;
    checked_at = now;
    consecutive_failures = 0;
    failure = none;
    detail = none;
  }

  unfoldable pub compare_health : CandidateHealth U → CandidateHealth U → Ordering
  unfolding then_with
  compare_health left right = then_with (compare (rank left.state) (rank right.state)) (
      then_with (compare (priority left.candidate.source) (priority right.candidate.source))
        (compare_latency left.latency_ms right.latency_ms))

  -- The left one may stay before the right one.
  unfoldable pub le_health : CandidateHealth U → CandidateHealth U → Bool
  unfolding compare_health
  le_health left right = elim (compare_health left right) [ Ordering.gt ↦ false | _ ↦ true ]

  unfoldable pub sort_candidates : List (CandidateHealth U) → List (CandidateHealth U)
  unfolding sort_by le_health
  sort_candidates candidates = sort_by le_health candidates

-- What the daemon tells of itself.
pub record GuardStatus (U : UrlLib) : Type 0 where
  pub api_version : ℕ
  pub status : GuardStatusKind
  pub paused : Bool
  pub listen : Text
  pub active_upstream : Option (CandidateHealth U)
  pub candidates : List (CandidateHealth U)
  pub last_failure : Option DiagnosticEvent
  pub remote_control : RemoteControlStatus
  pub codex_path : Option Text
  pub uptime_secs : ℕ
  pub guidance : UserGuidance
