-- ===== src/Daemon/Examples.antt =====
-- crates/cngd/src/main.rs: a daemon on macOS that is paused, refreshed and kept alive, and the
-- theorems there.
use codex_no.Daemon.Sample.{world, config, first_state, start_state}
use codex_no.Daemon.Logs.Pruned.{is_aged, is_recent, IsByAge, prune_logs-IsTrimmed, IsTrimmed}
use codex_no.Diagnostics.Guidance.{guidance_for}
use codex_no.Daemon.Always.{Reachable-IsCoherent}
use codex_no.Proxy.Runtime.{new_runtime}
use codex_no.Daemon.Logs.{prune_logs, LogEntry}
use codex_no.Daemon.Keepalive.Pace.{IsBounded, play}
use codex_no.Daemon.Keepalive.Backoff.{
  first_keeper, keepalive_rounds-IsBounded, Round, keepalive_rounds, pace_of, rounds_events,
  first_pace,
}
use codex_no.Daemon.Reports.{status-IsReport, IsReport}
use codex_no.Daemon.Coherence.{IsCoherent}
use codex_no.Daemon.Keepalive.{Keeper, Clock}
use codex_no.Daemon.Requests.{handle, Params}
use codex_no.Base.{ℕ, ◌≡◌, refl, true, false, ◌&&◌, none, some, List, [], ◌∷◌, ◌++◌, keep_if}
use mathlib.Core.List.{Perm}
use codex_no.Base.Text.{codes}
use codex_no.Url.Sample.{sample_lib}
use codex_no.Base.Results.{ok}
use codex_no.Daemon.{guidance_for, status, new_runtime, refresh_once, AppState, start}
use codex_no.Daemon.Steps.{Reachable, handled, refreshed, started, stepped}

start_lem : start sample_lib config ≡ ok start_state
unfolding start new_runtime
start_lem = refl

abbrev params : Params
params = record { get_bool = λ key. some true; get_str = λ key. none }

abbrev clock : Clock
clock = record { looked = 10; started = 11 }

abbrev paused_state : AppState sample_lib
paused_state = (handle sample_lib world start_state (codes "pause") params).1

abbrev last_state : AppState sample_lib
last_state = (refresh_once sample_lib world paused_state).1

reached : Reachable sample_lib config last_state
reached =
    stepped
      (stepped (started start_state start_lem) (handled world start_state (codes "pause") params))
      (refreshed world paused_state)

Reachable-IsCoherent_example : IsCoherent sample_lib config last_state
Reachable-IsCoherent_example = Reachable-IsCoherent sample_lib config tt reached

status-IsReport_example :
    IsReport sample_lib false [] none (status sample_lib world first_state)
    × ((status sample_lib world first_state).guidance
        ≡ guidance_for (status sample_lib world first_state).status none)
status-IsReport_example = status-IsReport sample_lib world first_state

abbrev round : Round sample_lib
round = record { world = world; clock = clock; requests = λ s. s }

abbrev kept : Keeper sample_lib
kept = keepalive_rounds sample_lib (round ∷ round ∷ []) (first_keeper sample_lib first_state)

keepalive_rounds-IsBounded_example :
    (pace_of sample_lib kept
      ≡ play
          (rounds_events sample_lib (round ∷ round ∷ []) (first_keeper sample_lib first_state))
          (first_pace sample_lib))
    × IsBounded (pace_of sample_lib kept)
keepalive_rounds-IsBounded_example =
    keepalive_rounds-IsBounded sample_lib (round ∷ round ∷ []) first_state

abbrev log_of : ℕ → ℕ → LogEntry
log_of modified bytes = record {
  has_metadata = true;
  is_file = true;
  modified = some modified;
  bytes = bytes;
  removable = true;
}

-- One old file, and two files of which the older must go.
abbrev directory : List LogEntry
directory = log_of 10 5 ∷ log_of 900000 15000000 ∷ log_of 800000 10000000 ∷ []

prune_logs-IsTrimmed_example :
    (trimmed kept : List LogEntry) × ((prune_logs 1000000 directory).0
      ≡ keep_if (λ e. is_aged 1000000 e && e.removable) directory ++ trimmed)
    × Perm kept (keep_if (is_recent 1000000) directory)
    × IsByAge kept
    × IsTrimmed 0 kept (trimmed, (prune_logs 1000000 directory).1)
prune_logs-IsTrimmed_example = prune_logs-IsTrimmed 1000000 directory
