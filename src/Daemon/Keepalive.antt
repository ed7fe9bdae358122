-- ===== src/Daemon/Keepalive.antt =====
-- crates/cngd/src/main.rs: `run_remote_keepalive`, one round of its loop.
pub mod Pace
pub mod Backoff
--@base
use codex_no.Proxy.Errors.{redact_error}
use codex_no.Config.{GuardConfig}
use codex_no.Base.Text.{codes, Text}
use codex_no.Model.{RemoteControlStatus}
use codex_no.Base.{
  ◌++◌, if◌then◌else◌, ◌-◌, leb, some, true, ◌*◌, none, false, min, Bool, ◌∷◌, List, Option, ℕ,
}
use codex_no.Url.{UrlLib}
use codex_no.Base.Results.{ok, err}
use codex_no.Daemon.{
  ensure_remote_started, Child, ChildState, Text, GuardConfig, RemoteControlStatus, ℕ, Option,
  AppState, World, running, exited, not_inspected,
}

-- The loop's own variables, in seconds, and the waits that it made for the backoff, newest first.
pub record Keeper (U : UrlLib) : Type 0 where
  pub app : AppState U
  pub backoff : ℕ
  pub last_started : Option ℕ
  pub waits : List ℕ

-- When the round looks at the child, and when it has started a new one.
pub record Clock : Type 0 where
  pub looked : ℕ
  pub started : ℕ

abbrev pub max_backoff : ℕ
max_backoff = 300

unfoldable pub longer : ℕ → ℕ
longer backoff = min (backoff * 2) max_backoff

-- `started.elapsed() >= 30 s`.
abbrev pub ran_long : Option ℕ → ℕ → Bool
ran_long none now = false
ran_long (some started) now = leb 30 (now - started)

module _ (U : UrlLib) (w : World U) (clock : Clock) where
  abbrev pub with_remote_status : RemoteControlStatus → Keeper U → Keeper U
  with_remote_status remote k = record k { app = record k.app { remote = remote } }

  -- The wait, and the longer wait of the next time.
  unfoldable pub wait : Keeper U → Keeper U
  wait k = record k { waits = k.backoff ∷ k.waits; backoff = longer k.backoff }

  -- The child is gone: it is forgotten, and the status tells why.
  unfoldable pub note_exit : Text → Keeper U → Keeper U
  unfolding wait
  note_exit why k = wait (record k {
    app = record k.app {
      remote_child = none;
      remote = record k.app.remote {
        online = false;
        detail = some why;
        retry_after = some k.backoff;
      };
    };
  })

  unfoldable pub note_failure : Text → Keeper U → Keeper U
  unfolding wait
  note_failure e k = wait (
      with_remote_status
        (record {
          enabled = true;
          supported = true;
          online = false;
          detail = some (redact_error w.redactor e);
          retry_after = some k.backoff;
        })
        k)

  -- A start of the remote control, with the Codex that was found.
  unfoldable pub try_start : Text → Keeper U → Keeper U
  try_start real k =
      if w.supports_remote_control real
      then (let (outcome, app) = ensure_remote_started U w real k.app in
          elim outcome [
            | ok u ↦ record k { app = app; last_started = some clock.started }
            | err e ↦ note_failure e (record k { app = app })
          ])
      else with_remote_status
          (record k.app.remote {
            supported = false;
            detail = some (codes "remote-control is unavailable in this Codex version");
          })
          k

  -- With the configuration that the round read when it began.
  unfoldable pub restart : GuardConfig → Keeper U → Keeper U
  unfolding try_start
  restart config k = elim (w.find_real_codex config) [ none ↦ k | some real ↦ try_start real k ]

  -- The child, if there is one, is inspected.
  unfoldable pub inspect : GuardConfig → ChildState → Keeper U → Keeper U
  unfolding note_exit
  inspect config running k =
      if ran_long k.last_started clock.looked then record k { backoff = 1 } else k
  inspect config (exited how) k =
      restart config (note_exit (codes "remote-control exited with " ++ how) k)
  inspect config (not_inspected e) k =
      restart config (note_exit (codes "could not inspect remote-control: " ++ e) k)

  -- With the flag and the child that the round finds.
  unfoldable pub round_with : Bool → Option Child → Keeper U → Keeper U
  round_with false child k = k
  round_with true none k = restart k.app.config k
  round_with true (some child) k = inspect k.app.config (w.try_wait child) k

  unfoldable pub keepalive_round : Keeper U → Keeper U
  unfolding round_with
  keepalive_round k = round_with k.app.config.remote_control_keepalive k.app.remote_child k
