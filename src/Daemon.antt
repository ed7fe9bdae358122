-- ===== src/Daemon.antt =====
-- crates/cngd/src/main.rs: the state of the daemon, its status, its saving and its refresh.
pub mod Requests
pub mod Coherence
pub mod Always
pub mod Settings
pub mod Reports
pub mod Route
pub mod Keepalive
pub mod Steps
pub mod Logs
pub mod Sample
mod Examples
use codex_no.Diagnostics.Guidance.{guidance_for}
use codex_no.Proxy.Errors.{Redactor}
use codex_no.Rpc.{rpc_api_version}
use codex_no.Proxy.Health.{refresh_health, Probing}
use codex_no.Proxy.Runtime.{
  set_connect_timeout, ProxyRuntime, set_direct_fallback, set_paused, replace_candidates,
  new_runtime,
}
use codex_no.Model.Health.{CandidateHealth, GuardStatus}
use codex_no.Model.{
  RemoteControlStatus, GuardStatusKind, default_remote, is_degraded, DiagnosticEvent, is_healthy,
  FailureClass, app_server_crash, tool_state, authentication, rate_limit, server,
}
use codex_no.Config.{GuardConfig}
use codex_no.Discovery.Search.{discover, Host}
use codex_no.Base.{
  ℕ, ◌-◌, Bool, true, false, Option, none, some, List, if◌then◌else◌, is_some, find_if,
}
use codex_no.Base.Text.{Text, codes}
use codex_no.Url.{UrlLib}
use codex_no.Base.Results.{Result, ok, err}

-- A child process, by its number; and what `try_wait` tells of it.
abbrev pub Child : Type 0
Child = ℕ

pub data ChildState : Type 0 where
  running : ChildState
  exited : Text → ChildState
  not_inspected : Text → ChildState

-- What the daemon takes from outside while it handles one request: the host and the network, the
-- latest event in the logs of Codex, where Codex is and what it can do, the clock, and whether the
-- configuration can be written.
pub record World (U : UrlLib) : Type 0 where
  pub host : Host
  pub probing : Probing U
  pub last_failure : Option DiagnosticEvent
  pub find_real_codex : GuardConfig → Option Text
  pub supports_remote_control : Text → Bool
  pub try_wait : Child → ChildState
  pub spawn_remote_control : Text → Result Child
  pub pair : Text → Result Text
  pub doctor : Text → Option Text
  pub save_fault : Option Text
  pub uptime_secs : ℕ
  pub now : ℕ
  pub redactor : Redactor

-- `stored` is the configuration that the file holds.
pub record AppState (U : UrlLib) : Type 0 where
  pub config : GuardConfig
  pub stored : GuardConfig
  pub runtime : ProxyRuntime U
  pub remote : RemoteControlStatus
  pub remote_child : Option Child

-- The classes that are not about the network.
unfoldable pub is_not_network : FailureClass → Bool
is_not_network app_server_crash = true
is_not_network tool_state = true
is_not_network authentication = true
is_not_network rate_limit = true
is_not_network server = true
is_not_network _ = false

abbrev pub tells_not_network : Option DiagnosticEvent → Bool
tells_not_network none = false
tells_not_network (some event) = is_not_network event.failure_class

module _ (U : UrlLib) where
  -- The first healthy candidate, or else the first degraded one.
  unfoldable pub active_of : List (CandidateHealth U) → Option (CandidateHealth U)
  unfolding is_healthy is_degraded
  active_of candidates = elim (find_if (λ c. is_healthy c.state) candidates) [
    | some c ↦ some c
    | none ↦ find_if (λ c. is_degraded c.state) candidates
  ]

  abbrev pub has_healthy : Option (CandidateHealth U) → Bool
  has_healthy none = false
  has_healthy (some c) = is_healthy c.state

  unfoldable pub status_kind :
      Bool → Option (CandidateHealth U) → Option DiagnosticEvent → GuardStatusKind
  unfolding is_healthy is_not_network
  status_kind paused active last_failure =
      if paused
      then GuardStatusKind.paused
      else if has_healthy active
      then GuardStatusKind.protected
      else if is_some active
      then GuardStatusKind.degraded
      else if tells_not_network last_failure
      then GuardStatusKind.non_network_failure
      else GuardStatusKind.vpn_unavailable

  module _ (w : World U) where
    unfoldable pub status : AppState U → GuardStatus U
    status s =
        let active = active_of s.runtime.candidates in
        let kind = status_kind s.config.paused active w.last_failure in
        record {
          api_version = rpc_api_version;
          status = kind;
          paused = s.config.paused;
          listen = s.config.listen.printed;
          active_upstream = active;
          candidates = s.runtime.candidates;
          last_failure = w.last_failure;
          remote_control = s.remote;
          codex_path = w.find_real_codex s.config;
          uptime_secs = w.uptime_secs;
          guidance = guidance_for kind w.last_failure;
        }

    -- First the file, then the runtime, then the configuration in memory.
    unfoldable pub save_config : GuardConfig → AppState U → Result (Unit {0}) × AppState U
    unfolding set_paused set_direct_fallback set_connect_timeout
    save_config config s = elim w.save_fault [
      | some e ↦ (err e, s)
      | none ↦ (
        ok tt,
        record s {
          config = config;
          stored = config;
          runtime =
              set_connect_timeout U config.connect_timeout_ms (
                set_direct_fallback U config.direct_fallback
                  (set_paused U config.paused s.runtime));
        },
      )
    ]

    unfoldable pub refresh_once : AppState U → Result (Unit {0}) × AppState U
    unfolding replace_candidates
    refresh_once s = elim (discover U w.host s.config) [
      | err e ↦ (err e, s)
      | ok discovered ↦ (
        ok tt,
        record s {
          runtime =
              replace_candidates U
                (refresh_health U w.probing discovered s.runtime.candidates
                  s.config.connect_timeout_ms)
                s.runtime;
        },
      )
    ]

    abbrev pub is_running : Option Child → Bool
    is_running none = false
    is_running (some child) = elim (w.try_wait child) [ running ↦ true | _ ↦ false ]

    -- A child that still runs is left alone.
    unfoldable pub ensure_remote_started : Text → AppState U → Result (Unit {0}) × AppState U
    ensure_remote_started real s =
        if is_running s.remote_child then (ok tt, s) else elim (w.spawn_remote_control real) [
          | err e ↦ (err e, s)
          | ok child ↦ (
            ok tt,
            record s {
              remote_child = some child;
              remote = record s.remote {
                enabled = true;
                supported = true;
                online = true;
                detail = some (codes "remote-control is online");
                retry_after = none;
              };
            },
          )
        ]

-- The start of the daemon: a configuration that listens beyond the loopback is refused.
unfoldable pub start : (U : UrlLib) → GuardConfig → Result (AppState U)
unfolding new_runtime
start U config =
    if config.listen.is_loopback
    then ok (record {
      config = config;
      stored = config;
      runtime = new_runtime U config;
      remote = default_remote;
      remote_child = none;
    })
    else err (codes "refusing to bind a non-loopback proxy address")
