-- ===== src/Front/Report.antt =====
-- crates/cng/src/main.rs: `print_status`, the status as it is printed for a user.
use codex_no.Model.Health.{CandidateHealth, GuardStatus}
use codex_no.Model.{
  HealthState, FailureClass, RemoteControlStatus, DiagnosticEvent, GuardStatusKind,
}
use codex_no.Url.{UrlLib}
use codex_no.Base.{ℕ, Option, none, some, List, [], ◌∷◌, ◌++◌, if◌then◌else◌}
use codex_no.Base.Text.{Text, codes, decimal}

unfoldable pub headline : GuardStatusKind → Text
headline GuardStatusKind.protected = codes "Protected"
headline GuardStatusKind.degraded = codes "Degraded"
headline GuardStatusKind.vpn_unavailable = codes "VPN unavailable"
headline GuardStatusKind.non_network_failure = codes "Non-network Codex failure"
headline GuardStatusKind.paused = codes "Paused"

-- The derived `Debug` of the two enumerations.
abbrev pub debug_state : HealthState → Text
debug_state HealthState.healthy = codes "Healthy"
debug_state HealthState.degraded = codes "Degraded"
debug_state HealthState.down = codes "Down"
debug_state HealthState.unknown = codes "Unknown"

abbrev pub debug_class : FailureClass → Text
debug_class FailureClass.proxy_unavailable = codes "ProxyUnavailable"
debug_class FailureClass.dns = codes "Dns"
debug_class FailureClass.tls = codes "Tls"
debug_class FailureClass.proxy_protocol = codes "ProxyProtocol"
debug_class FailureClass.web_socket = codes "WebSocket"
debug_class FailureClass.authentication = codes "Authentication"
debug_class FailureClass.rate_limit = codes "RateLimit"
debug_class FailureClass.server = codes "Server"
debug_class FailureClass.app_server_crash = codes "AppServerCrash"
debug_class FailureClass.tool_state = codes "ToolState"
debug_class FailureClass.timeout = codes "Timeout"
debug_class FailureClass.other = codes "Unknown"

abbrev dash : Text
dash = codes " — "

-- `unwrap_or_default`.
abbrev or_zero : Option ℕ → ℕ
or_zero none = 0
or_zero (some n) = n

abbrev pub remote_word : RemoteControlStatus → Text
remote_word r =
    if r.online
    then codes "online"
    else if r.supported
    then codes "offline"
    else codes "unsupported"

abbrev pub failure_lines : Option DiagnosticEvent → List Text
failure_lines none = []
failure_lines (some f) =
    (codes "Latest diagnostic: " ++ (debug_class f.failure_class ++ (dash ++ f.summary))) ∷ []

abbrev pub action_lines : Option Text → List Text
action_lines none = []
action_lines (some action) = (codes "Suggested action: " ++ action) ∷ []

module _ (U : UrlLib) where
  abbrev pub upstream_line : Option (CandidateHealth U) → Text
  upstream_line none = codes "Upstream: none healthy"
  upstream_line (some active) =
      codes "Upstream: "
      ++ (active.candidate.label
          ++ (codes " ("
              ++ (debug_state active.state
                  ++ (codes ", " ++ (decimal (or_zero active.latency_ms) ++ codes " ms)")))))

  unfoldable pub status_lines : GuardStatus U → List Text
  unfolding headline decimal
  status_lines s =
      (codes "Codex Network Guard: " ++ headline s.status)
      ∷ (codes "Relay: " ++ s.listen)
      ∷ upstream_line s.active_upstream
      ∷ (codes "Remote control: " ++ remote_word s.remote_control)
      ∷ (failure_lines s.last_failure
          ++ ((codes "Next step: " ++ (s.guidance.title ++ (dash ++ s.guidance.detail)))
              ∷ action_lines s.guidance.action_label))
