-- ===== src/Model.antt =====
-- crates/cng-core/src/model.rs: the enumerations and the records that carry no URL.
pub mod Candidate
pub mod Health
pub mod Order
pub mod Made
pub mod Redaction
mod Examples
use codex_no.Base.{ℕ, Bool, true, false, Option, none}
use codex_no.Base.Text.{Text}

pub data UpstreamKind : Type 0 where
  http https socks5 : UpstreamKind

pub data CandidateSource : Type 0 where
  manual system_pac system_proxy environment known_loopback : CandidateSource

unfoldable pub priority : CandidateSource → ℕ
priority manual = 0
priority system_pac = 1
priority system_proxy = 2
priority environment = 3
priority known_loopback = 4

pub data HealthState : Type 0 where
  healthy degraded down unknown : HealthState

unfoldable pub rank : HealthState → ℕ
rank healthy = 0
rank degraded = 1
rank unknown = 2
rank down = 3

pub data FailureClass : Type 0 where
  proxy_unavailable dns tls proxy_protocol web_socket authentication rate_limit server :
      FailureClass
  app_server_crash tool_state timeout other : FailureClass

-- `kind as u8`: the place in the declaration.
unfoldable pub kind_number : UpstreamKind → ℕ
kind_number http = 0
kind_number https = 1
kind_number socks5 = 2

-- The derived equality of `HealthState` at the values that the program compares with.
unfoldable pub is_healthy : HealthState → Bool
is_healthy healthy = true
is_healthy _ = false

unfoldable pub is_degraded : HealthState → Bool
is_degraded degraded = true
is_degraded _ = false

unfoldable pub is_down : HealthState → Bool
is_down down = true
is_down _ = false

pub data GuardStatusKind : Type 0 where
  protected degraded vpn_unavailable non_network_failure paused : GuardStatusKind

pub record UserGuidance : Type 0 where
  pub title : Text
  pub detail : Text
  pub action_label : Option Text
  pub action : Option Text

-- Times are numbers of seconds.
pub record DiagnosticEvent : Type 0 where
  pub timestamp : ℕ
  pub failure_class : FailureClass
  pub summary : Text
  pub source : Text
  pub request_id : Option Text

pub record RemoteControlStatus : Type 0 where
  pub enabled : Bool
  pub supported : Bool
  pub online : Bool
  pub detail : Option Text
  pub retry_after : Option ℕ

abbrev pub default_remote : RemoteControlStatus
default_remote = record {
  enabled = false;
  supported = false;
  online = false;
  detail = none;
  retry_after = none;
}
