-- ===== src/Config.antt =====
-- crates/cng-core/src/config.rs: the configuration and its defaults.
pub mod Files
use codex_no.Base.{ℕ, Bool, true, false, Option, none}
use codex_no.Base.Text.{Text, codes}
use codex_no.Model.Candidate.{default_listen_port}

-- A socket address as far as the program reads it: whether its IP is a loopback address, its port,
-- and its printed form.
pub record SocketAddr : Type 0 where
  pub is_loopback : Bool
  pub port : ℕ
  pub printed : Text

pub data GuardMode : Type 0 where
  auto manual_mode : GuardMode

pub record GuardConfig : Type 0 where
  pub listen : SocketAddr
  pub mode : GuardMode
  pub health_interval_secs : ℕ
  pub connect_timeout_ms : ℕ
  pub direct_fallback : Bool
  pub remote_control_keepalive : Bool
  pub paused : Bool
  pub manual_upstream : Option Text
  pub manual_upstream_keychain : Bool
  pub codex_path : Option Text

-- `SocketAddr::new(IpAddr::V4(Ipv4Addr::LOCALHOST), DEFAULT_LISTEN_PORT)`.
unfoldable pub default_listen : SocketAddr
default_listen = record {
  is_loopback = true;
  port = default_listen_port;
  printed = codes "127.0.0.1:17890";
}

unfoldable pub default_config : GuardConfig
unfolding default_listen
default_config = record {
  listen = default_listen;
  mode = auto;
  health_interval_secs = 5;
  connect_timeout_ms = 2500;
  direct_fallback = false;
  remote_control_keepalive = true;
  paused = false;
  manual_upstream = none;
  manual_upstream_keychain = false;
  codex_path = none;
}
