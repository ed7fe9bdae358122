-- ===== src/Daemon/Sample.antt =====
-- crates/cngd/src/main.rs: a small daemon on macOS and its world, for tests.
use codex_no.Model.{default_remote}
use codex_no.Config.{GuardMode, GuardConfig}
use codex_no.Proxy.Health.{Probing}
use codex_no.Proxy.Tunnel.{Network}
use codex_no.Proxy.Errors.{Redactor}
use codex_no.Discovery.System.{Machine}
use codex_no.Base.{true, false, none, some, []}
use codex_no.Base.Text.{codes}
use codex_no.Url.Sample.{sample_lib}
use codex_no.Base.Results.{ok, err}
use codex_no.Discovery.Search.{Host, macos}
use codex_no.Daemon.{default_remote, GuardConfig, World, AppState, Probing, Redactor, Host, exited}

abbrev pub machine : Machine
machine = record {
  pac_captures = λ t. [];
  scutil_captures = λ t. [];
  registry_captures = λ t. [];
  download = λ t. err (codes "offline");
  scutil = ok none;
  registry = err (codes "no registry");
}

abbrev pub host : Host
host = record {
  platform = macos;
  machine = machine;
  variable = λ key. some (codes "http://10.0.0.2:8080");
  find_password = ok none;
  add_password = λ value. ok true;
}

abbrev pub redactor : Redactor
redactor = record { hide_credentials = λ t. t; home_dir = none }

abbrev pub network : Network
network = record {
  tcp_connect = λ a. err (codes "refused");
  is_server_name = λ n. true;
  has_native_roots = true;
  tls_connect = λ n s. err (codes "refused");
  socks_connect = λ a c h p. err (codes "refused");
  percent_decode = λ t. t;
  base64 = λ t. t;
}

abbrev pub probing : Probing sample_lib
probing = record {
  network = network;
  is_late = λ c limit. false;
  elapsed_ms = λ c. 1;
  now = λ c. 50;
  redactor = redactor;
}

-- Codex exits again and again, and cannot be started.
abbrev pub world : World sample_lib
world = record {
  host = host;
  probing = probing;
  last_failure = none;
  find_real_codex = λ c. some (codes "/usr/local/bin/codex");
  supports_remote_control = λ p. true;
  try_wait = λ child. exited (codes "1");
  spawn_remote_control = λ p. err (codes "no such file");
  pair = λ p. err (codes "no answer");
  doctor = λ p. none;
  save_fault = none;
  uptime_secs = 5;
  now = 50;
  redactor = redactor;
}

abbrev pub config : GuardConfig
config = record {
  listen = record { is_loopback = true; port = 17890; printed = codes "127.0.0.1:17890" };
  mode = GuardMode.auto;
  health_interval_secs = 5;
  connect_timeout_ms = 2500;
  direct_fallback = false;
  remote_control_keepalive = true;
  paused = false;
  manual_upstream = none;
  manual_upstream_keychain = false;
  codex_path = none;
}

abbrev pub first_state : AppState sample_lib
first_state = record {
  config = config;
  stored = config;
  runtime = record {
    candidates = [];
    is_paused = false;
    direct_fallback = false;
    connect_timeout = 2500;
  };
  remote = default_remote;
  remote_child = some 77;
}

abbrev pub start_state : AppState sample_lib
start_state = record first_state { remote_child = none }
