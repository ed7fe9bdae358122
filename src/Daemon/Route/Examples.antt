-- ===== src/Daemon/Route/Examples.antt =====
-- crates/cngd/src/main.rs: a daemon whose refresh finds a proxy that answers, and the theorem there.
use codex_no.Proxy.Header.{chunk, read_http_header, find_header_end}
use codex_no.Proxy.Errors.{crlf, Redactor}
use codex_no.Proxy.Tunnel.{Network, Stream, write_all, connect_tunnel, status_of}
use codex_no.Proxy.Health.{probe_codex_route, probe_detail, check_candidate, refresh_health}
use codex_no.Proxy.Connect.{Outside}
use codex_no.Proxy.Runtime.{new_runtime}
use codex_no.Discovery.Search.{macos, discover, manual_upstream}
use codex_no.Daemon.{AppState, World, status, status_kind, start, refresh_once, running, active_of}
use codex_no.Daemon.Steps.{refreshed, started, stepped}
use codex_no.Daemon.Route.{IsTaken, status-IsTaken}
use codex_no.Config.{GuardMode, GuardConfig}
use codex_no.Model.{default_remote, GuardStatusKind}
use codex_no.Base.{◌≡◌, refl, true, false, none, some, [], ◌∷◌, ◌++◌}
use codex_no.Base.Text.{codes, split_once}
use codex_no.Discovery.{deduplicate, add_url, normalized}
use codex_no.Discovery.Search.{collected, manual_candidates}
use codex_no.Model.Candidate.{from_url, kind_of_scheme, is_relay, candidate_id, endpoint}
use codex_no.Base.Utf8.{from_utf8}
use codex_no.Daemon.Coherence.{HoldsNoSecret}
use codex_no.Proxy.Tunnel.{parse_u16}
use codex_no.Url.Sample.{sample_lib}
use codex_no.Base.Results.{ok, err}

abbrev answering : Stream
answering = record {
  incoming = chunk (codes "HTTP/1.1 200 OK" ++ (crlf ++ crlf)) ∷ [];
  sent = [];
  write_fault = none;
}

abbrev network : Network
network = record {
  tcp_connect = λ a. ok answering;
  is_server_name = λ n. true;
  has_native_roots = true;
  tls_connect = λ n s. ok answering;
  socks_connect = λ a c h p. err (codes "refused");
  percent_decode = λ t. t;
  base64 = λ t. t;
}

abbrev redactor : Redactor
redactor = record { hide_credentials = λ t. t; home_dir = none }

abbrev world : World sample_lib
world = record {
  host = record {
    platform = macos;
    machine = record {
      pac_captures = λ t. [];
      scutil_captures = λ t. [];
      registry_captures = λ t. [];
      download = λ t. err (codes "offline");
      scutil = ok none;
      registry = err (codes "no registry");
    };
    variable = λ key. some (codes "http://10.0.0.2:8080");
    find_password = ok none;
    add_password = λ value. ok true;
  };
  probing = record {
    network = network;
    is_late = λ c limit. false;
    elapsed_ms = λ c. 1;
    now = λ c. 50;
    redactor = redactor;
  };
  last_failure = none;
  find_real_codex = λ c. none;
  supports_remote_control = λ p. false;
  try_wait = λ child. running;
  spawn_remote_control = λ p. err (codes "no such file");
  pair = λ p. err (codes "no answer");
  doctor = λ p. none;
  save_fault = none;
  uptime_secs = 5;
  now = 50;
  redactor = redactor;
}

abbrev config : GuardConfig
config = record {
  listen = record { is_loopback = true; port = 17890; printed = codes "127.0.0.1:17890" };
  mode = GuardMode.manual_mode;
  health_interval_secs = 5;
  connect_timeout_ms = 2500;
  direct_fallback = false;
  remote_control_keepalive = true;
  paused = false;
  manual_upstream = some (codes "http://a:8");
  manual_upstream_keychain = false;
  codex_path = none;
}

abbrev start_state : AppState sample_lib
start_state = record {
  config = config;
  stored = config;
  runtime = record {
    candidates = [];
    is_paused = false;
    direct_fallback = false;
    connect_timeout = 2500;
  };
  remote = default_remote;
  remote_child = none;
}

start_lem : start sample_lib config ≡ ok start_state
unfolding start new_runtime
start_lem = refl

abbrev last_state : AppState sample_lib
last_state = (refresh_once sample_lib world start_state).1

protected_lem : (status sample_lib world last_state).status ≡ GuardStatusKind.protected
unfolding status refresh_once discover refresh_health check_candidate probe_detail probe_codex_route
    connect_tunnel status_kind manual_upstream active_of deduplicate collected manual_candidates
    add_url split_once normalized from_url kind_of_scheme parse_u16 is_relay candidate_id endpoint
    write_all read_http_header find_header_end from_utf8 status_of
protected_lem = refl

abbrev outside : Outside sample_lib
outside = record {
  network = network;
  is_slow = λ d host port limit. false;
  direct_connect = λ host port. err (codes "refused");
  redactor = redactor;
}

clean_lem : HoldsNoSecret sample_lib config config.manual_upstream
unfolding split_once
clean_lem = (_, refl, refl)

status-IsTaken_example :
    (last_state.runtime.is_paused ≡ false)
    × IsTaken sample_lib outside
        (codes "chatgpt.com")
        443
        last_state.runtime
        (status sample_lib world last_state).active_upstream
status-IsTaken_example =
    status-IsTaken sample_lib config world outside (codes "chatgpt.com") 443 clean_lem
      (stepped (started start_state start_lem) (refreshed world start_state)) protected_lem
