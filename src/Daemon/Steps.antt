-- ===== src/Daemon/Steps.antt =====
-- crates/cngd/src/main.rs: what can happen to the daemon's state. Requests, refreshes and rounds of the
-- keepalive loop follow one another in any order, each in a world of its own.
use codex_no.Daemon.Keepalive.{keepalive_round, Keeper, Clock}
use codex_no.Daemon.Requests.{handle, Params}
use codex_no.Config.{GuardConfig}
use codex_no.Daemon.{refresh_once, World, start, AppState}
use codex_no.Base.{◌≡◌}
use codex_no.Base.Text.{Text}
use codex_no.Url.{UrlLib}
use codex_no.Base.Results.{ok}

pub data Step (U : UrlLib) : AppState U → AppState U → Type 0 where
  handled :
      (w : World U) (s : AppState U) (method : Text) (params : Params)
      → Step U s (handle U w s method params).1
  refreshed : (w : World U) (s : AppState U) → Step U s (refresh_once U w s).1
  kept_alive :
      (w : World U) (clock : Clock) (k : Keeper U) → Step U k.app (keepalive_round U w clock k).app

-- The states that a daemon which was started with the configuration can reach.
pub data Reachable (U : UrlLib) (config : GuardConfig) : AppState U → Type 0 where
  started : (s : AppState U) → start U config ≡ ok s → Reachable U config s
  stepped : {s t : AppState U} → Reachable U config s → Step U s t → Reachable U config t
