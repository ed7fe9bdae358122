-- ===== src/Daemon/Settings.antt =====
-- crates/cngd/src/main.rs: the requests as moves of the settings that a user thinks of.
pub mod Refined
use codex_no.Config.{GuardConfig, GuardMode, auto, manual_mode}
use codex_no.Daemon.Requests.{
  ask_status, ask_refresh, ask_doctor, ask_pair, handle_doctor, handle_refresh, method_of, ask_pair,
  manual_config, handle, remote_start, remote_pair, handle_auto, with_remote, handle_pause,
  set_upstream, remote_stop, handle_set, dispatch, Method, ask_pause, ask_auto, ask_set, ask_start,
  ask_stop, ask_unknown, Params, Reply, status_reply, doctor_reply, Outcome, after, tell_status,
}
use codex_no.Daemon.{
  AppState, World, save_config, refresh_once, ensure_remote_started, status, is_running,
}
use codex_no.Discovery.Search.{save_manual_upstream, discover}
use codex_no.Base.Results.{Result, ok, err, Result-cases}
use codex_no.Url.{UrlLib}
use codex_no.Base.{
  ap, ◌≡◌, refl, ◌∙◌, ◌⊎◌, inl, inr, Bool, true, false, Option, some, Bool-cases, Option-cases,
}
use codex_no.Base.Text.{Text, codes}

-- Where the upstream comes from, in the user's eyes.
pub data Source : Type 0 where
  found : Source
  in_keychain : Source
  given : Option Text → Source

pub record Settings : Type 0 where
  pub paused : Bool
  pub source : Source
  pub keepalive : Bool

abbrev pub source_of : GuardMode → Bool → Option Text → Source
source_of auto kept value = found
source_of manual_mode true value = in_keychain
source_of manual_mode false value = given value

abbrev pub settings_of : GuardConfig → Settings
settings_of c = record {
  paused = c.paused;
  source = source_of c.mode c.manual_upstream_keychain c.manual_upstream;
  keepalive = c.remote_control_keepalive;
}

-- What a request asks of the settings; the rest of them stays as it is.
abbrev pub Asks : Method → Params → Settings → Settings → Type 0
Asks ask_pause p a b =
    (v : Bool) × (p.get_bool (codes "paused") ≡ some v) × (b ≡ record a { paused = v })
Asks ask_auto p a b = b ≡ record a { source = found }
Asks ask_set p a b =
    (v : Text) × (p.get_str (codes "url") ≡ some v)
    × ((b ≡ record a { source = in_keychain }) ⊎ (b ≡ record a { source = given (some v) }))
Asks ask_start p a b = b ≡ record a { keepalive = true }
Asks ask_stop p a b = b ≡ record a { keepalive = false }
Asks ask_unknown p a b = ⊥
Asks _ p a b = b ≡ a

module _ (U : UrlLib) where
  -- An answer that shows the pause shows the one of the settings.
  abbrev pub Shows : Reply U → Settings → Type 0
  Shows (status_reply g) b = g.paused ≡ b.paused
  Shows (doctor_reply r) b = r.guard.paused ≡ b.paused
  Shows _ b = Unit

  -- A request that is answered has moved the settings as it asks, and the answer shows them; one that
  -- fails has left them alone or moved them as it asks.
  abbrev pub Refines : Method → Params → Settings → Result (Reply U) × AppState U → Type 0
  Refines m p a (ok r, t) = Asks m p a (settings_of t.config) × Shows r (settings_of t.config)
  Refines m p a (err e, t) = (settings_of t.config ≡ a) ⊎ Asks m p a (settings_of t.config)
