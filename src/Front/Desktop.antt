-- ===== src/Front/Desktop.antt =====
-- apps/desktop/src-tauri/src/main.rs: the commands of the window and of the menu.
use codex_no.Front.{
  Desk, Session, Action, ◌>>=◌, ◌>>◌, pure, lift, unless_fault, on_computer, null_params,
  bool_params, text_params, call, write_report,
}
use codex_no.Service.Platforms.{status_on, install_on, migrate_on}
use codex_no.Service.Migration.{MigrationReport}
use codex_no.Service.Machine.{ServiceStatus}
use codex_no.Discovery.Search.{Platform, elsewhere, discover}
use codex_no.Proxy.Health.{refresh_health}
use codex_no.Daemon.Requests.{Params, Reply}
use codex_no.Model.Health.{CandidateHealth}
use codex_no.Model.{is_healthy}
use codex_no.Config.{GuardConfig}
use codex_no.Url.{UrlLib}
use codex_no.Base.Results.{Result, err, or_fail}
use codex_no.Base.{
  ℕ, Bool, not, ◌||◌, Option, none, some, List, [], ◌++◌, if◌then◌else◌, is_some, length, keep_if,
}
use codex_no.Base.Text.{Text, codes, text_eq, is_empty, trim, eq_ignore_ascii_case, decimal}

pub data WindowCommand : Type 0 where
  guard_status refresh_guard : WindowCommand
  set_paused : Bool → WindowCommand
  remote_action : Text → WindowCommand
  doctor export_diagnostic : WindowCommand
  set_upstream : Text → WindowCommand
  service_status install_guard migrate_legacy_guard onboarding_probe open_codex : WindowCommand

pub record OnboardingProbe : Type 0 where
  pub codex_found : Bool
  pub codex_path : Option Text
  pub candidate_count : ℕ
  pub healthy_count : ℕ

pub data Answer (U : UrlLib) : Type 0 where
  daemon_answer : Reply U → Answer U
  service_answer : ServiceStatus → Answer U
  migration_answer : MigrationReport → Answer U
  probe_answer : OnboardingProbe → Answer U
  exported_to : Text → Answer U
  opened : Answer U

abbrev pub is_remote_action : Text → Bool
is_remote_action action =
    text_eq action (codes "start")
    || (text_eq action (codes "stop") || text_eq action (codes "pair"))

abbrev pub not_opened : Text
not_opened = codes "Codex could not be opened"

-- `Option::or_else`.
abbrev first_of : Option Text → Option Text → Option Text
first_of none other = other
first_of (some a) other = some a

module _ (U : UrlLib) (desk : Desk U) where
  unfoldable pub window_rpc : Text → Params → Action U (Reply U)
  unfolding call
  window_rpc method params = unless_fault desk.socket_fault >> call U desk method params

  abbrev pub ask : Text → Params → Action U (Answer U)
  ask method params = window_rpc method params >>= λ reply. pure (daemon_answer reply)

  unfoldable pub act_remotely : Text → Action U (Answer U)
  unfolding window_rpc text_eq
  act_remotely action =
      if not (is_remote_action action)
      then lift (err (codes "invalid remote action"))
      else ask (codes "remote." ++ action) null_params

  unfoldable pub choose : Text → Action U (Answer U)
  unfolding window_rpc trim eq_ignore_ascii_case
  choose url =
      if is_empty (trim url) || eq_ignore_ascii_case (trim url) (codes "auto")
      then ask (codes "upstream.auto") null_params
      else ask (codes "upstream.set") (text_params (codes "url") (trim url))

  -- The path of a report that is written at this second.
  unfoldable pub report_path : Text → ℕ → Text
  unfolding decimal
  report_path directory now =
      desk.join_path directory (codes "cng-diagnostic-" ++ (decimal now ++ codes ".json"))

  abbrev pub report_place : Result Text
  report_place =
      or_fail (first_of desk.desktop_dir desk.support_dir)
        (codes "cannot determine a location for the diagnostic report")

  unfoldable pub export_report : Action U (Answer U)
  unfolding window_rpc report_path write_report
  export_report = do
    report ← window_rpc (codes "doctor") null_params
    directory ← lift report_place
    encoded ← lift (desk.print_reply report)
    write_report U desk (report_path directory desk.world.now) encoded
    pure (exported_to (report_path directory desk.world.now))

  unfoldable pub onboarding : GuardConfig → List (CandidateHealth U) → OnboardingProbe
  unfolding is_healthy
  onboarding config health = record {
    codex_found = is_some (desk.world.find_real_codex config);
    codex_path = desk.world.find_real_codex config;
    candidate_count = length health;
    healthy_count = length (keep_if (λ h. is_healthy h.state) health);
  }

  unfoldable pub probe : Action U (Answer U)
  unfolding discover refresh_health onboarding
  probe = do
    config ← lift desk.load_config
    candidates ← lift (discover U desk.world.host config)
    pure (
        probe_answer (
          onboarding config
            (refresh_health U desk.world.probing candidates [] config.connect_timeout_ms)))

  abbrev pub open_app_now : Action U (Answer U)
  open_app_now = do done ← lift desk.open_app; if done then pure opened else lift (err not_opened)

  abbrev pub open_on : Platform → Action U (Answer U)
  open_on elsewhere =
      lift (err (codes "opening Codex from the desktop app is not implemented on this platform"))
  open_on _ = open_app_now

  unfoldable pub window : WindowCommand → Action U (Answer U)
  unfolding window_rpc act_remotely choose export_report probe
  window guard_status = ask (codes "status") null_params
  window refresh_guard = ask (codes "refresh") null_params
  window (set_paused paused) = ask (codes "pause") (bool_params (codes "paused") paused)
  window (remote_action action) = act_remotely action
  window doctor = ask (codes "doctor") null_params
  window export_diagnostic = export_report
  window (set_upstream url) = choose url
  window service_status = on_computer (status_on desk.outside desk.world.host.platform 0) >>= λ s.
      pure (service_answer s)
  window install_guard = on_computer (install_on desk.outside desk.world.host.platform) >>= λ s.
      pure (service_answer s)
  window migrate_legacy_guard =
      on_computer (migrate_on desk.outside desk.world.host.platform desk.backup_directory) >>= λ r.
      pure (migration_answer r)
  window onboarding_probe = probe
  window open_codex = open_on desk.world.host.platform

  -- An entry of the menu, by its id; what comes of it is ignored.
  unfoldable pub menu_event : Text → Session U → Session U
  unfolding window_rpc text_eq
  menu_event id s =
      if text_eq id (codes "refresh")
      then (window_rpc (codes "refresh") null_params s).1
      else if text_eq id (codes "codex")
      then (open_on desk.world.host.platform s).1
      else s
