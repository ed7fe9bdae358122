-- ===== src/Front/Clicked.antt =====
-- apps/desktop/src-tauri/src/main.rs: what a command of the window does to the settings of the daemon.
use codex_no.Front.Actions.{ask-Moves, asked_lem, choose-Moves, act-Moves}
use codex_no.Front.Intents.{IntendsClicked}
use codex_no.Front.Clients.{window_rpc-Moves, paused_lem}
use codex_no.Front.Desktop.{
  service_answer, migration_answer, probe_answer, exported_to, opened, not_opened, open_app_now,
  report_place, report_path, onboarding,
}
use codex_no.Discovery.Search.{discover}
use codex_no.Model.Candidate.{UpstreamCandidate}
use codex_no.Proxy.Health.{refresh_health}
use codex_no.Daemon.Settings.{settings_of}
use codex_no.Front.{
  Desk, Session, Action, ◌>>=◌, ◌>>◌, pure, lift, on_computer, null_params, bool_params,
  write_report,
}
use codex_no.Front.Desktop.{
  WindowCommand, Answer, guard_status, refresh_guard, set_paused, remote_action, doctor,
  export_diagnostic, set_upstream, service_status, install_guard, migrate_legacy_guard,
  onboarding_probe, open_codex, window_rpc, export_report, probe, open_on, window, menu_event,
}
use codex_no.Front.Stays.{
  Stays, Stays-then, Stays-if, settings, Moves, Moves-then, Moves-of_Stays, write_report-Stays,
}
use codex_no.Service.Platforms.{status_on, install_on, migrate_on}
use codex_no.Config.{GuardConfig}
use codex_no.Service.Machine.{Steps}
use codex_no.Discovery.Search.{Platform, macos, windows, elsewhere}
use codex_no.Daemon.Settings.{Settings}
use codex_no.Daemon.Requests.{method_of, Reply}
use codex_no.Url.{UrlLib}
use codex_no.Base.Results.{Result, ok, err}
use codex_no.Base.{◌≡◌, refl, ap, inl, inr, Bool, List, [], if◌then◌else◌, Bool-cases}
use codex_no.Base.Text.{Text, codes, text_eq}

module _ (U : UrlLib) (desk : Desk U) where
  -- What follows a report that the daemon gives.
  filed : Reply U → Action U (Answer U)
  unfolding write_report report_path
  filed report = lift (report_place U desk) >>= λ directory.
      lift (desk.print_reply report) >>= λ encoded.
      write_report U desk (report_path U desk directory desk.world.now) encoded
      >> pure (exported_to (report_path U desk directory desk.world.now))

  filed-Stays : (report : Reply U) → Stays (filed report)
  unfolding filed
  filed-Stays report =
      Stays-then (lift (report_place U desk)) in_directory (λ s. refl)
        (λ directory.
          Stays-then (lift (desk.print_reply report)) (written directory) (λ s. refl)
            (λ encoded.
              Stays-then (write_report U desk (report_path U desk directory desk.world.now) encoded)
                (λ u. pure (exported_to (report_path U desk directory desk.world.now)))
                (write_report-Stays U desk (report_path U desk directory desk.world.now) encoded)
                (λ u s. refl)))
    where
      written : Text → Text → Action U (Answer U)
      written directory encoded =
          write_report U desk (report_path U desk directory desk.world.now) encoded
          >> pure (exported_to (report_path U desk directory desk.world.now))

      in_directory : Text → Action U (Answer U)
      in_directory directory = lift (desk.print_reply report) >>= written directory

  probe-Stays : Stays (probe U desk)
  unfolding probe
  probe-Stays =
      Stays-then (lift desk.load_config) with_config (λ s. refl)
        (λ config.
          Stays-then (lift (discover U desk.world.host config)) (with_candidates config) (λ s. refl)
            (λ candidates s. refl))
    where
      with_candidates : GuardConfig → List (UpstreamCandidate U) → Action U (Answer U)
      with_candidates config candidates = pure (
          probe_answer (
            onboarding U desk config
              (refresh_health U desk.world.probing candidates [] config.connect_timeout_ms)))

      with_config : GuardConfig → Action U (Answer U)
      with_config config = lift (discover U desk.world.host config) >>= with_candidates config

  opened-Stays : Stays (open_app_now U desk)
  opened-Stays =
      Stays-then (lift desk.open_app) answer_of (λ s. refl)
        (λ done. Stays-if done (pure opened) (lift (err not_opened)) (λ s. refl) (λ s. refl))
    where
      answer_of : Bool → Action U (Answer U)
      answer_of done = if done then pure opened else lift (err not_opened)

  abbrev answered : {A : Type 0} → Steps A → (A → Answer U) → Action U (Answer U)
  answered m answer = on_computer m >>= λ a. pure (answer a)

  answered-Stays : {A : Type 0} (m : Steps A) (answer : A → Answer U) → Stays (answered m answer)
  answered-Stays m answer =
      Stays-then (on_computer m) (λ a. pure (answer a)) (λ s. refl) (λ a s. refl)

  open_on-Stays : (platform : Platform) → Stays (open_on U desk platform)
  open_on-Stays elsewhere s = refl
  open_on-Stays macos s = opened-Stays s
  open_on-Stays windows s = opened-Stays s

  pub window-Moves :
      (c : WindowCommand) (s : Session U)
      → Moves (IntendsClicked c) (settings s) (window U desk c s)
  unfolding window method_of text_eq export_report filed
  window-Moves guard_status s = ask-Moves U desk (codes "status") null_params s
  window-Moves refresh_guard s = ask-Moves U desk (codes "refresh") null_params s
  window-Moves (set_paused paused) s =
      asked_lem U desk (λ a b. b ≡ record a { paused = paused })
        (window_rpc U desk (codes "pause") (bool_params (codes "paused") paused)) s
        (paused_lem U desk (window_rpc U desk) (window_rpc-Moves U desk) paused s)
  window-Moves (remote_action action) s = act-Moves U desk action s
  window-Moves doctor s = ask-Moves U desk (codes "doctor") null_params s
  window-Moves export_diagnostic s =
      Moves-then (λ a b. b ≡ a) (window_rpc U desk (codes "doctor") null_params) filed s
        (window_rpc-Moves U desk (codes "doctor") null_params s) filed-Stays
  window-Moves (set_upstream url) s = choose-Moves U desk url s
  window-Moves service_status s =
      Moves-of_Stays (answered (status_on desk.outside desk.world.host.platform 0) service_answer) s
        (answered-Stays (status_on desk.outside desk.world.host.platform 0) service_answer)
  window-Moves install_guard s =
      Moves-of_Stays (answered (install_on desk.outside desk.world.host.platform) service_answer) s
        (answered-Stays (install_on desk.outside desk.world.host.platform) service_answer)
  window-Moves migrate_legacy_guard s =
      Moves-of_Stays
        (answered (migrate_on desk.outside desk.world.host.platform desk.backup_directory)
          migration_answer)
        s
        (answered-Stays (migrate_on desk.outside desk.world.host.platform desk.backup_directory)
          migration_answer)
  window-Moves onboarding_probe s = Moves-of_Stays (probe U desk) s probe-Stays
  window-Moves open_codex s =
      Moves-of_Stays (open_on U desk desk.world.host.platform) s
        (open_on-Stays desk.world.host.platform)

  refreshed_lem :
      (s : Session U) → settings (window_rpc U desk (codes "refresh") null_params s).1 ≡ settings s
  unfolding method_of text_eq
  refreshed_lem s =
      unmoved (settings s) (window_rpc U desk (codes "refresh") null_params s)
        (window_rpc-Moves U desk (codes "refresh") null_params s)
    where
      unmoved :
          (a : Settings) (o : Result (Reply U) × Session U)
          → Moves (λ x y. y ≡ x) a o
          → settings o.1 ≡ a
      unmoved a (ok r, t) h = h
      unmoved a (err e, t) (inl h) = h
      unmoved a (err e, t) (inr h) = h

  -- The menu leaves the settings alone.
  pub settings-menu_event :
      (id : Text) (s : Session U) → settings (menu_event U desk id s) ≡ settings s
  unfolding menu_event
  settings-menu_event id s = elim (Bool-cases (text_eq id (codes "refresh"))) [
    | inl e ↦ rw (e, menu_event) (refreshed_lem s)
    | inr e ↦ elim (Bool-cases (text_eq id (codes "codex"))) [
      | inl f ↦
          rw (e, f, menu_event)
            (ap (λ d. settings_of d.config) (open_on-Stays desk.world.host.platform s))
      | inr f ↦ rw (e, f, menu_event) refl
    ]
  ]
