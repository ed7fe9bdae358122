-- ===== src/Front/Typed.antt =====
-- crates/cng/src/main.rs: what a command of `cng` does to the settings of the daemon.
use codex_no.Codex.Wrapper.Jobs.{run_wrapped}
use codex_no.Front.Intents.{Chooses, IntendsTyped}
use codex_no.Front.Clients.{rpc-Moves, paused_lem, chosen_lem}
use codex_no.Front.{
  Desk, Session, Action, ◌>>=◌, ◌>>◌, pure, lift, say, note, on_computer, with_context, null_params,
  bool_params, text_params, write_report,
}
use codex_no.Front.Cli.{
  report_context, legacy_note, Command, UpstreamCommand, RemoteCommand, ServiceCommand, show_status,
  refresh_now, run_doctor, upstream_command, run_codex, remote_command, service_command,
  pause_routing, list_upstreams, choose_upstream, automatic_upstream, start_remote, stop_remote,
  pair_remote, show_service, install_service, restart_service, uninstall_service, migrate_service,
  enable_terminal, disable_terminal, method_of_remote, rpc, print_status, export, print_value,
  run_upstream, show_steps, run_service, codex_code, run, code_of,
}
use codex_no.Front.Stays.{
  Stays, Stays-then, Stays-if, settings, Moves, Moves-then, Moves-of_Stays, write_report-Stays,
}
use codex_no.Service.Platforms.{
  status_on, install_on, uninstall_on, restart_on, migrate_on, enable_terminal_on,
  disable_terminal_on,
}
use codex_no.Config.{GuardConfig}
use codex_no.Service.Machine.{ServiceStatus, Steps}
use codex_no.Daemon.Settings.{Settings, found}
use codex_no.Daemon.Requests.{method_of, Reply}
use codex_no.Url.{UrlLib}
use codex_no.Base.Results.{Result, or_fail}
use codex_no.Base.{
  ℕ, ◌≡◌, refl, Bool, true, false, not, ◌||◌, Option, none, some, List, ◌++◌, if◌then◌else◌,
  is_some,
}
use codex_no.Base.Text.{Text, codes, text_eq, eq_ignore_ascii_case}

module _ (U : UrlLib) (desk : Desk U) where
  print_status-Stays : (value : Reply U) (json : Bool) → Stays (print_status U desk value json)
  unfolding print_status
  print_status-Stays value true =
      Stays-then (lift (desk.print_reply value)) say (λ s. refl) (λ t s. refl)
  print_status-Stays value false =
      Stays-then (lift (desk.read_status value)) _ (λ s. refl) (λ t s. refl)

  print_value-Stays : (value : Reply U) → Stays (print_value U desk value)
  print_value-Stays value = Stays-then (lift (desk.print_reply value)) say (λ s. refl) (λ t s. refl)

  export-Stays : (value : Reply U) (path : Option Text) → Stays (export U desk value path)
  unfolding export
  export-Stays value none = λ s. refl
  export-Stays value (some path) =
      Stays-then (lift (desk.print_reply value)) _ (λ s. refl)
        (λ encoded.
          Stays-then (with_context (report_context path) (write_report U desk path encoded))
            (λ u. say (codes "Redacted diagnostic report: " ++ path))
            (write_report-Stays U desk path encoded) (λ u s. refl))

  show_steps-Stays : (m : Steps ServiceStatus) → Stays (show_steps U desk m)
  show_steps-Stays m =
      Stays-then (on_computer m) _ (λ s. refl)
        (λ status.
          Stays-then (lift (desk.print_service status)) (λ text. say text >> told_of status)
            (λ s. refl)
            (λ text.
              Stays-then (say text) (λ u. told_of status) (λ s. refl)
                (λ u.
                  Stays-if status.legacy_guard_detected (note legacy_note) (pure tt) (λ s. refl)
                    (λ s. refl))))
    where
      told_of : ServiceStatus → Action U (Unit {0})
      told_of status = if status.legacy_guard_detected then note legacy_note else pure tt

  run_service-Stays : (command : ServiceCommand) → Stays (run_service U desk command)
  unfolding run_service
  run_service-Stays migrate_service =
      Stays-then
        (on_computer (migrate_on desk.outside desk.world.host.platform desk.backup_directory))
        (λ report. lift (desk.print_migration report) >>= say) (λ s. refl)
        (λ report. Stays-then (lift (desk.print_migration report)) say (λ s. refl) (λ text s. refl))
  run_service-Stays enable_terminal =
      Stays-then (on_computer (enable_terminal_on desk.outside desk.world.host.platform))
        (λ u. say (codes "Terminal integration enabled in " ++ desk.profile)) (λ s. refl)
        (λ u s. refl)
  run_service-Stays disable_terminal =
      Stays-then (on_computer (disable_terminal_on desk.outside desk.world.host.platform))
        (λ u. say (codes "Terminal integration removed from " ++ desk.profile)) (λ s. refl)
        (λ u s. refl)
  run_service-Stays show_service =
      show_steps-Stays (status_on desk.outside desk.world.host.platform 0)
  run_service-Stays install_service =
      show_steps-Stays (install_on desk.outside desk.world.host.platform)
  run_service-Stays restart_service =
      show_steps-Stays (restart_on desk.outside desk.world.host.platform)
  run_service-Stays uninstall_service =
      show_steps-Stays (uninstall_on desk.outside desk.world.host.platform)

  codex_code-Stays : (args : List Text) → Stays (codex_code U desk args)
  unfolding codex_code
  codex_code-Stays args =
      Stays-then (lift desk.load_config) with_config (λ s. refl)
        (λ config.
          Stays-then (lift (real_of config)) with_real (λ s. refl)
            (λ real.
              Stays-then (lift (run_wrapped desk.programs real args).1)
                (λ code. pure (code_of code)) (λ s. refl) (λ code s. refl)))
    where
      real_of : GuardConfig → Result Text
      real_of config =
          or_fail (desk.world.find_real_codex config)
            (codes "could not find an installed Codex CLI")

      with_real : Text → Action U ℕ
      with_real real = lift (run_wrapped desk.programs real args).1 >>= λ code. pure (code_of code)

      with_config : GuardConfig → Action U ℕ
      with_config config = lift (real_of config) >>= with_real

  printed_lem :
      (Q : Settings → Settings → Type 0) (m : Action U (Reply U)) (json : Bool) (s : Session U)
      → Moves Q (settings s) (m s)
      → Moves Q (settings s) ((m >>= (λ value. print_status U desk value json) >> pure {A = ℕ} 0) s)
  printed_lem Q m json s h =
      Moves-then Q (m >>= λ value. print_status U desk value json) (λ u. pure {A = ℕ} 0) s
        (Moves-then Q m (λ value. print_status U desk value json) s h
          (λ value. print_status-Stays value json))
        (λ u t. refl)

  run_upstream-Moves :
      (c : UpstreamCommand) (s : Session U)
      → Moves (IntendsTyped (upstream_command c)) (settings s) (run_upstream U desk c s)
  unfolding run_upstream method_of text_eq
  run_upstream-Moves (list_upstreams json) s =
      Moves-then (λ a b. b ≡ a) (rpc U desk (codes "upstream.list") null_params)
        (λ value. print_status U desk value json) s
        (rpc-Moves U desk (codes "upstream.list") null_params s)
        (λ value. print_status-Stays value json)
  run_upstream-Moves (choose_upstream url) s =
      Moves-then (Chooses (eq_ignore_ascii_case url (codes "auto")) url)
        (if eq_ignore_ascii_case url (codes "auto")
          then rpc U desk (codes "upstream.auto") null_params
          else rpc U desk (codes "upstream.set") (text_params (codes "url") url))
        (λ value. print_status U desk value false) s
        (chosen_lem U desk (rpc U desk) (rpc-Moves U desk) (eq_ignore_ascii_case url (codes "auto"))
          url s)
        (λ value. print_status-Stays value false)
  run_upstream-Moves automatic_upstream s =
      Moves-then (λ a b. b ≡ record a { source = found })
        (rpc U desk (codes "upstream.auto") null_params) (λ value. print_status U desk value false)
        s (rpc-Moves U desk (codes "upstream.auto") null_params s)
        (λ value. print_status-Stays value false)

  remote-Moves :
      (c : RemoteCommand) (s : Session U)
      → Moves
          (IntendsTyped (remote_command c))
          (settings s)
          (rpc U desk (method_of_remote c) null_params s)
  unfolding method_of text_eq
  remote-Moves start_remote s = rpc-Moves U desk (codes "remote.start") null_params s
  remote-Moves stop_remote s = rpc-Moves U desk (codes "remote.stop") null_params s
  remote-Moves pair_remote s = rpc-Moves U desk (codes "remote.pair") null_params s

  -- What follows a report that the daemon gives.
  exported : Bool → Option Text → Reply U → Action U ℕ
  unfolding export
  exported json path value =
      export U desk value path
      >> ((if json || not (is_some path) then print_value U desk value else pure tt) >> pure 0)

  exported-Stays :
      (json : Bool) (path : Option Text) (value : Reply U) → Stays (exported json path value)
  unfolding exported
  exported-Stays json path value =
      Stays-then (export U desk value path) (λ u. last >> pure 0) (export-Stays value path)
        (λ u.
          Stays-then last (λ v. pure 0)
            (Stays-if (json || not (is_some path)) (print_value U desk value) (pure tt)
              (print_value-Stays value) (λ s. refl))
            (λ v s. refl))
    where
      last : Action U (Unit {0})
      last = if json || not (is_some path) then print_value U desk value else pure tt

  pub run-Moves :
      (c : Command) (s : Session U) → Moves (IntendsTyped c) (settings s) (run U desk c s)
  unfolding run method_of text_eq exported
  run-Moves (show_status json) s =
      printed_lem (λ a b. b ≡ a) (rpc U desk (codes "status") null_params) json s
        (rpc-Moves U desk (codes "status") null_params s)
  run-Moves (refresh_now json) s =
      printed_lem (λ a b. b ≡ a) (rpc U desk (codes "refresh") null_params) json s
        (rpc-Moves U desk (codes "refresh") null_params s)
  run-Moves (run_doctor json path) s =
      Moves-then (λ a b. b ≡ a) (rpc U desk (codes "doctor") null_params) (exported json path) s
        (rpc-Moves U desk (codes "doctor") null_params s) (exported-Stays json path)
  run-Moves (upstream_command c) s =
      Moves-then (IntendsTyped (upstream_command c)) (run_upstream U desk c) (λ u. pure {A = ℕ} 0) s
        (run_upstream-Moves c s) (λ u t. refl)
  run-Moves (run_codex args) s = Moves-of_Stays (codex_code U desk args) s (codex_code-Stays args)
  run-Moves (remote_command c) s =
      Moves-then (IntendsTyped (remote_command c))
        (rpc U desk (method_of_remote c) null_params >>= print_value U desk) (λ u. pure {A = ℕ} 0) s
        (Moves-then (IntendsTyped (remote_command c)) (rpc U desk (method_of_remote c) null_params)
          (print_value U desk) s (remote-Moves c s) print_value-Stays)
        (λ u t. refl)
  run-Moves (service_command c) s =
      Moves-then (λ a b. b ≡ a) (run_service U desk c) (λ u. pure {A = ℕ} 0) s
        (Moves-of_Stays (run_service U desk c) s (run_service-Stays c)) (λ u t. refl)
  run-Moves (pause_routing state json) s =
      printed_lem (λ a b. b ≡ record a { paused = text_eq state (codes "on") })
        (rpc U desk (codes "pause") (bool_params (codes "paused") (text_eq state (codes "on"))))
        json s (paused_lem U desk (rpc U desk) (rpc-Moves U desk) (text_eq state (codes "on")) s)
