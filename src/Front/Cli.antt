-- ===== src/Front/Cli.antt =====
-- crates/cng/src/main.rs: the commands of `cng`.
use codex_no.Codex.Wrapper.Jobs.{run_wrapped}
use codex_no.Front.{
  Desk, Session, error_line, Action, ◌>>=◌, ◌>>◌, pure, lift, unless_fault, say, say_all, note,
  on_computer, with_context, null_params, bool_params, text_params, call, write_report,
}
use codex_no.Front.Report.{status_lines}
use codex_no.Service.Platforms.{
  status_on, install_on, uninstall_on, restart_on, migrate_on, enable_terminal_on,
  disable_terminal_on,
}
use codex_no.Service.Machine.{ServiceStatus, Steps}
use codex_no.Daemon.Requests.{Params, Reply}
use codex_no.Url.{UrlLib}
use codex_no.Base.Results.{Result, ok, err, or_fail}
use codex_no.Base.{
  ℕ, Bool, true, false, not, ◌||◌, Option, none, some, List, [], ◌∷◌, ◌++◌, if◌then◌else◌, is_some,
}
use codex_no.Base.Text.{Text, codes, text_eq, eq_ignore_ascii_case}

pub data UpstreamCommand : Type 0 where
  list_upstreams : Bool → UpstreamCommand
  choose_upstream : Text → UpstreamCommand
  automatic_upstream : UpstreamCommand

pub data RemoteCommand : Type 0 where
  start_remote stop_remote pair_remote : RemoteCommand

pub data ServiceCommand : Type 0 where
  show_service install_service restart_service uninstall_service : ServiceCommand
  migrate_service enable_terminal disable_terminal : ServiceCommand

-- The Booleans are the flag `--json`.
pub data Command : Type 0 where
  show_status : Bool → Command
  refresh_now : Bool → Command
  run_doctor : Bool → Option Text → Command
  upstream_command : UpstreamCommand → Command
  run_codex : List Text → Command
  remote_command : RemoteCommand → Command
  service_command : ServiceCommand → Command
  pause_routing : Text → Bool → Command

abbrev pub method_of_remote : RemoteCommand → Text
method_of_remote start_remote = codes "remote.start"
method_of_remote stop_remote = codes "remote.stop"
method_of_remote pair_remote = codes "remote.pair"

-- `code().unwrap_or(1)`.
abbrev pub code_of : Option ℕ → ℕ
code_of none = 1
code_of (some n) = n

abbrev pub unreachable_daemon : Text
unreachable_daemon = codes "Codex Network Guard daemon is not reachable; run `cng service install`"

abbrev pub legacy_note : Text
legacy_note = codes "Note: legacy com.openai.codex-proxy-guard was detected and was not modified."

abbrev pub report_context : Text → Text
report_context path = codes "write diagnostic report to " ++ path

module _ (U : UrlLib) (desk : Desk U) where
  unfoldable pub rpc : Text → Params → Action U (Reply U)
  unfolding call
  rpc method params =
      unless_fault desk.socket_fault >> with_context unreachable_daemon (call U desk method params)

  unfoldable pub print_status : Reply U → Bool → Action U (Unit {0})
  unfolding status_lines
  print_status value true = lift (desk.print_reply value) >>= say
  print_status value false = do
    status ← lift (desk.read_status value)
    say_all (status_lines U status)

  unfoldable pub export : Reply U → Option Text → Action U (Unit {0})
  unfolding write_report
  export value none = pure tt
  export value (some path) = do
    encoded ← lift (desk.print_reply value)
    with_context (report_context path) (write_report U desk path encoded)
    say (codes "Redacted diagnostic report: " ++ path)

  abbrev pub print_value : Reply U → Action U (Unit {0})
  print_value value = lift (desk.print_reply value) >>= say

  unfoldable pub run_upstream : UpstreamCommand → Action U (Unit {0})
  unfolding rpc print_status eq_ignore_ascii_case
  run_upstream (list_upstreams json) =
      rpc (codes "upstream.list") null_params >>= λ value. print_status value json
  run_upstream (choose_upstream url) =
      (if eq_ignore_ascii_case url (codes "auto")
        then rpc (codes "upstream.auto") null_params
        else rpc (codes "upstream.set") (text_params (codes "url") url))
      >>= λ value. print_status value false
  run_upstream automatic_upstream =
      rpc (codes "upstream.auto") null_params >>= λ value. print_status value false

  abbrev pub show_steps : Steps ServiceStatus → Action U (Unit {0})
  show_steps m = do
    status ← on_computer m
    text ← lift (desk.print_service status)
    say text
    if status.legacy_guard_detected then note legacy_note else pure tt

  unfoldable pub run_service : ServiceCommand → Action U (Unit {0})
  run_service migrate_service = do
    report ← on_computer (migrate_on desk.outside desk.world.host.platform desk.backup_directory)
    text ← lift (desk.print_migration report)
    say text
  run_service enable_terminal =
      on_computer (enable_terminal_on desk.outside desk.world.host.platform)
      >> say (codes "Terminal integration enabled in " ++ desk.profile)
  run_service disable_terminal =
      on_computer (disable_terminal_on desk.outside desk.world.host.platform)
      >> say (codes "Terminal integration removed from " ++ desk.profile)
  run_service show_service = show_steps (status_on desk.outside desk.world.host.platform 0)
  run_service install_service = show_steps (install_on desk.outside desk.world.host.platform)
  run_service restart_service = show_steps (restart_on desk.outside desk.world.host.platform)
  run_service uninstall_service = show_steps (uninstall_on desk.outside desk.world.host.platform)

  -- The code that Codex ends with.
  unfoldable pub codex_code : List Text → Action U ℕ
  unfolding run_wrapped
  codex_code args = do
    config ← lift desk.load_config
    real ← lift (
        or_fail (desk.world.find_real_codex config) (codes "could not find an installed Codex CLI"))
    code ← lift (run_wrapped desk.programs real args).1
    pure (code_of code)

  unfoldable pub run : Command → Action U ℕ
  unfolding rpc print_status export run_upstream run_service codex_code text_eq
  run (show_status json) =
      rpc (codes "status") null_params >>= (λ value. print_status value json) >> pure 0
  run (refresh_now json) =
      rpc (codes "refresh") null_params >>= (λ value. print_status value json) >> pure 0
  run (run_doctor json path) = do
    value ← rpc (codes "doctor") null_params
    export value path
    if json || not (is_some path) then print_value value else pure tt
    pure 0
  run (upstream_command command) = run_upstream command >> pure 0
  run (run_codex args) = codex_code args
  run (remote_command command) =
      rpc (method_of_remote command) null_params >>= print_value >> pure 0
  run (service_command command) = run_service command >> pure 0
  run (pause_routing state json) =
      rpc (codes "pause") (bool_params (codes "paused") (text_eq state (codes "on")))
      >>= (λ value. print_status value json)
      >> pure 0

  abbrev pub finish : Result ℕ × Session U → ℕ × Session U
  finish (ok code, s) = (code, s)
  finish (err e, s) = (1, record s { lines = s.lines ++ error_line (codes "cng: " ++ e) ∷ [] })

  -- The code that `cng` exits with.
  unfoldable pub main : Command → Session U → ℕ × Session U
  unfolding run
  main command s = finish (run command s)
