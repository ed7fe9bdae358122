-- ===== src/Service/Macos.antt =====
-- crates/cng-core/src/service.rs: the service on macOS, a LaunchAgent.
pub mod Custody
pub mod Ending
mod Examples
use codex_no.Service.Environment.{printed, previous_value}
use codex_no.Service.Machine.{
  find_source, find_home, make_bin, unlink_wrapper, link_wrapper, make_logs, write_agent,
  remove_agent, copy, make_executable, bootout, bootstrap, kickstart, read_variable, set_variable,
  restore_variable, write_state, ask_service, Outside, ServiceStatus, Steps, ◌>>=◌, ◌>>◌,
  drop_state, remove_programs, rolled_back, unless_saved, with_variable, with_saved, with_logs,
  with_agent, with_loaded, with_restored, has_file, with_bin, with_file, without_file, pure, fail,
  look, ensure, ignore, when, attempt, command, unchanged,
}
use codex_no.Service.Profile.{disable_terminal_path}
use codex_no.Service.{xml_escape}
use codex_no.Base.{
  ℕ, zero, suc, ◌+◌, ◌-◌, ◌/◌, ◌<◌, true, false, not, ◌&&◌, none, some, List, [], ◌∷◌, ◌++◌,
  if◌then◌else◌, is_some,
}
use codex_no.Base.Text.{Text, codes, text_eq}

-- The LaunchAgent.
unfoldable pub launch_agent_xml : Text → Text → Text → Text
unfolding xml_escape
launch_agent_xml daemon wrapper logs =
    codes
      "<?xml version=\"1.0\" encoding=\"UTF-8\"?>\n<!DOCTYPE plist PUBLIC \"-//Apple//DTD PLIST 1.0//EN\" \"http://www.apple.com/DTDs/PropertyList-1.0.dtd\">\n<plist version=\"1.0\">\n<dict>\n  <key>Label</key><string>dev.codex-network-guard.daemon</string>\n  <key>ProgramArguments</key>\n  <array><string>"
    ++ (xml_escape daemon
        ++ (codes
              "</string></array>\n  <key>EnvironmentVariables</key>\n  <dict><key>CODEX_CLI_PATH</key><string>"
            ++ (xml_escape wrapper
                ++ (codes
                      "</string></dict>\n  <key>RunAtLoad</key><true/>\n  <key>KeepAlive</key><true/>\n  <key>ProcessType</key><string>Background</string>\n  <key>ThrottleInterval</key><integer>5</integer>\n  <key>StandardOutPath</key><string>"
                    ++ (xml_escape logs
                        ++ (codes
                              "/daemon.stdout.log</string>\n  <key>StandardErrorPath</key><string>"
                            ++ (xml_escape logs
                                ++ codes "/daemon.stderr.log</string>\n</dict>\n</plist>\n")))))))

abbrev pub wrapper_names : List Text
wrapper_names = codes "cngd" ∷ codes "cng-codex" ∷ codes "cng" ∷ []

module _ (w : Outside) where
  unfoldable pub status : ℕ → Steps ServiceStatus
  status n = do
    attempt w find_home unchanged
    running ← command w (ask_service n) unchanged
    look λ c. record {
      installed = is_some c.agent;
      running = running;
      legacy_guard_detected = w.has_legacy;
      launch_agent = codes "Library/LaunchAgents/dev.codex-network-guard.daemon.plist";
    }

  -- A program that is in its place already only gets its permissions.
  unfoldable pub copy_executable : Text → Steps (Unit {0})
  unfolding text_eq
  copy_executable name = do
    there ← look (has_file name)
    when (not (w.is_same_file name && there)) (attempt w (copy name) (with_file name))
    attempt w (make_executable name) unchanged

  unfoldable pub link_terminal_wrapper : Steps (Unit {0})
  unfolding text_eq
  link_terminal_wrapper = do
    there ← look (has_file (codes "codex"))
    when there (attempt w unlink_wrapper (without_file (codes "codex")))
    attempt w link_wrapper (with_file (codes "codex"))

  -- The files of the installation.
  unfoldable pub place_files : Steps (Unit {0})
  unfolding copy_executable link_terminal_wrapper launch_agent_xml
  place_files = do
    attempt w find_source unchanged
    ensure (w.has_source (codes "cng")) (codes "cng must be next to the installer")
    ensure (w.has_source (codes "cngd")) (codes "cngd must be next to cng")
    ensure (w.has_source (codes "cng-codex")) (codes "cng-codex must be next to cng")
    attempt w find_home unchanged
    attempt w make_bin with_bin
    copy_executable (codes "cngd")
    copy_executable (codes "cng-codex")
    copy_executable (codes "cng")
    link_terminal_wrapper
    attempt w make_logs with_logs
    attempt w write_agent (with_agent (some (launch_agent_xml w.daemon w.wrapper w.logs)))

  unfoldable pub load_service : Steps (Unit {0})
  load_service = do
    ignore (command w bootout (with_loaded false))
    started ← command w bootstrap (with_loaded true)
    ensure started (codes "launchctl bootstrap failed")

  -- A state file that exists is kept.
  unfoldable pub save_previous_environment : Steps (Unit {0})
  unfolding previous_value
  save_previous_environment c =
      unless_saved c.environment.saved
        (do
          attempt w read_variable unchanged
          attempt w write_state
              λ d. with_saved (previous_value w.wrapper (printed d.environment.variable)) d)
        c

  unfoldable pub redirect : Steps (Unit {0})
  unfolding save_previous_environment
  redirect = do
    save_previous_environment
    done ← command w set_variable (with_variable (some w.wrapper))
    ensure done (codes "could not set CODEX_CLI_PATH")

  unfoldable pub restore_previous_environment : Steps (Unit {0})
  restore_previous_environment = do
    done ← command w restore_variable (with_restored w)
    ensure done (codes "could not restore CODEX_CLI_PATH")
    drop_state w

  unfoldable pub remove_service : Steps (Unit {0})
  remove_service c =
      when (is_some c.agent)
        (ignore (command w bootout (with_loaded false)) >> attempt w remove_agent (with_agent none))
        c

  unfoldable pub release : Steps (Unit {0})
  unfolding text_eq restore_previous_environment
  release = do
    attempt w read_variable unchanged
    value ← look λ c. printed c.environment.variable
    if text_eq value w.wrapper then restore_previous_environment else drop_state w

  unfoldable pub uninstall : ℕ → Steps ServiceStatus
  unfolding remove_service release status disable_terminal_path
  uninstall n = do
    attempt w find_home unchanged
    remove_service
    release
    ignore (disable_terminal_path w)
    remove_programs w
    status n

  -- The rounds in which the daemon is asked, from the n-th on.
  unfoldable pub await_daemon : ℕ → ℕ → Steps ServiceStatus
  unfolding status uninstall
  await_daemon zero n = ignore (uninstall n) >> fail rolled_back
  await_daemon (suc rounds) n = do
    service ← status n
    if service.running && w.answers n then pure service else await_daemon rounds (n + 1)

  unfoldable pub install : Steps ServiceStatus
  unfolding place_files load_service redirect await_daemon
  install = do place_files; load_service; redirect; await_daemon 24 0

  unfoldable pub restart : Steps ServiceStatus
  unfolding status
  restart = do
    started ← command w kickstart unchanged
    ensure started (codes "launchctl kickstart failed")
    status 0
