-- ===== src/Service/Windows.antt =====
-- crates/cng-core/src/service.rs: the service on Windows, a task of the Task Scheduler.
pub mod Custody
use codex_no.Service.Machine.{
  find_source, find_home, make_bin, make_logs, copy, read_variable, set_variable, restore_variable,
  write_state, ask_service, create_task, run_task, end_task, delete_task, Outside, ServiceStatus,
  Steps, ◌>>=◌, ◌>>◌, pure, fail, look, ensure, ignore, on_error, when, attempt, command, unchanged,
  drop_state, remove_programs, rolled_back, unless_saved, with_variable, with_saved, with_logs,
  with_loaded, with_restored, has_file, with_bin, with_file,
}
use codex_no.Base.{
  ℕ, zero, suc, ◌+◌, ◌-◌, Bool, true, false, not, ◌&&◌, Option, none, some, List, [], ◌∷◌,
  if◌then◌else◌,
}
use codex_no.Base.Text.{Text, codes, text_eq, is_empty, trim, lines, split_once}

abbrev after_type : Option (Text × Text) → Option Text
after_type none = none
after_type (some (before, value)) = some (trim value)

-- The first line that has a value.
unfoldable pub find_value : List Text → Option Text
unfolding split_once trim
find_value [] = none
find_value (line ∷ rest) = elim (after_type (split_once (codes "REG_SZ") line)) [
  | some value ↦ some value
  | none ↦ find_value rest
]

abbrev pub if_some_text : Option Text → Option Text
if_some_text none = none
if_some_text (some value) = if is_empty value then none else some value

-- The value in what `reg query` prints.
unfoldable pub parse_query : Text → Option Text
unfolding find_value lines
parse_query output = if_some_text (find_value (lines output))

-- The value unless it is the wrapper.
abbrev pub other_than : Text → Option Text → Option Text
other_than wrapper none = none
other_than wrapper (some value) = if text_eq value wrapper then none else some value

abbrev pub is_this : Text → Option Text → Bool
is_this wrapper none = false
is_this wrapper (some value) = text_eq value wrapper

module _ (w : Outside) where
  unfoldable pub status : ℕ → Steps ServiceStatus
  status n = do
    installed ← command w (ask_service n) unchanged
    when installed (attempt w find_home unchanged)
    pure (record {
      installed = installed;
      running = installed && w.answers n;
      legacy_guard_detected = false;
      launch_agent = codes "Task Scheduler\\CodexNetworkGuard";
    })

  -- A variable that is not there makes the query fail.
  abbrev pub queried : Option Text → Option Text
  queried none = none
  queried (some value) = parse_query (w.query_output value)

  unfoldable pub read_windows_user_environment : Steps (Option Text)
  unfolding parse_query
  read_windows_user_environment = do
    attempt w read_variable unchanged
    look λ c. queried c.environment.variable

  unfoldable pub set_windows_user_environment : Steps (Unit {0})
  set_windows_user_environment = do
    done ← command w set_variable (with_variable (some w.wrapper))
    ensure done (codes "could not set the Windows CODEX_CLI_PATH user variable")

  unfoldable pub save_previous_environment_windows : Steps (Unit {0})
  unfolding read_windows_user_environment text_eq
  save_previous_environment_windows c =
      unless_saved c.environment.saved
        (do
          previous ← read_windows_user_environment
          attempt w write_state λ d. with_saved (other_than w.wrapper previous) d)
        c

  unfoldable pub restore_previous_environment_windows : Steps (Unit {0})
  restore_previous_environment_windows = do
    done ← command w restore_variable (with_restored w)
    ensure done (codes "could not restore the Windows CODEX_CLI_PATH user variable")
    drop_state w

  unfoldable pub copy_executable : Text → Steps (Unit {0})
  unfolding text_eq
  copy_executable name c =
      when (not (w.is_same_file name && has_file name c)) (attempt w (copy name) (with_file name)) c

  unfoldable pub place_files : Steps (Unit {0})
  unfolding copy_executable
  place_files = do
    attempt w find_source unchanged
    ensure (w.has_source (codes "cng.exe")) (codes "cng.exe must be next to the installer")
    ensure (w.has_source (codes "cngd.exe")) (codes "cngd.exe must be next to cng.exe")
    ensure (w.has_source (codes "cng-codex.exe")) (codes "cng-codex.exe must be next to cng.exe")
    attempt w find_home unchanged
    attempt w make_bin with_bin
    copy_executable (codes "cngd.exe")
    copy_executable (codes "cng-codex.exe")
    copy_executable (codes "cng.exe")
    attempt w make_logs with_logs

  unfoldable pub release : Steps (Unit {0})
  unfolding read_windows_user_environment restore_previous_environment_windows text_eq
  release = do
    value ← read_windows_user_environment
    if is_this w.wrapper value then restore_previous_environment_windows else drop_state w

  unfoldable pub uninstall : ℕ → Steps ServiceStatus
  unfolding release status
  uninstall n = do
    ignore (command w delete_task (with_loaded false))
    attempt w find_home unchanged
    release
    remove_programs w
    status n

  unfoldable pub redirect : Steps (Unit {0})
  unfolding set_windows_user_environment uninstall
  redirect c = on_error (set_windows_user_environment c) (ignore (uninstall 0))

  unfoldable pub start_task : Steps (Unit {0})
  unfolding uninstall
  start_task = do
    started ← command w run_task unchanged
    if started
        then pure tt
        else (ignore (uninstall 0) >> fail (codes "could not start the CNG logon task"))

  -- The rounds in which the task is asked, from the n-th on.
  unfoldable pub await_daemon : ℕ → ℕ → Steps ServiceStatus
  unfolding status uninstall
  await_daemon zero n = ignore (uninstall n) >> fail rolled_back
  await_daemon (suc rounds) n = do
    service ← status n
    if service.running then pure service else await_daemon rounds (n + 1)

  unfoldable pub install : Steps ServiceStatus
  unfolding place_files save_previous_environment_windows redirect start_task await_daemon
  install = do
    place_files
    save_previous_environment_windows
    created ← command w create_task (with_loaded true)
    ensure created (codes "could not create the CNG logon task")
    redirect
    start_task
    await_daemon 24 0

  unfoldable pub restart : Steps ServiceStatus
  unfolding status
  restart = do
    ignore (command w end_task unchanged)
    started ← command w run_task unchanged
    ensure started (codes "could not restart the CNG logon task")
    status 0
