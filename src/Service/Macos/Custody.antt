-- ===== src/Service/Macos/Custody.antt =====
-- crates/cng-core/src/service.rs: on macOS the installation and the removal keep the user's own value.
use codex_no.Service.Profile.Keeps.{written-Keeps, disable_terminal_path-Keeps}
use codex_no.Service.Migration.{
  copy_programs, back_up_legacy, migrate_legacy, report, legacy_programs, plist_copy,
}
use codex_no.Service.Machine.{
  copy_legacy, make_legacy_backup, disable_legacy, with_copy, make_executable, without_legacy,
  make_backup, copy_profile,
}
use codex_no.Service.Profile.{back_up, with_backup, text_or_empty}
use codex_no.Service.{block_start, enabled_profile}
use codex_no.Service.Custody.{
  untouched_attempt, untouched_command, untouched_then, remove_programs-Keeps, is_printed,
  is_printed-own, is_printed_self, IsWrapper,
}
use codex_no.Service.Machine.{read_profile}
use codex_no.Service.Environment.{IsOwn, printed, previous_value, previous_lem}
use codex_no.Service.Machine.{
  Computer, Outside, pure, fail, look, unchanged, find_source, find_home, make_bin, make_logs,
  write_agent, bootout, bootstrap, kickstart, ask_service, set_variable, read_variable, copy,
  unlink_wrapper, link_wrapper, remove_agent, rolled_back, with_variable, with_logs, with_agent,
  with_loaded, with_bin, with_file, without_file, has_file,
}
use codex_no.Service.Keeps.{
  Keeps, Keeps-same, Keeps-ignore, Keeps-from, Keeps-bind, Keeps-ensure, Keeps-when, Keeps-if,
  Keeps-command, Leaves-resume,
}
use codex_no.Service.Custody.{IsHeld, IsSaved, IsSound, releasing-IsHeld, saving-IsSaved}
use codex_no.Service.Profile.{disable_terminal_path, enable_terminal_path}
use codex_no.Service.Macos.{
  status, copy_executable, link_terminal_wrapper, place_files, load_service,
  save_previous_environment, redirect, restore_previous_environment, remove_service, release,
  uninstall, await_daemon, install, restart, launch_agent_xml,
}
use codex_no.Base.{
  ℕ, zero, suc, ◌+◌, refl, ap, ◌∙◌, inr, true, false, not, ◌&&◌, Option, none, some, List, [], ◌∷◌,
  is_some,
}
use codex_no.Base.Text.{Text, codes, contains}

module _ (wrapper : Text) (v : Option Text) (w : Outside) where
  abbrev P : Computer → Type 0
  P = IsHeld wrapper v

  pub status-Keeps : (n : ℕ) → Keeps P (status w n)
  unfolding status
  status-Keeps n =
      untouched_then wrapper v w _ _ (untouched_attempt wrapper v w find_home unchanged (λ c. refl))
        (Keeps-bind P _ _ (untouched_command wrapper v w (ask_service n) unchanged (λ c. refl))
          (λ b. Keeps-same P _ (λ c. refl)))

  pub copy_executable-Keeps : (name : Text) → Keeps P (copy_executable w name)
  unfolding copy_executable
  copy_executable-Keeps name =
      Keeps-bind P (look (has_file name)) _ (Keeps-same P _ (λ c. refl)) (λ there.
        untouched_then wrapper v w _ _
          (Keeps-when P (not (w.is_same_file name && there)) _
            (untouched_attempt wrapper v w (copy name) (with_file name) (λ c. refl)))
          (untouched_attempt wrapper v w (make_executable name) unchanged (λ c. refl)))

  pub link-Keeps : Keeps P (link_terminal_wrapper w)
  unfolding link_terminal_wrapper
  link-Keeps =
      Keeps-bind P (look (has_file (codes "codex"))) _ (Keeps-same P _ (λ c. refl)) (λ there.
        untouched_then wrapper v w _ _
          (Keeps-when P there _ (
            untouched_attempt wrapper v w unlink_wrapper (without_file (codes "codex"))
              (λ c. refl)))
          (untouched_attempt wrapper v w link_wrapper (with_file (codes "codex")) (λ c. refl)))

  pub place_files-Keeps : Keeps P (place_files w)
  unfolding place_files
  place_files-Keeps =
      untouched_then wrapper v w _ _
        (untouched_attempt wrapper v w find_source unchanged (λ c. refl))
        (untouched_then wrapper v w _ _
          (Keeps-ensure P (w.has_source (codes "cng")) (codes "cng must be next to the installer"))
          (untouched_then wrapper v w _ _
            (Keeps-ensure P (w.has_source (codes "cngd")) (codes "cngd must be next to cng"))
            (untouched_then wrapper v w _ _
              (Keeps-ensure P (w.has_source (codes "cng-codex"))
                (codes "cng-codex must be next to cng"))
              (untouched_then wrapper v w _ _
                (untouched_attempt wrapper v w find_home unchanged (λ c. refl))
                (untouched_then wrapper v w _ _
                  (untouched_attempt wrapper v w make_bin with_bin (λ c. refl))
                  (untouched_then wrapper v w _ _ (copy_executable-Keeps (codes "cngd")) (
                    untouched_then wrapper v w _ _ (copy_executable-Keeps (codes "cng-codex")) (
                      untouched_then wrapper v w _ _ (copy_executable-Keeps (codes "cng")) (
                        untouched_then wrapper v w _ _ link-Keeps (
                          untouched_then wrapper v w _ _
                            (untouched_attempt wrapper v w make_logs with_logs (λ c. refl))
                            (untouched_attempt wrapper v w write_agent
                              (with_agent (some (launch_agent_xml w.daemon w.wrapper w.logs)))
                              (λ c. refl))))))))))))

  pub load_service-Keeps : Keeps P (load_service w)
  unfolding load_service
  load_service-Keeps =
      untouched_then wrapper v w _ _
        (Keeps-ignore P _ (untouched_command wrapper v w bootout (with_loaded false) (λ c. refl)))
        (Keeps-bind P _ _ (untouched_command wrapper v w bootstrap (with_loaded true) (λ c. refl))
          (λ started. Keeps-ensure P started (codes "launchctl bootstrap failed")))

  pub restart-Keeps : Keeps P (restart w)
  unfolding restart
  restart-Keeps =
      Keeps-bind P _ _ (untouched_command wrapper v w kickstart unchanged (λ c. refl)) (λ started.
        untouched_then wrapper v w _ _ (Keeps-ensure P started (codes "launchctl kickstart failed"))
          (status-Keeps 0))

  pub remove_service-Keeps : Keeps P (remove_service w)
  unfolding remove_service
  remove_service-Keeps = Keeps-from P _ (λ c. Keeps-when P (is_some c.agent) _ (
      untouched_then wrapper v w _ _
        (Keeps-ignore P _ (untouched_command wrapper v w bootout (with_loaded false) (λ c. refl)))
        (untouched_attempt wrapper v w remove_agent (with_agent none) (λ d. refl))))

  pub disable-Keeps : Keeps P (disable_terminal_path w)
  disable-Keeps = disable_terminal_path-Keeps P (λ p c h. h) w

  pub back_up-Keeps : Keeps P (back_up w)
  unfolding back_up
  back_up-Keeps = Keeps-from P _ (λ c.
      Keeps-when P (is_some c.shell.profile && not (is_some c.shell.backup)) _
        (untouched_attempt wrapper v w copy_profile (with_backup c.shell.profile) (λ d. refl)))

  pub enable-Keeps : Keeps P (enable_terminal_path w)
  unfolding enable_terminal_path
  enable-Keeps =
      untouched_then wrapper v w _ _ (untouched_attempt wrapper v w find_home unchanged (λ c. refl))
        (Keeps-bind P (look (λ c. text_or_empty (w.fault read_profile) c.shell.profile)) _
          (Keeps-same P _ (λ c. refl))
          (λ original.
            Keeps-if P (contains block_start original) (pure tt) _
              (Keeps-same P (pure tt) (λ c. refl))
              (untouched_then wrapper v w _ _
                (untouched_attempt wrapper v w make_backup unchanged (λ c. refl))
                (untouched_then wrapper v w _ _ back_up-Keeps
                  (written-Keeps P (λ p c h. h) w (enabled_profile w.bin original))))))

  pub copy_programs-Keeps : (names : List Text) → Keeps P (copy_programs w names)
  unfolding copy_programs
  copy_programs-Keeps [] = Keeps-same P (pure tt) (λ c. refl)
  copy_programs-Keeps (name ∷ names) =
      untouched_then wrapper v w _ _
        (Keeps-when P (w.has_legacy_program name) _
          (untouched_attempt wrapper v w (copy_legacy name) (with_copy name) (λ c. refl)))
        (copy_programs-Keeps names)

  pub back_up_legacy-Keeps : Keeps P (back_up_legacy w)
  unfolding back_up_legacy
  back_up_legacy-Keeps =
      untouched_then wrapper v w _ _ (untouched_attempt wrapper v w find_home unchanged (λ c. refl))
        (untouched_then wrapper v w _ _
          (untouched_attempt wrapper v w make_legacy_backup unchanged (λ c. refl))
          (untouched_then wrapper v w _ _
            (untouched_attempt wrapper v w (copy_legacy plist_copy) (with_copy plist_copy)
              (λ c. refl))
            (copy_programs-Keeps legacy_programs)))

  pub migrate-Keeps : (directory : Text) → Keeps P (migrate_legacy w directory)
  unfolding migrate_legacy
  migrate-Keeps directory = Keeps-bind P (status w 0) _ (status-Keeps 0) (λ current.
      untouched_then wrapper v w _ _
        (Keeps-ensure P (current.installed && current.running)
          (codes "install and verify Codex Network Guard before migrating the legacy guard"))
        (untouched_then wrapper v w _ _
          (Keeps-ensure P current.legacy_guard_detected (codes "no legacy guard was detected"))
          (untouched_then wrapper v w _ _ back_up_legacy-Keeps (
            Keeps-bind P _ _
              (untouched_command wrapper v w disable_legacy without_legacy (λ c. refl))
              (λ disabled.
                untouched_then wrapper v w _ _
                  (Keeps-ensure P disabled (codes "legacy LaunchAgent could not be disabled"))
                  (Keeps-same P (pure (report w directory)) (λ c. refl)))))))

  module _ (sound : IsSound wrapper v w) (shape : IsWrapper wrapper) (own : IsOwn wrapper v) where
    pub release-Keeps : Keeps P (release w)
    unfolding release restore_previous_environment
    release-Keeps =
        untouched_then wrapper v w _ _
          (untouched_attempt wrapper v w read_variable unchanged (λ c. refl))
          (record {
            kept = λ c h.
                releasing-IsHeld wrapper v w sound c (codes "could not restore CODEX_CLI_PATH")
                  (is_printed w.wrapper)
                  (ap (λ x. is_printed x v) sound.0 ∙ is_printed-own wrapper v shape own)
                  (ap (λ x. is_printed x (some wrapper)) sound.0 ∙ is_printed_self wrapper shape) h;
          })

    pub uninstall-Keeps : (n : ℕ) → Keeps P (uninstall w n)
    unfolding uninstall
    uninstall-Keeps n =
        untouched_then wrapper v w _ _
          (untouched_attempt wrapper v w find_home unchanged (λ c. refl))
          (untouched_then wrapper v w _ _ remove_service-Keeps (
            untouched_then wrapper v w _ _ release-Keeps (
              untouched_then wrapper v w _ _ (Keeps-ignore P _ disable-Keeps) (
                untouched_then wrapper v w _ _ (remove_programs-Keeps wrapper v w)
                  (status-Keeps n)))))

    pub await-Keeps : (rounds n : ℕ) → Keeps P (await_daemon w rounds n)
    unfolding await_daemon
    await-Keeps zero n =
        untouched_then wrapper v w _ _ (Keeps-ignore P _ (uninstall-Keeps n))
          (Keeps-same P (fail rolled_back) (λ c. refl))
    await-Keeps (suc rounds) n = Keeps-bind P _ _ (status-Keeps n) (λ service.
        Keeps-if P (service.running && w.answers n) (pure service) _
          (Keeps-same P (pure service) (λ c. refl)) (await-Keeps rounds (n + 1)))

    pub redirect-Keeps : Keeps P (redirect w)
    unfolding redirect save_previous_environment
    redirect-Keeps = record {
      kept = λ c h.
          Leaves-resume P (IsSaved wrapper v) (save_previous_environment w c) _
            (saving-IsSaved wrapper v w sound c
              (λ d. previous_value w.wrapper (printed d.environment.variable))
              (λ d e. rw (e, sound.0) (previous_lem wrapper v own)) h)
            (λ u d saved. inr (
              (Keeps-bind (IsSaved wrapper v) _ _
                  (Keeps-command (IsSaved wrapper v) w set_variable (with_variable (some w.wrapper))
                    (λ d' k. (k.0, inr (ap some sound.0))))
                  (λ done.
                    Keeps-ensure (IsSaved wrapper v) done
                      (codes "could not set CODEX_CLI_PATH"))).kept
                d saved));
    }

    pub install-Keeps : Keeps P (install w)
    unfolding install
    install-Keeps = untouched_then wrapper v w _ _ place_files-Keeps (
        untouched_then wrapper v w _ _ load_service-Keeps
          (untouched_then wrapper v w _ _ redirect-Keeps (await-Keeps 24 0)))
