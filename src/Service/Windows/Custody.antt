-- ===== src/Service/Windows/Custody.antt =====
-- crates/cng-core/src/service.rs: on Windows the installation and the removal keep the user's own value.
use codex_no.Service.Machine.{write_state}
use codex_no.Service.Custody.{saving}
use codex_no.Service.Environment.{IsOwn}
use codex_no.Service.Machine.{
  Computer, Outside, ◌>>=◌, ◌>>◌, pure, fail, ensure, ignore, attempt, command, unchanged,
  find_source, find_home, make_bin, make_logs, create_task, run_task, end_task, delete_task,
  ask_service, set_variable, read_variable, copy, rolled_back, with_variable, with_saved, with_logs,
  with_loaded, with_bin, with_file, has_file, unless_saved,
}
use codex_no.Service.Keeps.{
  resume_keeps, Keeps, Keeps-same, Keeps-ignore, Keeps-from, Keeps-bind, Keeps-ensure, Keeps-when,
  Keeps-if, Keeps-on_error, Keeps-command, Leaves, Leaves-resume, Leaves-of_Keeps,
}
use codex_no.Service.Custody.{
  untouched_attempt, untouched_command, untouched_then, remove_programs-Keeps, IsHeld, IsSaved,
  IsSound, IsWrapper, releasing-IsHeld, saving-IsSaved,
}
use codex_no.Service.Windows.{
  status, parse_query, queried, other_than, is_this, read_windows_user_environment,
  set_windows_user_environment, save_previous_environment_windows,
  restore_previous_environment_windows, copy_executable, place_files, release, uninstall, redirect,
  start_task, await_daemon, install, restart,
}
use codex_no.Base.Text.Laws.{text_eq_refl}
use codex_no.Base.{
  ℕ, zero, suc, ◌+◌, ◌≡◌, refl, ap, ◌∙◌, inl, inr, Bool, true, false, not, ◌&&◌, Option, none, some,
  Option-cases,
}
use codex_no.Base.Text.{Text, codes}

-- What `reg query` prints of a value is read back as the value.
abbrev pub IsReadBack : Outside → Option Text → Type 0
IsReadBack w none = Unit
IsReadBack w (some value) = parse_query (w.query_output value) ≡ some value

module _ (wrapper : Text) (v : Option Text) (w : Outside) where
  abbrev P : Computer → Type 0
  P = IsHeld wrapper v

  pub status-Keeps : (n : ℕ) → Keeps P (status w n)
  unfolding status
  status-Keeps n =
      Keeps-bind P _ _ (untouched_command wrapper v w (ask_service n) unchanged (λ c. refl)) (λ b.
        untouched_then wrapper v w _ _
          (Keeps-when P b _ (untouched_attempt wrapper v w find_home unchanged (λ c. refl)))
          (Keeps-same P _ (λ c. refl)))

  pub copy_executable-Keeps : (name : Text) → Keeps P (copy_executable w name)
  unfolding copy_executable
  copy_executable-Keeps name = Keeps-from P _ (λ c.
      Keeps-when P (not (w.is_same_file name && has_file name c)) _
        (untouched_attempt wrapper v w (copy name) (with_file name) (λ d. refl)))

  pub place_files-Keeps : Keeps P (place_files w)
  unfolding place_files
  place_files-Keeps =
      untouched_then wrapper v w _ _
        (untouched_attempt wrapper v w find_source unchanged (λ c. refl))
        (untouched_then wrapper v w _ _
          (Keeps-ensure P (w.has_source (codes "cng.exe"))
            (codes "cng.exe must be next to the installer"))
          (untouched_then wrapper v w _ _
            (Keeps-ensure P (w.has_source (codes "cngd.exe"))
              (codes "cngd.exe must be next to cng.exe"))
            (untouched_then wrapper v w _ _
              (Keeps-ensure P (w.has_source (codes "cng-codex.exe"))
                (codes "cng-codex.exe must be next to cng.exe"))
              (untouched_then wrapper v w _ _
                (untouched_attempt wrapper v w find_home unchanged (λ c. refl))
                (untouched_then wrapper v w _ _
                  (untouched_attempt wrapper v w make_bin with_bin (λ c. refl))
                  (untouched_then wrapper v w _ _ (copy_executable-Keeps (codes "cngd.exe")) (
                    untouched_then wrapper v w _ _ (copy_executable-Keeps (codes "cng-codex.exe")) (
                      untouched_then wrapper v w _ _ (copy_executable-Keeps (codes "cng.exe"))
                        (untouched_attempt wrapper v w make_logs with_logs (λ c. refl))))))))))

  pub restart-Keeps : Keeps P (restart w)
  unfolding restart
  restart-Keeps =
      untouched_then wrapper v w _ _
        (Keeps-ignore P _ (untouched_command wrapper v w end_task unchanged (λ c. refl)))
        (Keeps-bind P _ _ (untouched_command wrapper v w run_task unchanged (λ c. refl)) (λ started.
          untouched_then wrapper v w _ _
            (Keeps-ensure P started (codes "could not restart the CNG logon task"))
            (status-Keeps 0)))

  module _ (sound : IsSound wrapper v w) (shape : IsWrapper wrapper) (own : IsOwn wrapper v)
      (reads : IsReadBack w v) (reads_wrapper : IsReadBack w (some wrapper)) where
    -- The test that `uninstall` makes of what it reads.
    abbrev is_queried : Option Text → Bool
    is_queried value = is_this w.wrapper (queried w value)

    queried_own : (u : Option Text) → IsReadBack w u → queried w u ≡ u
    queried_own none h = refl
    queried_own (some value) h = h

    other_own :
        (u : Option Text)
        → IsOwn wrapper u
        → (is_this wrapper u ≡ false) × (other_than wrapper u ≡ u)
    other_own none h = (refl, refl)
    other_own (some value) (t, e, o) = (o, rw o refl)

    pub release-Keeps : Keeps P (release w)
    unfolding release restore_previous_environment_windows read_windows_user_environment
    release-Keeps = record {
      kept = λ c h. elim (Option-cases (w.fault read_variable)) [
        | inr (reason, f) ↦ rw (f, attempt) h
        | inl f ↦
            rw (f, attempt)
              (releasing-IsHeld wrapper v w sound c
                (codes "could not restore the Windows CODEX_CLI_PATH user variable") is_queried
                (ap (is_this w.wrapper) (queried_own v reads)
                  ∙ (ap (λ x. is_this x v) sound.0 ∙ (other_own v own).0))
                (ap (is_this w.wrapper) (queried_own (some wrapper) reads_wrapper)
                  ∙ (ap (λ x. is_this x (some wrapper)) sound.0 ∙ text_eq_refl wrapper))
                h)
      ];
    }

    pub uninstall-Keeps : (n : ℕ) → Keeps P (uninstall w n)
    unfolding uninstall
    uninstall-Keeps n =
        untouched_then wrapper v w _ _
          (Keeps-ignore P _
            (untouched_command wrapper v w delete_task (with_loaded false) (λ c. refl)))
          (untouched_then wrapper v w _ _
            (untouched_attempt wrapper v w find_home unchanged (λ c. refl))
            (untouched_then wrapper v w _ _ release-Keeps (
              untouched_then wrapper v w _ _ (remove_programs-Keeps wrapper v w) (status-Keeps n))))

    pub await-Keeps : (rounds n : ℕ) → Keeps P (await_daemon w rounds n)
    unfolding await_daemon
    await-Keeps zero n =
        untouched_then wrapper v w _ _ (Keeps-ignore P _ (uninstall-Keeps n))
          (Keeps-same P (fail rolled_back) (λ c. refl))
    await-Keeps (suc rounds) n = Keeps-bind P _ _ (status-Keeps n) (λ service.
        Keeps-if P service.running (pure service) _ (Keeps-same P (pure service) (λ c. refl))
          (await-Keeps rounds (n + 1)))

    pub start_task-Keeps : Keeps P (start_task w)
    unfolding start_task
    start_task-Keeps =
        Keeps-bind P _ _ (untouched_command wrapper v w run_task unchanged (λ c. refl)) (λ started.
          Keeps-if P started (pure tt) _ (Keeps-same P (pure tt) (λ c. refl)) (
            untouched_then wrapper v w _ _ (Keeps-ignore P _ (uninstall-Keeps 0))
              (Keeps-same P (fail (codes "could not start the CNG logon task")) (λ c. refl))))

    redirect-IsHeld : (c : Computer) → IsSaved wrapper v c → P (redirect w c).1
    unfolding redirect set_windows_user_environment
    redirect-IsHeld c saved =
        Keeps-on_error P (set_windows_user_environment w c) (ignore (uninstall w 0))
          (inr (
            (Keeps-bind (IsSaved wrapper v) _ _
                (Keeps-command (IsSaved wrapper v) w set_variable (with_variable (some w.wrapper))
                  (λ d' k. (k.0, inr (ap some sound.0))))
                (λ done.
                  Keeps-ensure (IsSaved wrapper v) done
                    (codes "could not set the Windows CODEX_CLI_PATH user variable"))).kept
              c saved))
          (Keeps-ignore P _ (uninstall-Keeps 0))

    abbrev previous_of : Computer → Option Text
    previous_of d = other_than w.wrapper (queried w d.environment.variable)

    saving_same :
        (s : Option (Option Text)) (c : Computer)
        → unless_saved s
            (do
              previous ← read_windows_user_environment w
              attempt w write_state λ d. with_saved (other_than w.wrapper previous) d)
            c
          ≡ unless_saved s (saving wrapper v w sound previous_of) c
    unfolding read_windows_user_environment
    saving_same (some state) c = refl
    saving_same none c = elim (Option-cases (w.fault read_variable)) [
      | inr (reason, f) ↦ rw (f, attempt) refl
      | inl f ↦ rw (f, attempt) refl
    ]

    saved_lem :
        (c : Computer) → P c → Leaves P (IsSaved wrapper v) (save_previous_environment_windows w c)
    unfolding save_previous_environment_windows
    saved_lem c h = rw (saving_same c.environment.saved c) (
        saving-IsSaved wrapper v w sound c previous_of
          (λ d e. rw (e, queried_own v reads, sound.0) ((other_own v own).1)) h)

    -- The task is created, and what follows keeps the value.
    created-IsHeld :
        (c : Computer)
        → IsSaved wrapper v c
        → P
            ((do
              created ← command w create_task (with_loaded true)
              ensure created (codes "could not create the CNG logon task")
              redirect w
              start_task w
              await_daemon w 24 0)
              c).1
    created-IsHeld c saved =
        Leaves-resume P (IsSaved wrapper v) (command w create_task (with_loaded true) c) _
          (Leaves-of_Keeps P (IsSaved wrapper v) _ (λ d k. inr k)
            ((Keeps-command (IsSaved wrapper v) w create_task (with_loaded true) (λ d k. k)).kept c
              saved))
          after_created
      where
        after_created :
            (created : Bool) (d : Computer)
            → IsSaved wrapper v d
            → P
                ((ensure created (codes "could not create the CNG logon task")
                    >> (redirect w >> (start_task w >> await_daemon w 24 0)))
                  d).1
        after_created false d k = inr k
        after_created true d k =
            resume_keeps P (redirect w d) _ (redirect-IsHeld d k)
              (λ u. (untouched_then wrapper v w _ _ start_task-Keeps (await-Keeps 24 0)).kept)

    pub install-Keeps : Keeps P (install w)
    unfolding install save_previous_environment_windows
    install-Keeps = untouched_then wrapper v w _ _ place_files-Keeps (record {
      kept = λ c h.
          Leaves-resume P (IsSaved wrapper v) (save_previous_environment_windows w c) _
            (saved_lem c h) (λ u. created-IsHeld);
    })
