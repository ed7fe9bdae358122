-- ===== src/Service/Later.antt =====
-- crates/cng-core/src/service.rs: the removal and a CODEX_CLI_PATH that does not lead to the wrapper.
use codex_no.Service.Profile.Keeps.{disable_terminal_path-Keeps}
use codex_no.Service.Environment.{printed}
use codex_no.Service.Machine.{
  attempt, Computer, Outside, Steps, ◌>>◌, unchanged, find_home, bootout, ask_service,
  read_variable, remove_agent, remove_bin, remove_state, delete_task, forget_state, with_agent,
  with_loaded, without_programs, drop_state, remove_programs,
}
use codex_no.Service.Keeps.{
  Keeps, Keeps-same, Keeps-ignore, Keeps-from, Keeps-bind, Keeps-when, Keeps-attempt, Keeps-command,
}
use codex_no.Service.Macos
use codex_no.Service.Windows
use codex_no.Service.Windows.{is_this, queried, read_windows_user_environment}
use codex_no.Base.{
  none, ℕ, ◌≡◌, refl, subst, sym, ap, ◌∙◌, false, Option, is_some, Option-cases, inl, inr,
  if◌then◌else◌,
}
use codex_no.Base.Text.{Text, text_eq}

module _ (w : Outside) (v : Option Text) where
  -- The variable is the user's.
  abbrev pub HasVariable : Computer → Type 0
  HasVariable c = c.environment.variable ≡ v

  both_keep :
      {A B : Type 0} (m : Steps A) (k : Steps B)
      → Keeps HasVariable m
      → Keeps HasVariable k
      → Keeps HasVariable (m >> k)
  both_keep m k h next = Keeps-bind HasVariable m (λ _. k) h (λ _. next)

  drop_state-Keeps : Keeps HasVariable (drop_state w)
  drop_state-Keeps = Keeps-from HasVariable _ (λ c.
      Keeps-when HasVariable (is_some c.environment.saved) _
        (Keeps-attempt HasVariable w remove_state (forget_state w) (λ d h. h)))

  remove_programs-Keeps : Keeps HasVariable (remove_programs w)
  remove_programs-Keeps = Keeps-from HasVariable _ (λ c.
      Keeps-when HasVariable (is_some c.programs) _
        (Keeps-attempt HasVariable w remove_bin without_programs (λ d h. h)))

  module _ (other : text_eq (printed v) w.wrapper ≡ false) where
    released :
        (c : Computer)
        → HasVariable c
        → HasVariable
            ((if text_eq (printed c.environment.variable) w.wrapper
                then Macos.restore_previous_environment w
                else drop_state w)
              c).1
    released c h =
        subst
          (λ b.
            HasVariable ((if b then Macos.restore_previous_environment w else drop_state w) c).1)
          (sym (ap (λ x. text_eq (printed x) w.wrapper) h ∙ other)) (drop_state-Keeps.kept c h)

    macos_release-Keeps : Keeps HasVariable (Macos.release w)
    unfolding Macos.release
    macos_release-Keeps =
        both_keep _ _ (Keeps-attempt HasVariable w read_variable unchanged (λ c h. h))
          (record { kept = released })

    macos_status-Keeps : (n : ℕ) → Keeps HasVariable (Macos.status w n)
    unfolding Macos.status
    macos_status-Keeps n =
        both_keep _ _ (Keeps-attempt HasVariable w find_home unchanged (λ c h. h)) (
          Keeps-bind HasVariable _ _
            (Keeps-command HasVariable w (ask_service n) unchanged (λ c h. h))
            (λ b. Keeps-same HasVariable _ (λ c. refl)))

    remove_service-Keeps : Keeps HasVariable (Macos.remove_service w)
    unfolding Macos.remove_service
    remove_service-Keeps = Keeps-from HasVariable _ (λ c.
        Keeps-when HasVariable (is_some c.agent) _ (
          both_keep _ _
            (Keeps-ignore HasVariable _
              (Keeps-command HasVariable w bootout (with_loaded false) (λ d h. h)))
            (Keeps-attempt HasVariable w remove_agent (with_agent none) (λ d h. h))))

    macos_uninstall-Keeps : (n : ℕ) → Keeps HasVariable (Macos.uninstall w n)
    unfolding Macos.uninstall
    macos_uninstall-Keeps n =
        both_keep _ _ (Keeps-attempt HasVariable w find_home unchanged (λ c h. h)) (
          both_keep _ _ remove_service-Keeps (
            both_keep _ _ macos_release-Keeps (
              both_keep _ _
                (Keeps-ignore HasVariable _
                  (disable_terminal_path-Keeps HasVariable (λ p c h. h) w))
                (both_keep _ _ remove_programs-Keeps (macos_status-Keeps n)))))

  module _ (other : is_this w.wrapper (queried w v) ≡ false) where
    chosen :
        (c : Computer)
        → HasVariable c
        → HasVariable
            ((if is_this w.wrapper (queried w c.environment.variable)
                then Windows.restore_previous_environment_windows w
                else drop_state w)
              c).1
    chosen c h =
        subst
          (λ b.
            HasVariable
              ((if b then Windows.restore_previous_environment_windows w else drop_state w) c).1)
          (sym (ap (λ x. is_this w.wrapper (queried w x)) h ∙ other)) (drop_state-Keeps.kept c h)

    windows_release-Keeps : Keeps HasVariable (Windows.release w)
    unfolding Windows.release read_windows_user_environment
    windows_release-Keeps = record {
      kept = λ c h. elim (Option-cases (w.fault read_variable)) [
        | inr (reason, f) ↦ rw (f, attempt) h
        | inl f ↦ rw (f, attempt) (chosen c h)
      ];
    }

    windows_status-Keeps : (n : ℕ) → Keeps HasVariable (Windows.status w n)
    unfolding Windows.status
    windows_status-Keeps n =
        Keeps-bind HasVariable _ _
          (Keeps-command HasVariable w (ask_service n) unchanged (λ c h. h))
          (λ b.
            both_keep _ _
              (Keeps-when HasVariable b _
                (Keeps-attempt HasVariable w find_home unchanged (λ c h. h)))
              (Keeps-same HasVariable _ (λ c. refl)))

    windows_uninstall-Keeps : (n : ℕ) → Keeps HasVariable (Windows.uninstall w n)
    unfolding Windows.uninstall
    windows_uninstall-Keeps n =
        both_keep _ _
          (Keeps-ignore HasVariable _
            (Keeps-command HasVariable w delete_task (with_loaded false) (λ c h. h)))
          (both_keep _ _ (Keeps-attempt HasVariable w find_home unchanged (λ c h. h)) (
            both_keep _ _ windows_release-Keeps
              (both_keep _ _ remove_programs-Keeps (windows_status-Keeps n))))

  -- A CODEX_CLI_PATH that does not lead to the wrapper is the user's: the removal of the guard leaves it
  -- as it is, on macOS and on Windows, whichever calls fail and whatever the state file saved. What
  -- counts is what `launchctl getenv` or `reg query` prints of it.
  pub uninstall-HasVariable :
      (n : ℕ) (c : Computer)
      → text_eq (printed v) w.wrapper ≡ false
      → is_this w.wrapper (queried w v) ≡ false
      → HasVariable c
      → HasVariable (Macos.uninstall w n c).1 × HasVariable (Windows.uninstall w n c).1
  uninstall-HasVariable n c other other_read h =
      ((macos_uninstall-Keeps other n).kept c h, (windows_uninstall-Keeps other_read n).kept c h)
