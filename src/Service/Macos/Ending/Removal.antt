-- ===== src/Service/Macos/Ending/Removal.antt =====
-- crates/cng-core/src/service.rs: on macOS, what the removal leaves.
use codex_no.Service.Macos.Ending.Placing.{Holds, IsLoaded}
use codex_no.Service.Macos.Ending.Rules.{
  command_then, Leads-resume, either_then, Leads-attempt, Leads, IsWell,
}
use codex_no.Service.Profile.Keeps.{disable_terminal_path-Keeps}
use codex_no.Service.Environment.{printed}
use codex_no.Service.Machine.{
  Computer, Outside, ServiceStatus, ◌>>◌, ignore, when, attempt, command, unchanged, find_home,
  bootout, ask_service, read_variable, remove_agent, remove_bin, remove_state, restore_variable,
  forget_state, with_agent, with_loaded, with_restored, drop_state, remove_programs, saved_value,
  without_programs,
}
use codex_no.Service.Custody.{IsWrapper, is_printed_self}
use codex_no.Service.Profile.{disable_terminal_path}
use codex_no.Service.Macos.{
  status, restore_previous_environment, remove_service, release, uninstall,
}
use codex_no.Base.Results.{Result, ok}
use codex_no.Base.{
  ℕ, ◌≡◌, refl, sym, ap, ◌∙◌, subst, inl, inr, false, Option, none, some, if◌then◌else◌, Bool-cases,
  Option-cases, is_some,
}
use codex_no.Base.Text.{Text, codes, text_eq}

module _ (w : Outside) (well : IsWell w) where
  -- The service, the programs and the LaunchAgent are gone, and the variable is the user's again.
  abbrev pub IsRemoved : Option Text → Computer → Type 0
  IsRemoved v c = Holds w well v none c × (c.agent ≡ none) × (c.programs ≡ none)

  unloaded_lem :
      (v : Option Text) (c : Computer)
      → IsLoaded w well (some w.wrapper) (some v) c
      → Leads
          (λ d. Holds w well (some w.wrapper) (some v) d × (d.agent ≡ none))
          (remove_service w c)
  unfolding remove_service
  unloaded_lem v c (holds, placed, loaded) =
      subst
        (λ a. Leads R (
          when (is_some a)
            (ignore (command w bootout (with_loaded false))
              >> attempt w remove_agent (with_agent none))
            c))
        (sym placed.is_agent)
        (Leads-attempt w well R remove_agent (with_agent none)
          (command w bootout (with_loaded false) c).1
          (
            either_then w well (Holds w well (some w.wrapper) (some v)) bootout (with_loaded false)
                c holds holds,
            refl,
          ))
    where
      R : Computer → Type 0
      R d = Holds w well (some w.wrapper) (some v) d × (d.agent ≡ none)

  released_lem :
      (v : Option Text) (c : Computer)
      → IsWrapper w.wrapper
      → Holds w well (some w.wrapper) (some v) c × (c.agent ≡ none)
      → Leads (λ d. Holds w well v none d × (d.agent ≡ none)) (release w c)
  unfolding release restore_previous_environment
  released_lem v c shape ((var, saved), gone) =
      Leads-resume (λ d. Holds w well (some w.wrapper) (some v) d × (d.agent ≡ none)) (Leads R)
        (attempt w read_variable unchanged c) _
        (Leads-attempt w well _ read_variable unchanged c ((var, saved), gone)) restored
    where
      R : Computer → Type 0
      R d = Holds w well v none d × (d.agent ≡ none)

      dropped :
          (d : Computer) → Holds w well v (some v) d → d.agent ≡ none → Leads R (drop_state w d)
      dropped d (var', saved') gone' =
          subst (λ s. Leads R (when (is_some s) (attempt w remove_state (forget_state w)) d))
            (sym saved')
            (Leads-attempt w well R remove_state (forget_state w) d ((var', refl), gone'))

      restored :
          (u : Unit {0}) (d : Computer)
          → Holds w well (some w.wrapper) (some v) d × (d.agent ≡ none)
          → Leads R (
              (if text_eq (printed d.environment.variable) w.wrapper
                  then restore_previous_environment w
                  else drop_state w)
                d)
      restored u d ((var', saved'), gone') =
          subst (λ b. Leads R ((if b then restore_previous_environment w else drop_state w) d))
            (sym (ap (λ x. text_eq (printed x) w.wrapper) var' ∙ is_printed_self w.wrapper shape))
            (command_then w well (Leads R) restore_variable (with_restored w) _ d well.restores (
              dropped (with_restored w d) (ap (saved_value w) saved' ∙ rw well.reads refl, saved')
                gone'))

  -- What the status tells in the n-th round.
  abbrev pub told : ℕ → Computer → ServiceStatus
  told n c = record {
    installed = is_some c.agent;
    running = w.succeeds (ask_service n);
    legacy_guard_detected = w.has_legacy;
    launch_agent = codes "Library/LaunchAgents/dev.codex-network-guard.daemon.plist";
  }

  pub told_lem : (n : ℕ) (c : Computer) → status w n c ≡ (ok (told n c), c)
  unfolding status
  told_lem n c = elim (Bool-cases (w.succeeds (ask_service n))) [
    | inl e ↦ rw (well.calm find_home, well.calm (ask_service n), e, attempt, command) refl
    | inr e ↦ rw (well.calm find_home, well.calm (ask_service n), e, attempt, command) refl
  ]

  pub uninstalled_lem :
      (v : Option Text) (n : ℕ) (c : Computer)
      → IsWrapper w.wrapper
      → IsLoaded w well (some w.wrapper) (some v) c
      → IsRemoved v (uninstall w n c).1
  unfolding uninstall
  uninstalled_lem v n c shape h =
      Leads-resume (IsLoaded w well (some w.wrapper) (some v)) E (attempt w find_home unchanged c) _
        (Leads-attempt w well _ find_home unchanged c h)
        λ u1 c1 h1.
          Leads-resume (λ d. Holds w well (some w.wrapper) (some v) d × (d.agent ≡ none)) E
            (remove_service w c1) _ (unloaded_lem v c1 h1)
            λ u2 c2 h2. Leads-resume R E (release w c2) _ (released_lem v c2 shape h2) λ u3 c3 h3.
              Leads-resume (IsRemoved v) E (remove_programs w (disable_terminal_path w c3).1) _
                (programs_lem (disable_terminal_path w c3).1
                  ((disable_terminal_path-Keeps R (λ p d k. k) w).kept c3 h3))
                λ u4 c4 h4. subst E (sym (told_lem n c4)) h4
    where
      R : Computer → Type 0
      R d = Holds w well v none d × (d.agent ≡ none)

      E : Result ServiceStatus × Computer → Type 0
      E o = IsRemoved v o.1

      programs_lem : (d : Computer) → R d → Leads (IsRemoved v) (remove_programs w d)
      programs_lem d (holds, gone) = elim (Option-cases d.programs) [
        | inl e ↦
            subst
              (λ p.
                Leads (IsRemoved v) (when (is_some p) (attempt w remove_bin without_programs) d))
              (sym e) (holds, gone, e)
        | inr (files, e) ↦
            subst
              (λ p.
                Leads (IsRemoved v) (when (is_some p) (attempt w remove_bin without_programs) d))
              (sym e)
              (Leads-attempt w well (IsRemoved v) remove_bin without_programs d (holds, gone, refl))
      ]
