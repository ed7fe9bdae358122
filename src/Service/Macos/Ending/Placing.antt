-- ===== src/Service/Macos/Ending/Placing.antt =====
-- crates/cng-core/src/service.rs: on macOS, what is in place when the installation waits for the daemon.
use codex_no.Service.Macos.Ending.Rules.{
  command_then, Leads-ensure, Leads-when, Leads-attempt, Leads-resume, either_then, Leads, IsWell,
}
use codex_no.Service.Environment.{IsOwn, printed, previous_value, previous_lem}
use codex_no.Service.Machine.{
  Computer, Outside, ◌>>◌, ensure, when, attempt, command, unchanged, find_source, find_home,
  make_bin, make_logs, write_agent, write_state, bootout, bootstrap, set_variable, read_variable,
  copy, make_executable, unlink_wrapper, link_wrapper, with_variable, with_saved, with_logs,
  with_agent, with_loaded, with_bin, with_file, without_file, has_file, unless_saved,
}
use codex_no.Service.Macos.Ending.Files.{
  IsPresent, IsPlaced, copied_names, rewritten-IsPresent, removed-IsPresent,
}
use codex_no.Service.Macos.{
  copy_executable, link_terminal_wrapper, place_files, load_service, save_previous_environment,
  redirect, launch_agent_xml,
}
use codex_no.Base.Results.{Result}
use codex_no.Base.{
  arith, Bool, Bool-cases, inl, inr, [], ◌∷◌, not, ◌≡◌, refl, sym, ap, ◌∙◌, subst, true, false,
  ◌&&◌, Option, none, some, List,
}
use codex_no.Base.Text.{Text, codes}

module _ (w : Outside) (well : IsWell w) where
  -- What the environment holds.
  abbrev pub Holds : Option Text → Option (Option Text) → Computer → Type 0
  Holds a b c = (c.environment.variable ≡ a) × (c.environment.saved ≡ b)

  abbrev the_agent : Option Text
  the_agent = some (launch_agent_xml w.daemon w.wrapper w.logs)

  -- The environment, and all in place.
  abbrev pub HasAll : Option Text → Option (Option Text) → Computer → Type 0
  HasAll a b d = Holds a b d × IsPlaced w d.programs d.has_logs d.agent

  module _ (a : Option Text) (b : Option (Option Text)) where
    -- Some of the programs are in place.
    abbrev Has : List Text → Computer → Type 0
    Has names d = Holds a b d × IsPresent names d.programs

    there_lem : (same there : Bool) → not (same && there) ≡ false → there ≡ true
    there_lem same there e = ground arith

    -- A program that is not copied is there.
    copied_lem :
        (names : List Text) (name : Text) (c : Computer)
        → Has names c
        → Leads (Has (name ∷ names)) (copy_executable w name c)
    unfolding copy_executable
    copied_lem names name c (holds, present) =
        Leads-resume (Has (name ∷ names)) (Leads (Has (name ∷ names)))
          (when wanted (attempt w (copy name) (with_file name)) c) _
          (elim (Bool-cases wanted) [
            | inl e ↦ subst E (sym e) (
                Leads-attempt w well (Has (name ∷ names)) (copy name) (with_file name) c
                  (holds, rewritten-IsPresent name names c.programs present))
            | inr e ↦ subst E (sym e) (
              holds,
              record { all = (there_lem (w.is_same_file name) (has_file name c) e, present.all) },
            )
          ])
          (λ u d k. Leads-attempt w well (Has (name ∷ names)) (make_executable name) unchanged d k)
      where
        wanted : Bool
        wanted = not (w.is_same_file name && has_file name c)

        E : Bool → Type 0
        E wants = Leads (Has (name ∷ names)) (when wants (attempt w (copy name) (with_file name)) c)

    linked_lem :
        (c : Computer)
        → Has copied_names c
        → Leads (Has (codes "codex" ∷ copied_names)) (link_terminal_wrapper w c)
    unfolding link_terminal_wrapper
    linked_lem c (holds, present) =
        Leads-resume (Has copied_names) (Leads (Has (codes "codex" ∷ copied_names)))
          (when (has_file (codes "codex") c)
            (attempt w unlink_wrapper (without_file (codes "codex"))) c)
          _
          (Leads-when w well (Has copied_names) (has_file (codes "codex") c) unlink_wrapper
            (without_file (codes "codex")) c (holds, present)
            (holds, removed-IsPresent c.programs present))
          λ u d (holds', present').
            Leads-attempt w well (Has (codes "codex" ∷ copied_names)) link_wrapper
              (with_file (codes "codex")) d
              (holds', rewritten-IsPresent (codes "codex") copied_names d.programs present')

    -- The link, the logs and the LaunchAgent.
    finished_lem :
        (c : Computer)
        → Has copied_names c
        → Leads (HasAll a b) (
            (link_terminal_wrapper w
                >> (attempt w make_logs with_logs >> attempt w write_agent (with_agent the_agent)))
              c)
    finished_lem c h =
        Leads-resume (Has (codes "codex" ∷ copied_names)) (Leads (HasAll a b))
          (link_terminal_wrapper w c) _ (linked_lem c h)
          λ u d (holds, present).
            Leads-resume Logged (Leads (HasAll a b)) (attempt w make_logs with_logs d) _
              (Leads-attempt w well Logged make_logs with_logs d (holds, present, refl))
              λ u' d' (holds', present', logged).
                Leads-attempt w well (HasAll a b) write_agent (with_agent the_agent) d'
                  (holds', record { is_present = present'; is_logged = logged; is_agent = refl })
      where
        Logged : Computer → Type 0
        Logged d =
            Holds a b d × IsPresent (codes "codex" ∷ copied_names) d.programs × (d.has_logs ≡ true)

    -- The files are placed, the LaunchAgent last.
    pub placed_lem : (c : Computer) → Holds a b c → Leads (HasAll a b) (place_files w c)
    unfolding place_files
    placed_lem c h =
        Leads-resume (Holds a b) E (attempt w find_source unchanged c) _
          (Leads-attempt w well (Holds a b) find_source unchanged c h)
          λ u1 c1 h1.
            Leads-resume (Holds a b) E
              (ensure (w.has_source (codes "cng")) (codes "cng must be next to the installer") c1) _
              (Leads-ensure (Holds a b) _ _ c1 well.has_cng h1)
              λ u2 c2 h2.
                Leads-resume (Holds a b) E
                  (ensure (w.has_source (codes "cngd")) (codes "cngd must be next to cng") c2) _
                  (Leads-ensure (Holds a b) _ _ c2 well.has_cngd h2)
                  λ u3 c3 h3.
                    Leads-resume (Holds a b) E
                      (ensure (w.has_source (codes "cng-codex"))
                        (codes "cng-codex must be next to cng") c3)
                      _ (Leads-ensure (Holds a b) _ _ c3 well.has_codex h3)
                      λ u4 c4 h4.
                        Leads-resume (Holds a b) E (attempt w find_home unchanged c4) _
                          (Leads-attempt w well (Holds a b) find_home unchanged c4 h4)
                          λ u5 c5 h5.
                            Leads-resume (Has []) E (attempt w make_bin with_bin c5) _
                              (Leads-attempt w well (Has []) make_bin with_bin c5
                                (h5, record { all = tt }))
                              λ u6 c6 h6.
                                Leads-resume (Has (codes "cngd" ∷ [])) E
                                  (copy_executable w (codes "cngd") c6) _
                                  (copied_lem [] (codes "cngd") c6 h6)
                                  λ u7 c7 h7.
                                    Leads-resume (Has (codes "cng-codex" ∷ codes "cngd" ∷ [])) E
                                      (copy_executable w (codes "cng-codex") c7) _
                                      (copied_lem _ (codes "cng-codex") c7 h7)
                                      λ u8 c8 h8.
                                        Leads-resume (Has copied_names) E
                                          (copy_executable w (codes "cng") c8) _
                                          (copied_lem _ (codes "cng") c8 h8)
                                          λ u9 c9 h9. finished_lem c9 h9
      where
        E : Result (Unit {0}) × Computer → Type 0
        E = Leads (HasAll a b)

  -- And the service is loaded.
  abbrev pub IsLoaded : Option Text → Option (Option Text) → Computer → Type 0
  IsLoaded a b c = Holds a b c × IsPlaced w c.programs c.has_logs c.agent × (c.loaded ≡ true)

  pub loaded_lem :
      (a : Option Text) (b : Option (Option Text)) (c : Computer)
      → HasAll a b c
      → Leads (IsLoaded a b) (load_service w c)
  unfolding load_service
  loaded_lem a b c h =
      command_then w well (Leads (IsLoaded a b)) bootstrap (with_loaded true) _
        (command w bootout (with_loaded false) c).1 well.starts (booted.0, booted.1, refl)
    where
      booted : HasAll a b (command w bootout (with_loaded false) c).1
      booted = either_then w well (HasAll a b) bootout (with_loaded false) c h h

  -- The state file gets what the variable holds.
  abbrev saving : Computer → Computer
  saving e = with_saved (previous_value w.wrapper (printed e.environment.variable)) e

  -- The variable leads to the wrapper, and the user's value is in the state file.
  pub redirected_lem :
      (v : Option Text) (c : Computer)
      → IsOwn w.wrapper v
      → IsLoaded v none c
      → Leads (IsLoaded (some w.wrapper) (some v)) (redirect w c)
  unfolding redirect save_previous_environment
  redirected_lem v c own ((var, saved), agent, loaded) =
      Leads-resume (IsLoaded v (some v)) (Leads (IsLoaded (some w.wrapper) (some v)))
        (save_previous_environment w c) _ saved_there
        λ u d ((var', saved'), agent', loaded').
          command_then w well (Leads (IsLoaded (some w.wrapper) (some v))) set_variable
            (with_variable (some w.wrapper)) _ d well.sets ((refl, saved'), agent', loaded')
    where
      write :
          (d : Computer)
          → IsLoaded v none d
          → Leads (IsLoaded v (some v)) (attempt w write_state saving d)
      write d ((var', saved'), agent', loaded') =
          Leads-attempt w well (IsLoaded v (some v)) write_state saving d (
            (
              var',
              ap some (
                  ap (λ x. previous_value w.wrapper (printed x)) var'
                  ∙ previous_lem w.wrapper v own),
            ),
            agent',
            loaded',
          )

      saved_there : Leads (IsLoaded v (some v)) (save_previous_environment w c)
      saved_there =
          subst
            (λ s. Leads (IsLoaded v (some v)) (
              unless_saved s (attempt w read_variable unchanged >> attempt w write_state saving) c))
            (sym saved)
            (Leads-resume (IsLoaded v none) (Leads (IsLoaded v (some v)))
              (attempt w read_variable unchanged c) _
              (Leads-attempt w well (IsLoaded v none) read_variable unchanged c
                ((var, saved), agent, loaded))
              (λ u. write))
