-- ===== src/Service/Migration/Safe.antt =====
-- crates/cng-core/src/service.rs: what the migration of the earlier guard touches.
use codex_no.Service.Migration.Copies.{Tells, Tells-resume, Tells-ensure, BackedUp, back_up_lem}
use codex_no.Service.Migration.{MigrationReport, report, back_up_legacy, migrate_legacy}
use codex_no.Service.Macos.{status}
use codex_no.Service.Machine.{
  Computer, Outside, ServiceStatus, ◌>>=◌, ◌>>◌, pure, ensure, attempt, command, find_home,
  disable_legacy, ask_service, without_legacy,
}
use codex_no.Base.{
  ◌≡◌, refl, sym, ◌∙◌, inl, inr, Bool, true, false, ◌&&◌, [], Bool-cases, Option-cases, is_some,
}
use codex_no.Base.Text.{Text, codes}

module _ (w : Outside) (c : Computer) where
  -- What the status has found.
  abbrev pub Found : ServiceStatus → Computer → Type 0
  Found current d =
      (d ≡ c)
      × (current.installed ≡ is_some c.agent)
      × (current.running ≡ w.succeeds (ask_service 0))
      × (current.legacy_guard_detected ≡ w.has_legacy)

  status_lem : Tells c Found (status w 0 c)
  unfolding status
  status_lem = elim (Option-cases (w.fault find_home)) [
    | inl e ↦ elim (Option-cases (w.fault (ask_service 0))) [
      | inl f ↦ elim (Bool-cases (w.succeeds (ask_service 0))) [
        | inl g ↦ rw (e, f, g, attempt, command) (refl, refl, sym g, refl)
        | inr g ↦ rw (e, f, g, attempt, command) (refl, refl, sym g, refl)
      ]
      | inr (t, f) ↦ rw (e, f, attempt, command) ([], refl)
    ]
    | inr (t, e) ↦ rw (e, attempt) ([], refl)
  ]

  -- The earlier guard is put out of service only by a guard that is installed and runs, and after the
  -- copies.
  abbrev pub IsMigrated : Text → MigrationReport → Computer → Type 0
  IsMigrated directory r d =
      (is_some c.agent ≡ true)
      × (w.succeeds (ask_service 0) ≡ true)
      × (w.has_legacy ≡ true)
      × (r ≡ report w directory)
      × ((e : Computer) × BackedUp w c tt e × (d ≡ without_legacy e))

  -- The last step, once the guard is known to run.
  disabled_lem :
      (directory : Text) (current : ServiceStatus) (e : Computer)
      → (is_some c.agent ≡ true) × (w.succeeds (ask_service 0) ≡ true) × (w.has_legacy ≡ true)
      → BackedUp w c tt e
      → Tells c (IsMigrated directory) (
          (command w disable_legacy without_legacy >>= λ disabled.
          ensure disabled (codes "legacy LaunchAgent could not be disabled")
          >> pure (report w directory))
            e)
  disabled_lem directory current e (agent, running, legacy) (all, k, plist, programs) =
      elim (Option-cases (w.fault disable_legacy)) [
        | inl f ↦ elim (Bool-cases (w.succeeds disable_legacy)) [
          | inl g ↦
              rw (f, g, command)
                (agent, running, legacy, refl, (e, (all, k, plist, programs), refl))
          | inr g ↦ rw (f, g, command) (all, k)
        ]
        | inr (t, f) ↦ rw (f, command) (all, k)
      ]

  both_lem : (a b : Bool) → (a && b) ≡ true → (a ≡ true) × (b ≡ true)
  both_lem true true h = (refl, refl)
  both_lem true false h = cc
  both_lem false b h = cc

  -- A migration of the earlier guard that fails has left the computer as it was, but for copies that it
  -- made. One that is done was asked for while the new guard was installed and running and the earlier
  -- one was detected; the LaunchAgent of the earlier guard and each of its programs that is there have a
  -- copy, the earlier guard is out of service, and nothing else has changed.
  pub migrate_legacy-IsMigrated :
      (directory : Text) → Tells c (IsMigrated directory) (migrate_legacy w directory c)
  unfolding migrate_legacy
  migrate_legacy-IsMigrated directory =
      Tells-resume c Found (IsMigrated directory) (status w 0 c) _ status_lem
        λ current d (same, installed, runs, detected).
          Tells-resume c (λ u e. (current.installed && current.running ≡ true) × (e ≡ d))
            (IsMigrated directory)
            (ensure (current.installed && current.running)
              (codes "install and verify Codex Network Guard before migrating the legacy guard") d)
            _ (Tells-ensure c _ _ [] d same)
            λ u1 d1 (on, e1).
              Tells-resume c (λ u e. (current.legacy_guard_detected ≡ true) × (e ≡ d1))
                (IsMigrated directory)
                (ensure current.legacy_guard_detected (codes "no legacy guard was detected") d1) _
                (Tells-ensure c _ _ [] d1 (e1 ∙ same))
                λ u2 d2 (old, e2).
                  Tells-resume c (BackedUp w c) (IsMigrated directory) (back_up_legacy w d2) _
                    (back_up_lem w c d2 (e2 ∙ (e1 ∙ same)))
                    λ u3 d3 backed.
                      disabled_lem directory current d3
                        (
                          sym installed ∙ (both_lem _ _ on).0,
                          sym runs ∙ (both_lem _ _ on).1,
                          sym detected ∙ old,
                        )
                        backed
