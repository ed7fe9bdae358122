-- ===== src/Service/Migration.antt =====
-- crates/cng-core/src/service.rs: `migrate_legacy`, which puts an earlier guard out of service.
pub mod Copies
pub mod Safe
mod Examples
use codex_no.Service.Machine.{
  find_home, make_legacy_backup, disable_legacy, copy_legacy, Outside, Steps, ◌>>=◌, ◌>>◌, pure,
  ensure, when, attempt, command, unchanged, with_copy, without_legacy,
}
use codex_no.Service.Macos.{status}
use codex_no.Base.{Bool, true, false, ◌&&◌, List, [], ◌∷◌}
use codex_no.Base.Text.{Text, codes}

pub record MigrationReport : Type 0 where
  pub backup_directory : Text
  pub legacy_service_disabled : Bool
  pub legacy_files_deleted : Bool

abbrev pub plist_copy : Text
plist_copy = codes "legacy-launch-agent.plist"

abbrev pub legacy_programs : List Text
legacy_programs = codes "codex-proxy-guard" ∷ codes "codex-proxy-guard.sh" ∷ []

module _ (w : Outside) where
  unfoldable pub copy_programs : List Text → Steps (Unit {0})
  copy_programs [] = pure tt
  copy_programs (name ∷ names) =
      when (w.has_legacy_program name) (attempt w (copy_legacy name) (with_copy name))
      >> copy_programs names

  unfoldable pub back_up_legacy : Steps (Unit {0})
  unfolding copy_programs
  back_up_legacy = do
    attempt w find_home unchanged
    attempt w make_legacy_backup unchanged
    attempt w (copy_legacy plist_copy) (with_copy plist_copy)
    copy_programs legacy_programs

  -- The report names the directory of the copies.
  abbrev pub report : Text → MigrationReport
  report directory = record {
    backup_directory = directory;
    legacy_service_disabled = true;
    legacy_files_deleted = false;
  }

  unfoldable pub migrate_legacy : Text → Steps MigrationReport
  unfolding status back_up_legacy
  migrate_legacy directory = do
    current ← status w 0
    ensure (current.installed && current.running)
        (codes "install and verify Codex Network Guard before migrating the legacy guard")
    ensure current.legacy_guard_detected (codes "no legacy guard was detected")
    back_up_legacy
    disabled ← command w disable_legacy without_legacy
    ensure disabled (codes "legacy LaunchAgent could not be disabled")
    pure (report directory)
