-- ===== src/Service/Migration/Examples.antt =====
-- crates/cng-core/src/service.rs: an earlier guard beside one that runs, and the theorem there.
use codex_no.Service.Migration.Copies.{Tells}
use codex_no.Service.Migration.Safe.{IsMigrated, migrate_legacy-IsMigrated}
use codex_no.Service.Migration.{migrate_legacy}
use codex_no.Service.Machine.{Computer, Outside}
use codex_no.Service.Sample.{calm_world, fresh}
use codex_no.Base.{true, some, []}
use codex_no.Base.Text.{codes, text_eq}

-- Only one of the two programs is there.
abbrev both_guards : Outside
both_guards = record calm_world {
  has_legacy = true;
  has_legacy_program = λ name. text_eq name (codes "codex-proxy-guard");
}

abbrev with_legacy : Computer
with_legacy = record fresh {
  agent = some (codes "plist");
  legacy = record { is_loaded = true; copies = [] };
}

migrate_legacy-IsMigrated_example :
    Tells with_legacy
      (IsMigrated both_guards with_legacy (codes "/b/1"))
      (migrate_legacy both_guards (codes "/b/1") with_legacy)
migrate_legacy-IsMigrated_example = migrate_legacy-IsMigrated both_guards with_legacy (codes "/b/1")
