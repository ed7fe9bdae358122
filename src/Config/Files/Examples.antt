-- ===== src/Config/Files/Examples.antt =====
-- crates/cng-core/src/config.rs: a save that fails in the middle of the write.
use codex_no.Config.{default_config}
use codex_no.Config.Files.Saving.{save-load_or_create, IsLoadedAfter}
use codex_no.Base.{refl, none, some}
use codex_no.Base.Text.{codes}
use codex_no.Base.Results.{ok}
use codex_no.Config.Files.{save, default_config, Toml, Disk, at_write, no_fault}

abbrev toml : Toml
toml = record { print = λ c. ok (codes "defaults"); parse = λ t. ok default_config }

abbrev disk : Disk
disk = record { target = some (record { content = codes "old"; mode = 384 }); temporary = none }

save-load_or_create_example :
    IsLoadedAfter toml default_config disk no_fault (save toml (at_write 3) default_config disk)
save-load_or_create_example =
    save-load_or_create toml (at_write 3) no_fault default_config (codes "defaults") disk refl refl
