-- ===== src/Config/Files.antt =====
-- crates/cng-core/src/config.rs: the configuration file, written by way of a temporary one.
pub mod Saving
mod Examples
use codex_no.Config.{default_config, GuardConfig}
use codex_no.Base.{ℕ, Option, none, some, take}
use codex_no.Base.Text.{Text, codes}
use codex_no.Base.Results.{Result, ok, err, context}

pub record File : Type 0 where
  pub content : Text
  pub mode : ℕ

-- The file itself, and the temporary one beside it.
pub record Disk : Type 0 where
  pub target : Option File
  pub temporary : Option File

-- Where a write fails, if it does; a failing write of the temporary file may have written a part.
pub data Fault : Type 0 where
  at_directory at_permissions at_rename no_fault : Fault
  at_write : ℕ → Fault

-- A new file gets the usual permissions, and an old one keeps its own.
abbrev mode_of : Option File → ℕ
mode_of none = 420
mode_of (some f) = f.mode

abbrev pub private_mode : ℕ
private_mode = 384

abbrev wrote : Text → ℕ → Disk → Disk
wrote content mode d = record d { temporary = some (record { content = content; mode = mode }) }

unfoldable pub write_private : Fault → Text → Disk → Result (Unit {0}) × Disk
write_private at_directory content d = (err (codes "create directory"), d)
write_private (at_write count) content d =
    (err (codes "write temporary file"), wrote (take count content) (mode_of d.temporary) d)
write_private at_permissions content d =
    (err (codes "set permissions"), wrote content (mode_of d.temporary) d)
write_private at_rename content d =
    (err (codes "replace configuration"), wrote content private_mode d)
write_private no_fault content d = (
  ok tt,
  record { target = some (record { content = content; mode = private_mode }); temporary = none },
)

-- The `toml` crate.
pub record Toml : Type 0 where
  pub print : GuardConfig → Result Text
  pub parse : Text → Result GuardConfig

module _ (toml : Toml) where
  unfoldable pub save : Fault → GuardConfig → Disk → Result (Unit {0}) × Disk
  save fault config d = elim (toml.print config) [
    | err e ↦ (err e, d)
    | ok content ↦ write_private fault content d
  ]

  -- The outcome of the first start: the defaults, if they could be saved.
  abbrev created : Result (Unit {0}) × Disk → Result GuardConfig × Disk
  created (ok u, d) = (ok default_config, d)
  created (err e, d) = (err e, d)

  -- With what the path holds. A file that is there can be read, and the messages name no path.
  unfoldable pub load_from : Option File → Fault → Disk → Result GuardConfig × Disk
  load_from none fault d = created (save fault default_config d)
  load_from (some f) fault d = (context (toml.parse f.content) (codes "parse configuration"), d)

  unfoldable pub load_or_create : Fault → Disk → Result GuardConfig × Disk
  unfolding load_from
  load_or_create fault d = load_from d.target fault d
