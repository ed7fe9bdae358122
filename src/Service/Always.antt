-- ===== src/Service/Always.antt =====
-- crates/cng-core/src/service.rs: what holds of the user's own CODEX_CLI_PATH whatever is done with the
-- service, in any order and with any failures.
use codex_no.Service.Macos
use codex_no.Service.Windows
use codex_no.Service.Migration.{migrate_legacy}
use codex_no.Service.Profile.{enable_terminal_path, disable_terminal_path}
use codex_no.Service.Environment.{IsOwn}
use codex_no.Service.Machine.{Computer, Outside}
use codex_no.Service.Custody.{IsHeld, IsSound, IsWrapper}
use codex_no.Service.Macos.Custody as OnMacos
use codex_no.Service.Windows.Custody as OnWindows
use codex_no.Service.Windows.Custody.{IsReadBack}
use codex_no.Base.{ℕ, ◌≡◌, inl, Option, none, some}
use codex_no.Base.Text.{Text}

module _ (wrapper : Text) (v : Option Text) where
  -- One use of the service commands, in a world of its own.
  pub data Use (c : Computer) : Computer → Type 0 where
    macos_install : (w : Outside) → IsSound wrapper v w → Use c (Macos.install w c).1
    macos_uninstall :
        (w : Outside) → IsSound wrapper v w → (n : ℕ) → Use c (Macos.uninstall w n c).1
    macos_restart : (w : Outside) → Use c (Macos.restart w c).1
    macos_migrate : (w : Outside) (directory : Text) → Use c (migrate_legacy w directory c).1
    terminal_enable : (w : Outside) → Use c (enable_terminal_path w c).1
    terminal_disable : (w : Outside) → Use c (disable_terminal_path w c).1
    windows_install :
        (w : Outside)
        → IsSound wrapper v w
        → IsReadBack w v
        → IsReadBack w (some wrapper)
        → Use c (Windows.install w c).1
    windows_uninstall :
        (w : Outside)
        → IsSound wrapper v w
        → IsReadBack w v
        → IsReadBack w (some wrapper)
        → (n : ℕ) → Use c (Windows.uninstall w n c).1
    windows_restart : (w : Outside) → Use c (Windows.restart w c).1

  pub data Uses (c : Computer) : Computer → Type 0 where
    none_yet : Uses c c
    and_then : {d e : Computer} → Uses c d → Use d e → Uses c e

  module _ (shape : IsWrapper wrapper) (own : IsOwn wrapper v) where
    Use-IsHeld : {c d : Computer} → Use c d → IsHeld wrapper v c → IsHeld wrapper v d
    Use-IsHeld {c} (macos_install w s) h = (OnMacos.install-Keeps wrapper v w s shape own).kept c h
    Use-IsHeld {c} (macos_uninstall w s n) h =
        (OnMacos.uninstall-Keeps wrapper v w s shape own n).kept c h
    Use-IsHeld {c} (macos_restart w) h = (OnMacos.restart-Keeps wrapper v w).kept c h
    Use-IsHeld {c} (macos_migrate w directory) h =
        (OnMacos.migrate-Keeps wrapper v w directory).kept c h
    Use-IsHeld {c} (terminal_enable w) h = (OnMacos.enable-Keeps wrapper v w).kept c h
    Use-IsHeld {c} (terminal_disable w) h = (OnMacos.disable-Keeps wrapper v w).kept c h
    Use-IsHeld {c} (windows_install w s r q) h =
        (OnWindows.install-Keeps wrapper v w s shape own r q).kept c h
    Use-IsHeld {c} (windows_uninstall w s r q n) h =
        (OnWindows.uninstall-Keeps wrapper v w s shape own r q n).kept c h
    Use-IsHeld {c} (windows_restart w) h = (OnWindows.restart-Keeps wrapper v w).kept c h

    -- Whatever the installation, the removal, the restart, the migration and the terminal integration
    -- are used for, in any order, however often, and whichever of their calls fail: the user's own
    -- CODEX_CLI_PATH (or its absence) stays in the variable with no state file beside it, or it is in
    -- the state file and the variable is the user's or the wrapper. Assumed are that the wrapper's path
    -- is a trimmed text that is not empty, that the user's value is trimmed and not the wrapper, that a
    -- state file that is there can be read, and on Windows that what `reg query` prints is read back.
    pub Uses-IsHeld :
        {c d : Computer}
        → (c.environment.variable ≡ v) × (c.environment.saved ≡ none)
        → Uses c d
        → IsHeld wrapper v d
    Uses-IsHeld start none_yet = inl start
    Uses-IsHeld start (and_then before use_of_it) = Use-IsHeld use_of_it (Uses-IsHeld start before)
