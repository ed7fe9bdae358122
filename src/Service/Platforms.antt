-- ===== src/Service/Platforms.antt =====
-- crates/cng-core/src/service.rs: the functions as each platform compiles them.
use codex_no.Service.Macos
use codex_no.Service.Windows
use codex_no.Service.Migration.{MigrationReport, migrate_legacy}
use codex_no.Service.Profile.{enable_terminal_path, disable_terminal_path}
use codex_no.Service.Machine.{Outside, ServiceStatus, Steps, fail}
use codex_no.Discovery.Search.{Platform, macos, windows, elsewhere}
use codex_no.Base.{ℕ}
use codex_no.Base.Text.{Text, codes}

abbrev not_implemented : {A : Type 0} → Steps A
not_implemented =
    fail (codes "service management is currently implemented only on macOS and Windows")

module _ (w : Outside) where
  abbrev pub status_on : Platform → ℕ → Steps ServiceStatus
  status_on macos = Macos.status w
  status_on windows = Windows.status w
  status_on elsewhere = λ n. not_implemented

  abbrev pub install_on : Platform → Steps ServiceStatus
  install_on macos = Macos.install w
  install_on windows = Windows.install w
  install_on elsewhere = not_implemented

  abbrev pub uninstall_on : Platform → Steps ServiceStatus
  uninstall_on macos = Macos.uninstall w 0
  uninstall_on windows = Windows.uninstall w 0
  uninstall_on elsewhere = not_implemented

  abbrev pub restart_on : Platform → Steps ServiceStatus
  restart_on macos = Macos.restart w
  restart_on windows = Windows.restart w
  restart_on elsewhere = not_implemented

  abbrev pub migrate_on : Platform → Text → Steps MigrationReport
  migrate_on macos directory = migrate_legacy w directory
  migrate_on _ directory = fail (codes "legacy migration is currently implemented only on macOS")

  abbrev pub enable_terminal_on : Platform → Steps (Unit {0})
  enable_terminal_on macos = enable_terminal_path w
  enable_terminal_on _ =
      fail (codes "terminal PATH integration is currently implemented only on macOS")

  abbrev pub disable_terminal_on : Platform → Steps (Unit {0})
  disable_terminal_on macos = disable_terminal_path w
  disable_terminal_on _ =
      fail (codes "terminal PATH integration is currently implemented only on macOS")
