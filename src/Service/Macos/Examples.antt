-- ===== src/Service/Macos/Examples.antt =====
-- crates/cng-core/src/service.rs: the theorems on the installation at a small computer, and tests.
use codex_no.Service.Sample.{calm_world, fresh}
use codex_no.Service.Machine.{Computer, write_state, Outside}
use codex_no.Service.Environment.{IsOwn}
use codex_no.Service.Custody.{IsWrapper, IsHeld}
use codex_no.Service.Macos.{install, uninstall, launch_agent_xml}
use codex_no.Service.Macos.Ending.{install-IsEnd, IsEnd}
use codex_no.Service.Macos.Ending.Rules.{IsWell}
use codex_no.Service.Always.{Uses, none_yet, and_then, macos_install, macos_uninstall, Uses-IsHeld}
use codex_no.Base.{◌≡◌, refl, true, none, some}
use codex_no.Base.Text.{codes, text_eq, contains, is_whitespace, trim_if, trim}

-- A world in which the state file cannot be written.
abbrev full_world : Outside
full_world = record calm_world {
  fault = λ call. elim call [ write_state ↦ some (codes "no space left") | _ ↦ none ];
}

calm_world-IsWell : IsWell calm_world
calm_world-IsWell = record {
  calm = λ call. refl;
  has_cng = refl;
  has_cngd = refl;
  has_codex = refl;
  starts = refl;
  sets = refl;
  restores = refl;
  reads = refl;
}

small_shape : IsWrapper (codes "/w")
unfolding trim trim_if is_whitespace
small_shape = (refl, refl)

user-IsOwn : IsOwn (codes "/w") (some (codes "/u"))
unfolding trim trim_if is_whitespace text_eq
user-IsOwn = (refl, refl, refl)

install-IsEnd_example :
    IsEnd calm_world calm_world-IsWell (some (codes "/u")) (install calm_world fresh)
install-IsEnd_example =
    install-IsEnd calm_world calm_world-IsWell (some (codes "/u")) fresh small_shape user-IsOwn
      (refl, refl)

-- An installation that fails at the state file, one that succeeds, and a removal.
abbrev after_all : Computer
after_all = (uninstall calm_world 0 (install calm_world (install full_world fresh).1).1).1

small_run : Uses (codes "/w") (some (codes "/u")) fresh after_all
small_run =
    and_then
      (and_then (and_then none_yet (macos_install full_world (refl, refl)))
        (macos_install calm_world (refl, refl)))
      (macos_uninstall calm_world (refl, refl) 0)

Uses-IsHeld_example : IsHeld (codes "/w") (some (codes "/u")) after_all
Uses-IsHeld_example =
    Uses-IsHeld (codes "/w") (some (codes "/u")) small_shape user-IsOwn (refl, refl) small_run

escapes_paths :
    contains
      (codes "<string>/tmp/a&amp;b/cngd</string>")
      (launch_agent_xml (codes "/tmp/a&b/cngd") (codes "/w") (codes "/l"))
    ≡ true
unfolding contains launch_agent_xml
escapes_paths = refl
