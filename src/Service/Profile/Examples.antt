-- ===== src/Service/Profile/Examples.antt =====
-- crates/cng-core/src/service.rs: the terminal integration at a small profile.
use codex_no.Service.Sample.{calm_world, fresh}
use codex_no.Service.Machine.{readable, Computer}
use codex_no.Service.Profile.{enable_terminal_path, disable_terminal_path, with_profile}
use codex_no.Service.Profile.Block.{path_line, closed_lines}
use codex_no.Service.Profile.RoundTrip.{disable-enable, enabled}
use codex_no.Service.Terminal.{newlines}
use codex_no.Service.{block_start, block_end}
use codex_no.Base.Results.{ok}
use codex_no.Base.{ℕ, ◌≡◌, refl, false, none, some, ◌++◌}
use codex_no.Base.Text.{Text, codes, contains, find}

abbrev aliases : Text
aliases = codes "alias l=ls"

abbrev with_aliases : Computer
with_aliases = record fresh { shell = record { profile = some (readable aliases); backup = none } }

aliases_fresh : contains block_start aliases ≡ false
unfolding contains
aliases_fresh = refl

path_line_lem : find block_end (path_line (codes "/b")) ≡ none
unfolding find codex_no.Service.shell_double_quote
path_line_lem = refl

disable-enable_example :
    (enable_terminal_path calm_world with_aliases
      ≡ (ok tt, enabled calm_world aliases with_aliases))
    × ((out : Text) × (n : ℕ) × (disable_terminal_path calm_world
            (enabled calm_world aliases with_aliases)
          ≡ (ok tt, with_profile (some (readable out)) (enabled calm_world aliases with_aliases)))
        × (closed_lines aliases ≡ out ++ newlines n))
disable-enable_example =
    disable-enable calm_world calm_world with_aliases aliases (λ call. refl) (λ call. refl) refl
      aliases_fresh path_line_lem
