-- ===== src/Service/Environment.antt =====
-- crates/cng-core/src/service.rs: the user's own CODEX_CLI_PATH, as the commands read it.
use codex_no.Base.{◌≡◌, refl, false, not, ◌&&◌, Option, none, some, [], if◌then◌else◌}
use codex_no.Base.Text.{Text, text_eq, is_empty, trim}

-- What the session's environment holds, and the state file: none, or the value that it saved, if
-- there was one.
pub record Environment : Type 0 where
  pub variable : Option Text
  pub saved : Option (Option Text)

-- The text that `launchctl getenv` prints, without white space round it.
abbrev pub printed : Option Text → Text
printed none = []
printed (some value) = trim value

unfoldable pub previous_value : Text → Text → Option Text
unfolding text_eq
previous_value wrapper value =
    if not (is_empty value) && not (text_eq value wrapper) then some value else none

-- The value that is there before is the user's: absent, or a trimmed text other than the wrapper.
abbrev pub IsOwn : Text → Option Text → Type 0
IsOwn wrapper none = Unit
IsOwn wrapper (some value) =
    (trim value ≡ value) × (is_empty value ≡ false) × (text_eq value wrapper ≡ false)

pub previous_lem :
    (wrapper : Text) (v : Option Text) → IsOwn wrapper v → previous_value wrapper (printed v) ≡ v
unfolding previous_value
previous_lem wrapper none h = refl
previous_lem wrapper (some value) (t, e, o) = rw (t, e, o) refl
