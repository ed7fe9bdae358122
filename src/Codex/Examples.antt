-- ===== src/Codex/Examples.antt =====
-- crates/cng-core/src/codex.rs: a configured Codex, and a user's NO_PROXY.
use codex_no.Codex.Entries.{no_proxy_entries-AreDifferent, AreDifferent}
use codex_no.Codex.Found.{find_real_codex-IsReal, IsReal}
use codex_no.Codex.{
  if_real, required_entries, is_real_codex, user_entries, Files, find_real_codex, no_proxy_entries,
}
use codex_no.Base.{◌≡◌, refl, ◌≢◌, ◌↔◌, ◌⊎◌, true, Option, none, some, [], ◌∷◌, ◌++◌, All}
use codex_no.Base.Text.{Text, codes, text_eq}

abbrev files : Files
files = record {
  canonicalize = λ p. some p;
  is_file = λ p. true;
  current_exe = some (codes "/bin/cng-codex");
  variable = λ name. none;
  path_directories = none;
  join_path = λ d n. d ++ n;
  common_paths = [];
  local_paths = [];
  names = codes "codex" ∷ [];
}

found_lem : find_real_codex files (some (codes "/bin/codex")) ≡ some (codes "/bin/codex")
unfolding find_real_codex is_real_codex text_eq
found_lem = refl

find_real_codex-IsReal_example :
    IsReal files (codes "/bin/codex")
    × ((some (codes "/bin/codex") ≡ some (codes "/bin/codex"))
        ⊎ (if_real files (some (codes "/bin/codex")) ≡ none))
find_real_codex-IsReal_example =
    find_real_codex-IsReal files (some (codes "/bin/codex")) (codes "/bin/codex") found_lem

abbrev variable : Text → Option Text
variable name = some (codes "localhost, example.com")

abbrev IsNamed : Text → Type 0
IsNamed s = s ≢ []

no_proxy_entries-AreDifferent_example :
    (All IsNamed (no_proxy_entries variable)
      ↔ (All IsNamed (user_entries variable) × All IsNamed required_entries))
    × AreDifferent (no_proxy_entries variable)
no_proxy_entries-AreDifferent_example = no_proxy_entries-AreDifferent variable IsNamed
