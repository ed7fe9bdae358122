-- ===== src/Service/Examples.antt =====
-- crates/cng-core/src/service.rs: the theorems at a path with special characters, a profile
-- with a block, and a value that the user sets later.
use codex_no.Service.Later.{uninstall-HasVariable, HasVariable}
use codex_no.Service.Environment.{printed}
use codex_no.Service.Sample.{calm_world, fresh}
use codex_no.Service.Machine.{Computer, Outside, with_variable}
use codex_no.Service.Macos.{install, uninstall}
use codex_no.Service.Windows
use codex_no.Service.Windows.{is_this, queried, parse_query, find_value}
use codex_no.Service.Terminal.{remove_managed_block-LosesBlock, LosesBlock, HasNoBlock}
use codex_no.Service.{xml_escape, remove_managed_block, block_end, shell_double_quote, block_start}
use codex_no.Service.Markup.{read_content-xml_escape, read_content}
use codex_no.Service.Quoting.{read_quoted-shell_double_quote, read_quoted}
use codex_no.Base.{refl, ◌≡◌, ◌⊎◌, false, none, some, ◌∷◌, ◌++◌}
use codex_no.Base.Text.{split_once, lines, trim, trim_if, is_whitespace, text_eq, Text, codes}

abbrev odd_path : Text
odd_path = codes "/tmp/a&b<\"$c`"

read_quoted-shell_double_quote_example :
    read_quoted false (shell_double_quote odd_path ++ 34 ∷ codes " end")
    ≡ some (odd_path, codes " end")
read_quoted-shell_double_quote_example = read_quoted-shell_double_quote odd_path (codes " end")

read_content-xml_escape_example :
    read_content none (xml_escape odd_path ++ 60 ∷ codes "/string>")
    ≡ some (odd_path, 60 ∷ codes "/string>")
read_content-xml_escape_example = read_content-xml_escape odd_path (codes "/string>")

abbrev profile : Text
profile = codes "before" ++ (10 ∷ block_start ++ (10 ∷ block_end ++ (10 ∷ codes "after")))

remove_managed_block-LosesBlock_example :
    (HasNoBlock profile × (remove_managed_block profile ≡ profile))
    ⊎ LosesBlock profile (remove_managed_block profile)
remove_managed_block-LosesBlock_example = remove_managed_block-LosesBlock profile

-- A registry that prints the name and the type before the value.
abbrev printing_world : Outside
printing_world = record calm_world {
  query_output = λ value. codes "    CODEX_CLI_PATH    REG_SZ    " ++ value;
}

-- The user sets another value after an installation.
abbrev changed_later : Computer
changed_later = with_variable (some (codes "/v")) (install printing_world fresh).1

printed_lem : text_eq (printed (some (codes "/v"))) (codes "/w") ≡ false
unfolding trim trim_if is_whitespace text_eq
printed_lem = refl

queried_lem : is_this (codes "/w") (queried printing_world (some (codes "/v"))) ≡ false
unfolding trim trim_if is_whitespace text_eq parse_query find_value split_once lines
queried_lem = refl

uninstall-HasVariable_example :
    HasVariable printing_world (some (codes "/v")) (uninstall printing_world 0 changed_later).1
    × HasVariable printing_world
        (some (codes "/v"))
        (Windows.uninstall printing_world 0 changed_later).1
uninstall-HasVariable_example =
    uninstall-HasVariable printing_world (some (codes "/v")) 0 changed_later printed_lem queried_lem
      refl
