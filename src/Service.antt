-- ===== src/Service.antt =====
-- crates/cng-core/src/service.rs: the texts that the installation writes, and the environment that it
-- saves.
pub mod Quoting
pub mod Markup
pub mod Terminal
pub mod Environment
pub mod Machine
pub mod Profile
pub mod Later
pub mod Keeps
pub mod Custody
pub mod Macos
pub mod Windows
pub mod Migration
pub mod Always
pub mod Platforms
pub mod Sample
mod Examples
use mathlib.Core.List.{reverse}
use codex_no.Base.{
  ◌+◌, ◌-◌, ◌<◌, not, ◌&&◌, none, some, [], ◌∷◌, ◌++◌, ◌==◌, if◌then◌else◌, length, take, drop,
}
use codex_no.Base.Text.{Text, codes, is_empty, contains, find, ends_with, replace_if}

-- A text for a place between double quotes of the shell.
unfoldable pub shell_double_quote : Text → Text
unfolding replace_if
shell_double_quote value =
    replace_if (λ c. c == 96) (92 ∷ 96 ∷ [])
      (replace_if (λ c. c == 36) (92 ∷ 36 ∷ [])
        (replace_if (λ c. c == 34) (92 ∷ 34 ∷ []) (replace_if (λ c. c == 92) (92 ∷ 92 ∷ []) value)))

-- A text for the content of an XML element.
unfoldable pub xml_escape : Text → Text
unfolding replace_if
xml_escape value =
    replace_if (λ c. c == 39) (codes "&apos;")
      (replace_if (λ c. c == 34) (codes "&quot;")
        (replace_if (λ c. c == 62) (codes "&gt;")
          (replace_if (λ c. c == 60) (codes "&lt;")
            (replace_if (λ c. c == 38) (codes "&amp;") value))))

abbrev pub block_start : Text
block_start = codes "# >>> codex-network-guard >>>"

abbrev pub block_end : Text
block_end = codes "# <<< codex-network-guard <<<"

-- The block that puts the directory in front of the path.
unfoldable pub terminal_block : Text → Text
terminal_block bin =
    block_start
    ++ (10 ∷ codes "export PATH=\""
        ++ (shell_double_quote bin ++ (codes ":$PATH\"" ++ (10 ∷ block_end ++ 10 ∷ []))))

-- The profile with the block at its end, unless it has one.
unfoldable pub enabled_profile : Text → Text → Text
unfolding contains ends_with
enabled_profile bin original =
    if contains block_start original
    then original
    else original
      ++ ((if not (is_empty original) && not (ends_with (10 ∷ []) original) then 10 ∷ [] else [])
          ++ terminal_block bin)

-- `while output.ends_with("\n\n")`, on the text from its end.
unfoldable pub pop_newlines : Text → Text
pop_newlines [] = []
pop_newlines (c ∷ []) = c ∷ []
pop_newlines (c ∷ d ∷ s) = if c == 10 && d == 10 then pop_newlines (d ∷ s) else c ∷ d ∷ s

abbrev pub skip_newline : Text → Text
skip_newline [] = []
skip_newline (c ∷ s) = if c == 10 then s else c ∷ s

unfoldable pub remove_managed_block : Text → Text
unfolding find pop_newlines
remove_managed_block value = elim (find block_start value) [
  | none ↦ value
  | some start ↦ elim (find block_end (drop start value)) [
    | none ↦ value
    | some relative_end ↦
        let rest = drop (relative_end + length block_end) (drop start value) in
        reverse (pop_newlines (reverse (take start value ++ skip_newline rest)))
  ]
]
