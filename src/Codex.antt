-- ===== src/Codex.antt =====
-- crates/cng-core/src/codex.rs: where the real Codex is, and the environment that it gets.
pub mod Entries
pub mod Found
pub mod Wrapper
mod Examples
use codex_no.Base.{
  ◌>>=◌, ◌+◌, Bool, true, false, not, ◌&&◌, Option, none, some, List, [], ◌∷◌, ◌++◌, map, ltb, ◌==◌,
  if◌then◌else◌, keep_if, find_if, any_of,
}
use codex_no.Base.Text.{Text, codes, text_eq, is_empty, trim, split_if, join}
use codex_no.Base.Sort.{sort_by}

-- The order of `String`, which is that of the code points.
unfoldable pub text_le : Text → Text → Bool
text_le [] t = true
text_le (c ∷ s) [] = false
text_le (c ∷ s) (d ∷ t) =
    let rest = text_le s t in if ltb c d then true else if c == d then rest else false

abbrev pub required_entries : List Text
required_entries =
    codes "localhost" ∷ codes "127.0.0.1" ∷ codes "::1" ∷ codes ".local" ∷ codes ".lan" ∷ []

-- The parts of a variable's value.
unfoldable pub entries_of : Option Text → List Text
unfolding split_if trim
entries_of none = []
entries_of (some value) =
    keep_if (λ s. not (is_empty s)) (map trim (split_if (λ c. c == b',') value))

unfoldable pub user_entries : (Text → Option Text) → List Text
unfolding entries_of
user_entries variable =
    entries_of (variable (codes "NO_PROXY")) ++ entries_of (variable (codes "no_proxy"))

unfoldable pub add_required : List Text → List Text → List Text
unfolding text_eq
add_required values [] = values
add_required values (r ∷ rs) =
    add_required (if any_of (λ v. text_eq v r) values then values else values ++ r ∷ []) rs

-- `Vec::dedup`.
unfoldable pub dedup : List Text → List Text
unfolding text_eq
dedup [] = []
dedup (x ∷ []) = x ∷ []
dedup (x ∷ y ∷ r) = elim (text_eq x y) [ true ↦ dedup (y ∷ r) | false ↦ x ∷ dedup (y ∷ r) ]

unfoldable pub no_proxy_entries : (Text → Option Text) → List Text
unfolding add_required dedup text_le
no_proxy_entries variable =
    dedup (sort_by text_le (add_required (user_entries variable) required_entries))

unfoldable pub merged_no_proxy : (Text → Option Text) → Text
unfolding join
merged_no_proxy variable = join (codes ",") (no_proxy_entries variable)

-- What is asked of the file system and of the environment: a path's canonical form if it exists,
-- whether it is a file, the running program, and the directories of PATH.
pub record Files : Type 0 where
  pub canonicalize : Text → Option Text
  pub is_file : Text → Bool
  pub current_exe : Option Text
  pub variable : Text → Option Text
  pub path_directories : Option (List Text)
  pub join_path : Text → Text → Text
  -- The fixed places, those below LOCALAPPDATA on Windows, and the names to look for in PATH.
  pub common_paths : List Text
  pub local_paths : List Text
  pub names : List Text

abbrev same_path : Text → Option Text → Bool
same_path p none = false
same_path p (some q) = text_eq p q

module _ (f : Files) where
  unfoldable pub is_real_codex : Text → Bool
  unfolding text_eq
  is_real_codex path = f.is_file path && elim (f.canonicalize path) [
    | none ↦ false
    | some candidate ↦ not (same_path candidate (f.current_exe >>= f.canonicalize))
  ]

  -- The loop over the directories, with the paths seen so far.
  unfoldable pub search_path : Text → List Text → List Text → Option Text
  unfolding is_real_codex text_eq
  search_path name seen [] = none
  search_path name seen (directory ∷ directories) =
      elim (f.canonicalize (f.join_path directory name)) [
        | none ↦ search_path name seen directories
        | some canonical ↦ elim (not (any_of (text_eq canonical) seen) && is_real_codex canonical) [
          | true ↦ some canonical
          | false ↦ search_path name (canonical ∷ seen) directories
        ]
      ]

  unfoldable pub find_on_path : Text → Option Text
  unfolding search_path
  find_on_path name = elim f.path_directories [
    | none ↦ none
    | some directories ↦ search_path name [] directories
  ]

  -- The first name that is found.
  unfoldable pub find_names : List Text → Option Text
  unfolding find_on_path
  find_names [] = none
  find_names (name ∷ names) = elim (find_on_path name) [ some p ↦ some p | none ↦ find_names names ]

  abbrev pub if_real : Option Text → Option Text
  if_real none = none
  if_real (some path) = if is_real_codex path then some path else none

  abbrev pub or_find : Option Text → Option Text → Option Text
  or_find (some p) q = some p
  or_find none q = q

  unfoldable pub find_real_codex : Option Text → Option Text
  unfolding find_names is_real_codex
  find_real_codex configured = or_find (if_real configured) (
      or_find (if_real (f.variable (codes "CNG_REAL_CODEX"))) (
        or_find (find_if is_real_codex f.common_paths)
          (or_find (find_if is_real_codex f.local_paths) (find_names f.names))))
