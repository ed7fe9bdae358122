-- ===== src/Codex/Found.antt =====
-- crates/cng-core/src/codex.rs: the Codex that is found is never the guard's own program.
use codex_no.Base.{
  refl, ◌≡◌, sym, ap, ◌∙◌, subst, ◌≢◌, ◌⊎◌, inl, inr, true, false, not, ◌&&◌, Option, none, some,
  List, [], ◌∷◌, arith, Bool-cases, Option-cases, find_if, any_of, find_if-split, ◌>>=◌,
}
use codex_no.Codex.{
  find_names, find_real_codex, is_real_codex, search_path, or_find, if_real, same_path,
  find_on_path, Files,
}
use codex_no.Base.Text.{Text, codes, text_eq}
use mathlib.Core.Bool.{false≢true}
use codex_no.Base.Text.Laws.{text_eq_refl}

module _ (f : Files) where
  -- The path is a file that exists and is not the running program.
  abbrev pub IsReal : Text → Type 0
  IsReal path =
      (f.is_file path ≡ true)
      × ((q : Text) × (f.canonicalize path ≡ some q)
          × ((f.current_exe >>= f.canonicalize) ≢ some q))

  other_lem : (q : Text) (o : Option Text) → same_path q o ≡ false → o ≢ some q
  other_lem q none h e = cc
  other_lem q (some r) h e =
      let same : r ≡ q = ground arith in false≢true (sym h ∙ (ap (text_eq q) same ∙ text_eq_refl q))

  is_real_codex-IsReal : (path : Text) → is_real_codex f path ≡ true → IsReal path
  unfolding is_real_codex
  is_real_codex-IsReal path h = elim (Option-cases (f.canonicalize path)) [
    | inl e ↦ absurd (ground arith)
    | inr (q, e) ↦
        (ground arith, (q, e, other_lem q (f.current_exe >>= f.canonicalize) (ground arith)))
  ]

  abbrev AllReal : Option Text → Type 0
  AllReal none = Unit
  AllReal (some path) = IsReal path

  search_path-AllReal :
      (name : Text) (seen directories : List Text) → AllReal (search_path f name seen directories)
  unfolding search_path
  search_path-AllReal name seen [] = tt
  search_path-AllReal name seen (directory ∷ directories) =
      elim (Option-cases (f.canonicalize (f.join_path directory name))) [
        | inl e ↦ rw (e, search_path) (search_path-AllReal name seen directories)
        | inr (q, e) ↦ elim (Bool-cases (not (any_of (text_eq q) seen) && is_real_codex f q)) [
          | inl r ↦ rw (e, search_path, r) (is_real_codex-IsReal q (ground arith))
          | inr r ↦ rw (e, search_path, r) (search_path-AllReal name (q ∷ seen) directories)
        ]
      ]

  find_on_path-AllReal : (name : Text) → AllReal (find_on_path f name)
  unfolding find_on_path
  find_on_path-AllReal name = elim (Option-cases f.path_directories) [
    | inl e ↦ rw (e, find_on_path) tt
    | inr (directories, e) ↦ rw (e, find_on_path) (search_path-AllReal name [] directories)
  ]

  or_find-AllReal : (o p : Option Text) → AllReal o → AllReal p → AllReal (or_find f o p)
  or_find-AllReal none p h k = k
  or_find-AllReal (some x) p h k = h

  find_names-AllReal : (names : List Text) → AllReal (find_names f names)
  unfolding find_names
  find_names-AllReal [] = tt
  find_names-AllReal (name ∷ names) = elim (Option-cases (find_on_path f name)) [
    | inl e ↦ rw (e, find_names) (find_names-AllReal names)
    | inr (p, e) ↦ rw (e, find_names) (subst AllReal e (find_on_path-AllReal name))
  ]

  if_real-AllReal : (o : Option Text) → AllReal (if_real f o)
  if_real-AllReal none = tt
  if_real-AllReal (some path) = elim (Bool-cases (is_real_codex f path)) [
    | inl e ↦ rw e (is_real_codex-IsReal path e)
    | inr e ↦ rw e tt
  ]

  listed-AllReal : (paths : List Text) → AllReal (find_if (is_real_codex f) paths)
  listed-AllReal paths = elim (Option-cases (find_if (is_real_codex f) paths)) [
    | inl e ↦ rw e tt
    | inr (p, e) ↦
        let (_, _, _, real, _) = find_if-split (is_real_codex f) paths p e in
        rw e (is_real_codex-IsReal p real)
  ]

  found-AllReal : (configured : Option Text) → AllReal (find_real_codex f configured)
  unfolding find_real_codex
  found-AllReal configured = or_find-AllReal _ _ (if_real-AllReal configured) (
      or_find-AllReal _ _ (if_real-AllReal (f.variable (codes "CNG_REAL_CODEX"))) (
        or_find-AllReal _ _ (listed-AllReal f.common_paths)
          (or_find-AllReal _ _ (listed-AllReal f.local_paths) (find_names-AllReal f.names))))

  configured_lem :
      (configured : Option Text) (p : Text) (later : Option Text)
      → or_find f (if_real f configured) later ≡ some p
      → (configured ≡ some p) ⊎ (if_real f configured ≡ none)
  configured_lem none p later h = inr refl
  configured_lem (some path) p later h = elim (Bool-cases (is_real_codex f path)) [
    | inr e ↦ inr (rw e refl)
    | inl e ↦ let k : some path ≡ some p = rw e at h in inl k
  ]

  -- The Codex that is found is a file that exists and is not the running program, so the wrapper never
  -- starts itself; and it is the configured one unless none is configured or that one is no such file.
  pub find_real_codex-IsReal :
      (configured : Option Text) (p : Text)
      → find_real_codex f configured ≡ some p
      → IsReal p × ((configured ≡ some p) ⊎ (if_real f configured ≡ none))
  unfolding find_real_codex
  find_real_codex-IsReal configured p h =
      (subst AllReal h (found-AllReal configured), configured_lem configured p _ h)
