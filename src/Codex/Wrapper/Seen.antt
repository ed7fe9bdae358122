-- ===== src/Codex/Wrapper/Seen.antt =====
-- crates/cng-core/src/codex.rs: the arguments and the variables that Codex sees.
use codex_no.Codex.{merged_no_proxy}
use codex_no.Codex.Wrapper.{
  new_command, Command, Output, proxy_names, apply_proxy_environment, feature_flags,
  wrapped_command, set_each,
}
use codex_no.Base.Results.{ok}
use codex_no.Base.{
  ◌≡◌, refl, ◌⊎◌, inl, inr, Bool, true, false, Option, some, List, [], ◌∷◌, ◌++◌, arith,
  if◌then◌else◌, Bool-cases, any_of, All,
}
use codex_no.Base.Text.{Text, codes, text_eq, decimal}

-- What the program sees: the latest value that was set, or the one that it inherits. Names are compared
-- exactly, as on Unix.
unfoldable pub seen_in : List (Text × Text) → (Text → Option Text) → Text → Option Text
unfolding text_eq
seen_in [] variable name = variable name
seen_in ((key, value) ∷ rest) variable name =
    let older = seen_in rest variable name in if text_eq key name then some value else older

seen_in-other :
    (set : List (Text × Text)) (variable : Text → Option Text) (name : Text)
    → any_of (λ p. text_eq p.0 name) set ≡ false
    → seen_in set variable name ≡ variable name
unfolding seen_in
seen_in-other [] variable name h = refl
seen_in-other ((key, value) ∷ rest) variable name h = elim (Bool-cases (text_eq key name)) [
  | inl e ↦ absurd (ground arith)
  | inr e ↦ rw (e, seen_in) (seen_in-other rest variable name (ground arith))
]

seen_in-cases :
    (set : List (Text × Text)) (variable : Text → Option Text) (name : Text)
    → (any_of (λ p. text_eq p.0 name) set ≡ true) ⊎ (seen_in set variable name ≡ variable name)
seen_in-cases set variable name = elim (Bool-cases (any_of (λ p. text_eq p.0 name) set)) [
  | inl e ↦ inl e
  | inr e ↦ inr (seen_in-other set variable name e)
]

abbrev pub relay_proxy : Text
relay_proxy = codes "http://127.0.0.1:17890"

abbrev pub wrapper_names : List Text
wrapper_names =
    codes "CNG_WRAPPED"
    ∷ codes "CODEX_CLI_PATH"
    ∷ codes "no_proxy"
    ∷ codes "NO_PROXY"
    ∷ codes "all_proxy"
    ∷ codes "https_proxy"
    ∷ codes "http_proxy"
    ∷ codes "ALL_PROXY"
    ∷ codes "HTTPS_PROXY"
    ∷ codes "HTTP_PROXY"
    ∷ []

-- The program's variables: the relay for every protocol, the merged exceptions, the real Codex, and
-- for any other name what the caller has.
abbrev pub IsShielded : (Text → Option Text) → Text → (Text → Option Text) → Type 0
IsShielded variable real seen =
    All (λ name. seen name ≡ some relay_proxy) proxy_names
    × All (λ name. seen name ≡ some (merged_no_proxy variable))
        (codes "NO_PROXY" ∷ codes "no_proxy" ∷ [])
    × (seen (codes "CODEX_CLI_PATH") ≡ some real)
    × (seen (codes "CNG_WRAPPED") ≡ some (codes "1"))
    × ((name : Text)
        → (any_of (λ key. text_eq key name) wrapper_names ≡ true) ⊎ (seen name ≡ variable name))

-- The command that wraps Codex runs the real Codex. Its arguments are the caller's, unchanged and in
-- order, behind the flag that turns off `respect_system_proxy` if and only if this Codex lists that
-- feature. It sees the relay as the proxy of every protocol in both spellings, the merged exceptions in
-- both spellings, the real Codex as `CODEX_CLI_PATH`, and every other variable as the caller has it.
pub wrapped_command-IsShielded :
    (variable : Text → Option Text) (run : Command → Output) (real : Text) (arguments : List Text)
    (inherit_stdio : Bool)
    → (c : Command) × (wrapped_command variable run real arguments inherit_stdio ≡ ok c)
      × (c.program ≡ real)
      × (c.arguments ≡ feature_flags variable run real ++ arguments)
      × IsShielded variable real (seen_in c.variables variable)
unfolding wrapped_command apply_proxy_environment set_each decimal seen_in text_eq
wrapped_command-IsShielded variable run real arguments inherit_stdio = (
  _,
  refl,
  refl,
  refl,
  (
    (refl, (refl, (refl, (refl, (refl, (refl, tt)))))),
    (refl, (refl, tt)),
    refl,
    refl,
    λ name.
        seen_in-cases ((apply_proxy_environment variable run real (new_command real)).variables)
          variable name,
  ),
)
