-- ===== src/Codex/Wrapper.antt =====
-- crates/cng-core/src/codex.rs: the command that runs Codex, its arguments and its environment.
pub mod Seen
pub mod Jobs
pub mod Sample
mod Examples
use codex_no.Codex.{merged_no_proxy}
use codex_no.Model.Candidate.{default_listen_port}
use codex_no.Base.Results.{Result, ok}
use codex_no.Base.{
  ◌+◌, ◌/◌, Bool, false, ◌&&◌, Option, none, some, List, [], ◌∷◌, ◌++◌, if◌then◌else◌, any_of,
}
use codex_no.Base.Text.{Text, codes, text_eq, split_whitespace, lines, decimal}

-- How a standard stream is set.
pub data Stdio : Type 0 where
  inherited : Stdio
  closed : Stdio
  unset : Stdio

-- A command that was not run yet. The variables that were set are listed with the latest first.
pub record Command : Type 0 where
  pub program : Text
  pub arguments : List Text
  pub variables : List (Text × Text)
  pub stdin : Stdio
  pub stdout : Stdio
  pub stderr : Stdio

abbrev pub new_command : Text → Command
new_command program = record {
  program = program;
  arguments = [];
  variables = [];
  stdin = unset;
  stdout = unset;
  stderr = unset;
}

-- `Command::env`.
abbrev pub set_variable : Text → Text → Command → Command
set_variable name value c = record c { variables = (name, value) ∷ c.variables }

abbrev pub proxy_names : List Text
proxy_names =
    codes "HTTP_PROXY"
    ∷ codes "HTTPS_PROXY"
    ∷ codes "ALL_PROXY"
    ∷ codes "http_proxy"
    ∷ codes "https_proxy"
    ∷ codes "all_proxy"
    ∷ []

unfoldable pub set_each : List Text → Text → Command → Command
set_each [] value c = c
set_each (name ∷ names) value c = set_each names value (set_variable name value c)

-- How a program ends: whether with success, and what it printed. `none` if it cannot be run.
abbrev pub Output : Type 0
Output = Option (Bool × Text)

abbrev pub starts_with_word : Text → List Text → Bool
starts_with_word word [] = false
starts_with_word word (w ∷ ws) = text_eq w word

-- The question which features a Codex has.
abbrev pub feature_question : Text → Command
feature_question real = record {
  program = real;
  arguments = codes "features" ∷ codes "list" ∷ [];
  variables = (codes "CODEX_CLI_PATH", real) ∷ [];
  stdin = closed;
  stdout = unset;
  stderr = unset;
}

-- The environment of the caller, and what a run of a command comes to.
module _ (variable : Text → Option Text) (run : Command → Output) where
  unfoldable pub apply_proxy_environment : Text → Command → Command
  unfolding set_each merged_no_proxy
  apply_proxy_environment real c =
      let proxy = codes "http://127.0.0.1:" ++ decimal default_listen_port in
      let no_proxy = merged_no_proxy variable in
      set_variable (codes "CNG_WRAPPED") (codes "1") (
        set_variable (codes "CODEX_CLI_PATH") real (
          set_variable (codes "no_proxy") no_proxy
            (set_variable (codes "NO_PROXY") no_proxy (set_each proxy_names proxy c))))

  unfoldable pub supports_feature : Text → Text → Bool
  unfolding lines split_whitespace text_eq
  supports_feature real feature = elim (run (feature_question real)) [
    | none ↦ false
    | some (succeeded, printed) ↦
        succeeded
        && any_of (λ line. starts_with_word feature (split_whitespace line)) (lines printed)
  ]

  abbrev pub respect_system_proxy : Text
  respect_system_proxy = codes "respect_system_proxy"

  -- The flag that turns the feature off, where Codex has it.
  abbrev pub feature_flags : Text → List Text
  feature_flags real =
      if supports_feature real respect_system_proxy
      then codes "--disable" ∷ respect_system_proxy ∷ []
      else []

  unfoldable pub wrapped_command : Text → List Text → Bool → Result Command
  wrapped_command real arguments inherit_stdio =
      let c = apply_proxy_environment real (new_command real) in
      ok (record c {
        arguments = c.arguments ++ (feature_flags real ++ arguments);
        stdin = if inherit_stdio then inherited else closed;
        stdout = if inherit_stdio then inherited else unset;
        stderr = if inherit_stdio then inherited else unset;
      })
