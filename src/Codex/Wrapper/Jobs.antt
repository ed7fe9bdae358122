-- ===== src/Codex/Wrapper/Jobs.antt =====
-- crates/cng-core/src/codex.rs and crates/cng-codex/src/main.rs: the programs that are started to use
-- Codex, and what comes of them.
pub mod Shielded
use codex_no.Codex.Wrapper.{
  Command, Output, closed, new_command, set_variable, feature_question, wrapped_command,
}
use codex_no.Base.Results.{Result, ok, err, ◌>>=◌, ◌>>◌, ensure, or_fail, context}
use codex_no.Base.{
  ℕ, ◌+◌, ◌-◌, Bool, true, false, not, ◌||◌, Option, none, some, List, [], ◌∷◌, ◌++◌, if◌then◌else◌,
}
use codex_no.Base.Text.{Text, codes, text_eq, is_empty, find, trim}

-- What a program that was run leaves.
pub record Finished : Type 0 where
  pub succeeded : Bool
  pub code : Option ℕ
  pub stdout : List ℕ
  pub stderr : List ℕ

-- The programs outside, and serde_json; the standard output of a command that only asks is the one of
-- `answer`.
pub record Programs : Type 1 where
  pub Value : Type 0
  pub Child : Type 0
  pub variable : Text → Option Text
  pub answer : Command → Output
  pub execute : Command → Result Finished
  pub spawn : Command → Result Child
  pub parse : List ℕ → Result Value
  pub lossy : List ℕ → Text
  pub ok_value : Value

-- The commands that were started, in order, and what came of it.
abbrev pub Started : Type 0 → Type 0
Started A = List Command × Result A

infixl 5 ◌>=>◌
abbrev pub ◌>=>◌ : {A B : Type 0} → Started A → (A → Started B) → Started B
(cs, ok a) >=> k = (cs ++ (k a).0, (k a).1)
(cs, err e) >=> k = (cs, err e)

abbrev pub control_question : Text → Command
control_question real = record (set_variable (codes "CODEX_CLI_PATH") real (new_command real)) {
  arguments = codes "remote-control" ∷ codes "--help" ∷ [];
  stdin = closed;
}

abbrev pub is_action : Text → Bool
is_action action =
    text_eq action (codes "start")
    || (text_eq action (codes "stop") || text_eq action (codes "pair"))

abbrev pub control_arguments : Text → List Text
control_arguments action = codes "remote-control" ∷ action ∷ codes "--json" ∷ []

abbrev pub doctor_arguments : List Text
doctor_arguments = codes "doctor" ∷ codes "--json" ∷ []

module _ (P : Programs) where
  -- The wrapped command is made after the question for the feature.
  abbrev pub wrapped : Text → List Text → Bool → Started Command
  wrapped real arguments inherit_stdio =
      (feature_question real ∷ [], wrapped_command P.variable P.answer real arguments inherit_stdio)

  unfoldable pub run_wrapped : Text → List Text → Started (Option ℕ)
  unfolding wrapped_command
  run_wrapped real arguments = wrapped real arguments true >=> λ c.
      (c ∷ [], context (P.execute c) (codes "run Codex") >>= λ done. ok done.code)

  unfoldable pub spawn_wrapped : Text → List Text → Started P.Child
  unfolding wrapped_command
  spawn_wrapped real arguments =
      wrapped real arguments false >=> λ c. (c ∷ [], context (P.spawn c) (codes "start Codex"))

  abbrev pub silent : Command → Command
  silent c = record c { stdout = closed; stderr = closed }

  unfoldable pub spawn_remote_control : Text → Started P.Child
  unfolding wrapped_command
  spawn_remote_control real = wrapped real (control_arguments (codes "start")) false >=> λ c.
      (silent c ∷ [], context (P.spawn (silent c)) (codes "start Codex remote-control"))

  -- The report is on the standard output, or if that is empty on the standard error.
  abbrev pub report_of : Finished → List ℕ
  report_of done = if is_empty done.stdout then done.stderr else done.stdout

  unfoldable pub doctor : Text → Started P.Value
  unfolding wrapped_command
  doctor real = wrapped real doctor_arguments false >=> λ c. (
    c ∷ [],
    context (P.execute c) (codes "run codex doctor") >>= λ done.
        context (P.parse (report_of done)) (codes "parse codex doctor JSON"),
  )

  abbrev pub is_success : Result Finished → Bool
  is_success (ok done) = done.succeeded
  is_success (err e) = false

  unfoldable pub supports_remote_control : Text → List Command × Bool
  supports_remote_control real =
      (control_question real ∷ [], is_success (P.execute (control_question real)))

  unfoldable pub answer_of : Text → Finished → Result P.Value
  unfolding trim
  answer_of action done =
      ensure done.succeeded
        (codes "remote-control " ++ (action ++ (codes " failed: " ++ trim (P.lossy done.stderr))))
      >> (if is_empty done.stdout
          then ok P.ok_value
          else context (P.parse done.stdout) (codes "parse remote-control JSON"))

  unfoldable pub remote_control : Text → Text → Started P.Value
  unfolding wrapped_command answer_of text_eq
  remote_control real action =
      if is_action action
      then (wrapped real (control_arguments action) false >=> λ c.
          (c ∷ [], P.execute c >>= answer_of action))
      else ([], err (codes "unsupported remote-control action"))

  -- `cng-codex`: the code that it exits with, once the configuration is read and Codex is found.
  abbrev pub exit_code : Option ℕ → ℕ
  exit_code none = 1
  exit_code (some n) = n

  unfoldable pub run_codex : Result (Option Text) → List Text → Started ℕ
  unfolding run_wrapped
  run_codex found arguments =
      ([], found >>= λ real. or_fail real (codes "could not find the real Codex executable"))
      >=> λ real. run_wrapped real arguments >=> λ code. ([], ok (exit_code code))
