-- ===== src/Codex/Wrapper/Jobs/Shielded.antt =====
-- crates/cng-core/src/codex.rs: what the programs that are started see.
use codex_no.Codex.Wrapper.Jobs.{
  Programs, Started, ◌>=>◌, wrapped, answer_of, report_of, exit_code, control_question,
  control_arguments, doctor_arguments, is_action, run_wrapped, spawn_wrapped, spawn_remote_control,
  doctor, supports_remote_control, remote_control, run_codex, silent,
}
use codex_no.Codex.Wrapper.{Command, feature_question, feature_flags, wrapped_command}
use codex_no.Codex.Wrapper.Seen.{IsShielded, seen_in, wrapped_command-IsShielded}
use codex_no.Base.Results.{Result, ok, err, ◌>>=◌, context}
use codex_no.Base.{
  ◌≡◌, refl, sym, subst, ◌⊎◌, inl, inr, Bool, true, false, some, List, [], ◌∷◌, ◌++◌, if◌then◌else◌,
  All, All-append,
}
use codex_no.Base.Text.{Text, codes}

-- What the program does with Codex.
pub data Job : Type 0 where
  run_job spawn_job : List Text → Job
  start_control_job doctor_job ask_control_job : Job
  control_job : Text → Job
  wrapper_job : List Text → Job

-- What Codex is asked to do.
abbrev pub arguments_of : Job → List Text
arguments_of (run_job arguments) = arguments
arguments_of (spawn_job arguments) = arguments
arguments_of start_control_job = control_arguments (codes "start")
arguments_of doctor_job = doctor_arguments
arguments_of ask_control_job = []
arguments_of (control_job action) = control_arguments action
arguments_of (wrapper_job arguments) = arguments

module _ (P : Programs) (real : Text) where
  abbrev pub started : Job → List Command
  started (run_job arguments) = (run_wrapped P real arguments).0
  started (spawn_job arguments) = (spawn_wrapped P real arguments).0
  started start_control_job = (spawn_remote_control P real).0
  started doctor_job = (doctor P real).0
  started ask_control_job = (supports_remote_control P real).0
  started (control_job action) = (remote_control P real action).0
  started (wrapper_job arguments) = (run_codex P (ok (some real)) arguments).0

  abbrev pub IsWrapped : List Text → Command → Type 0
  IsWrapped arguments c =
      (c.program ≡ real)
      × (c.arguments ≡ feature_flags P.variable P.answer real ++ arguments)
      × IsShielded P.variable real (seen_in c.variables P.variable)

  -- One of the two questions, or the real Codex behind the relay with the arguments.
  abbrev pub IsGuarded : List Text → Command → Type 0
  IsGuarded arguments c =
      (c ≡ feature_question real) ⊎ ((c ≡ control_question real) ⊎ IsWrapped arguments c)

  -- A command that is made and then started.
  wrapped_lem :
      {A : Type 0} (arguments : List Text) (inherit_stdio : Bool) (k : Command → Started A)
      → ((c : Command) → IsWrapped arguments c → All (IsGuarded arguments) (k c).0)
      → All
          (IsGuarded arguments)
          ((
            feature_question real ∷ [],
            wrapped_command P.variable P.answer real arguments inherit_stdio,
          )
            >=> k).0
  wrapped_lem arguments inherit_stdio k h =
      let (c, made, program, passed, seen) =
        wrapped_command-IsShielded P.variable P.answer real arguments inherit_stdio in
      subst (λ r. All (IsGuarded arguments) ((feature_question real ∷ [], r) >=> k).0) (sym made)
        (inl refl, h c (program, passed, seen))

  control_lem :
      (action : Text) (b : Bool)
      → All
          (IsGuarded (control_arguments action))
          ((if b
            then (wrapped P real (control_arguments action) false >=> λ c.
                (c ∷ [], P.execute c >>= answer_of P action))
            else ([], err (codes "unsupported remote-control action")))).0
  control_lem action true =
      wrapped_lem (control_arguments action) false _ (λ c h. (inr (inr h), tt))
  control_lem action false = tt

  ran_lem : (arguments : List Text) → All (IsGuarded arguments) (run_wrapped P real arguments).0
  unfolding run_wrapped
  ran_lem arguments =
      wrapped_lem arguments true
        (λ c. (c ∷ [], context (P.execute c) (codes "run Codex") >>= λ done. ok done.code))
        (λ c h. (inr (inr h), tt))

  -- A step that starts nothing more.
  ended_lem :
      {A B : Type 0} (Q : Command → Type 0) (o : Started A) (f : A → Result B)
      → All Q o.0
      → All Q (o >=> λ a. ([], f a)).0
  ended_lem Q (cs, ok a) f h = All-append Q cs [] h tt
  ended_lem Q (cs, err e) f h = h

  -- Whatever Codex is used for (it is run or started with arguments, its remote control is started,
  -- asked for or told an action, its doctor is run, or the wrapper stands in for it), every program
  -- that is started is the real Codex, and all but the two questions (which features it has, and whether
  -- it has a remote control) pass on the arguments unchanged behind the flag for the system's proxy and
  -- see the relay as the proxy of every protocol, the merged exceptions, the real Codex as
  -- `CODEX_CLI_PATH`, and otherwise what the caller has.
  pub started-AreGuarded : (job : Job) → All (IsGuarded (arguments_of job)) (started job)
  unfolding spawn_wrapped spawn_remote_control doctor supports_remote_control remote_control
      run_codex
  started-AreGuarded (run_job arguments) = ran_lem arguments
  started-AreGuarded (spawn_job arguments) =
      wrapped_lem arguments false (λ c. (c ∷ [], context (P.spawn c) (codes "start Codex")))
        (λ c h. (inr (inr h), tt))
  started-AreGuarded start_control_job =
      wrapped_lem (control_arguments (codes "start")) false
        (λ c.
          (silent P c ∷ [], context (P.spawn (silent P c)) (codes "start Codex remote-control")))
        (λ c h. (inr (inr h), tt))
  started-AreGuarded doctor_job =
      wrapped_lem doctor_arguments false
        (λ c. (
          c ∷ [],
          context (P.execute c) (codes "run codex doctor") >>= λ done.
              context (P.parse (report_of P done)) (codes "parse codex doctor JSON"),
        ))
        (λ c h. (inr (inr h), tt))
  started-AreGuarded ask_control_job = (inr (inl refl), tt)
  started-AreGuarded (control_job action) = control_lem action (is_action action)
  started-AreGuarded (wrapper_job arguments) =
      ended_lem (IsGuarded arguments) (run_wrapped P real arguments) (λ code. ok (exit_code P code))
        (ran_lem arguments)
