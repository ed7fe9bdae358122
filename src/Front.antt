-- ===== src/Front.antt =====
-- crates/cng/src/main.rs and apps/desktop/src-tauri/src/main.rs: what the command line and the window
-- share, the call of the daemon and the computer that they run on.
pub mod Report
pub mod Cli
pub mod Desktop
pub mod Stays
pub mod Intents
pub mod Clients
pub mod Typed
pub mod Actions
pub mod Clicked
pub mod Performed
mod Examples
use codex_no.Codex.Wrapper.Jobs.{Programs}
use codex_no.Service.Migration.{MigrationReport}
use codex_no.Service.Machine.{Computer, Outside, ServiceStatus, Steps}
use codex_no.Daemon.Requests.{handle, Params, Reply}
use codex_no.Daemon.{AppState, World}
use codex_no.Model.Health.{GuardStatus}
use codex_no.Proxy.Errors.{redact_error}
use codex_no.Config.{GuardConfig}
use codex_no.Url.{UrlLib}
use codex_no.Base.Results.{Result, ok, err}
use codex_no.Base.{◌+◌, Bool, Option, none, some, List, [], ◌∷◌, ◌++◌, map, if◌then◌else◌}
use codex_no.Base.Text.{Text, codes, text_eq, lines}

-- A line on the standard output, or on the standard error.
pub data Line : Type 0 where
  output_line : Text → Line
  error_line : Text → Line

-- The daemon, the computer, what was printed, and the reports that were written, by their paths.
pub record Session (U : UrlLib) : Type 0 where
  pub daemon : AppState U
  pub computer : Computer
  pub lines : List Line
  pub reports : List (Text × Text)

-- The world outside: the daemon's and the installation's, whether the socket has a path, whether the
-- daemon is reached and its answer arrives, serde_json, the files, and the other programs.
pub record Desk (U : UrlLib) : Type 1 where
  pub world : World U
  pub outside : Outside
  pub socket_fault : Option Text
  pub call_fault : Option Text
  pub answer_fault : Option Text
  pub print_reply : Reply U → Result Text
  pub print_service : ServiceStatus → Result Text
  pub print_migration : MigrationReport → Result Text
  pub read_status : Reply U → Result (GuardStatus U)
  pub join_path : Text → Text → Text
  pub write_fault : Text → Option Text
  pub load_config : Result GuardConfig
  pub programs : Programs
  pub open_app : Result Bool
  pub profile : Text
  pub backup_directory : Text
  pub desktop_dir : Option Text
  pub support_dir : Option Text

-- The parameters `null`, and objects of one field.
abbrev pub null_params : Params
null_params = record { get_bool = λ key. none; get_str = λ key. none }

abbrev pub bool_params : Text → Bool → Params
bool_params name value = record {
  get_bool = λ key. if text_eq key name then some value else none;
  get_str = λ key. none;
}

abbrev pub text_params : Text → Text → Params
text_params name value = record {
  get_bool = λ key. none;
  get_str = λ key. if text_eq key name then some value else none;
}

abbrev pub Action : UrlLib → Type 0 → Type 0
Action U A = Session U → Result A × Session U

-- `Result::context`, printed with its cause.
abbrev pub in_context : {A : Type 0} → Text → Result A → Result A
in_context text (ok a) = ok a
in_context text (err e) = err (text ++ (codes ": " ++ e))

module _ {U : UrlLib} where
  abbrev pub resume :
      {A B : Type 0} → Result A × Session U → (A → Action U B) → Result B × Session U
  resume (ok a, s) k = k a s
  resume (err e, s) k = (err e, s)

  infixl 5 ◌>>=◌ ◌>>◌
  abbrev pub ◌>>=◌ : {A B : Type 0} → Action U A → (A → Action U B) → Action U B
  ◌>>=◌ m k s = resume (m s) k

  abbrev pub ◌>>◌ : {A B : Type 0} → Action U A → Action U B → Action U B
  m >> k = m >>= λ _. k

  abbrev pub pure : {A : Type 0} → A → Action U A
  pure a s = (ok a, s)

  abbrev pub lift : {A : Type 0} → Result A → Action U A
  lift r s = (r, s)

  abbrev pub unless_fault : Option Text → Action U (Unit {0})
  unless_fault none = pure tt
  unless_fault (some e) = lift (err e)

  abbrev pub say : Text → Action U (Unit {0})
  say text s = (ok tt, record s { lines = s.lines ++ output_line text ∷ [] })

  abbrev pub say_all : List Text → Action U (Unit {0})
  say_all texts s = (ok tt, record s { lines = s.lines ++ map output_line texts })

  abbrev pub note : Text → Action U (Unit {0})
  note text s = (ok tt, record s { lines = s.lines ++ error_line text ∷ [] })

  abbrev pub on_computer : {A : Type 0} → Steps A → Action U A
  on_computer m s = ((m s.computer).0, record s { computer = (m s.computer).1 })

  abbrev pub with_context : {A : Type 0} → Text → Action U A → Action U A
  with_context text m s = (in_context text (m s).0, (m s).1)

module _ (U : UrlLib) (desk : Desk U) where
  -- What the client makes of the answer.
  unfoldable pub received : Result (Reply U) → Result (Reply U)
  received r = elim desk.answer_fault [
    | some e ↦ err e
    | none ↦ elim r [
      | ok reply ↦ ok reply
      | err e ↦ err (codes "request_failed: " ++ redact_error desk.world.redactor e)
    ]
  ]

  -- A call that does not reach the daemon changes nothing.
  unfoldable pub call : Text → Params → Action U (Reply U)
  unfolding handle received
  call method params s = elim desk.call_fault [
    | some e ↦ (err e, s)
    | none ↦ (
      received (handle U desk.world s.daemon method params).0,
      record s { daemon = (handle U desk.world s.daemon method params).1 },
    )
  ]

  -- The file of a report.
  unfoldable pub write_report : Text → Text → Action U (Unit {0})
  write_report path text s = elim (desk.write_fault path) [
    | some e ↦ (err e, s)
    | none ↦ (ok tt, record s { reports = (path, text) ∷ s.reports })
  ]
