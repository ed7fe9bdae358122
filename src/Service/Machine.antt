-- ===== src/Service/Machine.antt =====
-- crates/cng-core/src/service.rs: the part of the computer that the installation touches, and its
-- calls of the operating system, each of which may fail.
use codex_no.Service.Environment.{Environment}
use codex_no.Base.Results.{Result, ok, err}
use mathlib.Core.Path.{refl, ap}
use codex_no.Base.{
  is_some, not, ◌∷◌, any_of, keep_if, [], ◌≡◌, ℕ, Bool, true, false, Option, none, some, List,
  if◌then◌else◌,
}
use codex_no.Base.Text.{codes, text_eq, Text}

-- A file: a text, or bytes that are no UTF-8.
pub data Content : Type 0 where
  readable : Text → Content
  unreadable : List ℕ → Content

-- The profile of the shell and the copy of it that the terminal integration keeps.
pub record Shell : Type 0 where
  pub profile : Option Content
  pub backup : Option Content

-- The earlier guard, if it is loaded, and the copies that were made of its files.
pub record Legacy : Type 0 where
  pub is_loaded : Bool
  pub copies : List Text

-- The directory of the programs with the names in it, the file of the service (a LaunchAgent, or none
-- on Windows), whether the operating system has the service, the environment and the profile.
pub record Computer : Type 0 where
  pub programs : Option (List Text)
  pub has_logs : Bool
  pub agent : Option Text
  pub loaded : Bool
  pub environment : Environment
  pub shell : Shell
  pub legacy : Legacy

-- What the installation asks of the operating system.
pub data Call : Type 0 where
  find_source find_home make_bin unlink_wrapper link_wrapper make_logs write_agent remove_agent :
      Call
  copy make_executable : Text → Call
  bootout bootstrap kickstart : Call
  read_variable set_variable restore_variable write_state remove_state remove_bin : Call
  create_task run_task end_task delete_task : Call
  ask_service : ℕ → Call
  make_backup copy_profile read_profile write_profile keep_mode : Call
  make_legacy_backup disable_legacy : Call
  copy_legacy : Text → Call

-- The world outside: why a call cannot be made, whether a command that was run succeeds, whether the
-- daemon answers when it is asked, the files beside the installer, the paths, whether the state file
-- can be read, what `reg query` prints of a value, and how much of the profile a failing write leaves, if it does not leave it alone.
pub record Outside : Type 0 where
  pub fault : Call → Option Text
  pub succeeds : Call → Bool
  pub answers : ℕ → Bool
  pub has_source : Text → Bool
  pub is_same_file : Text → Bool
  pub bin : Text
  pub daemon : Text
  pub wrapper : Text
  pub logs : Text
  pub has_legacy : Bool
  pub has_legacy_program : Text → Bool
  pub reads_state : Bool
  pub query_output : Text → Text
  pub left : Option ℕ

pub record ServiceStatus : Type 0 where
  pub installed : Bool
  pub running : Bool
  pub legacy_guard_detected : Bool
  pub launch_agent : Text

-- A step changes the computer also where it fails.
abbrev pub Steps : Type 0 → Type 0
Steps A = Computer → Result A × Computer

abbrev pub resume : {A B : Type 0} → Result A × Computer → (A → Steps B) → Result B × Computer
resume (ok a, c) k = k a c
resume (err e, c) k = (err e, c)

infixl 5 ◌>>=◌ ◌>>◌
abbrev pub ◌>>=◌ : {A B : Type 0} → Steps A → (A → Steps B) → Steps B
◌>>=◌ m k c = resume (m c) k

abbrev pub ◌>>◌ : {A B : Type 0} → Steps A → Steps B → Steps B
m >> k = m >>= λ _. k

abbrev pub pure : {A : Type 0} → A → Steps A
pure a c = (ok a, c)

abbrev pub fail : {A : Type 0} → Text → Steps A
fail e c = (err e, c)

abbrev pub look : {A : Type 0} → (Computer → A) → Steps A
look f c = (ok (f c), c)

abbrev pub ensure : Bool → Text → Steps (Unit {0})
ensure true e = pure tt
ensure false e = fail e

-- `let _ = …`.
abbrev pub ignore : {A : Type 0} → Steps A → Steps (Unit {0})
ignore m c = (ok tt, (m c).1)

-- `if let Err(error) = … { …; return Err(error) }`.
abbrev pub on_error : {A : Type 0} → Result A × Computer → Steps (Unit {0}) → Result A × Computer
on_error (ok a, c) clean = (ok a, c)
on_error (err e, c) clean = (err e, (clean c).1)

abbrev pub when : Bool → Steps (Unit {0}) → Steps (Unit {0})
when true m = m
when false m = pure tt

abbrev pub unchanged : Computer → Computer
unchanged c = c

abbrev pub with_environment : Environment → Computer → Computer
with_environment e c = record c { environment = e }

abbrev pub with_variable : Option Text → Computer → Computer
with_variable value c = with_environment (record c.environment { variable = value }) c

abbrev pub with_saved : Option Text → Computer → Computer
with_saved value c = with_environment (record c.environment { saved = some value }) c

abbrev pub with_logs : Computer → Computer
with_logs c = record c { has_logs = true }

abbrev pub with_agent : Option Text → Computer → Computer
with_agent agent c = record c { agent = agent }

abbrev pub with_loaded : Bool → Computer → Computer
with_loaded loaded c = record c { loaded = loaded }

abbrev pub with_copy : Text → Computer → Computer
with_copy name c = record c { legacy = record c.legacy { copies = name ∷ c.legacy.copies } }

abbrev pub without_legacy : Computer → Computer
without_legacy c = record c { legacy = record c.legacy { is_loaded = false } }

abbrev pub without_programs : Computer → Computer
without_programs c = record c { programs = none }

-- The directory of the programs.
abbrev pub files_of : Option (List Text) → List Text
files_of none = []
files_of (some files) = files

abbrev pub has_file : Text → Computer → Bool
has_file name c = any_of (λ f. text_eq f name) (files_of c.programs)

abbrev pub with_bin : Computer → Computer
with_bin c = record c { programs = some (files_of c.programs) }

abbrev pub with_file : Text → Computer → Computer
with_file name c = record c {
  programs = some (name ∷ keep_if (λ f. not (text_eq f name)) (files_of c.programs));
}

abbrev pub without_file : Text → Computer → Computer
without_file name c = record c {
  programs = some (keep_if (λ f. not (text_eq f name)) (files_of c.programs));
}

abbrev pub rolled_back : Text
rolled_back = codes "daemon did not become healthy within six seconds; installation was rolled back"

-- `if path.exists() { return Ok(()) }`, for the state file.
abbrev pub unless_saved : Option (Option Text) → Steps (Unit {0}) → Steps (Unit {0})
unless_saved (some state) m = pure tt
unless_saved none m = m

module _ (w : Outside) where
  -- A call that fails changes nothing.
  abbrev pub attempt : Call → (Computer → Computer) → Steps (Unit {0})
  attempt call effect c = elim (w.fault call) [ some e ↦ (err e, c) | none ↦ (ok tt, effect c) ]

  -- A program that is run: it cannot be run, or it ends with or without success.
  abbrev pub command : Call → (Computer → Computer) → Steps Bool
  command call effect c = elim (w.fault call) [
    | some e ↦ (err e, c)
    | none ↦ if w.succeeds call then (ok true, effect c) else (ok false, c)
  ]

  -- What the state file saved; one that cannot be read saved nothing.
  abbrev pub saved_value : Option (Option Text) → Option Text
  saved_value none = none
  saved_value (some value) = if w.reads_state then value else none

  abbrev pub with_restored : Computer → Computer
  with_restored c = with_variable (saved_value c.environment.saved) c

  abbrev pub forget_state : Computer → Computer
  forget_state c = with_environment (record c.environment { saved = none }) c

  abbrev pub drop_state : Steps (Unit {0})
  drop_state c = when (is_some c.environment.saved) (attempt remove_state forget_state) c

  abbrev pub remove_programs : Steps (Unit {0})
  remove_programs c = when (is_some c.programs) (attempt remove_bin without_programs) c

  pub attempt_lem :
      (call : Call) (effect : Computer → Computer) (c : Computer)
      → w.fault call ≡ none
      → attempt call effect c ≡ (ok tt, effect c)
  attempt_lem call effect c e = rw (e, attempt) refl

-- A chain goes on from where its first step ends well, and ends where that step fails.
pub bind-ok :
    {A B : Type 0} (m : Steps A) (k : A → Steps B) (c d : Computer) (a : A)
    → m c ≡ (ok a, d)
    → (m >>= k) c ≡ k a d
bind-ok m k c d a e = ap (λ o. resume o k) e

pub bind-err :
    {A B : Type 0} (m : Steps A) (k : A → Steps B) (c d : Computer) (reason : Text)
    → m c ≡ (err reason, d)
    → (m >>= k) c ≡ (err reason, d)
bind-err m k c d reason e = ap (λ o. resume o k) e
