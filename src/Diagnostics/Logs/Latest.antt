-- ===== src/Diagnostics/Logs/Latest.antt =====
-- crates/cng-core/src/diagnostics.rs: which event is reported as the latest.
use codex_no.Base.{ℕ, ◌≤◌, ◌≡◌, true, false, Option, none, some, List, ◌∷◌, ◌++◌, length, take, All}
use codex_no.Base.Text.{Text, lines}
use codex_no.Proxy.Errors.{Redactor}
use mathlib.Core.List.Perm
use mathlib.Core.List.{reverse, Perm}
use codex_no.Model.{DiagnosticEvent}
use codex_no.Diagnostics.Logs.{LogFile, is_telling, scan_log}
use codex_no.Diagnostics.{classify_error_text}

module _ (request_id_in : Text → Option Text) (r : Redactor) (now : ℕ) where
  -- The event tells of the last telling line among the last 4,000 of the file, is classified by that
  -- line, and has a summary of at most 801 characters.
  abbrev pub TellsOf : LogFile → DiagnosticEvent → Type 0
  TellsOf f event =
      (content line : Text) × (later earlier : List Text) × (f.content ≡ some content)
      × (take 4000 (reverse (lines content)) ≡ later ++ line ∷ earlier)
      × All (λ l. is_telling l ≡ false) later
      × (is_telling line ≡ true)
      × (event.failure_class ≡ classify_error_text line)
      × (event.request_id ≡ request_id_in line)
      × (length event.summary ≤ 801)

  -- The event is from a file `f` among the first eight of the log files, newest first, and none of
  -- the files before it has an event.
  abbrev pub IsLatest : List LogFile → DiagnosticEvent → Type 0
  IsLatest logs event =
      (newer older : List LogFile) × (f : LogFile) × (take 8 logs ≡ newer ++ f ∷ older)
      × All (λ g. scan_log request_id_in r now g ≡ none) newer
      × TellsOf f event
