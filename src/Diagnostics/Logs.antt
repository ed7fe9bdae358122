-- ===== src/Diagnostics/Logs.antt =====
-- crates/cng-core/src/diagnostics.rs: the latest event in the logs of Codex.
pub mod Latest
pub mod Order
use codex_no.Base.{
  ℕ, ◌+◌, Bool, true, false, not, ◌&&◌, Option, none, some, List, [], ◌∷◌, ◌++◌, leb, ◌==◌,
  if◌then◌else◌, length, take, keep_if, find_if, ◌>>=◌,
}
use codex_no.Base.Text.{Text, codes, text_eq, is_empty, contains, lines, to_ascii_lowercase}
use codex_no.Base.Sort.{sort_by}
use codex_no.Model.{DiagnosticEvent}
use codex_no.Diagnostics.{contains_any, classify_error_text}
use codex_no.Proxy.Errors.{Redactor, redact_error}
use mathlib.Core.List.{reverse}

-- A file of a log directory: its name, what `metadata` tells of its last change, and what
-- `read_to_string` gives.
pub record LogFile : Type 0 where
  pub name : Text
  pub modified : Option ℕ
  pub content : Option Text

-- `Path::extension`: what stands behind the last dot, if something stands before it.
unfoldable pub last_dot : Text → Option (Text × Text)
last_dot [] = none
last_dot (c ∷ s) = elim (last_dot s) [
  | some (stem, extension) ↦ some (c ∷ stem, extension)
  | none ↦ if c == b'.' then some ([], s) else none
]

unfoldable pub is_log : LogFile → Bool
unfolding last_dot text_eq
is_log f = elim (last_dot f.name) [
  | none ↦ false
  | some (stem, extension) ↦ not (is_empty stem) && text_eq extension (codes "log")
]

-- The directories of the days; `none` is one that cannot be read.
unfoldable pub collect_recent_logs : List (Option (List LogFile)) → List LogFile
unfolding is_log
collect_recent_logs [] = []
collect_recent_logs (none ∷ days) = collect_recent_logs days
collect_recent_logs (some files ∷ days) = keep_if is_log files ++ collect_recent_logs days

-- The order of `Option`: `none` is the least.
unfoldable pub modified_le : LogFile → LogFile → Bool
modified_le f g = elim f.modified [
  | none ↦ true
  | some a ↦ elim g.modified [ none ↦ false | some b ↦ leb a b ]
]

unfoldable pub truncate : Text → ℕ → Text
truncate value limit = if leb (length value) limit then value else take limit value ++ codes "…"

abbrev pub telling : List Text
telling =
    codes "stream disconnected"
    ∷ codes "err_proxy"
    ∷ codes "error sending request"
    ∷ codes "websocket"
    ∷ codes "sigkill"
    ∷ codes "unauthorized"
    ∷ codes "rate limit"
    ∷ codes "custom tool call output is missing"
    ∷ []

unfoldable pub is_telling : Text → Bool
unfolding contains_any contains to_ascii_lowercase
is_telling line = contains_any (to_ascii_lowercase line) telling

-- The `regex` crate's search for a request id, the redaction, and the clock.
module _ (request_id_in : Text → Option Text) (r : Redactor) (now : ℕ) where
  -- A path in a log directory has a file name, so the fallback name is never taken.
  unfoldable pub event_of : Text → Text → DiagnosticEvent
  unfolding truncate
  event_of name line = record {
    timestamp = now;
    failure_class = classify_error_text line;
    summary = truncate (redact_error r line) 800;
    source = name;
    request_id = request_id_in line;
  }

  -- The last telling line among the last 4,000.
  unfoldable pub scan_log : LogFile → Option DiagnosticEvent
  unfolding event_of
  scan_log f = do
    content ← f.content
    line ← find_if is_telling (take 4000 (reverse (lines content)))
    some (event_of f.name line)

  -- The first event of a list of files.
  unfoldable pub first_event : List LogFile → Option DiagnosticEvent
  first_event [] = none
  first_event (f ∷ fs) = elim (scan_log f) [ some event ↦ some event | none ↦ first_event fs ]

  -- Without a home directory there are no days.
  unfoldable pub latest_codex_diagnostic : List (Option (List LogFile)) → Option DiagnosticEvent
  unfolding collect_recent_logs modified_le
  latest_codex_diagnostic days =
      first_event (take 8 (reverse (sort_by modified_le (collect_recent_logs days))))
