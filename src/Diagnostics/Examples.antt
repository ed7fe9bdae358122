-- ===== src/Diagnostics/Examples.antt =====
-- crates/cng-core/src/diagnostics.rs: the theorems on the classes, the advice and the logs, at a
-- log of two lines.
use codex_no.Diagnostics.Guidance.{guidance_for}
use codex_no.Diagnostics.Guidance.Actions.{
  guidance_for-IsDocumented, resume, HasLabel, IsDocumented,
}
use codex_no.Model.{paused, non_network_failure, DiagnosticEvent}
use codex_no.Proxy.Errors.{Redactor}
use codex_no.Diagnostics.Logs.{event_of, LogFile}
use codex_no.Base.{◌≡◌, ◌↔◌, Option, none, some, List, [], ◌∷◌, ◌++◌}
use codex_no.Base.Text.{Text, codes}

abbrev log_file : LogFile
log_file = record {
  name = codes "a.log";
  modified = some 5;
  content = some (codes "401 Unauthorized" ++ (10 ∷ codes "ready"));
}

abbrev days : List (Option (List LogFile))
days = none ∷ some (log_file ∷ []) ∷ []

abbrev redactor : Redactor
redactor = record { hide_credentials = λ t. t; home_dir = none }

abbrev no_id : Text → Option Text
no_id t = none

abbrev found : DiagnosticEvent
found = event_of no_id redactor 9 (codes "a.log") (codes "401 Unauthorized")

guidance_for-IsDocumented_example :
    IsDocumented (guidance_for non_network_failure (some found))
    × HasLabel (guidance_for non_network_failure (some found))
    × (((guidance_for non_network_failure (some found)).action ≡ resume)
        ↔ (non_network_failure ≡ paused))
guidance_for-IsDocumented_example = guidance_for-IsDocumented non_network_failure (some found)
