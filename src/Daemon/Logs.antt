-- ===== src/Daemon/Logs.antt =====
-- crates/cngd/src/main.rs: `prune_logs`.
pub mod Pruned
use codex_no.Base.{
  ℕ, ◌+◌, ◌-◌, Bool, true, false, not, ◌&&◌, Option, List, [], ◌∷◌, ◌++◌, ltb, leb, if◌then◌else◌,
  or_else, keep_if,
}
use codex_no.Base.Sort.{sort_by}

-- A file or folder in the log directory: whether its metadata can be read, what they tell, and
-- whether it can be removed.
pub record LogEntry : Type 0 where
  pub has_metadata : Bool
  pub is_file : Bool
  pub modified : Option ℕ
  pub bytes : ℕ
  pub removable : Bool

abbrev pub max_log_bytes : ℕ
max_log_bytes = 20971520

abbrev pub seven_days : ℕ
seven_days = 604800

-- A time that cannot be read is the epoch.
abbrev pub modified_at : LogEntry → ℕ
modified_at e = or_else e.modified 0

unfoldable pub is_old : ℕ → LogEntry → Bool
is_old now e = ltb (modified_at e) (now - seven_days)

abbrev pub is_considered : LogEntry → Bool
is_considered e = e.has_metadata && e.is_file

unfoldable pub retained : ℕ → List LogEntry → List LogEntry
unfolding is_old
retained now entries =
    sort_by (λ e f. leb (modified_at e) (modified_at f))
      (keep_if (λ e. is_considered e && not (is_old now e)) entries)

abbrev pub total_bytes : List LogEntry → ℕ
total_bytes [] = 0
total_bytes (e ∷ es) = e.bytes + total_bytes es

-- The loop over the retained files: those that it removes, and those that are left.
unfoldable pub trim_logs : ℕ → List LogEntry → List LogEntry × List LogEntry
trim_logs total [] = ([], [])
trim_logs total (e ∷ es) = if leb total max_log_bytes then ([], e ∷ es) else elim e.removable [
  | true ↦ let (removed, left) = trim_logs (total - e.bytes) es in (e ∷ removed, left)
  | false ↦ let (removed, left) = trim_logs total es in (removed, e ∷ left)
]

-- What is removed of the directory: the old files that can be removed, and what the loop removes.
unfoldable pub prune_logs : ℕ → List LogEntry → List LogEntry × List LogEntry
unfolding retained
prune_logs now entries =
    let kept = retained now entries in
    let (removed, left) = trim_logs (total_bytes kept) kept in
    (keep_if (λ e. is_considered e && (is_old now e && e.removable)) entries ++ removed, left)
