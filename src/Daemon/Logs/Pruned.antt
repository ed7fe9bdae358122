-- ===== src/Daemon/Logs/Pruned.antt =====
-- crates/cngd/src/main.rs: what `prune_logs` removes and what it leaves.
use codex_no.Daemon.Logs.{
  modified_at, max_log_bytes, is_considered, is_old, total_bytes, trim_logs, prune_logs, retained,
  LogEntry,
}
use codex_no.Base.{
  Bool, ltb, sym, subst, ℕ, ◌+◌, ◌-◌, ◌≤◌, ◌<◌, ◌≡◌, refl, ap, ◌⊎◌, inl, inr, true, false, not,
  ◌&&◌, List, [], ◌∷◌, ◌++◌, arith, leb, leb→le, Bool-cases, keep_if, All,
}
use mathlib.Core.List.{Perm}
use codex_no.Base.Sort.{sort_by-perm, IsSorted, sort_by-IsSorted}

-- The files are cut in two: of the front the removable ones are removed and the others are left, and
-- the back is left.
abbrev pub IsCut : List LogEntry → List LogEntry × List LogEntry → Type 0
IsCut es (removed, left) =
    (front back : List LogEntry) × (es ≡ front ++ back)
    × (removed ≡ keep_if (λ e. e.removable) front)
    × (left ≡ keep_if (λ e. not e.removable) front ++ back)

-- Of the files `es`, behind `passed` bytes that stay: those that are left take with these at most the
-- limit, or none of them can be removed; the sizes add up; and with the last removed file the limit
-- would have been passed.
abbrev pub IsTrimmed : ℕ → List LogEntry → List LogEntry × List LogEntry → Type 0
IsTrimmed passed es (removed, left) =
    ((passed + total_bytes left ≤ max_log_bytes) ⊎ All (λ e. e.removable ≡ false) left)
    × (total_bytes removed + total_bytes left ≡ total_bytes es)
    × IsCut es (removed, left)
    × ((removed ≡ [])
        ⊎ ((init : List LogEntry) × (last : LogEntry) × (removed ≡ init ++ last ∷ [])
            × (max_log_bytes < passed + (total_bytes left + last.bytes))))

removed-IsCut :
    (e : LogEntry) (es : List LogEntry) (out : List LogEntry × List LogEntry)
    → e.removable ≡ true
    → IsCut es out
    → IsCut (e ∷ es) (e ∷ out.0, out.1)
removed-IsCut e es (removed, left) r (front, back, s, a, b) =
    (e ∷ front, back, ap (λ x. e ∷ x) s, ground arith, ground arith)

left-IsCut :
    (e : LogEntry) (es : List LogEntry) (out : List LogEntry × List LogEntry)
    → e.removable ≡ false
    → IsCut es out
    → IsCut (e ∷ es) (out.0, e ∷ out.1)
left-IsCut e es (removed, left) r (front, back, s, a, b) =
    (e ∷ front, back, ap (λ x. e ∷ x) s, ground arith, ground arith)

removed_lem :
    (e : LogEntry) (es : List LogEntry) (passed total : ℕ) (out : List LogEntry × List LogEntry)
    → e.removable ≡ true
    → total ≡ passed + total_bytes (e ∷ es)
    → max_log_bytes < total
    → IsTrimmed passed es out
    → IsTrimmed passed (e ∷ es) (e ∷ out.0, out.1)
removed_lem e es passed total (removed, left) r t large (done, sum, cut, inl none_gone) =
    let empty : total_bytes removed ≡ 0 = ap total_bytes none_gone in
    (
      done,
      omega arith,
      removed-IsCut e es (removed, left) r cut,
      inr ([], e, ap (λ x. e ∷ x) none_gone, omega arith),
    )
removed_lem e es passed total (removed, left) r t large (done, sum, cut, inr (init, last, s, m)) = (
  done,
  omega arith,
  removed-IsCut e es (removed, left) r cut,
  inr (e ∷ init, last, ap (λ x. e ∷ x) s, m),
)

left_lem :
    (e : LogEntry) (es : List LogEntry) (passed : ℕ) (out : List LogEntry × List LogEntry)
    → e.removable ≡ false
    → IsTrimmed (passed + e.bytes) es out
    → IsTrimmed passed (e ∷ es) (out.0, e ∷ out.1)
left_lem e es passed (removed, left) r (done, sum, cut, last_one) = (
  elim done [ inl small ↦ inl (omega arith) | inr all ↦ inr (r, all) ],
  omega arith,
  left-IsCut e es (removed, left) r cut,
  elim last_one [
    | inl none_gone ↦ inl none_gone
    | inr (init, last, s, m) ↦ inr (init, last, s, omega arith)
  ],
)

trim_logs-removed :
    (e : LogEntry) (es : List LogEntry) (total : ℕ)
    → leb total max_log_bytes ≡ false
    → e.removable ≡ true
    → trim_logs total (e ∷ es)
      ≡ (e ∷ (trim_logs (total - e.bytes) es).0, (trim_logs (total - e.bytes) es).1)
unfolding trim_logs
trim_logs-removed e es total large r = ground arith

trim_logs-left :
    (e : LogEntry) (es : List LogEntry) (total : ℕ)
    → leb total max_log_bytes ≡ false
    → e.removable ≡ false
    → trim_logs total (e ∷ es) ≡ ((trim_logs total es).0, e ∷ (trim_logs total es).1)
unfolding trim_logs
trim_logs-left e es total large r = ground arith

trim_logs-IsTrimmed :
    (es : List LogEntry) (passed total : ℕ)
    → total ≡ passed + total_bytes es
    → IsTrimmed passed es (trim_logs total es)
unfolding trim_logs
trim_logs-IsTrimmed [] passed total t = (inr tt, refl, ([], [], refl, refl, refl), inl refl)
trim_logs-IsTrimmed (e ∷ es) passed total t = elim (Bool-cases (leb total max_log_bytes)) [
  | inl small ↦
      rw (small, trim_logs)
        (
          inl (omega (arith, leb→le total max_log_bytes small)),
          omega arith,
          ([], e ∷ es, refl, refl, refl),
          inl refl,
        )
  | inr large ↦
      let above : max_log_bytes < total = ground arith in
      elim (Bool-cases e.removable) [
        | inl r ↦ subst (IsTrimmed passed (e ∷ es)) (sym (trim_logs-removed e es total large r)) (
            removed_lem e es passed total (trim_logs (total - e.bytes) es) r t above
              (trim_logs-IsTrimmed es passed (total - e.bytes) (omega arith)))
        | inr r ↦ subst (IsTrimmed passed (e ∷ es)) (sym (trim_logs-left e es total large r)) (
            left_lem e es passed (trim_logs total es) r
              (trim_logs-IsTrimmed es (passed + e.bytes) total (omega arith)))
      ]
]

-- The files that were changed within the last seven days, and those that were not.
abbrev pub is_recent : ℕ → LogEntry → Bool
is_recent now e = e.has_metadata && (e.is_file && leb now (modified_at e + 604800))

abbrev pub is_aged : ℕ → LogEntry → Bool
is_aged now e = e.has_metadata && (e.is_file && ltb (modified_at e + 604800) now)

recent_lem : (now : ℕ) (e : LogEntry) → (is_considered e && not (is_old now e)) ≡ is_recent now e
unfolding is_old
recent_lem now e = ground arith

aged_lem :
    (now : ℕ) (e : LogEntry)
    → (is_considered e && (is_old now e && e.removable)) ≡ (is_aged now e && e.removable)
unfolding is_old
aged_lem now e = ground arith

retained-perm :
    (now : ℕ) (entries : List LogEntry)
    → Perm (retained now entries) (keep_if (is_recent now) entries)
unfolding retained
retained-perm now entries =
    subst (λ p. Perm (retained now entries) (keep_if p entries)) (λ i e. recent_lem now e i)
      (sort_by-perm (λ e f. leb (modified_at e) (modified_at f))
        (keep_if (λ e. is_considered e && not (is_old now e)) entries))

by_age-total :
    (e f : LogEntry)
    → leb (modified_at e) (modified_at f) ≡ false
    → leb (modified_at f) (modified_at e) ≡ true
by_age-total e f h = ground arith

by_age_trans :
    (e f g : LogEntry)
    → leb (modified_at e) (modified_at f) ≡ true
    → leb (modified_at f) (modified_at g) ≡ true
    → leb (modified_at e) (modified_at g) ≡ true
by_age_trans e f g h k = ground arith

abbrev pub IsByAge : List LogEntry → Type 0
IsByAge = IsSorted (λ e f. leb (modified_at e) (modified_at f))

retained-IsByAge : (now : ℕ) (entries : List LogEntry) → IsByAge (retained now entries)
unfolding retained
retained-IsByAge now entries =
    sort_by-IsSorted (λ e f. leb (modified_at e) (modified_at f)) by_age-total by_age_trans _

-- Of the log files, those that were changed more than seven days ago are removed if they can be. Of
-- all the others, oldest first, the removable ones are removed until what is left takes at most
-- 20 MiB or nothing removable is left; and no more than is needed: with the last file that is removed
-- the limit would be passed. No size is lost between what is removed and what is left. What is no
-- file, or has no metadata, is not touched.
pub prune_logs-IsTrimmed :
    (now : ℕ) (entries : List LogEntry)
    → (trimmed kept : List LogEntry) × ((prune_logs now entries).0
        ≡ keep_if (λ e. is_aged now e && e.removable) entries ++ trimmed)
      × Perm kept (keep_if (is_recent now) entries)
      × IsByAge kept
      × IsTrimmed 0 kept (trimmed, (prune_logs now entries).1)
unfolding prune_logs
prune_logs-IsTrimmed now entries =
    let kept = retained now entries in
    (
      (trim_logs (total_bytes kept) kept).0,
      kept,
      ap (λ p. keep_if p entries ++ (trim_logs (total_bytes kept) kept).0)
          (λ i e. aged_lem now e i),
      retained-perm now entries,
      retained-IsByAge now entries,
      trim_logs-IsTrimmed kept 0 (total_bytes kept) (omega arith),
    )
