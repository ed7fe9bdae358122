-- ===== src/Diagnostics/Logs/Order.antt =====
-- crates/cng-core/src/diagnostics.rs: which log files are considered, and in which order.
use mathlib.Core.List.Perm
use mathlib.Core.Bool.{false≢true}
use mathlib.Core.List.{perm_middle, Perm, reverse, reverse-cons, reverse_perm}
use codex_no.Base.Text.Laws.{text_eq_iff}
use codex_no.Diagnostics.Logs.{LogFile, last_dot, is_log, collect_recent_logs, modified_le}
use codex_no.Base.{
  ==_iff, ℕ, ◌≤◌, ◌≡◌, refl, sym, ap, ◌∙◌, subst, inl, inr, Bool, true, false, not, ◌&&◌, Option,
  none, some, List, [], ◌∷◌, ◌++◌, ◌==◌, ==_iff, arith, leb, Bool-cases, Option-cases, keep_if, All,
}
use codex_no.Base.Text.{Text, codes, text_eq, is_empty}
use codex_no.Base.Sort.{sort_by, IsSorted, sort_by-All, sort_by-perm, sort_by-IsSorted}

-- A log file is one whose name is something and then `.log`.
abbrev pub IsLog : LogFile → Type 0
IsLog f = (stem : Text) × (f.name ≡ stem ++ codes ".log") × (is_empty stem ≡ false)

-- The files of the directories that can be read.
abbrev pub listed : List (Option (List LogFile)) → List LogFile
listed [] = []
listed (none ∷ days) = listed days
listed (some files ∷ days) = files ++ listed days

-- A time that is known is not before an unknown one.
abbrev pub IsNotBefore : Option ℕ → Option ℕ → Type 0
IsNotBefore (some a) (some b) = b ≤ a
IsNotBefore (some a) none = Unit
IsNotBefore none (some b) = ⊥
IsNotBefore none none = Unit

-- Each file was not changed before any that follow it.
abbrev pub IsNewestFirst : List LogFile → Type 0
IsNewestFirst [] = Unit
IsNewestFirst (f ∷ fs) = All (λ g. IsNotBefore f.modified g.modified) fs × IsNewestFirst fs

both_parts :
    (s t x y : Text)
    → ◌≡◌ {A = Option (Text × Text)} (some (s, x)) (some (t, y))
    → (s ≡ t) × (x ≡ y)
both_parts s t x y e = (ground arith, ground arith)

last_dot-eq :
    (s stem extension : Text) → last_dot s ≡ some (stem, extension) → s ≡ stem ++ b'.' ∷ extension
unfolding last_dot
last_dot-eq [] stem extension e = cc
last_dot-eq (c ∷ s) stem extension e = elim (Option-cases (last_dot s)) [
  | inr ((t, x), h) ↦
      let k = last_dot-eq s t x h in
      let (u, v) = both_parts (c ∷ t) stem x extension (rw (h, last_dot) at e) in
      ap (λ r. c ∷ r) k ∙ λ i. u i ++ b'.' ∷ v i
  | inl h ↦ elim (Bool-cases (c == b'.')) [
    | inl d ↦ ground (arith, ==_iff c b'.')
    | inr d ↦ ground arith
  ]
]

last_dot-append : (stem : Text) → last_dot (stem ++ codes ".log") ≡ some (stem, codes "log")
unfolding last_dot
last_dot-append [] = refl
last_dot-append (c ∷ stem) = rw (last_dot-append stem) refl

named-IsLog :
    (f : LogFile) (name : Option (Text × Text))
    → last_dot f.name ≡ name
    → (elim name [
      | none ↦ false
      | some (stem, extension) ↦ not (is_empty stem) && text_eq extension (codes "log")
    ])
      ≡ true
    → IsLog f
named-IsLog f none e h = cc
named-IsLog f (some (stem, extension)) e h =
    let full : is_empty stem ≡ false = ground arith in
    let same : extension ≡ codes "log" = ground (arith, text_eq_iff extension (codes "log")) in
    (stem, last_dot-eq f.name stem extension e ∙ ap (λ x. stem ++ b'.' ∷ x) same, full)

is_log-IsLog : (f : LogFile) → is_log f ≡ true → IsLog f
unfolding is_log
is_log-IsLog f h = named-IsLog f (last_dot f.name) refl h

is_log-of_IsLog : (f : LogFile) → IsLog f → is_log f ≡ true
unfolding is_log text_eq
is_log-of_IsLog f (stem, e, full) = rw (e, is_log, last_dot-append stem, full) refl

IsLog-not : (f : LogFile) → is_log f ≡ false → ¬ IsLog f
IsLog-not f h k = false≢true (sym h ∙ is_log-of_IsLog f k)

module _ {A : Type 0} (p : A → Bool) where
  keep_if-append : (xs ys : List A) → keep_if p (xs ++ ys) ≡ keep_if p xs ++ keep_if p ys
  keep_if-append [] ys = refl
  keep_if-append (x ∷ xs) ys = elim (Bool-cases (p x)) [
    | inl e ↦ rw e (ap (λ r. x ∷ r) (keep_if-append xs ys))
    | inr e ↦ rw e (keep_if-append xs ys)
  ]

  -- Those that are kept and those that are not make up the list.
  keep_if-perm : (xs : List A) → Perm (keep_if p xs ++ keep_if (λ x. not (p x)) xs) xs
  keep_if-perm [] = Perm.refl []
  keep_if-perm (x ∷ xs) = elim (Bool-cases (p x)) [
    | inl e ↦ rw e (Perm.cons x (keep_if-perm xs))
    | inr e ↦
        rw e (Perm.trans (perm_middle {a = x} (keep_if p xs) _) (Perm.cons x (keep_if-perm xs)))
  ]

collect_recent_logs_lem :
    (days : List (Option (List LogFile))) → collect_recent_logs days ≡ keep_if is_log (listed days)
unfolding collect_recent_logs
collect_recent_logs_lem [] = refl
collect_recent_logs_lem (none ∷ days) = collect_recent_logs_lem days
collect_recent_logs_lem (some files ∷ days) =
    ap (λ r. keep_if is_log files ++ r) (collect_recent_logs_lem days)
    ∙ sym (keep_if-append is_log files (listed days))

All-IsLog : (fs : List LogFile) → All IsLog (keep_if is_log fs)
All-IsLog [] = tt
All-IsLog (f ∷ fs) = elim (Bool-cases (is_log f)) [
  | inl e ↦ rw e (is_log-IsLog f e, All-IsLog fs)
  | inr e ↦ rw e (All-IsLog fs)
]

All-IsLog-not : (fs : List LogFile) → All (λ f. ¬ IsLog f) (keep_if (λ f. not (is_log f)) fs)
All-IsLog-not [] = tt
All-IsLog-not (f ∷ fs) = elim (Bool-cases (is_log f)) [
  | inl e ↦ rw e (All-IsLog-not fs)
  | inr e ↦ rw e (IsLog-not f e, All-IsLog-not fs)
]

-- The log files are told from the others.
pub collect_recent_logs-IsLog :
    (days : List (Option (List LogFile)))
    → (others : List LogFile) × Perm (collect_recent_logs days ++ others) (listed days)
      × All IsLog (collect_recent_logs days)
      × All (λ f. ¬ IsLog f) others
collect_recent_logs-IsLog days = rw (collect_recent_logs_lem days) (
  keep_if (λ f. not (is_log f)) (listed days),
  keep_if-perm is_log (listed days),
  All-IsLog (listed days),
  All-IsLog-not (listed days),
)

le-IsNotBefore : (f g : LogFile) → modified_le f g ≡ true → IsNotBefore g.modified f.modified
unfolding modified_le
le-IsNotBefore f g h = times_lem f.modified g.modified h
  where
    times_lem :
        (a b : Option ℕ)
        → (elim a [ none ↦ true | some x ↦ elim b [ none ↦ false | some y ↦ leb x y ] ]) ≡ true
        → IsNotBefore b a
    times_lem none none e = tt
    times_lem none (some y) e = tt
    times_lem (some x) none e = cc
    times_lem (some x) (some y) e = ground arith

modified_le-total : (f g : LogFile) → modified_le f g ≡ false → modified_le g f ≡ true
unfolding modified_le
modified_le-total f g h = ground arith

modified_le_trans :
    (f g k : LogFile) → modified_le f g ≡ true → modified_le g k ≡ true → modified_le f k ≡ true
unfolding modified_le
modified_le_trans f g k p q = ground arith

All-snoc :
    (P : LogFile → Type 0) (fs : List LogFile) (g : LogFile) → All P fs → P g → All P (fs ++ g ∷ [])
All-snoc P [] g h p = (p, tt)
All-snoc P (f ∷ fs) g (q, h) p = (q, All-snoc P fs g h p)

IsNewestFirst-snoc :
    (fs : List LogFile) (g : LogFile)
    → IsNewestFirst fs
    → All (λ f. IsNotBefore f.modified g.modified) fs
    → IsNewestFirst (fs ++ g ∷ [])
IsNewestFirst-snoc [] g h k = (tt, tt)
IsNewestFirst-snoc (f ∷ fs) g (p, h) (q, k) =
    (All-snoc (λ x. IsNotBefore f.modified x.modified) fs g p q, IsNewestFirst-snoc fs g h k)

All-reverse : (P : LogFile → Type 0) (fs : List LogFile) → All P fs → All P (reverse fs)
All-reverse P [] h = tt
All-reverse P (f ∷ fs) (p, h) =
    subst (All P) (sym (reverse-cons f fs)) (All-snoc P (reverse fs) f (All-reverse P fs h) p)

All-IsNotBefore :
    (f : LogFile) (fs : List LogFile)
    → All (λ g. modified_le f g ≡ true) fs
    → All (λ g. IsNotBefore g.modified f.modified) fs
All-IsNotBefore f [] h = tt
All-IsNotBefore f (g ∷ fs) (p, h) = (le-IsNotBefore f g p, All-IsNotBefore f fs h)

reverse-IsNewestFirst : (fs : List LogFile) → IsSorted modified_le fs → IsNewestFirst (reverse fs)
reverse-IsNewestFirst [] h = tt
reverse-IsNewestFirst (f ∷ fs) (below, h) = subst IsNewestFirst (sym (reverse-cons f fs)) (
    IsNewestFirst-snoc (reverse fs) f (reverse-IsNewestFirst fs h)
      (All-reverse (λ g. IsNotBefore g.modified f.modified) fs (All-IsNotBefore f fs below)))

-- The sorted files in reverse.
pub sorted-IsNewestFirst :
    (fs : List LogFile)
    → Perm (reverse (sort_by modified_le fs)) fs × IsNewestFirst (reverse (sort_by modified_le fs))
sorted-IsNewestFirst fs = (
  Perm.trans (reverse_perm (sort_by modified_le fs)) (sort_by-perm modified_le fs),
  reverse-IsNewestFirst (sort_by modified_le fs)
      (sort_by-IsSorted modified_le modified_le-total modified_le_trans fs),
)

pub sorted-All :
    (P : LogFile → Type 0) (fs : List LogFile) → All P fs → All P (reverse (sort_by modified_le fs))
sorted-All P fs h = All-reverse P _ (sort_by-All modified_le P fs h)
