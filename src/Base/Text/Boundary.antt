-- ===== src/Base/Text/Boundary.antt =====
-- A text of whole lines in front: an occurrence of a text without newlines cannot straddle its end.
use codex_no.Base.Tests.{Bool-cases, Option-cases}
use codex_no.Base.Lists.{length}
use codex_no.Base.Text.{Text, starts_with, find, contains, ends_with}
use codex_no.Base.Text.Find.{starts_with_self}
use Prim.Native.Nat.{ℕ}
use mathlib.Core.Logic.{inl, inr, ◌≢◌}
use mathlib.Core.Bool.{true, false}
use mathlib.Core.Option.{some, none}
use mathlib.Core.Path.{◌≡◌, refl}
use mathlib.Core.List.{[], ◌∷◌, ◌++◌, reverse, reverse-reverse, reverse-cons}
use native.Mathlib.Omega.{arith}

-- The text is empty or its last character is a newline.
abbrev pub EndsLine : Text → Type 0
EndsLine [] = Unit
EndsLine (c ∷ []) = c ≡ 10
EndsLine (c ∷ d ∷ s) = EndsLine (d ∷ s)

abbrev pub HasNoNewline : Text → Type 0
HasNoNewline [] = Unit
HasNoNewline (c ∷ s) = (c ≢ 10) × HasNoNewline s

starts_with_before :
    (p s t : Text) (c : ℕ)
    → HasNoNewline p
    → EndsLine (c ∷ s)
    → starts_with p (c ∷ s ++ t) ≡ true
    → starts_with p (c ∷ s) ≡ true
unfolding starts_with
starts_with_before [] s t c plain whole h = refl
starts_with_before (d ∷ []) [] t c (ne, plain) whole h = ground arith
starts_with_before (d ∷ e ∷ p) [] t c (ne, plain) whole h = absurd (ground arith)
starts_with_before (d ∷ p) (e ∷ s) t c (ne, plain) whole h =
    ground (arith, starts_with_before p s t e plain whole)

EndsLine-tail : (c : ℕ) (s : Text) → EndsLine (c ∷ s) → EndsLine s
EndsLine-tail c [] h = tt
EndsLine-tail c (d ∷ s) h = h

-- The first occurrence is right behind the lines if there is none in them.
pub find_behind :
    (p s t : Text)
    → HasNoNewline p
    → EndsLine s
    → find p s ≡ none
    → find p (s ++ (p ++ t)) ≡ some (length s)
unfolding find
find_behind [] [] [] plain whole h = absurd (ground arith)
find_behind [] [] (c ∷ t) plain whole h = absurd (ground arith)
find_behind (d ∷ p) [] t plain whole h = ground (arith, starts_with_self (d ∷ p) t)
find_behind p (c ∷ s) t plain whole h = elim (Bool-cases (starts_with p (c ∷ s))) [
  | inl e ↦ absurd (ground arith)
  | inr e ↦ elim (Option-cases (find p s)) [
    | inr (j, f) ↦ absurd (ground arith)
    | inl f ↦ elim (Bool-cases (starts_with p (c ∷ s ++ (p ++ t)))) [
      | inl there ↦ absurd (ground (arith, starts_with_before p s (p ++ t) c plain whole))
      | inr here ↦ rw (here, find_behind p s t plain (EndsLine-tail c s whole) f) refl
    ]
  ]
]

pub find-of_contains : (p s : Text) → contains p s ≡ false → find p s ≡ none
unfolding contains find
find-of_contains p [] h = ground arith
find-of_contains p (c ∷ s) h = ground (arith, find-of_contains p s)

starts_with_snoc :
    (p s : Text) → HasNoNewline p → starts_with p (s ++ 10 ∷ []) ≡ true → starts_with p s ≡ true
unfolding starts_with
starts_with_snoc [] s plain h = refl
starts_with_snoc (d ∷ p) [] (ne, plain) h = absurd (ground arith)
starts_with_snoc (d ∷ p) (c ∷ s) (ne, plain) h = ground (arith, starts_with_snoc p s plain)

-- A newline at the end makes no occurrence.
pub find_snoc : (p s : Text) → HasNoNewline p → find p s ≡ none → find p (s ++ 10 ∷ []) ≡ none
unfolding find starts_with
find_snoc [] [] plain h = absurd (ground arith)
find_snoc (d ∷ []) [] (ne, plain) h = ground arith
find_snoc (d ∷ e ∷ p) [] (ne, plain) h = ground arith
find_snoc p (c ∷ s) plain h = elim (Bool-cases (starts_with p (c ∷ s ++ 10 ∷ []))) [
  | inl e ↦ absurd (ground (arith, starts_with_snoc p (c ∷ s) plain))
  | inr e ↦ elim (Option-cases (find p s)) [
    | inr (j, f) ↦ absurd (ground arith)
    | inl f ↦ rw (e, find_snoc p s plain f) refl
  ]
]

pub EndsLine-snoc : (s : Text) → EndsLine (s ++ 10 ∷ [])
EndsLine-snoc [] = refl
EndsLine-snoc (c ∷ []) = refl
EndsLine-snoc (c ∷ d ∷ s) = EndsLine-snoc (d ∷ s)

pub EndsLine-of_ends_with : (s : Text) → ends_with (10 ∷ []) s ≡ true → EndsLine s
unfolding ends_with starts_with
EndsLine-of_ends_with s h = rw (← reverse-reverse s) (from_reverse (reverse s) h)
  where
    from_reverse : (r : Text) → starts_with (10 ∷ []) r ≡ true → EndsLine (reverse r)
    from_reverse [] e = cc
    from_reverse (c ∷ r) e =
        let same : c ≡ 10 = ground arith in rw (same, reverse-cons) (EndsLine-snoc (reverse r))
