-- ===== src/Base/Text/Find.antt =====
-- Laws of `starts_with` and of `find`, the place of the first occurrence.
use codex_no.Base.Tests.{Bool-cases, Option-cases}
use codex_no.Base.Lists.{length, take, drop}
use codex_no.Base.Text.{◌+◌, some, true, ℕ, Text, starts_with, find}
use Prim.Native.Nat.add
use Prim.Native.Nat.{ℕ, zero, suc, ◌+◌, ◌≤◌, ◌<◌}
use mathlib.Core.Logic.{◌⊎◌, inl, inr}
use mathlib.Core.Bool.{true, false}
use mathlib.Core.Option.{some}
use mathlib.Core.Path.{◌≡◌, refl, ap}
use mathlib.Core.List.{[], ◌∷◌, ◌++◌}
use native.Mathlib.Omega.{arith}

pub starts_with-append :
    (p s t : Text) → length p ≤ length s → starts_with p (s ++ t) ≡ starts_with p s
unfolding starts_with
starts_with-append [] s t h = refl
starts_with-append (d ∷ p) [] t h = absurd (omega arith)
starts_with-append (d ∷ p) (c ∷ s) t h = rw (starts_with-append p s t (omega arith))

pub starts_with-length : (p s : Text) → starts_with p s ≡ true → length p ≤ length s
unfolding starts_with
starts_with-length [] s h = omega arith
starts_with-length (d ∷ p) [] h = cc
starts_with-length (d ∷ p) (c ∷ s) h = ground (arith, starts_with-length p s)

pub starts_with-split : (p s : Text) → starts_with p s ≡ true → s ≡ p ++ drop (length p) s
unfolding starts_with
starts_with-split [] s h = refl
starts_with-split (d ∷ p) [] h = cc
starts_with-split (d ∷ p) (c ∷ s) h = ground (arith, starts_with-split p s)

pub starts_with_self : (p s : Text) → starts_with p (p ++ s) ≡ true
unfolding starts_with
starts_with_self [] s = refl
starts_with_self (d ∷ p) s = ground (arith, starts_with_self p s)

-- The occurrence is here, or it is the first one of the tail.
find_cases :
    (p s : Text) (c i : ℕ)
    → find p (c ∷ s) ≡ some i
    → ((starts_with p (c ∷ s) ≡ true) × (i ≡ 0))
      ⊎ ((starts_with p (c ∷ s) ≡ false) × ((j : ℕ) × (find p s ≡ some j) × (i ≡ suc j)))
unfolding find
find_cases p s c i h = elim (Bool-cases (starts_with p (c ∷ s))) [
  | inl e ↦ inl (e, ground arith)
  | inr e ↦ elim (Option-cases (find p s)) [
    | inl n ↦ absurd (ground arith)
    | inr (j, n) ↦ inr (e, (j, n, ground arith))
  ]
]

pub find-length : (p s : Text) (i : ℕ) → find p s ≡ some i → i + length p ≤ length s
unfolding find
find-length p [] i h = ground (arith, starts_with-length p [])
find-length p (c ∷ s) i h = elim (find_cases p s c i h) [
  | inl (e, z) ↦ omega (arith, starts_with-length p (c ∷ s) e)
  | inr (e, (j, n, z)) ↦ omega (arith, find-length p s j n)
]

-- The text is cut in three by the first occurrence.
pub find-split :
    (p s : Text) (i : ℕ) → find p s ≡ some i → s ≡ take i s ++ (p ++ drop (i + length p) s)
unfolding find starts_with
find-split [] [] i h = ground arith
find-split (d ∷ p) [] i h = ground arith
find-split p (c ∷ s) i h = elim (find_cases p s c i h) [
  | inl (e, z) ↦ rw (z, add.zero) (starts_with-split p (c ∷ s) e)
  | inr (e, (j, n, z)) ↦ rw (z, add.suc) (ap (λ r. c ∷ r) (find-split p s j n))
]

-- A text that is longer at its end has the same first occurrence.
pub find-append : (p s t : Text) (i : ℕ) → find p s ≡ some i → find p (s ++ t) ≡ some i
unfolding find
find-append [] [] [] i h = h
find-append [] [] (c ∷ t) i h = h
find-append (d ∷ p) [] t i h = absurd (omega (arith, find-length (d ∷ p) [] i h))
find-append p (c ∷ s) t i h =
    let same = starts_with-append p (c ∷ s) t (omega (arith, find-length p (c ∷ s) i h)) in
    elim (find_cases p s c i h) [
      | inl (e, z) ↦ rw (same, e, z)
      | inr (e, (j, n, z)) ↦ rw (same, e, z, find-append p s t j n)
    ]

-- No occurrence stands before the first one.
pub find-first :
    (p s : Text) (i j : ℕ) → find p s ≡ some i → j < i → starts_with p (drop j s) ≡ false
unfolding find
find-first p [] i j h l = ground arith
find-first p (c ∷ s) i zero h l = ground arith
find-first p (c ∷ s) i (suc j) h l = elim (find_cases p s c i h) [
  | inl (e, z) ↦ absurd (omega arith)
  | inr (e, (k, n, z)) ↦ find-first p s k j n (omega arith)
]
