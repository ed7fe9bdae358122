-- ===== src/Base/Lists.antt =====
-- Lists measured and cut by native numbers, and lists filtered and searched by Boolean tests.
use Prim.Native.Nat.{◌≤◌, ℕ, zero, suc, ◌+◌}
use mathlib.Core.Logic.{inl, inr}
use mathlib.Core.Path.{ap, ◌≡◌, refl}
use mathlib.Core.Bool.{true, Bool, false, ◌||◌}
use mathlib.Core.Option.{Option, none, some}
use mathlib.Core.List.{List, [], ◌∷◌, ◌++◌}
use native.Mathlib.Omega.{arith}
use codex_no.Base.Tests.{Bool-cases, if◌then◌else◌}

module _ {ℓ} {A : Type ℓ} where
  abbrev pub length : List A → ℕ
  length [] = 0
  length (x ∷ xs) = suc (length xs)

  abbrev pub take : ℕ → List A → List A
  take zero xs = []
  take (suc n) [] = []
  take (suc n) (x ∷ xs) = x ∷ take n xs

  abbrev pub drop : ℕ → List A → List A
  drop zero xs = xs
  drop (suc n) [] = []
  drop (suc n) (x ∷ xs) = drop n xs

  pub length-append : (xs ys : List A) → length (xs ++ ys) ≡ length xs + length ys
  length-append [] ys = omega arith
  length-append (x ∷ xs) ys = omega (arith, length-append xs ys)

  pub take-append-drop : (n : ℕ) (xs : List A) → take n xs ++ drop n xs ≡ xs
  take-append-drop zero xs = refl
  take-append-drop (suc n) [] = refl
  take-append-drop (suc n) (x ∷ xs) = rw (take-append-drop n xs)

  -- `Iterator::filter`, `Iterator::find`, `Iterator::any` over a Boolean test.
  abbrev pub keep_if : (A → Bool) → List A → List A
  keep_if p [] = []
  keep_if p (x ∷ xs) = if p x then x ∷ keep_if p xs else keep_if p xs

  abbrev pub find_if : (A → Bool) → List A → Option A
  find_if p [] = none
  find_if p (x ∷ xs) = if p x then some x else find_if p xs

  abbrev pub any_of : (A → Bool) → List A → Bool
  any_of p [] = false
  any_of p (x ∷ xs) = p x || any_of p xs

module _ {ℓ κ} {A : Type ℓ} (P : A → Type κ) where
  abbrev pub All : List A → Type κ
  All [] = Unit
  All (x ∷ xs) = P x × All xs

  pub All-append : (xs ys : List A) → All xs → All ys → All (xs ++ ys)
  All-append [] ys h k = k
  All-append (x ∷ xs) ys (p, h) k = (p, All-append xs ys h k)

  pub All-keep_if : (q : A → Bool) (xs : List A) → All xs → All (keep_if q xs)
  All-keep_if q [] h = tt
  All-keep_if q (x ∷ xs) (p, h) = ground (arith, All-keep_if q xs h)

module _ {ℓ} {A : Type ℓ} (p : A → Bool) where
  -- What a search finds passes the test, and nothing before it does.
  pub find_if-split :
      (xs : List A) (x : A)
      → find_if p xs ≡ some x
      → (before after : List A) × (xs ≡ before ++ x ∷ after)
        × (p x ≡ true)
        × All (λ y. p y ≡ false) before
  find_if-split [] x h = cc
  find_if-split (y ∷ ys) x h = elim (Bool-cases (p y)) [
    | inl e ↦ let same : y ≡ x = ground arith in ([], ys, ap (λ z. z ∷ ys) same, ground arith, tt)
    | inr e ↦
        let (before, after, s, t, k) = find_if-split ys x (ground arith) in
        (y ∷ before, after, ap (λ zs. y ∷ zs) s, t, (e, k))
  ]

  pub find_if-none : (xs : List A) → find_if p xs ≡ none → All (λ y. p y ≡ false) xs
  find_if-none [] h = tt
  find_if-none (y ∷ ys) h = elim (Bool-cases (p y)) [
    | inl e ↦ absurd (ground arith)
    | inr e ↦ (e, find_if-none ys (ground arith))
  ]

module _ {ℓ} {A : Type ℓ} where
  pub take-length_append : (xs ys : List A) → take (length xs) (xs ++ ys) ≡ xs
  take-length_append [] ys = refl
  take-length_append (x ∷ xs) ys = ap (λ r. x ∷ r) (take-length_append xs ys)

  pub drop-length_append : (xs ys : List A) → drop (length xs) (xs ++ ys) ≡ ys
  drop-length_append [] ys = refl
  drop-length_append (x ∷ xs) ys = drop-length_append xs ys

  pub length-take-le : (n : ℕ) (xs : List A) → length (take n xs) ≤ n
  length-take-le zero xs = omega arith
  length-take-le (suc n) [] = omega arith
  length-take-le (suc n) (x ∷ xs) = omega (arith, length-take-le n xs)
