-- ===== src/Base/Sort.antt =====
-- A stable sort over a comparison: `slice::sort_by` and `slice::sort_by_key` of the standard
-- library, which promise an ascending permutation that keeps the order of equal elements.
use mathlib.Core.List.Perm
use mathlib.Core.List.{Perm, List, [], ◌∷◌}
use mathlib.Core.Path.{◌≡◌, refl}
use mathlib.Core.Logic.{inl, inr}
use mathlib.Core.Bool.{Bool, true, false}
use native.Mathlib.Omega.{arith}
use codex_no.Base.Tests.{if◌then◌else◌, Bool-cases}
use codex_no.Base.Lists.{keep_if, All}

module _ {ℓ} {A : Type ℓ} (le : A → A → Bool) where
  -- Before the first element that is not smaller.
  pub insert : A → List A → List A
  insert x [] = x ∷ []
  insert x (y ∷ ys) = if le x y then x ∷ y ∷ ys else y ∷ insert x ys

  unfoldable pub sort_by : List A → List A
  unfolding insert
  sort_by [] = []
  sort_by (x ∷ xs) = insert x (sort_by xs)

  abbrev pub IsSorted : List A → Type ℓ
  IsSorted [] = Unit
  IsSorted (x ∷ xs) = All (λ y. le x y ≡ true) xs × IsSorted xs

module _ {ℓ} {A : Type ℓ} (le : A → A → Bool) where
  insert-perm : (x : A) (ys : List A) → Perm (insert le x ys) (x ∷ ys)
  unfolding insert
  insert-perm x [] = Perm.refl (x ∷ [])
  insert-perm x (y ∷ ys) = elim (Bool-cases (le x y)) [
    | inl e ↦ rw e (Perm.refl _)
    | inr e ↦ rw e (Perm.trans (Perm.cons y (insert-perm x ys)) (Perm.swap x y ys))
  ]

  -- The sort rearranges.
  pub sort_by-perm : (xs : List A) → Perm (sort_by le xs) xs
  unfolding sort_by
  sort_by-perm [] = Perm.refl []
  sort_by-perm (x ∷ xs) = Perm.trans (insert-perm x (sort_by le xs)) (Perm.cons x (sort_by-perm xs))

  insert-All {κ} : (P : A → Type κ) (x : A) (ys : List A) → P x → All P ys → All P (insert le x ys)
  unfolding insert
  insert-All P x [] p h = (p, tt)
  insert-All P x (y ∷ ys) p (q, h) = ground (arith, insert-All P x ys p h)

  pub sort_by-All {κ} : (P : A → Type κ) (xs : List A) → All P xs → All P (sort_by le xs)
  unfolding sort_by
  sort_by-All P [] h = tt
  sort_by-All P (x ∷ xs) (p, h) = insert-All P x (sort_by le xs) p (sort_by-All P xs h)

  insert-All_inv {κ} :
      (P : A → Type κ) (x : A) (ys : List A) → All P (insert le x ys) → P x × All P ys
  unfolding insert
  insert-All_inv P x [] h = h
  insert-All_inv P x (y ∷ ys) h = elim (Bool-cases (le x y)) [
    | inl e ↦ rw (e, insert) at h
    | inr e ↦
        let h' : P y × All P (insert le x ys) = rw (e, insert) at h in
        let (p, rest) = insert-All_inv P x ys (h'.1) in (p, (h'.0, rest))
  ]

  pub sort_by-All_inv {κ} : (P : A → Type κ) (xs : List A) → All P (sort_by le xs) → All P xs
  unfolding sort_by
  sort_by-All_inv P [] h = tt
  sort_by-All_inv P (x ∷ xs) h =
      let (p, rest) = insert-All_inv P x (sort_by le xs) h in (p, sort_by-All_inv P xs rest)

  -- The elements of a class, if they compare as equal among themselves, keep their order.
  module _ (cls : A → Bool) (same : (x y : A) → cls x ≡ true → cls y ≡ true → le x y ≡ true) where
    insert-keep_if_in :
        (x : A) (ys : List A) → cls x ≡ true → keep_if cls (insert le x ys) ≡ x ∷ keep_if cls ys
    unfolding insert
    insert-keep_if_in x [] e = rw e
    insert-keep_if_in x (y ∷ ys) e = ground (arith, insert-keep_if_in x ys e, same x y e)

    insert-keep_if_out :
        (x : A) (ys : List A) → cls x ≡ false → keep_if cls (insert le x ys) ≡ keep_if cls ys
    unfolding insert
    insert-keep_if_out x [] e = rw e
    insert-keep_if_out x (y ∷ ys) e = ground (arith, insert-keep_if_out x ys e)

    pub sort_by-keep_if : (xs : List A) → keep_if cls (sort_by le xs) ≡ keep_if cls xs
    unfolding sort_by
    sort_by-keep_if [] = refl
    sort_by-keep_if (x ∷ xs) = ground (
      arith,
      insert-keep_if_in x (sort_by le xs),
      insert-keep_if_out x (sort_by le xs),
      sort_by-keep_if xs,
    )

  -- Over a total preorder the result is ascending.
  module _ (total : (x y : A) → le x y ≡ false → le y x ≡ true)
      (trans : (x y z : A) → le x y ≡ true → le y z ≡ true → le x z ≡ true) where
    All-trans :
        (x y : A) (zs : List A)
        → le x y ≡ true
        → All (λ z. le y z ≡ true) zs
        → All (λ z. le x z ≡ true) zs
    All-trans x y [] e h = tt
    All-trans x y (z ∷ zs) e (p, h) = (trans x y z e p, All-trans x y zs e h)

    insert-IsSorted : (x : A) (ys : List A) → IsSorted le ys → IsSorted le (insert le x ys)
    unfolding insert
    insert-IsSorted x [] h = (tt, tt)
    insert-IsSorted x (y ∷ ys) (below, h) = elim (Bool-cases (le x y)) [
      | inl e ↦ rw e ((e, All-trans x y ys e below), (below, h))
      | inr e ↦
          rw e (insert-All (λ z. le y z ≡ true) x ys (total x y e) below, insert-IsSorted x ys h)
    ]

    pub sort_by-IsSorted : (xs : List A) → IsSorted le (sort_by le xs)
    unfolding sort_by
    sort_by-IsSorted [] = tt
    sort_by-IsSorted (x ∷ xs) = insert-IsSorted x (sort_by le xs) (sort_by-IsSorted xs)
