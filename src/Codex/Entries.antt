-- ===== src/Codex/Entries.antt =====
-- crates/cng-core/src/codex.rs: which hosts the merged NO_PROXY names.
use codex_no.Codex.{required_entries, user_entries, add_required, text_le, dedup, no_proxy_entries}
use codex_no.Base.{
  ◌≡◌, refl, sym, ◌∙◌, subst, ◌≢◌, ◌↔◌, inl, inr, true, false, Option, List, [], ◌∷◌, ◌++◌, arith,
  Bool-cases, any_of, All, All-append,
}
use codex_no.Base.Text.{Text, text_eq}
use mathlib.Core.Bool.{false≢true}
use codex_no.Base.Text.Laws.{text_eq_iff}
use codex_no.Base.Sort.{sort_by, sort_by-All, sort_by-All_inv, sort_by-IsSorted, IsSorted}

text_le-total : (s t : Text) → text_le s t ≡ false → text_le t s ≡ true
unfolding text_le
text_le-total [] t h = cc
text_le-total (c ∷ s) [] h = refl
text_le-total (c ∷ s) (d ∷ t) h = ground (arith, text_le-total s t)

text_le_trans : (s t u : Text) → text_le s t ≡ true → text_le t u ≡ true → text_le s u ≡ true
unfolding text_le
text_le_trans [] t u h k = refl
text_le_trans (c ∷ s) [] u h k = cc
text_le_trans (c ∷ s) (d ∷ t) [] h k = cc
text_le_trans (c ∷ s) (d ∷ t) (e ∷ u) h k = ground (arith, text_le_trans s t u)

text_le_antisym : (s t : Text) → text_le s t ≡ true → text_le t s ≡ true → s ≡ t
unfolding text_le
text_le_antisym [] [] h k = refl
text_le_antisym [] (d ∷ t) h k = cc
text_le_antisym (c ∷ s) [] h k = cc
text_le_antisym (c ∷ s) (d ∷ t) h k = ground (arith, text_le_antisym s t)

-- No entry twice.
abbrev pub AreDifferent : List Text → Type 0
AreDifferent [] = Unit
AreDifferent (x ∷ xs) = All (λ y. x ≢ y) xs × AreDifferent xs

module _ (P : Text → Type 0) where
  All-dedup : (xs : List Text) → All P xs → All P (dedup xs)
  unfolding dedup
  All-dedup [] h = h
  All-dedup (x ∷ []) h = h
  All-dedup (x ∷ y ∷ r) (p, h) = elim (Bool-cases (text_eq x y)) [
    | inl e ↦ rw (e, dedup) (All-dedup (y ∷ r) h)
    | inr e ↦ rw (e, dedup) (p, All-dedup (y ∷ r) h)
  ]

  All-dedup_inv : (xs : List Text) → All P (dedup xs) → All P xs
  unfolding dedup
  All-dedup_inv [] h = h
  All-dedup_inv (x ∷ []) h = h
  All-dedup_inv (x ∷ y ∷ r) h = elim (Bool-cases (text_eq x y)) [
    | inl e ↦
        let rest = All-dedup_inv (y ∷ r) (rw (e, dedup) at h) in
        (subst P (sym ((text_eq_iff x y).0 e)) rest.0, rest)
    | inr e ↦
        let (p, k) : P x × All P (dedup (y ∷ r)) = rw (e, dedup) at h in
        (p, All-dedup_inv (y ∷ r) k)
  ]

  All-front : (xs ys : List Text) → All P (xs ++ ys) → All P xs × All P ys
  All-front [] ys h = (tt, h)
  All-front (x ∷ xs) ys (p, h) = let (a, b) = All-front xs ys h in ((p, a), b)

  any_lem : (r : Text) (vs : List Text) → any_of (λ v. text_eq v r) vs ≡ true → All P vs → P r
  any_lem r [] e h = cc
  any_lem r (v ∷ vs) e (p, h) = elim (Bool-cases (text_eq v r)) [
    | inl same ↦ subst P ((text_eq_iff v r).0 same) p
    | inr other ↦ any_lem r vs (ground arith) h
  ]

  All-add_required : (vs rs : List Text) → All P vs → All P rs → All P (add_required vs rs)
  unfolding add_required
  All-add_required vs [] h k = h
  All-add_required vs (r ∷ rs) h (p, k) = elim (Bool-cases (any_of (λ v. text_eq v r) vs)) [
    | inl e ↦ rw (e, add_required) (All-add_required vs rs h k)
    | inr e ↦
        rw (e, add_required)
          (All-add_required (vs ++ r ∷ []) rs (All-append P vs (r ∷ []) h (p, tt)) k)
  ]

  All-add_required_inv : (vs rs : List Text) → All P (add_required vs rs) → All P vs × All P rs
  unfolding add_required
  All-add_required_inv vs [] h = (h, tt)
  All-add_required_inv vs (r ∷ rs) h = elim (Bool-cases (any_of (λ v. text_eq v r) vs)) [
    | inl e ↦
        let (a, b) = All-add_required_inv vs rs (rw (e, add_required) at h) in
        (a, (any_lem r vs e a, b))
    | inr e ↦
        let (a, b) = All-add_required_inv (vs ++ r ∷ []) rs (rw (e, add_required) at h) in
        let (c, d) = All-front vs (r ∷ []) a in (c, (d.0, b))
  ]

-- What is not equal to the next entry of a sorted list is equal to none of the later ones.
above_lem :
    (x y : Text) (zs : List Text)
    → x ≢ y
    → text_le x y ≡ true
    → All (λ z. text_le y z ≡ true) zs
    → All (λ z. x ≢ z) zs
above_lem x y [] n l h = tt
above_lem x y (z ∷ zs) n l (p, h) = (
  (λ e. n (text_le_antisym x y l (subst (λ t. text_le y t ≡ true) (sym e) p))),
  above_lem x y zs n l h,
)

dedup-AreDifferent : (xs : List Text) → IsSorted text_le xs → AreDifferent (dedup xs)
unfolding dedup
dedup-AreDifferent [] h = tt
dedup-AreDifferent (x ∷ []) h = (tt, tt)
dedup-AreDifferent (x ∷ y ∷ r) ((l, below), h) = elim (Bool-cases (text_eq x y)) [
  | inl e ↦ rw (e, dedup) (dedup-AreDifferent (y ∷ r) h)
  | inr e ↦
      let other : x ≢ y = λ s. false≢true (sym e ∙ (text_eq_iff x y).1 s) in
      rw (e, dedup)
        (
          All-dedup (λ z. x ≢ z) (y ∷ r) (other, above_lem x y r other l h.0),
          dedup-AreDifferent (y ∷ r) h,
        )
]

-- The entries of the merged NO_PROXY are the user's, of either spelling of the variable, and the
-- required local ones: whatever holds of all entries holds of all these, and the other way round. No
-- entry stands twice.
pub no_proxy_entries-AreDifferent :
    (variable : Text → Option Text) (P : Text → Type 0)
    → (All P (no_proxy_entries variable) ↔ (All P (user_entries variable) × All P required_entries))
      × AreDifferent (no_proxy_entries variable)
unfolding no_proxy_entries
no_proxy_entries-AreDifferent variable P =
    let all = add_required (user_entries variable) required_entries in
    (
      (
        (λ h.
            All-add_required_inv P (user_entries variable) required_entries
              (sort_by-All_inv text_le P all (All-dedup_inv P (sort_by text_le all) h))),
        (λ (a, b). All-dedup P (sort_by text_le all) (
            sort_by-All text_le P all
              (All-add_required P (user_entries variable) required_entries a b))),
      ),
      dedup-AreDifferent (sort_by text_le all)
          (sort_by-IsSorted text_le text_le-total text_le_trans all),
    )
