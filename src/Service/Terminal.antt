-- ===== src/Service/Terminal.antt =====
-- crates/cng-core/src/service.rs: what `remove_managed_block` takes out of a shell profile.
use mathlib.Core.List.{reverse, reverse-append, reverse-reverse, reverse-cons}
use codex_no.Base.Text.Find.{find-split}
use codex_no.Service.{
  skip_newline, block_end, block_start, remove_managed_block, reverse, pop_newlines,
}
use codex_no.Base.{
  take-append-drop, length, ◌+◌, take, drop, Option-cases, some, none, ◌⊎◌, sym, ℕ, zero, suc, ◌≡◌,
  refl, ap, ◌∙◌, inl, inr, ◌&&◌, [], ◌∷◌, ◌++◌, arith, ◌==◌, Bool-cases,
}
use codex_no.Base.Text.{find, Text}

abbrev pub newlines : ℕ → Text
newlines zero = []
newlines (suc n) = 10 ∷ newlines n

newlines-snoc : (n : ℕ) → newlines n ++ 10 ∷ [] ≡ 10 ∷ newlines n
newlines-snoc zero = refl
newlines-snoc (suc n) = ap (λ t. 10 ∷ t) (newlines-snoc n)

-- What is popped are newlines.
pop_newlines-split : (s : Text) → (n : ℕ) × (s ≡ newlines n ++ pop_newlines s)
unfolding pop_newlines
pop_newlines-split [] = (0, refl)
pop_newlines-split (c ∷ []) = (0, refl)
pop_newlines-split (c ∷ d ∷ s) = elim (Bool-cases (c == 10 && d == 10)) [
  | inr e ↦ (0, rw (e, pop_newlines) refl)
  | inl e ↦
      let (n, same) = pop_newlines-split (d ∷ s) in
      let ten : c ≡ 10 = ground arith in
      (
        suc n,
        rw (e, pop_newlines)
            (ap (λ t. c ∷ t) same ∙ ap (λ x. x ∷ newlines n ++ pop_newlines (d ∷ s)) ten),
      )
]

reverse-newlines : (n : ℕ) → reverse (newlines n) ≡ newlines n
reverse-newlines zero = refl
reverse-newlines (suc n) =
    reverse-cons 10 (newlines n) ∙ (ap (λ t. t ++ 10 ∷ []) (reverse-newlines n) ∙ newlines-snoc n)

-- Popping at the end of a text leaves it but for newlines there.
pub popped_lem : (s : Text) → (n : ℕ) × (s ≡ reverse (pop_newlines (reverse s)) ++ newlines n)
popped_lem s =
    let (n, e) = pop_newlines-split (reverse s) in
    (
      n,
      sym (reverse-reverse s)
          ∙ (ap reverse e
              ∙ (reverse-append (newlines n) (pop_newlines (reverse s))
                  ∙ ap (λ t. reverse (pop_newlines (reverse s)) ++ t) (reverse-newlines n))),
    )

-- No complete block: no start marker, or no end marker behind the first one.
abbrev pub HasNoBlock : Text → Type 0
HasNoBlock value =
    (find block_start value ≡ none)
    ⊎ ((i : ℕ) × (find block_start value ≡ some i) × (find block_end (drop i value) ≡ none))

-- The text is cut into what stands before the first start marker, the block up to the first end marker
-- behind it, and the rest; and `out` is what stands before and the rest, without the newline that ends
-- the block and without some newlines at the very end.
abbrev pub LosesBlock : Text → Text → Type 0
LosesBlock value out =
    (i j : ℕ) × (find block_start value ≡ some i)
    × (find block_end (drop i value) ≡ some j)
    × (value
        ≡ take i value
          ++ (take j (drop i value) ++ (block_end ++ drop (j + length block_end) (drop i value))))
    × ((n : ℕ) × (take i value ++ skip_newline (drop (j + length block_end) (drop i value))
          ≡ out ++ newlines n))

-- A profile without a complete block is left as it is. Of any other the first block is taken out and
-- everything before and behind it is kept, except for newlines at the end of the file.
pub remove_managed_block-LosesBlock :
    (value : Text)
    → (HasNoBlock value × (remove_managed_block value ≡ value))
      ⊎ LosesBlock value (remove_managed_block value)
unfolding remove_managed_block
remove_managed_block-LosesBlock value = elim (Option-cases (find block_start value)) [
  | inl e ↦ inl (inl e, rw (e, remove_managed_block) refl)
  | inr (i, e) ↦ elim (Option-cases (find block_end (drop i value))) [
    | inl f ↦ inl (inr (i, e, f), rw (e, f, remove_managed_block) refl)
    | inr (j, f) ↦
        let kept = take i value ++ skip_newline (drop (j + length block_end) (drop i value)) in
        let (n, same) = popped_lem kept in
        inr (
          i,
          j,
          e,
          f,
          sym (take-append-drop i value)
              ∙ ap (λ t. take i value ++ t) (find-split block_end (drop i value) j f),
          (n, rw (e, f, remove_managed_block) same),
        )
  ]
]
