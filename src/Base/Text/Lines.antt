-- ===== src/Base/Text/Lines.antt =====
-- Laws of `split`, of `lines` and of `split_whitespace`.
use mathlib.Core.Logic.{inl, inr}
use codex_no.Base.Tests.{Bool-cases, ◌==◌}
use codex_no.Base.Lists.{All, All-append, All-keep_if}
use codex_no.Base.Text.{
  Text, split_if, cons_head, strip_cr, close_lines, lines, split_whitespace, is_whitespace,
  is_empty,
}
use Prim.Native.Nat.{ℕ}
use mathlib.Core.Path.{◌≡◌, refl, sym, ap, ◌∙◌}
use mathlib.Core.Bool.{Bool, true, false, not}
use mathlib.Core.List.{append_assoc, List, [], ◌∷◌, ◌++◌}
use native.Mathlib.Omega.{arith}

-- No character of the text passes the test.
abbrev pub NoneOf : (ℕ → Bool) → Text → Type 0
NoneOf p s = All (λ c. p c ≡ false) s

abbrev pub is_lf : ℕ → Bool
is_lf c = c == 10

pub NoneOf-append : (p : ℕ → Bool) (s t : Text) → NoneOf p s → NoneOf p t → NoneOf p (s ++ t)
NoneOf-append p s t h k = All-append (λ c. p c ≡ false) s t h k

cons_head-NoneOf :
    (p : ℕ → Bool) (c : ℕ) (xs : List Text)
    → p c ≡ false
    → All (NoneOf p) xs
    → All (NoneOf p) (cons_head c xs)
cons_head-NoneOf p c [] e h = ((e, tt), tt)
cons_head-NoneOf p c (x ∷ xs) e (q, h) = ((e, q), h)

pub split_if-NoneOf : (p : ℕ → Bool) (s : Text) → All (NoneOf p) (split_if p s)
unfolding split_if
split_if-NoneOf p [] = (tt, tt)
split_if-NoneOf p (c ∷ s) = elim (Bool-cases (p c)) [
  | inl e ↦ rw e (tt, split_if-NoneOf p s)
  | inr e ↦ rw e (cons_head-NoneOf p c (split_if p s) e (split_if-NoneOf p s))
]

pub split_if-line :
    (p : ℕ → Bool) (l rest : Text) (d : ℕ)
    → NoneOf p l
    → p d ≡ true
    → split_if p (l ++ d ∷ rest) ≡ l ∷ split_if p rest
unfolding split_if
split_if-line p [] rest d h e = rw e
split_if-line p (c ∷ l) rest d (q, h) e = rw (q, split_if-line p l rest d h e)

-- A split has at least one part.
split_if_parts : (p : ℕ → Bool) (s : Text) → (x : Text) × (xs : List Text) × (split_if p s ≡ x ∷ xs)
unfolding split_if
split_if_parts p [] = ([], [], refl)
split_if_parts p (c ∷ s) =
    let (x, xs, e) = split_if_parts p s in
    elim (Bool-cases (p c)) [ inl t ↦ ([], split_if p s, rw t) | inr t ↦ (c ∷ x, xs, rw (t, e)) ]

close_lines-split :
    (p : ℕ → Bool) (x s : Text)
    → close_lines (x ∷ split_if p s) ≡ strip_cr x ∷ close_lines (split_if p s)
unfolding close_lines
close_lines-split p x s = let (y, ys, e) = split_if_parts p s in rw e

strip_cr-cr : (l : Text) → strip_cr (l ++ 13 ∷ []) ≡ l
unfolding strip_cr
strip_cr-cr [] = refl
strip_cr-cr (c ∷ []) = refl
strip_cr-cr (c ∷ d ∷ l) = ap (λ r. c ∷ r) (strip_cr-cr (d ∷ l))

strip_cr-NoneOf : (p : ℕ → Bool) (s : Text) → NoneOf p s → NoneOf p (strip_cr s)
unfolding strip_cr
strip_cr-NoneOf p [] h = tt
strip_cr-NoneOf p (c ∷ []) (q, h) = ground arith
strip_cr-NoneOf p (c ∷ d ∷ s) (q, h) = (q, strip_cr-NoneOf p (d ∷ s) h)

-- A line that is written with its line break is read back, and the rest is read on its own.
pub lines-line : (l rest : Text) → NoneOf is_lf l → lines (l ++ (13 ∷ 10 ∷ rest)) ≡ l ∷ lines rest
unfolding lines
lines-line l rest h =
    ap close_lines (
      ap (split_if is_lf) (sym (append_assoc l (13 ∷ []) (10 ∷ rest)))
      ∙ split_if-line is_lf (l ++ 13 ∷ []) rest 10
          (All-append (λ c. is_lf c ≡ false) l (13 ∷ []) h (refl, tt)) refl)
    ∙ (close_lines-split is_lf (l ++ 13 ∷ []) rest ∙ ap (λ x. x ∷ lines rest) (strip_cr-cr l))

close_lines-NoneOf :
    (p : ℕ → Bool) (xs : List Text) → All (NoneOf p) xs → All (NoneOf p) (close_lines xs)
unfolding close_lines
close_lines-NoneOf p [] h = tt
close_lines-NoneOf p (x ∷ []) (q, h) = ground arith
close_lines-NoneOf p (x ∷ y ∷ r) (q, h) = (strip_cr-NoneOf p x q, close_lines-NoneOf p (y ∷ r) h)

-- A line holds no line feed.
pub lines-NoneOf : (s : Text) → All (NoneOf is_lf) (lines s)
unfolding lines
lines-NoneOf s = close_lines-NoneOf is_lf (split_if is_lf s) (split_if-NoneOf is_lf s)

not_lf_of_word : (c : ℕ) → is_whitespace c ≡ false → is_lf c ≡ false
unfolding is_whitespace
not_lf_of_word c h = ground arith

word-NoneOf : (s : Text) → NoneOf is_whitespace s → NoneOf is_lf s
word-NoneOf [] h = tt
word-NoneOf (c ∷ s) (q, h) = (not_lf_of_word c q, word-NoneOf s h)

-- A word holds no white space.
pub split_whitespace-NoneOf : (s : Text) → All (NoneOf is_whitespace) (split_whitespace s)
unfolding split_whitespace
split_whitespace-NoneOf s =
    All-keep_if (NoneOf is_whitespace) (λ x. not (is_empty x)) (split_if is_whitespace s)
      (split_if-NoneOf is_whitespace s)

pub words-NoneOf : (xs : List Text) → All (NoneOf is_whitespace) xs → All (NoneOf is_lf) xs
words-NoneOf [] h = tt
words-NoneOf (x ∷ xs) (q, h) = (word-NoneOf x q, words-NoneOf xs h)

abbrev pub is_cr : ℕ → Bool
is_cr c = c == 13

strip_cr_none : (s : Text) → NoneOf is_cr s → strip_cr s ≡ s
unfolding strip_cr
strip_cr_none [] h = refl
strip_cr_none (c ∷ []) (q, h) = rw q
strip_cr_none (c ∷ d ∷ s) (q, h) = ap (λ r. c ∷ r) (strip_cr_none (d ∷ s) h)

-- A last line that ends with a bare line feed.
pub lines-last : (l : Text) → NoneOf is_lf l → NoneOf is_cr l → lines (l ++ 10 ∷ []) ≡ l ∷ []
unfolding lines split_if close_lines
lines-last l h k =
    ap close_lines (split_if-line is_lf l [] 10 h refl) ∙ ap (λ x. x ∷ []) (strip_cr_none l k)
