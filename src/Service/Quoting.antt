-- ===== src/Service/Quoting.antt =====
-- crates/cng-core/src/service.rs: what the shell and an XML reader make of the quoted texts.
use codex_no.Service.{shell_double_quote}
use codex_no.Base.{
  ℕ, ◌≡◌, refl, sym, ap, ◌∙◌, ◌⊎◌, inl, inr, Bool, true, false, ◌||◌, Option, none, some, [], ◌∷◌,
  ◌++◌, append_assoc, arith, ◌==◌, if◌then◌else◌, Bool-cases,
}
use codex_no.Base.Text.{Text, replace_if}

pub replace_if-append :
    (p : ℕ → Bool) (t a b : Text) → replace_if p t (a ++ b) ≡ replace_if p t a ++ replace_if p t b
unfolding replace_if
replace_if-append p t [] b = refl
replace_if-append p t (c ∷ a) b =
    ap (λ r. (if p c then t else c ∷ []) ++ r) (replace_if-append p t a b)
    ∙ sym (append_assoc (if p c then t else c ∷ []) (replace_if p t a) (replace_if p t b))

-- What a shell reads between double quotes: the text up to the closing quote and what stands behind
-- it. A backslash before one of the four special characters stands for that character; a dollar sign
-- or a backquote without one would start an expansion, and there is no text then.
abbrev pub is_special : ℕ → Bool
is_special c = c == 92 || (c == 34 || (c == 36 || c == 96))

abbrev pub prepend : ℕ → Option (Text × Text) → Option (Text × Text)
prepend c none = none
prepend c (some (s, rest)) = some (c ∷ s, rest)

unfoldable pub read_quoted : Bool → Text → Option (Text × Text)
read_quoted escaped [] = none
read_quoted true (c ∷ s) =
    if is_special c
    then prepend c (read_quoted false s)
    else prepend 92 (prepend c (read_quoted false s))
read_quoted false (c ∷ s) =
    if c == 34
    then some ([], s)
    else if c == 92
    then read_quoted true s
    else if c == 36 || c == 96
    then none
    else prepend c (read_quoted false s)

shell-append :
    (a b : Text) → shell_double_quote (a ++ b) ≡ shell_double_quote a ++ shell_double_quote b
unfolding shell_double_quote
shell-append a b = simp replace_if-append

-- What becomes of one character.
shell_one :
    (c : ℕ)
    → ((is_special c ≡ true) × (shell_double_quote (c ∷ []) ≡ 92 ∷ c ∷ []))
      ⊎ ((is_special c ≡ false) × (shell_double_quote (c ∷ []) ≡ c ∷ []))
unfolding shell_double_quote replace_if
shell_one c = elim (Bool-cases (c == 92)) [ inl e ↦ ground arith | inr e ↦ ground arith ]

read_special :
    (c : ℕ) (s : Text)
    → is_special c ≡ true
    → read_quoted false (92 ∷ c ∷ s) ≡ prepend c (read_quoted false s)
unfolding read_quoted
read_special c s h = rw h refl

read_plain :
    (c : ℕ) (s : Text)
    → is_special c ≡ false
    → read_quoted false (c ∷ s) ≡ prepend c (read_quoted false s)
unfolding read_quoted
read_plain c s h = ground arith

-- Whatever text is quoted, a shell that reads the result between double quotes reads exactly this
-- text, stops at the closing quote and starts no expansion.
pub read_quoted-shell_double_quote :
    (value rest : Text)
    → read_quoted false (shell_double_quote value ++ 34 ∷ rest) ≡ some (value, rest)
unfolding shell_double_quote replace_if read_quoted
read_quoted-shell_double_quote [] rest = refl
read_quoted-shell_double_quote (c ∷ s) rest =
    ap (read_quoted false) (
      ap (λ t. t ++ 34 ∷ rest) (shell-append (c ∷ []) s)
      ∙ append_assoc (shell_double_quote (c ∷ [])) (shell_double_quote s) (34 ∷ rest))
    ∙ (elim (shell_one c) [
      | inl (h, e) ↦
          ap (λ t. read_quoted false (t ++ (shell_double_quote s ++ 34 ∷ rest))) e
          ∙ (read_special c (shell_double_quote s ++ 34 ∷ rest) h
              ∙ ap (prepend c) (read_quoted-shell_double_quote s rest))
      | inr (h, e) ↦
          ap (λ t. read_quoted false (t ++ (shell_double_quote s ++ 34 ∷ rest))) e
          ∙ (read_plain c (shell_double_quote s ++ 34 ∷ rest) h
              ∙ ap (prepend c) (read_quoted-shell_double_quote s rest))
    ])
