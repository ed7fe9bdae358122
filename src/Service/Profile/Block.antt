-- ===== src/Service/Profile/Block.antt =====
-- crates/cng-core/src/service.rs: the text of a profile that got the block and lost it again.
use codex_no.Service.{
  enabled_profile, remove_managed_block, block_start, block_end, terminal_block, shell_double_quote,
  skip_newline, pop_newlines,
}
use codex_no.Service.Terminal.{popped_lem, newlines}
use codex_no.Base.Text.Boundary.{
  EndsLine-snoc, EndsLine-of_ends_with, find_snoc, EndsLine, find_behind, find-of_contains,
}
use mathlib.Core.List.{reverse}
use codex_no.Base.{
  take-length_append, drop-length_append, ℕ, suc, ◌+◌, ◌≡◌, refl, sym, ap, ◌∙◌, inl, inr, false,
  not, ◌&&◌, none, some, [], ◌∷◌, ◌++◌, append_assoc, append-nil, arith, if◌then◌else◌, Bool-cases,
  false, length, take, drop,
}
use codex_no.Base.Text.{Text, codes, is_empty, contains, find, ends_with}

-- The line of the block, from the start marker to the newline before the end marker.
abbrev pub path_line : Text → Text
path_line bin =
    block_start
    ++ (10 ∷ codes "export PATH=\"" ++ (shell_double_quote bin ++ (codes ":$PATH\"" ++ 10 ∷ [])))

abbrev separator : Text → Text
separator s = if not (is_empty s) && not (ends_with (10 ∷ []) s) then 10 ∷ [] else []

-- The text with a newline at its end, unless it is empty or has one.
abbrev pub closed_lines : Text → Text
closed_lines s = s ++ separator s

abbrev line_tail : Text → Text
line_tail bin =
    10 ∷ codes "export PATH=\"" ++ (shell_double_quote bin ++ (codes ":$PATH\"" ++ 10 ∷ []))

EndsLine-append : (a b : Text) → EndsLine b → is_empty b ≡ false → EndsLine (a ++ b)
EndsLine-append [] b h e = h
EndsLine-append (c ∷ []) (d ∷ b) h e = h
EndsLine-append (c ∷ []) [] h e = cc
EndsLine-append (c ∷ d ∷ a) b h e = EndsLine-append (d ∷ a) b h e

path_line-EndsLine : (bin : Text) → EndsLine (path_line bin)
path_line-EndsLine bin =
    EndsLine-append (34 ∷ shell_double_quote bin) (codes ":$PATH\"" ++ 10 ∷ []) refl refl

block-split : (bin : Text) → terminal_block bin ≡ path_line bin ++ (block_end ++ 10 ∷ [])
unfolding terminal_block
block-split bin = simp (append_assoc)

closed_lines-EndsLine : (s : Text) → EndsLine (closed_lines s)
closed_lines-EndsLine [] = tt
closed_lines-EndsLine (c ∷ s) = elim (Bool-cases (ends_with (10 ∷ []) (c ∷ s))) [
  | inl e ↦ rw (e, append-nil) (EndsLine-of_ends_with (c ∷ s) e)
  | inr e ↦ rw e (EndsLine-snoc (c ∷ s))
]

no_start : (s : Text) → contains block_start s ≡ false → find block_start (closed_lines s) ≡ none
no_start s h = elim (Bool-cases (not (is_empty s) && not (ends_with (10 ∷ []) s))) [
  | inl e ↦ rw e (find_snoc block_start s (omega arith) (find-of_contains block_start s h))
  | inr e ↦ rw (e, append-nil) (find-of_contains block_start s h)
]

drop-length-add : (xs ys : Text) (n : ℕ) → drop (length xs + n) (xs ++ ys) ≡ drop n ys
drop-length-add [] ys n = ap (λ k. drop k ys) (omega arith)
drop-length-add (x ∷ xs) ys n =
    let e : length (x ∷ xs) + n ≡ suc (length xs + n) = omega arith in
    rw e (drop-length-add xs ys n)

rest_lem :
    (a line : Text)
    → take (length a) (a ++ (line ++ (block_end ++ 10 ∷ [])))
        ++ skip_newline (drop (length line + length block_end) (line ++ (block_end ++ 10 ∷ [])))
      ≡ a
rest_lem a line =
    rw
      (
        take-length_append a (line ++ (block_end ++ 10 ∷ [])),
        drop-length-add line (block_end ++ 10 ∷ []) (length block_end),
      )
      (append-nil a)

cut_lem :
    (value : Text) (i j : ℕ)
    → find block_start value ≡ some i
    → find block_end (drop i value) ≡ some j
    → remove_managed_block value
      ≡ reverse (
          pop_newlines
            (reverse (take i value ++ skip_newline (drop (j + length block_end) (drop i value)))))
unfolding remove_managed_block
cut_lem value i j start end = rw (start, end, remove_managed_block) refl

-- The block behind some lines is taken out.
block_behind :
    (a line tail : Text)
    → EndsLine a
    → EndsLine line
    → find block_start a ≡ none
    → find block_end line ≡ none
    → line ≡ block_start ++ tail
    → remove_managed_block (a ++ (line ++ (block_end ++ 10 ∷ [])))
      ≡ reverse (pop_newlines (reverse a))
block_behind a line tail whole closed fresh plain same =
    let block : Text = line ++ (block_end ++ 10 ∷ []) in
    let split : block ≡ block_start ++ (tail ++ (block_end ++ 10 ∷ [])) =
      ap (λ t. t ++ (block_end ++ 10 ∷ [])) same ∙ append_assoc block_start tail _ in
    let start : find block_start (a ++ block) ≡ some (length a) =
      ap (λ t. find block_start (a ++ t)) split
      ∙ find_behind block_start a _ (omega arith) whole fresh in
    let end : find block_end block ≡ some (length line) =
      find_behind block_end line (10 ∷ []) (omega arith) closed plain in
    cut_lem (a ++ block) (length a) (length line) start
      (ap (find block_end) (drop-length_append a block) ∙ end)
    ∙ ap
        (λ r. reverse (
          pop_newlines (
            reverse (
              take (length a) (a ++ block)
              ++ skip_newline (drop (length line + length block_end) r)))))
        (drop-length_append a block)
    ∙ ap (λ t. reverse (pop_newlines (reverse t))) (rest_lem a line)

pub removed_lem :
    (bin s : Text)
    → contains block_start s ≡ false
    → find block_end (path_line bin) ≡ none
    → (n : ℕ) × (closed_lines s ≡ remove_managed_block (enabled_profile bin s) ++ newlines n)
unfolding enabled_profile
removed_lem bin s fresh plain =
    let (n, e) = popped_lem (closed_lines s) in
    let same : enabled_profile bin s ≡ closed_lines s ++ terminal_block bin =
      rw (fresh, enabled_profile) (sym (append_assoc s (separator s) (terminal_block bin))) in
    (
      n,
      rw
          (
            same,
            block-split bin,
            block_behind (closed_lines s) (path_line bin) (line_tail bin) (closed_lines-EndsLine s)
                (path_line-EndsLine bin) (no_start s fresh) plain refl,
          )
          e,
    )
