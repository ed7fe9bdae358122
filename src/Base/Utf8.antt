-- ===== src/Base/Utf8.antt =====
-- UTF-8, as `str::as_bytes`, `str::len` and `std::str::from_utf8` of the standard library read it.
use codex_no.Base.Text.{Text}
use codex_no.Base.Tests.{leb, ltb, ◌==◌, if◌then◌else◌}
use mathlib.Core.Bool.{Bool, ◌&&◌}
use mathlib.Core.Option
use mathlib.Core.Option.{Option, none, some}
use mathlib.Core.List.{List, [], ◌∷◌, ◌++◌}
use Prim.Native.Nat.{ℕ, ◌+◌, ◌-◌, ◌*◌, ◌/◌, ◌%◌}

unfoldable pub encode_char : ℕ → List ℕ
encode_char c =
    if ltb c 0x80
    then c ∷ []
    else if ltb c 0x800
    then (0xc0 + c / 64) ∷ (0x80 + c % 64) ∷ []
    else if ltb c 0x10000
    then (0xe0 + c / 4096) ∷ (0x80 + c / 64 % 64) ∷ (0x80 + c % 64) ∷ []
    else (0xf0 + c / 262144) ∷ (0x80 + c / 4096 % 64) ∷ (0x80 + c / 64 % 64) ∷ (0x80 + c % 64) ∷ []

-- `as_bytes`.
unfoldable pub encode_utf8 : Text → List ℕ
unfolding encode_char
encode_utf8 [] = []
encode_utf8 (c ∷ s) = encode_char c ++ encode_utf8 s

-- Between characters, or inside one: how many bytes it wants, its value so far, and the range of
-- its next byte.
pub data Pending : Type 0 where
  start : Pending
  wants : ℕ → ℕ → ℕ → ℕ → Pending

abbrev within : ℕ → ℕ → ℕ → Bool
within lo hi b = leb lo b && leb b hi

-- The first byte of a character: the character itself, or what must follow.
lead : ℕ → Option (List ℕ × Pending)
lead a =
    if ltb a 0x80
    then some (a ∷ [], start)
    else if within 0xc2 0xdf a
    then some ([], wants 1 (a - 0xc0) 0x80 0xbf)
    else if a == 0xe0
    then some ([], wants 2 0 0xa0 0xbf)
    else if a == 0xed
    then some ([], wants 2 13 0x80 0x9f)
    else if within 0xe1 0xef a
    then some ([], wants 2 (a - 0xe0) 0x80 0xbf)
    else if a == 0xf0
    then some ([], wants 3 0 0x90 0xbf)
    else if within 0xf1 0xf3 a
    then some ([], wants 3 (a - 0xf0) 0x80 0xbf)
    else if a == 0xf4
    then some ([], wants 3 4 0x80 0x8f)
    else none

next : Pending → ℕ → Option (List ℕ × Pending)
unfolding lead
next start a = lead a
next (wants k value lo hi) b =
    if within lo hi b
    then (if k == 1
        then some ((value * 64 + (b - 0x80)) ∷ [], start)
        else some ([], wants (k - 1) (value * 64 + (b - 0x80)) 0x80 0xbf))
    else none

decode_from : Pending → List ℕ → Option Text
unfolding next
decode_from start [] = some []
decode_from (wants k value lo hi) [] = none
decode_from p (b ∷ bytes) = elim (next p b) [
  | none ↦ none
  | some (chars, p') ↦ Option.map (λ s. chars ++ s) (decode_from p' bytes)
]

-- `from_utf8`.
unfoldable pub from_utf8 : List ℕ → Option Text
unfolding decode_from
from_utf8 bytes = decode_from start bytes
