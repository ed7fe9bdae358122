-- ===== src/Base/Text.antt =====
-- Rust's `str` as a list of code points, with the operations of the standard library that the
-- program calls on it.
pub mod Laws
pub mod Find
pub mod Boundary
pub mod Lines
use Prim.Native.Char.{code}
use Prim.Native.Nat.{ℕ, zero, suc, ◌+◌, ◌-◌, ◌/◌, ◌%◌}
use Prim.Native.String.{String}
use mathlib.Core.Bool.{Bool, true, false, not, ◌&&◌, ◌||◌}
use mathlib.Core.Option
use mathlib.Core.Option.{Option, none, some}
use mathlib.Core.List.{List, [], ◌∷◌, ◌++◌, map, reverse}
use codex_no.Base.Tests.{leb, ltb, ◌==◌, if◌then◌else◌}
use codex_no.Base.Lists.{keep_if, take, drop, length}

abbrev pub Text : Type 0
Text = List ℕ

-- A literal of the source.
abbrev pub codes : String → Text
codes String.[] = []
codes (String.◌∷◌ c s) = code c ∷ codes s

unfoldable pub text_eq : Text → Text → Bool
text_eq [] [] = true
text_eq [] (d ∷ t) = false
text_eq (c ∷ s) [] = false
text_eq (c ∷ s) (d ∷ t) = c == d && text_eq s t

abbrev pub is_empty : Text → Bool
is_empty [] = true
is_empty (c ∷ s) = false

unfoldable pub starts_with : Text → Text → Bool
starts_with [] s = true
starts_with (d ∷ p) [] = false
starts_with (d ∷ p) (c ∷ s) = d == c && starts_with p s

unfoldable pub contains : Text → Text → Bool
unfolding starts_with
contains needle [] = starts_with needle []
contains needle (c ∷ s) = starts_with needle (c ∷ s) || contains needle s

-- The place of the first occurrence.
unfoldable pub find : Text → Text → Option ℕ
unfolding starts_with
find needle [] = if starts_with needle [] then some 0 else none
find needle (c ∷ s) = if starts_with needle (c ∷ s) then some 0 else Option.map suc (find needle s)

unfoldable pub ends_with : Text → Text → Bool
unfolding starts_with
ends_with suffix s = starts_with (reverse suffix) (reverse s)

-- Unicode's `White_Space`.
unfoldable pub is_whitespace : ℕ → Bool
is_whitespace c =
    (leb 9 c && leb c 13)
    || c == 32
    || c == 0x85
    || c == 0xa0
    || c == 0x1680
    || (leb 0x2000 c && leb c 0x200a)
    || c == 0x2028
    || c == 0x2029
    || c == 0x202f
    || c == 0x205f
    || c == 0x3000

unfoldable pub trim_start_if : (ℕ → Bool) → Text → Text
trim_start_if p [] = []
trim_start_if p (c ∷ s) = if p c then trim_start_if p s else c ∷ s

-- `trim_matches`.
unfoldable pub trim_if : (ℕ → Bool) → Text → Text
unfolding trim_start_if
trim_if p s = reverse (trim_start_if p (reverse (trim_start_if p s)))

unfoldable pub trim : Text → Text
unfolding trim_if is_whitespace
trim s = trim_if is_whitespace s

abbrev cons_head : ℕ → List Text → List Text
cons_head c [] = (c ∷ []) ∷ []
cons_head c (x ∷ xs) = (c ∷ x) ∷ xs

-- `str::split` at each character that passes the test.
unfoldable pub split_if : (ℕ → Bool) → Text → List Text
split_if p [] = [] ∷ []
split_if p (c ∷ s) = let rest = split_if p s in if p c then [] ∷ rest else cons_head c rest

unfoldable pub split_whitespace : Text → List Text
unfolding split_if is_whitespace
split_whitespace s = keep_if (λ x. not (is_empty x)) (split_if is_whitespace s)

-- A line feed takes one carriage return before it along.
unfoldable pub strip_cr : Text → Text
strip_cr [] = []
strip_cr (c ∷ []) = if c == 13 then [] else c ∷ []
strip_cr (c ∷ d ∷ s) = c ∷ strip_cr (d ∷ s)

-- What stands behind the last line feed is a line only if it is not empty.
unfoldable pub close_lines : List Text → List Text
unfolding strip_cr
close_lines [] = []
close_lines (x ∷ []) = if is_empty x then [] else x ∷ []
close_lines (x ∷ y ∷ r) = strip_cr x ∷ close_lines (y ∷ r)

-- `str::lines`.
unfoldable pub lines : Text → List Text
unfolding split_if close_lines
lines s = close_lines (split_if (λ c. c == 10) s)

unfoldable pub lower : ℕ → ℕ
lower c = if leb b'A' c && leb c b'Z' then c + 32 else c

unfoldable pub to_ascii_lowercase : Text → Text
unfolding lower
to_ascii_lowercase s = map lower s

unfoldable pub to_ascii_uppercase : Text → Text
to_ascii_uppercase s = map (λ c. if leb b'a' c && leb c b'z' then c - 32 else c) s

unfoldable pub eq_ignore_ascii_case : Text → Text → Bool
unfolding text_eq to_ascii_lowercase
eq_ignore_ascii_case s t = text_eq (to_ascii_lowercase s) (to_ascii_lowercase t)

-- `split_once` at a text: what stands before its first occurrence and behind it.
split_at : Text → Text → Option ℕ → Option (Text × Text)
split_at sep s none = none
split_at sep s (some i) = some (take i s, drop (i + length sep) s)

unfoldable pub split_once : Text → Text → Option (Text × Text)
unfolding split_at find
split_once sep s = split_at sep s (find sep s)

unfoldable pub join : Text → List Text → Text
join sep [] = []
join sep (x ∷ []) = x
join sep (x ∷ y ∷ r) = x ++ (sep ++ join sep (y ∷ r))

-- The decimal digits, by fuel; a number has at most as many digits as its value plus one.
unfoldable pub decimal_from : ℕ → ℕ → Text → Text
decimal_from zero n acc = acc
decimal_from (suc f) n acc =
    let digit = 48 + n % 10 in
    let rest = decimal_from f (n / 10) (digit ∷ acc) in if ltb n 10 then digit ∷ acc else rest

unfoldable pub decimal : ℕ → Text
unfolding decimal_from
decimal n = decimal_from (suc n) n []

-- `str::replace` at each character that passes the test.
unfoldable pub replace_if : (ℕ → Bool) → Text → Text → Text
replace_if p to [] = []
replace_if p to (c ∷ s) = (if p c then to else c ∷ []) ++ replace_if p to s

-- Behind each character; what an empty pattern replaces.
unfoldable pub between : Text → Text → Text
between to [] = to
between to (c ∷ s) = to ++ c ∷ between to s

-- The counter is what is left of an occurrence that was replaced.
unfoldable pub replace_from : Text → Text → ℕ → Text → Text
replace_from pattern to skip [] = []
replace_from pattern to (suc skip) (c ∷ s) = replace_from pattern to skip s
replace_from pattern to zero (c ∷ s) =
    let hit = starts_with pattern (c ∷ s) in
    let rest = replace_from pattern to (if hit then length pattern - 1 else 0) s in
    if hit then to ++ rest else c ∷ rest

-- `str::replace` at each occurrence of a text, from left to right.
unfoldable pub replace : Text → Text → Text → Text
unfolding between replace_from starts_with
replace [] to s = between to s
replace (d ∷ p) to s = replace_from (d ∷ p) to 0 s
