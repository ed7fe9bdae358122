-- ===== src/Proxy/Header/Reads.antt =====
-- crates/cng-core/src/proxy.rs: a header is read whole, within its limit, and however the bytes
-- arrive.
use codex_no.Base.{
  ◌⊎◌, leb→le, leb, Bool-cases, ℕ, zero, suc, ◌+◌, ◌-◌, ◌≤◌, ◌≡◌, refl, sym, ap, ◌∙◌, subst, inl,
  inr, false, none, some, List, [], ◌∷◌, ◌++◌, map, append_assoc, append-nil, arith, Option-cases,
  length, take, drop, length-append, take-append-drop, All,
}
use codex_no.Base.Text.{is_empty, starts_with, find}
use codex_no.Base.Results.{Result, ok}
use codex_no.Proxy.Header.{
  read_error, cut, ◌++◌, ◌∷◌, ℕ, List, Bytes, ReadEvent, chunk, max_header_bytes, terminator,
  find_header_end, HeaderRead, read_header_from, read_http_header,
}
use codex_no.Base.Text.Find.{find-split, find-append, find-first, find-length}

-- The bytes of a run of chunks.
abbrev pub bytes_of : List Bytes → Bytes
bytes_of [] = []
bytes_of (c ∷ cs) = c ++ bytes_of cs

-- `n` is the place behind the first terminator.
abbrev pub IsHeaderEnd : Bytes → ℕ → Type 0
IsHeaderEnd bytes n =
    (bytes ≡ take (n - 4) bytes ++ (terminator ++ drop n bytes))
    × (4 ≤ n)
    × ((j : ℕ) → (n ≤ j + 4) ⊎ (starts_with terminator (drop j bytes) ≡ false))

header_end_inv :
    (b : Bytes) (n : ℕ)
    → find_header_end b ≡ some n
    → (i : ℕ) × (find terminator b ≡ some i) × (n ≡ i + 4)
unfolding find_header_end
header_end_inv b n h = elim (Option-cases (find terminator b)) [
  | inl e ↦ absurd (ground arith)
  | inr (i, e) ↦ (i, e, ground arith)
]

find_header_end-append :
    (b c : Bytes) (n : ℕ) → find_header_end b ≡ some n → find_header_end (b ++ c) ≡ some n
unfolding find_header_end
find_header_end-append b c n h =
    let (i, e, z) = header_end_inv b n h in rw (find-append terminator b c i e, z)

find_header_end-length : (b : Bytes) (n : ℕ) → find_header_end b ≡ some n → n ≤ length b
find_header_end-length b n h =
    let (i, e, z) = header_end_inv b n h in omega (arith, find-length terminator b i e)

-- The place that `find_header_end` finds is the one behind the first terminator.
pub find_header_end-IsHeaderEnd : (b : Bytes) (n : ℕ) → find_header_end b ≡ some n → IsHeaderEnd b n
find_header_end-IsHeaderEnd b n h =
    let (i, e, z) = header_end_inv b n h in
    let back : n - 4 ≡ i = omega arith in
    (
      rw (back, z) (find-split terminator b i e),
      omega arith,
      λ j. elim (Bool-cases (leb n (j + 4))) [
        | inl l ↦ inl (leb→le _ _ l)
        | inr l ↦ inr (find-first terminator b i j e (ground arith))
      ],
    )

take-append : (n : ℕ) (b c : Bytes) → n ≤ length b → take n (b ++ c) ≡ take n b
take-append zero b c h = refl
take-append (suc n) [] c h = absurd (omega arith)
take-append (suc n) (x ∷ b) c h = rw (take-append n b c (omega arith))

-- A run of chunks, none of them empty.
abbrev pub NoneEmpty : List Bytes → Type 0
NoneEmpty = All (λ c. is_empty c ≡ false)

-- The read took the header `take n total`; nothing of the bytes is lost or doubled.
abbrev pub Delivers : Bytes → ℕ → Result HeaderRead → List ReadEvent → Type 0
Delivers total n result tail =
    (extra : Bytes) × (unread : List Bytes) × (result
      ≡ ok (record { header = take n total; extra = extra; later = map chunk unread ++ tail }))
    × (take n total ++ (extra ++ bytes_of unread) ≡ total)

step_found :
    (b c total : Bytes) (cs : List Bytes) (tail : List ReadEvent) (n m : ℕ)
    → is_empty c ≡ false
    → (b ++ c) ++ bytes_of cs ≡ total
    → length total ≤ max_header_bytes
    → find_header_end total ≡ some n
    → find_header_end (b ++ c) ≡ some m
    → Delivers total n (read_header_from b (chunk c ∷ (map chunk cs ++ tail))) tail
unfolding read_header_from
step_found b c total cs tail n m full e small found here =
    let shorter : length (b ++ c) ≤ max_header_bytes =
      omega (arith, length-append (b ++ c) (bytes_of cs), ap length e) in
    let later : find_header_end total ≡ some m =
      subst (λ t. find_header_end t ≡ some m) e
        (find_header_end-append (b ++ c) (bytes_of cs) m here) in
    let same : n ≡ m = ground arith in
    let prefix : take n total ≡ take m (b ++ c) =
      rw (same, ← e)
        (take-append m (b ++ c) (bytes_of cs) (find_header_end-length (b ++ c) m here)) in
    (
      drop m (b ++ c),
      cs,
      rw prefix (ground arith),
      rw prefix (
          sym (append_assoc (take m (b ++ c)) (drop m (b ++ c)) (bytes_of cs))
          ∙ (ap (λ t. t ++ bytes_of cs) (take-append-drop m (b ++ c)) ∙ e)),
    )

step_more :
    (b c total : Bytes) (stream : List ReadEvent) (cs : List Bytes)
    → is_empty c ≡ false
    → (b ++ c) ++ bytes_of cs ≡ total
    → length total ≤ max_header_bytes
    → find_header_end (b ++ c) ≡ none
    → read_header_from b (chunk c ∷ stream) ≡ read_header_from (b ++ c) stream
unfolding read_header_from
step_more b c total stream cs full e small none_here =
    let shorter : length (b ++ c) ≤ max_header_bytes =
      omega (arith, length-append (b ++ c) (bytes_of cs), ap length e) in
    ground arith

-- From a buffer that holds no terminator yet.
read_header_from-Delivers :
    (cs : List Bytes) (b total : Bytes) (tail : List ReadEvent) (n : ℕ)
    → NoneEmpty cs
    → b ++ bytes_of cs ≡ total
    → length total ≤ max_header_bytes
    → find_header_end b ≡ none
    → find_header_end total ≡ some n
    → Delivers total n (read_header_from b (map chunk cs ++ tail)) tail
read_header_from-Delivers [] b total tail n full e small fresh found = absurd (cc (append-nil b))
read_header_from-Delivers (c ∷ cs) b total tail n (here, full) e small fresh found =
    let e' = append_assoc b c (bytes_of cs) ∙ e in
    elim (Option-cases (find_header_end (b ++ c))) [
      | inl none_here ↦
          rw (step_more b c total (map chunk cs ++ tail) cs here e' small none_here)
            (read_header_from-Delivers cs (b ++ c) total tail n full e' small none_here found)
      | inr (m, there) ↦ step_found b c total cs tail n m here e' small found there
    ]

-- However the bytes of a message arrive, in chunks of any sizes, if they are at most
-- `MAX_HEADER_BYTES` and hold a terminator then the read succeeds, its header is exactly the bytes up
-- to and with the first terminator, and what it read beyond the header together with the chunks that
-- it left unread is the rest of the message.
pub read_http_header-Delivers :
    (cs : List Bytes) (tail : List ReadEvent) (n : ℕ)
    → NoneEmpty cs
    → length (bytes_of cs) ≤ max_header_bytes
    → find_header_end (bytes_of cs) ≡ some n
    → Delivers (bytes_of cs) n (read_http_header (map chunk cs ++ tail)) tail
      × IsHeaderEnd (bytes_of cs) n
unfolding read_http_header find_header_end
read_http_header-Delivers cs tail n full small found = (
  read_header_from-Delivers cs [] (bytes_of cs) tail n full refl small refl found,
  find_header_end-IsHeaderEnd (bytes_of cs) n found,
)

-- What a successful read tells of the stream.
abbrev pub Explains : Bytes → List ReadEvent → HeaderRead → Type 0
Explains buffer stream r =
    (length (r.header ++ r.extra) ≤ max_header_bytes)
    × (find_header_end (r.header ++ r.extra) ≡ some (length r.header))
    × ((cs : List Bytes) × (stream ≡ map chunk cs ++ r.later)
        × (buffer ++ bytes_of cs ≡ r.header ++ r.extra))

length-take-le : (n : ℕ) (b : Bytes) → n ≤ length b → length (take n b) ≡ n
length-take-le zero b h = refl
length-take-le (suc n) [] h = absurd (omega arith)
length-take-le (suc n) (x ∷ b) h = ap suc (length-take-le n b (omega arith))

cut-Explains :
    (b c : Bytes) (later : List ReadEvent) (n : ℕ)
    → length (b ++ c) ≤ max_header_bytes
    → find_header_end (b ++ c) ≡ some n
    → Explains b (chunk c ∷ later) (cut (b ++ c) later n)
cut-Explains b c later n small found = (
  rw (take-append-drop n (b ++ c)) small,
  rw (take-append-drop n (b ++ c))
      (found ∙ ap some (sym (length-take-le n (b ++ c) (find_header_end-length (b ++ c) n found)))),
  (c ∷ [], refl, rw append-nil (sym (take-append-drop n (b ++ c)))),
)

more-Explains :
    (b c : Bytes) (later : List ReadEvent) (r : HeaderRead)
    → Explains (b ++ c) later r
    → Explains b (chunk c ∷ later) r
more-Explains b c later r (small, found, (cs, e, joined)) =
    (small, found, (c ∷ cs, ap (λ s. chunk c ∷ s) e, sym (append_assoc b c (bytes_of cs)) ∙ joined))

read_header_from-Explains :
    (stream : List ReadEvent) (b : Bytes) (r : HeaderRead)
    → read_header_from b stream ≡ ok r
    → Explains b stream r
unfolding read_header_from
read_header_from-Explains [] b r h = cc
read_header_from-Explains (read_error e ∷ later) b r h = cc
read_header_from-Explains (chunk c ∷ later) b r h = elim (Bool-cases (is_empty c)) [
  | inl e ↦ absurd (ground arith)
  | inr full ↦ elim (Bool-cases (leb (length (b ++ c)) max_header_bytes)) [
    | inr e ↦ absurd (ground arith)
    | inl fits ↦ elim (Option-cases (find_header_end (b ++ c))) [
      | inl e ↦
          more-Explains b c later r (read_header_from-Explains later (b ++ c) r (ground arith))
      | inr (n, e) ↦
          let same : cut (b ++ c) later n ≡ r = ground arith in
          subst (Explains b (chunk c ∷ later)) same (cut-Explains b c later n (leb→le _ _ fits) e)
    ]
  ]
]

-- On any stream whatever, a header that is returned ends with the first terminator of what was read,
-- what was read is at most `MAX_HEADER_BYTES` long, and it is the bytes of the chunks taken from the
-- stream, split between the header and the rest.
pub read_http_header-Explains :
    (stream : List ReadEvent) (r : HeaderRead)
    → read_http_header stream ≡ ok r
    → Explains [] stream r
unfolding read_http_header
read_http_header-Explains stream r h = read_header_from-Explains stream [] r h
