-- ===== src/Proxy/Header.antt =====
-- crates/cng-core/src/proxy.rs: reading the header of an HTTP message from a byte stream.
pub mod Reads
use codex_no.Base.{
  ℕ, ◌+◌, Option, none, some, List, [], ◌∷◌, ◌++◌, length, take, drop, leb, if◌then◌else◌,
}
use codex_no.Base.Text.{Text, codes, find, is_empty}
use codex_no.Base.Results.{Result, ok, err}
use mathlib.Core.Option

abbrev pub Bytes : Type 0
Bytes = List ℕ

-- What one call of `read` on a socket gives; the end of the list, and an empty chunk, are the end
-- of the stream.
pub data ReadEvent : Type 0 where
  chunk : Bytes → ReadEvent
  read_error : Text → ReadEvent

abbrev pub max_header_bytes : ℕ
max_header_bytes = 32768

-- `b"\r\n\r\n"`.
abbrev pub terminator : Bytes
terminator = 13 ∷ 10 ∷ 13 ∷ 10 ∷ []

-- The first window of four bytes that is the terminator, and the place behind it.
unfoldable pub find_header_end : Bytes → Option ℕ
unfolding find
find_header_end bytes = Option.map (λ i. i + 4) (find terminator bytes)

-- The header, the bytes behind it that were read along with it, and what the stream still holds.
pub record HeaderRead : Type 0 where
  pub header : Bytes
  pub extra : Bytes
  pub later : List ReadEvent

abbrev pub cut : Bytes → List ReadEvent → ℕ → HeaderRead
cut buffer later index = record {
  header = take index buffer;
  extra = drop index buffer;
  later = later;
}

abbrev closed_early : Text
closed_early = codes "connection closed before HTTP headers completed"

abbrev too_large : Text
too_large = codes "HTTP header is too large"

-- The loop of `read_http_header`, from a buffer that holds what was read before.
unfoldable pub read_header_from : Bytes → List ReadEvent → Result HeaderRead
read_header_from buffer [] = err closed_early
read_header_from buffer (read_error e ∷ later) = err e
read_header_from buffer (chunk bytes ∷ later) =
    let grown = buffer ++ bytes in
    let more = read_header_from grown later in
    if is_empty bytes
    then err closed_early
    else if leb (length grown) max_header_bytes
    then elim (find_header_end grown) [ none ↦ more | some index ↦ ok (cut grown later index) ]
    else err too_large

unfoldable pub read_http_header : List ReadEvent → Result HeaderRead
unfolding read_header_from
read_http_header stream = read_header_from [] stream
