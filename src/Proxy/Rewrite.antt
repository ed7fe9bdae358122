-- ===== src/Proxy/Rewrite.antt =====
-- crates/cng-core/src/proxy.rs: `rewrite_plain_http_header`, from the absolute form that a proxy
-- gets to the origin form that a server gets.
pub mod Lines
use codex_no.Base.{◌+◌, ◌-◌, ◌/◌, Bool, ◌||◌, none, some, List, [], ◌∷◌, ◌++◌, ◌==◌, if◌then◌else◌}
use codex_no.Base.Text.{
  Text, codes, is_empty, split_if, split_whitespace, lines, eq_ignore_ascii_case,
}
use codex_no.Base.Results.{Result, ok, err, ◌>>=◌, ◌>>◌}
use codex_no.Url.{UrlLib}
use codex_no.Proxy.Errors.{crlf}

-- `line.split(':').next()`; a split has always a first part.
unfoldable pub header_name : Text → Text
unfolding split_if
header_name line = elim (split_if (λ c. c == b':') line) [ [] ↦ [] | x ∷ xs ↦ x ]

-- The headers that are meant for the proxy and not for the server.
unfoldable pub is_proxy_only : Text → Bool
unfolding header_name eq_ignore_ascii_case
is_proxy_only line =
    eq_ignore_ascii_case (header_name line) (codes "proxy-authorization")
    || eq_ignore_ascii_case (header_name line) (codes "proxy-connection")

-- The loop over the lines behind the first one.
unfoldable pub push_lines : List Text → Text
push_lines [] = crlf
push_lines (line ∷ rest) =
    let pushed = push_lines rest in
    if is_empty line
    then pushed
    else if is_proxy_only line
    then pushed
    else line ++ (crlf ++ pushed)

abbrev pub tail_of : List Text → List Text
tail_of [] = []
tail_of (x ∷ xs) = xs

abbrev pub third_or : List Text → Text → Text
third_or (x ∷ y ∷ z ∷ r) d = z
third_or _ d = d

module _ (U : UrlLib) where
  -- The path and the query of the URL.
  unfoldable pub origin_target : U.Url → Text
  origin_target url =
      let path = if is_empty (U.path url) then codes "/" else U.path url in
      elim (U.query url) [ none ↦ path | some query ↦ path ++ (codes "?" ++ query) ]

  unfoldable pub request_line : Text → Text → U.Url → Text
  unfolding origin_target
  request_line method version url =
      method ++ (codes " " ++ (origin_target url ++ (codes " " ++ version)))

  -- From the words of the first line.
  unfoldable pub rewrite_with : List Text → List Text → U.Url → Result Text
  rewrite_with [] rest url = err (codes "missing HTTP method")
  rewrite_with (method ∷ []) rest url = err (codes "missing HTTP target")
  rewrite_with (method ∷ absolute ∷ more) rest url = ok (
      request_line method (third_or (method ∷ absolute ∷ more) (codes "HTTP/1.1")) url
      ++ (crlf ++ push_lines rest))

  unfoldable pub rewrite_plain_http_header : Text → U.Url → Result Text
  rewrite_plain_http_header header url = elim (lines header) [
    | [] ↦ err (codes "missing HTTP request line")
    | first ∷ rest ↦ rewrite_with (split_whitespace first) rest url
  ]
