-- ===== src/Proxy/Rewrite/Lines.antt =====
-- crates/cng-core/src/proxy.rs: what a server reads in a rewritten header.
use codex_no.Base.Text.Lines.{NoneOf, is_lf}
use codex_no.Base.{◌≡◌, ◌≢◌, Bool, not, ◌&&◌, List, [], ◌∷◌, ◌++◌, or_else, keep_if, All}
use codex_no.Base.Text.{Text, codes, is_empty, split_whitespace, lines, to_ascii_lowercase}
use codex_no.Url.{UrlLib}
use codex_no.Proxy.Rewrite.{header_name, is_proxy_only, third_or, request_line}

abbrev pub is_forwarded : Text → Bool
is_forwarded line = not (is_empty line) && not (is_proxy_only line)

-- Every forwarded line has a name that is not one of the two, in any spelling.
abbrev pub IsForServer : Text → Type 0
IsForServer line =
    (to_ascii_lowercase (header_name line) ≢ codes "proxy-authorization")
    × (to_ascii_lowercase (header_name line) ≢ codes "proxy-connection")

module _ (U : UrlLib) (url : U.Url) where
  -- The `url` crate percent-encodes the path and the query, so that they hold no line feed.
  abbrev pub IsOneLine : Type 0
  IsOneLine = NoneOf is_lf (U.path url) × NoneOf is_lf (or_else (U.query url) [])

  -- What the server reads: the request line in origin form, the forwarded lines of `rest` in their
  -- order, and the empty line that ends the header.
  abbrev pub ReadsAs : Text → Text → Type 0
  ReadsAs header out =
      (first method absolute : Text) × (rest more : List Text) × (lines header ≡ first ∷ rest)
      × (split_whitespace first ≡ method ∷ absolute ∷ more)
      × (lines out
          ≡ request_line U method (third_or (method ∷ absolute ∷ more) (codes "HTTP/1.1")) url
            ∷ (keep_if is_forwarded rest ++ [] ∷ []))
      × All IsForServer (keep_if is_forwarded rest)
