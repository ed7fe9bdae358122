-- ===== src/Proxy/Errors/Response.antt =====
-- crates/cng-core/src/proxy.rs: what a client reads in the answer of `write_proxy_error`.
use codex_no.Base.Text.Lines.{NoneOf-append, lines-line, lines-last, NoneOf, is_lf, is_cr}
use codex_no.Base.{
  ◌++◌, All-append, ◌∙◌, append_assoc, length, sym, ap, ℕ, zero, suc, ◌+◌, ◌/◌, ◌%◌, ◌≡◌, refl, inl,
  inr, false, ◌||◌, [], ◌∷◌, arith, ltb, ◌==◌, Bool-cases,
}
use codex_no.Base.Text.{lines, codes, Text, decimal, replace_if, decimal_from}
use codex_no.Proxy.Errors.{
  close_line, encode_utf8, type_line, crlf, error_body, length_line, status_line, proxy_error,
  one_line,
}

-- No character of the text is a line break of any kind.
abbrev pub IsUnbroken : Text → Type 0
IsUnbroken s = NoneOf is_lf s × NoneOf is_cr s

one_line-NoneOf : (s : Text) → IsUnbroken (one_line s)
unfolding one_line
one_line-NoneOf [] = (tt, tt)
one_line-NoneOf (c ∷ s) = elim (Bool-cases (c == 13 || c == 10)) [
  | inl e ↦ rw (e, replace_if) ((refl, (one_line-NoneOf s).0), (refl, (one_line-NoneOf s).1))
  | inr e ↦
      rw (e, replace_if)
        ((ground arith, (one_line-NoneOf s).0), (ground arith, (one_line-NoneOf s).1))
]

digits-NoneOf : (f n : ℕ) (acc : Text) → NoneOf is_lf acc → NoneOf is_lf (decimal_from f n acc)
unfolding decimal_from
digits-NoneOf zero n acc h = h
digits-NoneOf (suc f) n acc h =
    let digit : is_lf (48 + n % 10) ≡ false = ground arith in
    elim (Bool-cases (ltb n 10)) [
      | inl e ↦ rw (e, decimal_from) (digit, h)
      | inr e ↦ rw (e, decimal_from) (digits-NoneOf f (n / 10) ((48 + n % 10) ∷ acc) (digit, h))
    ]

pub decimal-NoneOf : (n : ℕ) → NoneOf is_lf (decimal n)
unfolding decimal
decimal-NoneOf n = digits-NoneOf (suc n) n [] tt

status_line-NoneOf : (n : ℕ) → NoneOf is_lf (status_line n)
unfolding status_line
status_line-NoneOf n =
    NoneOf-append is_lf (codes "HTTP/1.1 ") _ (ground arith)
      (NoneOf-append is_lf (decimal n) (codes " Bad Gateway") (decimal-NoneOf n) (ground arith))

length_line-NoneOf : (n : ℕ) → NoneOf is_lf (length_line n)
unfolding length_line
length_line-NoneOf n =
    NoneOf-append is_lf (codes "Content-Length: ") (decimal n) (ground arith) (decimal-NoneOf n)

-- The line of the body.
abbrev pub body_line : Text → Text
body_line message = codes "Codex Network Guard: " ++ one_line message

lines-error_body : (message : Text) → lines (error_body message) ≡ body_line message ∷ []
unfolding error_body
lines-error_body message =
    ap lines (sym (append_assoc (codes "Codex Network Guard: ") (one_line message) (10 ∷ [])))
    ∙ lines-last (body_line message)
        (NoneOf-append is_lf (codes "Codex Network Guard: ") (one_line message) (ground arith)
          (one_line-NoneOf message).0)
        (All-append (λ c. is_cr c ≡ false) (codes "Codex Network Guard: ") (one_line message)
          (ground arith) (one_line-NoneOf message).1)

lines-empty : (rest : Text) → lines (crlf ++ rest) ≡ [] ∷ lines rest
lines-empty rest = lines-line [] rest tt

-- Whatever the message holds, a client reads the answer as exactly six lines: the status line, the
-- three headers, of which `Content-Length` gives the number of bytes of the body that follows, the
-- empty line that ends the header, and one line of body; so no message adds a header or a second
-- response.
pub lines-proxy_error :
    (status : ℕ) (message : Text)
    → lines (proxy_error status message)
      ≡ status_line status
        ∷ type_line
        ∷ length_line (length (encode_utf8 (error_body message)))
        ∷ close_line
        ∷ []
        ∷ body_line message
        ∷ []
unfolding proxy_error
lines-proxy_error status message =
    let size = length (encode_utf8 (error_body message)) in
    lines-line (status_line status) _ (status_line-NoneOf status)
    ∙ ap (λ t. status_line status ∷ t)
        (lines-line type_line _ (ground arith)
          ∙ ap (λ t. type_line ∷ t)
              (lines-line (length_line size) _ (length_line-NoneOf size)
                ∙ ap (λ t. length_line size ∷ t)
                    (lines-line close_line _ (ground arith)
                      ∙ ap (λ t. close_line ∷ t)
                          (lines-empty (error_body message)
                            ∙ ap (λ t. [] ∷ t) (lines-error_body message)))))
