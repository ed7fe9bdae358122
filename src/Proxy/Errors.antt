-- ===== src/Proxy/Errors.antt =====
-- crates/cng-core/src/proxy.rs: `redact_error`, and the answer that a client gets on an error.
pub mod Response
use codex_no.Base.{ℕ, ◌||◌, Option, none, some, [], ◌∷◌, ◌++◌, ◌==◌, length}
use codex_no.Base.Text.{Text, codes, decimal, replace, replace_if}
use codex_no.Base.Utf8.{encode_utf8}

-- What `redact_error` takes from outside: the replacement of `user@` behind a proxy scheme by the
-- `regex` crate, and the user's home directory, if there is one.
pub record Redactor : Type 0 where
  pub hide_credentials : Text → Text
  pub home_dir : Option Text

unfoldable pub redact_error : Redactor → Text → Text
unfolding replace
redact_error r value =
    let redacted = r.hide_credentials value in
    elim r.home_dir [ none ↦ redacted | some home ↦ replace home (codes "~") redacted ]

abbrev pub crlf : Text
crlf = 13 ∷ 10 ∷ []

-- `message.replace(['\r', '\n'], " ")`.
unfoldable pub one_line : Text → Text
unfolding replace_if
one_line message = replace_if (λ c. c == 13 || c == 10) (codes " ") message

unfoldable pub error_body : Text → Text
unfolding one_line
error_body message = codes "Codex Network Guard: " ++ (one_line message ++ 10 ∷ [])

unfoldable pub status_line : ℕ → Text
unfolding decimal
status_line status = codes "HTTP/1.1 " ++ (decimal status ++ codes " Bad Gateway")

unfoldable pub length_line : ℕ → Text
unfolding decimal
length_line size = codes "Content-Length: " ++ decimal size

abbrev pub type_line : Text
type_line = codes "Content-Type: text/plain; charset=utf-8"

abbrev pub close_line : Text
close_line = codes "Connection: close"

-- The text that `write_proxy_error` sends: four lines, an empty one, and the body, whose size is
-- given in bytes.
unfoldable pub proxy_error : ℕ → Text → Text
proxy_error status message =
    let body = error_body message in
    status_line status
    ++ (crlf
        ++ (type_line
            ++ (crlf
                ++ (length_line (length (encode_utf8 body))
                    ++ (crlf ++ (close_line ++ (crlf ++ (crlf ++ body))))))))
