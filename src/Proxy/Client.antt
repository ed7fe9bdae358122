-- ===== src/Proxy/Client.antt =====
-- crates/cng-core/src/proxy.rs: `handle_client`, one connection of the relay from its first byte to
-- the raw tunnel.
pub mod Privacy
use codex_no.Base.{
  ℕ, ◌+◌, ◌-◌, ◌/◌, Bool, true, false, not, ◌||◌, true, false, Option, none, some, List, [], ◌∷◌,
  ◌++◌, map, ◌==◌, if◌then◌else◌, or_else,
}
use codex_no.Base.Text.{
  Text, codes, is_empty, trim_if, split_whitespace, lines, eq_ignore_ascii_case,
}
use codex_no.Base.Results.{Result, ok, err}
use codex_no.Base.Utf8.{encode_utf8, from_utf8}
use codex_no.Url.{UrlLib}
use codex_no.Proxy.Header.{Bytes, HeaderRead, read_http_header}
use codex_no.Proxy.Errors.{redact_error, proxy_error}
use codex_no.Proxy.Tunnel.{Stream, write_all, first_of_list}
use codex_no.Proxy.Runtime.{ProxyRuntime}
use codex_no.Proxy.Connect.{Dial, Outside, connect_for_runtime}
use codex_no.Proxy.Rewrite.{rewrite_plain_http_header}

-- What a connection does, in order: bytes to the client, a dial, bytes to the upstream, and the
-- copying in both directions until an end closes.
pub data Effect (U : UrlLib) : Type 0 where
  to_client : Bytes → Effect U
  dial : Dial U → Effect U
  to_upstream : Bytes → Effect U
  relay : Effect U

pub record Session (U : UrlLib) : Type 0 where
  pub effects : List (Effect U)
  pub outcome : Result (Unit {0})

-- `http::uri::Authority`: the host as `host()` gives it, and the port.
abbrev pub AuthorityParser : Type 0
AuthorityParser = Text → Option (Text × Option ℕ)

unfoldable pub parse_authority : AuthorityParser → Text → ℕ → Result (Text × ℕ)
unfolding trim_if
parse_authority parser value default_port = elim (parser value) [
  | none ↦ err (codes "invalid CONNECT authority")
  | some (host, port) ↦ ok (trim_if (λ c. c == b'[' || c == b']') host, or_else port default_port)
]

abbrev pub second_or : List Text → Text → Text
second_or (x ∷ y ∷ r) d = y
second_or _ d = d

-- The state of the relay at the moments when the connection reads it.
pub record Moments (U : UrlLib) : Type 0 where
  pub begin : ProxyRuntime U
  pub connecting : ProxyRuntime U
  pub exhausted : ProxyRuntime U

module _ (U : UrlLib) where
  abbrev pub before : List (Effect U) → Session U → Session U
  before es s = record s { effects = es ++ s.effects }

  abbrev pub fail : Text → Session U
  fail e = record { effects = []; outcome = err e }

  -- A write to the client, and what follows if it succeeds.
  unfoldable pub send_client : Stream → Bytes → Session U → Session U
  send_client client bytes rest = elim (write_all client bytes) [
    | ok s ↦ before (to_client bytes ∷ []) rest
    | err e ↦ fail e
  ]

  unfoldable pub send_upstream : Stream → Bytes → Session U → Session U
  send_upstream upstream bytes rest = elim (write_all upstream bytes) [
    | ok s ↦ before (to_upstream bytes ∷ []) rest
    | err e ↦ fail e
  ]

  -- `write_proxy_error`, and the outcome behind it.
  unfoldable pub write_proxy_error : Stream → ℕ → Text → Result (Unit {0}) → Session U
  write_proxy_error client status message outcome =
      send_client client (encode_utf8 (proxy_error status message))
        (record { effects = []; outcome = outcome })

  -- What was read behind the header, and the copying.
  unfoldable pub pass_on : Stream → Bytes → Session U
  pass_on upstream extra =
      let copying : Session U = record { effects = relay ∷ []; outcome = ok tt } in
      if is_empty extra then copying else send_upstream upstream extra copying

  module _ (w : Outside U) (parser : AuthorityParser) (client : Stream) (m : Moments U) where
    unfoldable pub route : Text → ℕ → (Stream → Session U) → Session U
    route host port established =
        let routing = connect_for_runtime U w host port m.connecting m.exhausted in
        before (map dial routing.dials) (elim routing.outcome [
          | ok (candidate, upstream) ↦ established upstream
          | err e ↦ write_proxy_error client 502 (redact_error w.redactor e) (err e)
        ])

    unfoldable pub handle_connect : Text → Bytes → Session U
    handle_connect target extra = elim (parse_authority parser target 443) [
      | err e ↦ fail e
      | ok (host, port) ↦ route host port λ upstream.
          send_client client
            (encode_utf8 (codes "HTTP/1.1 200 Connection Established" ++ (13 ∷ 10 ∷ 13 ∷ 10 ∷ [])))
            (pass_on upstream extra)
    ]

    -- With a rewritten header, or its error.
    unfoldable pub forward_plain : Result Text → Bytes → Stream → Session U
    forward_plain (err e) extra upstream = fail e
    forward_plain (ok rewritten) extra upstream =
        send_upstream upstream (encode_utf8 rewritten) (pass_on upstream extra)

    unfoldable pub handle_plain : Text → Text → Bytes → Session U
    handle_plain text target extra = elim (U.parse target) [
      | none ↦ fail (codes "plain HTTP proxy request must use an absolute URL")
      | some url ↦ elim (U.host_str url) [
        | none ↦ fail (codes "HTTP request URL has no host")
        | some host ↦
            route host (or_else (U.port_or_known_default url) 80)
              (forward_plain (rewrite_plain_http_header U text url) extra)
      ]
    ]

    -- Whether the method is `CONNECT` decides.
    unfoldable pub handle_method : Bool → Text → Text → Bytes → Session U
    handle_method true text target extra = handle_connect target extra
    handle_method false text target extra = handle_plain text target extra

    unfoldable pub handle_request : Text → Bytes → Session U
    handle_request text extra = elim (first_of_list (lines text)) [
      | none ↦ fail (codes "missing proxy request line")
      | some first_line ↦
          let words = split_whitespace first_line in
          let method = or_else (first_of_list words) [] in
          let target = second_or words [] in
          handle_method (eq_ignore_ascii_case method (codes "CONNECT")) text target extra
    ]

    unfoldable pub handle_header : Result HeaderRead → Session U
    handle_header (err e) = fail e
    handle_header (ok r) = elim (from_utf8 r.header) [
      | none ↦ fail (codes "proxy request header is not UTF-8")
      | some text ↦ handle_request text r.extra
    ]

    unfoldable pub handle_client : Session U
    handle_client =
        if m.begin.is_paused
        then write_proxy_error client 503 (codes "Codex Network Guard is paused") (ok tt)
        else handle_header (read_http_header client.incoming)
