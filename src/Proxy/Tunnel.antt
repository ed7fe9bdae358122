-- ===== src/Proxy/Tunnel.antt =====
-- crates/cng-core/src/proxy.rs: `connect_tunnel` and `http_connect`. Sockets, TLS, SOCKS5, base64
-- and percent decoding are of other crates, and enter as a record of functions.
pub mod Opened
mod Examples
use codex_no.Base.{
  ℕ, ◌+◌, ◌-◌, ◌*◌, Bool, ◌&&◌, Option, none, some, List, [], ◌∷◌, ◌++◌, ltb, leb, ◌==◌,
  if◌then◌else◌, or_else,
}
use codex_no.Base.Text.{Text, codes, is_empty, split_whitespace, lines, decimal}
use codex_no.Base.Results.{Result, ok, err, ◌>>=◌, ◌>>◌, ensure, or_fail, context}
use codex_no.Base.Utf8.{encode_utf8, from_utf8}
use codex_no.Proxy.Header.{Bytes, ReadEvent, read_http_header}
use codex_no.Proxy.Errors.{crlf}
use codex_no.Url.{UrlLib}
use codex_no.Model.{http, https, socks5}
use codex_no.Model.Candidate.{UpstreamCandidate, endpoint, has_credentials, authority_text}

-- A connection: what its reads will give, what was written to it, and the error that its writes
-- meet, if they fail.
pub record Stream : Type 0 where
  pub incoming : List ReadEvent
  pub sent : Bytes
  pub write_fault : Option Text

-- `write_all`.
unfoldable pub write_all : Stream → Bytes → Result Stream
write_all s bytes = elim s.write_fault [
  | none ↦ ok (record s { sent = s.sent ++ bytes })
  | some e ↦ err e
]

pub record Network : Type 0 where
  pub tcp_connect : Text → Result Stream
  pub is_server_name : Text → Bool
  pub has_native_roots : Bool
  pub tls_connect : Text → Stream → Result Stream
  -- Proxy address, credentials, target host and port.
  pub socks_connect : Text → Option (Text × Text) → Text → ℕ → Result Stream
  pub percent_decode : Text → Text
  pub base64 : Text → Text

-- A decimal number below 2 ^ 16, with an optional plus sign: `parse::<u16>`.
parse_digits : ℕ → Text → Option ℕ
parse_digits acc [] = some acc
parse_digits acc (c ∷ s) =
    let value = acc * 10 + (c - 48) in
    let rest = parse_digits value s in
    if leb 48 c && leb c 57 && ltb value 65536 then rest else none

unfoldable pub parse_u16 : Text → Option ℕ
unfolding parse_digits
parse_u16 [] = none
parse_u16 (c ∷ s) =
    if c == b'+' then (if is_empty s then none else parse_digits 0 s) else parse_digits 0 (c ∷ s)

abbrev pub first_of_list : List Text → Option Text
first_of_list [] = none
first_of_list (x ∷ xs) = some x

abbrev pub second_of_list : List Text → Option Text
second_of_list (x ∷ y ∷ r) = some y
second_of_list _ = none

-- The status of a response: the second word of its first line.
unfoldable pub status_of : Text → Option ℕ
unfolding lines split_whitespace parse_u16
status_of response = elim (first_of_list (lines response)) [
  | none ↦ none
  | some line ↦ elim (second_of_list (split_whitespace line)) [
    | none ↦ none
    | some word ↦ parse_u16 word
  ]
]

module _ (U : UrlLib) (net : Network) where
  open net use {
    tcp_connect, is_server_name, has_native_roots, tls_connect, socks_connect, percent_decode,
    base64,
  }

  credentials : UpstreamCandidate U → Text × Text
  credentials c =
      (percent_decode (U.username c.url), percent_decode (or_else (U.password c.url) []))

  unfoldable pub connect_request : UpstreamCandidate U → Text → ℕ → Text
  unfolding credentials authority_text has_credentials
  connect_request c host port =
      let authority = authority_text host port in
      let (user, secret) = credentials c in
      let authorization =
        if has_credentials U c
        then codes "Proxy-Authorization: Basic " ++ (base64 (user ++ (codes ":" ++ secret)) ++ crlf)
        else [] in
      codes "CONNECT "
      ++ (authority
          ++ (codes " HTTP/1.1"
              ++ (crlf
                  ++ (codes "Host: "
                      ++ (authority
                          ++ (crlf
                              ++ (codes "Proxy-Connection: Keep-Alive"
                                  ++ (crlf ++ (authorization ++ crlf)))))))))

  unfoldable pub http_connect : Stream → UpstreamCandidate U → Text → ℕ → Result Stream
  http_connect stream c host port = do
    asked ← write_all stream (encode_utf8 (connect_request c host port))
    reply ← read_http_header asked.incoming
    response ← or_fail (from_utf8 reply.header) (codes "proxy response is not UTF-8")
    status ← or_fail (status_of response) (codes "proxy returned an invalid status line")
    ensure (status == 200) (codes "proxy CONNECT returned HTTP " ++ decimal status)
    ensure (is_empty reply.extra) (codes "proxy sent unexpected bytes after CONNECT response")
    ok (record asked { incoming = reply.later })

  connect_http : UpstreamCandidate U → Text → ℕ → Result Stream
  unfolding http_connect
  connect_http c host port = do
    address ← or_fail (endpoint U c) (codes "proxy endpoint is incomplete")
    stream ← context (tcp_connect address) (codes "connect to HTTP proxy")
    http_connect stream c host port

  connect_https : UpstreamCandidate U → Text → ℕ → Result Stream
  unfolding http_connect
  connect_https c host port = do
    address ← or_fail (endpoint U c) (codes "proxy endpoint is incomplete")
    stream ← context (tcp_connect address) (codes "connect to HTTPS proxy")
    proxy_host ← or_fail (U.host_str c.url) (codes "HTTPS proxy has no host")
    ensure (is_server_name proxy_host) (codes "invalid HTTPS proxy server name")
    ensure has_native_roots (codes "no native root certificates are available")
    secure ← context (tls_connect proxy_host stream) (codes "TLS handshake with HTTPS proxy")
    http_connect secure c host port

  connect_socks : UpstreamCandidate U → Text → ℕ → Result Stream
  unfolding credentials
  connect_socks c host port = do
    address ← or_fail (endpoint U c) (codes "SOCKS5 endpoint is incomplete")
    (if has_credentials U c
        then context (socks_connect address (some (credentials c)) host port)
            (codes "SOCKS5 authenticated connect")
        else context (socks_connect address none host port) (codes "SOCKS5 connect"))

  unfoldable pub connect_tunnel : UpstreamCandidate U → Text → ℕ → Result Stream
  unfolding connect_http connect_https connect_socks
  connect_tunnel c host port = elim c.kind [
    | http ↦ connect_http c host port
    | https ↦ connect_https c host port
    | socks5 ↦ connect_socks c host port
  ]
