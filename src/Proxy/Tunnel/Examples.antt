-- ===== src/Proxy/Tunnel/Examples.antt =====
-- crates/cng-core/src/proxy.rs: a proxy that accepts a tunnel in two chunks, and the theorems there.
use codex_no.Proxy.Header.{
  Bytes, ReadEvent, chunk, find_header_end, read_http_header, max_header_bytes,
}
use codex_no.Proxy.Header.Reads.{bytes_of}
use codex_no.Proxy.Errors.{crlf}
use codex_no.Proxy.Tunnel.{Network, Stream, http_connect, connect_request, status_of, write_all}
use codex_no.Proxy.Tunnel.Opened.{
  IsAccepted, IsOpened, http_connect-IsOpened, http_connect-of_IsAccepted,
}
use codex_no.Model.{manual, http}
use codex_no.Model.Candidate.{UpstreamCandidate}
use codex_no.Base.{◌≡◌, refl, true, none, some, List, [], ◌∷◌, ◌++◌, map, leb→le}
use codex_no.Base.Text.{codes}
use codex_no.Base.Utf8.{encode_utf8, from_utf8}
use codex_no.Base.Results.{ok, err}
use codex_no.Url.Sample.{sample_lib, plain}

abbrev proxy : UpstreamCandidate sample_lib
proxy = record {
  id = codes "0:0:http://10.0.0.2:8080";
  kind = http;
  source = manual;
  url = plain (codes "http") (codes "10.0.0.2") (some 8080);
  label = codes "office";
}

abbrev network : Network
network = record {
  tcp_connect = λ a. err (codes "refused");
  is_server_name = λ n. true;
  has_native_roots = true;
  tls_connect = λ n s. err (codes "refused");
  socks_connect = λ a c h p. err (codes "refused");
  percent_decode = λ t. t;
  base64 = λ t. t;
}

abbrev answer : List Bytes
answer = (codes "HTTP/1.1 200 OK" ++ crlf) ∷ crlf ∷ []

-- The first bytes of the target follow in a chunk of their own.
abbrev behind : List ReadEvent
behind = chunk (22 ∷ 3 ∷ []) ∷ []

abbrev socket : Stream
socket = record { incoming = map chunk answer ++ behind; sent = []; write_fault = none }

accepted : IsAccepted (bytes_of answer)
unfolding find_header_end from_utf8 status_of
accepted = (leb→le _ max_header_bytes refl, refl, (_, refl, refl))

abbrev tunnel : Stream
tunnel = record {
  incoming = behind;
  sent = encode_utf8 (connect_request sample_lib network proxy (codes "chatgpt.com") 443);
  write_fault = none;
}

http_connect-of_IsAccepted_example :
    (unread : List Bytes) × (bytes_of unread ≡ [])
    × (http_connect sample_lib network socket proxy (codes "chatgpt.com") 443
        ≡ ok (record socket {
          incoming = map chunk unread ++ behind;
          sent =
              socket.sent
              ++ encode_utf8 (connect_request sample_lib network proxy (codes "chatgpt.com") 443);
        }))
http_connect-of_IsAccepted_example =
    http_connect-of_IsAccepted sample_lib network proxy (codes "chatgpt.com") 443 socket answer
      behind refl refl (refl, (refl, tt)) accepted

tunnel_lem : http_connect sample_lib network socket proxy (codes "chatgpt.com") 443 ≡ ok tunnel
unfolding http_connect write_all read_http_header find_header_end from_utf8 status_of
tunnel_lem = refl

http_connect-IsOpened_example :
    IsOpened sample_lib network proxy (codes "chatgpt.com") 443 socket tunnel
http_connect-IsOpened_example =
    http_connect-IsOpened sample_lib network proxy (codes "chatgpt.com") 443 socket tunnel
      tunnel_lem
