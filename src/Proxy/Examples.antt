-- ===== src/Proxy/Examples.antt =====
-- crates/cng-core/src/proxy.rs: one small world to run the relay in, and the theorems there.
use codex_no.Proxy.Errors.Response.{lines-proxy_error, body_line}
use codex_no.Base.Results.{ok, err}
use codex_no.Base.Utf8.{encode_utf8}
use codex_no.Model.Order.{IsOrdered}
use codex_no.Proxy.Health.Refresh.{refresh_health-IsOrdered, IsCheckOf}
use mathlib.Core.List.{Perm, Forall₂}
use codex_no.Proxy.Health.Grace.{health_after, health_after-Follows, Follows}
use codex_no.Model.Health.{unknown_health, CandidateHealth}
use codex_no.Proxy.Health.{refresh_health, check_candidate, Probing}
use codex_no.Proxy.Header.Reads.{
  read_http_header-Delivers, IsHeaderEnd, read_http_header-Explains, bytes_of, Delivers, Explains,
}
use codex_no.Proxy.Header.{chunk, Bytes, HeaderRead, find_header_end, read_http_header}
use codex_no.Proxy.Connect.Routes.{connect_for_runtime-IsRouted, usable, IsRouted}
use codex_no.Proxy.Client.Privacy.{handle_client-ArePermitted, ArePermitted}
use codex_no.Proxy.Client.{handle_client, Moments, AuthorityParser}
use codex_no.Proxy.Runtime.{ProxyRuntime}
use codex_no.Proxy.Connect.{connect_for_runtime, Outside}
use codex_no.Proxy.Tunnel.{Stream, Network}
use codex_no.Proxy.Errors.{
  close_line, error_body, length_line, type_line, status_line, Redactor, crlf, proxy_error,
}
use codex_no.Model.{manual, healthy, http, down, HealthState}
use codex_no.Model.Candidate.{UpstreamCandidate}
use codex_no.Base.{
  ◌≡◌, refl, Bool, true, false, not, none, some, List, [], ◌∷◌, ◌++◌, map, arith, length,
}
use codex_no.Base.Text.{Text, codes, starts_with, find, lines}
use codex_no.Url.Sample.{sample_lib, plain}

abbrev http_url : sample_lib.Url
http_url = plain (codes "http") (codes "127.0.0.1") (some 7890)

abbrev local_proxy : UpstreamCandidate sample_lib
local_proxy = record {
  id = codes "0:0:http://127.0.0.1:7890";
  kind = http;
  source = manual;
  url = http_url;
  label = codes "v2rayN";
}

abbrev health_of : HealthState → CandidateHealth sample_lib
health_of s = record (unknown_health sample_lib 0 local_proxy) { state = s }

abbrev two_lines : Text → Text
two_lines first = first ++ (crlf ++ crlf)

abbrev answering : Text → Stream
answering reply = record { incoming = chunk (two_lines reply) ∷ []; sent = []; write_fault = none }

abbrev network : Network
network = record {
  tcp_connect = λ a. ok (answering (codes "HTTP/1.1 200 OK"));
  is_server_name = λ n. true;
  has_native_roots = true;
  tls_connect = λ n s. ok (answering (codes "HTTP/1.1 426 Upgrade Required"));
  socks_connect = λ a c h p. err (codes "refused");
  percent_decode = λ t. t;
  base64 = λ t. t;
}

abbrev redactor : Redactor
redactor = record { hide_credentials = λ t. t; home_dir = some (codes "/home/user") }

abbrev world : Outside sample_lib
world = record {
  network = network;
  is_slow = λ d h p l. false;
  direct_connect = λ h p. err (codes "refused");
  redactor = redactor;
}

abbrev running : ProxyRuntime sample_lib
running = record {
  candidates = health_of down ∷ health_of healthy ∷ [];
  is_paused = false;
  direct_fallback = false;
  connect_timeout = 2500;
}

abbrev moments : Moments sample_lib
moments = record { begin = running; connecting = running; exhausted = running }

abbrev chatgpt : Text
chatgpt = codes "chatgpt.com"

abbrev parser : AuthorityParser
parser t = some (chatgpt, some 443)

abbrev client : Stream
client = answering (codes "CONNECT chatgpt.com:443 HTTP/1.1")

handle_client-ArePermitted_example :
    ArePermitted sample_lib moments (handle_client sample_lib world parser client moments)
handle_client-ArePermitted_example =
    handle_client-ArePermitted sample_lib moments world parser client

connect_for_runtime-IsRouted_example :
    IsRouted sample_lib world chatgpt 443 2500 false
      (usable sample_lib world chatgpt 443 running.candidates)
      (connect_for_runtime sample_lib world chatgpt 443 running running)
connect_for_runtime-IsRouted_example =
    connect_for_runtime-IsRouted sample_lib world chatgpt 443 running running

-- A header in two chunks, the second of which holds a byte of what follows.
abbrev two_chunks : List Bytes
two_chunks = (65 ∷ 13 ∷ 10 ∷ []) ∷ (13 ∷ 10 ∷ 66 ∷ []) ∷ []

found_lem : find_header_end (bytes_of two_chunks) ≡ some 5
unfolding find_header_end find starts_with
found_lem = refl

read_http_header-Delivers_example :
    Delivers (bytes_of two_chunks) 5 (read_http_header (map chunk two_chunks ++ [])) []
    × IsHeaderEnd (bytes_of two_chunks) 5
read_http_header-Delivers_example =
    read_http_header-Delivers two_chunks [] 5 (refl, (refl, tt)) (omega arith) found_lem

abbrev header_read : HeaderRead
header_read = record { header = 65 ∷ 13 ∷ 10 ∷ 13 ∷ 10 ∷ []; extra = 66 ∷ []; later = [] }

read_lem : read_http_header (map chunk two_chunks) ≡ ok header_read
unfolding read_http_header find_header_end find starts_with
read_lem = refl

read_http_header-Explains_example : Explains [] (map chunk two_chunks) header_read
read_http_header-Explains_example =
    read_http_header-Explains (map chunk two_chunks) header_read read_lem

abbrev get_request : Text
get_request =
    codes "GET http://a.test/ HTTP/1.1"
    ++ (crlf
        ++ (codes "PROXY-Authorization: x" ++ (crlf ++ (codes "Host: a.test" ++ (crlf ++ crlf)))))

abbrev rewritten : Text
rewritten = codes "GET / HTTP/1.1" ++ (crlf ++ (codes "Host: a.test" ++ (crlf ++ crlf)))

lines-proxy_error_example :
    lines (proxy_error 502 (codes "no route" ++ crlf))
    ≡ status_line 502
      ∷ type_line
      ∷ length_line (length (encode_utf8 (error_body (codes "no route" ++ crlf))))
      ∷ close_line
      ∷ []
      ∷ body_line (codes "no route" ++ crlf)
      ∷ []
lines-proxy_error_example = lines-proxy_error 502 (codes "no route" ++ crlf)

abbrev reachable : Bool → Probing sample_lib
reachable b = record {
  network = network;
  is_late = λ c limit. not b;
  elapsed_ms = λ c. 12;
  now = λ c. 100;
  redactor = redactor;
}

-- Newest first: two timeouts after a success.
abbrev rounds : List (Probing sample_lib)
rounds = reachable false ∷ reachable false ∷ reachable true ∷ []

abbrev last_health : CandidateHealth sample_lib
last_health =
    check_candidate sample_lib (reachable false) 2500 local_proxy
      (health_after sample_lib 2500 local_proxy (reachable false ∷ reachable true ∷ []))

rounds_lem : health_after sample_lib 2500 local_proxy rounds ≡ some last_health
unfolding health_after
rounds_lem = refl

health_after-Follows_example : Follows sample_lib 2500 local_proxy rounds last_health
health_after-Follows_example =
    health_after-Follows sample_lib 2500 local_proxy rounds last_health rounds_lem

refresh_health-IsOrdered_example :
    (checks : List (CandidateHealth sample_lib)) × Forall₂
      (IsCheckOf sample_lib (reachable true) 2500 (health_of down ∷ []))
      (local_proxy ∷ [])
      checks
    × Perm
        (refresh_health sample_lib (reachable true) (local_proxy ∷ []) (health_of down ∷ []) 2500)
        checks
    × IsOrdered sample_lib
        (refresh_health sample_lib (reachable true) (local_proxy ∷ []) (health_of down ∷ []) 2500)
refresh_health-IsOrdered_example =
    refresh_health-IsOrdered sample_lib (reachable true) 2500 (local_proxy ∷ [])
      (health_of down ∷ [])
