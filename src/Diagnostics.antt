-- ===== src/Diagnostics.antt =====
-- crates/cng-core/src/diagnostics.rs: `classify_error_text`.
pub mod Guidance
pub mod Logs
mod Examples
use codex_no.Base.{Bool, not, List, [], ◌∷◌, if◌then◌else◌, any_of}
use codex_no.Base.Text.{Text, codes, contains, lower, to_ascii_lowercase}
use codex_no.Model.{
  FailureClass, proxy_unavailable, dns, tls, proxy_protocol, web_socket, authentication, rate_limit,
  server, app_server_crash, tool_state, timeout, other,
}

unfoldable pub contains_any : Text → List Text → Bool
contains_any value needles = any_of (λ needle. contains needle value) needles

-- The phrases that tell a class, as the chain of tests lists them.
unfoldable pub phrases : FailureClass → List Text
phrases proxy_unavailable =
    codes "err_proxy_connection_failed"
    ∷ codes "connection refused"
    ∷ codes "no healthy proxy"
    ∷ codes "proxy unavailable"
    ∷ codes "proxy listener"
    ∷ []
phrases dns =
    codes "name or service not known" ∷ codes "dns" ∷ codes "eai_fail" ∷ codes "no such host" ∷ []
phrases tls =
    codes "certificate"
    ∷ codes "tls"
    ∷ codes "ssl"
    ∷ codes "unknown issuer"
    ∷ codes "invalid ca"
    ∷ []
phrases proxy_protocol =
    codes "proxy url scheme not supported"
    ∷ codes "proxy connect returned"
    ∷ codes "socks5"
    ∷ codes "proxy 407"
    ∷ []
phrases authentication =
    codes "401"
    ∷ codes "403"
    ∷ codes "unauthorized"
    ∷ codes "forbidden"
    ∷ codes "authentication"
    ∷ []
phrases rate_limit = codes "429" ∷ codes "rate limit" ∷ codes "usage limit" ∷ []
phrases server =
    codes "500" ∷ codes "502" ∷ codes "503" ∷ codes "504" ∷ codes "internal server error" ∷ []
phrases web_socket =
    codes "websocket" ∷ codes "connection closed normally" ∷ codes "switching protocols" ∷ []
phrases app_server_crash =
    codes "sigkill" ∷ codes "app_server_connection.closed" ∷ codes "child process to exit" ∷ []
phrases tool_state =
    codes "custom tool call output is missing"
    ∷ codes "unknown conversation"
    ∷ codes "tool state"
    ∷ []
phrases timeout = codes "timed out" ∷ codes "timeout" ∷ []
phrases other = []

-- The chain of tests; the phrases are looked for in the text in lower case.
unfoldable pub classify_error_text : Text → FailureClass
unfolding contains_any contains to_ascii_lowercase
classify_error_text value =
    let lower = to_ascii_lowercase value in
    if contains_any lower (phrases proxy_unavailable)
    then proxy_unavailable
    else if contains_any lower (phrases dns)
    then dns
    else if contains_any lower (phrases tls)
    then tls
    else if contains_any lower (phrases proxy_protocol)
    then proxy_protocol
    else if contains_any lower (phrases authentication)
    then authentication
    else if contains_any lower (phrases rate_limit)
    then rate_limit
    else if contains_any lower (phrases server)
    then server
    else if contains_any lower (phrases web_socket)
    then web_socket
    else if contains_any lower (phrases app_server_crash)
    then app_server_crash
    else if contains_any lower (phrases tool_state)
    then tool_state
    else if contains_any lower (phrases timeout)
    then timeout
    else other
