-- ===== src/Proxy/Health.antt =====
-- crates/cng-core/src/proxy.rs: probing the candidates.
pub mod Grace
pub mod Refresh
use codex_no.Base.{
  ℕ, ◌+◌, ◌-◌, ◌/◌, Bool, false, not, ◌&&◌, ◌||◌, Option, none, some, List, [], ◌∷◌, ◌++◌, map, ltb,
  leb, if◌then◌else◌,
}
use codex_no.Base.Text.{Text, codes, text_eq, decimal}
use codex_no.Base.Results.{Result, ok, err, ◌>>=◌, ◌>>◌, ensure, or_fail, context}
use codex_no.Base.Utf8.{encode_utf8, from_utf8}
use codex_no.Url.{UrlLib}
use codex_no.Model.{HealthState, healthy, degraded, down, is_healthy, is_degraded}
use codex_no.Model.Candidate.{UpstreamCandidate}
use codex_no.Model.Health.{CandidateHealth, sort_candidates}
use codex_no.Diagnostics.{classify_error_text}
use codex_no.Proxy.Errors.{Redactor, redact_error, crlf}
use codex_no.Proxy.Header.{read_http_header}
use codex_no.Proxy.Tunnel.{Network, write_all, connect_tunnel, status_of}

abbrev pub probe_host : Text
probe_host = codes "chatgpt.com"

abbrev pub u32_max : ℕ
u32_max = 4294967295

-- `saturating_add(1)` on a `u32`.
unfoldable pub saturating_suc : ℕ → ℕ
saturating_suc n = if ltb n u32_max then n + 1 else u32_max

-- The world outside a round of probes: the network, whether a probe outlasts a limit in
-- milliseconds, how long it takes, and the clock when it ends.
pub record Probing (U : UrlLib) : Type 0 where
  pub network : Network
  pub is_late : UpstreamCandidate U → ℕ → Bool
  pub elapsed_ms : UpstreamCandidate U → ℕ
  pub now : UpstreamCandidate U → ℕ
  pub redactor : Redactor

unfoldable pub probe_request : Text
probe_request =
    codes "GET /backend-api/codex HTTP/1.1"
    ++ (crlf
        ++ (codes "Host: chatgpt.com"
            ++ (crlf
                ++ (codes "Connection: Upgrade"
                    ++ (crlf
                        ++ (codes "Upgrade: websocket"
                            ++ (crlf
                                ++ (codes "Sec-WebSocket-Version: 13"
                                    ++ (crlf
                                        ++ (codes "Sec-WebSocket-Key: Y25nLXJvdXRlLXByb2Jl"
                                            ++ (crlf
                                                ++ (codes "User-Agent: codex-network-guard/0.1"
                                                    ++ (crlf ++ crlf)))))))))))))

module _ (U : UrlLib) where
  unfoldable pub failures_after : Option (CandidateHealth U) → ℕ
  unfolding saturating_suc
  failures_after none = 1
  failures_after (some old) = saturating_suc old.consecutive_failures

  -- The previous state was `Healthy` or `Degraded`.
  unfoldable pub was_working : Option (CandidateHealth U) → Bool
  unfolding is_healthy is_degraded
  was_working none = false
  was_working (some old) = is_healthy old.state || is_degraded old.state

  unfoldable pub state_after : Option (CandidateHealth U) → HealthState
  unfolding was_working failures_after
  state_after previous =
      if was_working previous && ltb (failures_after previous) 2 then degraded else down

  -- The map from ids to the previous results: a later entry replaces an earlier one with its id.
  unfoldable pub previous_of : List (CandidateHealth U) → Text → Option (CandidateHealth U)
  unfolding text_eq
  previous_of [] id = none
  previous_of (h ∷ hs) id = elim (previous_of hs id) [
    | some later ↦ some later
    | none ↦ if text_eq h.candidate.id id then some h else none
  ]

module _ (U : UrlLib) (w : Probing U) where
  -- Any well-formed HTTP status proves that the route works.
  unfoldable pub probe_codex_route : UpstreamCandidate U → Result (Unit {0})
  probe_codex_route c = do
    stream ← connect_tunnel U w.network c probe_host 443
    ensure w.network.has_native_roots (codes "no native root certificates are available")
    ensure (w.network.is_server_name probe_host) (codes "invalid Codex probe host")
    secure ← context (w.network.tls_connect probe_host stream) (codes "TLS handshake through proxy")
    asked ← write_all secure (encode_utf8 probe_request)
    reply ← read_http_header asked.incoming
    response ← or_fail (from_utf8 reply.header) (codes "Codex probe response is not UTF-8")
    status ← or_fail (status_of response) (codes "Codex probe returned an invalid HTTP response")
    ensure (leb 100 status && ltb status 600) (codes "Codex probe returned HTTP " ++ decimal status)

  -- `none` is a probe that succeeds; otherwise the detail of its failure.
  unfoldable pub probe_detail : ℕ → UpstreamCandidate U → Option Text
  probe_detail limit c =
      if w.is_late c limit
      then some (codes "connection timed out")
      else elim (probe_codex_route c) [ ok u ↦ none | err e ↦ some (redact_error w.redactor e) ]

  unfoldable pub check_candidate :
      ℕ → UpstreamCandidate U → Option (CandidateHealth U) → CandidateHealth U
  unfolding state_after
  check_candidate limit c previous = elim (probe_detail limit c) [
    | none ↦ record {
      candidate = c;
      state = healthy;
      latency_ms = some (w.elapsed_ms c);
      checked_at = w.now c;
      consecutive_failures = 0;
      failure = none;
      detail = none;
    }
    | some detail ↦ record {
      candidate = c;
      state = state_after U previous;
      latency_ms = none;
      checked_at = w.now c;
      consecutive_failures = failures_after U previous;
      failure = some (classify_error_text detail);
      detail = some detail;
    }
  ]

  unfoldable pub refresh_health :
      List (UpstreamCandidate U) → List (CandidateHealth U) → ℕ → List (CandidateHealth U)
  unfolding previous_of sort_candidates
  refresh_health candidates previous limit =
      sort_candidates U
        (map (λ c. check_candidate limit c (previous_of U previous c.id)) candidates)
