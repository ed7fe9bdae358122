-- ===== src/Proxy/Client/Privacy.antt =====
-- crates/cng-core/src/proxy.rs: what a connection of the relay can do at all.
use codex_no.Model.Candidate.{UpstreamCandidate}
use codex_no.Base.{
  or_else, [], true, false, refl, if◌then◌else◌, ℕ, ◌≡◌, inl, inr, Bool, Option, List, ◌∷◌, map,
  arith, Bool-cases, Option-cases, All, All-append,
}
use codex_no.Base.Text.{codes, split_whitespace, eq_ignore_ascii_case, Text, is_empty, lines}
use codex_no.Proxy.Errors.{redact_error}
use codex_no.Proxy.Connect.{Routing, connect_for_runtime, Dial, Outside}
use codex_no.Base.Results.{Result-cases, ok, err, Result}
use codex_no.Base.Utf8.{from_utf8}
use codex_no.Url.{UrlLib}
use codex_no.Proxy.Header.{read_http_header, HeaderRead, Bytes}
use codex_no.Proxy.Tunnel.{Stream, first_of_list}
use codex_no.Proxy.Connect.Allowed.{IsAllowed, dials-IsAllowed}
use codex_no.Proxy.Client.{
  handle_method, second_or, parse_authority, forward_plain, handle_plain, handle_request,
  handle_header, handle_client, AuthorityParser, handle_connect, write_proxy_error, Effect,
  to_client, dial, to_upstream, relay, Session, Moments, send_client, send_upstream, pass_on, route,
}
use codex_no.Proxy.Rewrite.{rewrite_plain_http_header}

module _ (U : UrlLib) (m : Moments U) where
  -- Answering the client is always permitted; all else only if the guard was not paused when the
  -- connection began, and a dial only through a candidate that is not down or, with the direct
  -- fallback on, to the target.
  abbrev pub IsPermitted : Effect U → Type 0
  IsPermitted (to_client bytes) = Unit
  IsPermitted (dial d) =
      (m.begin.is_paused ≡ false)
      × IsAllowed U m.connecting.candidates m.exhausted.direct_fallback d
  IsPermitted (to_upstream bytes) = m.begin.is_paused ≡ false
  IsPermitted relay = m.begin.is_paused ≡ false

  abbrev pub ArePermitted : Session U → Type 0
  ArePermitted s = All IsPermitted s.effects

  if-ArePermitted :
      (b : Bool) (s t : Session U)
      → (b ≡ true → ArePermitted s)
      → (b ≡ false → ArePermitted t)
      → ArePermitted (if b then s else t)
  if-ArePermitted true s t h k = h refl
  if-ArePermitted false s t h k = k refl

  send_client-ArePermitted :
      (client : Stream) (bytes : Bytes) (rest : Session U)
      → ArePermitted rest
      → ArePermitted (send_client U client bytes rest)
  unfolding send_client
  send_client-ArePermitted client bytes rest h = ground arith

  error-ArePermitted :
      (client : Stream) (status : ℕ) (message : Text) (outcome : Result (Unit {0}))
      → ArePermitted (write_proxy_error U client status message outcome)
  unfolding write_proxy_error
  error-ArePermitted client status message outcome = send_client-ArePermitted client _ _ tt

  -- The rest of a connection that began while the guard was not paused.
  module _ (running : m.begin.is_paused ≡ false) where
    send_upstream-ArePermitted :
        (upstream : Stream) (bytes : Bytes) (rest : Session U)
        → ArePermitted rest
        → ArePermitted (send_upstream U upstream bytes rest)
    unfolding send_upstream
    send_upstream-ArePermitted upstream bytes rest h = ground arith

    pass_on-ArePermitted :
        (upstream : Stream) (extra : Bytes) → ArePermitted (pass_on U upstream extra)
    unfolding pass_on
    pass_on-ArePermitted upstream extra = elim (Bool-cases (is_empty extra)) [
      | inl e ↦ rw (e, pass_on) (running, tt)
      | inr e ↦ rw (e, pass_on) (send_upstream-ArePermitted upstream extra _ (running, tt))
    ]

    dials-ArePermitted :
        (ds : List (Dial U))
        → All (IsAllowed U m.connecting.candidates m.exhausted.direct_fallback) ds
        → All IsPermitted (map dial ds)
    dials-ArePermitted [] h = tt
    dials-ArePermitted (d ∷ ds) (a, h) = ((running, a), dials-ArePermitted ds h)

    module _ (w : Outside U) (parser : AuthorityParser) (client : Stream) where
      route-ArePermitted :
          (host : Text) (port : ℕ) (established : Stream → Session U)
          → ((s : Stream) → ArePermitted (established s))
          → ArePermitted (route U w parser client m host port established)
      unfolding route
      route-ArePermitted host port established h =
          All-append IsPermitted (map dial routing.dials) _
            (dials-ArePermitted routing.dials
              (dials-IsAllowed U w host port m.connecting m.exhausted))
            (settled routing.outcome)
        where
          routing : Routing U
          routing = connect_for_runtime U w host port m.connecting m.exhausted

          settled :
              (o : Result (Option (UpstreamCandidate U) × Stream))
              → ArePermitted (elim o [
                | ok (candidate, upstream) ↦ established upstream
                | err e ↦ write_proxy_error U client 502 (redact_error w.redactor e) (err e)
              ])
          settled (ok (candidate, upstream)) = h upstream
          settled (err e) = error-ArePermitted client 502 (redact_error w.redactor e) (err e)

      handle_connect-ArePermitted :
          (target : Text) (extra : Bytes)
          → ArePermitted (handle_connect U w parser client m target extra)
      unfolding handle_connect
      handle_connect-ArePermitted target extra =
          elim (Result-cases (parse_authority parser target 443)) [
            | inr (msg, e) ↦ rw (e, handle_connect) tt
            | inl ((host, port), e) ↦
                rw (e, handle_connect)
                  (route-ArePermitted host port _
                    (λ s. send_client-ArePermitted client _ _ (pass_on-ArePermitted s extra)))
          ]

      forward_plain-ArePermitted :
          (rewritten : Result Text) (extra : Bytes) (s : Stream)
          → ArePermitted (forward_plain U w parser client m rewritten extra s)
      unfolding forward_plain
      forward_plain-ArePermitted (err e) extra s = tt
      forward_plain-ArePermitted (ok text) extra s =
          send_upstream-ArePermitted s _ _ (pass_on-ArePermitted s extra)

      handle_plain-ArePermitted :
          (text target : Text) (extra : Bytes)
          → ArePermitted (handle_plain U w parser client m text target extra)
      unfolding handle_plain
      handle_plain-ArePermitted text target extra = elim (Option-cases (U.parse target)) [
        | inl e ↦ rw (e, handle_plain) tt
        | inr (url, e) ↦ elim (Option-cases (U.host_str url)) [
          | inl h ↦ rw (e, h, handle_plain) tt
          | inr (host, h) ↦
              rw (e, h, handle_plain)
                (route-ArePermitted host _ _
                  (forward_plain-ArePermitted (rewrite_plain_http_header U text url) extra))
        ]
      ]

      handle_method-ArePermitted :
          (is_connect : Bool) (text target : Text) (extra : Bytes)
          → ArePermitted (handle_method U w parser client m is_connect text target extra)
      unfolding handle_method
      handle_method-ArePermitted true text target extra = handle_connect-ArePermitted target extra
      handle_method-ArePermitted false text target extra =
          handle_plain-ArePermitted text target extra

      handle_request-ArePermitted :
          (text : Text) (extra : Bytes)
          → ArePermitted (handle_request U w parser client m text extra)
      unfolding handle_request
      handle_request-ArePermitted text extra = elim (Option-cases (first_of_list (lines text))) [
        | inl e ↦ rw (e, handle_request) tt
        | inr (first_line, e) ↦
            rw (e, handle_request)
              (handle_method-ArePermitted
                (eq_ignore_ascii_case (or_else (first_of_list (split_whitespace first_line)) [])
                  (codes "CONNECT"))
                text (second_or (split_whitespace first_line) []) extra)
      ]

      handle_header-ArePermitted :
          (r : Result HeaderRead) → ArePermitted (handle_header U w parser client m r)
      unfolding handle_header
      handle_header-ArePermitted (err e) = tt
      handle_header-ArePermitted (ok r) = elim (Option-cases (from_utf8 r.header)) [
        | inl e ↦ rw (e, handle_header) tt
        | inr (text, e) ↦ rw (e, handle_header) (handle_request-ArePermitted text r.extra)
      ]

  -- Whatever a client sends and however the network behaves, a connection does nothing but answer the
  -- client if the guard was paused when it began; and otherwise it dials only candidates that are not
  -- down, and the target itself only if the direct fallback is on.
  pub handle_client-ArePermitted :
      (w : Outside U) (parser : AuthorityParser) (client : Stream)
      → ArePermitted (handle_client U w parser client m)
  unfolding handle_client
  handle_client-ArePermitted w parser client =
      if-ArePermitted m.begin.is_paused
        (write_proxy_error U client 503 (codes "Codex Network Guard is paused") (ok tt))
        (handle_header U w parser client m (read_http_header client.incoming))
        (λ e. error-ArePermitted client 503 _ (ok tt))
        (λ e. handle_header-ArePermitted e w parser client (read_http_header client.incoming))
