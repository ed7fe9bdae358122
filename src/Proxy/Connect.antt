-- ===== src/Proxy/Connect.antt =====
-- crates/cng-core/src/proxy.rs: `connect_for_runtime`, the choice of a route for a new connection.
pub mod Routes
pub mod Allowed
use codex_no.Base.{
  ℕ, ◌+◌, Bool, true, false, Option, none, some, List, [], ◌∷◌, ◌++◌, if◌then◌else◌,
}
use codex_no.Base.Text.{Text, codes, join}
use codex_no.Base.Results.{Result, ok, err}
use codex_no.Url.{UrlLib}
use codex_no.Model.{is_down}
use codex_no.Model.Candidate.{UpstreamCandidate}
use codex_no.Model.Health.{CandidateHealth}
use codex_no.Proxy.Errors.{Redactor, redact_error}
use codex_no.Proxy.Tunnel.{Network, Stream, connect_tunnel}
use codex_no.Proxy.Runtime.{ProxyRuntime}

-- Where a connection is opened: through a candidate, or straight to the target.
pub data Dial (U : UrlLib) : Type 0 where
  via : UpstreamCandidate U → Dial U
  straight : Dial U

-- The world outside a connection attempt: the network, and whether an attempt takes longer than a
-- number of milliseconds.
pub record Outside (U : UrlLib) : Type 0 where
  pub network : Network
  pub is_slow : Dial U → Text → ℕ → ℕ → Bool
  pub direct_connect : Text → ℕ → Result Stream
  pub redactor : Redactor

pub data Attempt : Type 0 where
  opened : Stream → Attempt
  refused : Text → Attempt
  timed_out : Attempt

-- A route and its stream, or the final error; and the dials that were made, in order.
pub record Routing (U : UrlLib) : Type 0 where
  pub dials : List (Dial U)
  pub outcome : Result (Option (UpstreamCandidate U) × Stream)

abbrev of_result : Result Stream → Attempt
of_result (ok s) = opened s
of_result (err e) = refused e

module _ (U : UrlLib) (w : Outside U) (host : Text) (port : ℕ) where
  -- `timeout(timeout_value, connect_tunnel(…))`.
  unfoldable pub attempt : ℕ → UpstreamCandidate U → Attempt
  attempt limit c =
      if w.is_slow (via c) host port limit
      then timed_out
      else of_result (connect_tunnel U w.network c host port)

  -- The direct fallback, or the list of errors.
  unfoldable pub fall_back : ℕ → Bool → List Text → Routing U
  fall_back limit true errors = record {
    dials = straight ∷ [];
    outcome =
        if w.is_slow straight host port limit
        then err (codes "direct fallback timed out")
        else elim (w.direct_connect host port) [ ok s ↦ ok (none, s) | err e ↦ err e ];
  }
  fall_back limit false errors = record {
    dials = [];
    outcome = err (
        codes "no healthy proxy route"
        ++ elim errors [ [] ↦ [] | x ∷ r ↦ codes ": " ++ join (codes "; ") (x ∷ r) ]);
  }

  abbrev dialled : UpstreamCandidate U → Routing U → Routing U
  dialled c r = record r { dials = via c ∷ r.dials }

  -- The loop over the candidates, with the errors so far.
  unfoldable pub try_each : ℕ → Bool → List Text → List (CandidateHealth U) → Routing U
  try_each limit fallback errors [] = fall_back limit fallback errors
  try_each limit fallback errors (h ∷ hs) =
      let skipped = try_each limit fallback errors hs in
      if is_down h.state then skipped else elim (attempt limit h.candidate) [
        | opened s ↦ record { dials = via h.candidate ∷ []; outcome = ok (some h.candidate, s) }
        | refused e ↦
            dialled h.candidate
              (try_each limit fallback (errors ++ redact_error w.redactor e ∷ []) hs)
        | timed_out ↦
            dialled h.candidate
              (try_each limit fallback (errors ++ codes "connection timed out" ∷ []) hs)
      ]

  -- The candidates and the time limit are read first; the flag for the direct fallback is read when
  -- the candidates are exhausted, from the runtime as it is then.
  unfoldable pub connect_for_runtime : ProxyRuntime U → ProxyRuntime U → Routing U
  connect_for_runtime first then_read =
      try_each first.connect_timeout then_read.direct_fallback [] first.candidates
