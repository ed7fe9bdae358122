-- ===== src/Model/Examples.antt =====
-- crates/cng-core/src/model.rs: the theorems on candidates, at a few of them.
use codex_no.Model.Order.{IsTie}
use codex_no.Model.Order.Best.{Descends, sort_candidates-IsOrdered, StartsBest}
use mathlib.Core.List.{Perm}
use codex_no.Model.Health.{unknown_health, sort_candidates, CandidateHealth}
use codex_no.Model.{
  CandidateSource, priority, socks5, is_healthy, environment, down, healthy, HealthState,
}
use codex_no.Model.Redaction.{redaction_hides}
use codex_no.Model.Candidate.{debug_fields, from_url, serialize_redacted_url, UpstreamCandidate}
use codex_no.Base.{
  ℕ, ◌≡◌, refl, Bool, true, false, ◌&&◌, Option, none, some, List, [], ◌∷◌, arith, ◌==◌, keep_if,
}
use codex_no.Base.Text.{Text, codes}
use mathlib.Core.Option
use codex_no.Url.Sample.{sample_lib, sample_laws, SampleUrl}

abbrev url_with : Text → Option Text → SampleUrl
url_with user secret = record {
  scheme = codes "socks5h";
  user = user;
  secret = secret;
  host = codes "10.0.0.2";
  port = some 1080;
  path = [];
  query = none;
}

abbrev proxy_with : Text → Text → UpstreamCandidate sample_lib
proxy_with user secret = record {
  id = codes "3:2:socks5h://10.0.0.2:1080";
  kind = socks5;
  source = environment;
  url = url_with user (some secret);
  label = codes "ALL_PROXY";
}

abbrev alice : UpstreamCandidate sample_lib
alice = proxy_with (codes "alice") (codes "secret")

abbrev bob : UpstreamCandidate sample_lib
bob = proxy_with (codes "bob") (codes "hunter2")

redaction_hides_example :
    (serialize_redacted_url sample_lib alice.url ≡ serialize_redacted_url sample_lib bob.url)
    × (Option.map
          (debug_fields sample_lib)
          (from_url sample_lib alice.url environment (codes "ALL_PROXY"))
        ≡ Option.map
            (debug_fields sample_lib)
            (from_url sample_lib bob.url environment (codes "ALL_PROXY")))
redaction_hides_example =
    redaction_hides sample_lib sample_laws alice.url bob.url environment (codes "ALL_PROXY")
      (refl, refl, refl)

abbrev measured : HealthState → Option ℕ → CandidateHealth sample_lib
measured s latency = record (unknown_health sample_lib 0 alice) { state = s; latency_ms = latency }

abbrev three : List (CandidateHealth sample_lib)
three = measured down none ∷ measured healthy (some 30) ∷ measured healthy (some 20) ∷ []

abbrev is_20 : Option ℕ → Bool
is_20 none = false
is_20 (some n) = n == 20

abbrev is_quick : CandidateHealth sample_lib → Bool
is_quick h = is_healthy h.state && (is_20 h.latency_ms && priority h.candidate.source == 3)

quick_state : (s t : HealthState) → is_healthy s ≡ true → is_healthy t ≡ true → s ≡ t
unfolding is_healthy
quick_state s t p q = ground arith

quick_source : (s t : CandidateSource) → (priority s == 3) ≡ true → (priority t == 3) ≡ true → s ≡ t
unfolding priority
quick_source s t p q = ground arith

quick_latency : (l k : Option ℕ) → is_20 l ≡ true → is_20 k ≡ true → l ≡ k
quick_latency l k p q = ground arith

both_lem : (b c : Bool) → (b && c) ≡ true → (b ≡ true) × (c ≡ true)
both_lem b c h = ground arith

quick-IsTie :
    (a b : CandidateHealth sample_lib)
    → is_quick a ≡ true
    → is_quick b ≡ true
    → IsTie sample_lib a b
quick-IsTie a b p q =
    let (s, p1) = both_lem _ _ p in
    let (l, c) = both_lem _ _ p1 in
    let (t, q1) = both_lem _ _ q in
    let (k, d) = both_lem _ _ q1 in
    (quick_state a.state b.state s t, quick_source _ _ c d, quick_latency _ _ l k)

sort_candidates-IsOrdered_example :
    Perm (sort_candidates sample_lib three) three
    × Descends sample_lib (sort_candidates sample_lib three)
    × (keep_if is_quick (sort_candidates sample_lib three) ≡ keep_if is_quick three)
    × StartsBest sample_lib three (sort_candidates sample_lib three)
sort_candidates-IsOrdered_example = sort_candidates-IsOrdered sample_lib three is_quick quick-IsTie
