-- ===== src/Discovery.antt =====
-- crates/cng-core/src/discovery.rs: how candidates are collected, from texts that may be URLs.
pub mod System
pub mod Search
pub mod Distinct
pub mod Offers
pub mod Found
pub mod Secrets
mod Examples
use codex_no.Model.{known_loopback, environment, CandidateSource}
use codex_no.Model.Candidate.{from_url, UpstreamCandidate}
use codex_no.Base.{
  ℕ, ◌+◌, ◌/◌, true, false, Option, none, some, List, [], ◌∷◌, ◌++◌, if◌then◌else◌, any_of,
}
use codex_no.Base.Text.{Text, codes, text_eq, contains, trim, decimal}
use codex_no.Url.{UrlLib}

abbrev pub common_ports : List ℕ
common_ports = 7890 ∷ 7891 ∷ 7897 ∷ 1080 ∷ 10808 ∷ 10809 ∷ 6152 ∷ 6153 ∷ 20170 ∷ 33210 ∷ []

abbrev pub environment_keys : List Text
environment_keys =
    codes "HTTPS_PROXY"
    ∷ codes "https_proxy"
    ∷ codes "HTTP_PROXY"
    ∷ codes "http_proxy"
    ∷ codes "ALL_PROXY"
    ∷ codes "all_proxy"
    ∷ []

-- A text without a scheme is taken as an HTTP proxy.
unfoldable pub normalized : Text → Text
unfolding contains trim
normalized value =
    if contains (codes "://") value then trim value else codes "http://" ++ trim value

module _ (U : UrlLib) where
  abbrev pub Candidates : Type 0
  Candidates = List (UpstreamCandidate U)

  -- The candidates with one more behind them, if the text is a URL that makes one.
  unfoldable pub add_url : Candidates → Text → CandidateSource → Text → Candidates
  add_url output value source label = elim (U.parse (normalized value)) [
    | none ↦ output
    | some url ↦ elim (from_url U url source label) [
      | none ↦ output
      | some candidate ↦ output ++ candidate ∷ []
    ]
  ]

  -- The filter of `deduplicate`, with the ids seen so far.
  unfoldable pub unseen_in : List Text → Candidates → Candidates
  unfolding text_eq
  unseen_in seen [] = []
  unseen_in seen (c ∷ cs) = elim (any_of (text_eq c.id) seen) [
    | true ↦ unseen_in seen cs
    | false ↦ c ∷ unseen_in (c.id ∷ seen) cs
  ]

  unfoldable pub deduplicate : Candidates → Candidates
  unfolding unseen_in
  deduplicate values = unseen_in [] values

  -- The loop over the keys.
  unfoldable pub add_environment : (Text → Option Text) → List Text → Candidates → Candidates
  add_environment value_for [] values = values
  add_environment value_for (key ∷ keys) values =
      add_environment value_for keys (elim (value_for key) [
        | none ↦ values
        | some value ↦ add_url values value environment (codes "Environment " ++ key)
      ])

  unfoldable pub discover_environment_from : (Text → Option Text) → Candidates
  unfolding add_environment
  discover_environment_from value_for = add_environment value_for environment_keys []

  -- The loop over the ports.
  unfoldable pub add_loopback : List ℕ → Candidates → Candidates
  unfolding decimal
  add_loopback [] values = values
  add_loopback (port ∷ ports) values = add_loopback ports (
      add_url
        (add_url values (codes "http://127.0.0.1:" ++ decimal port) known_loopback
          (codes "Loopback HTTP " ++ decimal port))
        (codes "socks5h://127.0.0.1:" ++ decimal port) known_loopback
        (codes "Loopback SOCKS5 " ++ decimal port))

  unfoldable pub common_loopback_candidates : Candidates
  unfolding add_loopback
  common_loopback_candidates = add_loopback common_ports []
