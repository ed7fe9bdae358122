-- ===== src/Model/Made.antt =====
-- crates/cng-core/src/model.rs: what the candidates stand for that `from_url` makes.
use codex_no.Base.Text.Laws.{text_eq_iff}
use codex_no.Base.{>>=-eq-some, ℕ, ◌≡◌, ◌≢◌, false, none, some, arith, ◌⊎◌, if◌then◌else◌}
use codex_no.Base.Text.{Text, codes}
use codex_no.Url.{UrlLib}
use codex_no.Model.{CandidateSource, UpstreamKind, http, https, socks5}
use codex_no.Model.Candidate.{UpstreamCandidate, kind_of_scheme, is_relay, candidate_id, from_url}

-- The schemes of a proxy of each kind.
abbrev pub IsSchemeOf : UpstreamKind → Text → Type 0
IsSchemeOf http s = s ≡ codes "http"
IsSchemeOf https s = s ≡ codes "https"
IsSchemeOf socks5 s = (s ≡ codes "socks") ⊎ ((s ≡ codes "socks5") ⊎ (s ≡ codes "socks5h"))

kind_of_scheme-IsSchemeOf :
    (s : Text) (k : UpstreamKind) → kind_of_scheme s ≡ some k → IsSchemeOf k s
unfolding kind_of_scheme
kind_of_scheme-IsSchemeOf s http e = ground (arith, text_eq_iff s (codes "http"))
kind_of_scheme-IsSchemeOf s https e = ground (arith, text_eq_iff s (codes "https"))
kind_of_scheme-IsSchemeOf s socks5 e = ground (
  arith,
  text_eq_iff s (codes "socks"),
  text_eq_iff s (codes "socks5"),
  text_eq_iff s (codes "socks5h"),
)

is_relay-not :
    (host : Text) (port : ℕ)
    → is_relay host port ≡ false
    → (host ≢ codes "127.0.0.1") ⊎ (port ≢ 17890)
unfolding is_relay
is_relay-not host port e = ground (arith, text_eq_iff host (codes "127.0.0.1"))

module _ (U : UrlLib) where
  -- What a candidate stands for: a URL of its kind's scheme, with a host and a port that are not
  -- 127.0.0.1 and 17890, with the source and the label that were given, and an id that names the
  -- source, the kind and the endpoint.
  abbrev pub IsCandidateFor : U.Url → CandidateSource → Text → UpstreamCandidate U → Type 0
  IsCandidateFor url source label c =
      IsSchemeOf c.kind (U.scheme url)
      × ((host : Text) × (port : ℕ) × (U.host_str url ≡ some host)
          × (U.port_or_known_default url ≡ some port)
          × ((host ≢ codes "127.0.0.1") ⊎ (port ≢ 17890)))
      × (c.url ≡ url)
      × (c.source ≡ source)
      × (c.label ≡ label)
      × (c.id ≡ candidate_id U source c.kind url)

  made_lem :
      (url : U.Url) (source : CandidateSource) (label : Text) (c : UpstreamCandidate U)
      (kind : UpstreamKind) (host : Text) (port : ℕ)
      → kind_of_scheme (U.scheme url) ≡ some kind
      → U.host_str url ≡ some host
      → U.port_or_known_default url ≡ some port
      → (if is_relay host port
          then none
          else some (record {
            id = candidate_id U source kind url;
            kind = kind;
            source = source;
            url = url;
            label = label;
          }))
        ≡ some c
      → IsCandidateFor url source label c
  made_lem url source label c kind host port k h p e = (
    kind_of_scheme-IsSchemeOf _ c.kind (ground arith),
    (host, port, h, p, is_relay-not host port (ground arith)),
    ground arith,
    ground arith,
    ground arith,
    ground arith,
  )

  -- Every candidate that `from_url` makes stands for its URL, which does not name host 127.0.0.1 with port
  -- 17890.
  pub from_url-IsCandidateFor :
      (url : U.Url) (source : CandidateSource) (label : Text) (c : UpstreamCandidate U)
      → from_url U url source label ≡ some c
      → IsCandidateFor url source label c
  unfolding from_url
  from_url-IsCandidateFor url source label c e =
      let (kind, k, e1) = >>=-eq-some (kind_of_scheme (U.scheme url)) _ e in
      let (host, h, e2) = >>=-eq-some (U.host_str url) _ e1 in
      let (port, p, e3) = >>=-eq-some (U.port_or_known_default url) _ e2 in
      made_lem url source label c kind host port k h p e3
