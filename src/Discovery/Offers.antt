-- ===== src/Discovery/Offers.antt =====
-- crates/cng-core/src/discovery.rs: which candidates a search offers.
use codex_no.Discovery.Distinct.{All-deduplicate}
use codex_no.Model.Made.{from_url-IsCandidateFor, IsSchemeOf}
use codex_no.Discovery.System.{
  field, default_to_none, is_field, Machine, add_listed, add_pac, add_windows, parse_pac_candidates,
  discover_pac,
}
use codex_no.Discovery.{
  known_loopback, environment, normalized, Candidates, from_url, add_loopback, add_environment,
  add_url,
}
use codex_no.Model.{system_pac, environment, system_proxy, known_loopback, CandidateSource}
use codex_no.Model.Candidate.{candidate_id, from_url, UpstreamCandidate}
use codex_no.Base.{
  ◌∙◌, ℕ, ◌≡◌, refl, sym, subst, ◌≢◌, ◌⊎◌, inl, inr, Option, some, List, [], ◌∷◌, ◌++◌, Bool-cases,
  Option-cases, All, All-append,
}
use codex_no.Base.Text.{Text, codes}
use codex_no.Url.{UrlLib}
use codex_no.Base.Results.{Result-cases}

module _ (U : UrlLib) where
  -- A proxy of a supported scheme with a host and a port that are not 127.0.0.1 and 17890, whose id
  -- names its source, its kind and its endpoint.
  abbrev pub IsProxy : UpstreamCandidate U → Type 0
  IsProxy c =
      IsSchemeOf c.kind (U.scheme c.url)
      × ((host : Text) × (port : ℕ) × (U.host_str c.url ≡ some host)
          × (U.port_or_known_default c.url ≡ some port)
          × ((host ≢ codes "127.0.0.1") ⊎ (port ≢ 17890)))
      × (c.id ≡ candidate_id U c.source c.kind c.url)

  abbrev pub IsFrom : CandidateSource → UpstreamCandidate U → Type 0
  IsFrom source c = IsProxy c × (c.source ≡ source)

  from_url-IsFrom :
      (url : U.Url) (source : CandidateSource) (label : Text) (c : UpstreamCandidate U)
      → from_url U url source label ≡ some c
      → IsFrom source c
  from_url-IsFrom url source label c e =
      let (scheme, (host, port, h, p, other), same, from, _, id) =
        from_url-IsCandidateFor U url source label c e in
      let back = sym same in
      (
        (
          subst (λ u. IsSchemeOf c.kind (U.scheme u)) back scheme,
          (
            host,
            port,
            subst (λ u. U.host_str u ≡ some host) back h,
            subst (λ u. U.port_or_known_default u ≡ some port) back p,
            other,
          ),
          id ∙ λ i. candidate_id U (sym from i) c.kind (back i),
        ),
        from,
      )

  -- Either nothing is added, or one candidate of the source behind the others.
  pub add_url-cases :
      (output : Candidates U) (value : Text) (source : CandidateSource) (label : Text)
      → (add_url U output value source label ≡ output)
        ⊎ ((c : UpstreamCandidate U) × IsFrom source c
            × (add_url U output value source label ≡ output ++ c ∷ []))
  unfolding add_url
  add_url-cases output value source label = elim (Option-cases (U.parse (normalized value))) [
    | inl e ↦ inl (rw (e, add_url) refl)
    | inr (url, e) ↦ elim (Option-cases (from_url U url source label)) [
      | inl n ↦ inl (rw (e, n, add_url) refl)
      | inr (c, n) ↦ inr (c, from_url-IsFrom url source label c n, rw (e, n, add_url) refl)
    ]
  ]

  -- What holds of the proxies of a source holds of the longer list.
  module _ (P : UpstreamCandidate U → Type 0) where
    pub add_url-All :
        (output : Candidates U) (value : Text) (source : CandidateSource) (label : Text)
        → ((c : UpstreamCandidate U) → IsFrom source c → P c)
        → All P output
        → All P (add_url U output value source label)
    add_url-All output value source label p h = elim (add_url-cases output value source label) [
      | inl e ↦ subst (All P) (sym e) h
      | inr (c, from, e) ↦ subst (All P) (sym e) (All-append P output (c ∷ []) h (p c from, tt))
    ]

    pub environment-All :
        (p : (c : UpstreamCandidate U) → IsFrom environment c → P c)
        (value_for : Text → Option Text) (keys : List Text) (values : Candidates U)
        → All P values
        → All P (add_environment U value_for keys values)
    unfolding add_environment
    environment-All p value_for [] values h = h
    environment-All p value_for (key ∷ keys) values h = elim (Option-cases (value_for key)) [
      | inl e ↦ rw (e, add_environment) (environment-All p value_for keys values h)
      | inr (value, e) ↦
          rw (e, add_environment)
            (environment-All p value_for keys _ (add_url-All values value environment _ p h))
    ]

    pub loopback-All :
        (p : (c : UpstreamCandidate U) → IsFrom known_loopback c → P c) (ports : List ℕ)
        (values : Candidates U)
        → All P values
        → All P (add_loopback U ports values)
    unfolding add_loopback
    loopback-All p [] values h = h
    loopback-All p (port ∷ ports) values h =
        loopback-All p ports _
          (add_url-All _ _ known_loopback _ p (add_url-All values _ known_loopback _ p h))

    pac-All :
        (p : (c : UpstreamCandidate U) → IsFrom system_pac c → P c) (captures : List (Text × Text))
        (values : Candidates U)
        → All P values
        → All P (add_pac U captures values)
    unfolding add_pac
    pac-All p [] values h = h
    pac-All p ((kind, place) ∷ captures) values h =
        pac-All p captures _ (add_url-All values _ system_pac _ p h)

    pub windows-All :
        (p : (c : UpstreamCandidate U) → IsFrom system_proxy c → P c) (segments : List Text)
        (values : Candidates U)
        → All P values
        → All P (add_windows U segments values)
    unfolding add_windows
    windows-All p [] values h = h
    windows-All p (segment ∷ segments) values h =
        windows-All p segments _ (add_url-All values _ system_proxy _ p h)

    pub listed-All :
        (p : (c : UpstreamCandidate U) → IsFrom system_proxy c → P c) (fields : List (Text × Text))
        (listed : List (Text × Text × Text × Text)) (values : Candidates U)
        → All P values
        → All P (add_listed U fields listed values)
    unfolding add_listed
    listed-All p fields [] values h = h
    listed-All p fields ((enabled, host_key, port_key, scheme) ∷ listed) values h =
        elim (Bool-cases (is_field fields enabled (codes "1"))) [
          | inr e ↦ rw (e, add_listed) (listed-All p fields listed values h)
          | inl e ↦ elim (Option-cases (field fields host_key)) [
            | inl n ↦ rw (e, n, add_listed) (listed-All p fields listed values h)
            | inr (host, n) ↦ elim (Option-cases (field fields port_key)) [
              | inl k ↦ rw (e, n, k, add_listed) (listed-All p fields listed values h)
              | inr (port, k) ↦
                  rw (e, n, k, add_listed)
                    (listed-All p fields listed _ (add_url-All values _ system_proxy _ p h))
            ]
          ]
        ]

  -- The candidates of a PAC file are proxies, marked as coming from one.
  parse_pac_candidates-All :
      (P : UpstreamCandidate U → Type 0) (m : Machine)
      (p : (c : UpstreamCandidate U) → IsFrom system_pac c → P c) (script : Text)
      → All P (parse_pac_candidates U m script)
  unfolding parse_pac_candidates
  parse_pac_candidates-All P m p script =
      All-deduplicate U P _ (pac-All P p (m.pac_captures script) [] tt)

  pub discover_pac-All :
      (P : UpstreamCandidate U → Type 0) (m : Machine)
      (p : (c : UpstreamCandidate U) → IsFrom system_pac c → P c) (pac_url : Text)
      → All P (default_to_none (discover_pac U m pac_url))
  unfolding discover_pac
  discover_pac-All P m p pac_url = elim (Result-cases (m.download pac_url)) [
    | inl (script, e) ↦ rw (e, discover_pac) (parse_pac_candidates-All P m p script)
    | inr (reason, e) ↦ rw (e, discover_pac) tt
  ]
