-- ===== src/Discovery/Found.antt =====
-- crates/cng-core/src/discovery.rs: the result of `discover`.
use codex_no.Discovery.Search.{
  macos, windows, elsewhere, manual_upstream, Platform, manual_candidates, collected,
  system_candidates, discover, Host,
}
use codex_no.Config.{auto, manual_mode, GuardConfig, GuardMode}
use codex_no.Model.{priority, kind_number, manual}
use codex_no.Model.Candidate.{candidate_id, endpoint_key, UpstreamCandidate}
use codex_no.Discovery.Distinct.{deduplicate-AreDistinct, AreDistinct, All-deduplicate}
use codex_no.Discovery.{
  common_ports, environment_keys, common_loopback_candidates, Candidates, unseen_in,
  discover_environment_from, UpstreamCandidate, deduplicate,
}
use codex_no.Discovery.Offers.{
  loopback-All, listed-All, environment-All, add_url-cases, windows-All, add_url-All,
  discover_pac-All, IsFrom, IsProxy,
}
use codex_no.Discovery.System.{
  listed_proxies, windows_segments, is_enabled, discover_pac, is_field, default_to_none, field,
  Machine, discover_macos_system_proxy, macos_candidates, discover_windows_system_proxy,
  parse_windows_proxy_server, windows_candidates,
}
use codex_no.Base.{
  ◌≢◌, ◌≡◌, refl, sym, ap, ◌∙◌, subst, ◌⊎◌, inl, inr, Option, none, some, List, [], ◌∷◌, ◌++◌,
  append-nil, arith, if◌then◌else◌, Bool-cases, Option-cases, All, All-append,
}
use codex_no.Base.Text.{decimal, Text, codes}
use codex_no.Url.{UrlLib}
use codex_no.Base.Results.{ok, Result-cases, >>=-eq-ok}

module _ (U : UrlLib) where
  windows_server-All : (proxy : Text) → All (IsProxy U) (parse_windows_proxy_server U proxy)
  unfolding parse_windows_proxy_server
  windows_server-All proxy =
      All-deduplicate U (IsProxy U) _
        (windows-All U (IsProxy U) (λ c f. f.0) (windows_segments proxy) [] tt)

  windows_candidates-All :
      (m : Machine) (fields : List (Text × Text)) → All (IsProxy U) (windows_candidates U m fields)
  unfolding windows_candidates
  windows_candidates-All m fields = All-append (IsProxy U) _ _ pac listed
    where
      pac : All (IsProxy U) (elim (field fields (codes "AutoConfigURL")) [
        | none ↦ []
        | some pac_url ↦ default_to_none (discover_pac U m pac_url)
      ])
      pac = elim (Option-cases (field fields (codes "AutoConfigURL"))) [
        | inl e ↦ rw e tt
        | inr (pac_url, e) ↦ rw e (discover_pac-All U (IsProxy U) m (λ c f. f.0) pac_url)
      ]

      listed : All (IsProxy U) (
          if is_enabled U m (field fields (codes "ProxyEnable"))
          then elim (field fields (codes "ProxyServer")) [
            | none ↦ []
            | some proxy ↦ parse_windows_proxy_server U proxy
          ]
          else [])
      listed = elim (Bool-cases (is_enabled U m (field fields (codes "ProxyEnable")))) [
        | inr e ↦ rw e tt
        | inl e ↦ elim (Option-cases (field fields (codes "ProxyServer"))) [
          | inl n ↦ rw (e, n) tt
          | inr (proxy, n) ↦ rw (e, n) (windows_server-All proxy)
        ]
      ]

  macos_candidates-All :
      (m : Machine) (fields : List (Text × Text)) → All (IsProxy U) (macos_candidates U m fields)
  unfolding macos_candidates
  macos_candidates-All m fields =
      listed-All U (IsProxy U) (λ c f. f.0) fields (listed_proxies U) _ pac
    where
      pac : All (IsProxy U) (
          if is_field fields (codes "ProxyAutoConfigEnable") (codes "1")
          then elim (field fields (codes "ProxyAutoConfigURLString")) [
            | none ↦ []
            | some pac_url ↦ default_to_none (discover_pac U m pac_url)
          ]
          else [])
      pac = elim (Bool-cases (is_field fields (codes "ProxyAutoConfigEnable") (codes "1"))) [
        | inr e ↦ rw e tt
        | inl e ↦ elim (Option-cases (field fields (codes "ProxyAutoConfigURLString"))) [
          | inl n ↦ rw (e, n) tt
          | inr (pac_url, n) ↦ rw (e, n) (discover_pac-All U (IsProxy U) m (λ c f. f.0) pac_url)
        ]
      ]

  macos-All : (m : Machine) → All (IsProxy U) (default_to_none (discover_macos_system_proxy U m))
  unfolding discover_macos_system_proxy
  macos-All m = elim (Result-cases m.scutil) [
    | inr (reason, e) ↦ rw (e, discover_macos_system_proxy) tt
    | inl (output, e) ↦ elim (Option-cases output) [
      | inl n ↦ rw (e, n, discover_macos_system_proxy) tt
      | inr (text, n) ↦
          rw (e, n, discover_macos_system_proxy) (macos_candidates-All m (m.scutil_captures text))
    ]
  ]

  windows_system-All :
      (m : Machine) → All (IsProxy U) (default_to_none (discover_windows_system_proxy U m))
  unfolding discover_windows_system_proxy
  windows_system-All m = elim (Result-cases m.registry) [
    | inr (reason, e) ↦ rw (e, discover_windows_system_proxy) tt
    | inl (output, e) ↦ elim (Option-cases output) [
      | inl n ↦ rw (e, n, discover_windows_system_proxy) tt
      | inr (text, n) ↦
          rw (e, n, discover_windows_system_proxy)
            (windows_candidates-All m (m.registry_captures text))
    ]
  ]

  -- Two candidates of one source and one kind, with the same scheme, host and port.
  abbrev pub IsSameOffer : UpstreamCandidate U → UpstreamCandidate U → Type 0
  IsSameOffer c d =
      (c.source ≡ d.source) × (c.kind ≡ d.kind) × (endpoint_key U c.url ≡ endpoint_key U d.url)

  abbrev pub AreDifferent : Candidates U → Type 0
  AreDifferent [] = Unit
  AreDifferent (c ∷ cs) = All (λ d. ¬ IsSameOffer c d) cs × AreDifferent cs

  same_id : (c d : UpstreamCandidate U) → IsProxy U c → IsProxy U d → IsSameOffer c d → c.id ≡ d.id
  unfolding candidate_id
  same_id c d (a, b, e) (a', b', e') (source, kind, key) =
      e
      ∙ (λ i.
          decimal (priority (source i))
          ++ (codes ":" ++ (decimal (kind_number (kind i)) ++ (codes ":" ++ key i))))
      ∙ sym e'

  All-IsSameOffer-not :
      (c : UpstreamCandidate U) (ds : Candidates U)
      → IsProxy U c
      → All (IsProxy U) ds
      → All (λ d. c.id ≢ d.id) ds
      → All (λ d. ¬ IsSameOffer c d) ds
  All-IsSameOffer-not c [] p ps h = tt
  All-IsSameOffer-not c (d ∷ ds) p (q, ps) (n, h) =
      ((λ s. n (same_id c d p q s)), All-IsSameOffer-not c ds p ps h)

  AreDistinct-AreDifferent :
      (cs : Candidates U) → All (IsProxy U) cs → AreDistinct U cs → AreDifferent cs
  AreDistinct-AreDifferent [] ps h = tt
  AreDistinct-AreDifferent (c ∷ cs) (p, ps) (n, h) =
      (All-IsSameOffer-not c cs p ps n, AreDistinct-AreDifferent cs ps h)

  module _ (h : Host) where
    system_candidates-All : All (IsProxy U) (system_candidates U h)
    unfolding system_candidates
    system_candidates-All = go h.platform
      where
        go :
            (p : Platform)
            → All (IsProxy U) (elim p [
              | macos ↦ default_to_none (discover_macos_system_proxy U h.machine)
              | windows ↦ default_to_none (discover_windows_system_proxy U h.machine)
              | elsewhere ↦ []
            ])
        go macos = macos-All h.machine
        go windows = windows_system-All h.machine
        go elsewhere = tt

    manual-All :
        (P : UpstreamCandidate U → Type 0) (p : (c : UpstreamCandidate U) → IsFrom U manual c → P c)
        (value : Option Text)
        → All P (manual_candidates U h value)
    unfolding manual_candidates
    manual-All P p none = tt
    manual-All P p (some value) = add_url-All U P [] value manual _ p tt

    collected-All :
        (value : Option Text) (mode : GuardMode) → All (IsProxy U) (collected U h value mode)
    unfolding collected discover_environment_from common_loopback_candidates
    collected-All value manual_mode = manual-All (IsProxy U) (λ c f. f.0) value
    collected-All value auto =
        All-append (IsProxy U) _ _ (manual-All (IsProxy U) (λ c f. f.0) value) (
          All-append (IsProxy U) _ _ system_candidates-All (
            All-append (IsProxy U) _ _
              (environment-All U (IsProxy U) (λ c f. f.0) h.variable environment_keys [] tt)
              (loopback-All U (IsProxy U) (λ c f. f.0) common_ports [] tt)))

    -- In the manual mode only the manual upstream is used.
    manual_mode-All :
        (value : Option Text) (mode : GuardMode)
        → (mode ≡ auto) ⊎ All (IsFrom U manual) (deduplicate U (collected U h value mode))
    unfolding collected
    manual_mode-All value auto = inl refl
    manual_mode-All value manual_mode =
        inr (All-deduplicate U (IsFrom U manual) _ (manual-All (IsFrom U manual) (λ c f. f) value))

    deduplicate-first :
        (c : UpstreamCandidate U) (cs : Candidates U)
        → deduplicate U (c ∷ cs) ≡ c ∷ unseen_in U (c.id ∷ []) cs
    unfolding deduplicate unseen_in
    deduplicate-first c cs = refl

    -- The manual upstream stays in front of whatever is collected behind it.
    manual_first :
        (value : Option Text) (cs : Candidates U)
        → (rest : Candidates U) × (deduplicate U (manual_candidates U h value ++ cs)
            ≡ manual_candidates U h value ++ rest)
    unfolding manual_candidates
    manual_first none cs = (deduplicate U cs, refl)
    manual_first (some value) cs =
        elim (add_url-cases U [] value manual (codes "Manual upstream")) [
          | inl e ↦ (deduplicate U cs, rw e refl)
          | inr (c, from, e) ↦ (unseen_in U (c.id ∷ []) cs, rw e (deduplicate-first c cs))
        ]

    collected-manual_first :
        (value : Option Text) (mode : GuardMode)
        → (rest : Candidates U) × (deduplicate U (collected U h value mode)
            ≡ manual_candidates U h value ++ rest)
    unfolding collected
    collected-manual_first value auto = manual_first value _
    collected-manual_first value manual_mode =
        let (rest, e) = manual_first value [] in
        (rest, ap (deduplicate U) (sym (append-nil (manual_candidates U h value))) ∙ e)

    -- A search that ends well offers candidates with different ids, and of no two of them are the
    -- source, the kind and the endpoint the same (one proxy may be offered once by each source). Each is
    -- a proxy of a supported scheme with a host and a port, which are not 127.0.0.1 and 17890; the
    -- manual upstream, if there is one and it makes a candidate, is the first; and in the manual mode
    -- there is no other.
    pub discover-AreDistinct :
        (config : GuardConfig) (cs : Candidates U)
        → discover U h config ≡ ok cs
        → AreDistinct U cs
          × AreDifferent cs
          × All (IsProxy U) cs
          × ((value : Option Text) × (rest : Candidates U) × (manual_upstream h config ≡ ok value)
              × (cs ≡ manual_candidates U h value ++ rest))
          × ((config.mode ≡ auto) ⊎ All (IsFrom U manual) cs)
    unfolding discover
    discover-AreDistinct config cs e =
        let (value, m, e1) = >>=-eq-ok (manual_upstream h config) _ e in
        let same : deduplicate U (collected U h value config.mode) ≡ cs = ground arith in
        let (rest, first) = collected-manual_first value config.mode in
        let all = collected-All value config.mode in
        let distinct = subst (AreDistinct U) same (deduplicate-AreDistinct U _ []).1 in
        let proxies = subst (All (IsProxy U)) same (All-deduplicate U (IsProxy U) _ all) in
        (
          distinct,
          AreDistinct-AreDifferent cs proxies distinct,
          proxies,
          (value, rest, m, sym same ∙ first),
          subst (λ t. (config.mode ≡ auto) ⊎ All (IsFrom U manual) t) same
              (manual_mode-All value config.mode),
        )
