-- ===== src/Model/Redaction.antt =====
-- crates/cng-core/src/model.rs: redaction hides credentials.
use codex_no.Base.{
  ◌>>=◌, Bool, true, ℕ, ◌≡◌, refl, sym, ◌∙◌, ap, false, Option, none, some, [], arith, is_some,
  if◌then◌else◌, not,
}
use mathlib.Core.Option
use codex_no.Base.Text.{Text, codes, is_empty}
use codex_no.Url.{UrlLib, SetterLaws}
use codex_no.Model.{CandidateSource, UpstreamKind}
use codex_no.Model.Candidate.{
  endpoint_key, debug_fields, DebugFields, kind_of_scheme, is_relay, candidate_id, from_url,
  redacted_url, serialize_redacted_url,
}

module _ (U : UrlLib) (laws : SetterLaws U) where
  open U use {Url, as_str, username, password, set_username, set_password}

  -- The URL without its user name and password.
  abbrev pub bare : Url → Url
  bare u = set_password none (set_username [] u)

  -- Writing both parts forgets what they were.
  overwrite :
      (n : Text) (p : Option Text) (u : Url)
      → set_password p (set_username n u) ≡ set_password p (set_username n (bare u))
  overwrite n p u = sym (
      ap (set_password p) (
        laws.setters_commute n none (set_username [] u)
        ∙ ap (set_password none) (laws.username_twice n [] u))
      ∙ laws.password_twice p none (set_username n u))

  -- Writing nothing is leaving the part as it is.
  named_lem :
      (t : Text) (u : Url)
      → (if not (is_empty (username u)) then set_username t u else u)
        ≡ set_username (if is_empty (username u) then [] else t) u
  named_lem t u = ground (arith, laws.no_username u)

  hidden_lem :
      (t n : Text) (u : Url)
      → (if is_some (password u)
          then set_password (some t) (set_username n u)
          else set_username n u)
        ≡ set_password (Option.map (λ _. t) (password u)) (set_username n u)
  hidden_lem t n u = ground (arith, laws.no_password u, laws.setters_commute n none u)

  -- Both ways to redact, as a function of the bare URL and of which parts are present.
  abbrev masked : Text → Url → Text
  masked t u = as_str (
      set_password (Option.map (λ _. t) (password u))
        (set_username (if is_empty (username u) then [] else t) (bare u)))

  serialize-masked : (u : Url) → serialize_redacted_url U u ≡ masked (codes "redacted") u
  unfolding serialize_redacted_url
  serialize-masked u =
      ap
        (λ named.
          as_str
            (if is_some (password u) then set_password (some (codes "redacted")) named else named))
        (named_lem (codes "redacted") u)
      ∙ ap as_str (hidden_lem (codes "redacted") _ u ∙ overwrite _ _ u)

  redacted-masked :
      (id : Text) (kind : UpstreamKind) (source : CandidateSource) (u : Url) (label : Text)
      → redacted_url U (record { id = id; kind = kind; source = source; url = u; label = label })
        ≡ masked (codes "<redacted>") u
  unfolding redacted_url
  redacted-masked id kind source u label = ap as_str (overwrite _ _ u)

  -- The two URLs are one but for the values of the user name and of the password.
  abbrev pub DiffersInCredentials : Url → Url → Type 0
  DiffersInCredentials u v =
      (bare u ≡ bare v)
      × (is_empty (username u) ≡ is_empty (username v))
      × (is_some (password u) ≡ is_some (password v))

  map_lem :
      (t : Text) (p q : Option Text)
      → is_some p ≡ is_some q
      → Option.map (λ _. t) p ≡ Option.map (λ _. t) q
  map_lem t none none e = refl
  map_lem t none (some a) e = cc
  map_lem t (some a) none e = cc
  map_lem t (some a) (some b) e = refl

  masked-eq : (t : Text) (u v : Url) → DiffersInCredentials u v → masked t u ≡ masked t v
  masked-eq t u v (b, n, p) = λ i. as_str (
      set_password (map_lem t (password u) (password v) p i)
        (set_username (if n i then [] else t) (b i)))

  scheme_lem : (u : Url) → U.scheme (bare u) ≡ U.scheme u
  scheme_lem u = laws.password_scheme none (set_username [] u) ∙ laws.username_scheme [] u

  host_lem : (u : Url) → U.host_str (bare u) ≡ U.host_str u
  host_lem u = laws.password_host none (set_username [] u) ∙ laws.username_host [] u

  port_lem : (u : Url) → U.port_or_known_default (bare u) ≡ U.port_or_known_default u
  port_lem u = laws.password_port none (set_username [] u) ∙ laws.username_port [] u

  -- What is printed of the candidate that `from_url` makes, by the parts that it reads.
  abbrev shown :
      CandidateSource
      → Text
      → Text
      → (UpstreamKind → Text)
      → Option UpstreamKind
      → Option Text
      → Option ℕ
      → Option DebugFields
  shown source label text id kind host port = do
    k ← kind
    h ← host
    p ← port
    if is_relay h p
        then none
        else some (record { id = id k; kind = k; source = source; url = text; label = label })

  made-shown :
      (source : CandidateSource) (label : Text) (u : Url) (k : UpstreamKind) (b : Bool)
      → Option.map (debug_fields U) (
          if b
          then none
          else some (record {
            id = candidate_id U source k u;
            kind = k;
            source = source;
            url = u;
            label = label;
          }))
        ≡ (if b
            then none
            else some (record {
              id = candidate_id U source k u;
              kind = k;
              source = source;
              url = masked (codes "<redacted>") u;
              label = label;
            }))
  unfolding debug_fields
  made-shown source label u k true = refl
  made-shown source label u k false =
      ap
        (λ text. some (record {
          id = candidate_id U source k u;
          kind = k;
          source = source;
          url = text;
          label = label;
        }))
        (redacted-masked (candidate_id U source k u) k source u label)

  maybe-shown :
      (source : CandidateSource) (label : Text) (u : Url) (kind : Option UpstreamKind)
      (host : Option Text) (port : Option ℕ)
      → Option.map (debug_fields U) (do
        k ← kind
        h ← host
        p ← port
        if is_relay h p
            then none
            else some (record {
              id = candidate_id U source k u;
              kind = k;
              source = source;
              url = u;
              label = label;
            }))
        ≡ shown source label
            (masked (codes "<redacted>") u)
            (λ k. candidate_id U source k u)
            kind
            host
            port
  maybe-shown source label u none host port = refl
  maybe-shown source label u (some k) none port = refl
  maybe-shown source label u (some k) (some h) none = refl
  maybe-shown source label u (some k) (some h) (some p) = made-shown source label u k (is_relay h p)

  from_url-shown :
      (source : CandidateSource) (label : Text) (u : Url)
      → Option.map (debug_fields U) (from_url U u source label)
        ≡ shown source label
            (masked (codes "<redacted>") u)
            (λ k. candidate_id U source k u)
            (kind_of_scheme (U.scheme u))
            (U.host_str u)
            (U.port_or_known_default u)
  unfolding from_url
  from_url-shown source label u =
      maybe-shown source label u (kind_of_scheme (U.scheme u)) (U.host_str u)
        (U.port_or_known_default u)

  id-eq :
      (source : CandidateSource) (u v : Url)
      → U.scheme u ≡ U.scheme v
      → U.host_str u ≡ U.host_str v
      → U.port_or_known_default u ≡ U.port_or_known_default v
      → (k : UpstreamKind) → candidate_id U source k u ≡ candidate_id U source k v
  unfolding candidate_id endpoint_key
  id-eq source u v s h p k = rw (s, h, p) refl

  -- Of two URLs that differ at most in the values of the user name and of the password, the text that
  -- is serialised is the same, and so is everything that `Debug` prints of the candidate that is made
  -- of either, its id and its label included, or none is made of both: none of it depends on the
  -- value of a credential.
  pub redaction_hides :
      (u v : Url) (source : CandidateSource) (label : Text)
      → DiffersInCredentials u v
      → (serialize_redacted_url U u ≡ serialize_redacted_url U v)
        × (Option.map (debug_fields U) (from_url U u source label)
            ≡ Option.map (debug_fields U) (from_url U v source label))
  redaction_hides u v source label h = (
    rw (serialize-masked u, serialize-masked v) (masked-eq (codes "redacted") u v h),
    from_url-shown source label u
        ∙ (λ i.
            shown source label (masked-eq (codes "<redacted>") u v h i)
              (λ k. id-eq source u v same_scheme same_host same_port k i)
              (kind_of_scheme (same_scheme i)) (same_host i) (same_port i))
        ∙ sym (from_url-shown source label v),
  )
    where
      same_scheme : U.scheme u ≡ U.scheme v
      same_scheme = sym (scheme_lem u) ∙ ap U.scheme (h.0) ∙ scheme_lem v

      same_host : U.host_str u ≡ U.host_str v
      same_host = sym (host_lem u) ∙ ap U.host_str (h.0) ∙ host_lem v

      same_port : U.port_or_known_default u ≡ U.port_or_known_default v
      same_port = sym (port_lem u) ∙ ap U.port_or_known_default (h.0) ∙ port_lem v
