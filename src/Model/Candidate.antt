-- ===== src/Model/Candidate.antt =====
-- crates/cng-core/src/model.rs: `UpstreamCandidate`, over the `url` crate.
use codex_no.Base.{
  ℕ, Bool, not, ◌&&◌, ◌||◌, Option, none, some, [], ◌++◌, ◌==◌, if◌then◌else◌, ◌>>=◌, is_some,
  or_else,
}
use codex_no.Base.Text.{Text, codes, text_eq, is_empty, contains, decimal}
use codex_no.Url.{UrlLib}
use codex_no.Model.{UpstreamKind, http, https, socks5, CandidateSource, priority, kind_number}
use mathlib.Core.Option

-- config.rs: `DEFAULT_LISTEN_PORT`.
abbrev pub default_listen_port : ℕ
default_listen_port = 17890

pub record UpstreamCandidate (U : UrlLib) : Type 0 where
  pub id : Text
  pub kind : UpstreamKind
  pub source : CandidateSource
  pub url : U.Url
  pub label : Text

-- What `Debug` prints of a candidate.
pub record DebugFields : Type 0 where
  pub id : Text
  pub kind : UpstreamKind
  pub source : CandidateSource
  pub url : Text
  pub label : Text

-- The schemes that `from_url` accepts.
unfoldable pub kind_of_scheme : Text → Option UpstreamKind
unfolding text_eq
kind_of_scheme s =
    if text_eq s (codes "http")
    then some http
    else if text_eq s (codes "https")
    then some https
    else if text_eq s (codes "socks") || text_eq s (codes "socks5") || text_eq s (codes "socks5h")
    then some socks5
    else none

-- The address at which the guard itself listens.
unfoldable pub is_relay : Text → ℕ → Bool
unfolding text_eq
is_relay host port = text_eq host (codes "127.0.0.1") && port == default_listen_port

-- `host:port`, with brackets round a host that holds a colon.
unfoldable pub authority_text : Text → ℕ → Text
unfolding contains decimal
authority_text host port =
    if contains (codes ":") host
    then codes "[" ++ (host ++ (codes "]:" ++ decimal port))
    else host ++ (codes ":" ++ decimal port)

module _ (U : UrlLib) where
  open U use {
    Url, as_str, scheme, host_str, port_or_known_default, username, password, set_username,
    set_password,
  }

  unfoldable pub endpoint_key : Url → Text
  unfolding decimal
  endpoint_key url =
      scheme url
      ++ (codes "://"
          ++ (or_else (host_str url) []
              ++ (codes ":" ++ decimal (or_else (port_or_known_default url) 0))))

  unfoldable pub candidate_id : CandidateSource → UpstreamKind → Url → Text
  unfolding endpoint_key decimal priority kind_number
  candidate_id source kind url =
      decimal (priority source)
      ++ (codes ":" ++ (decimal (kind_number kind) ++ (codes ":" ++ endpoint_key url)))

  unfoldable pub from_url : Url → CandidateSource → Text → Option (UpstreamCandidate U)
  from_url url source label = do
    kind ← kind_of_scheme (scheme url)
    host ← host_str url
    port ← port_or_known_default url
    if is_relay host port
        then none
        else some (record {
          id = candidate_id source kind url;
          kind = kind;
          source = source;
          url = url;
          label = label;
        })

  unfoldable pub endpoint : UpstreamCandidate U → Option Text
  unfolding authority_text
  endpoint c = do
    host ← host_str c.url
    port ← port_or_known_default c.url
    some (authority_text host port)

  unfoldable pub has_credentials : UpstreamCandidate U → Bool
  has_credentials c = not (is_empty (username c.url)) || is_some (password c.url)

  unfoldable pub redacted_url : UpstreamCandidate U → Text
  redacted_url c =
      let named =
        set_username (if is_empty (username c.url) then [] else codes "<redacted>") c.url in
      as_str (set_password (Option.map (λ _. codes "<redacted>") (password c.url)) named)

  unfoldable pub serialize_redacted_url : Url → Text
  serialize_redacted_url url =
      let named =
        if not (is_empty (username url)) then set_username (codes "redacted") url else url in
      as_str
        (if is_some (password url) then set_password (some (codes "redacted")) named else named)

  -- `impl Debug`.
  unfoldable pub debug_fields : UpstreamCandidate U → DebugFields
  unfolding redacted_url
  debug_fields c = record {
    id = c.id;
    kind = c.kind;
    source = c.source;
    url = redacted_url c;
    label = c.label;
  }
