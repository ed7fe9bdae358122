-- ===== src/Discovery/System.antt =====
-- crates/cng-core/src/discovery.rs: the proxies that the operating system is set to, and PAC files.
use codex_no.Model.{system_proxy, system_pac}
use codex_no.Discovery.{deduplicate, add_url, Candidates}
use codex_no.Base.{
  Bool, false, not, ◌||◌, Option, none, some, List, [], ◌∷◌, ◌++◌, map, ◌==◌, if◌then◌else◌,
  keep_if,
}
use codex_no.Base.Text.{
  Text, codes, text_eq, is_empty, trim_if, trim, split_if, to_ascii_lowercase, to_ascii_uppercase,
  split_once,
}
use codex_no.Url.{UrlLib}
use codex_no.Base.Results.{Result, ok, err}

-- What these functions take from outside. The matches of a regular expression are given by their
-- two groups; the output of a command is its text, or `none` if the command exits with a failure.
pub record Machine : Type 0 where
  pub pac_captures : Text → List (Text × Text)
  pub scutil_captures : Text → List (Text × Text)
  pub registry_captures : Text → List (Text × Text)
  pub download : Text → Result Text
  pub scutil : Result (Option Text)
  pub registry : Result (Option Text)

-- A map that is filled pair by pair: the last pair with a key holds.
unfoldable pub field : List (Text × Text) → Text → Option Text
unfolding text_eq
field [] key = none
field ((name, value) ∷ pairs) key = elim (field pairs key) [
  | some later ↦ some later
  | none ↦ if text_eq name key then some value else none
]

abbrev pub is_field : List (Text × Text) → Text → Text → Bool
is_field fields key value = elim (field fields key) [ none ↦ false | some v ↦ text_eq v value ]

unfoldable pub pac_scheme : Text → Text
unfolding text_eq to_ascii_uppercase
pac_scheme kind =
    let upper = to_ascii_uppercase kind in
    if text_eq upper (codes "SOCKS") || text_eq upper (codes "SOCKS5")
    then codes "socks5h"
    else if text_eq upper (codes "HTTPS")
    then codes "https"
    else codes "http"

unfoldable pub windows_scheme : Text → Text
unfolding text_eq to_ascii_lowercase trim
windows_scheme kind =
    let low = to_ascii_lowercase (trim kind) in
    if text_eq low (codes "socks") || text_eq low (codes "socks4") || text_eq low (codes "socks5")
    then codes "socks5h"
    else if text_eq low (codes "https")
    then codes "https"
    else codes "http"

-- The kind and the endpoint of a part of the Windows setting.
unfoldable pub windows_endpoint : Text → Text × Text
unfolding split_once trim
windows_endpoint segment = elim (split_once (codes "=") segment) [
  | none ↦ (codes "http", segment)
  | some (kind, endpoint) ↦ (kind, trim endpoint)
]

unfoldable pub windows_segments : Text → List Text
unfolding split_if trim
windows_segments value =
    keep_if (λ s. not (is_empty s)) (map trim (split_if (λ c. c == b';') value))

abbrev pub default_to_none {ℓ} : {A : Type ℓ} → Result (List A) → List A
default_to_none (ok xs) = xs
default_to_none (err e) = []

module _ (U : UrlLib) where
  -- The loop over the matches.
  unfoldable pub add_pac : List (Text × Text) → Candidates U → Candidates U
  unfolding pac_scheme trim_if
  add_pac [] candidates = candidates
  add_pac ((kind, place) ∷ captures) candidates =
      let endpoint = trim_if (λ c. c == b';' || c == b'"' || c == 39) place in
      add_pac captures (
        add_url U candidates (pac_scheme kind ++ (codes "://" ++ endpoint)) system_pac
          (codes "System PAC " ++ endpoint))

  -- The loop over the parts.
  unfoldable pub add_windows : List Text → Candidates U → Candidates U
  unfolding windows_scheme windows_endpoint
  add_windows [] candidates = candidates
  add_windows (segment ∷ segments) candidates =
      let (kind, endpoint) = windows_endpoint segment in
      add_windows segments (
        add_url U candidates (windows_scheme kind ++ (codes "://" ++ endpoint)) system_proxy
          (codes "Windows system proxy " ++ endpoint))

  unfoldable pub parse_windows_proxy_server : Text → Candidates U
  unfolding windows_segments
  parse_windows_proxy_server value = deduplicate U (add_windows (windows_segments value) [])

  -- One of the three proxies that macOS lists: the key that enables it, its host, port and scheme.
  unfoldable pub add_listed :
      List (Text × Text) → List (Text × Text × Text × Text) → Candidates U → Candidates U
  unfolding field text_eq
  add_listed fields [] candidates = candidates
  add_listed fields ((enabled, host_key, port_key, scheme) ∷ listed) candidates =
      add_listed fields listed (
        if is_field fields enabled (codes "1")
        then elim (field fields host_key) [
          | none ↦ candidates
          | some host ↦ elim (field fields port_key) [
            | none ↦ candidates
            | some port ↦
                add_url U candidates (scheme ++ (codes "://" ++ (host ++ (codes ":" ++ port))))
                  system_proxy (codes "macOS system proxy " ++ (host ++ (codes ":" ++ port)))
          ]
        ]
        else candidates)

  abbrev pub listed_proxies : List (Text × Text × Text × Text)
  listed_proxies =
      (codes "HTTPSEnable", codes "HTTPSProxy", codes "HTTPSPort", codes "http")
      ∷ (codes "HTTPEnable", codes "HTTPProxy", codes "HTTPPort", codes "http")
      ∷ (codes "SOCKSEnable", codes "SOCKSProxy", codes "SOCKSPort", codes "socks5h")
      ∷ []

  module _ (m : Machine) where
    unfoldable pub parse_pac_candidates : Text → Candidates U
    parse_pac_candidates script = deduplicate U (add_pac (m.pac_captures script) [])

    unfoldable pub discover_pac : Text → Result (Candidates U)
    discover_pac pac_url = elim (m.download pac_url) [
      | err e ↦ err e
      | ok script ↦ ok (parse_pac_candidates script)
    ]

    -- From the fields that `scutil` prints.
    unfoldable pub macos_candidates : List (Text × Text) → Candidates U
    unfolding field text_eq
    macos_candidates fields = add_listed fields listed_proxies (
        if is_field fields (codes "ProxyAutoConfigEnable") (codes "1")
        then elim (field fields (codes "ProxyAutoConfigURLString")) [
          | none ↦ []
          | some pac_url ↦ default_to_none (discover_pac pac_url)
        ]
        else [])

    unfoldable pub discover_macos_system_proxy : Result (Candidates U)
    discover_macos_system_proxy = elim m.scutil [
      | err e ↦ err (codes "run scutil --proxy")
      | ok none ↦ ok []
      | ok (some text) ↦ ok (macos_candidates (m.scutil_captures text))
    ]

    abbrev pub is_enabled : Option Text → Bool
    is_enabled none = false
    is_enabled (some value) = text_eq (trim value) (codes "1") || text_eq (trim value) (codes "0x1")

    -- From the values that the registry holds.
    unfoldable pub windows_candidates : List (Text × Text) → Candidates U
    unfolding field text_eq trim
    windows_candidates fields =
        elim (field fields (codes "AutoConfigURL")) [
          | none ↦ []
          | some pac_url ↦ default_to_none (discover_pac pac_url)
        ]
        ++ (if is_enabled (field fields (codes "ProxyEnable"))
            then elim (field fields (codes "ProxyServer")) [
              | none ↦ []
              | some proxy ↦ parse_windows_proxy_server proxy
            ]
            else [])

    unfoldable pub discover_windows_system_proxy : Result (Candidates U)
    discover_windows_system_proxy = elim m.registry [
      | err e ↦ err (codes "query Windows Internet Settings proxy configuration")
      | ok none ↦ ok []
      | ok (some text) ↦ ok (windows_candidates (m.registry_captures text))
    ]
