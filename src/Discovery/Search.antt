-- ===== src/Discovery/Search.antt =====
-- crates/cng-core/src/discovery.rs: `discover`, and the storing of a manual upstream.
use codex_no.Model.{manual}
use codex_no.Discovery.{
  common_loopback_candidates, deduplicate, add_url, discover_environment_from, Candidates,
}
use codex_no.Config.{GuardMode, GuardConfig, auto, manual_mode, GuardMode}
use codex_no.Discovery.System.{
  discover_windows_system_proxy, discover_macos_system_proxy, default_to_none, Machine,
}
use codex_no.Base.{
  Bool, true, false, not, ◌&&◌, ◌||◌, Option, none, some, [], ◌++◌, if◌then◌else◌, is_some,
}
use codex_no.Base.Text.{Text, codes, is_empty, trim}
use codex_no.Url.{UrlLib}
use codex_no.Base.Results.{Result, ok, err, ◌>>=◌, ◌>>◌, ensure, or_fail}

-- The platforms that the source is compiled for.
pub data Platform : Type 0 where
  macos windows elsewhere : Platform

-- What a search takes from outside, besides the operating system's settings: the environment, and
-- the two commands on the keychain.
pub record Host : Type 0 where
  pub platform : Platform
  pub machine : Machine
  pub variable : Text → Option Text
  pub find_password : Result (Option Text)
  -- Whether the value could be stored.
  pub add_password : Text → Result Bool

unfoldable pub read_manual_upstream_keychain : Host → Result (Option Text)
unfolding trim
read_manual_upstream_keychain h = elim h.platform [
  | macos ↦ elim h.find_password [
    | err e ↦ err e
    | ok none ↦ ok none
    | ok (some value) ↦ ok (some (trim value))
  ]
  | _ ↦ ok none
]

unfoldable pub manual_upstream : Host → GuardConfig → Result (Option Text)
manual_upstream h config =
    if config.manual_upstream_keychain
    then read_manual_upstream_keychain h
    else ok config.manual_upstream

abbrev pub is_manual : GuardMode → Bool
is_manual auto = false
is_manual manual_mode = true

module _ (U : UrlLib) (h : Host) where
  unfoldable pub system_candidates : Candidates U
  system_candidates = elim h.platform [
    | macos ↦ default_to_none (discover_macos_system_proxy U h.machine)
    | windows ↦ default_to_none (discover_windows_system_proxy U h.machine)
    | elsewhere ↦ []
  ]

  unfoldable pub manual_candidates : Option Text → Candidates U
  manual_candidates none = []
  manual_candidates (some value) = add_url U [] value manual (codes "Manual upstream")

  -- All that is found, in the order in which it is collected.
  unfoldable pub collected : Option Text → GuardMode → Candidates U
  collected value mode =
      if is_manual mode
      then manual_candidates value
      else manual_candidates value
        ++ (system_candidates
            ++ (discover_environment_from U h.variable ++ common_loopback_candidates U))

  unfoldable pub discover : GuardConfig → Result (Candidates U)
  discover config = do
    value ← manual_upstream h config
    ok (deduplicate U (collected value config.mode))

  abbrev pub has_secret : U.Url → Bool
  has_secret url = not (is_empty (U.username url)) || is_some (U.password url)

  -- On macOS a URL with credentials goes into the keychain.
  unfoldable pub save_on_macos : Text → U.Url → Result Bool
  save_on_macos value url = do
    ensure (is_some (U.host_str url) && is_some (U.port_or_known_default url))
        (codes "manual upstream must contain a host and port")
    stored ← (if has_secret url then h.add_password value else ok true)
    ensure stored (codes "could not store proxy credentials in Keychain")
    ok (has_secret url)

  unfoldable pub save_elsewhere : U.Url → Result Bool
  save_elsewhere url = do
    ensure (not (has_secret url)) (codes "credential storage is not implemented on this platform")
    ok false

  -- Whether the value went into the keychain.
  unfoldable pub save_manual_upstream : Text → Result Bool
  save_manual_upstream value = do
    url ← or_fail (U.parse value) (codes "manual upstream must be a valid URL")
    elim h.platform [ macos ↦ save_on_macos value url | _ ↦ save_elsewhere url ]
