-- ===== src/Discovery/Examples.antt =====
-- crates/cng-core/src/discovery.rs: a search on macOS with a manual upstream, and the theorems there.
use codex_no.Url.{UrlLib}
use codex_no.Discovery.Found.{AreDifferent, discover-AreDistinct}
use codex_no.Model.{manual}
use codex_no.Discovery.Offers.{IsFrom, IsProxy}
use codex_no.Discovery.Secrets.{save_manual_upstream-IsSaved, IsSaved}
use codex_no.Discovery.Distinct.{deduplicate-AreDistinct, with_id, AreDistinct, IsWithin}
use codex_no.Discovery.{UrlLib, deduplicate, discover_environment_from, Candidates}
use codex_no.Discovery.System.{Machine}
use codex_no.Base.{◌≡◌, refl, ◌⊎◌, true, false, Option, none, some, [], ◌∷◌, ◌++◌, find_if, All}
use codex_no.Base.Text.{Text, codes}
use codex_no.Url.Sample.{sample_lib, plain}
use codex_no.Base.Results.{ok, err}
use codex_no.Discovery.Search.{
  collected, manual_candidates, save_on_macos, manual_upstream, save_manual_upstream, discover,
  Host, macos,
}
use codex_no.Config.{default_listen, GuardConfig, auto}

abbrev upstream : Text
upstream = codes "http://10.0.0.2:8080"

abbrev machine : Machine
machine = record {
  pac_captures = λ t. [];
  scutil_captures = λ t.
      (codes "HTTPEnable", codes "1")
      ∷ (codes "HTTPProxy", codes "10.0.0.3")
      ∷ (codes "HTTPPort", codes "80")
      ∷ [];
  registry_captures = λ t. [];
  download = λ t. err (codes "offline");
  scutil = ok (some (codes "fields"));
  registry = err (codes "no registry");
}

abbrev host : Host
host = record {
  platform = macos;
  machine = machine;
  variable = λ key. some upstream;
  find_password = ok none;
  add_password = λ value. ok true;
}

abbrev config : GuardConfig
config = record {
  listen = default_listen;
  mode = auto;
  health_interval_secs = 5;
  connect_timeout_ms = 2500;
  direct_fallback = false;
  remote_control_keepalive = true;
  paused = false;
  manual_upstream = some upstream;
  manual_upstream_keychain = false;
  codex_path = none;
}

abbrev found : Candidates sample_lib
found = deduplicate sample_lib (collected sample_lib host (some upstream) auto)

found_lem : discover sample_lib host config ≡ ok found
unfolding discover manual_upstream
found_lem = refl

discover-AreDistinct_example :
    AreDistinct sample_lib found
    × AreDifferent sample_lib found
    × All (IsProxy sample_lib) found
    × ((value : Option Text) × (rest : Candidates sample_lib) × (manual_upstream host config
          ≡ ok value)
        × (found ≡ manual_candidates sample_lib host value ++ rest))
    × ((auto ≡ auto) ⊎ All (IsFrom sample_lib manual) found)
discover-AreDistinct_example = discover-AreDistinct sample_lib host config found found_lem

-- The same URL from two variables.
abbrev twice : Candidates sample_lib
twice = discover_environment_from sample_lib (λ key. some upstream)

deduplicate-AreDistinct_example :
    IsWithin sample_lib (deduplicate sample_lib twice) twice
    × AreDistinct sample_lib (deduplicate sample_lib twice)
    × (find_if
          (with_id sample_lib (codes "3:0:http://10.0.0.2:8080"))
          (deduplicate sample_lib twice)
        ≡ find_if (with_id sample_lib (codes "3:0:http://10.0.0.2:8080")) twice)
deduplicate-AreDistinct_example =
    deduplicate-AreDistinct sample_lib twice (codes "3:0:http://10.0.0.2:8080")

-- A library whose parser finds a password in every text.
abbrev secret_lib : UrlLib
secret_lib = record sample_lib {
  parse = λ t. some (record (plain (codes "http") (codes "10.0.0.2") (some 8080)) {
    user = codes "alice";
    secret = some (codes "secret");
  });
}

saved_lem : save_manual_upstream secret_lib host upstream ≡ ok true
unfolding save_manual_upstream save_on_macos
saved_lem = refl

save_manual_upstream-IsSaved_example : IsSaved secret_lib host upstream true
save_manual_upstream-IsSaved_example =
    save_manual_upstream-IsSaved secret_lib host upstream true saved_lem
