-- ===== src/Proxy/Runtime.antt =====
-- crates/cng-core/src/proxy.rs: the state that the relay's connections share.
use codex_no.Base.{ℕ, Bool, List, []}
use codex_no.Url.{UrlLib}
use codex_no.Model.Health.{CandidateHealth, sort_candidates}
use codex_no.Config.{GuardConfig}

pub record ProxyRuntime (U : UrlLib) : Type 0 where
  pub candidates : List (CandidateHealth U)
  pub is_paused : Bool
  pub direct_fallback : Bool
  -- Milliseconds.
  pub connect_timeout : ℕ

module _ (U : UrlLib) where
  -- `ProxyRuntime::new`.
  unfoldable pub new_runtime : GuardConfig → ProxyRuntime U
  new_runtime config = record {
    candidates = [];
    is_paused = config.paused;
    direct_fallback = config.direct_fallback;
    connect_timeout = config.connect_timeout_ms;
  }

  unfoldable pub replace_candidates : List (CandidateHealth U) → ProxyRuntime U → ProxyRuntime U
  replace_candidates candidates r = record r { candidates = sort_candidates U candidates }

  unfoldable pub set_paused : Bool → ProxyRuntime U → ProxyRuntime U
  set_paused paused r = record r { is_paused = paused }

  unfoldable pub set_direct_fallback : Bool → ProxyRuntime U → ProxyRuntime U
  set_direct_fallback enabled r = record r { direct_fallback = enabled }

  unfoldable pub set_connect_timeout : ℕ → ProxyRuntime U → ProxyRuntime U
  set_connect_timeout value r = record r { connect_timeout = value }
