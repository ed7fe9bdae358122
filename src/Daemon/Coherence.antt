-- ===== src/Daemon/Coherence.antt =====
-- crates/cngd/src/main.rs: the file, the configuration and the relay's runtime agree, always.
use codex_no.Discovery.Search.{discover, save_manual_upstream}
use codex_no.Proxy.Runtime.{
  set_connect_timeout, set_direct_fallback, set_paused, replace_candidates,
}
use codex_no.Discovery.Secrets.{save_manual_upstream-IsSaved, IsSaved}
use codex_no.Daemon.Requests.{
  manual_config, after, Reply, Params, handle_auto, remote_stop, remote_start, handle_pause,
  with_remote, remote_pair, set_upstream, Outcome,
}
use codex_no.Model.Order.{ordered_lem, IsOrdered}
use codex_no.Base.{
  ◌≡◌, refl, subst, inl, inr, Bool, true, false, not, ◌||◌, Option, none, some, if◌then◌else◌,
  Bool-cases, Option-cases, is_some,
}
use codex_no.Base.Text.{Text, codes, is_empty}
use mathlib.Core.Bool.{false≢true}
use codex_no.Url.{UrlLib}
use codex_no.Base.Results.{ok, err, Result-cases}
use codex_no.Config.{GuardConfig}
use codex_no.Daemon.{
  set_connect_timeout, discover, set_direct_fallback, is_running, set_paused, replace_candidates,
  refresh_once, save_config, ensure_remote_started, AppState, World,
}

module _ (U : UrlLib) (first : GuardConfig) where
  -- The configuration holds no URL with credentials, as the URL parser reads the text, and the settings that no request changes are
  -- those of the start.
  abbrev pub HoldsNoSecret : Option Text → Type 0
  HoldsNoSecret none = Unit
  HoldsNoSecret (some value) =
      (url : U.Url) × (U.parse value ≡ some url)
      × ((not (is_empty (U.username url)) || is_some (U.password url)) ≡ false)

  abbrev pub IsHeir : GuardConfig → Type 0
  IsHeir c =
      (c.direct_fallback ≡ first.direct_fallback)
      × (c.listen ≡ first.listen)
      × (c.connect_timeout_ms ≡ first.connect_timeout_ms)
      × (c.health_interval_secs ≡ first.health_interval_secs)
      × (c.codex_path ≡ first.codex_path)
      × HoldsNoSecret c.manual_upstream

  abbrev pub IsCoherent : AppState U → Type 0
  IsCoherent s =
      (s.stored ≡ s.config)
      × (s.runtime.is_paused ≡ s.config.paused)
      × (s.runtime.direct_fallback ≡ s.config.direct_fallback)
      × (s.runtime.connect_timeout ≡ s.config.connect_timeout_ms)
      × IsOrdered U s.runtime.candidates
      × IsHeir s.config

  -- Two states that differ only in what is known of the remote control.
  abbrev pub AgreesBut : AppState U → AppState U → Type 0
  AgreesBut s t = (s.config ≡ t.config) × (s.stored ≡ t.stored) × (s.runtime ≡ t.runtime)

  pub AgreesBut-IsCoherent : (s t : AppState U) → AgreesBut s t → IsCoherent s → IsCoherent t
  AgreesBut-IsCoherent s t (c, d, r) h =
      subst (λ x. IsCoherent (record t { config = x })) c
        (subst (λ x. IsCoherent (record t { config = s.config; stored = x })) d
          (subst (λ x. IsCoherent (record t { config = s.config; stored = s.stored; runtime = x }))
            r h))

  module _ (w : World U) where
    save_config-IsCoherent :
        (config : GuardConfig) (s : AppState U)
        → IsCoherent s
        → IsHeir config
        → IsCoherent (save_config U w config s).1
    unfolding save_config set_paused set_direct_fallback set_connect_timeout
    save_config-IsCoherent config s h heir = elim (Option-cases w.save_fault) [
      | inr (e, f) ↦ rw (f, save_config) h
      | inl f ↦
          let (_, _, _, _, ordered, _) = h in
          rw (f, save_config) (refl, refl, refl, refl, ordered, heir)
    ]

    pub refresh_once-IsCoherent :
        (s : AppState U) → IsCoherent s → IsCoherent (refresh_once U w s).1
    unfolding refresh_once replace_candidates
    refresh_once-IsCoherent s h = elim (Result-cases (discover U w.host s.config)) [
      | inr (e, f) ↦ rw (f, refresh_once) h
      | inl (cs, f) ↦
          let (stored, paused, fallback, timeout, _, heir) = h in
          rw (f, refresh_once)
            (
              stored,
              paused,
              fallback,
              timeout,
              (ordered_lem U _ (λ c. false) (λ a b p q. absurd (false≢true p))).1,
              heir,
            )
    ]

    pub remote_started-AgreesBut :
        (real : Text) (s : AppState U) → AgreesBut s (ensure_remote_started U w real s).1
    unfolding ensure_remote_started
    remote_started-AgreesBut real s = elim (Bool-cases (is_running U w s.remote_child)) [
      | inl e ↦ rw (e, ensure_remote_started) (refl, refl, refl)
      | inr e ↦ elim (Result-cases (w.spawn_remote_control real)) [
        | inl (child, f) ↦ rw (e, f, ensure_remote_started) (refl, refl, refl)
        | inr (reason, f) ↦ rw (e, f, ensure_remote_started) (refl, refl, refl)
      ]
    ]

    pub after-IsCoherent :
        {A B : Type 0} (o : Outcome U w A) (k : A → AppState U → Outcome U w B)
        → IsCoherent o.1
        → ((a : A) (s : AppState U) → IsCoherent s → IsCoherent (k a s).1)
        → IsCoherent (after U w o k).1
    after-IsCoherent (ok a, s) k h p = p a s h
    after-IsCoherent (err e, s) k h p = h

    pub refreshed-IsCoherent :
        {A : Type 0} (s : AppState U) (k : Unit {0} → AppState U → Outcome U w A)
        → ((u : Unit {0}) (t : AppState U) → IsCoherent t → IsCoherent (k u t).1)
        → IsCoherent s
        → IsCoherent (after U w (refresh_once U w s) k).1
    refreshed-IsCoherent s k p h =
        after-IsCoherent (refresh_once U w s) k (refresh_once-IsCoherent s h) p

    saved-IsCoherent :
        {A : Type 0} (config : GuardConfig) (s : AppState U)
        (k : Unit {0} → AppState U → Outcome U w A)
        → ((u : Unit {0}) (t : AppState U) → IsCoherent t → IsCoherent (k u t).1)
        → IsCoherent s
        → IsHeir config
        → IsCoherent (after U w (save_config U w config s) k).1
    saved-IsCoherent config s k p h heir =
        after-IsCoherent (save_config U w config s) k (save_config-IsCoherent config s h heir) p

    pub IsHeir-of : (s : AppState U) → IsCoherent s → IsHeir s.config
    IsHeir-of s (_, _, _, _, _, heir) = heir

    pub pause-IsCoherent :
        (params : Params) (s : AppState U) → IsCoherent s → IsCoherent (handle_pause U w params s).1
    unfolding handle_pause
    pause-IsCoherent params s h = elim (Option-cases (params.get_bool (codes "paused"))) [
      | inl e ↦ rw (e, handle_pause) h
      | inr (b, e) ↦
          rw (e, handle_pause)
            (saved-IsCoherent (record s.config { paused = b }) s _ (λ u t k. k) h (IsHeir-of s h))
    ]

    pub auto-IsCoherent : (s : AppState U) → IsCoherent s → IsCoherent (handle_auto U w s).1
    unfolding handle_auto
    auto-IsCoherent s h =
        let (fallback, listen, timeout, interval, path, _) = IsHeir-of s h in
        saved-IsCoherent _ s _ (λ u t k. refreshed-IsCoherent t _ (λ v t' k'. k') k) h
          (fallback, listen, timeout, interval, path, tt)

    manual_lem :
        (value : Text) (stored : Bool)
        → IsSaved U w.host value stored
        → HoldsNoSecret (if stored then none else some value)
    manual_lem value true saved = tt
    manual_lem value false (url, parsed, same, _) = (url, parsed, same)

    pub set-IsCoherent :
        (value : Text) (s : AppState U) → IsCoherent s → IsCoherent (set_upstream U w value s).1
    unfolding set_upstream
    set-IsCoherent value s h = elim (Result-cases (save_manual_upstream U w.host value)) [
      | inr (reason, e) ↦ rw (e, set_upstream) h
      | inl (stored, e) ↦
          let (fallback, listen, timeout, interval, path, _) = IsHeir-of s h in
          rw (e, set_upstream)
            (saved-IsCoherent (manual_config U w value stored s.config) s _
              (λ u t k. refreshed-IsCoherent t _ (λ v t' k'. k') k) h
              (
                fallback,
                listen,
                timeout,
                interval,
                path,
                manual_lem value stored (save_manual_upstream-IsSaved U w.host value stored e),
              ))
    ]

    pub remote_start-IsCoherent :
        (real : Text) (s : AppState U) → IsCoherent s → IsCoherent (remote_start U w real s).1
    unfolding remote_start
    remote_start-IsCoherent real s h =
        saved-IsCoherent (record s.config { remote_control_keepalive = true }) s _
          (λ u t k.
            after-IsCoherent (ensure_remote_started U w real t) _
              (AgreesBut-IsCoherent t (ensure_remote_started U w real t).1
                (remote_started-AgreesBut real t) k)
              (λ v t' k'. k'))
          h (IsHeir-of s h)

    pub remote_stop-IsCoherent : (s : AppState U) → IsCoherent s → IsCoherent (remote_stop U w s).1
    unfolding remote_stop
    remote_stop-IsCoherent s h =
        saved-IsCoherent (record s.config { remote_control_keepalive = false }) s _ (λ u t k. k) h
          (IsHeir-of s h)

    pub remote_pair-IsCoherent :
        (real : Text) (s : AppState U) → IsCoherent s → IsCoherent (remote_pair U w real s).1
    unfolding remote_pair
    remote_pair-IsCoherent real s h = elim (Result-cases (w.pair real)) [
      | inl (value, e) ↦ rw (e, remote_pair) h
      | inr (reason, e) ↦ rw (e, remote_pair) h
    ]

    pub with_remote-IsCoherent :
        (action : Text → AppState U → Outcome U w (Reply U)) (s : AppState U)
        → ((real : Text) → IsCoherent (action real s).1)
        → IsCoherent s
        → IsCoherent (with_remote U w action s).1
    unfolding with_remote
    with_remote-IsCoherent action s p h = elim (Option-cases (w.find_real_codex s.config)) [
      | inl e ↦ rw (e, with_remote) h
      | inr (real, e) ↦ elim (Bool-cases (w.supports_remote_control real)) [
        | inl f ↦ rw (e, f, with_remote) (p real)
        | inr f ↦ rw (e, f, with_remote) h
      ]
    ]
