-- ===== src/Daemon/Settings/Refined.antt =====
-- crates/cngd/src/main.rs: every request implements the machine of the settings.
use codex_no.Daemon.Settings.{Settings, settings_of, Asks, Refines}
use codex_no.Config.{GuardConfig}
use codex_no.Daemon.Requests.{
  ask_status, ask_refresh, ask_doctor, ask_pair, handle_doctor, handle_refresh, method_of, ask_pair,
  manual_config, handle, remote_start, remote_pair, handle_auto, with_remote, handle_pause,
  set_upstream, remote_stop, handle_set, dispatch, Method, ask_pause, ask_auto, ask_set, ask_start,
  ask_stop, ask_unknown, Params, Reply, Outcome, after, tell_status,
}
use codex_no.Daemon.{
  AppState, World, save_config, refresh_once, ensure_remote_started, status, is_running,
}
use codex_no.Discovery.Search.{save_manual_upstream, discover}
use codex_no.Base.Results.{ok, err, Result-cases}
use codex_no.Url.{UrlLib}
use codex_no.Base.{ap, ◌≡◌, refl, ◌∙◌, inl, inr, Bool, true, false, some, Bool-cases, Option-cases}
use codex_no.Base.Text.{Text, codes}

module _ (U : UrlLib) where
  module _ (w : World U) (m : Method) (p : Params) where
    refresh_once-config : (s : AppState U) → (refresh_once U w s).1.config ≡ s.config
    unfolding refresh_once
    refresh_once-config s = elim (Result-cases (discover U w.host s.config)) [
      | inl (cs, e) ↦ rw (e, refresh_once) refl
      | inr (e', e) ↦ rw (e, refresh_once) refl
    ]

    started-config :
        (real : Text) (s : AppState U) → (ensure_remote_started U w real s).1.config ≡ s.config
    unfolding ensure_remote_started
    started-config real s = elim (Bool-cases (is_running U w s.remote_child)) [
      | inl e ↦ rw (e, ensure_remote_started) refl
      | inr e ↦ elim (Result-cases (w.spawn_remote_control real)) [
        | inl (child, f) ↦ rw (e, f, ensure_remote_started) refl
        | inr (reason, f) ↦ rw (e, f, ensure_remote_started) refl
      ]
    ]

    told-Refines :
        (a : Settings) (s : AppState U)
        → Asks m p a (settings_of s.config)
        → Refines U m p a (tell_status U w s)
    unfolding status
    told-Refines a s h = (h, refl)

    -- A step that keeps the configuration, after the move.
    kept-Refines :
        {A : Type 0} (a : Settings) (c : GuardConfig) (o : Outcome U w A)
        (k : A → AppState U → Outcome U w (Reply U))
        → o.1.config ≡ c
        → Asks m p a (settings_of c)
        → ((x : A) (t : AppState U) → t.config ≡ c → Refines U m p a (k x t))
        → Refines U m p a (after U w o k)
    kept-Refines a c (ok x, t) k e h next = next x t e
    kept-Refines a c (err r, t) k e h next = inr (rw e h)

    saved-Refines :
        (c : GuardConfig) (s : AppState U) (k : Unit {0} → AppState U → Outcome U w (Reply U))
        → Asks m p (settings_of s.config) (settings_of c)
        → ((u : Unit {0}) (t : AppState U)
            → t.config ≡ c
            → Refines U m p (settings_of s.config) (k u t))
        → Refines U m p (settings_of s.config) (after U w (save_config U w c s) k)
    unfolding save_config
    saved-Refines c s k h next = elim (Option-cases w.save_fault) [
      | inr (e, f) ↦ rw (f, save_config) (inl refl)
      | inl f ↦ rw (f, save_config) (next tt _ refl)
    ]

    asked_then_told :
        (a : Settings) (c : GuardConfig)
        → Asks m p a (settings_of c)
        → (t : AppState U) → t.config ≡ c
        → Refines U m p a (tell_status U w t)
    asked_then_told a c h t e = told-Refines a t (rw e h)

    refreshed-Refines :
        (a : Settings) (c : GuardConfig)
        → Asks m p a (settings_of c)
        → (t : AppState U) → t.config ≡ c
        → Refines U m p a (after U w (refresh_once U w t) (λ v t'. tell_status U w t'))
    refreshed-Refines a c h t e =
        kept-Refines a c (refresh_once U w t) _ (refresh_once-config t ∙ e) h
          (λ v t' e'. asked_then_told a c h t' e')

  module _ (w : World U) (p : Params) where
    pause-Refines :
        (s : AppState U) → Refines U ask_pause p (settings_of s.config) (handle_pause U w p s)
    unfolding handle_pause
    pause-Refines s = elim (Option-cases (p.get_bool (codes "paused"))) [
      | inl e ↦ rw (e, handle_pause) (inl refl)
      | inr (b, e) ↦
          rw (e, handle_pause)
            (saved-Refines w ask_pause p (record s.config { paused = b }) s _ (b, e, refl)
              (λ u t k. asked_then_told w ask_pause p (settings_of s.config) _ (b, e, refl) t k))
    ]

    auto-Refines :
        (s : AppState U) → Refines U ask_auto p (settings_of s.config) (handle_auto U w s)
    unfolding handle_auto
    auto-Refines s =
        saved-Refines w ask_auto p _ s _ refl
          (λ u t k. refreshed-Refines w ask_auto p (settings_of s.config) _ refl t k)

    manual-Asks :
        (value : Text) (stored : Bool) (c : GuardConfig)
        → p.get_str (codes "url") ≡ some value
        → Asks ask_set p (settings_of c) (settings_of (manual_config U w value stored c))
    manual-Asks value true c e = (value, e, inl refl)
    manual-Asks value false c e = (value, e, inr refl)

    set_upstream-Refines :
        (value : Text) (s : AppState U)
        → p.get_str (codes "url") ≡ some value
        → Refines U ask_set p (settings_of s.config) (set_upstream U w value s)
    unfolding set_upstream
    set_upstream-Refines value s e = elim (Result-cases (save_manual_upstream U w.host value)) [
      | inr (reason, f) ↦ rw (f, set_upstream) (inl refl)
      | inl (stored, f) ↦
          let asks = manual-Asks value stored s.config e in
          rw (f, set_upstream)
            (saved-Refines w ask_set p (manual_config U w value stored s.config) s _ asks
              (λ u t k. refreshed-Refines w ask_set p (settings_of s.config) _ asks t k))
    ]

    set-Refines : (s : AppState U) → Refines U ask_set p (settings_of s.config) (handle_set U w p s)
    unfolding handle_set
    set-Refines s = elim (Option-cases (p.get_str (codes "url"))) [
      | inl e ↦ rw (e, handle_set) (inl refl)
      | inr (value, e) ↦ rw (e, handle_set) (set_upstream-Refines value s e)
    ]

    remote_start-Refines :
        (real : Text) (s : AppState U)
        → Refines U ask_start p (settings_of s.config) (remote_start U w real s)
    unfolding remote_start
    remote_start-Refines real s = saved-Refines w ask_start p _ s _ refl (λ u t k.
        kept-Refines w ask_start p (settings_of s.config) _ (ensure_remote_started U w real t) _
          (started-config w ask_start p real t ∙ k) refl (λ v t' e. (ap settings_of e, tt)))

    remote_stop-Refines :
        (s : AppState U) → Refines U ask_stop p (settings_of s.config) (remote_stop U w s)
    unfolding remote_stop
    remote_stop-Refines s = saved-Refines w ask_stop p _ s _ refl (λ u t k. (ap settings_of k, tt))

    remote_pair-Refines :
        (real : Text) (s : AppState U)
        → Refines U ask_pair p (settings_of s.config) (remote_pair U w real s)
    unfolding remote_pair
    remote_pair-Refines real s = elim (Result-cases (w.pair real)) [
      | inl (value, e) ↦ rw (e, remote_pair) (refl, tt)
      | inr (reason, e) ↦ rw (e, remote_pair) (inl refl)
    ]

    with_remote-Refines :
        (m : Method) (action : Text → AppState U → Outcome U w (Reply U)) (s : AppState U)
        → ((real : Text) → Refines U m p (settings_of s.config) (action real s))
        → Refines U m p (settings_of s.config) (with_remote U w action s)
    unfolding with_remote
    with_remote-Refines m action s h = elim (Option-cases (w.find_real_codex s.config)) [
      | inl e ↦ rw (e, with_remote) (inl refl)
      | inr (real, e) ↦ elim (Bool-cases (w.supports_remote_control real)) [
        | inl f ↦ rw (e, f, with_remote) (h real)
        | inr f ↦ rw (e, f, with_remote) (inl refl)
      ]
    ]

    dispatch-Refines :
        (m : Method) (method : Text) (s : AppState U)
        → Refines U m p (settings_of s.config) (dispatch U w m method p s)
    unfolding dispatch handle_refresh handle_doctor status
    dispatch-Refines ask_status method s = (refl, refl)
    dispatch-Refines ask_refresh method s =
        refreshed-Refines w ask_refresh p (settings_of s.config) s.config refl s refl
    dispatch-Refines ask_pause method s = pause-Refines s
    dispatch-Refines ask_auto method s = auto-Refines s
    dispatch-Refines ask_set method s = set-Refines s
    dispatch-Refines ask_doctor method s = (refl, refl)
    dispatch-Refines ask_start method s =
        with_remote-Refines ask_start (remote_start U w) s (λ real. remote_start-Refines real s)
    dispatch-Refines ask_stop method s =
        with_remote-Refines ask_stop (λ real. remote_stop U w) s (λ real. remote_stop-Refines s)
    dispatch-Refines ask_pair method s =
        with_remote-Refines ask_pair (remote_pair U w) s (λ real. remote_pair-Refines real s)
    dispatch-Refines ask_unknown method s = inl refl

  pub handle-Refines :
      (w : World U) (s : AppState U) (method : Text) (p : Params)
      → Refines U (method_of method) p (settings_of s.config) (handle U w s method p)
  unfolding handle
  handle-Refines w s method p = dispatch-Refines w p (method_of method) method s
