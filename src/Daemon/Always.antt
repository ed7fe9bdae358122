-- ===== src/Daemon/Always.antt =====
-- crates/cngd/src/main.rs: what holds in every state that the daemon can reach.
use codex_no.Model.{default_remote}
use codex_no.Proxy.Runtime.{new_runtime}
use codex_no.Daemon.Coherence.{
  remote_pair-IsCoherent, remote_stop-IsCoherent, remote_start-IsCoherent, with_remote-IsCoherent,
  remote_started-AgreesBut, auto-IsCoherent, pause-IsCoherent, AgreesBut-IsCoherent,
  refreshed-IsCoherent, refresh_once-IsCoherent, set-IsCoherent, IsCoherent, HoldsNoSecret,
}
use codex_no.Daemon.Requests.{
  Method, dispatch, method_of, remote_pair, remote_stop, remote_start, handle_doctor, Params,
  handle_refresh, handle_set, handle, ask_status, ask_refresh, ask_pause, ask_auto, ask_set,
  ask_doctor, ask_start, ask_stop, ask_pair, ask_unknown,
}
use codex_no.Daemon.Keepalive.{
  ran_long, wait, note_exit, note_failure, Keeper, inspect, keepalive_round, try_start, round_with,
  restart, Clock,
}
use codex_no.Config.{GuardConfig}
use codex_no.Base.{
  ◌≡◌, refl, ◌∙◌, subst, inl, inr, Bool, true, false, Option, none, some, ◌++◌, arith, Bool-cases,
  Option-cases,
}
use codex_no.Base.Text.{Text, codes}
use codex_no.Url.{UrlLib}
use codex_no.Base.Results.{ok, Result-cases}
use codex_no.Daemon.{
  ChildState, ensure_remote_started, Child, default_remote, new_runtime, start, GuardConfig,
  AppState, World, running, exited, not_inspected,
}
use codex_no.Daemon.Steps.{Reachable, Step, handled, refreshed, kept_alive, started, stepped}

module _ (U : UrlLib) where
  abbrev pub Agrees : AppState U → AppState U → Type 0
  Agrees s t = (s.config ≡ t.config) × (s.stored ≡ t.stored) × (s.runtime ≡ t.runtime)

  Agrees-trans : (r s t : AppState U) → Agrees r s → Agrees s t → Agrees r t
  Agrees-trans r s t (a, b, c) (d, e, f) = (a ∙ d, b ∙ e, c ∙ f)

  -- A round of the keepalive loop touches only what is known of the remote control.
  module _ (w : World U) (clock : Clock) where
    try_start-Agrees : (real : Text) (k : Keeper U) → Agrees k.app (try_start U w clock real k).app
    unfolding try_start note_failure wait
    try_start-Agrees real k = elim (Bool-cases (w.supports_remote_control real)) [
      | inr e ↦ rw (e, try_start) (refl, refl, refl)
      | inl e ↦ elim (Result-cases (ensure_remote_started U w real k.app).0) [
        | inl (u, o) ↦ rw (e, try_start, o) (remote_started-AgreesBut U k.app.config w real k.app)
        | inr (reason, o) ↦
            rw (e, try_start, o) (remote_started-AgreesBut U k.app.config w real k.app)
      ]
    ]

    restart-Agrees :
        (config : GuardConfig) (k : Keeper U) → Agrees k.app (restart U w clock config k).app
    unfolding restart
    restart-Agrees config k = elim (Option-cases (w.find_real_codex config)) [
      | inl e ↦ rw (e, restart) (refl, refl, refl)
      | inr (real, e) ↦ rw (e, restart) (try_start-Agrees real k)
    ]

    inspect-Agrees :
        (config : GuardConfig) (c : ChildState) (k : Keeper U)
        → Agrees k.app (inspect U w clock config c k).app
    unfolding inspect note_exit wait
    inspect-Agrees config running k = elim (Bool-cases (ran_long k.last_started clock.looked)) [
      | inl e ↦ rw (e, inspect) (refl, refl, refl)
      | inr e ↦ rw (e, inspect) (refl, refl, refl)
    ]
    inspect-Agrees config (exited how) k =
        restart-Agrees config (note_exit U w clock (codes "remote-control exited with " ++ how) k)
    inspect-Agrees config (not_inspected e) k =
        restart-Agrees config
          (note_exit U w clock (codes "could not inspect remote-control: " ++ e) k)

    round_with-Agrees :
        (on : Bool) (child : Option Child) (k : Keeper U)
        → Agrees k.app (round_with U w clock on child k).app
    unfolding round_with
    round_with-Agrees false child k = (refl, refl, refl)
    round_with-Agrees true none k = restart-Agrees k.app.config k
    round_with-Agrees true (some child) k = inspect-Agrees k.app.config (w.try_wait child) k

    round-Agrees : (k : Keeper U) → Agrees k.app (keepalive_round U w clock k).app
    unfolding keepalive_round
    round-Agrees k = round_with-Agrees _ _ k

  module _ (first : GuardConfig) where
    handle_set-IsCoherent :
        (w : World U) (params : Params) (s : AppState U)
        → IsCoherent U first s
        → IsCoherent U first (handle_set U w params s).1
    unfolding handle_set
    handle_set-IsCoherent w params s h = elim (Option-cases (params.get_str (codes "url"))) [
      | inl e ↦ rw (e, handle_set) h
      | inr (value, e) ↦ rw (e, handle_set) (set-IsCoherent U first w value s h)
    ]

    dispatch-IsCoherent :
        (w : World U) (m : Method) (method : Text) (params : Params) (s : AppState U)
        → IsCoherent U first s
        → IsCoherent U first (dispatch U w m method params s).1
    unfolding dispatch handle_refresh handle_doctor
    dispatch-IsCoherent w ask_status method params s h = h
    dispatch-IsCoherent w ask_refresh method params s h =
        refreshed-IsCoherent U first w s _ (λ u t k. k) h
    dispatch-IsCoherent w ask_pause method params s h = pause-IsCoherent U first w params s h
    dispatch-IsCoherent w ask_auto method params s h = auto-IsCoherent U first w s h
    dispatch-IsCoherent w ask_set method params s h = handle_set-IsCoherent w params s h
    dispatch-IsCoherent w ask_doctor method params s h = h
    dispatch-IsCoherent w ask_start method params s h =
        with_remote-IsCoherent U first w (remote_start U w) s
          (λ real. remote_start-IsCoherent U first w real s h) h
    dispatch-IsCoherent w ask_stop method params s h =
        with_remote-IsCoherent U first w (λ real. remote_stop U w) s
          (λ real. remote_stop-IsCoherent U first w s h) h
    dispatch-IsCoherent w ask_pair method params s h =
        with_remote-IsCoherent U first w (remote_pair U w) s
          (λ real. remote_pair-IsCoherent U first w real s h) h
    dispatch-IsCoherent w ask_unknown method params s h = h

    handle-IsCoherent :
        (w : World U) (s : AppState U) (method : Text) (params : Params)
        → IsCoherent U first s
        → IsCoherent U first (handle U w s method params).1
    unfolding handle
    handle-IsCoherent w s method params h =
        dispatch-IsCoherent w (method_of method) method params s h

    Step-IsCoherent : {s t : AppState U} → Step U s t → IsCoherent U first s → IsCoherent U first t
    Step-IsCoherent (handled w s method params) h = handle-IsCoherent w s method params h
    Step-IsCoherent (refreshed w s) h = refresh_once-IsCoherent U first w s h
    Step-IsCoherent (kept_alive w clock k) h =
        AgreesBut-IsCoherent U first k.app (keepalive_round U w clock k).app
          (round-Agrees w clock k) h

    start-IsCoherent :
        (s : AppState U)
        → HoldsNoSecret U first first.manual_upstream
        → start U first ≡ ok s
        → IsCoherent U first s
    unfolding start new_runtime
    start-IsCoherent s clean e = elim (Bool-cases first.listen.is_loopback) [
      | inr b ↦ absurd (ground arith)
      | inl b ↦
          let same : record {
            config = first;
            stored = first;
            runtime = new_runtime U first;
            remote = default_remote;
            remote_child = none;
          }
              ≡ s =
            ground arith in
          subst (IsCoherent U first) same
            (refl, refl, refl, refl, tt, (refl, refl, refl, refl, refl, clean))
    ]

    -- Started with a configuration that holds no credentials, the daemon is at every moment, between
    -- requests, refreshes and rounds of the keepalive loop in any order and with any failures, in a state
    -- where the file and the memory hold the same configuration, the relay runs with that
    -- configuration's flags and time limit, its candidates are in order, the stored manual upstream is
    -- absent or a text that the URL parser reads as a URL without credentials, and the direct fallback,
    -- the address, the time limit, the interval and the path of Codex are still those of the start.
    pub Reachable-IsCoherent :
        {s : AppState U}
        → HoldsNoSecret U first first.manual_upstream
        → Reachable U first s
        → IsCoherent U first s
    Reachable-IsCoherent clean (started s e) = start-IsCoherent s clean e
    Reachable-IsCoherent clean (stepped r step) =
        Step-IsCoherent step (Reachable-IsCoherent clean r)
