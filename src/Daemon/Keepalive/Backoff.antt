-- ===== src/Daemon/Keepalive/Backoff.antt =====
-- crates/cngd/src/main.rs: how long the keepalive loop waits after failures.
use codex_no.Daemon.Keepalive.Pace.{
  Event, failed, launched, seen, Pace, follow, play, play_append, seconds_lem, IsBounded,
  play-IsBounded,
}
use codex_no.Config.{GuardConfig}
use codex_no.Daemon.Keepalive.{
  round_with, ran_long, longer, note_failure, note_exit, wait, try_start, inspect, restart,
  keepalive_round, Clock, Keeper,
}
use codex_no.Base.{
  ◌+◌, ◌++◌, leb, if◌then◌else◌, ap, sym, subst, ◌∙◌, ℕ, ◌≡◌, refl, inl, inr, Bool, true, false,
  Option, none, some, List, [], ◌∷◌, arith, Bool-cases, Option-cases,
}
use codex_no.Base.Text.{Text, codes}
use codex_no.Url.{UrlLib}
use codex_no.Base.Results.{Result-cases, ok, err}
use codex_no.Daemon.{
  Child, ensure_remote_started, ChildState, GuardConfig, World, AppState, running, exited,
  not_inspected,
}

module _ (U : UrlLib) where
  abbrev pub pace_of : Keeper U → Pace
  pace_of k = record { delay = k.backoff; waits = k.waits; since = k.last_started }

  module _ (w : World U) (clock : Clock) where
    -- A Codex that is found and has the remote control is started, which succeeds or fails.
    unfoldable pub start_events : GuardConfig → AppState U → List Event
    start_events config app = elim (w.find_real_codex config) [
      | none ↦ []
      | some real ↦
          if w.supports_remote_control real
          then (elim (ensure_remote_started U w real app).0 [
            | ok _ ↦ launched clock.started ∷ []
            | err _ ↦ failed ∷ []
          ])
          else []
    ]

    -- A child that is gone is a failure, and is started again; `forget` gives the state without it.
    unfoldable pub child_events : GuardConfig → ChildState → (Text → AppState U) → List Event
    child_events config running forget = seen clock.looked ∷ []
    child_events config (exited how) forget =
        failed ∷ start_events config (forget (codes "remote-control exited with " ++ how))
    child_events config (not_inspected e) forget =
        failed ∷ start_events config (forget (codes "could not inspect remote-control: " ++ e))

    -- Nothing is met while the keepalive is off.
    unfoldable pub round_events : Keeper U → List Event
    round_events k =
        if k.app.config.remote_control_keepalive
        then (elim k.app.remote_child [
          | none ↦ start_events k.app.config k.app
          | some child ↦
              child_events k.app.config (w.try_wait child) (λ why. (note_exit U w clock why k).app)
        ])
        else []

    restart_lem :
        (config : GuardConfig) (k : Keeper U)
        → pace_of (restart U w clock config k) ≡ play (start_events config k.app) (pace_of k)
    unfolding restart try_start start_events note_failure wait longer follow
    restart_lem config k = elim (Option-cases (w.find_real_codex config)) [
      | inl e ↦ rw (e, restart, start_events) refl
      | inr (real, e) ↦ elim (Bool-cases (w.supports_remote_control real)) [
        | inr s ↦ rw (e, restart, start_events, s, try_start) refl
        | inl s ↦ elim (Result-cases (ensure_remote_started U w real k.app).0) [
          | inl (u, o) ↦ rw (e, restart, start_events, s, try_start, o) refl
          | inr (reason, o) ↦ rw (e, restart, start_events, s, try_start, o) refl
        ]
      ]
    ]

    running_lem :
        (since : Option ℕ) (k : Keeper U)
        → k.last_started ≡ since
        → pace_of (if ran_long since clock.looked then record k { backoff = 1 } else k)
          ≡ (elim since [
            | none ↦ pace_of k
            | some s ↦
                if leb (s + 30) clock.looked then record (pace_of k) { delay = 1 } else pace_of k
          ])
    running_lem none k e = refl
    running_lem (some s) k e = elim (Bool-cases (leb (s + 30) clock.looked)) [
      | inl h ↦ rw (seconds_lem s clock.looked, h) refl
      | inr h ↦ rw (seconds_lem s clock.looked, h) refl
    ]

    inspect_lem :
        (config : GuardConfig) (c : ChildState) (k : Keeper U)
        → pace_of (inspect U w clock config c k)
          ≡ play (child_events config c (λ why. (note_exit U w clock why k).app)) (pace_of k)
    unfolding inspect child_events follow note_exit wait longer
    inspect_lem config running k = running_lem k.last_started k refl
    inspect_lem config (exited how) k = restart_lem config _
    inspect_lem config (not_inspected e) k = restart_lem config _

    round_with_lem :
        (on : Bool) (child : Option Child) (k : Keeper U)
        → pace_of (round_with U w clock on child k)
          ≡ play
              (if on
                then (elim child [
                  | none ↦ start_events k.app.config k.app
                  | some c ↦
                      child_events k.app.config
                        (w.try_wait c)
                        (λ why. (note_exit U w clock why k).app)
                ])
                else [])
              (pace_of k)
    unfolding round_with
    round_with_lem false child k = refl
    round_with_lem true none k = restart_lem k.app.config k
    round_with_lem true (some c) k = inspect_lem k.app.config (w.try_wait c) k

    round_lem :
        (k : Keeper U) → pace_of (keepalive_round U w clock k) ≡ play (round_events k) (pace_of k)
    unfolding keepalive_round round_events
    round_lem k = round_with_lem _ _ k

  -- Rounds of the loop, oldest first, between which requests may change the daemon's state.
  pub record Round : Type 0 where
    pub world : World U
    pub clock : Clock
    pub requests : AppState U → AppState U

  unfoldable pub keepalive_rounds : List Round → Keeper U → Keeper U
  keepalive_rounds [] k = k
  keepalive_rounds (r ∷ rs) k =
      keepalive_rounds rs (keepalive_round U r.world r.clock (record k { app = r.requests k.app }))

  -- What the rounds meet, in order.
  unfoldable pub rounds_events : List Round → Keeper U → List Event
  rounds_events [] k = []
  rounds_events (r ∷ rs) k =
      let begun = record k { app = r.requests k.app } in
      round_events r.world r.clock begun
      ++ rounds_events rs (keepalive_round U r.world r.clock begun)

  abbrev pub first_keeper : AppState U → Keeper U
  first_keeper app = record { app = app; backoff = 1; last_started = none; waits = [] }

  abbrev pub first_pace : Pace
  first_pace = record { delay = 1; waits = []; since = none }

  rounds_lem :
      (rs : List Round) (k : Keeper U)
      → pace_of (keepalive_rounds rs k) ≡ play (rounds_events rs k) (pace_of k)
  unfolding keepalive_rounds rounds_events
  rounds_lem [] k = refl
  rounds_lem (r ∷ rs) k =
      let begun : Keeper U = record k { app = r.requests k.app } in
      rounds_lem rs (keepalive_round U r.world r.clock begun)
      ∙ ap (play (rounds_events rs (keepalive_round U r.world r.clock begun)))
          (round_lem r.world r.clock begun)
      ∙ sym (play_append (round_events r.world r.clock begun) _ (pace_of begun))

  -- After any rounds of the keepalive loop, with any requests between them, its next wait, the waits
  -- that it made and the time of the last start are exactly those that the events of the rounds call
  -- for: a child that is gone or a start that fails makes a wait, which begins at one second and
  -- doubles each time up to 300 seconds, and a child that is seen running at least 30 seconds after
  -- the last start brings the next wait back to one second. So every wait is between one second and
  -- five minutes.
  pub keepalive_rounds-IsBounded :
      (rs : List Round) (app : AppState U)
      → (pace_of (keepalive_rounds rs (first_keeper app))
          ≡ play (rounds_events rs (first_keeper app)) first_pace)
        × IsBounded (pace_of (keepalive_rounds rs (first_keeper app)))
  keepalive_rounds-IsBounded rs app =
      let same = rounds_lem rs (first_keeper app) in
      (
        same,
        subst IsBounded (sym same) (
            play-IsBounded (rounds_events rs (first_keeper app)) first_pace
              ((omega arith, omega arith), tt)),
      )
