-- ===== src/Front/Actions.antt =====
-- apps/desktop/src-tauri/src/main.rs: the requests of the window, with the texts that the user gives.
use codex_no.Front.Intents.{Chooses, IntendsClicked}
use codex_no.Front.Clients.{window_rpc-Moves, chosen_lem}
use codex_no.Front.{Desk, Session, Action, ◌>>=◌, pure, null_params, text_params}
use codex_no.Front.Desktop.{
  daemon_answer, remote_action, set_upstream, is_remote_action, window_rpc, ask, act_remotely,
  choose,
}
use codex_no.Front.Stays.{settings, Moves, Moves-then}
use codex_no.Daemon.Settings.{Settings, Asks}
use codex_no.Daemon.Requests.{method_of, Params, Reply}
use codex_no.Base.Text.Laws.{text_eq_iff}
use codex_no.Url.{UrlLib}
use codex_no.Base.{
  ◌≡◌, refl, sym, subst, ◌⊎◌, inl, inr, Bool, true, false, ◌||◌, if◌then◌else◌, Bool-cases,
}
use codex_no.Base.Text.{Text, codes, text_eq, is_empty, trim, eq_ignore_ascii_case}

module _ (U : UrlLib) (desk : Desk U) where
  pub ask-Moves :
      (method : Text) (p : Params) (s : Session U)
      → Moves (Asks (method_of method) p) (settings s) (ask U desk method p s)
  ask-Moves method p s =
      Moves-then (Asks (method_of method) p) (window_rpc U desk method p)
        (λ reply. pure (daemon_answer reply)) s (window_rpc-Moves U desk method p s)
        (λ reply t. refl)

  -- An answer that is passed on.
  pub asked_lem :
      (Q : Settings → Settings → Type 0) (m : Action U (Reply U)) (s : Session U)
      → Moves Q (settings s) (m s)
      → Moves Q (settings s) ((m >>= λ reply. pure (daemon_answer reply)) s)
  asked_lem Q m s h = Moves-then Q m (λ reply. pure (daemon_answer reply)) s h (λ reply t. refl)

  pub choose-Moves :
      (url : Text) (s : Session U)
      → Moves (IntendsClicked (set_upstream url)) (settings s) (choose U desk url s)
  unfolding choose
  choose-Moves url s = go (is_empty (trim url) || eq_ignore_ascii_case (trim url) (codes "auto"))
    where
      go :
          (b : Bool)
          → Moves (Chooses b (trim url)) (settings s) (
              (if b
                  then ask U desk (codes "upstream.auto") null_params
                  else ask U desk (codes "upstream.set") (text_params (codes "url") (trim url)))
                s)
      go true =
          asked_lem (Chooses true (trim url))
            (window_rpc U desk (codes "upstream.auto") null_params) s
            (chosen_lem U desk (window_rpc U desk) (window_rpc-Moves U desk) true (trim url) s)
      go false =
          asked_lem (Chooses false (trim url))
            (window_rpc U desk (codes "upstream.set") (text_params (codes "url") (trim url))) s
            (chosen_lem U desk (window_rpc U desk) (window_rpc-Moves U desk) false (trim url) s)

  -- The three actions on the remote control that there are.
  action-cases :
      (action : Text)
      → (is_remote_action action ≡ false)
        ⊎ ((action ≡ codes "start") ⊎ ((action ≡ codes "stop") ⊎ (action ≡ codes "pair")))
  action-cases action = elim (Bool-cases (text_eq action (codes "start"))) [
    | inl e ↦ inr (inl ((text_eq_iff action (codes "start")).0 e))
    | inr e ↦ elim (Bool-cases (text_eq action (codes "stop"))) [
      | inl f ↦ inr (inr (inl ((text_eq_iff action (codes "stop")).0 f)))
      | inr f ↦ elim (Bool-cases (text_eq action (codes "pair"))) [
        | inl g ↦ inr (inr (inr ((text_eq_iff action (codes "pair")).0 g)))
        | inr g ↦ inl (rw (e, f, g) refl)
      ]
    ]
  ]

  pub act-Moves :
      (action : Text) (s : Session U)
      → Moves (IntendsClicked (remote_action action)) (settings s) (act_remotely U desk action s)
  unfolding act_remotely method_of text_eq
  act-Moves action s = elim (action-cases action) [
    | inl e ↦ rw (e, act_remotely) (inl refl)
    | inr (inl e) ↦ go (codes "start") e (ask-Moves (codes "remote.start") null_params s)
    | inr (inr (inl e)) ↦ go (codes "stop") e (ask-Moves (codes "remote.stop") null_params s)
    | inr (inr (inr e)) ↦ go (codes "pair") e (ask-Moves (codes "remote.pair") null_params s)
  ]
    where
      go :
          (name : Text)
          → action ≡ name
          → Moves (IntendsClicked (remote_action name)) (settings s) (act_remotely U desk name s)
          → Moves
              (IntendsClicked (remote_action action))
              (settings s)
              (act_remotely U desk action s)
      go name e h =
          subst
            (λ n. Moves (IntendsClicked (remote_action n)) (settings s) (act_remotely U desk n s))
            (sym e) h
