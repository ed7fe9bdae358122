-- ===== src/Front/Clients.antt =====
-- crates/cng/src/main.rs and apps/desktop/src-tauri/src/main.rs: a call that the two clients make of the daemon.
use codex_no.Front.Intents.{Chooses}
use codex_no.Front.{
  Desk, Session, Action, unless_fault, null_params, bool_params, text_params, call,
}
use codex_no.Front.Cli.{unreachable_daemon, rpc}
use codex_no.Front.Desktop.{window_rpc}
use codex_no.Front.Stays.{
  unless_fault-Stays, settings, Moves, Moves-behind, Moves-as, with_context-Moves, call-Moves,
}
use codex_no.Daemon.Settings.{given, Asks}
use codex_no.Daemon.Requests.{method_of, Params, Reply}
use codex_no.Url.{UrlLib}
use codex_no.Base.{◌≡◌, sym, ap, ◌∙◌, inl, inr, Bool, true, false, some, if◌then◌else◌, or_else}
use codex_no.Base.Text.{Text, codes, text_eq}

module _ (U : UrlLib) (desk : Desk U) where
  pub rpc-Moves :
      (method : Text) (p : Params) (s : Session U)
      → Moves (Asks (method_of method) p) (settings s) (rpc U desk method p s)
  unfolding rpc
  rpc-Moves method p s =
      Moves-behind (Asks (method_of method) p) (unless_fault desk.socket_fault) _ s
        (unless_fault-Stays desk.socket_fault)
        (λ u t.
          with_context-Moves (Asks (method_of method) p) (settings t) unreachable_daemon
            (call U desk method p) t (call-Moves U desk method p t))

  pub window_rpc-Moves :
      (method : Text) (p : Params) (s : Session U)
      → Moves (Asks (method_of method) p) (settings s) (window_rpc U desk method p s)
  unfolding window_rpc
  window_rpc-Moves method p s =
      Moves-behind (Asks (method_of method) p) (unless_fault desk.socket_fault) _ s
        (unless_fault-Stays desk.socket_fault) (λ u t. call-Moves U desk method p t)

  -- The two clients of the daemon.
  module _ (r : Text → Params → Action U (Reply U))
      (r-Moves : (method : Text) (p : Params) (s : Session U)
        → Moves (Asks (method_of method) p) (settings s) (r method p s)) where
    pub paused_lem :
        (v : Bool) (s : Session U)
        → Moves
            (λ a b. b ≡ record a { paused = v })
            (settings s)
            (r (codes "pause") (bool_params (codes "paused") v) s)
    unfolding method_of text_eq
    paused_lem v s =
        Moves-as (Asks (method_of (codes "pause")) (bool_params (codes "paused") v))
          (λ a b. b ≡ record a { paused = v }) (settings s) _
          (λ b (x, e, h).
            h ∙ ap (λ y. record (settings s) { paused = y }) (ap (λ o. or_else o v) (sym e)))
          (r-Moves (codes "pause") (bool_params (codes "paused") v) s)

    pub chosen_lem :
        (automatic : Bool) (url : Text) (s : Session U)
        → Moves (Chooses automatic url) (settings s) (
            (if automatic
                then r (codes "upstream.auto") null_params
                else r (codes "upstream.set") (text_params (codes "url") url))
              s)
    unfolding method_of text_eq
    chosen_lem true url s = r-Moves (codes "upstream.auto") null_params s
    chosen_lem false url s =
        Moves-as (Asks (method_of (codes "upstream.set")) (text_params (codes "url") url))
          (Chooses false url) (settings s) _
          (λ b (x, e, h). elim h [
            | inl k ↦ inl k
            | inr k ↦ inr (
                k
                ∙ ap (λ y. record (settings s) { source = given (some y) })
                    (ap (λ o. or_else o url) (sym e)))
          ])
          (r-Moves (codes "upstream.set") (text_params (codes "url") url) s)
