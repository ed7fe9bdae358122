-- ===== src/Daemon/Requests.antt =====
-- crates/cngd/src/main.rs: `handle`, what each request does.
use codex_no.Discovery.Search.{save_manual_upstream}
use codex_no.Model.{DiagnosticEvent, RemoteControlStatus}
use codex_no.Daemon.{
  ensure_remote_started, refresh_once, save_config, status, DiagnosticEvent, RemoteControlStatus,
  AppState, World,
}
use codex_no.Model.Health.{GuardStatus}
use codex_no.Base.{
  ℕ, Bool, true, false, ◌||◌, Option, none, some, List, [], ◌∷◌, ◌++◌, if◌then◌else◌,
}
use codex_no.Base.Text.{Text, codes, text_eq}
use codex_no.Url.{UrlLib}
use codex_no.Base.Results.{Result, ok, err}
use codex_no.Config.{GuardConfig, auto, manual_mode}

-- The parameters of a request, as far as the daemon reads them.
pub record Params : Type 0 where
  pub get_bool : Text → Option Bool
  pub get_str : Text → Option Text

pub record DoctorReport (U : UrlLib) : Type 0 where
  pub generated_at : ℕ
  pub guard : GuardStatus U
  pub codex : Option Text
  pub findings : List DiagnosticEvent

pub data Reply (U : UrlLib) : Type 0 where
  status_reply : GuardStatus U → Reply U
  doctor_reply : DoctorReport U → Reply U
  remote_reply : RemoteControlStatus → Reply U
  pair_reply : Text → Reply U

-- The arms of the match on the method.
pub data Method : Type 0 where
  ask_status ask_refresh ask_pause ask_auto ask_set ask_doctor : Method
  ask_start ask_stop ask_pair ask_unknown : Method

unfoldable pub method_of : Text → Method
unfolding text_eq
method_of method =
    if text_eq method (codes "status") || text_eq method (codes "upstream.list")
    then ask_status
    else if text_eq method (codes "refresh")
    then ask_refresh
    else if text_eq method (codes "pause")
    then ask_pause
    else if text_eq method (codes "upstream.auto")
    then ask_auto
    else if text_eq method (codes "upstream.set")
    then ask_set
    else if text_eq method (codes "doctor")
    then ask_doctor
    else if text_eq method (codes "remote.start")
    then ask_start
    else if text_eq method (codes "remote.stop")
    then ask_stop
    else if text_eq method (codes "remote.pair")
    then ask_pair
    else ask_unknown

abbrev pub list_of {ℓ} : {A : Type ℓ} → Option A → List A
list_of none = []
list_of (some a) = a ∷ []

module _ (U : UrlLib) (w : World U) where
  abbrev pub Outcome : Type 0 → Type 0
  Outcome A = Result A × AppState U

  -- What follows if a step ends well, in the state that it left.
  abbrev pub after : {A B : Type 0} → Outcome A → (A → AppState U → Outcome B) → Outcome B
  after (ok a, s) k = k a s
  after (err e, s) k = (err e, s)

  abbrev pub tell_status : AppState U → Outcome (Reply U)
  tell_status s = (ok (status_reply (status U w s)), s)

  unfoldable pub handle_pause : Params → AppState U → Outcome (Reply U)
  handle_pause params s = elim (params.get_bool (codes "paused")) [
    | none ↦ (err (codes "pause requires a boolean 'paused' parameter"), s)
    | some paused ↦
        after (save_config U w (record s.config { paused = paused }) s) λ u s'. tell_status s'
  ]

  unfoldable pub handle_auto : AppState U → Outcome (Reply U)
  handle_auto s =
      after
        (save_config U w
          (record s.config {
            mode = auto;
            manual_upstream = none;
            manual_upstream_keychain = false;
          })
          s)
        λ u s'. after (refresh_once U w s') λ v s''. tell_status s''

  abbrev pub manual_config : Text → Bool → GuardConfig → GuardConfig
  manual_config value stored_in_keychain config = record config {
    mode = manual_mode;
    manual_upstream_keychain = stored_in_keychain;
    manual_upstream = if stored_in_keychain then none else some value;
  }

  unfoldable pub set_upstream : Text → AppState U → Outcome (Reply U)
  set_upstream value s = elim (save_manual_upstream U w.host value) [
    | err e ↦ (err e, s)
    | ok stored_in_keychain ↦
        after (save_config U w (manual_config value stored_in_keychain s.config) s)
          λ u s'. after (refresh_once U w s') λ v s''. tell_status s''
  ]

  unfoldable pub handle_set : Params → AppState U → Outcome (Reply U)
  unfolding set_upstream
  handle_set params s = elim (params.get_str (codes "url")) [
    | none ↦ (err (codes "upstream.set requires a URL"), s)
    | some value ↦ set_upstream value s
  ]

  unfoldable pub handle_refresh : AppState U → Outcome (Reply U)
  handle_refresh s = after (refresh_once U w s) λ u s'. tell_status s'

  unfoldable pub handle_doctor : AppState U → Outcome (Reply U)
  handle_doctor s =
      let told = status U w s in
      (
        ok (
            doctor_reply (record {
              generated_at = w.now;
              guard = told;
              codex = elim told.codex_path [ none ↦ none | some path ↦ w.doctor path ];
              findings = list_of told.last_failure;
            })),
        s,
      )

  unfoldable pub remote_start : Text → AppState U → Outcome (Reply U)
  remote_start real s =
      after (save_config U w (record s.config { remote_control_keepalive = true }) s) λ u s'.
        after (ensure_remote_started U w real s') λ v s''. (ok (remote_reply s''.remote), s'')

  -- The child is killed, and what Codex says to the stop is ignored.
  unfoldable pub remote_stop : AppState U → Outcome (Reply U)
  remote_stop s =
      after (save_config U w (record s.config { remote_control_keepalive = false }) s) λ u s'.
        let remote = record s'.remote {
          supported = true;
          enabled = false;
          online = false;
          retry_after = none;
          detail = some (codes "remote-control stopped");
        } in
        (ok (remote_reply remote), record s' { remote_child = none; remote = remote })

  unfoldable pub remote_pair : Text → AppState U → Outcome (Reply U)
  remote_pair real s = elim (w.pair real) [
    | err e ↦ (err e, s)
    | ok value ↦ (
      ok (pair_reply value),
      record s {
        remote = record s.remote {
          supported = true;
          detail = some (codes "pairing flow completed");
        };
      },
    )
  ]

  -- The checks that come before an action on the remote control.
  unfoldable pub with_remote :
      (Text → AppState U → Outcome (Reply U)) → AppState U → Outcome (Reply U)
  with_remote action s = elim (w.find_real_codex s.config) [
    | none ↦ (err (codes "Codex was not found"), s)
    | some real ↦
        if w.supports_remote_control real
        then action real s
        else (err (codes "this Codex version does not provide remote-control"), s)
  ]

  unfoldable pub dispatch : Method → Text → Params → AppState U → Outcome (Reply U)
  dispatch ask_status method params s = tell_status s
  dispatch ask_refresh method params s = handle_refresh s
  dispatch ask_pause method params s = handle_pause params s
  dispatch ask_auto method params s = handle_auto s
  dispatch ask_set method params s = handle_set params s
  dispatch ask_doctor method params s = handle_doctor s
  dispatch ask_start method params s = with_remote remote_start s
  dispatch ask_stop method params s = with_remote (λ real. remote_stop) s
  dispatch ask_pair method params s = with_remote remote_pair s
  dispatch ask_unknown method params s = (err (codes "unknown RPC method: " ++ method), s)

  unfoldable pub handle : AppState U → Text → Params → Outcome (Reply U)
  unfolding dispatch
  handle s method params = dispatch (method_of method) method params s
