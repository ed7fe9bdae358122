-- ===== src/Front/Intents.antt =====
-- crates/cng/src/main.rs and apps/desktop/src-tauri/src/main.rs: what the user means by a command.
use codex_no.Front.Cli.{
  Command, upstream_command, remote_command, pause_routing, choose_upstream, automatic_upstream,
  start_remote, stop_remote,
}
use codex_no.Front.Desktop.{WindowCommand, set_paused, remote_action, set_upstream}
use codex_no.Daemon.Settings.{Settings, found, in_keychain, given}
use codex_no.Base.{◌≡◌, ◌⊎◌, Bool, true, false, ◌||◌, some}
use codex_no.Base.Text.{Text, codes, text_eq, is_empty, trim, eq_ignore_ascii_case}

-- A command that is typed, a command of the window, an entry of the menu.
pub data Gesture : Type 0 where
  typed : Command → Gesture
  clicked : WindowCommand → Gesture
  picked : Text → Gesture

-- An upstream that is chosen: the one that is found, or the one that is given.
abbrev pub Chooses : Bool → Text → Settings → Settings → Type 0
Chooses true url a b = b ≡ record a { source = found }
Chooses false url a b =
    (b ≡ record a { source = in_keychain }) ⊎ (b ≡ record a { source = given (some url) })

-- The keepalive of the remote control: started, stopped, or neither.
abbrev pub Switches : Bool → Bool → Settings → Settings → Type 0
Switches true stop a b = b ≡ record a { keepalive = true }
Switches false true a b = b ≡ record a { keepalive = false }
Switches false false a b = b ≡ a

-- What a command means for the settings.
abbrev pub IntendsTyped : Command → Settings → Settings → Type 0
IntendsTyped (pause_routing state json) a b = b ≡ record a { paused = text_eq state (codes "on") }
IntendsTyped (upstream_command (choose_upstream url)) a b =
    Chooses (eq_ignore_ascii_case url (codes "auto")) url a b
IntendsTyped (upstream_command automatic_upstream) a b = b ≡ record a { source = found }
IntendsTyped (remote_command start_remote) a b = b ≡ record a { keepalive = true }
IntendsTyped (remote_command stop_remote) a b = b ≡ record a { keepalive = false }
IntendsTyped _ a b = b ≡ a

abbrev pub IntendsClicked : WindowCommand → Settings → Settings → Type 0
IntendsClicked (set_paused paused) a b = b ≡ record a { paused = paused }
IntendsClicked (set_upstream url) a b =
    Chooses (is_empty (trim url) || eq_ignore_ascii_case (trim url) (codes "auto")) (trim url) a b
IntendsClicked (remote_action action) a b =
    Switches (text_eq action (codes "start")) (text_eq action (codes "stop")) a b
IntendsClicked _ a b = b ≡ a

abbrev pub Intends : Gesture → Settings → Settings → Type 0
Intends (typed c) a b = IntendsTyped c a b
Intends (clicked c) a b = IntendsClicked c a b
Intends (picked id) a b = b ≡ a
