-- ===== src/Front/Performed.antt =====
-- crates/cng/src/main.rs and apps/desktop/src-tauri/src/main.rs: every command does what the user means by it.
use codex_no.Front.Intents.{Gesture, typed, clicked, picked, Intends}
use codex_no.Front.{Desk, Session}
use codex_no.Front.Cli.{main}
use codex_no.Front.Desktop.{window, menu_event}
use codex_no.Front.Stays.{settings}
use codex_no.Daemon.Settings.{Settings}
use codex_no.Url.{UrlLib}
use codex_no.Base.Results.{Result, ok, err}
use codex_no.Base.{ℕ, zero, suc, ◌≡◌, ◌⊎◌, Bool, true, false}

abbrev succeeds : ℕ → Bool
succeeds zero = true
succeeds (suc n) = false

abbrev is_ok : {A : Type 0} → Result A → Bool
is_ok (ok a) = true
is_ok (err e) = false

module _ (U : UrlLib) (desk : Desk U) where
  -- Whether it is reported as done, and what is then.
  abbrev pub perform : Gesture → Session U → Bool × Session U
  perform (typed c) s = (succeeds (main U desk c s).0, (main U desk c s).1)
  perform (clicked c) s = (is_ok (window U desk c s).0, (window U desk c s).1)
  perform (picked id) s = (true, menu_event U desk id s)

  abbrev pub IsIntended : Gesture → Settings → Bool × Session U → Type 0
  IsIntended g a (true, t) = Intends g a (settings t)
  IsIntended g a (false, t) = (settings t ≡ a) ⊎ Intends g a (settings t)
