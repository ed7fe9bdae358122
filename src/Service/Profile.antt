-- ===== src/Service/Profile.antt =====
-- crates/cng-core/src/service.rs: the terminal integration, `enable_terminal_path` and
-- `disable_terminal_path` on macOS.
pub mod Block
pub mod RoundTrip
pub mod Keeps
mod Examples
use codex_no.Service.Machine.{
  Content, readable, unreadable, Computer, find_home, make_backup, copy_profile, read_profile,
  write_profile, keep_mode, Outside, Steps, ◌>>=◌, ◌>>◌, pure, fail, look, when, attempt, unchanged,
}
use codex_no.Service.{enabled_profile, remove_managed_block, block_start}
use codex_no.Base.Results.{err}
use codex_no.Base.{ℕ, not, ◌&&◌, Option, none, some, [], if◌then◌else◌, is_some, take}
use codex_no.Base.Text.{Text, codes, contains}

abbrev pub with_profile : Option Content → Computer → Computer
with_profile p c = record c { shell = record c.shell { profile = p } }

abbrev pub with_backup : Option Content → Computer → Computer
with_backup p c = record c { shell = record c.shell { backup = p } }

-- A missing file, one that cannot be read and one that is no UTF-8 all read as the empty text.
abbrev pub text_or_empty : Option Text → Option Content → Text
text_or_empty (some e) file = []
text_or_empty none none = []
text_or_empty none (some (readable t)) = t
text_or_empty none (some (unreadable b)) = []

module _ (w : Outside) where
  -- What a failing write leaves of the profile.
  abbrev pub remains : Option ℕ → Text → Computer → Computer
  remains none text c = c
  remains (some n) text c = with_profile (some (readable (take n text))) c

  -- `fs::write`, and the permissions of the file that was there.
  unfoldable pub write_preserving_permissions : Text → Steps (Unit {0})
  write_preserving_permissions text c = elim (w.fault write_profile) [
    | some e ↦ (err e, remains w.left text c)
    | none ↦
        when (is_some c.shell.profile) (attempt w keep_mode unchanged)
          (with_profile (some (readable text)) c)
  ]

  -- A copy that is there already is kept.
  unfoldable pub back_up : Steps (Unit {0})
  back_up c =
      when (is_some c.shell.profile && not (is_some c.shell.backup))
        (attempt w copy_profile (with_backup c.shell.profile)) c

  unfoldable pub enable_terminal_path : Steps (Unit {0})
  unfolding contains write_preserving_permissions back_up
  enable_terminal_path = do
    attempt w find_home unchanged
    original ← look (λ c. text_or_empty (w.fault read_profile) c.shell.profile)
    if contains block_start original then pure tt else do
      attempt w make_backup unchanged
      back_up
      write_preserving_permissions (enabled_profile w.bin original)

  abbrev pub not_a_text : Text
  not_a_text = codes "stream did not contain valid UTF-8"

  abbrev pub read_text : Option Content → Steps Text
  read_text none = pure []
  read_text (some (readable t)) = attempt w read_profile unchanged >> pure t
  read_text (some (unreadable b)) = attempt w read_profile unchanged >> fail not_a_text

  abbrev pub clean : Option Content → Steps (Unit {0})
  clean none = pure tt
  clean (some file) = do
    original ← read_text (some file)
    write_preserving_permissions (remove_managed_block original)

  unfoldable pub disable_terminal_path : Steps (Unit {0})
  unfolding write_preserving_permissions
  disable_terminal_path = attempt w find_home unchanged >> (λ c. clean c.shell.profile c)
