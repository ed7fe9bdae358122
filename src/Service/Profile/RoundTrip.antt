-- ===== src/Service/Profile/RoundTrip.antt =====
-- crates/cng-core/src/service.rs: enabling the terminal integration and disabling it again.
use codex_no.Service.Profile.Block.{path_line, closed_lines, removed_lem}
use codex_no.Service.Profile.{
  clean, read_text, with_profile, with_backup, write_preserving_permissions, back_up,
  enable_terminal_path, disable_terminal_path, text_or_empty,
}
use codex_no.Base.Results.{ok}
use codex_no.Service.Machine.{
  Content, readable, unreadable, Computer, Call, find_home, make_backup, copy_profile, read_profile,
  write_profile, keep_mode, Outside, attempt, attempt_lem, when, unchanged, bind-ok,
}
use codex_no.Service.{enabled_profile, remove_managed_block, block_start, block_end}
use codex_no.Service.Terminal.{newlines}
use codex_no.Base.{
  true, Bool, Bool, is_some, Option, ℕ, ◌≡◌, refl, sym, ap, ◌∙◌, false, not, ◌&&◌, none, some, [],
  ◌++◌, if◌then◌else◌, true, false,
}
use codex_no.Base.Text.{Text, contains, find}

-- The profile is this text; a missing one is empty.
abbrev pub IsText : Text → Option Content → Type 0
IsText s none = s ≡ []
IsText s (some (readable t)) = s ≡ t
IsText s (some (unreadable b)) = ⊥

abbrev pub IsCalm : Outside → Type 0
IsCalm w = (call : Call) → w.fault call ≡ none

abbrev pub first_copy : Option Content → Option Content → Option Content
first_copy (some copy) profile = some copy
first_copy none profile = profile

-- The computer with the block in the profile.
abbrev pub enabled : Outside → Text → Computer → Computer
enabled w s c = record c {
  shell = record {
    profile = some (readable (enabled_profile w.bin s));
    backup = first_copy c.shell.backup c.shell.profile;
  };
}

same_if : {A : Type 0} (b : Bool) (a : A) → (if b then a else a) ≡ a
same_if true a = refl
same_if false a = refl

module _ (w : Outside) (calm : IsCalm w) where
  calm_lem :
      (call : Call) (effect : Computer → Computer) (c : Computer)
      → attempt w call effect c ≡ (ok tt, effect c)
  calm_lem call effect c = attempt_lem w call effect c (calm call)

  calm_when :
      (b : Bool) (call : Call) (effect : Computer → Computer) (c : Computer)
      → when b (attempt w call effect) c ≡ (ok tt, if b then effect c else c)
  calm_when true call effect c = calm_lem call effect c
  calm_when false call effect c = refl

  written_lem :
      (text : Text) (c : Computer)
      → write_preserving_permissions w text c ≡ (ok tt, with_profile (some (readable text)) c)
  unfolding write_preserving_permissions
  written_lem text c =
      rw (calm write_profile, write_preserving_permissions)
        (calm_when (is_some c.shell.profile) keep_mode unchanged _
          ∙ ap (λ d. (ok tt, d)) (same_if (is_some c.shell.profile) _))

  copied_lem :
      (backup profile : Option Content) (c : Computer)
      → (if is_some profile && not (is_some backup)
          then with_backup profile c
          else with_backup backup c)
        ≡ with_backup (first_copy backup profile) c
  copied_lem none none c = refl
  copied_lem none (some p) c = refl
  copied_lem (some b) none c = refl
  copied_lem (some b) (some p) c = refl

  backed_lem :
      (c : Computer)
      → back_up w c ≡ (ok tt, with_backup (first_copy c.shell.backup c.shell.profile) c)
  unfolding back_up
  backed_lem c =
      calm_when (is_some c.shell.profile && not (is_some c.shell.backup)) copy_profile _ c
      ∙ ap (λ d. (ok tt, d)) (copied_lem c.shell.backup c.shell.profile c)

  read_lem :
      (p : Option Content) (s : Text) → IsText s p → text_or_empty (w.fault read_profile) p ≡ s
  read_lem none s h = rw (calm read_profile) (sym h)
  read_lem (some (readable t)) s h = rw (calm read_profile) (sym h)
  read_lem (some (unreadable b)) s h = absurd h

  enabled_lem :
      (c : Computer) (s : Text)
      → IsText s c.shell.profile
      → contains block_start s ≡ false
      → enable_terminal_path w c ≡ (ok tt, enabled w s c)
  unfolding enable_terminal_path
  enabled_lem c s h fresh =
      bind-ok (attempt w find_home unchanged) _ c c tt (calm_lem find_home unchanged c)
      ∙ rw (read_lem c.shell.profile s h, fresh)
          (bind-ok (attempt w make_backup unchanged) _ c c tt (calm_lem make_backup unchanged c)
            ∙ (bind-ok (back_up w) _ c _ tt (backed_lem c)
                ∙ written_lem (enabled_profile w.bin s) _))

  cleaned_lem :
      (c : Computer) (s : Text)
      → clean w (some (readable s)) c
        ≡ (ok tt, with_profile (some (readable (remove_managed_block s))) c)
  cleaned_lem c s =
      bind-ok (read_text w (some (readable s))) _ c c s
        (bind-ok (attempt w read_profile unchanged) _ c c tt (calm_lem read_profile unchanged c))
      ∙ written_lem (remove_managed_block s) c

  disabled_lem :
      (c : Computer) (s : Text)
      → c.shell.profile ≡ some (readable s)
      → disable_terminal_path w c
        ≡ (ok tt, with_profile (some (readable (remove_managed_block s))) c)
  unfolding disable_terminal_path
  disabled_lem c s h =
      bind-ok (attempt w find_home unchanged) _ c c tt (calm_lem find_home unchanged c)
      ∙ (ap (λ p. clean w p c) h ∙ cleaned_lem c s)

-- Where no call fails, a profile without a block gets one when the terminal integration is enabled, and
-- the first copy of the profile is kept; and when it is disabled again the profile holds what it held
-- before, but for the newlines at its end, and nothing else of the computer has changed. The line that
-- is written is assumed not to hold the end marker.
pub disable-enable :
    (w v : Outside) (c : Computer) (s : Text)
    → IsCalm w
    → IsCalm v
    → IsText s c.shell.profile
    → contains block_start s ≡ false
    → find block_end (path_line w.bin) ≡ none
    → (enable_terminal_path w c ≡ (ok tt, enabled w s c))
      × ((out : Text) × (n : ℕ) × (disable_terminal_path v (enabled w s c)
            ≡ (ok tt, with_profile (some (readable out)) (enabled w s c)))
          × (closed_lines s ≡ out ++ newlines n))
disable-enable w v c s calm later h fresh plain =
    let (n, e) = removed_lem w.bin s fresh plain in
    (
      enabled_lem w calm c s h fresh,
      (
        remove_managed_block (enabled_profile w.bin s),
        n,
        disabled_lem v later (enabled w s c) _ refl,
        e,
      ),
    )
