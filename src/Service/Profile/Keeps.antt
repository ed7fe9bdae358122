-- ===== src/Service/Profile/Keeps.antt =====
-- crates/cng-core/src/service.rs: what does not depend on the profile is kept when it is written.
use codex_no.Service.Machine.{
  Content, readable, unreadable, Computer, find_home, read_profile, write_profile, keep_mode,
  Outside, pure, fail, unchanged,
}
use codex_no.Service.Keeps.{Keeps, Keeps-same, Keeps-from, Keeps-bind, Keeps-when, Keeps-attempt}
use codex_no.Service.Profile.{
  with_profile, remains, not_a_text, clean, write_preserving_permissions, disable_terminal_path,
}
use codex_no.Service.{remove_managed_block}
use codex_no.Base.{ℕ, refl, inl, inr, Option, none, some, Option-cases, is_some}
use codex_no.Base.Text.{Text}

module _ (P : Computer → Type 0)
    (free : (p : Option Content) (c : Computer) → P c → P (with_profile p c)) (w : Outside) where
  left_lem : (text : Text) (left : Option ℕ) (d : Computer) → P d → P (remains w left text d)
  left_lem text none d h = h
  left_lem text (some n) d h = free _ d h

  pub written-Keeps : (text : Text) → Keeps P (write_preserving_permissions w text)
  unfolding write_preserving_permissions
  written-Keeps text = record {
    kept = λ d h. elim (Option-cases (w.fault write_profile)) [
      | inl e ↦
          rw (e, write_preserving_permissions)
            ((Keeps-when P (is_some d.shell.profile) _
                (Keeps-attempt P w keep_mode unchanged (λ c h. h))).kept
              (with_profile (some (readable text)) d) (free _ d h))
      | inr (reason, e) ↦ rw (e, write_preserving_permissions) (left_lem text w.left d h)
    ];
  }

  pub clean-Keeps : (p : Option Content) → Keeps P (clean w p)
  clean-Keeps none = Keeps-same P (pure tt) (λ c. refl)
  clean-Keeps (some (readable t)) =
      Keeps-bind P _ _
        (Keeps-bind P _ _ (Keeps-attempt P w read_profile unchanged (λ c h. h))
          (λ u. Keeps-same P (pure t) (λ c. refl)))
        (λ text. written-Keeps (remove_managed_block text))
  clean-Keeps (some (unreadable b)) =
      Keeps-bind P _ _
        (Keeps-bind P _ _ (Keeps-attempt P w read_profile unchanged (λ c h. h))
          (λ u. Keeps-same P (fail (not_a_text w)) (λ c. refl)))
        (λ text. written-Keeps (remove_managed_block text))

  pub disable_terminal_path-Keeps : Keeps P (disable_terminal_path w)
  unfolding disable_terminal_path
  disable_terminal_path-Keeps =
      Keeps-bind P _ _ (Keeps-attempt P w find_home unchanged (λ c h. h))
        (λ u. Keeps-from P _ (λ c. clean-Keeps c.shell.profile))
