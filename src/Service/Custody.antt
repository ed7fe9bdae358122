-- ===== src/Service/Custody.antt =====
-- crates/cng-core/src/service.rs: what the installation does with the user's own CODEX_CLI_PATH when
-- any of its calls may fail.
use codex_no.Base.Text.Laws.{text_eq_refl}
use codex_no.Service.Environment.{IsOwn, printed}
use codex_no.Service.Machine.{
  Computer, Call, Outside, Steps, ◌>>=◌, ◌>>◌, ensure, attempt, command, unchanged, unless_saved,
  saved_value, drop_state, forget_state, remove_programs, with_restored, with_saved, read_variable,
  write_state, remove_state, restore_variable, remove_bin, without_programs,
}
use codex_no.Service.Keeps.{
  Keeps, Keeps-from, Keeps-bind, Keeps-when, Keeps-attempt, Keeps-command, Leaves,
}
use codex_no.Base.{
  ◌≡◌, refl, sym, ap, ◌∙◌, subst, ◌⊎◌, inl, inr, Bool, true, false, Option, none, some, [], ◌∷◌,
  if◌then◌else◌, Bool-cases, Option-cases, is_some,
}
use codex_no.Base.Text.{Text, text_eq, is_empty, trim}

-- The tests that macOS and Windows make before they restore a value.
abbrev pub is_printed : Text → Option Text → Bool
is_printed wrapper value = text_eq (printed value) wrapper

abbrev pub IsWrapper : Text → Type 0
IsWrapper wrapper = (trim wrapper ≡ wrapper) × (is_empty wrapper ≡ false)

pub is_printed-own :
    (wrapper : Text) (v : Option Text)
    → IsWrapper wrapper
    → IsOwn wrapper v
    → is_printed wrapper v ≡ false
unfolding text_eq
is_printed-own [] none (t, e) h = cc
is_printed-own (c ∷ s) none (t, e) h = refl
is_printed-own wrapper (some value) (t, e) (same, full, other) = rw same other

pub is_printed_self :
    (wrapper : Text) → IsWrapper wrapper → is_printed wrapper (some wrapper) ≡ true
is_printed_self wrapper (t, e) = rw t (text_eq_refl wrapper)

module _ (wrapper : Text) (v : Option Text) where
  -- The state file holds the user's value, and the variable is the user's or the wrapper.
  abbrev pub IsSaved : Computer → Type 0
  IsSaved c =
      (c.environment.saved ≡ some v)
      × ((c.environment.variable ≡ v) ⊎ (c.environment.variable ≡ some wrapper))

  -- The user's value is in the variable, or in the state file.
  abbrev pub IsHeld : Computer → Type 0
  IsHeld c = ((c.environment.variable ≡ v) × (c.environment.saved ≡ none)) ⊎ IsSaved c

  -- The variable is the user's.
  abbrev pub IsFree : Computer → Type 0
  IsFree c =
      (c.environment.variable ≡ v) × ((c.environment.saved ≡ none) ⊎ (c.environment.saved ≡ some v))

  pub IsHeld-of_IsFree : (c : Computer) → IsFree c → IsHeld c
  IsHeld-of_IsFree c (e, inl f) = inl (e, f)
  IsHeld-of_IsFree c (e, inr f) = inr (f, inl e)

  pub IsFree-cases :
      (c : Computer)
      → IsHeld c
      → IsFree c ⊎ ((c.environment.saved ≡ some v) × (c.environment.variable ≡ some wrapper))
  IsFree-cases c (inl (e, f)) = inl (e, inl f)
  IsFree-cases c (inr (f, inl e)) = inl (e, inr f)
  IsFree-cases c (inr (f, inr e)) = inr (f, e)

  -- The wrapper is the one of the installation, and a state file that is there can be read.
  abbrev pub IsSound : Outside → Type 0
  IsSound w = (w.wrapper ≡ wrapper) × (w.reads_state ≡ true)

  -- The rules for the steps that leave the environment alone.
  module _ (w : Outside) where
    abbrev P : Computer → Type 0
    P = IsHeld

    pub untouched_attempt :
        (call : Call) (effect : Computer → Computer)
        → ((c : Computer) → (effect c).environment ≡ c.environment)
        → Keeps P (attempt w call effect)
    untouched_attempt call effect same = Keeps-attempt P w call effect (λ c h. rw (same c) h)

    pub untouched_command :
        (call : Call) (effect : Computer → Computer)
        → ((c : Computer) → (effect c).environment ≡ c.environment)
        → Keeps P (command w call effect)
    untouched_command call effect same = Keeps-command P w call effect (λ c h. rw (same c) h)

    pub untouched_then :
        {B : Type 0} (m : Steps (Unit {0})) (n : Steps B) → Keeps P m → Keeps P n → Keeps P (m >> n)
    untouched_then m n h k = Keeps-bind P m _ h (λ u. k)

    pub remove_programs-Keeps : Keeps P (remove_programs w)
    remove_programs-Keeps = Keeps-from P _ (λ c.
        Keeps-when P (is_some c.programs) _
          (untouched_attempt remove_bin without_programs (λ d. refl)))

  module _ (w : Outside) (sound : IsSound w) where
    drop_state-IsFree : Keeps IsFree (drop_state w)
    drop_state-IsFree = Keeps-from IsFree _ (λ c.
        Keeps-when IsFree (is_some c.environment.saved) _
          (Keeps-attempt IsFree w remove_state (forget_state w) (λ d k. (k.0, inl refl))))

    drop_own : (c : Computer) → IsFree c → IsHeld (drop_state w c).1
    drop_own c h = IsHeld-of_IsFree (drop_state w c).1 (drop_state-IsFree.kept c h)

    saved_lem : (saved : Option (Option Text)) → saved ≡ some v → saved_value w saved ≡ v
    saved_lem saved e = rw (e, sound.1) refl

    abbrev pub restoring : Text → Steps (Unit {0})
    restoring e =
        command w restore_variable (with_restored w) >>= λ done. ensure done e >> drop_state w

    -- The variable is set to what was saved, and the state file goes.
    restoring-IsHeld : (c : Computer) (e : Text) → IsSaved c → IsHeld (restoring e c).1
    restoring-IsHeld c e h = elim (Option-cases (w.fault restore_variable)) [
      | inr (reason, f) ↦ rw (f, command) (inr h)
      | inl f ↦ elim (Bool-cases (w.succeeds restore_variable)) [
        | inr g ↦ rw (f, g, command) (inr h)
        | inl g ↦
            rw (f, g, command)
              (drop_own (with_restored w c) (saved_lem c.environment.saved h.0, inr h.0))
      ]
    ]

    abbrev pub releasing : Text → Bool → Steps (Unit {0})
    releasing e b = if b then restoring e else drop_state w

    -- What `uninstall` does about the variable, for any test that holds of the wrapper and fails of the
    -- user's value.
    pub releasing-IsHeld :
        (c : Computer) (e : Text) (is_wrapper : Option Text → Bool)
        → is_wrapper v ≡ false
        → is_wrapper (some wrapper) ≡ true
        → IsHeld c
        → IsHeld (releasing e (is_wrapper c.environment.variable) c).1
    releasing-IsHeld c e is_wrapper own other h = elim (IsFree-cases c h) [
      | inl free ↦
          subst (λ b. IsHeld (releasing e b c).1) (sym (ap is_wrapper free.0 ∙ own))
            (drop_own c free)
      | inr (saved, taken) ↦
          subst (λ b. IsHeld (releasing e b c).1) (sym (ap is_wrapper taken ∙ other))
            (restoring-IsHeld c e (saved, inr taken))
    ]

    abbrev pub saving : (Computer → Option Text) → Steps (Unit {0})
    saving previous =
        attempt w read_variable unchanged >> attempt w write_state λ d. with_saved (previous d) d

    -- The state file gets the user's value, or is there already.
    pub saving-IsSaved :
        (c : Computer) (previous : Computer → Option Text)
        → ((d : Computer) → d.environment.variable ≡ v → previous d ≡ v)
        → IsHeld c
        → Leaves IsHeld IsSaved (unless_saved c.environment.saved (saving previous) c)
    saving-IsSaved c previous same (inr h) =
        subst (λ s. Leaves IsHeld IsSaved (unless_saved s (saving previous) c)) (sym h.0) h
    saving-IsSaved c previous same (inl (own, none_saved)) =
        subst (λ s. Leaves IsHeld IsSaved (unless_saved s (saving previous) c)) (sym none_saved)
          (elim (Option-cases (w.fault read_variable)) [
            | inr (reason, f) ↦ rw (f, attempt) (inl (own, none_saved))
            | inl f ↦ elim (Option-cases (w.fault write_state)) [
              | inr (reason, g) ↦ rw (f, g, attempt) (inl (own, none_saved))
              | inl g ↦ rw (f, g, attempt) (ap some (same c own), inl own)
            ]
          ])
