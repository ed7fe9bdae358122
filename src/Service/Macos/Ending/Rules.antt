-- ===== src/Service/Macos/Ending/Rules.antt =====
-- crates/cng-core/src/service.rs: the steps of the installation on macOS where every call can be made.
use codex_no.Service.Machine.{
  Computer, Call, Outside, Steps, ◌>>=◌, ensure, when, attempt, command, bootstrap, set_variable,
  restore_variable, resume,
}
use codex_no.Base.Results.{Result, ok, err}
use codex_no.Base.{◌≡◌, inl, inr, Bool, true, false, none, Bool-cases}
use codex_no.Base.Text.{Text, codes}

-- Every call can be made, the programs are beside the installer, and the commands that set the
-- variable and start the service succeed.
pub record IsWell (w : Outside) : Type 0 where
  pub calm : (call : Call) → w.fault call ≡ none
  pub has_cng : w.has_source (codes "cng") ≡ true
  pub has_cngd : w.has_source (codes "cngd") ≡ true
  pub has_codex : w.has_source (codes "cng-codex") ≡ true
  pub starts : w.succeeds bootstrap ≡ true
  pub sets : w.succeeds set_variable ≡ true
  pub restores : w.succeeds restore_variable ≡ true
  pub reads : w.reads_state ≡ true

-- A step ends well, and leaves the property.
abbrev pub Leads : {A : Type 0} → (Computer → Type 0) → Result A × Computer → Type 0
Leads Q (ok a, c) = Q c
Leads Q (err e, c) = ⊥

pub Leads-resume :
    {A B : Type 0} (Q : Computer → Type 0) (E : Result B × Computer → Type 0)
    (o : Result A × Computer) (k : A → Steps B)
    → Leads Q o
    → ((a : A) (c : Computer) → Q c → E (k a c))
    → E (resume o k)
Leads-resume Q E (ok a, c) k h next = next a c h
Leads-resume Q E (err e, c) k h next = absurd h

pub Leads-ensure :
    (Q : Computer → Type 0) (b : Bool) (e : Text) (c : Computer)
    → b ≡ true
    → Q c
    → Leads Q (ensure b e c)
Leads-ensure Q true e c h q = q
Leads-ensure Q false e c h q = cc

module _ (w : Outside) (well : IsWell w) where
  pub Leads-attempt :
      (Q : Computer → Type 0) (call : Call) (effect : Computer → Computer) (c : Computer)
      → Q (effect c)
      → Leads Q (attempt w call effect c)
  Leads-attempt Q call effect c h = rw (well.calm call, attempt) h

  pub Leads-when :
      (Q : Computer → Type 0) (b : Bool) (call : Call) (effect : Computer → Computer) (c : Computer)
      → Q c
      → Q (effect c)
      → Leads Q (when b (attempt w call effect) c)
  Leads-when Q true call effect c h k = Leads-attempt Q call effect c k
  Leads-when Q false call effect c h k = h

  -- A command that succeeds.
  pub command_then :
      {B : Type 0} (E : Result B × Computer → Type 0) (call : Call) (effect : Computer → Computer)
      (k : Bool → Steps B) (c : Computer)
      → w.succeeds call ≡ true
      → E (k true (effect c))
      → E ((command w call effect >>= k) c)
  command_then E call effect k c e h = rw (well.calm call, e, command) h

  -- A command that may succeed or not.
  pub either_then :
      (Q : Computer → Type 0) (call : Call) (effect : Computer → Computer) (c : Computer)
      → Q c
      → Q (effect c)
      → Q (command w call effect c).1
  either_then Q call effect c h k = elim (Bool-cases (w.succeeds call)) [
    | inl e ↦ rw (well.calm call, e, command) k
    | inr e ↦ rw (well.calm call, e, command) h
  ]
