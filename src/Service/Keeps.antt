-- ===== src/Service/Keeps.antt =====
-- crates/cng-core/src/service.rs: a property that the steps of the installation keep, also where they
-- fail; one rule for each way to put steps together.
use codex_no.Service.Machine.{
  Computer, Call, Outside, Steps, ◌>>=◌, ensure, ignore, on_error, when, attempt, command, resume,
}
use codex_no.Base.Results.{Result, ok, err}
use codex_no.Base.{
  ◌≡◌, sym, subst, inl, inr, Bool, true, false, if◌then◌else◌, Bool-cases, Option-cases,
}
use codex_no.Base.Text.{Text}

module _ (P : Computer → Type 0) where
  pub record Keeps {A : Type 0} (m : Steps A) : Type 0 where
    pub kept : (c : Computer) → P c → P (m c).1

  -- What follows a step, from any computer that has the property.
  pub resume_keeps :
      {A B : Type 0} (o : Result A × Computer) (k : A → Steps B)
      → P o.1
      → ((a : A) (d : Computer) → P d → P (k a d).1)
      → P (resume o k).1
  resume_keeps (ok a, c) k h next = next a c h
  resume_keeps (err e, c) k h next = h

  pub Keeps-bind :
      {A B : Type 0} (m : Steps A) (k : A → Steps B)
      → Keeps m
      → ((a : A) → Keeps (k a))
      → Keeps (m >>= k)
  Keeps-bind m k h next = record {
    kept = λ c p. resume_keeps (m c) k (h.kept c p) (λ a. (next a).kept);
  }

  pub Keeps-ensure : (b : Bool) (e : Text) → Keeps (ensure b e)
  Keeps-ensure true e = record { kept = λ c p. p }
  Keeps-ensure false e = record { kept = λ c p. p }

  pub Keeps-when : (b : Bool) (m : Steps (Unit {0})) → Keeps m → Keeps (when b m)
  Keeps-when true m h = h
  Keeps-when false m h = record { kept = λ c p. p }

  pub Keeps-if :
      {A : Type 0} (b : Bool) (m n : Steps A) → Keeps m → Keeps n → Keeps (if b then m else n)
  Keeps-if true m n h k = h
  Keeps-if false m n h k = k

  -- A step that only looks, answers or refuses.
  pub Keeps-same : {A : Type 0} (m : Steps A) → ((c : Computer) → (m c).1 ≡ c) → Keeps m
  Keeps-same m same = record { kept = λ c p. subst P (sym (same c)) p }

  pub Keeps-ignore : {A : Type 0} (m : Steps A) → Keeps m → Keeps (ignore m)
  Keeps-ignore m h = record { kept = h.kept }

  -- A step that looks at the computer first.
  pub Keeps-from :
      {A : Type 0} (f : Computer → Steps A) → ((c : Computer) → Keeps (f c)) → Keeps (λ c. f c c)
  Keeps-from f h = record { kept = λ c. (h c).kept c }

  pub Keeps-on_error :
      {A : Type 0} (o : Result A × Computer) (clean : Steps (Unit {0}))
      → P o.1
      → Keeps clean
      → P (on_error o clean).1
  Keeps-on_error (ok a, c) clean h k = h
  Keeps-on_error (err e, c) clean h k = k.kept c h

  module _ (w : Outside) (call : Call) (effect : Computer → Computer)
      (h : (c : Computer) → P c → P (effect c)) where
    attempt_keeps : (c : Computer) → P c → P (attempt w call effect c).1
    attempt_keeps c p = elim (Option-cases (w.fault call)) [
      | inl e ↦ rw (e, attempt) (h c p)
      | inr (reason, e) ↦ rw (e, attempt) p
    ]

    command_keeps : (c : Computer) → P c → P (command w call effect c).1
    command_keeps c p = elim (Option-cases (w.fault call)) [
      | inr (reason, e) ↦ rw (e, command) p
      | inl e ↦ elim (Bool-cases (w.succeeds call)) [
        | inl f ↦ rw (e, f, command) (h c p)
        | inr f ↦ rw (e, f, command) p
      ]
    ]

    pub Keeps-attempt : Keeps (attempt w call effect)
    Keeps-attempt = record { kept = attempt_keeps }

    pub Keeps-command : Keeps (command w call effect)
    Keeps-command = record { kept = command_keeps }

-- A step that leaves `Q` where it ends well, and `P` where it fails.
module _ (P Q : Computer → Type 0) where
  abbrev pub Leaves : {A : Type 0} → Result A × Computer → Type 0
  Leaves (ok a, c) = Q c
  Leaves (err e, c) = P c

  pub Leaves-resume :
      {A B : Type 0} (o : Result A × Computer) (k : A → Steps B)
      → Leaves o
      → ((a : A) (c : Computer) → Q c → P (k a c).1)
      → P (resume o k).1
  Leaves-resume (ok a, c) k h next = next a c h
  Leaves-resume (err e, c) k h next = h

  pub Leaves-of_Keeps :
      {A : Type 0} (o : Result A × Computer) → ((c : Computer) → Q c → P c) → Q o.1 → Leaves o
  Leaves-of_Keeps (ok a, c) weak h = h
  Leaves-of_Keeps (err e, c) weak h = weak c h
