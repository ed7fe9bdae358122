-- ===== src/Front/Stays.antt =====
-- crates/cng/src/main.rs and apps/desktop/src-tauri/src/main.rs: what leaves the daemon alone, and what
-- moves its settings.
use codex_no.Front.{
  Desk, Session, Action, resume, ◌>>=◌, unless_fault, call, received, in_context, with_context,
  write_report,
}
use codex_no.Daemon.Settings.Refined.{handle-Refines}
use codex_no.Daemon.Settings.{Settings, settings_of, Asks, Refines}
use codex_no.Daemon.Requests.{handle, method_of, Method, Params, Reply}
use codex_no.Daemon.{AppState}
use codex_no.Url.{UrlLib}
use codex_no.Base.Results.{Result, ok, err}
use codex_no.Base.{
  ◌≡◌, refl, sym, ap, ◌∙◌, subst, ◌⊎◌, inl, inr, Bool, true, false, Option, none, some,
  if◌then◌else◌, Option-cases,
}
use codex_no.Base.Text.{Text}

module _ {U : UrlLib} where
  -- The daemon is as it was.
  abbrev pub Stays : {A : Type 0} → Action U A → Type 0
  Stays m = (s : Session U) → (m s).1.daemon ≡ s.daemon

  resume-Stays :
      {A B : Type 0} (o : Result A × Session U) (k : A → Action U B)
      → ((a : A) → Stays (k a))
      → (resume o k).1.daemon ≡ o.1.daemon
  resume-Stays (ok a, s) k h = h a s
  resume-Stays (err e, s) k h = refl

  pub Stays-then :
      {A B : Type 0} (m : Action U A) (k : A → Action U B)
      → Stays m
      → ((a : A) → Stays (k a))
      → Stays (m >>= k)
  Stays-then m k h next s = resume-Stays (m s) k next ∙ h s

  pub unless_fault-Stays : (fault : Option Text) → Stays (unless_fault fault)
  unless_fault-Stays none s = refl
  unless_fault-Stays (some e) s = refl

  pub Stays-if :
      {A : Type 0} (b : Bool) (m n : Action U A) → Stays m → Stays n → Stays (if b then m else n)
  Stays-if true m n h k = h
  Stays-if false m n h k = k

  abbrev pub settings : Session U → Settings
  settings s = settings_of s.daemon.config

  -- What is done moves the settings so; what fails may also have left them alone.
  abbrev pub Moves :
      {A : Type 0} → (Settings → Settings → Type 0) → Settings → Result A × Session U → Type 0
  Moves Q a (ok x, t) = Q a (settings t)
  Moves Q a (err e, t) = (settings t ≡ a) ⊎ Q a (settings t)

  moved_lem :
      {A : Type 0} (Q : Settings → Settings → Type 0) (a : Settings) (o : Result A × Session U)
      → Q a (settings o.1)
      → Moves Q a o
  moved_lem Q a (ok x, t) h = h
  moved_lem Q a (err e, t) h = inr h

  -- What stays behind a request does not change what the request has done.
  resume-Moves :
      {A B : Type 0} (Q : Settings → Settings → Type 0) (a : Settings) (o : Result A × Session U)
      (k : A → Action U B)
      → Moves Q a o
      → ((x : A) → Stays (k x))
      → Moves Q a (resume o k)
  resume-Moves Q a (ok x, t) k h next =
      moved_lem Q a (k x t) (subst (λ d. Q a (settings_of d.config)) (sym (next x t)) h)
  resume-Moves Q a (err e, t) k h next = h

  pub Moves-then :
      {A B : Type 0} (Q : Settings → Settings → Type 0) (m : Action U A) (k : A → Action U B)
      (s : Session U)
      → Moves Q (settings s) (m s)
      → ((x : A) → Stays (k x))
      → Moves Q (settings s) ((m >>= k) s)
  Moves-then Q m k s h next = resume-Moves Q (settings s) (m s) k h next

  -- What stays before a request.
  behind_lem :
      {A B : Type 0} (Q : Settings → Settings → Type 0) (s : Session U) (o : Result A × Session U)
      (k : A → Action U B)
      → o.1.daemon ≡ s.daemon
      → ((x : A) (t : Session U) → Moves Q (settings t) (k x t))
      → Moves Q (settings s) (resume o k)
  behind_lem Q s (ok x, t) k e next =
      subst (λ d. Moves Q (settings_of d.config) (k x t)) e (next x t)
  behind_lem Q s (err e', t) k e next = inl (ap (λ d. settings_of d.config) e)

  pub Moves-behind :
      {A B : Type 0} (Q : Settings → Settings → Type 0) (m : Action U A) (k : A → Action U B)
      (s : Session U)
      → Stays m
      → ((x : A) (t : Session U) → Moves Q (settings t) (k x t))
      → Moves Q (settings s) ((m >>= k) s)
  Moves-behind Q m k s h next = behind_lem Q s (m s) k (h s) next

  -- What stays altogether.
  pub Moves-of_Stays :
      {A : Type 0} (m : Action U A) (s : Session U)
      → Stays m
      → Moves (λ a b. b ≡ a) (settings s) (m s)
  Moves-of_Stays m s h =
      moved_lem (λ a b. b ≡ a) (settings s) (m s) (ap (λ d. settings_of d.config) (h s))

  in_context-Moves :
      {A : Type 0} (Q : Settings → Settings → Type 0) (a : Settings) (text : Text)
      (o : Result A × Session U)
      → Moves Q a o
      → Moves Q a (in_context text o.0, o.1)
  in_context-Moves Q a text (ok x, t) h = h
  in_context-Moves Q a text (err e, t) h = h

  pub with_context-Moves :
      {A : Type 0} (Q : Settings → Settings → Type 0) (a : Settings) (text : Text) (m : Action U A)
      (s : Session U)
      → Moves Q a (m s)
      → Moves Q a (with_context text m s)
  with_context-Moves Q a text m s h = in_context-Moves Q a text (m s) h

  pub Moves-as :
      {A : Type 0} (Q R : Settings → Settings → Type 0) (a : Settings) (o : Result A × Session U)
      → ((b : Settings) → Q a b → R a b)
      → Moves Q a o
      → Moves R a o
  Moves-as Q R a (ok x, t) h k = h (settings t) k
  Moves-as Q R a (err e, t) h (inl k) = inl k
  Moves-as Q R a (err e, t) h (inr k) = inr (h (settings t) k)

module _ (U : UrlLib) (desk : Desk U) where
  pub write_report-Stays : (path text : Text) → Stays (write_report U desk path text)
  unfolding write_report
  write_report-Stays path text s = elim (Option-cases (desk.write_fault path)) [
    | inl e ↦ rw (e, write_report) refl
    | inr (f, e) ↦ rw (e, write_report) refl
  ]

  answered_lem :
      (m : Method) (p : Params) (s : Session U) (o : Result (Reply U) × AppState U)
      → Refines U m p (settings s) o
      → Moves (Asks m p) (settings s) (received U desk o.0, record s { daemon = o.1 })
  unfolding received
  answered_lem m p s (ok r, d) h = elim (Option-cases desk.answer_fault) [
    | inl e ↦ rw (e, received) h.0
    | inr (f, e) ↦ rw (e, received) (inr h.0)
  ]
  answered_lem m p s (err r, d) h = elim (Option-cases desk.answer_fault) [
    | inl e ↦ rw (e, received) h
    | inr (f, e) ↦ rw (e, received) h
  ]

  -- A call moves the settings as its method asks.
  pub call-Moves :
      (method : Text) (p : Params) (s : Session U)
      → Moves (Asks (method_of method) p) (settings s) (call U desk method p s)
  unfolding call
  call-Moves method p s = elim (Option-cases desk.call_fault) [
    | inl e ↦
        rw (e, call)
          (answered_lem (method_of method) p s (handle U desk.world s.daemon method p)
            (handle-Refines U desk.world s.daemon method p))
    | inr (f, e) ↦ rw (e, call) (inl refl)
  ]
