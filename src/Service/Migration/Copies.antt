-- ===== src/Service/Migration/Copies.antt =====
-- crates/cng-core/src/service.rs: the copies that the migration makes of the earlier guard.
use codex_no.Service.Migration.{plist_copy, legacy_programs, copy_programs, back_up_legacy}
use codex_no.Service.Machine.{
  Computer, Call, Outside, Steps, resume, ensure, when, attempt, unchanged, find_home,
  make_legacy_backup, copy_legacy, with_copy,
}
use codex_no.Base.Text.Laws.{text_eq_refl}
use codex_no.Base.Results.{Result, ok, err}
use codex_no.Base.{
  ◌≡◌, refl, ap, ◌∙◌, ◌⊎◌, inl, inr, Bool, true, false, List, [], ◌∷◌, ◌++◌, Bool-cases,
  Option-cases, any_of, All,
}
use codex_no.Base.Text.{Text, text_eq}

-- The computer with more copies of the earlier guard's files.
abbrev pub with_copies : List Text → Computer → Computer
with_copies new c = record c { legacy = record c.legacy { copies = new ++ c.legacy.copies } }

abbrev pub Has : List Text → Text → Type 0
Has copies name = any_of (λ f. text_eq f name) copies ≡ true

pub Has-here : (name : Text) (copies : List Text) → Has (name ∷ copies) name
Has-here name copies = rw (text_eq_refl name) refl

pub Has-later :
    (name other : Text) (copies : List Text) → Has copies name → Has (other ∷ copies) name
Has-later name other copies h = elim (Bool-cases (text_eq other name)) [
  | inl e ↦ rw e refl
  | inr e ↦ rw e h
]

-- A step that fails has made copies and nothing else.
abbrev pub Tells : {A : Type 0} → Computer → (A → Computer → Type 0) → Result A × Computer → Type 0
Tells c Good (ok a, d) = Good a d
Tells c Good (err e, d) = (new : List Text) × (d ≡ with_copies new c)

pub Tells-resume :
    {A B : Type 0} (c : Computer) (Good : A → Computer → Type 0) (Next : B → Computer → Type 0)
    (o : Result A × Computer) (k : A → Steps B)
    → Tells c Good o
    → ((a : A) (d : Computer) → Good a d → Tells c Next (k a d))
    → Tells c Next (resume o k)
Tells-resume c Good Next (ok a, d) k h next = next a d h
Tells-resume c Good Next (err e, d) k h next = h

-- The copies that were made so far.
abbrev pub Copied : Computer → List Text → Computer → Type 0
Copied c new d = d ≡ with_copies new c

pub Tells-ensure :
    (c : Computer) (b : Bool) (e : Text) (new : List Text) (d : Computer)
    → Copied c new d
    → Tells c (λ u e'. (b ≡ true) × (e' ≡ d)) (ensure b e d)
Tells-ensure c true e new d h = (refl, refl)
Tells-ensure c false e new d h = (new, h)

module _ (w : Outside) (c : Computer) where
  pub Tells-attempt :
      (call : Call) (effect : Computer → Computer) (new : List Text) (d : Computer)
      → Copied c new d
      → Tells c (λ u e. e ≡ effect d) (attempt w call effect d)
  Tells-attempt call effect new d h = elim (Option-cases (w.fault call)) [
    | inl e ↦ rw (e, attempt) refl
    | inr (f, e) ↦ rw (e, attempt) (new, h)
  ]

  -- Whether the names are among the copies, those that were there included.
  abbrev pub AreCopied : List Text → List Text → List Text → Type 0
  AreCopied names copies all =
      ((n : Text) → Has copies n → Has all n)
      × All (λ n. (w.has_legacy_program n ≡ false) ⊎ Has all n) names

  abbrev pub AfterCopies : List Text → List Text → Unit {0} → Computer → Type 0
  AfterCopies names copies u d = (all : List Text) × Copied c all d × AreCopied names copies all

  one_lem :
      (name : Text) (copies : List Text) (d : Computer) (b : Bool)
      → w.has_legacy_program name ≡ b
      → Copied c copies d
      → Tells c
          (AfterCopies (name ∷ []) copies)
          (when b (attempt w (copy_legacy name) (with_copy name)) d)
  one_lem name copies d true there h = elim (Option-cases (w.fault (copy_legacy name))) [
    | inl e ↦
        rw (e, attempt)
          (
            name ∷ copies,
            ap (with_copy name) h,
            ((λ n k. Has-later n name copies k), (inr (Has-here name copies), tt)),
          )
    | inr (f, e) ↦ rw (e, attempt) (copies, h)
  ]
  one_lem name copies d false there h = (copies, h, ((λ n k. k), (inl there, tt)))

  copy_programs_lem :
      (names copies : List Text) (d : Computer)
      → Copied c copies d
      → Tells c (AfterCopies names copies) (copy_programs w names d)
  unfolding copy_programs
  copy_programs_lem [] copies d h = (copies, h, ((λ n k. k), tt))
  copy_programs_lem (name ∷ names) copies d h =
      Tells-resume c (AfterCopies (name ∷ []) copies) (AfterCopies (name ∷ names) copies)
        (when (w.has_legacy_program name) (attempt w (copy_legacy name) (with_copy name)) d)
        (λ u. copy_programs w names) (one_lem name copies d (w.has_legacy_program name) refl h)
        (λ u e (more, k, (kept, (here, v))).
          joined (w.has_legacy_program name) more kept here (copy_programs w names e)
            (copy_programs_lem names more e k))
    where
      joined :
          (b : Bool) (more : List Text)
          → ((n : Text) → Has copies n → Has more n)
          → (w.has_legacy_program name ≡ false) ⊎ Has more name
          → (o : Result (Unit {0}) × Computer) → Tells c (AfterCopies names more) o
          → Tells c (AfterCopies (name ∷ names) copies) o
      joined b more kept here (ok u, e) (all, k, (grown, rest)) = (
        all,
        k,
        (
          (λ n m. grown n (kept n m)),
          (elim here [ inl f ↦ inl f | inr m ↦ inr (grown name m) ], rest),
        ),
      )
      joined b more kept here (err r, e) k = k

  -- The LaunchAgent of the earlier guard and each of its programs that is there have a copy.
  abbrev pub BackedUp : Unit {0} → Computer → Type 0
  BackedUp u d =
      (all : List Text) × Copied c all d
      × Has all plist_copy
      × All (λ n. (w.has_legacy_program n ≡ false) ⊎ Has all n) legacy_programs

  pub back_up_lem : (d : Computer) → Copied c [] d → Tells c BackedUp (back_up_legacy w d)
  unfolding back_up_legacy
  back_up_lem d h =
      Tells-resume c (λ u e. e ≡ d) BackedUp (attempt w find_home unchanged d) _
        (Tells-attempt find_home unchanged [] d h)
        λ u1 d1 e1.
          Tells-resume c (λ u e. e ≡ d1) BackedUp (attempt w make_legacy_backup unchanged d1) _
            (Tells-attempt make_legacy_backup unchanged [] d1 (e1 ∙ h))
            λ u2 d2 e2.
              Tells-resume c (λ u e. e ≡ with_copy plist_copy d2) BackedUp
                (attempt w (copy_legacy plist_copy) (with_copy plist_copy) d2) _
                (Tells-attempt (copy_legacy plist_copy) (with_copy plist_copy) [] d2
                  (e2 ∙ (e1 ∙ h)))
                λ u3 d3 e3. finished (copy_programs w legacy_programs d3) (
                  copy_programs_lem legacy_programs (plist_copy ∷ []) d3
                    (e3 ∙ ap (with_copy plist_copy) (e2 ∙ (e1 ∙ h))))
    where
      finished :
          (o : Result (Unit {0}) × Computer)
          → Tells c (AfterCopies legacy_programs (plist_copy ∷ [])) o
          → Tells c BackedUp o
      finished (ok u, e) (all, k, (kept, rest)) =
          (all, k, kept plist_copy (Has-here plist_copy []), rest)
      finished (err r, e) k = k
