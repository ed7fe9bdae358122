-- ===== src/Proxy/Connect/Routes.antt =====
-- crates/cng-core/src/proxy.rs: which routes a new connection may take.
use codex_no.Base.{
  ℕ, ◌≡◌, refl, sym, ap, subst, ◌≢◌, ◌⊎◌, inl, inr, Bool, true, false, not, Option, none, some,
  List, [], ◌∷◌, ◌++◌, map, if◌then◌else◌, Bool-cases, keep_if, All,
}
use codex_no.Base.Text.{Text, codes}
use mathlib.Core.Path.{subst₂}
use codex_no.Proxy.Errors.{redact_error}
use codex_no.Base.Results.{Result, ok, err}
use codex_no.Url.{UrlLib}
use codex_no.Model.{is_down}
use codex_no.Model.Candidate.{UpstreamCandidate}
use codex_no.Model.Health.{CandidateHealth}
use codex_no.Proxy.Tunnel.{Stream}
use codex_no.Proxy.Runtime.{ProxyRuntime}
use codex_no.Proxy.Connect.{
  Dial, via, straight, Outside, Attempt, opened, refused, timed_out, Routing, attempt, fall_back,
  dialled, try_each, connect_for_runtime,
}

module _ (U : UrlLib) (w : Outside U) (host : Text) (port : ℕ) where
  abbrev pub usable : List (CandidateHealth U) → List (CandidateHealth U)
  usable cs = keep_if (λ h. not (is_down h.state)) cs

  abbrev pub Fails : ℕ → CandidateHealth U → Type 0
  Fails limit h = (s : Stream) → attempt U w host port limit h.candidate ≢ opened s

  abbrev pub vias : List (CandidateHealth U) → List (Dial U)
  vias cs = map (λ h. via h.candidate) cs

  -- Over the usable candidates: one is chosen, all before it fail, and no more is dialled than these
  -- and it.
  abbrev pub TakesCandidate : ℕ → List (CandidateHealth U) → Routing U → Type 0
  TakesCandidate limit us r =
      (before after : List (CandidateHealth U)) × (h : CandidateHealth U) × (s : Stream) × (us
        ≡ before ++ h ∷ after)
      × All (Fails limit) before
      × (attempt U w host port limit h.candidate ≡ opened s)
      × (r.dials ≡ vias before ++ via h.candidate ∷ [])
      × (r.outcome ≡ ok (some h.candidate, s))

  -- All fail, and the target is dialled directly, which the flag allows.
  abbrev pub GoesStraight : ℕ → Bool → List (CandidateHealth U) → Routing U → Type 0
  GoesStraight limit fallback us r =
      (fallback ≡ true)
      × All (Fails limit) us
      × (r.dials ≡ vias us ++ straight ∷ [])
      × (((s : Stream) × (r.outcome ≡ ok (none, s))) ⊎ ((e : Text) × (r.outcome ≡ err e)))

  -- All fail, and the connection is refused.
  abbrev pub HasNoRoute : ℕ → Bool → List (CandidateHealth U) → Routing U → Type 0
  HasNoRoute limit fallback us r =
      (fallback ≡ false)
      × All (Fails limit) us
      × (r.dials ≡ vias us)
      × ((e : Text) × (r.outcome ≡ err e))

  abbrev pub IsRouted : ℕ → Bool → List (CandidateHealth U) → Routing U → Type 0
  IsRouted limit fallback us r =
      TakesCandidate limit us r
      ⊎ (GoesStraight limit fallback us r ⊎ HasNoRoute limit fallback us r)

  -- What the direct connection comes to.
  straight_cases :
      (r : Result Stream) (late : Bool) (msg : Text)
      → let outcome : Result (Option (UpstreamCandidate U) × Stream) =
          if late then err msg else elim r [ ok s ↦ ok (none, s) | err e ↦ err e ] in
        ((s : Stream) × (outcome ≡ ok (none, s))) ⊎ ((e : Text) × (outcome ≡ err e))
  straight_cases r true msg = inr (msg, refl)
  straight_cases (ok s) false msg = inl (s, refl)
  straight_cases (err e) false msg = inr (e, refl)

  fall_back-IsRouted :
      (limit : ℕ) (fallback : Bool) (errors : List Text)
      → IsRouted limit fallback [] (fall_back U w host port limit fallback errors)
  unfolding fall_back
  fall_back-IsRouted limit true errors =
      inr (inl (refl, tt, refl, straight_cases (w.direct_connect host port) _ _))
  fall_back-IsRouted limit false errors = inr (inr (refl, tt, refl, (_, refl)))

  dialled-IsRouted :
      (limit : ℕ) (fallback : Bool) (h : CandidateHealth U) (us : List (CandidateHealth U))
      (r : Routing U)
      → Fails limit h
      → IsRouted limit fallback us r
      → IsRouted limit fallback (h ∷ us) (dialled U w host port h.candidate r)
  dialled-IsRouted limit fallback h us r bad (inl (before, after, k, s, e, fs, a, d, o)) =
      inl (
        h ∷ before,
        after,
        k,
        s,
        ap (λ t. h ∷ t) e,
        (bad, fs),
        a,
        ap (λ t. via h.candidate ∷ t) d,
        o,
      )
  dialled-IsRouted limit fallback h us r bad (inr (inl (f, fs, d, o))) =
      inr (inl (f, (bad, fs), ap (λ t. via h.candidate ∷ t) d, o))
  dialled-IsRouted limit fallback h us r bad (inr (inr (f, fs, d, o))) =
      inr (inr (f, (bad, fs), ap (λ t. via h.candidate ∷ t) d, o))

  Attempt-cases :
      (a : Attempt)
      → ((s : Stream) × (a ≡ opened s)) ⊎ (((e : Text) × (a ≡ refused e)) ⊎ (a ≡ timed_out))
  Attempt-cases (opened s) = inl (s, refl)
  Attempt-cases (refused e) = inr (inl (e, refl))
  Attempt-cases timed_out = inr (inr refl)

  not_opened :
      (a : Attempt) → ((e : Text) × (a ≡ refused e)) ⊎ (a ≡ timed_out) → (s : Stream) → a ≢ opened s
  not_opened a (inl (e, p)) s q = cc
  not_opened a (inr p) s q = cc

  module _ (limit : ℕ) (fallback : Bool) where
    run : List Text → List (CandidateHealth U) → Routing U
    run errors hs = try_each U w host port limit fallback errors hs

    run-skip :
        (h : CandidateHealth U) (hs : List (CandidateHealth U)) (errors : List Text)
        → is_down h.state ≡ true
        → run errors (h ∷ hs) ≡ run errors hs
    unfolding run try_each
    run-skip h hs errors e = rw e

    run-opened :
        (h : CandidateHealth U) (hs : List (CandidateHealth U)) (errors : List Text) (s : Stream)
        → is_down h.state ≡ false
        → attempt U w host port limit h.candidate ≡ opened s
        → run errors (h ∷ hs)
          ≡ record { dials = via h.candidate ∷ []; outcome = ok (some h.candidate, s) }
    unfolding run try_each
    run-opened h hs errors s e a = rw (e, a)

    run-failed :
        (h : CandidateHealth U) (hs : List (CandidateHealth U)) (errors : List Text)
        → is_down h.state ≡ false
        → Fails limit h
        → (errors' : List Text) × (run errors (h ∷ hs)
            ≡ dialled U w host port h.candidate (run errors' hs))
    unfolding run try_each
    run-failed h hs errors e bad = elim (Attempt-cases (attempt U w host port limit h.candidate)) [
      | inl (s, a) ↦ absurd (bad s a)
      | inr (inl (msg, a)) ↦ (errors ++ redact_error w.redactor msg ∷ [], rw (e, a))
      | inr (inr a) ↦ (errors ++ codes "connection timed out" ∷ [], rw (e, a))
    ]

    pub usable_down :
        (h : CandidateHealth U) (hs : List (CandidateHealth U))
        → is_down h.state ≡ true
        → usable (h ∷ hs) ≡ usable hs
    usable_down h hs e = rw e

    pub usable_up :
        (h : CandidateHealth U) (hs : List (CandidateHealth U))
        → is_down h.state ≡ false
        → usable (h ∷ hs) ≡ h ∷ usable hs
    usable_up h hs e = rw e

    run_up :
        (h : CandidateHealth U) (hs : List (CandidateHealth U)) (errors : List Text)
        → is_down h.state ≡ false
        → ((errors' : List Text) → IsRouted limit fallback (usable hs) (run errors' hs))
        → IsRouted limit fallback (h ∷ usable hs) (run errors (h ∷ hs))
    run_up h hs errors up ih = elim (Attempt-cases (attempt U w host port limit h.candidate)) [
      | inl (s, a) ↦ inl (
        [],
        usable hs,
        h,
        s,
        refl,
        tt,
        a,
        ap (λ r. r.dials) (run-opened h hs errors s up a),
        ap (λ r. r.outcome) (run-opened h hs errors s up a),
      )
      | inr c ↦
          let bad = not_opened (attempt U w host port limit h.candidate) c in
          let (errors', e) = run-failed h hs errors up bad in
          subst (IsRouted limit fallback (h ∷ usable hs)) (sym e)
            (dialled-IsRouted limit fallback h (usable hs) (run errors' hs) bad (ih errors'))
    ]

    run-IsRouted :
        (hs : List (CandidateHealth U)) (errors : List Text)
        → IsRouted limit fallback (usable hs) (run errors hs)
    unfolding run try_each
    run-IsRouted [] errors = fall_back-IsRouted limit fallback errors
    run-IsRouted (h ∷ hs) errors = elim (Bool-cases (is_down h.state)) [
      | inl e ↦
          subst₂ (IsRouted limit fallback) (sym (usable_down h hs e)) (sym (run-skip h hs errors e))
            (run-IsRouted hs errors)
      | inr e ↦
          subst (λ us. IsRouted limit fallback us (run errors (h ∷ hs))) (sym (usable_up h hs e))
            (run_up h hs errors e (run-IsRouted hs))
    ]

  -- A new connection goes through the first usable candidate, in the order of the list, whose attempt
  -- opens a stream, and dials nothing but the usable ones before it and it. Only when all usable
  -- candidates fail and the direct fallback is on is the target dialled directly; with the fallback
  -- off the connection is refused and nothing is dialled but the usable candidates. A candidate that
  -- is down is never dialled.
  pub connect_for_runtime-IsRouted :
      (first then_read : ProxyRuntime U)
      → IsRouted first.connect_timeout then_read.direct_fallback
          (usable first.candidates)
          (connect_for_runtime U w host port first then_read)
  unfolding connect_for_runtime run
  connect_for_runtime-IsRouted first then_read =
      run-IsRouted first.connect_timeout then_read.direct_fallback first.candidates []
