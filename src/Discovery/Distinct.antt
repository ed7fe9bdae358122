-- ===== src/Discovery/Distinct.antt =====
-- crates/cng-core/src/discovery.rs: what `deduplicate` keeps.
use codex_no.Model.Candidate.{UpstreamCandidate}
use codex_no.Discovery.{deduplicate, unseen_in, Candidates}
use codex_no.Base.{
  ◌≡◌, refl, sym, ap, ◌∙◌, subst, ◌≢◌, inl, inr, Bool, true, false, List, [], ◌∷◌, ◌++◌, arith,
  Bool-cases, find_if, any_of, All,
}
use codex_no.Base.Text.{Text, text_eq}
use codex_no.Base.Text.Laws.{text_eq_iff}
use mathlib.Core.Bool.{false≢true}
use codex_no.Url.{UrlLib}

not_self : (s t : Text) (seen : List Text) → any_of (text_eq t) (s ∷ seen) ≡ false → s ≢ t
not_self s t seen h e = ground (arith, (text_eq_iff t s).1 (sym e))

later_unseen :
    (s t : Text) (seen : List Text)
    → any_of (text_eq t) (s ∷ seen) ≡ false
    → any_of (text_eq t) seen ≡ false
later_unseen s t seen h = ground arith

add_unseen :
    (s t : Text) (seen : List Text)
    → any_of (text_eq t) seen ≡ false
    → text_eq s t ≡ false
    → any_of (text_eq t) (s ∷ seen) ≡ false
add_unseen s t seen h e = ground (arith, text_eq_iff s t, text_eq_iff t s)

module _ (U : UrlLib) where
  -- No two candidates have the same id.
  abbrev pub AreDistinct : Candidates U → Type 0
  AreDistinct [] = Unit
  AreDistinct (c ∷ cs) = All (λ d. c.id ≢ d.id) cs × AreDistinct cs

  -- The first list is the second with some of its candidates left out.
  abbrev pub IsWithin : Candidates U → Candidates U → Type 0
  IsWithin [] cs = Unit
  IsWithin (k ∷ ks) cs =
      (before after : Candidates U) × (cs ≡ before ++ k ∷ after) × IsWithin ks after

  abbrev pub with_id : Text → UpstreamCandidate U → Bool
  with_id id c = text_eq c.id id

  abbrev Avoids : List Text → UpstreamCandidate U → Type 0
  Avoids seen d = any_of (text_eq d.id) seen ≡ false

  unseen_in-dropped :
      (seen : List Text) (c : UpstreamCandidate U) (cs : Candidates U)
      → any_of (text_eq c.id) seen ≡ true
      → unseen_in U seen (c ∷ cs) ≡ unseen_in U seen cs
  unfolding unseen_in
  unseen_in-dropped seen c cs e = rw (e, unseen_in)

  unseen_in-kept :
      (seen : List Text) (c : UpstreamCandidate U) (cs : Candidates U)
      → any_of (text_eq c.id) seen ≡ false
      → unseen_in U seen (c ∷ cs) ≡ c ∷ unseen_in U (c.id ∷ seen) cs
  unfolding unseen_in
  unseen_in-kept seen c cs e = rw (e, unseen_in)

  All-later :
      (s : Text) (seen : List Text) (cs : Candidates U)
      → All (Avoids (s ∷ seen)) cs
      → All (Avoids seen) cs × All (λ d. s ≢ d.id) cs
  All-later s seen [] h = (tt, tt)
  All-later s seen (c ∷ cs) (p, h) =
      let (a, b) = All-later s seen cs h in
      ((later_unseen s c.id seen p, a), (not_self s c.id seen p, b))

  unseen_in-Avoids :
      (seen : List Text) (cs : Candidates U) → All (Avoids seen) (unseen_in U seen cs)
  unfolding unseen_in
  unseen_in-Avoids seen [] = tt
  unseen_in-Avoids seen (c ∷ cs) = elim (Bool-cases (any_of (text_eq c.id) seen)) [
    | inl e ↦ rw (unseen_in-dropped seen c cs e) (unseen_in-Avoids seen cs)
    | inr e ↦
        rw (unseen_in-kept seen c cs e)
          (e, (All-later c.id seen _ (unseen_in-Avoids (c.id ∷ seen) cs)).0)
  ]

  unseen_in-AreDistinct : (seen : List Text) (cs : Candidates U) → AreDistinct (unseen_in U seen cs)
  unfolding unseen_in
  unseen_in-AreDistinct seen [] = tt
  unseen_in-AreDistinct seen (c ∷ cs) = elim (Bool-cases (any_of (text_eq c.id) seen)) [
    | inl e ↦ rw (unseen_in-dropped seen c cs e) (unseen_in-AreDistinct seen cs)
    | inr e ↦ rw (unseen_in-kept seen c cs e) (
      (All-later c.id seen _ (unseen_in-Avoids (c.id ∷ seen) cs)).1,
      unseen_in-AreDistinct (c.id ∷ seen) cs,
    )
  ]

  IsWithin-behind :
      (c : UpstreamCandidate U) (ks cs : Candidates U) → IsWithin ks cs → IsWithin ks (c ∷ cs)
  IsWithin-behind c [] cs h = tt
  IsWithin-behind c (k ∷ ks) cs (before, after, e, h) = (c ∷ before, after, ap (λ t. c ∷ t) e, h)

  unseen_in-IsWithin : (seen : List Text) (cs : Candidates U) → IsWithin (unseen_in U seen cs) cs
  unfolding unseen_in
  unseen_in-IsWithin seen [] = tt
  unseen_in-IsWithin seen (c ∷ cs) = elim (Bool-cases (any_of (text_eq c.id) seen)) [
    | inl e ↦
        rw (unseen_in-dropped seen c cs e) (IsWithin-behind c _ cs (unseen_in-IsWithin seen cs))
    | inr e ↦ rw (unseen_in-kept seen c cs e) ([], cs, refl, unseen_in-IsWithin (c.id ∷ seen) cs)
  ]

  seen_other :
      (id s : Text) (seen : List Text)
      → any_of (text_eq id) seen ≡ false
      → any_of (text_eq s) seen ≡ true
      → text_eq s id ≡ false
  seen_other id s seen h k = elim (Bool-cases (text_eq s id)) [
    | inr e ↦ e
    | inl e ↦ absurd (
        false≢true (sym h ∙ (ap (λ t. any_of (text_eq t) seen) (sym ((text_eq_iff s id).0 e)) ∙ k)))
  ]

  find_if-unseen_in :
      (id : Text) (seen : List Text) (cs : Candidates U)
      → any_of (text_eq id) seen ≡ false
      → find_if (with_id id) (unseen_in U seen cs) ≡ find_if (with_id id) cs
  unfolding unseen_in
  find_if-unseen_in id seen [] h = refl
  find_if-unseen_in id seen (c ∷ cs) h = elim (Bool-cases (any_of (text_eq c.id) seen)) [
    | inl e ↦
        rw (unseen_in-dropped seen c cs e, seen_other id c.id seen h e)
          (find_if-unseen_in id seen cs h)
    | inr e ↦ elim (Bool-cases (text_eq c.id id)) [
      | inl same ↦ rw (unseen_in-kept seen c cs e, same) refl
      | inr other ↦
          rw (unseen_in-kept seen c cs e, other)
            (find_if-unseen_in id (c.id ∷ seen) cs (add_unseen c.id id seen h other))
    ]
  ]

  -- Deduplication leaves some candidates out and keeps the order of the others, no two that it keeps
  -- have the same id, and of the candidates with any id it keeps exactly the first.
  pub deduplicate-AreDistinct :
      (cs : Candidates U) (id : Text)
      → IsWithin (deduplicate U cs) cs
        × AreDistinct (deduplicate U cs)
        × (find_if (with_id id) (deduplicate U cs) ≡ find_if (with_id id) cs)
  unfolding deduplicate
  deduplicate-AreDistinct cs id =
      (unseen_in-IsWithin [] cs, unseen_in-AreDistinct [] cs, find_if-unseen_in id [] cs refl)

  -- What holds of all candidates holds of those behind any one, and of those that are kept.
  All-behind :
      (P : UpstreamCandidate U → Type 0) (c : UpstreamCandidate U) (before after : Candidates U)
      → All P (before ++ c ∷ after)
      → P c × All P after
  All-behind P c [] after h = h
  All-behind P c (b ∷ before) after (p, h) = All-behind P c before after h

  All-IsWithin :
      (P : UpstreamCandidate U → Type 0) (ks cs : Candidates U)
      → IsWithin ks cs
      → All P cs
      → All P ks
  All-IsWithin P [] cs h k = tt
  All-IsWithin P (c ∷ ks) cs (before, after, e, h) k =
      let (p, rest) = All-behind P c before after (subst (All P) e k) in
      (p, All-IsWithin P ks after h rest)

  pub All-deduplicate :
      (P : UpstreamCandidate U → Type 0) (cs : Candidates U) → All P cs → All P (deduplicate U cs)
  All-deduplicate P cs h = All-IsWithin P _ cs (deduplicate-AreDistinct cs []).0 h
