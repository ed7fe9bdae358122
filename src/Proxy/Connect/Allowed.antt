-- ===== src/Proxy/Connect/Allowed.antt =====
-- crates/cng-core/src/proxy.rs: a new connection dials nothing that it may not.
use codex_no.Proxy.Connect.Routes.{
  usable, vias, usable_down, usable_up, connect_for_runtime-IsRouted,
}
use codex_no.Base.{
  append-nil, ℕ, ◌≡◌, refl, sym, subst, inl, inr, Bool, true, false, List, [], ◌∷◌, ◌++◌,
  Bool-cases, All,
}
use codex_no.Base.Text.{Text}
use mathlib.Core.List.{Mem, mem-cons_of_mem, mem-cons_self}
use codex_no.Url.{UrlLib}
use codex_no.Model.{is_down}
use codex_no.Model.Health.{CandidateHealth}
use codex_no.Proxy.Runtime.{ProxyRuntime}
use codex_no.Proxy.Connect.{Dial, via, straight, Outside, connect_for_runtime}

module _ (U : UrlLib) where
  -- A dial that a connection may make: through a candidate of the list that is not down, or straight
  -- to the target if the direct fallback is on.
  abbrev pub IsAllowed : List (CandidateHealth U) → Bool → Dial U → Type 0
  IsAllowed cs fallback (via c) =
      (h : CandidateHealth U) × Mem h cs × (is_down h.state ≡ false) × (h.candidate ≡ c)
  IsAllowed cs fallback straight = fallback ≡ true

module _ (U : UrlLib) (w : Outside U) (host : Text) (port : ℕ) where
  -- A list of members that are not down.
  abbrev AreUsable : List (CandidateHealth U) → List (CandidateHealth U) → Type 0
  AreUsable cs us = All (λ h. Mem h cs × (is_down h.state ≡ false)) us

  vias-IsAllowed :
      (cs us : List (CandidateHealth U)) (fallback : Bool) (rest : List (Dial U))
      → AreUsable cs us
      → All (IsAllowed U cs fallback) rest
      → All (IsAllowed U cs fallback) (vias U w host port us ++ rest)
  vias-IsAllowed cs [] fallback rest h k = k
  vias-IsAllowed cs (u ∷ us) fallback rest ((m, up), h) k =
      ((u, m, up, refl), vias-IsAllowed cs us fallback rest h k)

  AreUsable-mono :
      (h : CandidateHealth U) (cs us : List (CandidateHealth U))
      → AreUsable cs us
      → AreUsable (h ∷ cs) us
  AreUsable-mono h cs [] k = tt
  AreUsable-mono h cs (u ∷ us) ((m, up), k) = ((mem-cons_of_mem h m, up), AreUsable-mono h cs us k)

  usable-AreUsable : (cs : List (CandidateHealth U)) → AreUsable cs (usable U w host port cs)
  usable-AreUsable [] = tt
  usable-AreUsable (h ∷ cs) = elim (Bool-cases (is_down h.state)) [
    | inl e ↦
        rw (usable_down U w host port 0 false h cs e)
          (AreUsable-mono h cs (usable U w host port cs) (usable-AreUsable cs))
    | inr e ↦
        rw (usable_up U w host port 0 false h cs e)
          ((mem-cons_self, e), AreUsable-mono h cs (usable U w host port cs) (usable-AreUsable cs))
  ]

  AreUsable-before :
      (cs before after us : List (CandidateHealth U)) (h : CandidateHealth U)
      → us ≡ before ++ h ∷ after
      → AreUsable cs us
      → AreUsable cs (before ++ h ∷ [])
  AreUsable-before cs before after us h e k = go before (subst (AreUsable cs) e k)
    where
      go :
          (bs : List (CandidateHealth U))
          → AreUsable cs (bs ++ h ∷ after)
          → AreUsable cs (bs ++ h ∷ [])
      go [] (p, k) = (p, tt)
      go (b ∷ bs) (p, k) = (p, go bs k)

  pub dials-IsAllowed :
      (first then_read : ProxyRuntime U)
      → All
          (IsAllowed U first.candidates then_read.direct_fallback)
          (connect_for_runtime U w host port first then_read).dials
  dials-IsAllowed first then_read =
      elim (connect_for_runtime-IsRouted U w host port first then_read) [
        | inl (before, after, h, s, e, fs, a, d, o) ↦ subst (All (IsAllowed U cs flag)) (sym d) (
            chosen_lem before h
              (AreUsable-before cs before after (usable U w host port cs) h e good))
        | inr (inl (f, fs, d, o)) ↦
            subst (All (IsAllowed U cs flag)) (sym d)
              (vias-IsAllowed cs (usable U w host port cs) flag (straight ∷ []) good (f, tt))
        | inr (inr (f, fs, d, o)) ↦ subst (All (IsAllowed U cs flag)) (sym d) (
            subst (All (IsAllowed U cs flag))
              (append-nil (vias U w host port (usable U w host port cs)))
              (vias-IsAllowed cs (usable U w host port cs) flag [] good tt))
      ]
    where
      cs : List (CandidateHealth U)
      cs = first.candidates

      flag : Bool
      flag = then_read.direct_fallback

      good : AreUsable cs (usable U w host port cs)
      good = usable-AreUsable cs

      chosen_lem :
          (before : List (CandidateHealth U)) (h : CandidateHealth U)
          → AreUsable cs (before ++ h ∷ [])
          → All (IsAllowed U cs flag) (vias U w host port before ++ via h.candidate ∷ [])
      chosen_lem [] h ((m, up), k) = ((h, m, up, refl), tt)
      chosen_lem (b ∷ bs) h ((m, up), k) = ((b, m, up, refl), chosen_lem bs h k)
