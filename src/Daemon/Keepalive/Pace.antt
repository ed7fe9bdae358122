-- ===== src/Daemon/Keepalive/Pace.antt =====
-- crates/cngd/src/main.rs: the waits that the events of the keepalive loop call for.
use codex_no.Base.{
  ◌+◌, ◌-◌, ◌++◌, leb, if◌then◌else◌, ℕ, ◌*◌, ◌≤◌, min, ◌≡◌, refl, inl, inr, Option, none, some,
  List, [], ◌∷◌, arith, Bool-cases, All,
}

-- What a round meets: a failure, after which the loop waits; a start of the remote control, with its
-- time; or the child found running, with the time of the look.
pub data Event : Type 0 where
  failed : Event
  launched : ℕ → Event
  seen : ℕ → Event

-- The next wait, the waits that were made, newest first, and the time of the last start.
pub record Pace : Type 0 where
  pub delay : ℕ
  pub waits : List ℕ
  pub since : Option ℕ

-- A wait doubles the next one, up to five minutes; a child that is seen running half a minute after
-- its start brings it back to a second.
unfoldable pub follow : Event → Pace → Pace
follow failed p = record p { delay = min (p.delay * 2) 300; waits = p.delay ∷ p.waits }
follow (launched t) p = record p { since = some t }
follow (seen t) p = elim p.since [
  | none ↦ p
  | some s ↦ if leb (s + 30) t then record p { delay = 1 } else p
]

abbrev pub play : List Event → Pace → Pace
play [] p = p
play (e ∷ es) p = play es (follow e p)

pub play_append : (es fs : List Event) (p : Pace) → play (es ++ fs) p ≡ play fs (play es p)
play_append [] fs p = refl
play_append (e ∷ es) fs p = play_append es fs (follow e p)

pub seconds_lem : (s t : ℕ) → leb 30 (t - s) ≡ leb (s + 30) t
seconds_lem s t = ground arith

-- Every wait, the next one included, is between a second and five minutes.
abbrev pub IsBounded : Pace → Type 0
IsBounded p = All (λ n. (1 ≤ n) × (n ≤ 300)) (p.delay ∷ p.waits)

seen-IsBounded :
    (since : Option ℕ) (t : ℕ) (p : Pace)
    → IsBounded p
    → IsBounded
        (elim since [ none ↦ p | some s ↦ if leb (s + 30) t then record p { delay = 1 } else p ])
seen-IsBounded none t p h = h
seen-IsBounded (some s) t p h = elim (Bool-cases (leb (s + 30) t)) [
  | inl e ↦ rw e ((omega arith, omega arith), h.1)
  | inr e ↦ rw e h
]

follow-IsBounded : (e : Event) (p : Pace) → IsBounded p → IsBounded (follow e p)
unfolding follow
follow-IsBounded failed p ((a, b), h) = ((ground arith, ground arith), ((a, b), h))
follow-IsBounded (launched t) p h = h
follow-IsBounded (seen t) p h = seen-IsBounded p.since t p h

pub play-IsBounded : (es : List Event) (p : Pace) → IsBounded p → IsBounded (play es p)
play-IsBounded [] p h = h
play-IsBounded (e ∷ es) p h = play-IsBounded es (follow e p) (follow-IsBounded e p h)
