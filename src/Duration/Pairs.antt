-- ===== src/Duration/Pairs.antt =====
-- What `pair` makes of the events of a group.
use ubu_orchestrator.Base.{Bool, true, false, Option, none, some, List, [], ◌∷◌, ◌≡◌, All, arith}
use ubu_orchestrator.Base.Sort.{sort_by, IsSortedBy, sort_by-IsSortedBy, All-sort_by}
use ubu_orchestrator.Base.Int.{ℤ, ◌≤ℤ◌}
use ubu_orchestrator.Duration.{Observation, event_le, pair_from, pair}

total : (x y : ℤ × Bool) → event_le x y ≡ false → event_le y x ≡ true
total x y h = ground arith

trans : (x y z : ℤ × Bool) → event_le x y ≡ true → event_le y z ≡ true → event_le x z ≡ true
trans x y z h k = ground arith

-- Each observation starts no sooner than `t`, ends no sooner than it starts, and ends no later than
-- the next one starts.
abbrev pub Follow : ℤ → List Observation → Type 0
Follow t [] = Unit
Follow t (o ∷ os) =
    (t ≤ℤ o.started_at) × (o.started_at ≤ℤ o.completed_at) × Follow o.completed_at os

abbrev After : ℤ → ℤ × Bool → Type 0
After t e = t ≤ℤ e.0

later :
    (x : ℤ × Bool) (xs : List (ℤ × Bool)) → All (λ y. event_le x y ≡ true) xs → All (After x.0) xs
later x [] h = tt
later x (y ∷ ys) h = (ground (arith, h.0), later x ys h.1)

-- The open start is no sooner than `t`, and no event is sooner than it.
abbrev Opens : ℤ → Option ℤ → List (ℤ × Bool) → Type 0
Opens t none events = All (After t) events
Opens t (some a) events = (t ≤ℤ a) × All (After a) events

pair_from-Follow :
    (t : ℤ) (o : Option ℤ) (events : List (ℤ × Bool))
    → IsSortedBy event_le events
    → Opens t o events
    → Follow t (pair_from o events)
unfolding pair_from
pair_from-Follow t none [] s h = tt
pair_from-Follow t (some a) [] s h = tt
pair_from-Follow t none ((time, true) ∷ events) s h =
    pair_from-Follow t (some time) events s.1 (h.0, later (time, true) events s.0)
pair_from-Follow t (some a) ((time, true) ∷ events) s h =
    pair_from-Follow t (some time) events s.1
      (omega (arith, h.0, h.1.0), later (time, true) events s.0)
pair_from-Follow t none ((time, false) ∷ events) s h = pair_from-Follow t none events s.1 h.1
pair_from-Follow t (some a) ((time, false) ∷ events) s h =
    (h.0, h.1.0, pair_from-Follow time none events s.1 (later (time, false) events s.0))

-- The observations that `pair` makes follow one another, each ending no sooner than it starts,
-- whatever the order of the events. (`t` is a time before every event.)
pub pair-Follow :
    (t : ℤ) (events : List (ℤ × Bool)) → All (λ e. t ≤ℤ e.0) events → Follow t (pair events)
unfolding pair
pair-Follow t events h =
    pair_from-Follow t none (sort_by event_le events)
      (sort_by-IsSortedBy event_le total trans events) (All-sort_by event_le (After t) events h)
