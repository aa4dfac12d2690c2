-- ===== src/Planning/Window.antt =====
-- src/services/planning_service.rs: the half-open spans of Unix seconds, and the search for the
-- first free span.
pub mod Fit
use ubu_orchestrator.Base.{
  ℕ, ◌+◌, ◌*◌, ◌/◌, max, min, Bool, true, false, not, ◌&&◌, ◌||◌, Option, none, some, List, [], ◌∷◌,
  retain, is_some, ltb, leb, ◌==◌, if◌then◌else◌,
}
use ubu_orchestrator.Base.Sort.{sort_by}

pub record TimeWindow : Type 0 where
  pub start : ℕ
  pub end : ℕ

abbrev pub u64_size : ℕ
u64_size = 18446744073709551616

-- `u64::checked_add`
unfoldable pub checked_add : ℕ → ℕ → Option ℕ
checked_add a b = if ltb (a + b) u64_size then some (a + b) else none

-- `div_ceil(60).saturating_mul(60)`
unfoldable pub next_whole_minute : ℕ → ℕ
next_whole_minute seconds = min (((seconds + 59) / 60) * 60) 18446744073709551615

abbrev pub window_le : TimeWindow → TimeWindow → Bool
window_le a b = ltb a.start b.start || (a.start == b.start && leb a.end b.end)

-- `checked_add(duration).filter(|end| *end <= limit)` and the span that it ends.
unfoldable pub span_before : ℕ → ℕ → ℕ → Option TimeWindow
unfolding checked_add
span_before cursor duration limit = elim (checked_add cursor duration) [
  | none ↦ none
  | some end ↦ if leb end limit then some (record { start = cursor; end = end }) else none
]

unfoldable pub scan : TimeWindow → ℕ → ℕ → List TimeWindow → Option TimeWindow
unfolding span_before
scan window duration cursor [] = span_before cursor duration window.end
scan window duration cursor (interval ∷ rest) =
    let later = scan window duration (max cursor interval.end) rest in
    elim (span_before cursor duration (min interval.start window.end)) [
      | some w ↦ some w
      | none ↦ later
    ]

abbrev pub reaches : TimeWindow → TimeWindow → Bool
reaches window w = ltb w.start window.end && ltb window.start w.end

unfoldable pub earliest_fit : TimeWindow → List TimeWindow → ℕ → Option TimeWindow
unfolding scan
earliest_fit window occupied duration =
    scan window duration window.start (sort_by window_le (retain (reaches window) occupied))

unfoldable pub has_free_gap : TimeWindow → List TimeWindow → ℕ → Bool
unfolding earliest_fit
has_free_gap window fixed duration = is_some (earliest_fit window fixed duration)

-- Equal spans do not contain one another.
unfoldable pub contains : TimeWindow → TimeWindow → Bool
contains outer inner =
    (leb outer.start inner.start && leb inner.end outer.end)
    && (ltb outer.start inner.start || ltb inner.end outer.end)

unfoldable pub nested : TimeWindow → TimeWindow → Bool
unfolding contains
nested a b = contains a b || contains b a
