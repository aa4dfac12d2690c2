-- ===== src/Duration.antt =====
-- src/services/duration_model.rs: the duration of a routine, from its recorded executions.
--
-- `percentile` multiplies a length by 0.5 or 0.95 in f64 and rounds up. For any length below 2 ^ 53
-- that is the least whole number not below the length times 1/2 or 19/20, which is written here.
pub mod Pairs
pub mod Ranks
pub mod Derived
use ubu_orchestrator.Base.{
  ℕ, suc, ◌+◌, ◌-◌, ◌*◌, ◌/◌, max, min, String, Bool, true, false, not, ◌&&◌, ◌||◌, Option, none,
  some, List, [], ◌∷◌, ◌++◌, map, length, get_elem?, retain, ltb, leb, ◌==◌, if◌then◌else◌,
}
use ubu_orchestrator.Base.Order.{str_ord}
use ubu_orchestrator.Base.TreeMap.{TreeMap, get, insert}
use ubu_orchestrator.Base.Sort.{sort_by}
use ubu_orchestrator.Base.Int.{ℤ, pos, negsuc, pos_part, ◌-ℤ◌, ltb_ℤ, leb_ℤ, eq_ℤ}
use ubu_orchestrator.Planning.Seats.{DurationEstimate, fixed, shifted_lognormal_p95}

pub record Observation : Type 0 where
  pub started_at : ℤ
  pub completed_at : ℤ

unfoldable pub usable : Observation → Bool
usable o = ltb_ℤ o.started_at o.completed_at

-- `completed_at.saturating_sub(started_at)`, which only usable observations are asked for.
unfoldable pub seconds : Observation → ℕ
seconds o = min (pos_part (o.completed_at -ℤ o.started_at)) 9223372036854775807

pub data Untrusted : Type 0 where
  too_few_observations : ℕ → Untrusted

pub record DerivedDuration : Type 0 where
  pub estimate : DurationEstimate
  pub observations : ℕ
  pub min_seconds : ℕ
  pub mode_seconds : ℕ
  pub p95_seconds : ℕ

pub data Derivation : Type 0 where
  derived : DerivedDuration → Derivation
  untrusted : Untrusted → Derivation

abbrev pub or_zero : Option ℕ → ℕ
or_zero none = 0
or_zero (some n) = n

-- The nearest rank of the fraction `num / den`; the index is always within a list that is not empty.
unfoldable pub percentile : List ℕ → ℕ → ℕ → ℕ
percentile sorted num den =
    let rank = (length sorted * num + (den - 1)) / den in
    or_zero (get_elem? sorted (min (rank - 1) (length sorted - 1)))

unfoldable pub summarize : List ℕ → DerivedDuration
unfolding percentile
summarize sorted =
    let low = or_zero (get_elem? sorted 0) in
    let mode = percentile sorted 1 2 in
    let high = percentile sorted 19 20 in
    if low == high
    then record {
      estimate = fixed low;
      observations = length sorted;
      min_seconds = low;
      mode_seconds = mode;
      p95_seconds = high;
    }
    else record {
      estimate = shifted_lognormal_p95 low (max mode (low + 1)) (max high (max mode (low + 1) + 1));
      observations = length sorted;
      min_seconds = low;
      mode_seconds = max mode (low + 1);
      p95_seconds = max high (max mode (low + 1) + 1);
    }

abbrev pub enough : List ℕ → (List ℕ → Derivation) → Derivation
enough ns f = if ltb (length ns) 5 then untrusted (too_few_observations (length ns)) else f ns

-- No more than eight times the median, which saturates at 64 bits.
unfoldable pub within_ceiling : List ℕ → List ℕ
unfolding percentile
within_ceiling sorted =
    let ceiling = min (percentile sorted 1 2 * 8) 18446744073709551615 in
    retain (λ n. leb n ceiling) sorted

unfoldable pub derive : List Observation → Derivation
unfolding usable seconds within_ceiling summarize
derive observations =
    enough (map seconds (retain usable observations))
      λ ns. enough (within_ceiling (sort_by leb ns)) (λ kept. derived (summarize kept))

-- An event: its time, and whether it is a start. At one time a start comes before a completion.
abbrev pub event_le : ℤ × Bool → ℤ × Bool → Bool
event_le a b = ltb_ℤ a.0 b.0 || (eq_ℤ a.0 b.0 && (a.1 || not b.1))

-- A start replaces an open start; a completion closes it.
unfoldable pub pair_from : Option ℤ → List (ℤ × Bool) → List Observation
pair_from open_ [] = []
pair_from open_ ((time, true) ∷ events) = pair_from (some time) events
pair_from none ((time, false) ∷ events) = pair_from none events
pair_from (some started_at) ((time, false) ∷ events) =
    record { started_at = started_at; completed_at = time } ∷ pair_from none events

unfoldable pub pair : List (ℤ × Bool) → List Observation
unfolding pair_from
pair events = pair_from none (sort_by event_le events)

-- `now.saturating_sub(90 days)`
abbrev since : ℤ → ℤ
since now =
    if ltb_ℤ (now -ℤ pos 7776000) (negsuc 9223372036854775807)
    then negsuc 9223372036854775807
    else now -ℤ pos 7776000

abbrev entries : Option (List (ℤ × Bool)) → List (ℤ × Bool)
entries none = []
entries (some events) = events

unfoldable pub collect_groups :
    ℤ
    → TreeMap String (List (ℤ × Bool))
    → List (String × (ℤ × Bool))
    → TreeMap String (List (ℤ × Bool))
collect_groups now groups [] = groups
collect_groups now groups ((group, event) ∷ rows) =
    let next =
      (if leb_ℤ (since now) event.0 && leb_ℤ event.0 now
        then insert group (entries (get group groups) ++ (event ∷ [])) groups
        else groups) in
    collect_groups now next rows

unfoldable pub by_group : List (String × (ℤ × Bool)) → ℤ → TreeMap String (List Observation)
unfolding collect_groups pair
by_group rows now = map (λ e. (e.0, pair e.1)) (collect_groups now [] rows)
