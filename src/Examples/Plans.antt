-- ===== src/Examples/Plans.antt =====
-- Windows, steps, segments, seats and durations at small numbers.
use mathlib.Core.List.{Perm}
use ubu_orchestrator.Base.{
  All, Any, ℕ, ◌≤◌, ◌<◌, ◌&&◌, ◌++◌, retain, is_none, subst, eq_of_some, String, str_eq, Bool, true,
  false, none, some, List, [], ◌∷◌, ◌≡◌, inr, refl, map, arith,
}
use ubu_orchestrator.Base.Order.{str_ord}
use ubu_orchestrator.Base.TreeMap.{TreeMap, get}
use ubu_orchestrator.Base.Int.{ℤ, pos}
use ubu_orchestrator.Base.Sort.{Pairwise, sort_by, place}
use ubu_orchestrator.Errors.{Result, ok}
use ubu_orchestrator.Calendar.Desired.{desired_events}
use ubu_orchestrator.Calendar.Desired.Sources.{OtherId, desired_events-Pairwise}
use ubu_orchestrator.Calendar.Desired.Fields.{Earlier, Shows, HasId, desired_events-Shows}
use ubu_orchestrator.Planning.Window.{
  TimeWindow, u64_size, scan, span_before, checked_add, earliest_fit,
}
use ubu_orchestrator.Planning.Window.Fit.{IsFree, earliest_fit-IsFree, earliest_fit_complete}
use ubu_orchestrator.Planning.Steps.{ScheduledTask, member, merge_steps, validate_steps}
use ubu_orchestrator.Planning.Steps.Merged.{ComesFirst, IsMerged, IsSame, SameTask, merge_steps_lem}
use ubu_orchestrator.Planning.Steps.Canonical.{merge_steps_valid}
use ubu_orchestrator.Planning.Segments.{
  CompiledSegment, expanded, expand_from, expand_segment, total_seconds,
}
use ubu_orchestrator.Planning.Segments.Contiguous.{
  Fills, expand_segment-Fills, expand_segment_total,
}
use ubu_orchestrator.Planning.Seats.{
  DurationEstimate, fixed, shifted_lognormal_p95, TaskSpec, pending_mandatory, static_ends,
  unseatable_mandatory,
}
use ubu_orchestrator.Planning.Seats.Decisions.{Decision, failures, Fits, AllBecause}
use ubu_orchestrator.Planning.Seats.Seated.{InOrder, IsWaiting, unseatable_mandatory_lem}
use ubu_orchestrator.Duration.{Observation, derive, pair}
use ubu_orchestrator.Duration.Derived.{worked, IsDerivation, derive_lem}
use ubu_orchestrator.Duration.Pairs.{Follow, pair-Follow}

abbrev span : ℕ → ℕ → TimeWindow
span a b = record { start = a; end = b }

abbrev busy : List TimeWindow
busy = span 10 30 ∷ span 0 5 ∷ []

earliest_fit-IsFree_example : IsFree (span 0 100) busy 10 (span 30 40)
unfolding earliest_fit scan span_before checked_add sort_by place
earliest_fit-IsFree_example = earliest_fit-IsFree (span 0 100) busy 10 (span 30 40) refl

earliest_fit_complete_example :
    (r : TimeWindow) × (earliest_fit (span 0 100) busy 10 ≡ some r) × (r.start ≤ 50)
earliest_fit_complete_example =
    earliest_fit_complete (span 0 100) busy 10 (span 50 60) (omega arith) (record {
      after = omega arith;
      long = refl;
      before = omega arith;
      clear = (inr (omega arith), (inr (omega arith), tt));
    })

abbrev step : String → ℕ → ℕ → ScheduledTask
step id a b = record {
  index = 0;
  task_id = id;
  summary = id;
  start = a;
  end = b;
  start_at = "";
  end_at = "";
  depends_on = [];
  static_anchor = false;
  placement_authority = "planner";
  occupies_capacity = true;
  category_tag = none;
  gcal_color_id = none;
}

abbrev first_steps : List ScheduledTask
first_steps = step "b" 10 20 ∷ []

abbrev more_steps : List ScheduledTask
more_steps = step "a" 0 10 ∷ step "b" 30 40 ∷ []

abbrev is_empty : String → Bool
is_empty s = str_eq s ""

merge_steps_valid_example : validate_steps is_empty 0 (merge_steps first_steps more_steps) ≡ ok tt
merge_steps_valid_example =
    merge_steps_valid is_empty first_steps more_steps ((refl, omega arith), tt)
      ((refl, omega arith), ((refl, omega arith), tt))

abbrev segment : CompiledSegment
segment = record {
  container_id = "c";
  segment_index = 0;
  members = "a" ∷ "b" ∷ [];
  placement_seconds = 10 ∷ 20 ∷ [];
}

abbrev stamp : ℕ → Result String
stamp n = ok "t"

abbrev part : String → ℕ → ℕ → List String → ScheduledTask
part id a b deps = record (step id a b) { start_at = "t"; end_at = "t"; depends_on = deps }

abbrev parts : List ScheduledTask
parts = part "a" 0 10 [] ∷ part "b" 10 30 ("a" ∷ []) ∷ []

expand_segment-Fills_example :
    Fills 0 (10 ∷ 20 ∷ []) parts 30 × (map (λ s. s.task_id) parts ≡ "a" ∷ "b" ∷ [])
unfolding expand_segment expand_from checked_add get
expand_segment-Fills_example = expand_segment-Fills stamp [] (step "a" 0 30) segment parts refl refl

expand_segment_total_example :
    (children : List ScheduledTask) × (expand_segment stamp [] (step "a" 0 30) (some segment)
      ≡ expanded children)
unfolding total_seconds
expand_segment_total_example =
    expand_segment_total stamp [] (step "a" 0 30) segment refl refl (omega arith)
      (λ n h. ("t", refl))

abbrev occurrence : String → ℕ → ℕ → TaskSpec
occurrence id a b = record {
  id = id;
  duration = 10;
  mandatory = true;
  duration_estimate = none;
  depends_on = [];
  window = some (span a b);
  static_anchor = none;
}

abbrev lengths : DurationEstimate → ℕ
lengths (fixed n) = n
lengths (shifted_lognormal_p95 low mode high) = mode

abbrev occurrences : List TaskSpec
occurrences = occurrence "a" 0 40 ∷ occurrence "b" 0 45 ∷ []

abbrev events : List (ℤ × Bool)
events = (pos 9, false) ∷ (pos 5, true) ∷ (pos 7, true) ∷ []

pair-Follow_example : Follow (pos 0) (pair events)
pair-Follow_example = pair-Follow (pos 0) events (omega arith, (omega arith, (omega arith, tt)))

abbrev placed_steps : List ScheduledTask
placed_steps = step "task_aaaaa" 0 10 ∷ step "task_bbbbb" 10 20 ∷ step "other" 20 30 ∷ []

desired_events-Pairwise_example : Pairwise OtherId (desired_events [] [] [] placed_steps)
desired_events-Pairwise_example =
    desired_events-Pairwise [] [] placed_steps ((refl, (refl, tt)), ((refl, tt), (tt, tt)))

merge_steps_lem_example :
    Pairwise ComesFirst (merge_steps first_steps more_steps)
    × All (IsMerged first_steps more_steps) (merge_steps first_steps more_steps)
    × All (λ f. Any (IsSame f) (merge_steps first_steps more_steps)) first_steps
    × All (λ o. Any (SameTask o) (merge_steps first_steps more_steps)) more_steps
merge_steps_lem_example = merge_steps_lem first_steps more_steps

occurrence-Fits : (id : String) (a b : ℕ) → b < u64_size → Fits (occurrence id a b)
occurrence-Fits id a b h w e = subst (λ (x : TimeWindow). x.end < u64_size) (eq_of_some e) h

abbrev chosen : List String
chosen = "a" ∷ "b" ∷ []

unseatable_mandatory_lem_example :
    let ids = map (λ t. t.id) (pending_mandatory occurrences chosen) in
    let statics = static_ends occurrences in
    (log : List Decision) × (waiting : List TaskSpec) × Perm
      (map (λ d. d.task) log ++ waiting)
      (retain (λ t. member t.id chosen && is_none t.static_anchor) occurrences)
    × AllBecause lengths busy statics log
    × InOrder lengths busy statics ids log
    × (unseatable_mandatory lengths busy occurrences chosen ≡ failures log)
    × All (IsWaiting lengths busy statics ids log) waiting
unseatable_mandatory_lem_example =
    unseatable_mandatory_lem lengths busy occurrences chosen
      (occurrence-Fits "a" 0 40 (omega arith), (occurrence-Fits "b" 0 45 (omega arith), tt))

abbrev objectives : TreeMap String String
objectives = ("task_aaaaa", "walk") ∷ []

abbrev reminders : TreeMap String (List ℤ)
reminders = ("walk", pos 10 ∷ []) ∷ []

abbrev origins : TreeMap String String
origins = ("other", "ccccc") ∷ []

desired_events-Shows_example :
    let events = desired_events reminders objectives origins placed_steps in
    Pairwise Earlier events
    × All (λ e. Any (λ s. Shows reminders objectives origins s e) placed_steps) events
    × All
        (λ s.
          (id : String)
          → HasId reminders objectives origins s id
          → Any (λ e. (e.external_id ≡ id) × Shows reminders objectives origins s e) events)
        placed_steps
desired_events-Shows_example = desired_events-Shows reminders objectives origins placed_steps

abbrev run : ℕ → Observation
run n = record { started_at = pos 0; completed_at = pos n }

abbrev runs : List Observation
runs = run 60 ∷ run 70 ∷ run 65 ∷ run 90 ∷ run 6000 ∷ run 62 ∷ []

derive_lem_example : IsDerivation (worked runs) (derive runs)
derive_lem_example = derive_lem runs
