-- ===== src/Planning/Segments.antt =====
-- src/services/planning_service.rs: a segment of a container is placed as one carrier step, which is
-- then expanded into a step for each member; `scatter_guard` looks for segments that came apart.
-- The spans of items that a container's split points make are those of `ubu_core`, and are given.
pub mod Contiguous
use ubu_orchestrator.Base.{
  ℕ, ◌+◌, ◌-◌, ◌/◌, max, String, str_eq, Bool, true, false, not, ◌&&◌, ◌||◌, Option, none, some,
  List, [], ◌∷◌, ◌++◌, map, find, any, ltb, leb, ◌==◌, if◌then◌else◌, is_some,
}
use ubu_orchestrator.Base.Order.{str_ord}
use ubu_orchestrator.Base.TreeMap.{TreeMap, get}
use ubu_orchestrator.Errors.{AppError, internal, Result, ok, err, ◌>>=◌, ◌>>◌}
use ubu_orchestrator.Calendar.Capture.{DiagnosticBody, ◌<>◌, show}
use ubu_orchestrator.Planning.Window.{checked_add}
use ubu_orchestrator.Planning.Steps.{ScheduledTask}

pub record TaskDisplay : Type 0 where
  pub title : String
  pub category_tag : Option String
  pub gcal_color_id : Option String
  pub occupies_capacity : Bool

-- A segment, by its members' ids and their placement lengths.
pub record CompiledSegment : Type 0 where
  pub container_id : String
  pub segment_index : ℕ
  pub members : List String
  pub placement_seconds : List ℕ

-- The expansion returns steps or an error, or fails its assertion.
pub data Expansion : Type 0 where
  expanded : List ScheduledTask → Expansion
  refused : AppError → Expansion
  asserts : Expansion

abbrev title_or : Option TaskDisplay → String → String
title_or none id = id
title_or (some d) id = d.title

abbrev tag_of : Option TaskDisplay → Option String
tag_of none = none
tag_of (some d) = d.category_tag

abbrev occupies_or_unknown : Option TaskDisplay → Bool
occupies_or_unknown none = true
occupies_or_unknown (some d) = d.occupies_capacity

abbrev pub after : Option ℕ → Result ℕ
after none = err (internal "segment expansion overflow")
after (some end) = ok end

abbrev pub ends_at : ScheduledTask → Result (List ScheduledTask × ℕ) → Expansion
ends_at step (err e) = refused e
ends_at step (ok (children, last)) = if last == step.end then expanded children else asserts

module _ (timestamp_at : ℕ → Result String) (titles : TreeMap String TaskDisplay) where
  abbrev pub child : ScheduledTask → List String → String → ℕ → ℕ → String → String → ScheduledTask
  child step depends_on id cursor end start_at end_at = record step {
    task_id = id;
    summary = title_or (get id titles) id;
    category_tag = tag_of (get id titles);
    occupies_capacity = occupies_or_unknown (get id titles);
    start = cursor;
    end = end;
    start_at = start_at;
    end_at = end_at;
    depends_on = depends_on;
  }

  -- The loop over the members and their lengths; `depends_on` is that of the next child. It returns
  -- the children and the last end.
  unfoldable pub expand_from :
      ScheduledTask → List String → List String → List ℕ → ℕ → Result (List ScheduledTask × ℕ)
  unfolding checked_add
  expand_from step depends_on (id ∷ ids) (seconds ∷ rest) cursor = do
    end ← after (checked_add cursor seconds)
    start_at ← timestamp_at cursor
    end_at ← timestamp_at end
    (children, last) ← expand_from step (id ∷ []) ids rest end
    ok (child step depends_on id cursor end start_at end_at ∷ children, last)
  expand_from step depends_on ids lengths cursor = ok ([], cursor)

  unfoldable pub expand_segment : ScheduledTask → Option CompiledSegment → Expansion
  unfolding expand_from
  expand_segment step none = expanded (step ∷ [])
  expand_segment step (some segment) =
      ends_at step
        (expand_from step step.depends_on segment.members segment.placement_seconds step.start)

-- The members of one segment that are placed, in their order.
unfoldable pub placed : List ScheduledTask → List String → List ScheduledTask
placed steps [] = []
placed steps (id ∷ ids) =
    let rest = placed steps ids in
    elim (find (λ s. str_eq s.task_id id) steps) [ none ↦ rest | some s ↦ s ∷ rest ]

-- `placed.windows(2).any(|pair| pair[0].end != pair[1].start)`
unfoldable pub is_scattered : List ScheduledTask → Bool
is_scattered (a ∷ b ∷ rest) = not (a.end == b.start) || is_scattered (b ∷ rest)
is_scattered _ = false

-- The largest gap between neighbours, in whole minutes.
unfoldable pub largest_gap : List ScheduledTask → ℕ
largest_gap (a ∷ b ∷ rest) = max ((b.start - a.end) / 60) (largest_gap (b ∷ rest))
largest_gap _ = 0

pub record Container : Type 0 where
  pub id : String
  pub is_active : Bool
  -- The item ids of each of its segments.
  pub segments : List (List String)

unfoldable pub guard_segments :
    List ScheduledTask → String → ℕ → List (List String) → List DiagnosticBody
unfolding placed is_scattered largest_gap
guard_segments steps id index [] = []
guard_segments steps id index (items ∷ segments) =
    let rest = guard_segments steps id (index + 1) segments in
    if is_scattered (placed steps items)
    then record {
      code = "container_segment_scattered";
      message =
          "Container `"
          <> id
          <> "` segment "
          <> show index
          <> " is not contiguous; largest gap is "
          <> show (largest_gap (placed steps items))
          <> " whole minutes";
    }
      ∷ rest
    else rest

unfoldable pub scatter_guard : List ScheduledTask → List Container → List DiagnosticBody
unfolding guard_segments
scatter_guard steps [] = []
scatter_guard steps (container ∷ containers) =
    let rest = scatter_guard steps containers in
    if container.is_active
    then guard_segments steps container.id 0 container.segments ++ rest
    else rest

pub record UnplacedTask : Type 0 where
  pub task_id : String
  pub summary : String
  pub reason : String
  pub explanation : String

unfoldable pub total_seconds : List ℕ → ℕ
total_seconds [] = 0
total_seconds (n ∷ ns) = n + total_seconds ns

abbrev unplaced_child :
    TreeMap String TaskDisplay → CompiledSegment → UnplacedTask → String → UnplacedTask
unplaced_child titles segment entry id = record entry {
  task_id = id;
  summary = title_or (get id titles) id;
  explanation =
      "Container `"
      <> segment.container_id
      <> "` segment "
      <> show segment.segment_index
      <> " needs "
      <> show (total_seconds segment.placement_seconds)
      <> " contiguous seconds: "
      <> entry.explanation
      <> ". Add a split point to allow separate placement.";
}

unfoldable pub expand_unplaced :
    TreeMap String CompiledSegment
    → TreeMap String TaskDisplay
    → List UnplacedTask
    → List UnplacedTask
unfolding total_seconds
expand_unplaced compiled titles [] = []
expand_unplaced compiled titles (entry ∷ entries) =
    let rest = expand_unplaced compiled titles entries in
    elim (get entry.task_id compiled) [
      | none ↦ entry ∷ rest
      | some segment ↦ map (unplaced_child titles segment entry) segment.members ++ rest
    ]
