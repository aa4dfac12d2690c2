-- ===== src/Calendar/Preview.antt =====
-- `preview` of src/services/calendar_apply.rs: what the current plan asks of the calendar, compared with
-- the applied events and stored for an approval. The plan, the palette, the reminders, the sources
-- and the Tasks come from the store, and are given by a `Plan`.
pub mod Stored
pub mod Kept
pub mod Completed
pub mod Approved
use ubu_orchestrator.Base.{
  ℕ, ◌-◌, zero, suc, String, str_eq, Bool, true, false, not, ◌&&◌, ◌||◌, Option, none, some, List,
  [], ◌∷◌, ◌++◌, length, map, any, find, retain, take, is_some, is_none, if◌then◌else◌,
}
use ubu_orchestrator.Base.Int.{ℤ}
use ubu_orchestrator.Base.Order.{str_ord}
use ubu_orchestrator.Base.TreeMap.{TreeMap, get, contains_key, keys, values, collect}
use ubu_orchestrator.Errors.{Result, ok, err, ◌>>=◌}
use ubu_orchestrator.Calendar.Event.{DesiredEvent}
use ubu_orchestrator.Calendar.Capture.{
  DiagnosticBody, ◌<>◌, external_id_for, show, join_ids, and_more,
}
use ubu_orchestrator.Calendar.Diff.{
  CalendarOperation, create, update, delete, StringSet, contains, diff, operation_id,
}
use ubu_orchestrator.Calendar.Desired.{desired_events}
use ubu_orchestrator.Calendar.Interaction.{Timestamps}
use ubu_orchestrator.Calendar.Interaction.Owned.{
  OwnedTask, preserve_completed, current_static_windows,
}
use ubu_orchestrator.Calendar.Apply.{
  Tables, StoredCalendarPreview, last_applied_events, preview_schema,
}
use ubu_orchestrator.Planning.Steps.{ScheduledTask}

-- `BTreeSet<String>`, where its order and size are read.
unfoldable pub id_set : List String → StringSet
id_set ids = keys (collect (λ id. id) ids)

pub record CurrentCalendar : Type 0 where
  pub plan_id : Option String
  pub stale : Bool
  pub steps : List ScheduledTask

-- What one preview reads of the store, and the id that it takes.
pub record Plan : Type 0 where
  pub calendar : Result CurrentCalendar
  pub palette : TreeMap String String
  pub reminders_by_objective : TreeMap String (List ℤ)
  pub objective_of_task : TreeMap String String
  pub origins : Result (TreeMap String String)
  pub completed_tasks : List String
  pub get_current_state : String → Result (Option OwnedTask)
  pub preview_id : String
  pub stores : Result (Unit {0})

unfoldable pub color : TreeMap String String → Option String → Option String
color palette none = none
color palette (some category) = get category palette

-- Colour is current configuration: a Static step has its category's, a Dynamic one has none.
unfoldable pub recolor : TreeMap String String → List ScheduledTask → List ScheduledTask
unfolding color
recolor palette [] = []
recolor palette (step ∷ steps) =
    record step {
      gcal_color_id = if step.static_anchor then color palette step.category_tag else none;
    }
    ∷ recolor palette steps

-- A captured event keeps the reminders that it was applied with, and its colour where it has none.
abbrev keep_source : DesiredEvent → Option DesiredEvent → DesiredEvent
keep_source event none = event
keep_source event (some old) = record event {
  reminders_minutes = old.reminders_minutes;
  color_id = if is_none event.color_id then old.color_id else event.color_id;
}

unfoldable pub keep_sources :
    TreeMap String String → List DesiredEvent → List DesiredEvent → List DesiredEvent
keep_sources origins existing [] = []
keep_sources origins existing (event ∷ desired) =
    (if contains_key event.task_id origins
      then keep_source event (find (λ old. str_eq old.external_id event.external_id) existing)
      else event)
    ∷ keep_sources origins existing desired

-- The external ids of applied events whose Task is completed now.
unfoldable pub completed_event_ids : List String → List DesiredEvent → StringSet
unfolding id_set
completed_event_ids completed applied =
    id_set (
      map (λ event. event.external_id) (retain (λ event. contains completed event.task_id) applied))

abbrev pub max_retained_named : ℕ
max_retained_named = 3

unfoldable pub retained_diagnostic : StringSet → List DiagnosticBody
unfolding join_ids and_more
retained_diagnostic [] = []
retained_diagnostic (id ∷ []) =
    record {
      code = "calendar_event_retained";
      message =
          "Calendar event `" <> id
          <> "` is left as it is: it is the record of a completed Task, and is neither updated nor deleted";
    }
    ∷ []
retained_diagnostic (id ∷ (next ∷ ids)) =
    let all_ids = id ∷ (next ∷ ids) in
    let named = take max_retained_named all_ids in
    record {
      code = "calendar_event_retained";
      message =
          show (length all_ids)
          <> " Calendar events are left as they are: each is the record of a completed Task, and is neither updated nor deleted: "
          <> join_ids named
          <> and_more (length all_ids - length named);
    }
    ∷ []

-- A captured Task that leaves the plan never deletes the source meeting.
abbrev pub spares_sources : TreeMap String String → CalendarOperation → Bool
spares_sources origins (delete id summary) = not (any (λ origin. str_eq origin id) (values origins))
spares_sources origins (create event) = true
spares_sources origins (update event) = true

unfoldable pub unmappable : TreeMap String String → List ScheduledTask → List DiagnosticBody
unmappable origins [] = []
unmappable origins (step ∷ steps) =
    let rest = unmappable origins steps in
    if is_none (external_id_for step.task_id (get step.task_id origins))
    then record {
      code = "calendar_event_id_unmappable";
      message =
          "Task `" <> step.task_id <> "` cannot produce a valid Calendar event id; step skipped";
    }
      ∷ rest
    else rest

abbrev task_of : CalendarOperation → Option String
task_of (create event) = some event.task_id
task_of (update event) = some event.task_id
task_of (delete id summary) = none

-- The Static Tasks of the steps.
unfoldable pub static_of : List ScheduledTask → StringSet
static_of [] = []
static_of (step ∷ steps) =
    let rest = static_of steps in if step.static_anchor then step.task_id ∷ rest else rest

abbrev if_static : String → Option OwnedTask → StringSet → StringSet
if_static id none tasks = tasks
if_static id (some task) tasks = if task.has_static_window then id ∷ tasks else tasks

-- The placement of a Task that the plan no longer holds is read of its record.
unfoldable pub static_tasks :
    (String → Result (Option OwnedTask))
    → StringSet
    → List CalendarOperation
    → StringSet
    → Result StringSet
static_tasks get_current_state planned [] tasks = ok tasks
static_tasks get_current_state planned (operation ∷ operations) tasks =
    let skip = static_tasks get_current_state planned operations tasks in
    elim (task_of operation) [
      | none ↦ skip
      | some id ↦
          if contains planned id
          then skip
          else (get_current_state id >>= λ found.
              static_tasks get_current_state planned operations (if_static id found tasks))
    ]

-- The desired events of Dynamic steps that no operation changes and that are not retained.
unfoldable pub is_matching : StringSet → StringSet → StringSet → StringSet → DesiredEvent → Bool
is_matching planned static retained changed event =
    contains planned event.task_id
    && not (contains static event.task_id)
    && not (contains retained event.external_id)
    && not (contains changed event.external_id)

unfoldable pub matching_placements :
    StringSet → StringSet → StringSet → StringSet → List DesiredEvent → ℕ
unfolding is_matching id_set
matching_placements planned static retained changed desired = length (
    id_set (
      map (λ event. event.external_id)
        (retain (is_matching planned static retained changed) desired)))

pub record PreviewResponse : Type 0 where
  pub stored : StoredCalendarPreview
  pub matching_placements : ℕ
  -- Each operation with the placement that its body shows: whether its Task is Static.
  pub operations : List (CalendarOperation × Option Bool)
  pub diagnostics : List DiagnosticBody

abbrev placement : StringSet → CalendarOperation → CalendarOperation × Option Bool
placement static operation =
    (operation, elim (task_of operation) [ none ↦ none | some id ↦ some (contains static id) ])

-- The operations, from the desired events and those applied.
unfoldable pub preview_operations :
    TreeMap String String
    → StringSet
    → List DesiredEvent
    → List DesiredEvent
    → List CalendarOperation
preview_operations origins retained desired existing =
    retain (spares_sources origins) (diff desired existing retained)

module _ (plan : Plan) where
  unfoldable pub stored_preview :
      Bool
      → CurrentCalendar
      → TreeMap String String
      → List DesiredEvent
      → List DesiredEvent
      → StoredCalendarPreview
  unfolding preview_operations completed_event_ids
  stored_preview no_external_export calendar origins desired existing = record {
    schema_version = preview_schema;
    preview_id = plan.preview_id;
    plan_id = calendar.plan_id;
    stale = calendar.stale;
    desired_events = desired;
    no_external_export = some no_external_export;
    existing_events = existing;
    operations =
        preview_operations origins (completed_event_ids plan.completed_tasks existing) desired
          existing;
  }

  -- What the plan asks for, before the completed Tasks and the Static windows are looked at.
  unfoldable pub asked_events :
      CurrentCalendar → TreeMap String String → List DesiredEvent → List DesiredEvent
  unfolding recolor keep_sources
  asked_events calendar origins existing = keep_sources origins existing (
      desired_events plan.reminders_by_objective plan.objective_of_task origins
        (recolor plan.palette calendar.steps))

  unfoldable pub preview_response :
      CurrentCalendar
      → TreeMap String String
      → List DesiredEvent
      → StoredCalendarPreview
      → Result PreviewResponse
  unfolding static_of static_tasks unmappable retained_diagnostic matching_placements
      completed_event_ids
  preview_response calendar origins existing stored =
      let planned = map (λ step. step.task_id) calendar.steps in
      let retained = completed_event_ids plan.completed_tasks existing in
      static_tasks plan.get_current_state planned stored.operations (static_of calendar.steps)
      >>= λ static. ok (record {
        stored = stored;
        matching_placements =
            matching_placements planned static retained (map operation_id stored.operations)
              stored.desired_events;
        operations = map (placement static) stored.operations;
        diagnostics = unmappable origins calendar.steps ++ retained_diagnostic retained;
      })

  module _ (ts : Timestamps) (timestamp_at : ℕ → Option String) where
    -- What is stored and answered, from the results so far.
    unfoldable pub compute_preview : Bool → Tables → Result PreviewResponse
    unfolding asked_events stored_preview preview_response
    compute_preview no_external_export tables = do
      calendar ← plan.calendar
      origins ← plan.origins
      let existing = last_applied_events tables.results
      kept ←
          preserve_completed plan.get_current_state (asked_events calendar origins existing)
            existing
      desired ← current_static_windows plan.get_current_state ts timestamp_at kept
      preview_response calendar origins existing
          (stored_preview no_external_export calendar origins desired existing)
