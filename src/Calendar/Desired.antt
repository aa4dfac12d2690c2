-- ===== src/Calendar/Desired.antt =====
-- `desired_events` of src/services/calendar_projection.rs: the events that a plan's steps ask for.
pub mod Sources
pub mod Fields
use ubu_orchestrator.Base.{
  String, Bool, true, false, not, ◌&&◌, ◌||◌, Option, none, some, List, [], ◌∷◌, str_eq,
}
use ubu_orchestrator.Base.Int.{ℤ}
use ubu_orchestrator.Base.Order.{str_ord, str_lt}
use ubu_orchestrator.Base.Sort.{sort_by}
use ubu_orchestrator.Base.TreeMap.{TreeMap, get}
use ubu_orchestrator.Calendar.Event.{DesiredEvent}
use ubu_orchestrator.Calendar.Capture.{external_id_for}
use ubu_orchestrator.Planning.Steps.{ScheduledTask}

-- By `start_at`, then by `external_id`.
abbrev pub event_le : DesiredEvent → DesiredEvent → Bool
event_le a b =
    str_lt a.start_at b.start_at
    || (str_eq a.start_at b.start_at && not (str_lt b.external_id a.external_id))

module _ (reminders_by_objective : TreeMap String (List ℤ))
    (objective_of_task captured_origins : TreeMap String String) where
  unfoldable pub reminders_of : String → List ℤ
  reminders_of task_id = elim (get task_id objective_of_task) [
    | none ↦ []
    | some objective ↦ elim (get objective reminders_by_objective) [
      | none ↦ []
      | some reminders ↦ reminders
    ]
  ]

  -- The event of a step, under the external id that its Task has.
  unfoldable pub event_of : ScheduledTask → String → DesiredEvent
  unfolding reminders_of
  event_of step id = record {
    external_id = id;
    task_id = step.task_id;
    summary = step.summary;
    description = none;
    start_at = step.start_at;
    end_at = step.end_at;
    color_id = step.gcal_color_id;
    transparent = not step.occupies_capacity;
    reminders_minutes = reminders_of step.task_id;
  }

  unfoldable pub id_of : ScheduledTask → Option String
  id_of step = external_id_for step.task_id (get step.task_id captured_origins)

  unfoldable pub exported : List ScheduledTask → List DesiredEvent
  unfolding event_of id_of
  exported [] = []
  exported (step ∷ steps) =
      let rest = exported steps in
      elim (id_of step) [ none ↦ rest | some id ↦ event_of step id ∷ rest ]

  unfoldable pub desired_events : List ScheduledTask → List DesiredEvent
  unfolding exported
  desired_events steps = sort_by event_le (exported steps)
