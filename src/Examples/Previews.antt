-- ===== src/Examples/Previews.antt =====
-- A plan of one Dynamic Task, previewed against an empty calendar and approved.
use ubu_orchestrator.Base.{
  String, str_eq, true, false, not, ◌&&◌, ◌||◌, none, some, List, [], ◌∷◌, ◌≡◌, refl, any, inl,
}
use ubu_orchestrator.Base.Order.{str_ord, str_lt}
use ubu_orchestrator.Base.Sort.{sort_by, place}
use ubu_orchestrator.Base.TreeMap.{get, contains_key, collect, collect_into, insert}
use ubu_orchestrator.Errors.{ok}
use ubu_orchestrator.Errors.Exec.{◌>>=◌}
use ubu_orchestrator.Calendar.Event.{DesiredEvent, by_external_id, same_managed_fields}
use ubu_orchestrator.Calendar.Capture.{external_id, external_id_for, strip_prefix, all_chars}
use ubu_orchestrator.Calendar.Diff.{CalendarOperation, contains, pending, obsolete, diff, land_all}
use ubu_orchestrator.Calendar.Diff.Landing.{outcome}
use ubu_orchestrator.Calendar.Desired.{desired_events, exported, event_of, id_of, reminders_of}
use ubu_orchestrator.Calendar.Interaction.Owned.{
  observed_from, observed_owned, keep_completed, preserve_completed, replaced_windows,
  current_static_windows,
}
use ubu_orchestrator.Calendar.Apply.{
  Tables, StoredCalendarResult, ProjectionStatus, last_applied_events, preview_schema,
}
use ubu_orchestrator.Calendar.Apply.Approve.{State, approve}
use ubu_orchestrator.Calendar.Apply.Accepted.{Cooperates}
use ubu_orchestrator.Calendar.Preview.{
  Plan, PreviewResponse, compute_preview, asked_events, recolor, keep_sources, stored_preview,
  preview_response, preview_operations, completed_event_ids, static_of, static_tasks, unmappable,
  retained_diagnostic, matching_placements, is_matching, id_set,
}
use ubu_orchestrator.Calendar.Preview.Stored.{preview}
use ubu_orchestrator.Calendar.Preview.Approved.{preview_approved}
use ubu_orchestrator.Calendar.Preview.Completed.{completed_frozen}
use ubu_orchestrator.Calendar.Preview.Kept.{get-land_all-preview_operations}
use ubu_orchestrator.Planning.Steps.{ScheduledTask}
use ubu_orchestrator.Examples.Calendars.{event, applied, observed, texts, written}
use ubu_orchestrator.Examples.Approvals.{good}

abbrev pub step : ScheduledTask
step = record {
  index = 0;
  task_id = "task_aaaaa";
  summary = "Write";
  start = 0;
  end = 60;
  start_at = "2026-09-25T09:00:00Z";
  end_at = "2026-09-25T12:00:00Z";
  depends_on = [];
  static_anchor = false;
  placement_authority = "planner";
  occupies_capacity = true;
  category_tag = none;
  gcal_color_id = none;
}

abbrev pub plan : Plan
plan = record {
  calendar = ok (record { plan_id = none; stale = false; steps = step ∷ [] });
  palette = [];
  reminders_by_objective = [];
  objective_of_task = [];
  origins = ok [];
  completed_tasks = [];
  get_current_state = λ id. ok none;
  preview_id = "p";
  stores = ok tt;
}

abbrev pub empty : Tables
empty = record { previews = []; results = [] }

abbrev wanted : DesiredEvent
wanted = event "aaaaa" "2026-09-25T09:00:00Z"

abbrev answer : PreviewResponse
answer = record {
  stored = record {
    schema_version = preview_schema;
    preview_id = "p";
    plan_id = none;
    stale = false;
    desired_events = wanted ∷ [];
    no_external_export = some false;
    existing_events = [];
    operations = CalendarOperation.create wanted ∷ [];
  };
  matching_placements = 0;
  operations = (CalendarOperation.create wanted, some false) ∷ [];
  diagnostics = [];
}

abbrev previewed : Tables
previewed = record { previews = ("p", answer.stored) ∷ []; results = [] }

preview_run : preview plan texts written false empty ≡ (previewed, ok answer)
unfolding preview compute_preview asked_events recolor keep_sources desired_events exported event_of
    id_of external_id_for external_id strip_prefix all_chars reminders_of sort_by place get
    last_applied_events preserve_completed observed_owned observed_from keep_completed
    current_static_windows replaced_windows preview_response stored_preview preview_operations diff
    pending obsolete by_external_id collect collect_into insert contains completed_event_ids id_set
    static_of static_tasks unmappable retained_diagnostic matching_placements is_matching
    same_managed_fields str_lt ◌>>=◌
preview_run = refl

good-Cooperates : Cooperates good
good-Cooperates = record {
  is_available = λ w. refl;
  connected = λ w. refl;
  persisted = λ w. refl;
  inserted = λ e w. refl;
  patched = λ e w. refl;
  deleted = λ id w. refl;
  permitted = λ core w. refl;
  logged = λ id core w. refl;
}

preview_approved_example :
    (s' : State good) × (result : StoredCalendarResult) × (origins : List (String × String))
    × (approve good "p" (record { world = tt; tables = previewed }) ≡ (s', ok result))
    × (result.status ≡ ProjectionStatus.applied)
    × (ok [] ≡ ok origins)
    × (preview_operations origins
          (completed_event_ids [] (last_applied_events []))
          (wanted ∷ [])
          (last_applied_events s'.tables.results)
        ≡ [])
preview_approved_example =
    preview_approved plan texts written good tt empty previewed answer good-Cooperates preview_run

completed_frozen_example :
    get "aaaaa" (
      land_all
        (preview_operations [] (completed_event_ids ("task_aaaaa" ∷ []) applied) observed applied)
        (by_external_id applied))
    ≡ get "aaaaa" (by_external_id applied)
unfolding contains
completed_frozen_example =
    completed_frozen [] ("task_aaaaa" ∷ []) observed applied "aaaaa" (inl (refl, refl))

get-land_all-preview_operations_example :
    get "bbbbb" (
      land_all
        (preview_operations (("task_bbbbb", "bbbbb") ∷ []) [] observed applied)
        (by_external_id applied))
    ≡ outcome
        (contains [] "bbbbb"
          || (not (contains_key "bbbbb" (by_external_id observed))
              && any (λ origin. str_eq origin "bbbbb") ("bbbbb" ∷ [])))
        (get "bbbbb" (by_external_id observed))
        (get "bbbbb" (by_external_id applied))
get-land_all-preview_operations_example =
    get-land_all-preview_operations (("task_bbbbb", "bbbbb") ∷ []) [] observed applied "bbbbb"
