-- ===== src/Calendar/Admission/Captured.antt =====
-- `capture` of src/services/calendar_capture.rs: the admission of each captured Task, and the record of
-- the events that UbU then owns.
use ubu_orchestrator.Base.{
  ℕ, String, str_eq, Bool, true, false, not, Option, none, some, List, [], ◌∷◌, ◌++◌, retain,
  is_some, is_none, is_some_and, length, ◌+◌, ltb, if◌then◌else◌,
}
use ubu_orchestrator.Base.Order.{str_ord}
use ubu_orchestrator.Base.TreeMap.{TreeMap, get}
use ubu_orchestrator.Errors.{internal, Result, ok, err}
use ubu_orchestrator.Errors.Exec.{Exec, pure, lift, total, reads, ◌>>=◌, ◌>>◌}
use ubu_orchestrator.Calendar.Event.{DesiredEvent}
use ubu_orchestrator.Calendar.Diff.{StringSet, contains}
use ubu_orchestrator.Calendar.Capture.{DiagnosticBody, not_ownable_diagnostic}
use ubu_orchestrator.Calendar.Interaction.{Timestamps, with_id}
use ubu_orchestrator.Calendar.Intake.{CapturedTask}
use ubu_orchestrator.Calendar.Apply.{Tables}
use ubu_orchestrator.Calendar.Preview.{id_set}
use ubu_orchestrator.Calendar.Gestures.{Host, Applying}
use ubu_orchestrator.Calendar.Admission.{
  TaskPayload, SourceRow, CalendarCaptureResponse, merge_payload,
}
use ubu_orchestrator.Tasks.Record.{Env as TasksEnv}

-- The variables of the loop over the captured Tasks.
pub record Admitting : Type 0 where
  pub applied : List DesiredEvent
  pub response : CalendarCaptureResponse
  pub recorded : Bool

-- The event of an admitted Task enters the applied record, or replaces its own there, if UbU can own
-- it. The source unwraps the event that it finds: a Task is captured from a foreign event, so there is
-- one.
abbrev pub owned_origin : CapturedTask → String → Option DesiredEvent → Admitting → Admitting
owned_origin task id none a = a
owned_origin task id (some event) a = record a {
  applied =
      retain (λ old. not (str_eq old.external_id event.external_id)) a.applied
      ++ (record event { task_id = id; start_at = task.start_at; end_at = task.end_at } ∷ []);
  recorded = true;
}

unfoldable pub record_origin : List DesiredEvent → CapturedTask → String → Admitting → Admitting
record_origin foreign task id a =
    if is_some (not_ownable_diagnostic task.origin_event_id)
    then a
    else owned_origin task id (with_id task.origin_event_id foreign) a

-- Captured, updated or unchanged: the Task was new, or its payload changed, or neither. An update by
-- a gesture on the same event was counted already.
unfoldable pub count_task : Bool → Bool → Bool → Admitting → Admitting
count_task is_new payload_changed by_gesture a = record a {
  response =
      if is_new
      then record a.response { captured = a.response.captured + 1 }
      else if payload_changed
      then (if by_gesture
          then a.response
          else record a.response { updated = a.response.updated + 1 })
      else record a.response { unchanged = a.response.unchanged + 1 };
}

unfoldable pub skip_task : Admitting → Admitting
skip_task a = record a { response = record a.response { skipped = a.response.skipped + 1 } }

-- The response before the candidates are admitted.
unfoldable pub first_response : Applying → ℕ → CalendarCaptureResponse
unfolding id_set
first_response gestures skipped = record {
  captured = 0;
  updated = length (id_set gestures.result.changed_external_ids);
  moved = gestures.result.moved;
  resized = gestures.result.resized;
  unchanged = 0;
  skipped = skipped;
  diagnostics = [];
}

module _ (Json : Type 0) (ts : Timestamps) (timestamp_at : ℕ → Option String) (tasks : TasksEnv)
    (host : Host ts tasks) where
  open ts use {Instant, parse, before, unix_timestamp}
  open tasks use {World}

  -- What the store and the client give to a capture. `admit` is `admit_object` with its envelope:
  -- under the id, at the version, on what was observed.
  pub record CaptureHost : Type 0 where
    pub available : World → Result (Unit {0})
    pub connects : World → Result (Unit {0})
    pub list_events :
        List DesiredEvent → Instant × Instant → World → World × Result (List DesiredEvent)
    pub take_diagnostics : World → World × List DiagnosticBody
    pub describe : DesiredEvent → DesiredEvent × List DiagnosticBody
    pub is_too_large : DiagnosticBody → Bool
    pub take_ubu_created_ids : World → World × StringSet
    pub active_tasks : World → List String
    pub by_source : World → Result (TreeMap String (SourceRow Json))
    pub palette_inverse : World → TreeMap String (Option String)
    pub is_blank : String → Bool
    pub capture_description : String → Option String → Option String × Option DiagnosticBody
    pub parse_id : String → Result String
    pub new_id : World → World × String
    pub new_payload : String → String → World → TaskPayload Json
    pub same_payload : TaskPayload Json → TaskPayload Json → Bool
    pub validate : TaskPayload Json → Result (Unit {0})
    pub admit :
        String → ℕ → Option (SourceRow Json) → TaskPayload Json → World → World × Result (Unit {0})
    pub persists : World → Result (Unit {0})
    pub preview_id : World → String

  pub record CaptureState : Type 0 where
    pub world : World
    pub tables : Tables

  module _ (capture_host : CaptureHost) where
    open capture_host use {
      new_id, parse_id, new_payload, same_payload, validate, admit, is_blank, by_source,
    }

    abbrev task_id_of : Option String → Exec World String
    task_id_of none = total new_id
    task_id_of (some id) = lift (parse_id id)

    abbrev payload_of : String → CapturedTask → Option (SourceRow Json) → World → TaskPayload Json
    payload_of id task none w = new_payload id task.origin_event_id w
    payload_of id task (some row) w = row.payload

    -- `i64::checked_add(1)`
    abbrev next_version : Option (SourceRow Json) → Result ℕ
    next_version none = ok 1
    next_version (some row) =
        if ltb row.version 9223372036854775807
        then ok (row.version + 1)
        else err (internal "Calendar Task version exhausted")

    abbrev payload_differs : Option (SourceRow Json) → TaskPayload Json → Bool
    payload_differs none payload = true
    payload_differs (some row) payload = not (same_payload row.payload payload)

    unfoldable pub admit_changed :
        Bool → String → Option (SourceRow Json) → TaskPayload Json → Exec World (Unit {0})
    admit_changed false id previous payload = pure tt
    admit_changed true id previous payload =
        lift (next_version previous) >>= λ version. admit id version previous payload

    -- One captured Task that is new or still active.
    unfoldable pub admit_task :
        StringSet
        → List DesiredEvent
        → CapturedTask
        → Option (SourceRow Json)
        → Admitting
        → Exec World Admitting
    unfolding merge_payload admit_changed count_task record_origin
    admit_task changed_ids foreign task previous a = do
      id ← task_id_of task.task_id
      old ← reads (payload_of id task previous)
      let payload = merge_payload Json is_blank task old
      lift (validate payload)
      let differs = payload_differs previous payload
      admit_changed differs id previous payload
      pure (
          record_origin foreign task id
            (count_task (is_none previous) differs (contains changed_ids task.origin_event_id) a))

    abbrev pub is_closed : Option (SourceRow Json) → Bool
    is_closed previous = is_some_and previous (λ row. not (str_eq row.status "active"))

    unfoldable pub admit_all :
        TreeMap String (SourceRow Json)
        → StringSet
        → List DesiredEvent
        → List CapturedTask
        → Admitting
        → Exec World Admitting
    unfolding admit_task skip_task
    admit_all existing changed_ids foreign [] a = pure a
    admit_all existing changed_ids foreign (task ∷ captured) a =
        (if is_closed (get task.origin_event_id existing)
          then pure (skip_task a)
          else admit_task changed_ids foreign task (get task.origin_event_id existing) a)
        >>= admit_all existing changed_ids foreign captured
