-- ===== src/Tasks/Record.antt =====
-- src/services/log_service.rs: a Task as the actions read it, the words of the action Log, and the
-- store that they write to. The store is the crate `ubu_store` and the universe state that of
-- `ubu_core`, so both are given, as an `Env`.
use ubu_orchestrator.Base.{
  ℕ, String, str_eq, Bool, true, false, not, ◌&&◌, ◌||◌, Option, none, some, List, ◌∷◌, ltb, ◌⊎◌,
  if◌then◌else◌,
}
use ubu_orchestrator.Errors.{not_found, internal, Result, ok, err, bad_request_diagnostic}
use ubu_orchestrator.Errors.Exec.{Exec, check, lift, ◌>>=◌, pure}
use ubu_orchestrator.Calendar.Capture.{◌<>◌}
use ubu_orchestrator.Calendar.Apply.{AuthoritySource}

-- A JSON field: missing, `null`, or a value.
pub data Field (A : Type 0) : Type 0 where
  missing null : Field A
  value : A → Field A

-- `payload.get(..).is_some_and(|v| !v.is_null())`, and `payload.get(..).is_some()`.
abbrev pub has_value : {A : Type 0} → Field A → Bool
has_value missing = false
has_value null = false
has_value (value a) = true

abbrev pub is_present : {A : Type 0} → Field A → Bool
is_present missing = false
is_present null = true
is_present (value a) = true

pub record Window : Type 0 where
  pub start : Option String
  pub end : Option String

-- The fields of a Task's payload that the actions read. `mutations` is
-- `effects.mutations` where it is an array, by its length.
pub record Payload : Type 0 where
  pub status : String
  pub moot_reason_code : Option String
  pub occurrence : Field (Unit {0})
  pub static_window : Field Window
  pub source_kind : Option String
  pub has_effects_field : Bool
  pub mutations : Option ℕ

pub record StoredObject : Type 0 where
  pub id : String
  pub object_type : String
  pub status : String
  pub payload : Payload
  pub version : ℕ

pub record TaskForTransition : Type 0 where
  pub id : String
  pub status : String
  pub payload : Payload
  pub version : ℕ

pub record CompletionRecord : Type 0 where
  pub log_id : String
  pub recorded_at : String
  pub source_kind : Option String
  pub source_id : Option String
  pub has_observed_window : Bool
  pub observed_seconds : Option ℕ

abbrev is_text : Option String → String → Bool
is_text none t = false
is_text (some s) t = str_eq s t

unfoldable pub is_from_calendar_event : CompletionRecord → String → Bool
is_from_calendar_event completion external_id =
    is_text completion.source_kind "google_calendar"
    && (is_text completion.source_id external_id && completion.has_observed_window)

pub data ActionKind : Type 0 where
  start complete skip override snooze : ActionKind

pub data LifecycleStatus : Type 0 where
  active completed failed moot : LifecycleStatus

-- What one Log entry says: its decision, the status it records, and what it refers to.
pub record Decision : Type 0 where
  pub action : String
  pub decision : String
  pub task_status : String
  pub transition_applied : Bool
  pub note : Option String
  pub source_id : Option String
  pub observed_window : Option (String × String)
  pub completion_log_id : Option String

pub record Env : Type 1 where
  pub World : Type 0
  pub get_current_state : String → World → Result (Option StoredObject)
  pub latest_completion : String → World → Result (Option CompletionRecord)
  -- `admit_object` at the version observed, under an authority: the status and version admitted.
  pub admit_object : TaskForTransition → AuthoritySource → World → World × Result (String × ℕ)
  -- `append_log_entry`, on a Task at the version observed; it returns the entry's id.
  pub append_log_entry :
      TaskForTransition → Decision → List String → AuthoritySource → World → World × Result String
  -- The mutations of `ubu_core::core::TaskEffect`, and the universe state that they change.
  pub Mutation : Type 0
  pub Universe : Type 0
  -- The decoding of the `effects` field.
  pub task_mutations : TaskForTransition → Result (List Mutation)
  pub validate_mutations_for_mode : List Mutation → Option String
  pub read_current_universe_state : World → Result (Option (Universe × ℕ))
  pub admit_seed : TaskForTransition → AuthoritySource → World → World × Result (Unit {0})
  pub apply_universe_mutations : Universe → List Mutation → String ⊎ Universe
  pub persist_universe_state :
      TaskForTransition → ℕ → Universe → AuthoritySource → World → World × Result (Unit {0})
  -- `CalendarTimeRange::parse`, to an instant for each end.
  pub parse_range : String → String → Option (ℕ × ℕ)

unfoldable pub authority_for_recorded_action : ActionKind → AuthoritySource
authority_for_recorded_action start = AuthoritySource.user
authority_for_recorded_action complete = AuthoritySource.user
authority_for_recorded_action skip = AuthoritySource.user
authority_for_recorded_action snooze = AuthoritySource.user
authority_for_recorded_action override = AuthoritySource.user_override

unfoldable pub recorded_action_wire : ActionKind → String
recorded_action_wire start = "start"
recorded_action_wire complete = "complete"
recorded_action_wire skip = "skip"
recorded_action_wire override = "override"
recorded_action_wire snooze = "snooze"

unfoldable pub recorded_decision_wire : ActionKind → String
recorded_decision_wire start = "task_started"
recorded_decision_wire complete = "task_completed"
recorded_decision_wire skip = "occurrence_skipped"
recorded_decision_wire override = "recommendation_rejected"
recorded_decision_wire snooze = "defer"

unfoldable pub task_status_from_wire : String → Result LifecycleStatus
task_status_from_wire status =
    if str_eq status "active"
    then ok active
    else if str_eq status "completed"
    then ok completed
    else if str_eq status "failed"
    then ok failed
    else if str_eq status "moot"
    then ok moot
    else err (internal ("stored Task has unsupported lifecycle status `" <> status <> "`"))

abbrev pub action_schema_version : String
action_schema_version = "ubu.orchestrator.task_action.v1"

unfoldable pub validate_schema_version : Option String → Result (Unit {0})
validate_schema_version none =
    err (bad_request_diagnostic "missing_schema_version" "schema_version is required")
validate_schema_version (some v) =
    if str_eq v action_schema_version
    then ok tt
    else err (
        bad_request_diagnostic "unknown_schema_version"
          ("unsupported schema_version `" <> v <> "`"))

unfoldable pub has_effects : TaskForTransition → Bool
has_effects task = elim task.payload.mutations [ none ↦ false | some n ↦ ltb 0 n ]

module _ (env : Env) where
  open env use {World, get_current_state, admit_object, append_log_entry}

  unfoldable pub as_task : String → Option StoredObject → Result TaskForTransition
  as_task task_id none = err (not_found ("task `" <> task_id <> "` not found"))
  as_task task_id (some record_) =
      if not (str_eq record_.object_type "Task")
      then err (bad_request_diagnostic "not_a_task" ("object `" <> task_id <> "` is not a Task"))
      else ok (record {
        id = record_.id;
        status = record_.status;
        payload = record_.payload;
        version = record_.version;
      })

  unfoldable pub load_task : String → Exec World TaskForTransition
  unfolding as_task
  load_task task_id = do found ← check (get_current_state task_id); lift (as_task task_id found)

  -- The Task as it is written: its status in its row and in its payload. The answer is the Task at
  -- the status and version admitted.
  unfoldable pub persist_task_transition :
      TaskForTransition → String → AuthoritySource → Exec World TaskForTransition
  persist_task_transition task status authority_source = do
    let payload = record task.payload { status = status }
    admitted ← admit_object (record task { status = status; payload = payload }) authority_source
    pure (record task { status = admitted.0; version = admitted.1; payload = payload })

  unfoldable pub apply_completed_transition :
      TaskForTransition → AuthoritySource → Exec World TaskForTransition
  unfolding persist_task_transition
  apply_completed_transition task authority_source =
      if not (str_eq task.status "active")
        && not (str_eq task.status "failed" && has_value task.payload.occurrence)
      then lift (
          err (
            bad_request_diagnostic "invalid_task_state"
              "complete requires an active Task or a missed routine occurrence"))
      else persist_task_transition task "completed" authority_source

  unfoldable pub apply_skipped_transition : TaskForTransition → Exec World TaskForTransition
  apply_skipped_transition task =
      if not (has_value task.payload.occurrence)
      then lift (
          err (
            bad_request_diagnostic "not_a_routine_occurrence"
              "skip only applies to a routine occurrence"))
      else if not (str_eq task.status "active" || str_eq task.status "failed")
      then lift (
          err (
            bad_request_diagnostic "invalid_task_state"
              "skip requires an active or missed routine occurrence"))
      else do
        let payload = record task.payload {
          status = "moot";
          moot_reason_code = some "user_declared_moot";
        }
        admitted ←
            admit_object (record task { status = "moot"; payload = payload }) AuthoritySource.user
        pure (record task { status = admitted.0; version = admitted.1; payload = payload })

  -- The entry refers to the Task first, then to what the caller adds.
  unfoldable pub append_task_decision :
      TaskForTransition → Decision → List String → AuthoritySource → Exec World String
  append_task_decision task decision extra_refs authority_source =
      append_log_entry task decision (task.id ∷ extra_refs) authority_source
