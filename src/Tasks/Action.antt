-- ===== src/Tasks/Action.antt =====
-- `record_task_action_with_calendar` of src/services/log_service.rs. Its lock lets no other action
-- run meanwhile, so one call is one function of the world.
use ubu_orchestrator.Base.{
  ℕ, String, str_eq, Bool, true, false, not, ◌&&◌, ◌||◌, Option, none, some, List, [], ◌∷◌, ◌++◌,
  ◌==◌, if◌then◌else◌,
}
use ubu_orchestrator.Errors.{Result, ok, err, bad_request_diagnostic, conflict_diagnostic}
use ubu_orchestrator.Errors.Exec.{Exec, check, lift, ◌>>=◌, ◌>>◌, pure}
use ubu_orchestrator.Calendar.Capture.{DiagnosticBody, ◌<>◌}
use ubu_orchestrator.Calendar.Apply.{AuthoritySource}
use ubu_orchestrator.Tasks.Record.{
  Env, Field, missing, null, value, has_value, is_present, Window, TaskForTransition,
  CompletionRecord, ActionKind, start, complete, skip, override, snooze, LifecycleStatus, Decision,
  action_schema_version, validate_schema_version, load_task, authority_for_recorded_action,
  apply_completed_transition, apply_skipped_transition, append_task_decision, recorded_action_wire,
  recorded_decision_wire, task_status_from_wire, has_effects,
}
use ubu_orchestrator.Tasks.Effects.{apply_completed_effects}

pub record CompletionSignal : Type 0 where
  pub task_id : String
  pub external_id : String
  pub observed_start : String
  pub observed_end : String
  pub allow_occurrence_pin : Bool

pub record ActionRequest : Type 0 where
  pub schema_version : Option String
  pub action : ActionKind
  pub note : Option String

pub record ActionResponse : Type 0 where
  pub log_id : String
  pub task_id : String
  pub action : ActionKind
  pub task_status : LifecycleStatus
  pub authority_source : AuthoritySource
  pub transition_applied : Bool
  pub note : Option String
  pub diagnostics : List DiagnosticBody

module _ (env : Env) where
  open env use {World, latest_completion, parse_range}

  abbrev parse_window : Field Window → Option (ℕ × ℕ)
  parse_window missing = none
  parse_window null = none
  parse_window (value w) = elim w.start [
    | none ↦ none
    | some s ↦ elim w.end [ none ↦ none | some e ↦ parse_range s e ]
  ]

  abbrev same_range : Option (ℕ × ℕ) → ℕ × ℕ → Bool
  same_range none observed = false
  same_range (some w) observed = (w.0 == observed.0) && (w.1 == observed.1)

  -- The occurrence was pinned where it was observed, by this same capture.
  unfoldable pub pinned_in_this_capture : CompletionSignal → TaskForTransition → ℕ × ℕ → Bool
  pinned_in_this_capture signal task observed =
      signal.allow_occurrence_pin
      && (is_present task.payload.occurrence
          && same_range (parse_window task.payload.static_window) observed)

  abbrev pub is_captured : TaskForTransition → Bool
  is_captured task = elim task.payload.source_kind [
    | none ↦ false
    | some k ↦ str_eq k "google_calendar"
  ]

  abbrev or_invalid : Option (ℕ × ℕ) → Result (ℕ × ℕ)
  or_invalid none = err (
      bad_request_diagnostic "capture_interaction_invalid_window"
        "Calendar completion requires a valid observed window")
  or_invalid (some w) = ok w

  abbrev refuse_static : CompletionSignal → TaskForTransition → ℕ × ℕ → Result (Unit {0})
  refuse_static signal task observed =
      if (has_value task.payload.static_window && not (pinned_in_this_capture signal task observed))
        || is_captured task
      then err (
          conflict_diagnostic "capture_interaction_not_dynamic"
            "Task became Static or captured before Calendar completion; gesture ignored")
      else ok tt

  unfoldable pub check_calendar :
      Option CompletionSignal → TaskForTransition → Exec World (Unit {0})
  unfolding pinned_in_this_capture
  check_calendar none task = pure tt
  check_calendar (some signal) task =
      lift (or_invalid (parse_range signal.observed_start signal.observed_end)) >>= λ observed.
      lift (refuse_static signal task observed)

  -- The effects of a completion, unless the Task has completed before.
  unfoldable pub effects_once :
      TaskForTransition
      → AuthoritySource
      → Option CompletionRecord
      → Exec World (List DiagnosticBody)
  effects_once task authority_source (some before) = pure (
      if has_effects task
      then record {
        code = "task_effects_already_applied";
        message =
            "Task `" <> task.id
            <> "` completed before, so its recorded effects were not applied a second time";
      }
        ∷ []
      else [])
  effects_once task authority_source none = apply_completed_effects env task authority_source

  abbrev completing :
      TaskForTransition
      → AuthoritySource
      → Exec World (TaskForTransition × Bool × List DiagnosticBody)
  completing task authority_source =
      apply_completed_transition env task authority_source >>= λ task'.
      check (latest_completion task'.id) >>= λ before.
      effects_once task' authority_source before >>= λ diagnostics. pure (task', true, diagnostics)

  -- The Task after its transition, whether there was one, and the diagnostics.
  unfoldable pub transition :
      ActionKind
      → TaskForTransition
      → AuthoritySource
      → Exec World (TaskForTransition × Bool × List DiagnosticBody)
  unfolding effects_once
  transition complete task authority_source = completing task authority_source
  transition skip task authority_source =
      apply_skipped_transition env task >>= λ task'. pure (task', true, [])
  transition start task authority_source = pure (task, false, [])
  transition override task authority_source = pure (task, false, [])
  transition snooze task authority_source = pure (task, false, [])

  abbrev source_of : Option CompletionSignal → Option String
  source_of none = none
  source_of (some signal) = some signal.external_id

  abbrev observed_of : Option CompletionSignal → Option (String × String)
  observed_of none = none
  observed_of (some signal) = some (signal.observed_start, signal.observed_end)

  unfoldable pub action_decision :
      ActionRequest → Option CompletionSignal → TaskForTransition → Bool → Decision
  action_decision request calendar task applied = record {
    action = recorded_action_wire request.action;
    decision = recorded_decision_wire request.action;
    task_status = task.status;
    transition_applied = applied;
    note = request.note;
    source_id = source_of calendar;
    observed_window = observed_of calendar;
    completion_log_id = none;
  }

  abbrev deferred : ActionKind → List DiagnosticBody
  deferred snooze =
      record {
        code = "snooze_readiness_deferred";
        message = "snooze was recorded without changing readiness evaluation";
      }
      ∷ []
  deferred _ = []

  unfoldable pub record_task_action_with_calendar :
      String → ActionRequest → Option CompletionSignal → Exec World ActionResponse
  unfolding check_calendar transition action_decision
  record_task_action_with_calendar task_id request calendar = do
    lift (validate_schema_version request.schema_version)
    task ← load_task env task_id
    check_calendar calendar task
    let authority_source = authority_for_recorded_action request.action
    done ← transition request.action task authority_source
    task_status ← lift (task_status_from_wire done.0.status)
    log_id ←
        append_task_decision env done.0 (action_decision request calendar done.0 done.1) []
          authority_source
    pure (record {
      log_id = log_id;
      task_id = task_id;
      action = request.action;
      task_status = task_status;
      authority_source = authority_source;
      transition_applied = done.1;
      note = request.note;
      diagnostics = done.2 ++ deferred request.action;
    })

  unfoldable pub record_task_action : String → ActionRequest → Exec World ActionResponse
  unfolding record_task_action_with_calendar
  record_task_action task_id request = record_task_action_with_calendar task_id request none

  unfoldable pub record_calendar_completion : CompletionSignal → Exec World ActionResponse
  unfolding record_task_action_with_calendar
  record_calendar_completion signal =
      record_task_action_with_calendar signal.task_id
        (record { schema_version = some action_schema_version; action = complete; note = none })
        (some signal)
