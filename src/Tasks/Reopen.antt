-- ===== src/Tasks/Reopen.antt =====
-- `reopen_calendar_completion` and `reopen_completion` of src/services/log_service.rs.
use ubu_orchestrator.Base.{
  String, str_eq, Bool, true, false, not, ◌||◌, Option, none, some, List, [], ◌∷◌, if◌then◌else◌,
}
use ubu_orchestrator.Errors.{Result, ok, err, conflict_diagnostic}
use ubu_orchestrator.Errors.Exec.{Exec, check, lift, ◌>>=◌, ◌>>◌, pure}
use ubu_orchestrator.Calendar.Capture.{DiagnosticBody, ◌<>◌}
use ubu_orchestrator.Calendar.Apply.{AuthoritySource}
use ubu_orchestrator.Tasks.Record.{
  Env, has_value, TaskForTransition, CompletionRecord, is_from_calendar_event, LifecycleStatus,
  Decision, load_task, persist_task_transition, append_task_decision, task_status_from_wire,
  has_effects,
}
use ubu_orchestrator.Tasks.Action.{is_captured}

pub record ReopenSignal : Type 0 where
  pub task_id : String
  pub external_id : String
  pub completion_log_id : String

pub record ReopenResponse : Type 0 where
  pub log_id : String
  pub task_id : String
  pub completion_log_id : String
  pub task_status : LifecycleStatus
  pub diagnostics : List DiagnosticBody

abbrev pub reopen_decision : Option String → String → Decision
reopen_decision source completion_log_id = record {
  action = "reopen";
  decision = "task_reopened";
  task_status = "active";
  transition_applied = true;
  note = none;
  source_id = source;
  observed_window = none;
  completion_log_id = some completion_log_id;
}

module _ (env : Env) where
  open env use {World, latest_completion}

  -- Both undos write the transition, then its decision.
  unfoldable pub reopen_task :
      TaskForTransition → Option String → String → Exec World (TaskForTransition × String)
  reopen_task task source completion_log_id = do
    task' ← persist_task_transition env task "active" AuthoritySource.user
    log_id ←
        append_task_decision env task' (reopen_decision source completion_log_id)
          (completion_log_id ∷ []) AuthoritySource.user
    pure (task', log_id)

  unfoldable pub reopen_if_latest :
      ReopenSignal → TaskForTransition → Option CompletionRecord → Exec World Bool
  unfolding reopen_task
  reopen_if_latest signal task none = pure false
  reopen_if_latest signal task (some completion) =
      if not (str_eq completion.log_id signal.completion_log_id)
        || not (is_from_calendar_event completion signal.external_id)
      then pure false
      else (reopen_task task (some signal.external_id) signal.completion_log_id >> pure true)

  unfoldable pub reopen_calendar_completion : ReopenSignal → Exec World Bool
  unfolding reopen_if_latest
  reopen_calendar_completion signal = load_task env signal.task_id >>= λ task.
      if not (str_eq task.status "completed")
        || (has_value task.payload.static_window || is_captured env task)
      then pure false
      else (check (latest_completion task.id) >>= reopen_if_latest signal task)

  unfoldable pub ensure_latest : String → String → Option CompletionRecord → Result (Unit {0})
  ensure_latest task_id completion_log_id none = err (
      conflict_diagnostic "reopen_no_completion" (
        "Task `" <> task_id
        <> "` is completed but no completion is recorded for it; nothing was undone"))
  ensure_latest task_id completion_log_id (some completion) =
      if not (str_eq completion.log_id completion_log_id)
      then err (
          conflict_diagnostic "reopen_stale_completion" (
            "`" <> completion_log_id <> "` is not the latest completion of Task `" <> task_id
            <> "`; nothing was undone"))
      else ok tt

  abbrev ensure_completed : String → TaskForTransition → Result (Unit {0})
  ensure_completed task_id task =
      if not (str_eq task.status "completed")
      then err (
          conflict_diagnostic "reopen_not_completed" (
            "Task `" <> task_id <> "` is " <> task.status
            <> ", not completed; there is no completion to undo"))
      else ok tt

  unfoldable pub reopen_completion : String → String → Exec World ReopenResponse
  unfolding reopen_task ensure_latest
  reopen_completion task_id completion_log_id = do
    task ← load_task env task_id
    lift (ensure_completed task_id task)
    completion ← check (latest_completion task.id)
    lift (ensure_latest task_id completion_log_id completion)
    done ← reopen_task task none completion_log_id
    task_status ← lift (task_status_from_wire done.0.status)
    pure (record {
      log_id = done.1;
      task_id = done.0.id;
      completion_log_id = completion_log_id;
      task_status = task_status;
      diagnostics =
          if has_effects done.0
          then record {
            code = "reopen_effects_not_reversed";
            message =
                "The Task is active again. The effects it applied when it completed were not reversed, and will not be applied a second time if it is completed again";
          }
            ∷ []
          else [];
    })
