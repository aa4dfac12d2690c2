-- ===== src/Calendar/Gestures/Applied.antt =====
-- `apply` of src/services/calendar_interaction.rs: the four loops over the signals of an observation.
use ubu_orchestrator.Base.{◌+◌, Bool, true, false, String, List, [], ◌++◌}
use ubu_orchestrator.Errors.Exec.{Exec, pure, check, reads, ◌>>=◌}
use ubu_orchestrator.Calendar.Event.{DesiredEvent}
use ubu_orchestrator.Calendar.Capture.{DiagnosticBody}
use ubu_orchestrator.Calendar.Interaction.{
  Timestamps, MoveSignal, ResizeSignal, detect, detect_window_gestures,
}
use ubu_orchestrator.Calendar.Interaction.Owned.{observed_owned}
use ubu_orchestrator.Tasks.Record.{Env as TasksEnv}
use ubu_orchestrator.Tasks.Action.{CompletionSignal, record_calendar_completion}
use ubu_orchestrator.Tasks.Reopen.{ReopenSignal, reopen_calendar_completion}
use ubu_orchestrator.Calendar.Gestures.{
  Host, Applying, absorb, absorb_one, accept, told, attempt, each, apply_move, apply_resize,
}

module _ (ts : Timestamps) (tasks : TasksEnv) (host : Host ts tasks)
    (observed : List DesiredEvent) where
  open tasks use {World}

  abbrev pub one_moved : Applying → Applying
  one_moved a = record a { result = record a.result { moved = a.result.moved + 1 } }

  abbrev pub one_resized : Applying → Applying
  one_resized a = record a { result = record a.result { resized = a.result.resized + 1 } }

  unfoldable pub move_one : MoveSignal → Applying → Exec World Applying
  unfolding attempt apply_move
  move_one signal =
      attempt absorb (apply_move ts tasks host signal)
        λ ds a. accept observed signal.external_id (one_moved (told ds a))

  unfoldable pub resize_one : ResizeSignal → Applying → Exec World Applying
  unfolding attempt apply_resize
  resize_one signal =
      attempt absorb (apply_resize ts tasks host signal)
        λ u a. accept observed signal.external_id (one_resized a)

  unfoldable pub complete_one : CompletionSignal → Applying → Exec World Applying
  unfolding attempt
  complete_one signal =
      attempt absorb_one (record_calendar_completion tasks signal)
        λ response a. accept observed signal.external_id (told response.diagnostics a)

  abbrev pub reopened : String → Applying → Bool → Applying
  reopened id a true = accept observed id a
  reopened id a false = a

  -- The undo is not made where the Task or its completion has changed since; its errors are not
  -- absorbed.
  unfoldable pub reopen_one : ReopenSignal → Applying → Exec World Applying
  reopen_one signal a =
      reopen_calendar_completion tasks signal >>= λ done. pure (reopened signal.external_id a done)

  abbrev pub begin : List DesiredEvent → List DiagnosticBody → Applying
  begin applied diagnostics = record {
    applied = applied;
    result = record {
      changed_external_ids = [];
      moved = 0;
      resized = 0;
      diagnostics = diagnostics;
    };
  }

  unfoldable pub apply : List DesiredEvent → Exec World Applying
  unfolding each move_one resize_one complete_one reopen_one
  apply applied = do
    owned ← check (λ w. observed_owned (host.get_current_state w) observed applied)
    now ← reads host.planning_now
    let gestures = detect ts owned now
    let windows = detect_window_gestures ts owned
    let begun = begin applied (gestures.diagnostics ++ windows.diagnostics)
    moved ← each move_one windows.moves begun
    resized ← each resize_one windows.resizes moved
    completed ← each complete_one gestures.completions resized
    each reopen_one gestures.reopens completed
