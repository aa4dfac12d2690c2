-- ===== src/Calendar/Gestures.antt =====
-- `apply` of src/services/calendar_interaction.rs: the gestures that an observation shows are carried
-- out on the Tasks, and each one that is carried out has its observed event accepted. The
-- store, the edit of a Task, the override of a routine occurrence and the planning range are given.
pub mod Applied
pub mod Accepted
use ubu_orchestrator.Base.{
  ℕ, ◌+◌, String, str_eq, Bool, true, false, not, ◌&&◌, ◌||◌, Option, none, some, List, [], ◌∷◌,
  ◌++◌, map, ltb, ◌-◌, ◌%◌, if◌then◌else◌,
}
use ubu_orchestrator.Base.Int.{ℤ, pos, negsuc, ◌+ℤ◌, ltb_ℤ}
use ubu_orchestrator.Errors.{
  AppError, not_found, diagnostic, diagnostics, Result, ok, err, bad_request_diagnostic,
}
use ubu_orchestrator.Errors.Exec.{Exec, pure, check, lift, ◌>>=◌, ◌>>◌}
use ubu_orchestrator.Calendar.Event.{DesiredEvent}
use ubu_orchestrator.Calendar.Diff.{StringSet}
use ubu_orchestrator.Calendar.Capture.{DiagnosticBody, ◌<>◌}
use ubu_orchestrator.Calendar.Interaction.{
  Timestamps, MoveSignal, ResizeSignal, parse_range, accept_observation, detect,
  detect_window_gestures, WindowGestures, Gestures,
}
use ubu_orchestrator.Calendar.Interaction.Owned.{OwnedTask, observed_owned}
use ubu_orchestrator.Tasks.Record.{Env as TasksEnv, TaskForTransition, load_task}
use ubu_orchestrator.Tasks.Action.{CompletionSignal, record_calendar_completion}
use ubu_orchestrator.Tasks.Reopen.{ReopenSignal, reopen_calendar_completion}

-- What a move and a resize read of the stored Task: an occurrence's objective and date, whether it
-- has a static window, its creation time where it is a text.
pub record MovableTask : Type 0 where
  pub id : String
  pub version : ℕ
  pub status : String
  pub occurrence : Option (String × String)
  pub has_static_window : Bool
  pub created_at : Option String

pub data Edit : Type 0 where
  static_window : String → String → Edit
  fixed_duration : ℕ → Edit

pub record InteractionResult : Type 0 where
  pub changed_external_ids : StringSet
  pub moved : ℕ
  pub resized : ℕ
  pub diagnostics : List DiagnosticBody

-- The variables of the loops: the applied events, which are changed in place, and the result.
pub record Applying : Type 0 where
  pub applied : List DesiredEvent
  pub result : InteractionResult

abbrev body : String × String → DiagnosticBody
body item = record { code = item.0; message = item.1 }

-- The errors that become diagnostics: of a move or a resize, and of a completion.
unfoldable pub absorb : AppError → Option (List DiagnosticBody)
absorb (diagnostic status code message) = some (record { code = code; message = message } ∷ [])
absorb (diagnostics status summary items) = some (map body items)
absorb _ = none

unfoldable pub absorb_one : AppError → Option (List DiagnosticBody)
absorb_one (diagnostic status code message) = some (record { code = code; message = message } ∷ [])
absorb_one _ = none

abbrev told : List DiagnosticBody → Applying → Applying
told ds a = record a { result = record a.result { diagnostics = a.result.diagnostics ++ ds } }

-- The observed event is accepted, and its id is one that changed.
unfoldable pub accept : List DesiredEvent → String → Applying → Applying
unfolding accept_observation
accept observed id a = record {
  applied = accept_observation id observed a.applied;
  result = record a.result { changed_external_ids = id ∷ a.result.changed_external_ids };
}

-- `match action.await { Ok(..) => .., Err(absorbed) => .., Err(error) => return Err(error) }`
abbrev pub settled_err :
    {S : Type 0} → Option (List DiagnosticBody) → AppError → Applying → S → S × Result Applying
settled_err none e a s = (s, err e)
settled_err (some ds) e a s = (s, ok (told ds a))

abbrev pub settled :
    {S A : Type 0}
    → (AppError → Option (List DiagnosticBody))
    → (A → Applying → Applying)
    → Applying
    → S × Result A
    → S × Result Applying
settled absorbs done a (s, ok value) = (s, ok (done value a))
settled absorbs done a (s, err e) = settled_err (absorbs e) e a s

unfoldable pub attempt :
    {S A : Type 0}
    → (AppError → Option (List DiagnosticBody))
    → Exec S A
    → (A → Applying → Applying)
    → Applying
    → Exec S Applying
attempt absorbs action done a s = settled absorbs done a (action s)

-- A loop over signals, each from where the last one left off.
unfoldable pub each :
    {S A : Type 0} → (A → Applying → Exec S Applying) → List A → Applying → Exec S Applying
each step [] a = pure a
each step (signal ∷ signals) a = step signal a >>= each step signals

-- `as i64`, and `i64::saturating_add`.
abbrev as_i64 : ℕ → ℤ
as_i64 n =
    let m = n % 18446744073709551616 in
    if ltb m 9223372036854775808 then pos m else negsuc (18446744073709551615 - m)

abbrev saturated : ℤ → ℤ
saturated (pos n) = if ltb n 9223372036854775808 then pos n else pos 9223372036854775807
saturated (negsuc n) = if ltb n 9223372036854775808 then negsuc n else negsuc 9223372036854775807

module _ (ts : Timestamps) (tasks : TasksEnv) where
  open ts use {Instant, parse, before, unix_timestamp}
  open tasks use {World}

  pub record Host : Type 0 where
    pub get_current_state : World → String → Result (Option OwnedTask)
    pub movable : String → World → Result (Option MovableTask)
    -- `routine_override::change` with the source, `task_capture::edit`, and the Log's append.
    pub change_override :
        String × String
        → Instant × Instant
        → String × String
        → World
        → World × Result (List DiagnosticBody)
    pub edit : String → ℕ → Edit → World → World × Result (Unit {0})
    pub append_move_entry : TaskForTransition → MoveSignal → World → World × Result (Unit {0})
    pub planning_range : World → Result (Instant × Instant)
    pub planning_horizon_seconds : ℕ
    pub planning_now : World → ℤ

  module _ (host : Host) where
    open host use {movable, change_override, edit, append_move_entry, planning_range}

    unfoldable pub append_calendar_move : MoveSignal → Exec World (Unit {0})
    append_calendar_move signal = do
      task ← load_task tasks signal.task_id
      append_move_entry task signal

    abbrev reject : MoveSignal → String → String → AppError
    reject signal code reason = bad_request_diagnostic code (
        "Task `" <> signal.task_id <> "` event `" <> signal.external_id <> "`: " <> reason
        <> "; move rejected")

    abbrev present : {A : Type 0} → Option A → AppError → Result A
    present none e = err e
    present (some a) e = ok a

    abbrev refuse : Bool → AppError → Result (Unit {0})
    refuse true e = err e
    refuse false e = ok tt

    abbrev parsed : Option String → Option Instant
    parsed none = none
    parsed (some text) = parse text

    unfoldable pub latest_end : Instant × Instant → ℤ
    latest_end horizon =
        saturated (unix_timestamp horizon.1 +ℤ as_i64 host.planning_horizon_seconds)

    -- The move of a Static Task, read again under the lock.
    unfoldable pub move_static : MoveSignal → Exec World (List DiagnosticBody)
    unfolding append_calendar_move latest_end parse_range
    move_static signal = do
      found ← check (movable signal.task_id)
      task ← lift (present found (not_found ("Task `" <> signal.task_id <> "` disappeared")))
      lift (
          refuse (not (str_eq task.status "active"))
            (reject signal "calendar_gesture_on_inactive_task" "Task is no longer active"))
      lift (
          refuse (not task.has_static_window)
            (reject signal "calendar_move_not_static" "Task is no longer Static"))
      range ← lift (
          present (parse_range ts signal.new_start signal.new_end) (
            reject signal "calendar_move_invalid_window"
              "window must have a strictly positive span"))
      created ← lift (
          present (parsed task.created_at)
            (reject signal "calendar_move_invalid_creation" "Task creation time is unavailable"))
      lift (
          refuse (before range.0 created)
            (reject signal "calendar_move_before_creation" "window starts before Task creation"))
      horizon ← check planning_range
      lift (
          refuse (ltb_ℤ (latest_end horizon) (unix_timestamp range.1)) (
            reject signal "calendar_move_beyond_horizon"
              "window ends beyond the planning horizon plus one configured horizon length"))
      edit task.id task.version (static_window signal.new_start signal.new_end)
      append_calendar_move signal
      pure []

    -- The move of an occurrence overrides its routine for the day.
    unfoldable pub move_occurrence : MoveSignal → String × String → Exec World (List DiagnosticBody)
    unfolding parse_range
    move_occurrence signal occurrence = do
      window ← lift (
          present (parse_range ts signal.new_start signal.new_end) (
            bad_request_diagnostic "routine_override_invalid_window"
              "Override window must have a strictly positive span"))
      change_override occurrence window (signal.task_id, signal.external_id)

    abbrev occurrence_of : Option MovableTask → Option (String × String)
    occurrence_of none = none
    occurrence_of (some task) = task.occurrence

    abbrev move_of : MoveSignal → Option (String × String) → Exec World (List DiagnosticBody)
    move_of signal none = move_static signal
    move_of signal (some occurrence) = move_occurrence signal occurrence

    unfoldable pub apply_move : MoveSignal → Exec World (List DiagnosticBody)
    unfolding move_static move_occurrence
    apply_move signal =
        check (movable signal.task_id) >>= λ found. move_of signal (occurrence_of found)

    unfoldable pub apply_resize : ResizeSignal → Exec World (Unit {0})
    apply_resize signal = do
      found ← check (movable signal.task_id)
      task ← lift (present found (not_found ("Task `" <> signal.task_id <> "` disappeared")))
      lift (
          refuse (not (str_eq task.status "active")) (
            bad_request_diagnostic "calendar_gesture_on_inactive_task"
              ("Task `" <> signal.task_id <> "` is no longer active; resize ignored")))
      lift (
          refuse task.has_static_window (
            bad_request_diagnostic "calendar_resize_not_dynamic"
              ("Task `" <> signal.task_id <> "` is no longer Dynamic; resize ignored")))
      edit task.id task.version (fixed_duration signal.new_duration_seconds)
