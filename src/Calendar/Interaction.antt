-- ===== src/Calendar/Interaction.antt =====
-- src/services/calendar_interaction.rs: the gestures that the owned events show, and the
-- acceptance of an observed event; src/services/calendar_range.rs: a range of instants.
-- `UbuTimestamp` is of the crate `ubu_core`: its parser, its order and its Unix seconds are given.
pub mod Detected
pub mod Windows
pub mod Accepts
pub mod Owned
use ubu_orchestrator.Base.{
  ℕ, ◌+◌, ◌-◌, ◌%◌, String, str_eq, Bool, true, false, not, ◌&&◌, ◌||◌, Option, none, some, List,
  [], ◌∷◌, ◌++◌, find, is_some, is_none, is_some_and, ltb, ◌==◌, if◌then◌else◌,
}
use ubu_orchestrator.Base.Int.{ℤ, pos, negsuc, ◌-ℤ◌, ltb_ℤ}
use ubu_orchestrator.Errors.{AppError, Result}
use ubu_orchestrator.Calendar.Event.{DesiredEvent}
use ubu_orchestrator.Calendar.Capture.{DiagnosticBody, ◌<>◌}
use ubu_orchestrator.Tasks.Record.{CompletionRecord, is_from_calendar_event}
use ubu_orchestrator.Tasks.Action.{CompletionSignal}
use ubu_orchestrator.Tasks.Reopen.{ReopenSignal}

pub record Timestamps : Type 1 where
  pub Instant : Type 0
  pub parse : String → Option Instant
  pub same : Instant → Instant → Bool
  pub before : Instant → Instant → Bool
  pub unix_timestamp : Instant → ℤ

pub record ObservedOwned : Type 0 where
  pub event : DesiredEvent
  pub task_id : String
  pub status : String
  pub is_static : Bool
  pub is_captured : Bool
  pub static_window : Option (String × String)
  pub declared_duration_seconds : ℕ
  pub routine_objective_id : Option String
  pub applied_window : String × String
  pub exported_uncoloured : Bool
  pub latest_completion : Option CompletionRecord

pub record MoveSignal : Type 0 where
  pub task_id : String
  pub external_id : String
  pub new_start : String
  pub new_end : String

pub record ResizeSignal : Type 0 where
  pub task_id : String
  pub external_id : String
  pub new_duration_seconds : ℕ

pub record WindowGestures : Type 0 where
  pub moves : List MoveSignal
  pub resizes : List ResizeSignal
  pub diagnostics : List DiagnosticBody

pub record Gestures : Type 0 where
  pub completions : List CompletionSignal
  pub reopens : List ReopenSignal
  pub diagnostics : List DiagnosticBody

-- `as u64`
abbrev pub as_u64 : ℤ → ℕ
as_u64 (pos n) = n % 18446744073709551616
as_u64 (negsuc n) = 18446744073709551615 - n % 18446744073709551616

abbrev pub move_of : ObservedOwned → MoveSignal
move_of item = record {
  task_id = item.task_id;
  external_id = item.event.external_id;
  new_start = item.event.start_at;
  new_end = item.event.end_at;
}

abbrev pub log_id_of : Option CompletionRecord → String
log_id_of none = ""
log_id_of (some completion) = completion.log_id

module _ (ts : Timestamps) where
  open ts use {Instant, parse, same, before, unix_timestamp}

  -- `CalendarTimeRange::parse`: two instants, the first before the second.
  unfoldable pub parse_range : String → String → Option (Instant × Instant)
  parse_range start end = elim (parse start) [
    | none ↦ none
    | some s ↦ elim (parse end) [ none ↦ none | some e ↦ if before s e then some (s, e) else none ]
  ]

  -- `CalendarTimeRange::overlaps`
  unfoldable pub range_overlaps : Instant × Instant → DesiredEvent → Bool
  range_overlaps range event = elim (parse event.start_at) [
    | none ↦ false
    | some start ↦ elim (parse event.end_at) [
      | none ↦ false
      | some end ↦ before start range.1 && before range.0 end
    ]
  ]

  abbrev same_time : String → String → Bool
  same_time a b = elim (parse a) [
    | none ↦ false
    | some s ↦ elim (parse b) [ none ↦ false | some t ↦ same s t ]
  ]

  unfoldable pub same_window : String × String → String × String → Bool
  same_window left right = same_time left.0 right.0 && same_time left.1 right.1

  abbrev window_of : ObservedOwned → String × String
  window_of item = (item.event.start_at, item.event.end_at)

  unfoldable pub changed : ObservedOwned → Bool
  unfolding same_window
  changed item = not (same_window (window_of item) item.applied_window)

  unfoldable pub left_static_window : ObservedOwned → Bool
  unfolding same_window
  left_static_window item =
      is_some_and item.static_window (λ old. not (same_window (window_of item) old))

  unfoldable pub seconds_of : Instant × Instant → ℕ
  seconds_of range = as_u64 (unix_timestamp range.1 -ℤ unix_timestamp range.0)

  abbrev nothing : WindowGestures
  nothing = record { moves = []; resizes = []; diagnostics = [] }

  unfoldable pub resize_of : ObservedOwned → Option (Instant × Instant) → WindowGestures
  unfolding seconds_of
  resize_of item none = record {
    moves = [];
    resizes = [];
    diagnostics =
        record {
          code = "calendar_resize_invalid_window";
          message =
              "Task `" <> item.task_id <> "` has no positive observed duration; resize ignored";
        }
        ∷ [];
  }
  resize_of item (some range) =
      if ltb 0 (seconds_of range) && not (seconds_of range == item.declared_duration_seconds)
      then record {
        moves = [];
        resizes =
            record {
              task_id = item.task_id;
              external_id = item.event.external_id;
              new_duration_seconds = seconds_of range;
            }
            ∷ [];
        diagnostics = [];
      }
      else nothing

  abbrev moved : ObservedOwned → WindowGestures
  moved item = record { moves = move_of item ∷ []; resizes = []; diagnostics = [] }

  -- What one owned event adds.
  unfoldable pub window_gesture : ObservedOwned → WindowGestures
  unfolding changed left_static_window resize_of parse_range
  window_gesture item =
      if not (str_eq item.status "active")
      then (if changed item || left_static_window item
          then record {
            moves = [];
            resizes = [];
            diagnostics =
                record {
                  code = "calendar_gesture_on_inactive_task";
                  message =
                      "Task `" <> item.task_id <> "` is " <> item.status
                      <> "; Calendar window gesture ignored";
                }
                ∷ [];
          }
          else nothing)
      else if is_some item.routine_objective_id
      then (if changed item then moved item else nothing)
      else if item.is_static
      then (if left_static_window item then moved item else nothing)
      else resize_of item (parse_range item.event.start_at item.event.end_at)

  unfoldable pub detect_window_gestures : List ObservedOwned → WindowGestures
  unfolding window_gesture
  detect_window_gestures [] = nothing
  detect_window_gestures (item ∷ owned) =
      let one = window_gesture item in
      let rest = detect_window_gestures owned in
      record {
        moves = one.moves ++ rest.moves;
        resizes = one.resizes ++ rest.resizes;
        diagnostics = one.diagnostics ++ rest.diagnostics;
      }

  unfoldable pub completes : ObservedOwned → Bool
  completes item =
      not (str_eq item.status "completed")
      && (is_some item.event.color_id && item.exported_uncoloured)

  unfoldable pub reopens_one : ObservedOwned → Bool
  reopens_one item =
      str_eq item.status "completed"
      && (is_none item.event.color_id
          && is_some_and item.latest_completion
              (λ completion. is_from_calendar_event completion item.event.external_id))

  abbrev silent : Gestures
  silent = record { completions = []; reopens = []; diagnostics = [] }

  -- `now.unix_timestamp().saturating_sub(86_400)`, on `i64`.
  abbrev pub day_before : ℤ → ℤ
  day_before now =
      if ltb_ℤ (now -ℤ pos 86400) (negsuc 9223372036854775807)
      then negsuc 9223372036854775807
      else now -ℤ pos 86400

  -- A completion or a reopening, once the event's window is read. A reopening has a completion, so
  -- its `unwrap` never meets `None`.
  unfoldable pub gesture_in : ObservedOwned → ℤ → Option (Instant × Instant) → Gestures
  unfolding completes
  gesture_in item now none = record {
    completions = [];
    reopens = [];
    diagnostics =
        record {
          code = "capture_interaction_invalid_window";
          message =
              "Task `" <> item.task_id <> "` event `" <> item.event.external_id
              <> "` has no valid observed window; gesture ignored";
        }
        ∷ [];
  }
  gesture_in item now (some window) =
      if completes item
      then record {
        completions =
            record {
              task_id = item.task_id;
              external_id = item.event.external_id;
              observed_start = item.event.start_at;
              observed_end = item.event.end_at;
              allow_occurrence_pin = is_some item.routine_objective_id;
            }
            ∷ [];
        reopens = [];
        diagnostics = [];
      }
      else if ltb_ℤ (day_before now) (unix_timestamp window.1)
      then record {
        completions = [];
        reopens =
            record {
              task_id = item.task_id;
              external_id = item.event.external_id;
              completion_log_id = log_id_of item.latest_completion;
            }
            ∷ [];
        diagnostics = [];
      }
      else silent

  unfoldable pub gesture : ℤ → ObservedOwned → Gestures
  unfolding gesture_in completes reopens_one parse_range
  gesture now item =
      if item.is_static || item.is_captured
      then silent
      else if not (completes item) && not (reopens_one item)
      then silent
      else gesture_in item now (parse_range item.event.start_at item.event.end_at)

  unfoldable pub detect : List ObservedOwned → ℤ → Gestures
  unfolding gesture
  detect [] now = silent
  detect (item ∷ owned) now =
      let one = gesture now item in
      let rest = detect owned now in
      record {
        completions = one.completions ++ rest.completions;
        reopens = one.reopens ++ rest.reopens;
        diagnostics = one.diagnostics ++ rest.diagnostics;
      }

abbrev pub with_id : String → List DesiredEvent → Option DesiredEvent
with_id id events = find (λ e. str_eq e.external_id id) events

-- The first event of the id is replaced.
unfoldable pub replace_first : String → DesiredEvent → List DesiredEvent → List DesiredEvent
replace_first id current [] = []
replace_first id current (e ∷ es) =
    let rest = replace_first id current es in
    if str_eq e.external_id id then current ∷ es else e ∷ rest

unfoldable pub accept_observation :
    String → List DesiredEvent → List DesiredEvent → List DesiredEvent
unfolding replace_first
accept_observation external_id observed applied = elim (with_id external_id observed) [
  | none ↦ applied
  | some current ↦ replace_first external_id current applied
]
