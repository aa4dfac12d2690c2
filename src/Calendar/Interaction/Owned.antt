-- ===== src/Calendar/Interaction/Owned.antt =====
-- `observed_owned` of src/services/calendar_interaction.rs: the observed events that UbU applied, with
-- the Task of each; and `preserve_completed` and `current_static_windows`, which a preview uses.
use ubu_orchestrator.Base.{
  ℕ, String, str_eq, Bool, not, ◌&&◌, ◌||◌, Option, none, some, List, [], ◌∷◌, ◌++◌, retain,
  is_some, is_none, is_some_and, if◌then◌else◌,
}
use ubu_orchestrator.Base.Sort.{sort_by}
use ubu_orchestrator.Errors.{AppError, internal, Result, ok, err, ◌>>=◌, bad_request_diagnostic}
use ubu_orchestrator.Calendar.Event.{DesiredEvent}
use ubu_orchestrator.Calendar.Diff.{StringSet, contains}
use ubu_orchestrator.Calendar.Desired.{event_le}
use ubu_orchestrator.Calendar.Intake.{try_u64}
use ubu_orchestrator.Calendar.Interaction.{Timestamps, ObservedOwned, with_id, parse_range}
use ubu_orchestrator.Tasks.Record.{CompletionRecord, is_from_calendar_event}

-- The stored object of an id, by what is read of it. `static_window` is that of the payload where it
-- is not null: its two ends where both are texts. The durations are the fields `seconds` and
-- `mode_seconds` of the estimate, and the one that the planning service falls back on.
pub record OwnedTask : Type 0 where
  pub id : String
  pub object_type : String
  pub status : String
  pub has_static_window : Bool
  pub static_window : Option (String × String)
  pub source_kind : Option String
  pub seconds : Option ℕ
  pub mode_seconds : Option ℕ
  pub duration_seconds : ℕ
  pub routine_objective_id : Option String
  pub latest_completion : Option CompletionRecord

abbrev or_nat : Option ℕ → ℕ → ℕ
or_nat none n = n
or_nat (some m) n = m

unfoldable pub own : DesiredEvent → DesiredEvent → OwnedTask → ObservedOwned
own event old task = record {
  event = event;
  task_id = task.id;
  status = task.status;
  is_static = task.has_static_window;
  is_captured = is_some_and task.source_kind (str_eq "google_calendar");
  static_window = task.static_window;
  declared_duration_seconds = or_nat task.seconds (or_nat task.mode_seconds task.duration_seconds);
  routine_objective_id = task.routine_objective_id;
  applied_window = (old.start_at, old.end_at);
  exported_uncoloured = is_none old.color_id;
  latest_completion = task.latest_completion;
}

abbrev own_task : DesiredEvent → DesiredEvent → Option OwnedTask → List ObservedOwned
own_task event old none = []
own_task event old (some task) =
    if not (str_eq task.object_type "Task") then [] else own event old task ∷ []

module _ (get_current_state : String → Result (Option OwnedTask)) where
  -- The loop, with the Task ids that it has seen: each Task is read for its first event alone.
  unfoldable pub observed_from :
      List DesiredEvent → StringSet → List DesiredEvent → Result (List ObservedOwned)
  unfolding own
  observed_from applied seen [] = ok []
  observed_from applied seen (event ∷ observed) =
      let rest = observed_from applied seen observed in
      elim (with_id event.external_id applied) [
        | none ↦ rest
        | some old ↦
            let next = observed_from applied (old.task_id ∷ seen) observed in
            if contains seen old.task_id
            then rest
            else (get_current_state old.task_id >>= λ found.
                next >>= λ owned. ok (own_task event old found ++ owned))
      ]

  unfoldable pub observed_owned :
      List DesiredEvent → List DesiredEvent → Result (List ObservedOwned)
  unfolding observed_from
  observed_owned observed applied = observed_from applied [] observed

  -- An event completed by its colour, of a Task that can be reopened by it.
  unfoldable pub is_preserved : ObservedOwned → Bool
  is_preserved item =
      (not item.is_static || is_some item.routine_objective_id)
      && not item.is_captured
      && str_eq item.status "completed"
      && is_some_and item.latest_completion
          (λ completion. is_from_calendar_event completion item.event.external_id)

  unfoldable pub keep_completed : List ObservedOwned → List DesiredEvent → List DesiredEvent
  unfolding is_preserved
  keep_completed [] desired = desired
  keep_completed (item ∷ owned) desired = keep_completed owned (
      if is_preserved item
      then retain (λ event. not (str_eq event.task_id item.task_id)) desired ++ (item.event ∷ [])
      else desired)

  unfoldable pub preserve_completed :
      List DesiredEvent → List DesiredEvent → Result (List DesiredEvent)
  unfolding keep_completed
  preserve_completed desired applied = observed_owned applied applied >>= λ owned.
      ok (sort_by event_le (keep_completed owned desired))

  module _ (ts : Timestamps) (timestamp_at : ℕ → Option String) where
    open ts use {Instant, parse, unix_timestamp}

    -- The message of a failed `CalendarTimeRange::parse`.
    abbrev range_error : String → String → AppError
    range_error start end =
        if is_none (parse start)
        then internal "invalid range start"
        else if is_none (parse end)
        then internal "invalid range end"
        else internal "range start must precede end"

    abbrev to_seconds : Option ℕ → Result ℕ
    to_seconds none = err (internal "out of range integral type conversion attempted")
    to_seconds (some n) = ok n

    abbrev to_text : Option String → Result String
    to_text none = err (
        bad_request_diagnostic "invalid_schedule_timestamp"
          "schedule coordinate is outside RFC 3339 UTC range")
    to_text (some text) = ok text

    abbrev stamp : Instant → Result String
    stamp t = to_seconds (try_u64 (unix_timestamp t)) >>= λ n. to_text (timestamp_at n)

    abbrev at_window :
        DesiredEvent → String × String → Option (Instant × Instant) → Result DesiredEvent
    at_window event texts none = err (range_error texts.0 texts.1)
    at_window event texts (some window) = stamp window.0 >>= λ start.
        stamp window.1 >>= λ end. ok (record event { start_at = start; end_at = end })

    abbrev placed_now : DesiredEvent → Option OwnedTask → Result DesiredEvent
    placed_now event none = ok event
    placed_now event (some task) =
        if not (str_eq task.status "active") then ok event else elim task.static_window [
          | none ↦ ok event
          | some texts ↦ at_window event texts (parse_range ts texts.0 texts.1)
        ]

    -- The loop over the desired events.
    unfoldable pub replaced_windows : List DesiredEvent → Result (List DesiredEvent)
    unfolding parse_range
    replaced_windows [] = ok []
    replaced_windows (event ∷ desired) = get_current_state event.task_id >>= λ found.
        placed_now event found >>= λ event'. replaced_windows desired >>= λ rest. ok (event' ∷ rest)

    unfoldable pub current_static_windows : List DesiredEvent → Result (List DesiredEvent)
    unfolding replaced_windows
    current_static_windows desired =
        replaced_windows desired >>= λ events. ok (sort_by event_le events)
