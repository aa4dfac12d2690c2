-- ===== src/Calendar/Admission/Whole.antt =====
-- `capture` of src/services/calendar_capture.rs as a change of the world and of the stored results. The
-- lock of the Calendar projection makes a call one step.
use ubu_orchestrator.Base.{
  ℕ, String, str_eq, not, ◌||◌, Option, none, some, List, [], ◌∷◌, ◌++◌, any, retain, map, length,
  ◌-◌, ◌+◌, ltb, if◌then◌else◌,
}
use ubu_orchestrator.Base.Order.{str_ord}
use ubu_orchestrator.Base.Sort.{sort_by}
use ubu_orchestrator.Errors.{internal, bad_request_diagnostic, Result, ok, err}
use ubu_orchestrator.Errors.Exec.{Exec, pure, check, lift, total, reads, ◌>>=◌, ◌>>◌}
use ubu_orchestrator.Calendar.Event.{DesiredEvent}
use ubu_orchestrator.Calendar.Diff.{StringSet}
use ubu_orchestrator.Calendar.Capture.{DiagnosticBody}
use ubu_orchestrator.Calendar.Reconcile.{classify}
use ubu_orchestrator.Calendar.Interaction.{Timestamps, range_overlaps}
use ubu_orchestrator.Calendar.Intake.{plan_capture, normalize_observed, try_u64}
use ubu_orchestrator.Calendar.Apply.{
  StoredCalendarResult, ProjectionStatus, last_applied_events, result_schema,
}
use ubu_orchestrator.Calendar.Reconciliation.{known_external_ids}
use ubu_orchestrator.Calendar.Reconciliation.Stored.{id_le}
use ubu_orchestrator.Calendar.Gestures.{Host, Applying}
use ubu_orchestrator.Calendar.Gestures.Applied.{apply}
use ubu_orchestrator.Calendar.Admission.{
  CalendarCaptureResponse, colour_flipped, foreign_ids, replaced, candidates, tally, not_captured,
}
use ubu_orchestrator.Calendar.Admission.Captured.{
  Admitting, CaptureHost, CaptureState, first_response, admit_all,
}
use ubu_orchestrator.Tasks.Record.{Env as TasksEnv}

-- What was seen of the calendar, once it is normalised, and UbU's own exports among it.
pub record Seen : Type 0 where
  pub observed : List DesiredEvent
  pub diagnostics : List DiagnosticBody
  pub created : StringSet

module _ (Json : Type 0) (ts : Timestamps) (timestamp_at : ℕ → Option String) (tasks : TasksEnv)
    (host : Host ts tasks) (capture_host : CaptureHost Json ts timestamp_at tasks host) where
  open ts use {Instant, parse, before}
  open tasks use {World}

  abbrev State : Type 0
  State = CaptureState Json ts timestamp_at tasks host

  -- An action on the world alone.
  abbrev pub in_world : {A : Type 0} → Exec World A → Exec State A
  in_world m s = let (w, r) = m s.world in (record s { world = w }, r)

  abbrev at_least : Instant → Instant → Instant
  at_least a b = if before b a then b else a

  abbrev text_of : Option String → Result String
  text_of none = err (
      bad_request_diagnostic "invalid_schedule_timestamp"
        "schedule coordinate is outside RFC 3339 UTC range")
  text_of (some text) = ok text

  abbrev instant_of : Option Instant → Result Instant
  instant_of none = err (internal "invalid timestamp")
  instant_of (some t) = ok t

  abbrev seconds_of_now : Option ℕ → Result ℕ
  seconds_of_now none = err (internal "out of range integral type conversion attempted")
  seconds_of_now (some n) = ok n

  -- A day before now: `saturating_sub` stops at 0, as the subtraction here does.
  unfoldable pub lookback : Exec World Instant
  lookback = do
    now ← check (λ w. seconds_of_now (try_u64 (host.planning_now w)))
    text ← lift (text_of (timestamp_at (now - 86400)))
    lift (instant_of (parse text))

  abbrev describe_all : List DesiredEvent → List DesiredEvent × List DiagnosticBody
  describe_all [] = ([], [])
  describe_all (event ∷ events) =
      let (event', ds) = capture_host.describe event in
      let (events', rest) = describe_all events in (event' ∷ events', ds ++ rest)

  -- The read of the calendar: recent owned events with the planning range's own.
  unfoldable pub see : List DesiredEvent → Exec World Seen
  unfolding lookback normalize_observed
  see applied = do
    range ← check host.planning_range
    earliest ← lookback
    check capture_host.connects
    listed ← capture_host.list_events applied (at_least range.0 earliest, range.1)
    let normal = normalize_observed ts timestamp_at listed applied
    let kept =
        retain
          (λ event.
            range_overlaps ts range event
            || any (λ old. str_eq old.external_id event.external_id) applied)
          normal
    left ← total capture_host.take_diagnostics
    let described = describe_all kept
    created ← total capture_host.take_ubu_created_ids
    pure (record { observed = described.0; diagnostics = left ++ described.1; created = created })

  -- The rest, once the gestures are carried out.
  unfoldable pub admit_seen : Seen → StringSet → Applying → Exec World Admitting
  unfolding admit_all colour_flipped foreign_ids replaced candidates tally not_captured
      first_response known_external_ids
  admit_seen seen flipped gestures = do
    active ← reads capture_host.active_tasks
    let foreign =
        foreign_ids
          (classify gestures.applied seen.observed (known_external_ids active) seen.created)
    existing ← check capture_host.by_source
    let again = replaced Json flipped foreign existing
    let events = candidates Json foreign again seen.observed
    palette ← reads capture_host.palette_inverse
    let planned =
        plan_capture ts timestamp_at capture_host.is_blank capture_host.capture_description palette
          (map (λ e. (e.0, e.1.id)) existing) events seen.created
    let wire_skipped = length (retain (λ d. not (capture_host.is_too_large d)) seen.diagnostics)
    let first = first_response gestures (not_captured events planned.0 + wire_skipped)
    let changed = gestures.result.changed_external_ids
    let counted = tally foreign changed again gestures.applied seen.observed first
    admit_all Json ts timestamp_at tasks host capture_host existing changed events planned.0
        (record {
          applied = gestures.applied;
          response = record counted {
            diagnostics =
                ((seen.diagnostics ++ gestures.result.diagnostics) ++ planned.1)
                ++ counted.diagnostics;
          };
          recorded = ltb 0 (length changed);
        })

  unfoldable pub recorded_result : List DesiredEvent → World → StoredCalendarResult
  recorded_result applied w = record {
    schema_version = result_schema;
    preview_id = capture_host.preview_id w;
    status = ProjectionStatus.applied;
    applied_events = sort_by id_le applied;
    operation_results = [];
    diagnostics = [];
  }

  -- The new row is the newest, unless the insert fails.
  unfoldable pub record_with :
      StoredCalendarResult → State → Result (Unit {0}) → State × Result (Unit {0})
  record_with result s (ok _) =
      (record s { tables = record s.tables { results = result ∷ s.tables.results } }, ok tt)
  record_with result s (err e) = (s, err e)

  unfoldable pub record_applied : Admitting → Exec State (Unit {0})
  unfolding record_with recorded_result
  record_applied a s =
      if a.recorded
      then record_with (recorded_result a.applied s.world) s (capture_host.persists s.world)
      else (s, ok tt)

  unfoldable pub capture : Exec State CalendarCaptureResponse
  unfolding see colour_flipped apply admit_seen record_applied
  capture = do
    check (λ s. capture_host.available s.world)
    applied ← reads (λ s. last_applied_events s.tables.results)
    seen ← in_world (see applied)
    let flipped = colour_flipped applied seen.observed
    gestures ← in_world (apply ts tasks host seen.observed applied)
    admitted ← in_world (admit_seen seen flipped gestures)
    record_applied admitted
    pure admitted.response
