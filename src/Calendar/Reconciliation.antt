-- ===== src/Calendar/Reconciliation.antt =====
-- src/services/calendar_reconciliation_service.rs: `reconcile`, which stores an observation of the
-- calendar with its conflicts, and `repair`, which turns a stored observation into the applied events.
-- The client, the planning range and the rows of the store are given by an `Observer`; a
-- reconciliation's link to the row id of its source result is not kept.
pub mod Once
pub mod Sound
pub mod Status
pub mod Stored
use ubu_orchestrator.Base.{
  ℕ, ◌+◌, ◌-◌, String, str_eq, Bool, true, false, not, ◌&&◌, ◌||◌, Option, none, some, List, [],
  ◌∷◌, ◌++◌, length, any, retain, if◌then◌else◌,
}
use ubu_orchestrator.Base.Order.{str_lt}
use ubu_orchestrator.Base.Sort.{sort_by}
use ubu_orchestrator.Errors.{
  AppError, not_found, upstream, Result, ok, err, ◌>>=◌, ◌>>◌, refuse_if, bad_request_diagnostic,
  conflict_diagnostic,
}
use ubu_orchestrator.Calendar.Event.{DesiredEvent, same_managed_fields}
use ubu_orchestrator.Calendar.Capture.{DiagnosticBody, ◌<>◌, external_id, not_ownable_diagnostic}
use ubu_orchestrator.Calendar.Diff.{StringSet}
use ubu_orchestrator.Calendar.Reconcile.{CalendarConflict, classify, repair as repair_applied}
use ubu_orchestrator.Calendar.Interaction.{Timestamps, parse_range, range_overlaps}
use ubu_orchestrator.Calendar.Intake.{normalize_observed}
use ubu_orchestrator.Calendar.Apply.{
  Tables, StoredCalendarResult, ProjectionStatus, last_applied_events, is_landed, result_schema,
}

abbrev pub reconciliation_schema : String
reconciliation_schema = "ubu.orchestrator.calendar_reconciliation.v1"

abbrev pub repair_schema : String
repair_schema = "ubu.orchestrator.calendar_repair.v1"

-- A row of `projection_reconciliations`: its status and its payload.
pub record Reconciliation : Type 0 where
  pub status : String
  pub schema_version : String
  pub preview_id : String
  pub applied_events : List DesiredEvent
  pub out_of_range_events : List DesiredEvent
  pub observed_events : List DesiredEvent
  pub known_external_ids : StringSet
  pub conflicts : List CalendarConflict
  pub diagnostics : List DiagnosticBody

pub record CalendarStore : Type 0 where
  pub tables : Tables
  pub reconciliations : List (String × Reconciliation)

pub record CalendarReconcileResponse : Type 0 where
  pub schema_version : String
  pub reconciliation_id : String
  pub status : String
  pub conflicts : List CalendarConflict
  pub diagnostics : List DiagnosticBody

pub record CalendarRepairResponse : Type 0 where
  pub schema_version : String
  pub reconciliation_id : String
  pub dropped_events : ℕ
  pub updated_events : ℕ
  pub applied_event_count : ℕ
  pub remaining_conflicts : List CalendarConflict

-- A captured Task: its source event's id, and what the check on removed sources reads.
pub record CapturedSource : Type 0 where
  pub source : String
  pub id : String
  pub status : String
  pub static_window : Option (String × String)

-- `filter_map` of `external_id` over the ids of the active Tasks.
unfoldable pub known_external_ids : List String → StringSet
known_external_ids [] = []
known_external_ids (id ∷ ids) =
    let rest = known_external_ids ids in
    elim (external_id id) [ none ↦ rest | some known ↦ known ∷ rest ]

abbrev has_type : String → CalendarConflict → Bool
has_type kind conflict = str_eq conflict.conflict_type kind

unfoldable pub status_of : List CalendarConflict → String
status_of [] = "matched"
status_of (conflict ∷ conflicts) =
    if any (λ c. has_type "drifted" c || has_type "missing" c) (conflict ∷ conflicts)
    then "drifted"
    else "observed"

-- The diagnostics of the foreign conflicts whose event could not be owned.
unfoldable pub not_ownable : List CalendarConflict → List DiagnosticBody
not_ownable [] = []
not_ownable (conflict ∷ conflicts) =
    let rest = not_ownable conflicts in
    if has_type "foreign" conflict
    then elim (not_ownable_diagnostic conflict.external_id) [
      | none ↦ rest
      | some diagnostic ↦ diagnostic ∷ rest
    ]
    else rest

unfoldable pub find_reconciliation : String → List (String × Reconciliation) → Option Reconciliation
find_reconciliation id [] = none
find_reconciliation id ((key, row) ∷ rows) =
    if str_eq key id then some row else find_reconciliation id rows

-- `UPDATE projection_reconciliations SET status='repaired' WHERE id=?`
unfoldable pub mark_repaired :
    String → List (String × Reconciliation) → List (String × Reconciliation)
mark_repaired id [] = []
mark_repaired id ((key, row) ∷ rows) =
    (key, if str_eq key id then record row { status = "repaired" } else row) ∷ mark_repaired id rows

-- The preview of the newest landed result.
unfoldable pub source_preview : List StoredCalendarResult → String → String
source_preview [] fresh = fresh
source_preview (row ∷ rows) fresh =
    if is_landed row.status && str_eq row.schema_version result_schema
    then row.preview_id
    else source_preview rows fresh

module _ (ts : Timestamps) (timestamp_at : ℕ → Option String) where
  open ts use {Instant, before}

  -- What one call of `reconcile` is given: whether the mode is available and the client connects,
  -- the planning range, the client's answers, the sources and active Tasks of the store, new ids.
  pub record Observer : Type 0 where
    pub available : Result (Unit {0})
    pub connects : Result (Unit {0})
    pub range : Result (Instant × Instant)
    pub list_events : List DesiredEvent → Instant × Instant → Result (List DesiredEvent)
    pub ubu_created_ids : StringSet
    pub diagnostics : List DiagnosticBody
    pub by_source : Result (List CapturedSource)
    pub active_tasks : Result (List String)
    pub reconciliation_id : String
    pub fresh_preview_id : String
    pub inserts : Result (Unit {0})

  abbrev pub window_in : Instant × Instant → Option (Instant × Instant) → Bool
  window_in range none = false
  window_in range (some window) = before window.0 range.1 && before range.0 window.1

  abbrev pub in_range : Instant × Instant → Option (String × String) → Bool
  unfolding parse_range
  in_range range none = false
  in_range range (some texts) = window_in range (parse_range ts texts.0 texts.1)

  -- A bounded observation says nothing about a commitment outside its range.
  unfoldable pub removed_sources :
      Instant × Instant → List DesiredEvent → List CapturedSource → List DiagnosticBody
  removed_sources range observed [] = []
  removed_sources range observed (row ∷ rows) =
      let rest = removed_sources range observed rows in
      if not (str_eq row.status "active")
        || any (λ event. str_eq event.external_id row.source) observed
      then rest
      else if in_range range row.static_window
      then record {
        code = "capture_source_removed";
        message =
            "Captured Task `" <> row.id
            <> "` has no source event in the observed planning horizon; Task retained for operator review";
      }
        ∷ rest
      else rest

  -- The row that a reconciliation stores, from what was listed and from the sources.
  unfoldable pub observed_row :
      Observer
      → List StoredCalendarResult
      → Instant × Instant
      → List DesiredEvent
      → List CapturedSource
      → List String
      → Reconciliation
  unfolding removed_sources known_external_ids status_of not_ownable source_preview
  observed_row o results range listed sources active =
      let all_applied = last_applied_events results in
      let applied = retain (range_overlaps ts range) all_applied in
      let observed = normalize_observed ts timestamp_at listed applied in
      let known = known_external_ids active in
      let conflicts = classify applied observed known o.ubu_created_ids in
      record {
        status = status_of conflicts;
        schema_version = reconciliation_schema;
        preview_id = source_preview results o.fresh_preview_id;
        applied_events = applied;
        out_of_range_events = retain (λ event. not (range_overlaps ts range event)) all_applied;
        observed_events = observed;
        known_external_ids = known;
        conflicts = conflicts;
        diagnostics =
            (o.diagnostics ++ removed_sources range observed sources) ++ not_ownable conflicts;
      }

  unfoldable pub observe : Observer → List StoredCalendarResult → Result Reconciliation
  unfolding observed_row
  observe o results = do
    o.available
    o.connects
    range ← o.range
    listed ← o.list_events (last_applied_events results) range
    sources ← o.by_source
    active ← o.active_tasks
    ok (observed_row o results range listed sources active)
