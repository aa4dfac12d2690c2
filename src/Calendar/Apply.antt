-- ===== src/Calendar/Apply.antt =====
-- src/services/calendar_apply.rs: `approve` and what it calls. The Calendar client, the export gate,
-- the boundary log and the clock of the store are an `Env`, a parameter: src/services/calendar_client.rs
-- and src/services/calendar_google.rs reach Google, and the gate and the store are the crates
-- `ubu_core` and `ubu_store`. The tables of previews and results are lists of their rows.
pub mod Approve
pub mod Landed
pub mod Status
pub mod Record
pub mod Outcome
pub mod Accepted
use ubu_orchestrator.Base.{
  ℕ, String, str_eq, Bool, true, false, not, ◌&&◌, ◌||◌, Option, none, some, List, [], ◌∷◌, ◌++◌,
  length, retain, ◌==◌, ltb, if◌then◌else◌,
}
use ubu_orchestrator.Base.Order.{str_ord}
use ubu_orchestrator.Base.TreeMap.{values}
use ubu_orchestrator.Errors.{
  AppError, not_found, internal, Result, ok, err, ◌>>=◌, ◌>>◌, refuse_if, bad_request_diagnostic,
  conflict_diagnostic,
}
use ubu_orchestrator.Calendar.Event.{
  DesiredEvent, same_managed_fields, opt_eq, Events, by_external_id,
}
use ubu_orchestrator.Calendar.Capture.{DiagnosticBody, ◌<>◌}
use ubu_orchestrator.Calendar.Diff.{CalendarOperation}

pub data OperationKind : Type 0 where
  create update delete : OperationKind

-- The payload, before it is written as JSON.
pub data Payload : Type 0 where
  event : DesiredEvent → Payload
  removal : String → String → Payload

-- `ubu_core::projection::ProjectionOperation`, with its target's kind and id.
pub record ProjectionOperation : Type 0 where
  pub operation_id : String
  pub kind : OperationKind
  pub source_kind : String
  pub source_id : String
  pub summary : String
  pub payload : Payload

pub data AuthoritySource : Type 0 where
  user user_override automation_worker : AuthoritySource

pub record ExportPermit : Type 0 where
  pub operation_id : String
  pub authority_source : AuthoritySource

pub record GateDecision : Type 0 where
  pub permit : Option ExportPermit
  -- `adjudication_reasons.join(" ")`
  pub reason : String

pub data OperationStatus : Type 0 where
  applied skipped failed : OperationStatus

pub record OperationResult : Type 0 where
  pub operation_id : String
  pub status : OperationStatus
  pub message : Option String

pub data ProjectionStatus : Type 0 where
  applied partial failed : ProjectionStatus

pub record StoredCalendarPreview : Type 0 where
  pub schema_version : String
  pub preview_id : String
  pub plan_id : Option String
  pub stale : Bool
  pub desired_events : List DesiredEvent
  pub no_external_export : Option Bool
  pub existing_events : List DesiredEvent
  pub operations : List CalendarOperation

pub record StoredCalendarResult : Type 0 where
  pub schema_version : String
  pub preview_id : String
  pub status : ProjectionStatus
  pub applied_events : List DesiredEvent
  pub operation_results : List OperationResult
  pub diagnostics : List DiagnosticBody

-- The rows of `projection_previews`, and those of `projection_results`, the newest first.
pub record Tables : Type 0 where
  pub previews : List (String × StoredCalendarPreview)
  pub results : List StoredCalendarResult

pub record Env : Type 1 where
  pub World : Type 0
  -- `mode.ensure_available`, the construction of the client, and the final insert's failure.
  pub available : World → Result (Unit {0})
  pub connects : World → Result (Unit {0})
  pub persists : World → Result (Unit {0})
  -- A call's failure is its message.
  pub insert_event : DesiredEvent → World → World × Option String
  pub patch_event : DesiredEvent → World → World × Option String
  pub delete_event : String → World → World × Option String
  pub take_diagnostics : World → World × List DiagnosticBody
  pub gate : ProjectionOperation → Option Bool → AuthoritySource → World → GateDecision
  pub append_boundary_log : String → ProjectionOperation → World → World × Result (Unit {0})

abbrev pub result_schema : String
result_schema = "ubu.orchestrator.calendar_projection_result.v1"

abbrev pub preview_schema : String
preview_schema = "ubu.orchestrator.calendar_projection_preview.v1"

abbrev pub is_landed : ProjectionStatus → Bool
is_landed ProjectionStatus.applied = true
is_landed ProjectionStatus.partial = true
is_landed ProjectionStatus.failed = false

-- The newest applied or partial result of the Calendar schema; no events before the first.
unfoldable pub last_applied_events : List StoredCalendarResult → List DesiredEvent
last_applied_events [] = []
last_applied_events (row ∷ rows) =
    if is_landed row.status && str_eq row.schema_version result_schema
    then row.applied_events
    else last_applied_events rows

unfoldable pub find_preview :
    String → List (String × StoredCalendarPreview) → Option StoredCalendarPreview
find_preview id [] = none
find_preview id ((key, row) ∷ rows) = if str_eq key id then some row else find_preview id rows

abbrev supported : StoredCalendarPreview → Result StoredCalendarPreview
supported row =
    if not (str_eq row.schema_version preview_schema)
    then err (
        bad_request_diagnostic "unknown_schema_version"
          "stored preview is not a supported Calendar projection preview")
    else ok row

abbrev or_missing : Option StoredCalendarPreview → Result StoredCalendarPreview
or_missing none = err (not_found "Calendar projection preview not found")
or_missing (some row) = supported row

unfoldable pub load_preview : Tables → String → Result StoredCalendarPreview
unfolding find_preview
load_preview tables id = or_missing (find_preview id tables.previews)

-- `DesiredEvent`'s `PartialEq` compares every field.
abbrev pub events_eq : List DesiredEvent → List DesiredEvent → Bool
events_eq [] [] = true
events_eq (a ∷ as') (b ∷ bs) =
    (same_managed_fields a b && opt_eq a.description b.description) && events_eq as' bs
events_eq _ _ = false

unfoldable pub lower_operation : CalendarOperation → ProjectionOperation
lower_operation (CalendarOperation.create e) = record {
  operation_id = "calendar-create-" <> e.external_id;
  kind = OperationKind.create;
  source_kind = "google_calendar";
  source_id = e.external_id;
  summary = e.summary;
  payload = event e;
}
lower_operation (CalendarOperation.update e) = record {
  operation_id = "calendar-update-" <> e.external_id;
  kind = OperationKind.update;
  source_kind = "google_calendar";
  source_id = e.external_id;
  summary = e.summary;
  payload = event e;
}
lower_operation (CalendarOperation.delete id summary) = record {
  operation_id = "calendar-delete-" <> id;
  kind = OperationKind.delete;
  source_kind = "google_calendar";
  source_id = id;
  summary = summary;
  payload = removal id summary;
}

abbrev is_worker : AuthoritySource → Bool
is_worker automation_worker = true
is_worker _ = false

unfoldable pub ensure_permit_matches : ExportPermit → ProjectionOperation → Result (Unit {0})
ensure_permit_matches permit operation =
    if not (str_eq permit.operation_id operation.operation_id)
      || not (is_worker permit.authority_source)
    then err (internal "Calendar export permit does not match the operation")
    else ok tt

abbrev pub is_applied : OperationStatus → Bool
is_applied OperationStatus.applied = true
is_applied OperationStatus.skipped = false
is_applied OperationStatus.failed = false

abbrev pub applied_count : List OperationResult → ℕ
applied_count results = length (retain (λ r. is_applied r.status) results)

unfoldable pub result_status : List OperationResult → ProjectionStatus
result_status results =
    if applied_count results == length results
    then ProjectionStatus.applied
    else if ltb 0 (applied_count results)
    then ProjectionStatus.partial
    else ProjectionStatus.failed

module _ (env : Env) where
  open env use {World, available, connects}

  -- What is read and checked before the loop: the preview must be stored, and the applied events
  -- must still be those that it was made against.
  unfoldable pub prepare : String → World → Tables → Result StoredCalendarPreview
  prepare preview_id world tables = do
    available world
    stored ← load_preview tables preview_id
    refuse_if (not (events_eq (last_applied_events tables.results) stored.existing_events)) (
        conflict_diagnostic "calendar_projection_conflict"
          "The applied Calendar event set changed after this preview; request a new preview")
    connects world
    ok stored
