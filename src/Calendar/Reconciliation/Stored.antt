-- ===== src/Calendar/Reconciliation/Stored.antt =====
-- `reconcile` and `repair` of src/services/calendar_reconciliation_service.rs as changes of the store.
-- The lock of the Calendar projection makes a call one step; a repair's transaction is kept or lost
-- whole.
use ubu_orchestrator.Base.{
  ℕ, ◌+◌, ◌-◌, String, str_eq, Bool, not, ◌&&◌, ◌||◌, Option, none, some, List, [], ◌∷◌, ◌++◌,
  length, any, retain, if◌then◌else◌,
}
use ubu_orchestrator.Base.Order.{str_lt}
use ubu_orchestrator.Base.Sort.{sort_by}
use ubu_orchestrator.Errors.{
  not_found, Result, ok, err, ◌>>◌ as ◌then◌, bad_request_diagnostic, conflict_diagnostic,
}
use ubu_orchestrator.Errors.Exec.{Exec, pure, check, lift, total, ◌>>=◌, ◌>>◌}
use ubu_orchestrator.Calendar.Event.{DesiredEvent, same_managed_fields}
use ubu_orchestrator.Calendar.Reconcile.{repair as repair_applied}
use ubu_orchestrator.Calendar.Interaction.{Timestamps}
use ubu_orchestrator.Calendar.Apply.{StoredCalendarResult, ProjectionStatus, result_schema}
use ubu_orchestrator.Calendar.Reconciliation.{
  Reconciliation, CalendarStore, CalendarReconcileResponse, CalendarRepairResponse, Observer,
  observe, find_reconciliation, mark_repaired, has_type, reconciliation_schema, repair_schema,
}

abbrev pub loaded : Option Reconciliation → Result Reconciliation
loaded none = err (not_found "Calendar reconciliation not found")
loaded (some row) =
    if not (str_eq row.schema_version reconciliation_schema)
    then err (
        bad_request_diagnostic "unknown_schema_version"
          "stored record is not a supported Calendar reconciliation")
    else if str_eq row.status "repaired"
    then err (
        conflict_diagnostic "calendar_reconciliation_already_repaired"
          "This Calendar reconciliation has already been repaired; request a new reconciliation")
    else ok row

-- The row, and the checks on it.
unfoldable pub load_reconciliation : String → CalendarStore → Result Reconciliation
unfolding find_reconciliation
load_reconciliation id s = loaded (find_reconciliation id s.reconciliations)

-- The repaired events that replace an applied one with other managed fields.
unfoldable pub updated_events : List DesiredEvent → List DesiredEvent → ℕ
updated_events applied repaired = length (
    retain
      (λ current.
        any
          (λ old.
            str_eq old.external_id current.external_id && not (same_managed_fields old current))
          applied)
      repaired)

unfoldable pub repair_response : String → Reconciliation → CalendarRepairResponse
unfolding updated_events
repair_response id row =
    let repaired = repair_applied row.applied_events row.observed_events in
    record {
      schema_version = repair_schema;
      reconciliation_id = id;
      dropped_events = length row.applied_events - length repaired;
      updated_events = updated_events row.applied_events repaired;
      applied_event_count = length repaired + length row.out_of_range_events;
      remaining_conflicts =
          retain (λ c. has_type "foreign" c || has_type "unrecorded" c) row.conflicts;
    }

abbrev pub id_le : DesiredEvent → DesiredEvent → Bool
id_le a b = not (str_lt b.external_id a.external_id)

unfoldable pub repaired_events : Reconciliation → List DesiredEvent
repaired_events row =
    sort_by id_le (repair_applied row.applied_events row.observed_events ++ row.out_of_range_events)

unfoldable pub repaired_result : Reconciliation → StoredCalendarResult
unfolding repaired_events
repaired_result row = record {
  schema_version = result_schema;
  preview_id = row.preview_id;
  status = ProjectionStatus.applied;
  applied_events = repaired_events row;
  operation_results = [];
  diagnostics = [];
}

-- The two writes of the transaction: the result, and the mark.
unfoldable pub write_repair : String → Reconciliation → CalendarStore → CalendarStore
unfolding repaired_result
write_repair id row s = record {
  tables = record s.tables { results = repaired_result row ∷ s.tables.results };
  reconciliations = mark_repaired id s.reconciliations;
}

-- The transaction commits, or gives the error and leaves the store as it was.
unfoldable pub repair : String → Result (Unit {0}) → Exec CalendarStore CalendarRepairResponse
unfolding load_reconciliation repair_response write_repair
repair id commits = do
  row ← check (load_reconciliation id)
  lift commits
  total (λ s. (write_repair id row s, tt))
  pure (repair_response id row)

module _ (ts : Timestamps) (timestamp_at : ℕ → Option String) where
  unfoldable pub reconcile : Observer ts timestamp_at → Exec CalendarStore CalendarReconcileResponse
  unfolding observe
  reconcile o = do
    row ← check (λ s. observe ts timestamp_at o s.tables.results)
    lift o.inserts
    total (λ s. (record s { reconciliations = (o.reconciliation_id, row) ∷ s.reconciliations }, tt))
    pure (record {
      schema_version = reconciliation_schema;
      reconciliation_id = o.reconciliation_id;
      status = row.status;
      conflicts = row.conflicts;
      diagnostics = row.diagnostics;
    })
