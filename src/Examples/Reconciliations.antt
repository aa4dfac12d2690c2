-- ===== src/Examples/Reconciliations.antt =====
-- One stored reconciliation: of two applied events in range one was moved by hand and one deleted, an
-- event of another owner was seen, and one applied event lies out of range.
use ubu_orchestrator.Base.{
  ◌+◌, String, str_eq, false, none, some, [], ◌∷◌, ◌≡◌, ◌≢◌, ◌↔◌, refl, length, if◌then◌else◌,
}
use ubu_orchestrator.Base.Order.{str_ord}
use ubu_orchestrator.Base.TreeMap.{get}
use ubu_orchestrator.Errors.{ok}
use ubu_orchestrator.Errors.Exec.{◌>>=◌}
use ubu_orchestrator.Calendar.Event.{by_external_id}
use ubu_orchestrator.Calendar.Reconcile.{owns, classify, repair as repair_applied}
use ubu_orchestrator.Calendar.Reconcile.Kinds.{kind_of}
use ubu_orchestrator.Calendar.Apply.{last_applied_events}
use ubu_orchestrator.Calendar.Reconciliation.{
  Reconciliation, CalendarStore, find_reconciliation, reconciliation_schema, status_of,
}
use ubu_orchestrator.Calendar.Reconciliation.Stored.{
  load_reconciliation, repair_response, repaired_events, write_repair, repair,
}
use ubu_orchestrator.Calendar.Reconciliation.Once.{repair_lem}
use ubu_orchestrator.Calendar.Reconciliation.Sound.{IsSound, get-repaired_events}
use ubu_orchestrator.Calendar.Reconciliation.Status.{IsLost, status_of_iff}
use ubu_orchestrator.Examples.Calendars.{event, applied, observed}

abbrev pub row : Reconciliation
row = record {
  status = "drifted";
  schema_version = reconciliation_schema;
  preview_id = "p";
  applied_events = applied;
  out_of_range_events = event "ddddd" "2026-10-25T09:00:00Z" ∷ [];
  observed_events = observed;
  known_external_ids = [];
  conflicts = [];
  diagnostics = [];
}

abbrev pub before : CalendarStore
before = record {
  tables = record { previews = []; results = [] };
  reconciliations = ("rec", row) ∷ [];
}

abbrev pub after : CalendarStore
after = write_repair "rec" row before

pub repaired : repair "rec" (ok tt) before ≡ (after, ok (repair_response "rec" row))
unfolding repair load_reconciliation find_reconciliation ◌>>=◌
repaired = refl

repair_lem_example :
    (row' : Reconciliation) × (find_reconciliation "rec" before.reconciliations ≡ some row')
    × (row'.status ≢ "repaired")
    × (last_applied_events (write_repair "rec" row before).tables.results ≡ repaired_events row')
    × (length (last_applied_events (write_repair "rec" row before).tables.results)
        ≡ (repair_response "rec" row).applied_event_count)
    × ((repair_response "rec" row).dropped_events
          + length (repair_applied row'.applied_events row'.observed_events)
        ≡ length row'.applied_events)
    × ((write_repair "rec" row before).tables.previews ≡ before.tables.previews)
    × ((j : String)
        → str_eq j "rec" ≡ false
        → find_reconciliation j (write_repair "rec" row before).reconciliations
          ≡ find_reconciliation j before.reconciliations)
repair_lem_example = repair_lem "rec" (ok tt) (repair_response "rec" row) before after repaired

row-IsSound : IsSound row
row-IsSound = record {
  applied = ((refl, tt), (tt, tt));
  out_of_range = (tt, tt);
  apart = ((refl, tt), ((refl, tt), tt));
}

get-repaired_events_example : get "ddddd" (by_external_id (repaired_events row)) ≡ (
    if owns applied "ddddd"
    then get "ddddd" (by_external_id observed)
    else get "ddddd" (by_external_id row.out_of_range_events))
get-repaired_events_example = get-repaired_events row "ddddd" row-IsSound

status_of_iff_example :
    ((status_of (classify applied observed [] []) ≡ "drifted")
      ↔ ((id : String) × IsLost (kind_of applied observed [] id)))
    × ((status_of (classify applied observed [] []) ≡ "matched")
        ↔ ((id : String) → kind_of applied observed [] id ≡ none))
status_of_iff_example = status_of_iff applied observed [] []
