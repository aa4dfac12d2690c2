-- ===== src/Examples/Histories.antt =====
-- A store that is previewed and approved, and one whose repaired reconciliation is tried again; and
-- the payload of a captured Task.
use ubu_orchestrator.Base.{ℕ, ◌+◌, ◌≤◌, true, false, none, some, [], ◌≡◌, refl, map, length}
use ubu_orchestrator.Errors.{ok, err, conflict_diagnostic}
use ubu_orchestrator.Calendar.Apply.Approve.{approve}
use ubu_orchestrator.Calendar.Apply.{last_applied_events}
use ubu_orchestrator.Calendar.Intake.{CapturedTask, dynamic, plan_capture}
use ubu_orchestrator.Calendar.Preview.{id_set}
use ubu_orchestrator.Calendar.Preview.Stored.{preview}
use ubu_orchestrator.Calendar.Reconciliation.Stored.{repair, repair_response}
use ubu_orchestrator.Calendar.Admission.{TaskPayload, merge_payload, not_captured}
use ubu_orchestrator.Calendar.Admission.Captured.{CaptureHost}
use ubu_orchestrator.Calendar.Admission.Merged.{
  HasOneForm, HasTagged, HasPlacement, merge_payload_lem,
}
use ubu_orchestrator.Calendar.Admission.Counted.{not_captured_bound}
use ubu_orchestrator.Calendar.History.{CalendarState, previewed, approved, elsewhere, here, next}
use ubu_orchestrator.Calendar.History.Sound.{IsSoundStore, Reach-IsSound}
use ubu_orchestrator.Calendar.History.Repaired.{repaired_once}
use ubu_orchestrator.Tasks.Record.{missing, value}
use ubu_orchestrator.Examples.Actions.{counting}
use ubu_orchestrator.Examples.Approvals.{good}
use ubu_orchestrator.Examples.Calendars.{written, observed}
use ubu_orchestrator.Examples.Gestures.{clock, host}
use ubu_orchestrator.Examples.Previews.{plan}
use ubu_orchestrator.Examples.Reconciliations.{row, before, after, repaired}

abbrev payload : TaskPayload ℕ
payload = record {
  title = some "Lunch";
  description = none;
  static_window = value ("2026-09-25T09:00:00Z", "2026-09-25T12:00:00Z");
  duration_estimate = missing;
  occupies_capacity = some true;
  category_tag = none;
  tags = [];
  rest = 0;
}

abbrev task : CapturedTask
task = record {
  task_id = some "task_aaaaa";
  origin_event_id = "aaaaa";
  title = "Lunch out";
  description = some "With Ada";
  start_at = "2026-09-25T09:00:00Z";
  end_at = "2026-09-25T12:00:00Z";
  placement = dynamic 3600;
  occupies_capacity = true;
  category_tag = some "personal";
}

merge_payload_lem_example :
    HasOneForm ℕ (merge_payload ℕ (λ s. false) task payload)
    × HasTagged ℕ (merge_payload ℕ (λ s. false) task payload)
    × HasPlacement ℕ task (dynamic 3600) (merge_payload ℕ (λ s. false) task payload)
merge_payload_lem_example = merge_payload_lem ℕ (λ s. false) task payload refl

not_captured_bound_example :
    (length (plan_capture clock written (λ s. false) (λ id d. (none, none)) [] [] observed []).0
      ≤ length (id_set (map (λ e. e.external_id) observed)))
    × (not_captured observed
            (plan_capture clock written (λ s. false) (λ id d. (none, none)) [] [] observed []).0
          + length
              (plan_capture clock written (λ s. false) (λ id d. (none, none)) [] [] observed []).0
        ≡ length (id_set (map (λ e. e.external_id) observed)))
not_captured_bound_example =
    not_captured_bound clock written (λ s. false) (λ id d. (none, none)) [] [] observed []

abbrev capture_host : CaptureHost ℕ clock written counting host
capture_host = record {
  available = λ w. ok tt;
  connects = λ w. ok tt;
  list_events = λ applied range w. (w, ok observed);
  take_diagnostics = λ w. (w, []);
  describe = λ event. (event, []);
  is_too_large = λ d. false;
  take_ubu_created_ids = λ w. (w, []);
  active_tasks = λ w. [];
  by_source = λ w. ok [];
  palette_inverse = λ w. [];
  is_blank = λ s. false;
  capture_description = λ id d. (none, none);
  parse_id = λ id. ok id;
  new_id = λ w. (w, "task_ccccc");
  new_payload = λ id source w. payload;
  same_payload = λ a b. false;
  validate = λ p. ok tt;
  admit = λ id version previous p w. (w, ok tt);
  persists = λ w. ok tt;
  preview_id = λ w. "q";
}

abbrev begun : CalendarState ℕ clock written counting host capture_host good
begun = record {
  calendar_world = tt;
  task_world = (0, 0);
  store = record { tables = record { previews = []; results = [] }; reconciliations = [] };
}

abbrev with_preview : CalendarState ℕ clock written counting host capture_host good
with_preview = record begun {
  store = record begun.store { tables = (preview plan clock written false begun.store.tables).0 };
}

abbrev with_approval : CalendarState ℕ clock written counting host capture_host good
with_approval = record with_preview {
  calendar_world =
      (approve good "p" (record { world = tt; tables = with_preview.store.tables })).0.world;
  store = record with_preview.store {
    tables =
        (approve good "p" (record { world = tt; tables = with_preview.store.tables })).0.tables;
  };
}

begun-IsSound : IsSoundStore begun.store
unfolding last_applied_events
begun-IsSound = record { applied = tt; rows = tt }

Reach-IsSound_example : IsSoundStore with_approval.store
Reach-IsSound_example =
    Reach-IsSound ℕ clock written counting host capture_host good {s = begun} {t = with_approval}
      begun-IsSound (next (next here (previewed plan false refl)) (approved "p" refl))

abbrev at_repair : CalendarState ℕ clock written counting host capture_host good
at_repair = record begun { store = after }

abbrev later : CalendarState ℕ clock written counting host capture_host good
later = record at_repair { task_world = (3, 3) }

repaired_once_example : repair "rec" (ok tt) after ≡ (
  after,
  err (
      conflict_diagnostic "calendar_reconciliation_already_repaired"
        "This Calendar reconciliation has already been repaired; request a new reconciliation"),
)
repaired_once_example =
    repaired_once ℕ clock written counting host capture_host good {s = at_repair} {t = later} "rec"
      (ok tt) (ok tt) (repair_response "rec" row) before repaired
      (next here (elsewhere tt (3, 3) refl))
