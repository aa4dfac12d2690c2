-- ===== src/Calendar/Apply/Approve.antt =====
-- `approve` of src/services/calendar_apply.rs: the guards, the loop over the stored operations, and
-- the recorded result.
use ubu_orchestrator.Base.{String, Bool, Option, none, some, List, [], ◌∷◌, ◌++◌}
use ubu_orchestrator.Base.Order.{str_ord}
use ubu_orchestrator.Base.TreeMap.{values}
use ubu_orchestrator.Errors.{Result, ok, err}
use ubu_orchestrator.Errors.Exec.{Exec, pure, check, lift, total, reads, ◌>>=◌, ◌>>◌}
use ubu_orchestrator.Calendar.Event.{DesiredEvent, Events, by_external_id}
use ubu_orchestrator.Calendar.Capture.{DiagnosticBody, ◌<>◌}
use ubu_orchestrator.Calendar.Diff.{CalendarOperation, land}
use ubu_orchestrator.Calendar.Apply.{
  Env, Tables, StoredCalendarResult, OperationResult, OperationStatus, ProjectionOperation,
  ExportPermit, GateDecision, automation_worker, last_applied_events, lower_operation,
  ensure_permit_matches, prepare, result_status, result_schema,
}

module _ (env : Env) where
  open env use {
    World, available, connects, persists, insert_event, patch_event, delete_event, take_diagnostics,
    gate, append_boundary_log,
  }

  -- The variables of the loop.
  pub record Progress : Type 0 where
    pub landed : Events
    pub operation_results : List OperationResult
    pub diagnostics : List DiagnosticBody

  pub record State : Type 0 where
    pub world : World
    pub tables : Tables

  abbrev on_world : {A : Type 0} → (World → World × A) → State → State × A
  on_world f s = let (w, a) = f s.world in (record s { world = w }, a)

  unfoldable pub dispatch : CalendarOperation → World → World × Option String
  dispatch (CalendarOperation.create event) = insert_event event
  dispatch (CalendarOperation.update event) = patch_event event
  dispatch (CalendarOperation.delete id summary) = delete_event id

  -- The gate gave no permit.
  unfoldable pub skip : ProjectionOperation → String → Progress → Progress
  skip core message p = record p {
    diagnostics =
        p.diagnostics ++ (record { code = "calendar_export_rejected"; message = message } ∷ []);
    operation_results =
        p.operation_results
        ++ (record {
          operation_id = core.operation_id;
          status = OperationStatus.skipped;
          message = some message;
        }
            ∷ []);
  }

  -- The client's answer, after the diagnostics that it left.
  unfoldable pub settle :
      CalendarOperation
      → ProjectionOperation
      → List DiagnosticBody
      → Option String
      → Progress
      → Progress
  settle operation core left none p = record {
    landed = land operation p.landed;
    diagnostics = p.diagnostics ++ left;
    operation_results =
        p.operation_results
        ++ (record {
          operation_id = core.operation_id;
          status = OperationStatus.applied;
          message = none;
        }
            ∷ []);
  }
  settle operation core left (some message) p = record p {
    diagnostics =
        (p.diagnostics ++ left)
        ++ (record {
          code = "calendar_operation_failed";
          message = core.operation_id <> ": " <> message;
        }
            ∷ []);
    operation_results =
        p.operation_results
        ++ (record {
          operation_id = core.operation_id;
          status = OperationStatus.failed;
          message = some message;
        }
            ∷ []);
  }

  -- Dispatch under a permit, which must be for this operation; or no permit.
  unfoldable pub perform :
      CalendarOperation
      → ProjectionOperation
      → GateDecision
      → Option ExportPermit
      → Progress
      → Exec State Progress
  unfolding dispatch settle skip
  perform operation core decision none p = pure (skip core decision.reason p)
  perform operation core decision (some permit) p = do
    lift (ensure_permit_matches permit core)
    answer ← total (on_world (dispatch operation))
    left ← total (on_world take_diagnostics)
    pure (settle operation core left answer p)

  -- One round of the loop. An error ends `approve`; what the client and the log did stays done.
  unfoldable pub round : String → Option Bool → CalendarOperation → Progress → Exec State Progress
  unfolding perform
  round preview_id policy operation p = do
    let core = lower_operation operation
    decision ← reads (λ s. gate core policy automation_worker s.world)
    on_world (append_boundary_log preview_id core)
    perform operation core decision decision.permit p

  unfoldable pub run :
      String → Option Bool → List CalendarOperation → Progress → Exec State Progress
  run preview_id policy [] p = pure p
  run preview_id policy (operation ∷ operations) p =
      round preview_id policy operation p >>= run preview_id policy operations

  unfoldable pub finish : String → Progress → StoredCalendarResult
  finish preview_id p = record {
    schema_version = result_schema;
    preview_id = preview_id;
    status = result_status p.operation_results;
    applied_events = values p.landed;
    operation_results = p.operation_results;
    diagnostics = p.diagnostics;
  }

  unfoldable pub start : List DesiredEvent → Progress
  start existing = record {
    landed = by_external_id existing;
    operation_results = [];
    diagnostics = [];
  }

  -- The new row is the newest, unless the insert fails.
  unfoldable pub persist_with :
      StoredCalendarResult → State → Result (Unit {0}) → State × Result (Unit {0})
  persist_with result s (ok _) =
      (record s { tables = record s.tables { results = result ∷ s.tables.results } }, ok tt)
  persist_with result s (err e) = (s, err e)

  unfoldable pub persist_result : StoredCalendarResult → Exec State (Unit {0})
  unfolding persist_with
  persist_result result s = persist_with result s (persists s.world)

  unfoldable pub approve : String → Exec State StoredCalendarResult
  unfolding run finish start persist_result
  approve preview_id = do
    stored ← check (λ s. prepare env preview_id s.world s.tables)
    existing ← reads (λ s. last_applied_events s.tables.results)
    p ← run preview_id stored.no_external_export stored.operations (start existing)
    let result = finish preview_id p
    persist_result result
    pure result
