-- ===== src/Calendar/History.antt =====
-- The Calendar's operations one after another, in any order: the handlers of src/api/calendar_projection.rs
-- and src/api/calendar_reconciliation.rs and the capture take the same lock, so a run of the
-- orchestrator is a sequence of such steps, between which people change the calendar and the Tasks.
pub mod Sound
pub mod Repaired
use ubu_orchestrator.Base.{ℕ, String, Bool, Option, none, ◌≡◌}
use ubu_orchestrator.Errors.{Result}
use ubu_orchestrator.Calendar.Interaction.{Timestamps}
use ubu_orchestrator.Calendar.Apply.{Env}
use ubu_orchestrator.Calendar.Apply.Approve.{approve}
use ubu_orchestrator.Calendar.Reconciliation.{CalendarStore, Observer, find_reconciliation}
use ubu_orchestrator.Calendar.Reconciliation.Stored.{reconcile, repair}
use ubu_orchestrator.Calendar.Preview.{Plan}
use ubu_orchestrator.Calendar.Preview.Stored.{preview}
use ubu_orchestrator.Calendar.Gestures.{Host}
use ubu_orchestrator.Calendar.Admission.Captured.{CaptureHost}
use ubu_orchestrator.Calendar.Admission.Whole.{capture}
use ubu_orchestrator.Tasks.Record.{Env as TasksEnv}

module _ (Json : Type 0) (ts : Timestamps) (timestamp_at : ℕ → Option String) (tasks : TasksEnv)
    (host : Host ts tasks) (capture_host : CaptureHost Json ts timestamp_at tasks host)
    (env : Env) where
  pub record CalendarState : Type 0 where
    pub calendar_world : env.World
    pub task_world : tasks.World
    pub store : CalendarStore

  -- One call, whether it returns a response or an error; or a change by somebody else. The id of a
  -- new reconciliation is not that of a stored one.
  pub data Step (s t : CalendarState) : Type 0 where
    previewed :
        (plan : Plan) (no_external_export : Bool)
        → t ≡ record s {
          store = record s.store {
            tables = (preview plan ts timestamp_at no_external_export s.store.tables).0;
          };
        }
        → Step s t
    approved :
        (preview_id : String)
        → t ≡ record s {
          calendar_world =
              (approve env preview_id
                (record { world = s.calendar_world; tables = s.store.tables })).0.world;
          store = record s.store {
            tables =
                (approve env preview_id
                  (record { world = s.calendar_world; tables = s.store.tables })).0.tables;
          };
        }
        → Step s t
    captured :
        t ≡ record s {
          task_world =
              (capture Json ts timestamp_at tasks host capture_host
                (record { world = s.task_world; tables = s.store.tables })).0.world;
          store = record s.store {
            tables =
                (capture Json ts timestamp_at tasks host capture_host
                  (record { world = s.task_world; tables = s.store.tables })).0.tables;
          };
        }
        → Step s t
    reconciled :
        (o : Observer ts timestamp_at)
        → find_reconciliation o.reconciliation_id s.store.reconciliations ≡ none
        → t ≡ record s { store = (reconcile ts timestamp_at o s.store).0 }
        → Step s t
    repaired :
        (id : String) (commits : Result (Unit {0}))
        → t ≡ record s { store = (repair id commits s.store).0 }
        → Step s t
    elsewhere :
        (calendar : env.World) (changed : tasks.World)
        → t ≡ record s { calendar_world = calendar; task_world = changed }
        → Step s t

  pub data Reach (s : CalendarState) : CalendarState → Type 0 where
    here : Reach s s
    next : {t u : CalendarState} → Reach s t → Step t u → Reach s u
