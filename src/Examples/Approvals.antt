-- ===== src/Examples/Approvals.antt =====
-- Approvals against a calendar that accepts every operation, and one whose log fails.
use ubu_orchestrator.Base.{
  Bool, true, none, false, some, List, [], ◌∷◌, ◌≡◌, refl, map, if◌then◌else◌,
}
use ubu_orchestrator.Base.Order.{str_ord, str_lt}
use ubu_orchestrator.Base.TreeMap.{get, insert, collect, collect_into, values}
use ubu_orchestrator.Errors.{internal, Result, ok, err}
use ubu_orchestrator.Errors.Exec.{◌>>=◌}
use ubu_orchestrator.Calendar.Event.{DesiredEvent, by_external_id}
use ubu_orchestrator.Calendar.Diff.{
  CalendarOperation, contains, pending, obsolete, diff, land, land_all,
}
use ubu_orchestrator.Calendar.Apply.{
  Env, Tables, StoredCalendarPreview, StoredCalendarResult, OperationStatus, ProjectionStatus,
  automation_worker, preview_schema, result_schema, is_landed, last_applied_events, find_preview,
  load_preview, lower_operation, ensure_permit_matches, result_status, prepare,
}
use ubu_orchestrator.Calendar.Apply.Approve.{
  State, dispatch, settle, perform, round, run, finish, start, persist_with, persist_result,
  approve,
}
use ubu_orchestrator.Calendar.Apply.Landed.{accepted}
use ubu_orchestrator.Calendar.Apply.Outcome.{approve_result, approve_converges, approve_error}
use ubu_orchestrator.Examples.Calendars.{event}

-- The log's answer is the parameter.
abbrev pub calendar : Result (Unit {0}) → Env
calendar logged = record {
  World = Unit {0};
  available = λ w. ok tt;
  connects = λ w. ok tt;
  persists = λ w. ok tt;
  insert_event = λ e w. (w, none);
  patch_event = λ e w. (w, none);
  delete_event = λ id w. (w, none);
  take_diagnostics = λ w. (w, []);
  gate = λ core policy authority w. record {
    permit =
        some (record { operation_id = core.operation_id; authority_source = automation_worker });
    reason = "";
  };
  append_boundary_log = λ id core w. (w, logged);
}

abbrev wanted : List DesiredEvent
wanted = event "aaaaa" "2026-09-25T09:00:00Z" ∷ []

abbrev stored : StoredCalendarPreview
stored = record {
  schema_version = preview_schema;
  preview_id = "p";
  plan_id = none;
  stale = false;
  desired_events = wanted;
  no_external_export = none;
  existing_events = [];
  operations = CalendarOperation.create (event "aaaaa" "2026-09-25T09:00:00Z") ∷ [];
}

abbrev before : Tables
before = record { previews = ("p", stored) ∷ []; results = [] }

abbrev result : StoredCalendarResult
result = record {
  schema_version = result_schema;
  preview_id = "p";
  status = ProjectionStatus.applied;
  applied_events = wanted;
  operation_results =
      record {
        operation_id = "calendar-create-aaaaa";
        status = OperationStatus.applied;
        message = none;
      }
      ∷ [];
  diagnostics = [];
}

abbrev pub good : Env
good = calendar (ok tt)

abbrev at : (env : Env) → env.World → Tables → State env
at env w t = record { world = w; tables = t }

approved :
    approve good "p" (at good tt before)
    ≡ (at good tt (record before { results = result ∷ [] }), ok result)
unfolding approve prepare load_preview find_preview last_applied_events run round perform dispatch
    settle finish start persist_result persist_with lower_operation ensure_permit_matches
    result_status land by_external_id collect collect_into insert str_lt ◌>>=◌
approved = refl

approve_result_example :
    (last_applied_events [] ≡ [])
    × (map (λ r. r.operation_id) result.operation_results
        ≡ map (λ o. (lower_operation o).operation_id) stored.operations)
    × (result.status ≡ result_status result.operation_results)
    × (result.applied_events
        ≡ values (
            land_all
              (accepted stored.operations result.operation_results)
              (by_external_id (last_applied_events []))))
    × (last_applied_events (result ∷ [])
        ≡ (if is_landed result.status then result.applied_events else last_applied_events []))
    × (record before { results = result ∷ [] } ≡ record before { results = result ∷ [] })
unfolding load_preview find_preview
approve_result_example =
    approve_result good "p" (at good tt before)
      (at good tt (record before { results = result ∷ [] })) stored result refl approved

approve_converges_example : diff wanted (last_applied_events (result ∷ [])) [] ≡ []
unfolding load_preview find_preview diff pending obsolete by_external_id collect collect_into insert
    get contains
approve_converges_example =
    approve_converges good "p" (at good tt before)
      (at good tt (record before { results = result ∷ [] })) stored result wanted [] refl refl
      approved refl

-- A log that closes once an event has been created: the world is whether it is closed.
abbrev broken : Env
broken = record {
  World = Bool;
  available = λ w. ok tt;
  connects = λ w. ok tt;
  persists = λ w. ok tt;
  insert_event = λ e w. (true, none);
  patch_event = λ e w. (w, none);
  delete_event = λ id w. (w, none);
  take_diagnostics = λ w. (w, []);
  gate = λ core policy authority w. record {
    permit =
        some (record { operation_id = core.operation_id; authority_source = automation_worker });
    reason = "";
  };
  append_boundary_log = λ id core w. (w, if w then err (internal "the log is closed") else ok tt);
}

-- Two events to create, of which the first lands before the error.
abbrev both : Tables
both = record {
  previews =
      (
        "p",
        record stored {
          operations =
              CalendarOperation.create (event "aaaaa" "2026-09-25T09:00:00Z")
              ∷ CalendarOperation.create (event "bbbbb" "2026-09-25T10:00:00Z")
              ∷ [];
        },
      )
      ∷ [];
  results = [];
}

approve_error_example : both ≡ both
unfolding approve prepare load_preview find_preview last_applied_events run round start perform
    dispatch settle lower_operation ensure_permit_matches ◌>>=◌
approve_error_example =
    approve_error broken "p" (at broken false both) (at broken true both)
      (internal "the log is closed") refl

abbrev after : Tables
after = record before { results = result ∷ [] }
