-- ===== src/Examples/Actions.antt =====
-- Actions on one completed Task, in a world that counts what is written.
use ubu_orchestrator.Base.{
  ℕ, ◌+◌, true, false, none, some, [], ◌∷◌, ◌≡◌, refl, inr, ◌==◌, if◌then◌else◌,
}
use ubu_orchestrator.Errors.{ok}
use ubu_orchestrator.Errors.Exec.{◌>>=◌}
use ubu_orchestrator.Calendar.Apply.{AuthoritySource}
use ubu_orchestrator.Tasks.Record.{
  Env, missing, Payload, StoredObject, TaskForTransition, CompletionRecord, is_from_calendar_event,
  ActionKind, complete, snooze, active, completed, load_task, as_task, persist_task_transition,
  append_task_decision, apply_completed_transition, authority_for_recorded_action,
  validate_schema_version, task_status_from_wire, has_effects, action_schema_version,
}
use ubu_orchestrator.Tasks.Action.{
  ActionRequest, ActionResponse, check_calendar, effects_once, transition,
  record_task_action_with_calendar,
}
use ubu_orchestrator.Tasks.Guards.{
  Allows, is_transition, record_task_action-Allows, record_task_action-Fixes,
}
use ubu_orchestrator.Tasks.Reopen.{
  ReopenSignal, reopen_calendar_completion, reopen_if_latest, reopen_task, reopen_completion,
  ensure_latest,
}
use ubu_orchestrator.Tasks.Lifecycle.{
  Undone, reopen_completion-Undone, reopen_calendar_completion-false,
}
use ubu_orchestrator.Tasks.Once.{effects_applied_once}

abbrev pub payload : Payload
payload = record {
  status = "completed";
  moot_reason_code = none;
  occurrence = missing;
  static_window = missing;
  source_kind = none;
  has_effects_field = true;
  mutations = some 1;
}

abbrev pub task : StoredObject
task = record {
  id = "task_aaaaa";
  object_type = "Task";
  status = "completed";
  payload = payload;
  version = 2;
}

abbrev pub completion : CompletionRecord
completion = record {
  log_id = "log_1";
  recorded_at = "2026-09-25T09:00:00Z";
  source_kind = none;
  source_id = none;
  has_observed_window = false;
  observed_seconds = none;
}

abbrev pub reopened : StoredObject
reopened = record task { status = "active" }

-- The Task is completed until the first admission, and active after it.
-- The world is the number of admissions and the universe state, a number too.
abbrev pub counting : Env
counting = record {
  World = ℕ × ℕ;
  get_current_state = λ id w. ok (some (if w.0 == 0 then task else reopened));
  latest_completion = λ id w. ok (some completion);
  admit_object = λ t a w. ((w.0 + 1, w.1), ok (t.status, t.version + 1));
  append_log_entry = λ t d refs a w. (w, ok "log_2");
  Mutation = Unit {0};
  Universe = ℕ;
  task_mutations = λ t. ok (tt ∷ []);
  validate_mutations_for_mode = λ ms. none;
  read_current_universe_state = λ w. ok (some (w.1, 1));
  admit_seed = λ t a w. (w, ok tt);
  apply_universe_mutations = λ u ms. inr (u + 1);
  persist_universe_state = λ t v u a w. ((w.0, u), ok tt);
  parse_range = λ a b. none;
}

effects_applied_once_example :
    (record_task_action_with_calendar counting "task_aaaaa"
      (record { schema_version = some action_schema_version; action = complete; note = none })
      none
      (1, 7)).0.1
    ≡ 7
effects_applied_once_example =
    effects_applied_once counting (λ w. w.1) (λ t a s. refl) (λ t d refs a s. refl)
      (λ t a id s. refl) "task_aaaaa"
      (record { schema_version = some action_schema_version; action = complete; note = none }) none
      (1, 7) reopened completion refl refl refl

reopen_completion-Undone_example : Undone counting "task_aaaaa" "log_1" (0, 7)
unfolding reopen_completion reopen_task ensure_latest load_task as_task persist_task_transition
    append_task_decision task_status_from_wire has_effects ◌>>=◌
reopen_completion-Undone_example =
    reopen_completion-Undone counting "task_aaaaa" "log_1" (0, 7) (1, 7)
      (record {
        log_id = "log_2";
        task_id = "task_aaaaa";
        completion_log_id = "log_1";
        task_status = active;
        diagnostics =
            record {
              code = "reopen_effects_not_reversed";
              message =
                  "The Task is active again. The effects it applied when it completed were not reversed, and will not be applied a second time if it is completed again";
            }
            ∷ [];
      })
      refl

abbrev signal : ReopenSignal
signal = record { task_id = "task_aaaaa"; external_id = "aaaaa"; completion_log_id = "log_1" }

reopen_calendar_completion-false_example : Path (ℕ × ℕ) (0, 7) (0, 7)
unfolding reopen_calendar_completion reopen_if_latest is_from_calendar_event load_task as_task ◌>>=◌
reopen_calendar_completion-false_example =
    reopen_calendar_completion-false counting signal (0, 7) (0, 7) refl

abbrev request : ActionKind → ActionRequest
request kind = record { schema_version = some action_schema_version; action = kind; note = none }

abbrev again : ActionResponse
again = record {
  log_id = "log_2";
  task_id = "task_aaaaa";
  action = complete;
  task_status = completed;
  authority_source = AuthoritySource.user;
  transition_applied = true;
  note = none;
  diagnostics =
      record {
        code = "task_effects_already_applied";
        message =
            "Task `task_aaaaa` completed before, so its recorded effects were not applied a second time";
      }
      ∷ [];
}

record_task_action-Allows_example :
    (t : TaskForTransition) × (load_task counting "task_aaaaa" (1, 7) ≡ ((1, 7), ok t))
    × Allows complete t
    × (again.transition_applied ≡ is_transition complete)
unfolding record_task_action_with_calendar validate_schema_version load_task as_task check_calendar
    transition apply_completed_transition persist_task_transition effects_once has_effects
    task_status_from_wire append_task_decision authority_for_recorded_action ◌>>=◌
record_task_action-Allows_example =
    record_task_action-Allows counting "task_aaaaa" (request complete) none (1, 7) (2, 7) again refl

record_task_action-Fixes_example :
    (record_task_action_with_calendar counting "task_aaaaa" (request snooze) none (0, 7)).0.0 ≡ 0
record_task_action-Fixes_example =
    record_task_action-Fixes counting (λ w. w.0) (λ t d refs a s. refl) "task_aaaaa"
      (request snooze) none refl (0, 7)
