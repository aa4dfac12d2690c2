-- ===== src/Examples/Gestures.antt =====
-- An owned event whose end was dragged: the Task's duration is edited and the event accepted.
use ubu_orchestrator.Base.{
  str_eq, false, ◌&&◌, none, some, List, [], ◌∷◌, ◌≡◌, refl, is_some, if◌then◌else◌,
}
use ubu_orchestrator.Base.Int.{pos, ◌-ℤ◌}
use ubu_orchestrator.Errors.{ok, err, not_found}
use ubu_orchestrator.Errors.Exec.{◌>>=◌}
use ubu_orchestrator.Calendar.Event.{DesiredEvent}
use ubu_orchestrator.Calendar.Diff.{contains}
use ubu_orchestrator.Calendar.Interaction.{
  Timestamps, with_id, replace_first, accept_observation, detect, detect_window_gestures, gesture,
  window_gesture, resize_of, changed, same_window, seconds_of, parse_range, completes, reopens_one,
  left_static_window,
}
use ubu_orchestrator.Calendar.Interaction.Owned.{OwnedTask, own, observed_from, observed_owned}
use ubu_orchestrator.Calendar.Gestures.{
  Host, MovableTask, Applying, accept, attempt, each, apply_resize,
}
use ubu_orchestrator.Calendar.Gestures.Applied.{
  move_one, resize_one, complete_one, reopen_one, apply,
}
use ubu_orchestrator.Calendar.Gestures.Accepted.{apply_lem}
use ubu_orchestrator.Examples.Calendars.{event, texts}
use ubu_orchestrator.Examples.Actions.{counting}

abbrev pub clock : Timestamps
clock = record texts { same = str_eq }

abbrev pub owned_task : OwnedTask
owned_task = record {
  id = "task_aaaaa";
  object_type = "Task";
  status = "active";
  has_static_window = false;
  static_window = none;
  source_kind = none;
  seconds = some 60;
  mode_seconds = none;
  duration_seconds = 0;
  routine_objective_id = none;
  latest_completion = none;
}

abbrev pub movable : MovableTask
movable = record {
  id = "task_aaaaa";
  version = 1;
  status = "active";
  occurrence = none;
  has_static_window = false;
  created_at = none;
}

abbrev pub host : Host clock counting
host = record {
  get_current_state = λ w id. ok (some owned_task);
  movable = λ id w. ok (some movable);
  change_override = λ o r s w. (w, ok []);
  edit = λ id v e w. ((w.0, 9), ok tt);
  append_move_entry = λ t m w. (w, ok tt);
  planning_range = λ w. err (not_found "no range");
  planning_horizon_seconds = 0;
  planning_now = λ w. pos 2000;
}

abbrev before : List DesiredEvent
before = event "aaaaa" "2026-09-25T09:00:00Z" ∷ event "bbbbb" "2026-09-25T09:00:00Z" ∷ []

abbrev seen : List DesiredEvent
seen = event "aaaaa" "2026-09-25T10:00:00Z" ∷ []

abbrev after : Applying
after = record {
  applied = event "aaaaa" "2026-09-25T10:00:00Z" ∷ event "bbbbb" "2026-09-25T09:00:00Z" ∷ [];
  result = record { changed_external_ids = "aaaaa" ∷ []; moved = 0; resized = 1; diagnostics = [] };
}

apply_run : apply clock counting host seen before (0, 0) ≡ ((0, 9), ok after)
unfolding apply observed_owned observed_from own detect gesture completes reopens_one
    detect_window_gestures window_gesture resize_of changed same_window seconds_of parse_range
    left_static_window ◌-ℤ◌ each move_one resize_one complete_one reopen_one attempt apply_resize
    accept accept_observation replace_first contains ◌>>=◌
apply_run = refl

apply_lem_example : with_id "aaaaa" after.applied ≡ (
    if contains ("aaaaa" ∷ []) "aaaaa"
      && (is_some (with_id "aaaaa" before) && is_some (with_id "aaaaa" seen))
    then with_id "aaaaa" seen
    else with_id "aaaaa" before)
apply_lem_example = apply_lem clock counting host seen before (0, 0) (0, 9) after apply_run "aaaaa"
