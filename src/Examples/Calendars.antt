-- ===== src/Examples/Calendars.antt =====
-- A small calendar: two events applied, of which one was moved by hand and one was deleted, and one
-- event of another owner.
use ubu_orchestrator.Base.{
  ℕ, ltb, String, str_eq, true, false, Option, none, some, List, [], ◌∷◌, ◌≡◌, refl, All, Any,
  if◌then◌else◌,
}
use ubu_orchestrator.Base.Order.{str_ord, str_lt}
use ubu_orchestrator.Base.TreeMap.{get, insert, collect, collect_into}
use ubu_orchestrator.Base.Sort.{Pairwise}
use ubu_orchestrator.Base.Int.{pos}
use ubu_orchestrator.Calendar.Event.{DesiredEvent, by_external_id}
use ubu_orchestrator.Calendar.Diff.{contains}
use ubu_orchestrator.Calendar.Capture.{DiagnosticBody, ◌<>◌}
use ubu_orchestrator.Calendar.Reconcile.{classify, repair}
use ubu_orchestrator.Calendar.Reconcile.Kinds.{kind_of, IsReport, classify_sound, classify_complete}
use ubu_orchestrator.Calendar.Reconcile.Repair.{IsRemaining, classify-repair}
use ubu_orchestrator.Calendar.Interaction.{Timestamps, ObservedOwned, detect}
use ubu_orchestrator.Calendar.Interaction.Detected.{IsCompleting, IsReopening, detect_sound}
use ubu_orchestrator.Calendar.Interaction.{detect_window_gestures}
use ubu_orchestrator.Calendar.Interaction.Windows.{IsMoved, IsResized, detect_window_gestures_sound}
use ubu_orchestrator.Calendar.Intake.{plan_capture}
use ubu_orchestrator.Calendar.Intake.Counts.{OtherEvent, IsFrom, plan_capture_lem}

abbrev pub event : String → String → DesiredEvent
event id start = record {
  external_id = id;
  task_id = "task_" <> id;
  summary = "Write";
  description = none;
  start_at = start;
  end_at = "2026-09-25T12:00:00Z";
  color_id = none;
  transparent = false;
  reminders_minutes = [];
}

abbrev pub applied : List DesiredEvent
applied = event "aaaaa" "2026-09-25T09:00:00Z" ∷ event "bbbbb" "2026-09-25T10:00:00Z" ∷ []

abbrev pub observed : List DesiredEvent
observed = event "aaaaa" "2026-09-25T11:00:00Z" ∷ event "ccccc" "2026-09-25T10:00:00Z" ∷ []

classify_sound_example :
    All
      (λ c. kind_of applied observed [] c.external_id ≡ some c.conflict_type)
      (classify applied observed [] [])
classify_sound_example = classify_sound applied observed [] []

classify_complete_example : Any (IsReport "bbbbb" "missing") (classify applied observed [] [])
unfolding by_external_id collect collect_into get insert contains str_lt
classify_complete_example = classify_complete applied observed [] [] "bbbbb" "missing" refl

classify-repair_example : All IsRemaining (classify (repair applied observed) observed [] [])
classify-repair_example = classify-repair applied observed [] []

-- Instants that are the texts themselves: noon, and one earlier instant.
abbrev pub texts : Timestamps
texts = record {
  Instant = String;
  parse = λ s. some s;
  same = λ a b. true;
  before = λ a b. true;
  unix_timestamp = λ s. if str_eq s "2026-09-25T12:00:00Z" then pos 2000 else pos 1000;
}

abbrev pub owned : List ObservedOwned
owned =
    record {
      event = record (event "aaaaa" "2026-09-25T09:00:00Z") { color_id = some "2" };
      task_id = "task_aaaaa";
      status = "active";
      is_static = false;
      is_captured = false;
      static_window = none;
      declared_duration_seconds = 60;
      routine_objective_id = none;
      applied_window = ("2026-09-25T09:00:00Z", "2026-09-25T12:00:00Z");
      exported_uncoloured = true;
      latest_completion = none;
    }
    ∷ []

detect_sound_example :
    All (λ c. Any (IsCompleting c) owned) (detect texts owned (pos 2000)).completions
    × All (λ r. Any (IsReopening r) owned) (detect texts owned (pos 2000)).reopens
detect_sound_example = detect_sound texts owned (pos 2000)

abbrev pub written : ℕ → Option String
written n = if ltb n 1500 then some "2026-09-25T11:00:00Z" else some "2026-09-25T12:00:00Z"

abbrev undescribed : String → Option String → Option String × Option DiagnosticBody
undescribed id d = (none, none)

plan_capture_lem_example :
    Pairwise OtherEvent (plan_capture texts written (λ s. false) undescribed [] [] observed []).0
    × All
        (λ t. Any (IsFrom t) observed)
        (plan_capture texts written (λ s. false) undescribed [] [] observed []).0
plan_capture_lem_example = plan_capture_lem texts written (λ s. false) undescribed [] [] observed []

detect_window_gestures_sound_example :
    All (λ m. Any (IsMoved texts m) owned) (detect_window_gestures texts owned).moves
    × All (λ r. Any (IsResized texts r) owned) (detect_window_gestures texts owned).resizes
detect_window_gestures_sound_example = detect_window_gestures_sound texts owned
