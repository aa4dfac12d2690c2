-- ===== src/Calendar/Intake.antt =====
-- src/services/calendar_capture.rs: `plan_capture` and `normalize_observed`. The parsing of
-- timestamps is the `Timestamps` of `Calendar.Interaction`; the writing of one
-- (src/planning_time.rs), the test for a blank title, and the description's format
-- (src/services/calendar_wire.rs) are given.
pub mod Counts
use ubu_orchestrator.Base.{
  ℕ, ◌+◌, ◌-◌, String, str_eq, Bool, true, false, not, ◌&&◌, ◌||◌, Option, none, some, List, [],
  ◌∷◌, ◌++◌, any, find, is_some, is_none, if◌then◌else◌,
}
use ubu_orchestrator.Base.Order.{str_ord, str_lt}
use ubu_orchestrator.Base.TreeMap.{TreeMap, get, contains_key}
use ubu_orchestrator.Base.Int.{ℤ, pos, negsuc, ◌-ℤ◌}
use ubu_orchestrator.Calendar.Event.{DesiredEvent}
use ubu_orchestrator.Calendar.Diff.{StringSet, contains}
use ubu_orchestrator.Calendar.Capture.{
  DiagnosticBody, ◌<>◌, not_ownable_diagnostic, occupancy_diagnostic, stale_export_diagnostic,
}
use ubu_orchestrator.Calendar.Interaction.{Timestamps, parse_range}

pub data CapturedPlacement : Type 0 where
  static : CapturedPlacement
  dynamic : ℕ → CapturedPlacement

pub record CapturedTask : Type 0 where
  pub task_id : Option String
  pub origin_event_id : String
  pub title : String
  pub description : Option String
  pub start_at : String
  pub end_at : String
  pub placement : CapturedPlacement
  pub occupies_capacity : Bool
  pub category_tag : Option String

-- What one event of the loop does: it is an echo of another store, it is skipped with a diagnostic,
-- or it is taken, with its diagnostics and whether UbU can own it.
pub data Taken : Type 0 where
  stale : Taken
  skipped : DiagnosticBody → Taken
  taken : CapturedTask → List DiagnosticBody → Bool → Taken

abbrev invalid : String → DiagnosticBody
invalid message = record { code = "capture_event_invalid"; message = message }

-- `u64::try_from(..)`
abbrev pub try_u64 : ℤ → Option ℕ
try_u64 (pos n) = some n
try_u64 (negsuc n) = none

abbrev or_zero : Option ℕ → ℕ
or_zero none = 0
or_zero (some n) = n

abbrev listed : Option DiagnosticBody → List DiagnosticBody
listed none = []
listed (some d) = d ∷ []

unfoldable pub occupies : CapturedPlacement → Bool → Bool
occupies static transparent = not transparent
occupies (dynamic seconds) transparent = true

-- A colour mapped to no category, or to several, is still a colour.
unfoldable pub by_category :
    DesiredEvent
    → String
    → Option (Option String)
    → CapturedPlacement × Option String × List DiagnosticBody
by_category event color none = (
  static,
  none,
  record {
    code = "capture_colour_unmapped";
    message =
        "Calendar event `" <> event.external_id <> "` has unmapped colour `" <> color
        <> "`; no category assigned; map that colour in Settings to assign a category";
  }
      ∷ [],
)
by_category event color (some none) = (
  static,
  none,
  record {
    code = "capture_colour_ambiguous";
    message =
        "Calendar event `" <> event.external_id
        <> "` has a colour shared by multiple categories; no category assigned";
  }
      ∷ [],
)
by_category event color (some (some category)) = (static, some category, [])

-- The colour decides the placement, and only its absence makes work Dynamic.
unfoldable pub place_by_colour :
    TreeMap String (Option String)
    → DesiredEvent
    → Bool
    → ℕ
    → CapturedPlacement × Option String × List DiagnosticBody
unfolding by_category
place_by_colour palette_inverse event ownable span_seconds = elim event.color_id [
  | none ↦
      if ownable
      then (
        dynamic span_seconds,
        none,
        record {
          code = "capture_colour_absent";
          message =
              "Calendar event `" <> event.external_id
              <> "` has no colour, so it is taken as work for UbU to schedule: a Dynamic Task of the event's length, at no fixed time";
        }
            ∷ [],
      )
      else (
        static,
        none,
        record {
          code = "capture_colour_absent";
          message =
              "Calendar event `" <> event.external_id
              <> "` has no colour, but UbU cannot own it and so cannot move it: it stays a commitment at its own time, with no category";
        }
            ∷ [],
      )
  | some color ↦ by_category event color (get color palette_inverse)
]

module _ (ts : Timestamps) (timestamp_at : ℕ → Option String) where
  open ts use {Instant, unix_timestamp}

  -- A whole planning second, as the planner writes it.
  unfoldable pub canonical : Instant → Option String
  canonical t = elim (try_u64 (unix_timestamp t)) [ none ↦ none | some n ↦ timestamp_at n ]

  abbrev canonical_or : String → String
  canonical_or text = elim (ts.parse text) [
    | none ↦ text
    | some t ↦ elim (canonical t) [ none ↦ text | some t' ↦ t' ]
  ]

  abbrev owner_or : Option DesiredEvent → String → String
  owner_or none id = id
  owner_or (some old) id = old.task_id

  unfoldable pub normalize_observed : List DesiredEvent → List DesiredEvent → List DesiredEvent
  unfolding canonical
  normalize_observed [] applied = []
  normalize_observed (event ∷ observed) applied =
      record event {
        task_id =
            owner_or (find (λ old. str_eq old.external_id event.external_id) applied) event.task_id;
        start_at = canonical_or event.start_at;
        end_at = canonical_or event.end_at;
      }
      ∷ normalize_observed observed applied

module _ (ts : Timestamps) (timestamp_at : ℕ → Option String) (is_blank : String → Bool)
    (capture_description : String → Option String → Option String × Option DiagnosticBody) where
  open ts use {Instant, unix_timestamp}

  module _ (palette_inverse : TreeMap String (Option String))
      (existing_by_source : TreeMap String String) where
    unfoldable pub take_at : DesiredEvent → ℕ → String → String → Taken
    unfolding place_by_colour occupies
    take_at event span_seconds start_at end_at =
        let ownable = is_none (not_ownable_diagnostic event.external_id) in
        let placed = place_by_colour palette_inverse event ownable span_seconds in
        let described = capture_description event.external_id event.description in
        taken
          (record {
            task_id = get event.external_id existing_by_source;
            origin_event_id = event.external_id;
            title = event.summary;
            description = described.0;
            start_at = start_at;
            end_at = end_at;
            placement = placed.0;
            occupies_capacity = occupies placed.0 event.transparent;
            category_tag = placed.1;
          })
          (placed.2 ++ listed described.1) ownable

    unfoldable pub take_within : DesiredEvent → ℕ → Option String → Option String → Taken
    unfolding take_at
    take_within event span_seconds (some start_at) (some end_at) =
        if not (str_lt start_at end_at)
        then skipped (invalid "Calendar event must span at least one planning second; skipped")
        else take_at event span_seconds start_at end_at
    take_within event span_seconds _ _ =
        skipped (invalid "Calendar event is outside the supported planning time range; skipped")

    abbrev title_or_span : DiagnosticBody
    title_or_span = invalid "Calendar event has an unusable title or concrete time span; skipped"

    unfoldable pub take_valid : DesiredEvent → Option (Instant × Instant) → Taken
    unfolding take_within canonical
    take_valid event none = skipped title_or_span
    take_valid event (some window) =
        if is_blank event.summary
        then skipped title_or_span
        else take_within event
            (or_zero (try_u64 (unix_timestamp window.1 -ℤ unix_timestamp window.0)))
            (canonical ts timestamp_at window.0) (canonical ts timestamp_at window.1)

    unfoldable pub take_event : StringSet → DesiredEvent → Taken
    unfolding take_valid
    take_event ubu_created_ids event =
        if contains ubu_created_ids event.external_id
          && not (contains_key event.external_id existing_by_source)
        then stale
        else take_valid event (parse_range ts event.start_at event.end_at)

    -- The variables of the loop.
    pub record Capture : Type 0 where
      pub tasks : List CapturedTask
      pub diagnostics : List DiagnosticBody
      pub unowned : List String
      pub stale_ids : List String

    unfoldable pub add : DesiredEvent → Taken → Capture → Capture
    add event stale c = record c { stale_ids = event.external_id ∷ c.stale_ids }
    add event (skipped d) c = record c { diagnostics = d ∷ c.diagnostics }
    add event (taken task ds ownable) c = record c {
      tasks = task ∷ c.tasks;
      diagnostics = ds ++ c.diagnostics;
      unowned = if ownable then c.unowned else event.external_id ∷ c.unowned;
    }

    -- The rest of the loop, on the events after those `seen`; each event is added before what
    -- comes after it.
    unfoldable pub capture_from : StringSet → List String → List DesiredEvent → Capture
    unfolding take_event add
    capture_from ubu_created_ids seen [] = record {
      tasks = [];
      diagnostics = [];
      unowned = [];
      stale_ids = [];
    }
    capture_from ubu_created_ids seen (event ∷ foreign) =
        let again = any (λ id. str_eq id event.external_id) seen in
        let rest =
          capture_from ubu_created_ids (if again then seen else event.external_id ∷ seen) foreign in
        if again then rest else add event (take_event ubu_created_ids event) rest

    unfoldable pub plan_capture :
        List DesiredEvent → StringSet → List CapturedTask × List DiagnosticBody
    unfolding capture_from
    plan_capture foreign ubu_created_ids =
        let c = capture_from ubu_created_ids [] foreign in
        (
          c.tasks,
          c.diagnostics
              ++ (listed (stale_export_diagnostic c.stale_ids)
                  ++ listed (occupancy_diagnostic c.unowned)),
        )
