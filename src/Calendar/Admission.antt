-- ===== src/Calendar/Admission.antt =====
-- `capture` of src/services/calendar_capture.rs, in parts: which observed events are candidates, and
-- what a captured Task's payload becomes. The loops over them are in the children.
pub mod Merged
pub mod Captured
pub mod Whole
pub mod Counted
pub mod Kept
use ubu_orchestrator.Base.{
  ℕ, String, str_eq, Bool, true, false, not, ◌&&◌, ◌||◌, Option, none, some, List, [], ◌∷◌, ◌++◌,
  any, retain, map, is_some, is_none, is_some_and, length, ◌-◌, ◌+◌, if◌then◌else◌,
}
use ubu_orchestrator.Base.Order.{str_ord}
use ubu_orchestrator.Base.TreeMap.{TreeMap, get}
use ubu_orchestrator.Calendar.Event.{DesiredEvent, bool_eq, same_managed_fields}
use ubu_orchestrator.Calendar.Diff.{StringSet, contains}
use ubu_orchestrator.Calendar.Capture.{DiagnosticBody, ◌<>◌}
use ubu_orchestrator.Calendar.Reconcile.{CalendarConflict}
use ubu_orchestrator.Calendar.Interaction.{with_id}
use ubu_orchestrator.Calendar.Intake.{CapturedPlacement, static, dynamic, CapturedTask}
use ubu_orchestrator.Calendar.Preview.{id_set}
use ubu_orchestrator.Tasks.Record.{Field, missing, null, value, has_value}

-- An event gained or lost its colour since UbU last saw it.
unfoldable pub colour_flipped : List DesiredEvent → List DesiredEvent → StringSet
colour_flipped applied [] = []
colour_flipped applied (event ∷ observed) =
    let rest = colour_flipped applied observed in
    if any
      (λ old.
        str_eq old.external_id event.external_id
        && not (bool_eq (is_some old.color_id) (is_some event.color_id)))
      applied
    then event.external_id ∷ rest
    else rest

unfoldable pub foreign_ids : List CalendarConflict → StringSet
foreign_ids conflicts =
    map (λ c. c.external_id) (retain (λ c. str_eq c.conflict_type "foreign") conflicts)

-- The values of a payload that the capture does not look into.
module _ (Json : Type 0) where
  pub data Duration : Type 0 where
    fixed : ℕ → Duration
    other : Json → Duration

  pub data Tag : Type 0 where
    text : String → Tag
    other : Json → Tag

  -- A Task's payload: the fields that a capture writes, and the rest. A description that is not a
  -- text, and tags that are no array, are as if missing.
  pub record TaskPayload : Type 0 where
    pub title : Option String
    pub description : Option String
    pub static_window : Field (String × String)
    pub duration_estimate : Field Duration
    pub occupies_capacity : Option Bool
    pub category_tag : Option String
    pub tags : List Tag
    pub rest : Json

  pub record SourceRow : Type 0 where
    pub id : String
    pub status : String
    pub version : ℕ
    pub created_at : String
    pub compartment_label : String
    pub payload : TaskPayload

  -- The captured events whose colour flipped and whose Task is active: they are placed afresh.
  unfoldable pub replaced : StringSet → StringSet → TreeMap String SourceRow → StringSet
  replaced flipped foreign existing =
      retain
        (λ id.
          not (contains foreign id)
          && is_some_and (get id existing) (λ row. str_eq row.status "active"))
        flipped

  unfoldable pub candidates : StringSet → StringSet → List DesiredEvent → List DesiredEvent
  candidates foreign again observed =
      retain (λ e. contains foreign e.external_id || contains again e.external_id) observed

  abbrev is_text : String → Tag → Bool
  is_text category (text t) = str_eq t category
  is_text category (other j) = false

  -- `category_tag` must be a member of the tags.
  unfoldable pub with_category : Option String → TaskPayload → TaskPayload
  with_category none payload = record payload { category_tag = none }
  with_category (some category) payload = record payload {
    category_tag = some category;
    tags =
        if any (is_text category) payload.tags
        then payload.tags
        else payload.tags ++ (text category ∷ []);
  }

  -- One scheduling form, never both.
  unfoldable pub with_placement : CapturedTask → CapturedPlacement → TaskPayload → TaskPayload
  with_placement task static payload = record payload {
    static_window = value (task.start_at, task.end_at);
    duration_estimate =
        if has_value payload.static_window then payload.duration_estimate else missing;
  }
  with_placement task (dynamic seconds) payload = record payload {
    static_window = missing;
    duration_estimate = value (fixed seconds);
  }

  -- The calendar's notes fill a blank; they never replace authored text.
  unfoldable pub with_description : (String → Bool) → Option String → TaskPayload → TaskPayload
  with_description is_blank none payload = payload
  with_description is_blank (some description) payload =
      if is_none payload.description || is_some_and payload.description is_blank
      then record payload { description = some description }
      else payload

  unfoldable pub merge_payload : (String → Bool) → CapturedTask → TaskPayload → TaskPayload
  unfolding with_description with_placement with_category
  merge_payload is_blank task payload =
      let titled = record payload { title = some task.title } in
      let described = with_description is_blank task.description titled in
      let placed = with_placement task task.placement described in
      with_category task.category_tag
        (record placed { occupies_capacity = some task.occupies_capacity })

pub record CalendarCaptureResponse : Type 0 where
  pub captured : ℕ
  pub updated : ℕ
  pub moved : ℕ
  pub resized : ℕ
  pub unchanged : ℕ
  pub skipped : ℕ
  pub diagnostics : List DiagnosticBody

-- An owned event that no gesture changed and that is not placed afresh.
abbrev tally_one :
    DesiredEvent → Option DesiredEvent → CalendarCaptureResponse → CalendarCaptureResponse
tally_one event none r = record r {
  skipped = r.skipped + 1;
  diagnostics =
      r.diagnostics
      ++ (record {
        code = "capture_unrecorded_event";
        message =
            "Event `" <> event.external_id
            <> "` matches known Task evidence without applied ownership; not captured";
      }
          ∷ []);
}
tally_one event (some old) r =
    if same_managed_fields old event then record r { unchanged = r.unchanged + 1 } else record r {
      diagnostics =
          r.diagnostics
          ++ (record {
            code = "capture_owned_drift";
            message =
                "Owned Task `" <> old.task_id <> "` event `" <> event.external_id
                <> "` differs from the applied record; no Task update was made";
          }
              ∷ []);
    }

unfoldable pub tally :
    StringSet
    → StringSet
    → StringSet
    → List DesiredEvent
    → List DesiredEvent
    → CalendarCaptureResponse
    → CalendarCaptureResponse
tally foreign changed again applied [] r = r
tally foreign changed again applied (event ∷ observed) r =
    tally foreign changed again applied observed (
      if contains foreign event.external_id
        || (contains changed event.external_id || contains again event.external_id)
      then r
      else tally_one event (with_id event.external_id applied) r)

-- Every candidate that became no Task.
unfoldable pub not_captured : List DesiredEvent → List CapturedTask → ℕ
unfolding id_set
not_captured foreign tasks = length (id_set (map (λ e. e.external_id) foreign)) - length tasks
