-- ===== src/Calendar/Reconcile.antt =====
-- src/services/calendar_reconcile.rs: `classify`, `conflict` and `repair`.
pub mod Kinds
pub mod Repair
use ubu_orchestrator.Base.{
  String, str_eq, Bool, true, false, not, ◌&&◌, ◌||◌, Option, none, some, List, [], ◌∷◌, ◌++◌, any,
  retain, if◌then◌else◌,
}
use ubu_orchestrator.Base.Order.{str_ord, str_lt}
use ubu_orchestrator.Base.TreeMap.{get, contains_key, values}
use ubu_orchestrator.Base.Sort.{sort_by}
use ubu_orchestrator.Calendar.Event.{DesiredEvent, same_managed_fields, Events, by_external_id}
use ubu_orchestrator.Calendar.Diff.{StringSet, contains}
use ubu_orchestrator.Calendar.Capture.{
  DiagnosticBody, not_ownable_diagnostic, stale_export_diagnostic,
}

pub record CalendarConflict : Type 0 where
  pub external_id : String
  pub conflict_type : String
  pub summary : String
  pub message : String

unfoldable pub conflict : DesiredEvent → String → String → CalendarConflict
conflict event kind message = record {
  external_id = event.external_id;
  conflict_type = kind;
  summary = event.summary;
  message = message;
}

-- The conflict of an applied event, from what the calendar has under its id.
unfoldable pub lost_at : DesiredEvent → Option DesiredEvent → List CalendarConflict
lost_at event none =
    conflict event "missing" "UbU applied this event and the calendar no longer has it" ∷ []
lost_at event (some current) =
    if not (same_managed_fields current event)
    then conflict event "drifted" "the calendar's copy of this event differs from what UbU applied"
      ∷ []
    else []

-- The loop over the applied events.
unfoldable pub lost : Events → Events → List CalendarConflict
unfolding lost_at
lost observed [] = []
lost observed ((id, event) ∷ applied) = lost_at event (get id observed) ++ lost observed applied

-- `expect` on the diagnostic of one stale id: there is one, whatever the id.
abbrev stale_message : String → String
stale_message id = elim (stale_export_diagnostic (id ∷ [])) [
  | none ↦ ""
  | some diagnostic ↦ diagnostic.message
]

abbrev foreign_message : Option DiagnosticBody → String
foreign_message none = "this event was not created by UbU and will not be touched"
foreign_message (some diagnostic) = diagnostic.message

-- The conflict of an observed event: whether UbU applied its id, whether the id is that of a known
-- Task, and whether UbU created the event.
unfoldable pub unowned_at : DesiredEvent → Bool → Bool → Bool → List CalendarConflict
unowned_at event true known created = []
unowned_at event false true created =
    conflict event "unrecorded"
      "this event matches a known Task but UbU has no applied record; it will not be adopted"
    ∷ []
unowned_at event false false true = conflict event "foreign" (stale_message event.external_id) ∷ []
unowned_at event false false false =
    conflict event "foreign" (foreign_message (not_ownable_diagnostic event.external_id)) ∷ []

-- The loop over the observed events.
unfoldable pub unowned : Events → StringSet → StringSet → Events → List CalendarConflict
unfolding unowned_at
unowned applied known created [] = []
unowned applied known created ((id, event) ∷ observed) =
    unowned_at event (contains_key id applied) (contains known id) (contains created id)
    ++ unowned applied known created observed

-- `(&a.conflict_type, &a.external_id).cmp(..)` is not greater.
abbrev pub conflict_le : CalendarConflict → CalendarConflict → Bool
conflict_le a b =
    str_lt a.conflict_type b.conflict_type
    || (str_eq a.conflict_type b.conflict_type && not (str_lt b.external_id a.external_id))

unfoldable pub classify :
    List DesiredEvent → List DesiredEvent → StringSet → StringSet → List CalendarConflict
unfolding lost unowned
classify applied observed known created =
    let a = by_external_id applied in
    let o = by_external_id observed in sort_by conflict_le (lost o a ++ unowned a known created o)

-- `owned.contains(&event.external_id)`.
unfoldable pub owns : List DesiredEvent → String → Bool
owns applied id = any (λ old. str_eq id old.external_id) applied

-- Only ids that UbU applied are kept, with the values that the calendar has.
unfoldable pub repair : List DesiredEvent → List DesiredEvent → List DesiredEvent
repair applied observed =
    values (by_external_id (retain (λ event. owns applied event.external_id) observed))
