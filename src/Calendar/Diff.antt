-- ===== src/Calendar/Diff.antt =====
-- src/services/calendar_projection.rs: `CalendarOperation` and `diff`; and how a landed operation
-- changes the applied set in `approve` of src/services/calendar_apply.rs.
pub mod Effect
pub mod Landing
pub mod Converge
use ubu_orchestrator.Base.{
  String, str_eq, Bool, not, ◌&&◌, none, some, List, [], ◌∷◌, ◌++◌, any, if◌then◌else◌,
}
use ubu_orchestrator.Base.Order.{str_ord}
use ubu_orchestrator.Base.TreeMap.{get, insert, remove, contains_key}
use ubu_orchestrator.Calendar.Event.{DesiredEvent, same_managed_fields, Events, by_external_id}

-- `BTreeSet<String>`, of which the code asks what it contains.
abbrev pub StringSet : Type 0
StringSet = List String

unfoldable pub contains : StringSet → String → Bool
contains set id = any (str_eq id) set

pub data CalendarOperation : Type 0 where
  create : DesiredEvent → CalendarOperation
  update : DesiredEvent → CalendarOperation
  delete : String → String → CalendarOperation

-- The loop over the desired events: the creates and the updates.
unfoldable pub pending :
    Events → StringSet → Events → List CalendarOperation × List CalendarOperation
pending existing retained [] = ([], [])
pending existing retained ((id, event) ∷ desired) =
    let (creates, updates) = pending existing retained desired in
    if contains retained id then (creates, updates) else elim (get id existing) [
      | none ↦ (create event ∷ creates, updates)
      | some old ↦
          if not (same_managed_fields old event)
          then (creates, update event ∷ updates)
          else (creates, updates)
    ]

-- The loop over the existing events.
unfoldable pub obsolete : Events → StringSet → Events → List CalendarOperation
obsolete desired retained [] = []
obsolete desired retained ((id, event) ∷ existing) =
    let rest = obsolete desired retained existing in
    if not (contains_key id desired) && not (contains retained id)
    then delete id event.summary ∷ rest
    else rest

unfoldable pub diff : List DesiredEvent → List DesiredEvent → StringSet → List CalendarOperation
unfolding pending obsolete
diff desired existing retained =
    let wanted = by_external_id desired in
    let held = by_external_id existing in
    let (creates, updates) = pending held retained wanted in
    creates ++ (updates ++ obsolete wanted retained held)

abbrev pub operation_id : CalendarOperation → String
operation_id (create event) = event.external_id
operation_id (update event) = event.external_id
operation_id (delete id summary) = id

-- `landed.insert` and `landed.remove`, for an operation that the calendar accepted.
unfoldable pub land : CalendarOperation → Events → Events
land (create event) landed = insert event.external_id event landed
land (update event) landed = insert event.external_id event landed
land (delete id summary) landed = remove id landed

unfoldable pub land_all : List CalendarOperation → Events → Events
unfolding land
land_all [] landed = landed
land_all (op ∷ ops) landed = land_all ops (land op landed)
