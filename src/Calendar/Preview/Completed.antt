-- ===== src/Calendar/Preview/Completed.antt =====
-- The events of completed Tasks in a preview: they are retained, so they are left as they are.
use ubu_orchestrator.Base.{
  String, str_eq, eq_iff, true, ◌||◌, Option, none, some, List, [], ◌∷◌, ◌≡◌, refl, ap, ◌∙◌, map,
  any, retain, is_some, Any, arith, inl, inr, if◌then◌else◌,
}
use ubu_orchestrator.Base.Order.{str_ord}
use ubu_orchestrator.Base.TreeMap.{
  TreeMap, get, contains_key, keys, collect, find_last, get-collect,
}
use ubu_orchestrator.Calendar.Event.{DesiredEvent, by_external_id}
use ubu_orchestrator.Calendar.Diff.{contains, land_all}
use ubu_orchestrator.Calendar.Preview.{id_set, completed_event_ids, preview_operations}
use ubu_orchestrator.Calendar.Preview.Kept.{get-land_all-preview_operations}

abbrev itself : String → String
itself id = id

contains-keys : (j : String) (m : TreeMap String String) → contains (keys m) j ≡ contains_key j m
unfolding contains get
contains-keys j [] = refl
contains-keys j ((k, v) ∷ m) = ground (arith, contains-keys j m, eq_iff j k, eq_iff k j)

is_some-find_last :
    (j : String) (ids : List String) (d : Option String)
    → is_some (find_last itself j ids d) ≡ any (λ id. str_eq id j) ids || is_some d
unfolding find_last
is_some-find_last j [] d = refl
is_some-find_last j (id ∷ ids) d =
    is_some-find_last j ids (if str_eq id j then some id else d) ∙ ground arith

-- A set of ids contains what the list does.
pub contains-id_set :
    (j : String) (ids : List String) → contains (id_set ids) j ≡ any (λ id. str_eq id j) ids
unfolding id_set
contains-id_set j ids =
    contains-keys j (collect itself ids)
    ∙ ap is_some (get-collect itself j ids)
    ∙ is_some-find_last j ids none
    ∙ ground arith

-- The event has the id, and its Task is completed.
abbrev pub IsCompletedEvent : List String → String → DesiredEvent → Type 0
IsCompletedEvent completed id e = (e.external_id ≡ id) × (contains completed e.task_id ≡ true)

any-completed :
    (completed : List String) (id : String) (applied : List DesiredEvent)
    → Any (IsCompletedEvent completed id) applied
    → any
        (λ k. str_eq k id)
        (map (λ e. e.external_id) (retain (λ e. contains completed e.task_id) applied))
      ≡ true
any-completed completed id [] h = elim h [ ]
any-completed completed id (e ∷ applied) (inl (named, done)) =
    rw done (ground (arith, named, eq_iff e.external_id id))
any-completed completed id (e ∷ applied) (inr h) =
    ground (arith, any-completed completed id applied h)

contains-completed :
    (completed : List String) (id : String) (applied : List DesiredEvent)
    → Any (IsCompletedEvent completed id) applied
    → contains (completed_event_ids completed applied) id ≡ true
unfolding completed_event_ids
contains-completed completed id applied h =
    contains-id_set id
      (map (λ e. e.external_id) (retain (λ e. contains completed e.task_id) applied))
    ∙ any-completed completed id applied h

-- The applied event of a Task that is completed now is frozen: whatever the plan asks for, the
-- operations of a preview leave what its external id reads as it was.
pub completed_frozen :
    (origins : TreeMap String String) (completed : List String)
    (desired existing : List DesiredEvent) (id : String)
    → Any (IsCompletedEvent completed id) existing
    → get id (
        land_all
          (preview_operations origins (completed_event_ids completed existing) desired existing)
          (by_external_id existing))
      ≡ get id (by_external_id existing)
completed_frozen origins completed desired existing id h =
    get-land_all-preview_operations origins (completed_event_ids completed existing) desired
      existing id
    ∙ rw (contains-completed completed id existing h)
