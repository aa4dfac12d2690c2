-- ===== src/Calendar/Reconcile/Repair.antt =====
-- `repair` rewrites only the applied belief, and what it leaves is not in conflict.
use ubu_orchestrator.Base.{
  String, Bool, true, false, Option, none, some, List, ◌≡◌, if◌then◌else◌, All, All-map, retain,
  ◌⊎◌, inl, inr, ◌∙◌, sym, eq_of_some,
}
use ubu_orchestrator.Base.Order.{str_ord}
use ubu_orchestrator.Base.TreeMap.{
  get, find_last-retain, get-collect, get-collect-values, collect-IsSorted, collect-IsKeyed,
}
use ubu_orchestrator.Calendar.Event.{DesiredEvent, same_managed_fields_refl, by_external_id}
use ubu_orchestrator.Calendar.Diff.{StringSet, contains}
use ubu_orchestrator.Calendar.Reconcile.{CalendarConflict, classify, owns, repair}
use ubu_orchestrator.Calendar.Reconcile.Kinds.{kind, classify_sound}

-- After a repair the applied set reads, at every id, what the calendar has there if UbU owned the id,
-- and nothing otherwise: no foreign event is adopted, and no owned one keeps a stale value.
pub get-repair :
    (applied observed : List DesiredEvent) (id : String)
    → get id (by_external_id (repair applied observed))
      ≡ (if owns applied id then get id (by_external_id observed) else none)
unfolding repair by_external_id
get-repair applied observed id =
    let kept = retain (λ event. owns applied event.external_id) observed in
    get-collect-values (λ e. e.external_id) id (by_external_id kept)
      (collect-IsSorted (λ e. e.external_id) kept) (collect-IsKeyed (λ e. e.external_id) kept)
    ∙ get-collect (λ e. e.external_id) id kept
    ∙ find_last-retain (λ e. e.external_id) (owns applied) id observed none
    ∙ rw (get-collect (λ e. e.external_id) id observed)

-- The kinds that `repair` reports as remaining.
abbrev pub IsRemaining : CalendarConflict → Type 0
IsRemaining c = (c.conflict_type ≡ "foreign") ⊎ (c.conflict_type ≡ "unrecorded")

remaining_kind :
    (owned known : Bool) (o : Option DesiredEvent) (k : String)
    → kind (if owned then o else none) o known ≡ some k
    → (k ≡ "foreign") ⊎ (k ≡ "unrecorded")
remaining_kind true known none k h = cc
remaining_kind true known (some e) k h =
    let h' : none ≡ some k = rw (same_managed_fields_refl e) at h in cc
remaining_kind false known none k h = cc
remaining_kind false true (some e) k h = inr (sym (eq_of_some h))
remaining_kind false false (some e) k h = inl (sym (eq_of_some h))

-- Reconciling a repaired set with the same observation finds nothing missing and nothing drifted:
-- every conflict that is left is of kind foreign or unrecorded.
pub classify-repair :
    (applied observed : List DesiredEvent) (known created : StringSet)
    → All IsRemaining (classify (repair applied observed) observed known created)
classify-repair applied observed known created =
    All-map _ IsRemaining
      (λ c h.
        remaining_kind (owns applied c.external_id) (contains known c.external_id)
          (get c.external_id (by_external_id observed)) c.conflict_type
          (rw (get-repair applied observed c.external_id) at h))
      (classify (repair applied observed) observed known created)
      (classify_sound (repair applied observed) observed known created)
