-- ===== src/Calendar/Admission/Counted.antt =====
-- The count of the candidates that became no Task.
use ubu_orchestrator.Base.{
  ℕ, ◌+◌, ◌≤◌, String, str_eq, eq_iff, Bool, true, Option, List, [], ◌∷◌, ◌≡◌, ◌∙◌, any, map,
  length, All, Any, arith, inl, inr, Bool-cases,
}
use ubu_orchestrator.Base.Order.{str_ord}
use ubu_orchestrator.Base.Sort.{Pairwise}
use ubu_orchestrator.Base.TreeMap.{TreeMap}
use ubu_orchestrator.Base.Distinct.{Distinct, Differ, HasKey, length-le}
use ubu_orchestrator.Calendar.Event.{DesiredEvent}
use ubu_orchestrator.Calendar.Diff.{StringSet, contains}
use ubu_orchestrator.Calendar.Capture.{DiagnosticBody}
use ubu_orchestrator.Calendar.Interaction.{Timestamps}
use ubu_orchestrator.Calendar.Intake.{CapturedTask, plan_capture}
use ubu_orchestrator.Calendar.Intake.Counts.{OtherEvent, IsFrom, plan_capture_lem}
use ubu_orchestrator.Calendar.Preview.{id_set}
use ubu_orchestrator.Calendar.Preview.Completed.{contains-id_set}
use ubu_orchestrator.Calendar.Apply.Status.{length-map}
use ubu_orchestrator.Calendar.Admission.{not_captured}

abbrev itself : String → String
itself id = id

HasKey-contains : (set : StringSet) (j : String) → contains set j ≡ true → HasKey itself set j
unfolding contains
HasKey-contains [] j h = cc
HasKey-contains (k ∷ set) j h = elim (Bool-cases (str_eq j k)) [
  | inl e ↦ inl (ground (arith, eq_iff j k, eq_iff k j))
  | inr e ↦ inr (HasKey-contains set j (rw e at h))
]

any-IsFrom :
    (t : CapturedTask) (foreign : List DesiredEvent)
    → Any (IsFrom t) foreign
    → any (λ id. str_eq id t.origin_event_id) (map (λ e. e.external_id) foreign) ≡ true
any-IsFrom t [] h = elim h [ ]
any-IsFrom t (e ∷ foreign) (inl from) =
    let named = from.0 in ground (arith, named, eq_iff e.external_id t.origin_event_id)
any-IsFrom t (e ∷ foreign) (inr h) = ground (arith, any-IsFrom t foreign h)

Differ-origins :
    (t : CapturedTask) (tasks : List CapturedTask)
    → All (OtherEvent t) tasks
    → All (Differ itself t.origin_event_id) (map (λ u. u.origin_event_id) tasks)
Differ-origins t [] h = tt
Differ-origins t (u ∷ tasks) h = (h.0, Differ-origins t tasks h.1)

Distinct-origins :
    (tasks : List CapturedTask)
    → Pairwise OtherEvent tasks
    → Distinct itself (map (λ u. u.origin_event_id) tasks)
Distinct-origins [] h = tt
Distinct-origins (t ∷ tasks) h = (Differ-origins t tasks h.0, Distinct-origins tasks h.1)

HasKey-origins :
    (foreign : List DesiredEvent) (tasks : List CapturedTask)
    → All (λ t. Any (IsFrom t) foreign) tasks
    → All
        (HasKey itself (id_set (map (λ e. e.external_id) foreign)))
        (map (λ u. u.origin_event_id) tasks)
HasKey-origins foreign [] h = tt
HasKey-origins foreign (t ∷ tasks) h = (
  HasKey-contains (id_set (map (λ e. e.external_id) foreign)) t.origin_event_id (
      contains-id_set t.origin_event_id (map (λ e. e.external_id) foreign)
      ∙ any-IsFrom t foreign h.0),
  HasKey-origins foreign tasks h.1,
)

module _ (ts : Timestamps) (timestamp_at : ℕ → Option String) (is_blank : String → Bool)
    (capture_description : String → Option String → Option String × Option DiagnosticBody)
    (palette_inverse : TreeMap String (Option String))
    (existing_by_source : TreeMap String String) where
  -- A capture makes no more Tasks than there are candidate ids, so the count of the candidates that
  -- became no Task, a subtraction of unsigned numbers, does not wrap round: with the Tasks it is the
  -- number of candidate ids.
  pub not_captured_bound :
      (foreign : List DesiredEvent) (ids : StringSet)
      → let tasks =
          (plan_capture ts timestamp_at is_blank capture_description palette_inverse
            existing_by_source foreign ids).0 in
        (length tasks ≤ length (id_set (map (λ e. e.external_id) foreign)))
        × (not_captured foreign tasks + length tasks
            ≡ length (id_set (map (λ e. e.external_id) foreign)))
  unfolding not_captured
  not_captured_bound foreign ids =
      let h =
        plan_capture_lem ts timestamp_at is_blank capture_description palette_inverse
          existing_by_source foreign ids in
      let tasks =
        (plan_capture ts timestamp_at is_blank capture_description palette_inverse
          existing_by_source foreign ids).0 in
      let set = id_set (map (λ e. e.external_id) foreign) in
      let bound =
        length-le itself set (map (λ u. u.origin_event_id) tasks) (Distinct-origins tasks h.0)
          (HasKey-origins foreign tasks h.1) in
      let same = length-map (λ (u : CapturedTask). u.origin_event_id) tasks in
      (omega (arith, bound, same), omega (arith, bound, same))
