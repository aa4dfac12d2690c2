-- ===== src/Calendar/Apply/Status.antt =====
-- The status of a result, and what it says of the operations that landed.
use ubu_orchestrator.Base.{suc, ◌≤◌, List, [], ◌∷◌, ◌≡◌, refl, ap, map, length, arith, ◌↔◌}
use ubu_orchestrator.Calendar.Diff.{CalendarOperation}
use ubu_orchestrator.Calendar.Apply.{
  OperationResult, ProjectionStatus, applied_count, result_status,
}
use ubu_orchestrator.Calendar.Apply.Landed.{accepted}

pub length-map {ℓ κ} :
    {A : Type ℓ} {B : Type κ} (f : A → B) (xs : List A) → length (map f xs) ≡ length xs
length-map f [] = refl
length-map f (x ∷ xs) = ap suc (length-map f xs)

applied_count-le : (results : List OperationResult) → applied_count results ≤ length results
applied_count-le [] = omega arith
applied_count-le (r ∷ results) = ground (arith, applied_count-le results)

pub accepted_all :
    (operations : List CalendarOperation) (results : List OperationResult)
    → length results ≡ length operations
    → applied_count results ≡ length results
    → accepted operations results ≡ operations
unfolding accepted
accepted_all [] results h k = refl
accepted_all (o ∷ operations) [] h k = absurd (omega arith)
accepted_all (o ∷ operations) (r ∷ results) h k =
    ground (arith, accepted_all operations results, applied_count-le results)

pub accepted_none :
    (operations : List CalendarOperation) (results : List OperationResult)
    → applied_count results ≡ 0
    → accepted operations results ≡ []
unfolding accepted
accepted_none [] results k = refl
accepted_none (o ∷ operations) [] k = refl
accepted_none (o ∷ operations) (r ∷ results) k = ground (arith, accepted_none operations results)

-- The status is `applied` exactly when every operation was.
pub status_applied_iff :
    (results : List OperationResult)
    → (result_status results ≡ ProjectionStatus.applied) ↔ (applied_count results ≡ length results)
unfolding result_status
status_applied_iff results = ground arith

pub status_failed :
    (results : List OperationResult)
    → result_status results ≡ ProjectionStatus.failed
    → applied_count results ≡ 0
unfolding result_status
status_failed results h = ground arith
