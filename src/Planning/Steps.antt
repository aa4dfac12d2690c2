-- ===== src/Planning/Steps.antt =====
-- src/services/planning_service.rs: the steps of a plan, their merging, and the checks on a stored
-- plan; `ScheduledTaskBody` and `PlanBody` are those of src/api/planning.rs.
pub mod Merge
pub mod Merged
pub mod Canonical
use ubu_orchestrator.Base.{
  ℕ, ◌+◌, ◌%◌, String, str_eq, Bool, true, false, not, ◌&&◌, ◌||◌, Option, none, some, List, [],
  ◌∷◌, ◌++◌, map, all, any, ltb, leb, ◌==◌, if◌then◌else◌,
}
use ubu_orchestrator.Base.Order.{Ord, str_ord, str_lt}
use ubu_orchestrator.Base.Sort.{sort_by}
use ubu_orchestrator.Errors.{AppError, internal, Result, ok, err, ◌>>=◌, ◌>>◌, refuse_if}
use ubu_orchestrator.Calendar.Capture.{◌<>◌}

pub record ScheduledTask : Type 0 where
  pub index : ℕ
  pub task_id : String
  pub summary : String
  pub start : ℕ
  pub end : ℕ
  pub start_at : String
  pub end_at : String
  pub depends_on : List String
  pub static_anchor : Bool
  pub placement_authority : String
  pub occupies_capacity : Bool
  pub category_tag : Option String
  pub gcal_color_id : Option String

abbrev pub member : String → List String → Bool
member id [] = false
member id (x ∷ xs) = str_eq x id || member id xs

-- `filter(|step| seen.insert(..))`
unfoldable pub fresh : List String → List ScheduledTask → List ScheduledTask
fresh seen [] = []
fresh seen (step ∷ steps) =
    let again = fresh seen steps in
    let rest = fresh (step.task_id ∷ seen) steps in
    if member step.task_id seen then again else step ∷ rest

abbrev pub step_le : ScheduledTask → ScheduledTask → Bool
step_le a b =
    ltb a.start b.start
    || (a.start == b.start
        && (ltb a.end b.end || (a.end == b.end && not (str_lt b.task_id a.task_id))))

-- `step.index = index as u32`, from `n` on.
unfoldable pub number : ℕ → List ScheduledTask → List ScheduledTask
number n [] = []
number n (step ∷ steps) = record step { index = n % 4294967296 } ∷ number (n + 1) steps

unfoldable pub merge_steps : List ScheduledTask → List ScheduledTask → List ScheduledTask
unfolding fresh number
merge_steps frozen others =
    number 0 (sort_by step_le (frozen ++ fresh (map (λ s. s.task_id) frozen) others))

-- `PlanBody`, with the answer of `validate` on its engine provenance if it has one.
pub record Plan : Type 0 where
  pub id : String
  pub status : String
  pub steps : List ScheduledTask
  pub provenance : Option (Result (Unit {0}))

abbrev or_valid : Option (Result (Unit {0})) → Result (Unit {0})
or_valid none = ok tt
or_valid (some answer) = answer

-- `trim().is_empty()` is given, as `is_blank`: Rust's tables of white space are not under src/.
module _ (is_blank : String → Bool) where
  unfoldable pub validate_steps : ℕ → List ScheduledTask → Result (Unit {0})
  validate_steps expected [] = ok tt
  validate_steps expected (step ∷ steps) =
      let rest = validate_steps (expected + 1) steps in
      refuse_if (not (step.index == expected % 4294967296))
        (internal "plan step indexes must be contiguous")
      >> refuse_if (is_blank step.summary) (internal "plan step summary is required")
      >> refuse_if (leb step.end step.start)
          (internal ("plan step `" <> step.task_id <> "` has an impossible interval"))
      >> rest

  abbrev is_status : String → Bool
  is_status s =
      str_eq s "candidate"
      || (str_eq s "admitted" || (str_eq s "rejected" || str_eq s "superseded"))

  unfoldable pub validate_canonical_plan : Plan → Result (Unit {0})
  unfolding validate_steps
  validate_canonical_plan plan =
      or_valid plan.provenance
      >> refuse_if (is_blank plan.id) (internal "plan id is required")
      >> refuse_if (not (is_status plan.status))
          (internal ("plan has unsupported status `" <> plan.status <> "`"))
      >> validate_steps 0 plan.steps
