-- ===== src/Planning/Seats.antt =====
-- `unseatable_mandatory` of src/services/planning_service.rs: each mandatory Dynamic occurrence is
-- seated in the first free span of its window, after the Tasks that it depends on; those that no
-- span can hold are the answer. The loop takes one occurrence each time, so it is by fuel.
pub mod Decisions
pub mod Taken
pub mod Seated
use ubu_orchestrator.Base.{
  ℕ, zero, suc, ◌+◌, max, String, str_eq, Bool, true, false, not, ◌&&◌, ◌||◌, Option, none, some,
  List, [], ◌∷◌, ◌++◌, map, length, all, any, retain, is_none, ltb, ◌==◌, if◌then◌else◌,
}
use ubu_orchestrator.Base.Order.{str_ord, str_lt}
use ubu_orchestrator.Base.TreeMap.{TreeMap, get, insert, contains_key}
use ubu_orchestrator.Base.Sort.{sort_by}
use ubu_orchestrator.Planning.Window.{TimeWindow, earliest_fit}
use ubu_orchestrator.Planning.Steps.{member}

pub data DurationEstimate : Type 0 where
  fixed : ℕ → DurationEstimate
  shifted_lognormal_p95 : ℕ → ℕ → ℕ → DurationEstimate

-- The fields of `TaskSpecBody` that the placement reads.
pub record TaskSpec : Type 0 where
  pub id : String
  pub duration : ℕ
  pub mandatory : Bool
  pub duration_estimate : Option DurationEstimate
  pub depends_on : List String
  pub window : Option TimeWindow
  pub static_anchor : Option ℕ

unfoldable pub task_duration_model : TaskSpec → DurationEstimate
task_duration_model task = elim task.duration_estimate [ none ↦ fixed task.duration | some e ↦ e ]

-- The variables of the loop; `seats` are the spans pushed on the occupied ones.
pub record Seating : Type 0 where
  pub pending : List TaskSpec
  pub ends : TreeMap String ℕ
  pub seats : List TimeWindow
  pub failed : List String

unfoldable pub take_first : (TaskSpec → Bool) → List TaskSpec → Option (TaskSpec × List TaskSpec)
take_first p [] = none
take_first p (task ∷ tasks) =
    let rest = take_first p tasks in
    if p task
    then some (task, tasks)
    else elim rest [ none ↦ none | some (found, others) ↦ some (found, task ∷ others) ]

unfoldable pub is_ready : List String → Seating → TaskSpec → Bool
is_ready dynamic_ids s task =
    all (λ dep. not (member dep dynamic_ids) || (contains_key dep s.ends || member dep s.failed))
      task.depends_on

abbrev pub latest : ℕ → Option ℕ → ℕ
latest start none = start
latest start (some end) = max start end

-- The latest end of the seated dependencies.
unfoldable pub start_after : TreeMap String ℕ → List String → ℕ → ℕ
start_after ends [] start = start
start_after ends (dep ∷ deps) start = start_after ends deps (latest start (get dep ends))

abbrev end_rank : Option TimeWindow → ℕ
end_rank none = 18446744073709551615
end_rank (some w) = w.end

abbrev pub rank_le : TaskSpec → TaskSpec → Bool
rank_le a b =
    ltb (end_rank a.window) (end_rank b.window)
    || ((end_rank a.window == end_rank b.window) && not (str_lt b.id a.id))

abbrev pub static_ends : List TaskSpec → TreeMap String ℕ
static_ends tasks = go [] tasks
  where
    go : TreeMap String ℕ → List TaskSpec → TreeMap String ℕ
    go m [] = m
    go m (task ∷ tasks) =
        let rest = go m tasks in
        if is_none task.static_anchor
        then rest
        else elim task.window [ none ↦ rest | some w ↦ go (insert task.id w.end m) tasks ]

unfoldable pub fail : TaskSpec → Seating → Seating
fail task s = record s { failed = task.id ∷ s.failed }

unfoldable pub seat : TaskSpec → Option TimeWindow → Seating → Seating
unfolding fail
seat task none s = fail task s
seat task (some interval) s = record s {
  ends = insert task.id interval.end s.ends;
  seats = interval ∷ s.seats;
}

unfoldable pub pending_mandatory : List TaskSpec → List String → List TaskSpec
pending_mandatory tasks mandatory =
    sort_by rank_le (retain (λ t. member t.id mandatory && is_none t.static_anchor) tasks)

-- `placement_seconds` is a method of the planning core's duration model.
module _ (placement_seconds : DurationEstimate → ℕ) (fixed_windows : List TimeWindow) where
  unfoldable pub place : TaskSpec → Option TimeWindow → Seating → Seating
  unfolding fail seat task_duration_model start_after
  place task none s = fail task s
  place task (some window) s =
      seat task
        (earliest_fit (record window { start = start_after s.ends task.depends_on window.start })
          (fixed_windows ++ s.seats) (placement_seconds (task_duration_model task)))
        s

  -- One round, on the task taken from `pending`.
  unfoldable pub settle : TaskSpec → Seating → Seating
  unfolding place fail
  settle task s =
      if any (λ dep. member dep s.failed) task.depends_on
      then fail task s
      else place task task.window s

  unfoldable pub seat_all : ℕ → List String → Seating → Seating
  unfolding settle take_first is_ready
  seat_all zero dynamic_ids s = s
  seat_all (suc fuel) dynamic_ids s = elim (take_first (is_ready dynamic_ids s) s.pending) [
    | none ↦ s
    | some (task, others) ↦ seat_all fuel dynamic_ids (settle task (record s { pending = others }))
  ]

  unfoldable pub seated : List TaskSpec → List String → Seating
  unfolding seat_all pending_mandatory
  seated tasks mandatory =
      let pending = pending_mandatory tasks mandatory in
      seat_all (length pending) (map (λ t. t.id) pending)
        (record { pending = pending; ends = static_ends tasks; seats = []; failed = [] })

  unfoldable pub unseatable_mandatory : List TaskSpec → List String → List String
  unfolding seated
  unseatable_mandatory tasks mandatory = (seated tasks mandatory).failed
