-- ===== src/Planning/Seats/Decisions.antt =====
-- Why `unseatable_mandatory` seats an occurrence or not: its loop as a list of decisions, the newest
-- first, each with its reason among the older ones.
use ubu_orchestrator.Base.{
  ℕ, ◌+◌, ◌≤◌, ◌<◌, String, str_eq, true, false, Option, none, some, List, [], ◌∷◌, ◌++◌, ◌≡◌, refl,
  sym, ap, subst, ◌∙◌, All, All-map, Any, if◌then◌else◌, arith, inr, ◌⊎◌, eq_of_some,
}
use ubu_orchestrator.Base.Order.{str_ord}
use ubu_orchestrator.Base.TreeMap.{TreeMap, get, get-insert}
use ubu_orchestrator.Planning.Window.{TimeWindow, u64_size, earliest_fit}
use ubu_orchestrator.Planning.Window.Fit.{
  IsClear, IsFree, earliest_fit-IsFree, earliest_fit_complete,
}
use ubu_orchestrator.Planning.Steps.{member}
use ubu_orchestrator.Planning.Seats.{
  DurationEstimate, TaskSpec, Seating, latest, start_after, task_duration_model, fail, seat,
}

-- An occurrence, and the span that it is given, if it is.
pub record Decision : Type 0 where
  pub task : TaskSpec
  pub span : Option TimeWindow

abbrev pub spans : List Decision → List TimeWindow
spans [] = []
spans (d ∷ log) = elim d.span [ none ↦ spans log | some w ↦ w ∷ spans log ]

abbrev pub failures : List Decision → List String
failures [] = []
failures (d ∷ log) = elim d.span [ none ↦ d.task.id ∷ failures log | some w ↦ failures log ]

-- When a Task ends: as it was decided, or as its fixed window has it.
abbrev pub end_of : TreeMap String ℕ → List Decision → String → Option ℕ
end_of statics [] id = get id statics
end_of statics (d ∷ log) id = elim d.span [
  | none ↦ end_of statics log id
  | some w ↦ if str_eq d.task.id id then some w.end else end_of statics log id
]

-- The window's numbers are 64 bits wide.
abbrev pub Fits : TaskSpec → Type 0
Fits task = (w : TimeWindow) → task.window ≡ some w → w.end < u64_size

module _ (placement_seconds : DurationEstimate → ℕ) (fixed_windows : List TimeWindow)
    (statics : TreeMap String ℕ) where
  -- The span has the Task's duration, lies in the window, starts after the Tasks that it depends on,
  -- and is clear of the fixed windows and of what is taken.
  abbrev pub IsOpen : List Decision → TaskSpec → TimeWindow → TimeWindow → Type 0
  IsOpen log task window w =
      (window.start ≤ w.start)
      × (w.end ≤ window.end)
      × (w.end ≡ w.start + placement_seconds (task_duration_model task))
      × All (λ dep. (e : ℕ) → end_of statics log dep ≡ some e → e ≤ w.start) task.depends_on
      × All (IsClear w) (fixed_windows ++ spans log)

  -- A Task is given an open span of its window, if no Task that it depends on has failed; it fails
  -- if one has, or if it has no window, or if its window has no open span.
  abbrev pub Because : List Decision → TaskSpec → Option TimeWindow → Type 0
  Because log task (some w) =
      All (λ dep. member dep (failures log) ≡ false) task.depends_on
      × ((window : TimeWindow) × (task.window ≡ some window) × IsOpen log task window w)
  Because log task none =
      Any (λ dep. member dep (failures log) ≡ true) task.depends_on
      ⊎ ((window : TimeWindow)
          → task.window ≡ some window
          → (w : TimeWindow) → IsOpen log task window w
          → ⊥)

  abbrev pub AllBecause : List Decision → Type 0
  AllBecause [] = Unit
  AllBecause (d ∷ log) = Because log d.task d.span × AllBecause log

  -- The state of the loop after these decisions.
  pub record After (log : List Decision) (s : Seating) : Type 0 where
    pub ends : (id : String) → get id s.ends ≡ end_of statics log id
    pub seats : s.seats ≡ spans log
    pub failed : s.failed ≡ failures log
    pub because : AllBecause log

  latest-le : (start : ℕ) (o : Option ℕ) → start ≤ latest start o
  latest-le start none = omega arith
  latest-le start (some e) = omega arith

  latest-bound : (start n : ℕ) (o : Option ℕ) → o ≡ some n → n ≤ latest start o
  latest-bound start n none h = absurd (cc)
  latest-bound start n (some e) h = let same : e ≡ n = eq_of_some h in omega (arith, same)

  latest-least :
      (start limit : ℕ) (o : Option ℕ)
      → start ≤ limit
      → ((e : ℕ) → o ≡ some e → e ≤ limit)
      → latest start o ≤ limit
  latest-least start limit none h k = h
  latest-least start limit (some e) h k = let this = k e refl in omega (arith, h, this)

  start_after-le :
      (ends : TreeMap String ℕ) (deps : List String) (start : ℕ)
      → start ≤ start_after ends deps start
  unfolding start_after
  start_after-le ends [] start = omega arith
  start_after-le ends (dep ∷ deps) start = omega (
    arith,
    latest-le start (get dep ends),
    start_after-le ends deps (latest start (get dep ends)),
  )

  start_after-bounds :
      (ends : TreeMap String ℕ) (deps : List String) (start : ℕ)
      → All (λ dep. (e : ℕ) → get dep ends ≡ some e → e ≤ start_after ends deps start) deps
  unfolding start_after
  start_after-bounds ends [] start = tt
  start_after-bounds ends (dep ∷ deps) start = (
    (λ n q. omega (
      arith,
      latest-bound start n (get dep ends) q,
      start_after-le ends deps (latest start (get dep ends)),
    )),
    start_after-bounds ends deps (latest start (get dep ends)),
  )

  start_after-least :
      (ends : TreeMap String ℕ) (deps : List String) (start limit : ℕ)
      → start ≤ limit
      → All (λ dep. (e : ℕ) → get dep ends ≡ some e → e ≤ limit) deps
      → start_after ends deps start ≤ limit
  unfolding start_after
  start_after-least ends [] start limit h k = h
  start_after-least ends (dep ∷ deps) start limit h k =
      start_after-least ends deps (latest start (get dep ends)) limit
        (latest-least start limit (get dep ends) h k.0) k.1

  -- The search of `place`, after these decisions.
  abbrev moved : Seating → TaskSpec → TimeWindow → TimeWindow
  moved s task window = record window { start = start_after s.ends task.depends_on window.start }

  abbrev duration : TaskSpec → ℕ
  duration task = placement_seconds (task_duration_model task)

  -- A free span for the search is an open one, and conversely.
  IsOpen-found :
      (log : List Decision) (s : Seating) (task : TaskSpec) (window w : TimeWindow)
      → After log s
      → IsFree (moved s task window) (fixed_windows ++ s.seats) (duration task) w
      → IsOpen log task window w
  IsOpen-found log s task window w a f =
      let first = start_after-le s.ends task.depends_on window.start in
      (
        omega (arith, first, f.after),
        f.before,
        f.long,
        All-map _ _ (λ dep h e q. let bound = h e (a.ends dep ∙ q) in omega (arith, bound, f.after))
            task.depends_on (start_after-bounds s.ends task.depends_on window.start),
        subst (λ ws. All (IsClear w) (fixed_windows ++ ws)) a.seats f.clear,
      )

  IsFree-open :
      (log : List Decision) (s : Seating) (task : TaskSpec) (window w : TimeWindow)
      → After log s
      → IsOpen log task window w
      → IsFree (moved s task window) (fixed_windows ++ s.seats) (duration task) w
  IsFree-open log s task window w a o = record {
    after =
        start_after-least s.ends task.depends_on window.start w.start o.0
          (All-map _ _ (λ dep h e q. h e (sym (a.ends dep) ∙ q)) task.depends_on o.3);
    long = o.2;
    before = o.1;
    clear = subst (λ ws. All (IsClear w) (fixed_windows ++ ws)) (sym a.seats) o.4;
  }

  -- Failing a Task, and seating one.
  pub After-fail :
      (log : List Decision) (s : Seating) (task : TaskSpec)
      → After log s
      → Because log task none
      → After (record { task = task; span = none } ∷ log) (fail task s)
  unfolding fail
  After-fail log s task a why = record {
    ends = a.ends;
    seats = a.seats;
    failed = ap (λ ids. task.id ∷ ids) a.failed;
    because = (why, a.because);
  }

  After-seat :
      (log : List Decision) (s : Seating) (task : TaskSpec) (w : TimeWindow)
      → After log s
      → Because log task (some w)
      → After (record { task = task; span = some w } ∷ log) (seat task (some w) s)
  unfolding seat
  After-seat log s task w a why = record {
    ends = λ id.
        get-insert id task.id w.end s.ends
        ∙ ap (λ o. if str_eq task.id id then some w.end else o) (a.ends id);
    seats = ap (λ ws. w ∷ ws) a.seats;
    failed = a.failed;
    because = (why, a.because);
  }

  -- What a round adds.
  abbrev pub Adds : List Decision → TaskSpec → Seating → Type 0
  Adds log task s = (o : Option TimeWindow) × After (record { task = task; span = o } ∷ log) s

  pub After-search :
      (log : List Decision) (s : Seating) (task : TaskSpec) (window : TimeWindow)
      → After log s
      → task.window ≡ some window
      → window.end < u64_size
      → All (λ dep. member dep (failures log) ≡ false) task.depends_on
      → (o : Option TimeWindow)
      → earliest_fit (moved s task window) (fixed_windows ++ s.seats) (duration task) ≡ o
      → Adds log task (seat task o s)
  unfolding seat
  After-search log s task window a e fits deps none k =
      (none, After-fail log s task a (inr missing))
    where
      found :
          (w : TimeWindow)
          → ((r : TimeWindow) × (earliest_fit
                  (moved s task window)
                  (fixed_windows ++ s.seats)
                  (duration task)
                ≡ some r)
              × (r.start ≤ w.start))
          → ⊥
      found w r = cc (r.1, k)

      missing :
          (window' : TimeWindow)
          → task.window ≡ some window'
          → (w : TimeWindow) → IsOpen log task window' w
          → ⊥
      missing window' e' w o =
          let same : window' ≡ window = eq_of_some (sym e' ∙ e) in
          found w (
            earliest_fit_complete (moved s task window) (fixed_windows ++ s.seats) (duration task) w
              fits (IsFree-open log s task window w a (subst (λ x. IsOpen log task x w) same o)))
  After-search log s task window a e fits deps (some w) k = (
    some w,
    After-seat log s task w a (
      deps,
      (
        window,
        e,
        IsOpen-found log s task window w a (
            earliest_fit-IsFree (moved s task window) (fixed_windows ++ s.seats) (duration task) w
              k),
      ),
    ),
  )
