-- ===== src/Planning/Seats/Seated.antt =====
-- What the loop of `unseatable_mandatory` comes to: a decision for every occurrence that it settles,
-- and the occurrences that wait for one another.
use mathlib.Core.List.{Perm, perm_middle}
use mathlib.Core.List.Perm
use ubu_orchestrator.Base.{
  ℕ, zero, suc, ◌≤◌, String, Bool, true, false, ◌&&◌, ◌||◌, Option, none, some, List, [], ◌∷◌, ◌++◌,
  ◌≡◌, refl, sym, ap, subst, ◌∙◌, map, length, retain, All, All-map, All-retain, Any, any, is_some,
  is_none, arith, Bool-cases, inl, inr,
}
use ubu_orchestrator.Base.Order.{str_ord}
use ubu_orchestrator.Base.TreeMap.{TreeMap, get}
use ubu_orchestrator.Base.Sort.{sort_by-perm, All-sort_by}
use ubu_orchestrator.Planning.Window.{TimeWindow}
use ubu_orchestrator.Planning.Steps.{member}
use ubu_orchestrator.Planning.Seats.{
  DurationEstimate, TaskSpec, Seating, take_first, is_ready, settle, place, seat, fail, seat_all,
  rank_le, static_ends, pending_mandatory, seated, unseatable_mandatory,
}
use ubu_orchestrator.Planning.Seats.Decisions.{
  Decision, failures, end_of, Fits, AllBecause, After, After-fail, After-search, Adds,
}
use ubu_orchestrator.Planning.Seats.Taken.{
  Taken, take_first-some, take_first-none, any-Any, any-none, all-false, Any-map, all→,
}

module _ (placement_seconds : DurationEstimate → ℕ) (fixed_windows : List TimeWindow)
    (statics : TreeMap String ℕ) (ids : List String) where
  -- The Task has an end, or has failed.
  abbrev pub is_decided : List Decision → String → Bool
  is_decided log id = is_some (end_of statics log id) || member id (failures log)

  -- The pending Tasks that a Task depends on are decided; one of them is not.
  abbrev pub IsReady : List Decision → TaskSpec → Type 0
  IsReady log task = All (λ dep. member dep ids ≡ true → is_decided log dep ≡ true) task.depends_on

  abbrev pub IsWaiting : List Decision → TaskSpec → Type 0
  IsWaiting log task =
      Any (λ dep. (member dep ids ≡ true) × (is_decided log dep ≡ false)) task.depends_on

  -- Every Task is decided after those that it depends on.
  abbrev pub InOrder : List Decision → Type 0
  InOrder [] = Unit
  InOrder (d ∷ log) = IsReady log d.task × InOrder log

  abbrev IsAfter : List Decision → Seating → Type 0
  IsAfter = After placement_seconds fixed_windows statics

  -- What the loop has decided, and what is left of `all_tasks`.
  record Decided (all_tasks : List TaskSpec) (log : List Decision) (s : Seating) : Type 0 where
    after : IsAfter log s
    ordered : InOrder log
    perm : Perm (map (λ d. d.task) log ++ s.pending) all_tasks
    fits : All Fits s.pending

  test_of :
      (log : List Decision) (s : Seating) (dep : String)
      → IsAfter log s
      → (is_some (get dep s.ends) || member dep s.failed) ≡ is_decided log dep
  test_of log s dep a =
      ap (λ o. is_some o || member dep s.failed) (a.ends dep)
      ∙ ap (λ xs. is_some (end_of statics log dep) || member dep xs) a.failed

  IsReady-of :
      (log : List Decision) (s : Seating) (task : TaskSpec)
      → IsAfter log s
      → is_ready ids s task ≡ true
      → IsReady log task
  unfolding is_ready
  IsReady-of log s task a h =
      All-map _ _ (λ dep k m. let same = test_of log s dep a in ground arith) task.depends_on
        (all→ _ task.depends_on h)

  IsWaiting-of :
      (log : List Decision) (s : Seating) (task : TaskSpec)
      → IsAfter log s
      → is_ready ids s task ≡ false
      → IsWaiting log task
  unfolding is_ready
  IsWaiting-of log s task a h =
      Any-map _ _ (λ dep k. let same = test_of log s dep a in ground arith) task.depends_on
        (all-false _ task.depends_on h)

  settle-Adds :
      (log : List Decision) (s : Seating) (task : TaskSpec)
      → IsAfter log s
      → Fits task
      → Adds placement_seconds fixed_windows statics log task
          (settle placement_seconds fixed_windows task s)
  unfolding settle place
  settle-Adds log s task a fits =
      elim (Bool-cases (any (λ dep. member dep s.failed) task.depends_on)) [
        | inl e ↦ rw e (
          none,
          After-fail placement_seconds fixed_windows statics log s task a (
              inl (
                subst (λ xs. Any (λ dep. member dep xs ≡ true) task.depends_on) a.failed
                  (any-Any (λ dep. member dep s.failed) task.depends_on e))),
        )
        | inr e ↦ rw e (
            search task.window refl (
              subst (λ xs. All (λ dep. member dep xs ≡ false) task.depends_on) a.failed
                (any-none (λ dep. member dep s.failed) task.depends_on e)))
      ]
    where
      search :
          (o : Option TimeWindow)
          → task.window ≡ o
          → All (λ dep. member dep (failures log) ≡ false) task.depends_on
          → Adds placement_seconds fixed_windows statics log task
              (place placement_seconds fixed_windows task o s)
      search none e deps = (
        none,
        After-fail placement_seconds fixed_windows statics log s task a
            (inr (λ w q. absurd (cc (e, q)))),
      )
      search (some window) e deps =
          After-search placement_seconds fixed_windows statics log s task window a e (fits window e)
            deps _ refl

  seat-pending :
      (task : TaskSpec) (o : Option TimeWindow) (s : Seating) → (seat task o s).pending ≡ s.pending
  unfolding seat fail
  seat-pending task none s = refl
  seat-pending task (some w) s = refl

  place-pending :
      (task : TaskSpec) (o : Option TimeWindow) (s : Seating)
      → (place placement_seconds fixed_windows task o s).pending ≡ s.pending
  unfolding place fail
  place-pending task none s = refl
  place-pending task (some w) s = seat-pending task _ s

  settle-pending :
      (task : TaskSpec) (s : Seating)
      → (settle placement_seconds fixed_windows task s).pending ≡ s.pending
  unfolding settle fail
  settle-pending task s = elim (Bool-cases (any (λ dep. member dep s.failed) task.depends_on)) [
    | inl e ↦ rw e refl
    | inr e ↦ rw e (place-pending task task.window s)
  ]

  -- A round decides the task that it takes.
  round-Decided :
      (all_tasks : List TaskSpec) (log : List Decision) (s : Seating) (task : TaskSpec)
      (others : List TaskSpec)
      → Decided all_tasks log s
      → Taken (is_ready ids s) s.pending (task, others)
      → (o : Option TimeWindow) × Decided all_tasks
          (record { task = task; span = o } ∷ log)
          (settle placement_seconds fixed_windows task (record s { pending = others }))
  round-Decided all_tasks log s task others d k =
      let a = d.after in
      let rest : Seating = record s { pending = others } in
      let a' : IsAfter log rest = record {
        ends = a.ends;
        seats = a.seats;
        failed = a.failed;
        because = a.because;
      } in
      let fits = k.fits d.fits in
      let added = settle-Adds log rest task a' fits.0 in
      let left = settle-pending task rest in
      (
        added.0,
        record {
          after = added.1;
          ordered = (IsReady-of log s task a k.holds, d.ordered);
          perm =
              subst (λ xs. Perm (task ∷ (map (λ e. e.task) log ++ xs)) all_tasks) (sym left)
                (Perm.trans (Perm.symm (perm_middle (map (λ (e : Decision). e.task) log) others)) (
                  Perm.trans (Perm.append_left (map (λ (e : Decision). e.task) log) k.perm)
                    d.perm));
          fits = subst (All Fits) (sym left) fits.1;
        },
      )

  -- With fuel for every pending occurrence, the loop ends because none that is left is ready.
  abbrev Ended : List TaskSpec → Seating → Type 0
  Ended all_tasks s =
      (log : List Decision) × Decided all_tasks log s
      × All (λ t. is_ready ids s t ≡ false) s.pending

  seat_all-Ended :
      (all_tasks : List TaskSpec) (fuel : ℕ) (log : List Decision) (s : Seating)
      → length s.pending ≤ fuel
      → Decided all_tasks log s
      → Ended all_tasks (seat_all placement_seconds fixed_windows fuel ids s)
  unfolding seat_all
  seat_all-Ended all_tasks zero log s h d = (log, d, empty s.pending h)
    where
      empty : (tasks : List TaskSpec) → length tasks ≤ 0 → All (λ t. is_ready ids s t ≡ false) tasks
      empty [] h = tt
      empty (t ∷ ts) h = absurd (omega (arith, h))
  seat_all-Ended all_tasks (suc fuel) log s h d =
      go (seat_all-Ended all_tasks fuel) (take_first (is_ready ids s) s.pending) refl
    where
      next : Option (TaskSpec × List TaskSpec) → Seating
      next o = elim o [
        | none ↦ s
        | some (task, others) ↦
            seat_all placement_seconds fixed_windows fuel ids
              (settle placement_seconds fixed_windows task (record s { pending = others }))
      ]

      go :
          ((log' : List Decision) (t : Seating)
            → length t.pending ≤ fuel
            → Decided all_tasks log' t
            → Ended all_tasks (seat_all placement_seconds fixed_windows fuel ids t))
          → (o : Option (TaskSpec × List TaskSpec)) → take_first (is_ready ids s) s.pending ≡ o
          → Ended all_tasks (next o)
      go rec none e = (log, d, take_first-none (is_ready ids s) s.pending e)
      go rec (some (task, others)) e =
          let k = take_first-some (is_ready ids s) s.pending (task, others) e in
          let r = round-Decided all_tasks log s task others d k in
          let long = k.long in
          rec _ _
            (rw (settle-pending task (record s { pending = others })) (omega (arith, long, h))) r.1

-- The loop of `unseatable_mandatory` is explained by a decision for each mandatory occurrence that it
-- settles. Each is decided after the pending Tasks that it depends on; it is given a span of its
-- length in its window, after those Tasks and clear of the fixed windows and of the spans already
-- given, if none of them has failed and there is such a span; and it fails otherwise. The answer is
-- those that failed; each one left waits for a pending Task that is not decided. (Windows end within
-- 64 bits.)
pub unseatable_mandatory_lem :
    (placement_seconds : DurationEstimate → ℕ) (fixed_windows : List TimeWindow)
    (tasks : List TaskSpec) (mandatory : List String)
    → All Fits tasks
    → let ids = map (λ t. t.id) (pending_mandatory tasks mandatory) in
      let statics = static_ends tasks in
      (log : List Decision) × (waiting : List TaskSpec) × Perm
        (map (λ d. d.task) log ++ waiting)
        (retain (λ t. member t.id mandatory && is_none t.static_anchor) tasks)
      × AllBecause placement_seconds fixed_windows statics log
      × InOrder placement_seconds fixed_windows statics ids log
      × (unseatable_mandatory placement_seconds fixed_windows tasks mandatory ≡ failures log)
      × All (IsWaiting placement_seconds fixed_windows statics ids log) waiting
unfolding unseatable_mandatory seated pending_mandatory
unseatable_mandatory_lem placement_seconds fixed_windows tasks mandatory fits =
    let chosen = retain (λ t. member t.id mandatory && is_none t.static_anchor) tasks in
    let pending = pending_mandatory tasks mandatory in
    let ids = map (λ t. t.id) pending in
    let first : Seating = record {
      pending = pending;
      ends = static_ends tasks;
      seats = [];
      failed = [];
    } in
    let begun : Decided placement_seconds fixed_windows (static_ends tasks) ids chosen [] first =
      record {
        after = record { ends = λ id. refl; seats = refl; failed = refl; because = tt };
        ordered = tt;
        perm = sort_by-perm rank_le chosen;
        fits = All-sort_by rank_le Fits chosen (All-retain Fits _ tasks fits);
      } in
    let (log, d, unready) =
      seat_all-Ended placement_seconds fixed_windows (static_ends tasks) ids chosen (length pending)
        [] first (omega arith) begun in
    let s = seated placement_seconds fixed_windows tasks mandatory in
    (
      log,
      s.pending,
      d.perm,
      d.after.because,
      d.ordered,
      d.after.failed,
      All-map _ _
          (λ t q.
            IsWaiting-of placement_seconds fixed_windows (static_ends tasks) ids log s t d.after q)
          s.pending unready,
    )
