-- ===== src/Calendar/Desired/Sources.antt =====
-- The events of `desired_events` and the steps that they are from.
use ubu_orchestrator.Base.{
  String, true, false, Option, none, some, List, [], ◌∷◌, ◌≡◌, refl, sym, ap, ◌∙◌, str_eq, eq_iff,
  All, All-map, Any, Bool-cases, eq_of_some, inl, inr, ◌⊎◌,
}
use mathlib.Core.Bool.{false≢true}
use ubu_orchestrator.Base.Int.{ℤ}
use ubu_orchestrator.Base.Order.{str_ord}
use ubu_orchestrator.Base.Sort.{Pairwise, Pairwise-sort_by, All-sort_by, Any-sort_by}
use ubu_orchestrator.Base.TreeMap.{TreeMap, get}
use ubu_orchestrator.Calendar.Event.{DesiredEvent}
use ubu_orchestrator.Calendar.Capture.{external_id, external_id_for}
use ubu_orchestrator.Calendar.Capture.Handle.{external_id_iff}
use ubu_orchestrator.Planning.Steps.{ScheduledTask}
use ubu_orchestrator.Planning.Steps.Merge.{IsOther}
use ubu_orchestrator.Calendar.Desired.{event_le, event_of, id_of, exported, desired_events}

abbrev pub OtherId : DesiredEvent → DesiredEvent → Type 0
OtherId a b = str_eq a.external_id b.external_id ≡ false

module _ (reminders_by_objective : TreeMap String (List ℤ))
    (objective_of_task captured_origins : TreeMap String String) where
  -- The event is the step's, under the id that its Task or its captured origin gives.
  abbrev pub IsEventOf : DesiredEvent → ScheduledTask → Type 0
  IsEventOf e step =
      (id_of reminders_by_objective objective_of_task captured_origins step ≡ some e.external_id)
      × (e ≡ event_of reminders_by_objective objective_of_task captured_origins step e.external_id)

  exported_sound :
      (steps : List ScheduledTask)
      → All
          (λ e. Any (IsEventOf e) steps)
          (exported reminders_by_objective objective_of_task captured_origins steps)
  unfolding exported
  exported_sound [] = tt
  exported_sound (step ∷ steps) =
      go (id_of reminders_by_objective objective_of_task captured_origins step) refl (
        All-map _ _ (λ e h. inr h)
          (exported reminders_by_objective objective_of_task captured_origins steps)
          (exported_sound steps))
    where
      go :
          (o : Option String)
          → id_of reminders_by_objective objective_of_task captured_origins step ≡ o
          → All
              (λ e. Any (IsEventOf e) (step ∷ steps))
              (exported reminders_by_objective objective_of_task captured_origins steps)
          → All
              (λ e. Any (IsEventOf e) (step ∷ steps))
              (elim o [
                | none ↦ exported reminders_by_objective objective_of_task captured_origins steps
                | some id ↦
                    event_of reminders_by_objective objective_of_task captured_origins step id
                    ∷ exported reminders_by_objective objective_of_task captured_origins steps
              ])
      go none e h = h
      go (some id) e h = (inl (e, refl), h)

  exported_complete :
      (steps : List ScheduledTask)
      → All
          (λ step.
            (id : String)
            → id_of reminders_by_objective objective_of_task captured_origins step ≡ some id
            → Any
                (λ e.
                  e ≡ event_of reminders_by_objective objective_of_task captured_origins step id)
                (exported reminders_by_objective objective_of_task captured_origins steps))
          steps
  unfolding exported id_of
  exported_complete [] = tt
  exported_complete (step ∷ steps) = (
    (λ id e. head id (id_of reminders_by_objective objective_of_task captured_origins step) e),
    All-map _ _
        (λ step' h id e.
          tail id step' (id_of reminders_by_objective objective_of_task captured_origins step)
            (h id e))
        steps (exported_complete steps),
  )
    where
      head :
          (id : String) (o : Option String)
          → o ≡ some id
          → Any
              (λ e. e ≡ event_of reminders_by_objective objective_of_task captured_origins step id)
              (elim o [
                | none ↦ exported reminders_by_objective objective_of_task captured_origins steps
                | some id ↦
                    event_of reminders_by_objective objective_of_task captured_origins step id
                    ∷ exported reminders_by_objective objective_of_task captured_origins steps
              ])
      head id none e = absurd (cc)
      head id (some id') e = inl (
          ap (event_of reminders_by_objective objective_of_task captured_origins step)
            (eq_of_some e))

      tail :
          (id : String) (step' : ScheduledTask) (o : Option String)
          → Any
              (λ e. e ≡ event_of reminders_by_objective objective_of_task captured_origins step' id)
              (exported reminders_by_objective objective_of_task captured_origins steps)
          → Any
              (λ e. e ≡ event_of reminders_by_objective objective_of_task captured_origins step' id)
              (elim o [
                | none ↦ exported reminders_by_objective objective_of_task captured_origins steps
                | some id ↦
                    event_of reminders_by_objective objective_of_task captured_origins step id
                    ∷ exported reminders_by_objective objective_of_task captured_origins steps
              ])
      tail id step' none h = h
      tail id step' (some _) h = inr h

  -- The desired events are those of the steps whose Task or captured origin gives an external id:
  -- every event is that of a step, and every such step has its event.
  pub desired_events_lem :
      (steps : List ScheduledTask)
      → let events =
          desired_events reminders_by_objective objective_of_task captured_origins steps in
        All (λ e. Any (IsEventOf e) steps) events
        × All
            (λ step.
              (id : String)
              → id_of reminders_by_objective objective_of_task captured_origins step ≡ some id
              → Any
                  (λ e.
                    e ≡ event_of reminders_by_objective objective_of_task captured_origins step id)
                  events)
            steps
  unfolding desired_events
  desired_events_lem steps =
      let events = exported reminders_by_objective objective_of_task captured_origins steps in
      (
        All-sort_by event_le (λ e. Any (IsEventOf e) steps) events (exported_sound steps),
        All-map _ _ (λ step h id e. Any-sort_by event_le _ events (h id e)) steps
            (exported_complete steps),
      )

module _ (reminders_by_objective : TreeMap String (List ℤ))
    (objective_of_task : TreeMap String String) where
  others :
      (step : ScheduledTask) (id : String) (steps : List ScheduledTask)
      → All (IsOther step) steps
      → external_id step.task_id ≡ some id
      → All
          (λ e. str_eq id e.external_id ≡ false)
          (exported reminders_by_objective objective_of_task [] steps)
  unfolding exported id_of external_id_for get
  others step id [] h k = tt
  others step id (step' ∷ steps) h k =
      go (external_id step'.task_id) refl (others step id steps h.1 k)
    where
      differ :
          (id' : String)
          → external_id step'.task_id ≡ some id'
          → (str_eq id id' ≡ true) ⊎ (str_eq id id' ≡ false)
          → str_eq id id' ≡ false
      differ id' e (inr q) = q
      differ id' e (inl q) =
          let a = ((external_id_iff step.task_id id).0 k).0 in
          let b = ((external_id_iff step'.task_id id').0 e).0 in
          let same : step.task_id ≡ step'.task_id = cc (a, b, (eq_iff id id').0 q) in
          absurd (false≢true (sym h.0 ∙ (eq_iff step.task_id step'.task_id).1 same))

      go :
          (o : Option String)
          → external_id step'.task_id ≡ o
          → All
              (λ e. str_eq id e.external_id ≡ false)
              (exported reminders_by_objective objective_of_task [] steps)
          → All
              (λ e. str_eq id e.external_id ≡ false)
              (elim o [
                | none ↦ exported reminders_by_objective objective_of_task [] steps
                | some id' ↦
                    event_of reminders_by_objective objective_of_task [] step' id'
                    ∷ exported reminders_by_objective objective_of_task [] steps
              ])
      go none e rest = rest
      go (some id') e rest = (differ id' e (Bool-cases (str_eq id id')), rest)

  exported-Pairwise :
      (steps : List ScheduledTask)
      → Pairwise IsOther steps
      → Pairwise OtherId (exported reminders_by_objective objective_of_task [] steps)
  unfolding exported id_of external_id_for get
  exported-Pairwise [] h = tt
  exported-Pairwise (step ∷ steps) h =
      go (external_id step.task_id) refl (exported-Pairwise steps h.1)
    where
      go :
          (o : Option String)
          → external_id step.task_id ≡ o
          → Pairwise OtherId (exported reminders_by_objective objective_of_task [] steps)
          → Pairwise OtherId (elim o [
            | none ↦ exported reminders_by_objective objective_of_task [] steps
            | some id' ↦
                event_of reminders_by_objective objective_of_task [] step id'
                ∷ exported reminders_by_objective objective_of_task [] steps
          ])
      go none e rest = rest
      go (some id') e rest = (others step id' steps h.0 e, rest)

  -- Where no Task has two steps and none is captured, no external id is asked for twice.
  pub desired_events-Pairwise :
      (steps : List ScheduledTask)
      → Pairwise IsOther steps
      → Pairwise OtherId (desired_events reminders_by_objective objective_of_task [] steps)
  unfolding desired_events
  desired_events-Pairwise steps h =
      Pairwise-sort_by event_le OtherId flip
        (exported reminders_by_objective objective_of_task [] steps) (exported-Pairwise steps h)
    where
      flip : (a b : DesiredEvent) → OtherId a b → OtherId b a
      flip a b h = elim (Bool-cases (str_eq b.external_id a.external_id)) [
        | inr e ↦ e
        | inl e ↦ absurd (
            false≢true (
              sym h
              ∙ (eq_iff a.external_id b.external_id).1
                  (sym ((eq_iff b.external_id a.external_id).0 e))))
      ]
