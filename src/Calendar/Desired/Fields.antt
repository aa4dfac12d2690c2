-- ===== src/Calendar/Desired/Fields.antt =====
-- The events of `desired_events`, field by field and in order.
use ubu_orchestrator.Base.{
  String, true, false, Option, none, some, List, [], ◌∷◌, ◌≡◌, ◌↔◌, refl, sym, subst, ap, ◌∙◌,
  eq_iff, All, All-map, Any, Bool-cases, Option-cases, eq_of_some, inl, inr, ◌⊎◌, arith,
  if◌then◌else◌,
}
use ubu_orchestrator.Base.Int.{ℤ}
use ubu_orchestrator.Base.Order.{
  str_ord, str_lt, str_lt_trans, str_lt_total, lt_asymm, le_trans, beq_comm,
}
use ubu_orchestrator.Base.Sort.{Pairwise, IsSortedBy, sort_by-IsSortedBy}
use ubu_orchestrator.Base.TreeMap.{TreeMap, get}
use ubu_orchestrator.Calendar.Event.{DesiredEvent}
use ubu_orchestrator.Calendar.Capture.{
  ◌<>◌, is_handle, external_id, external_id_for, checked, strip_prefix,
}
use ubu_orchestrator.Calendar.Capture.Handle.{external_id_iff, checked-append}
use ubu_orchestrator.Planning.Steps.{ScheduledTask}
use ubu_orchestrator.Calendar.Desired.{
  event_le, event_of, id_of, reminders_of, exported, desired_events,
}
use ubu_orchestrator.Calendar.Desired.Sources.{desired_events_lem, IsEventOf}

-- One event comes before another by its start, then by its external id.
abbrev pub Earlier : DesiredEvent → DesiredEvent → Type 0
Earlier a b =
    (str_lt a.start_at b.start_at ≡ true)
    ⊎ ((a.start_at ≡ b.start_at) × (str_lt b.external_id a.external_id ≡ false))

Earlier-of : (a b : DesiredEvent) → event_le a b ≡ true → Earlier a b
Earlier-of a b h = ground (arith, eq_iff a.start_at b.start_at)

total : (x y : DesiredEvent) → event_le x y ≡ false → event_le y x ≡ true
total x y h = ground (
  arith,
  str_lt_total x.start_at y.start_at,
  beq_comm x.start_at y.start_at,
  lt_asymm str_ord y.external_id x.external_id,
)

trans : (x y z : DesiredEvent) → event_le x y ≡ true → event_le y z ≡ true → event_le x z ≡ true
trans x y z h k = ground (
  arith,
  str_lt_trans x.start_at y.start_at z.start_at,
  eq_iff x.start_at y.start_at,
  eq_iff y.start_at z.start_at,
  eq_iff x.start_at z.start_at,
  le_trans str_ord x.external_id y.external_id z.external_id,
)

sorted-Pairwise : (es : List DesiredEvent) → IsSortedBy event_le es → Pairwise Earlier es
sorted-Pairwise [] h = tt
sorted-Pairwise (e ∷ es) h = (All-map _ _ (Earlier-of e) es h.0, sorted-Pairwise es h.1)

external_id-append :
    (origin id : String)
    → (external_id ("task_" <> origin) ≡ some id) ↔ ((origin ≡ id) × (is_handle id ≡ true))
unfolding external_id
external_id-append origin id = (to, from)
  where
    to :
        checked (strip_prefix "task_" ("task_" <> origin)) ≡ some id
        → (origin ≡ id) × (is_handle id ≡ true)
    to h = go (Bool-cases (is_handle origin)) (sym (checked-append "task_" origin) ∙ h)
      where
        go :
            ((is_handle origin ≡ true) ⊎ (is_handle origin ≡ false))
            → (if is_handle origin then some origin else none) ≡ some id
            → (origin ≡ id) × (is_handle id ≡ true)
        go (inl e) k =
            let same : origin ≡ id = eq_of_some (rw e at k) in
            (same, subst (λ t. is_handle t ≡ true) same e)
        go (inr e) k = absurd (let bad : none ≡ some id = rw e at k in cc)

    from :
        (origin ≡ id) × (is_handle id ≡ true)
        → checked (strip_prefix "task_" ("task_" <> origin)) ≡ some id
    from h =
        checked-append "task_" origin
        ∙ ap (λ t. if is_handle t then some t else none) h.0
        ∙ ap (λ b. if b then some id else none) h.1

module _ (reminders_by_objective : TreeMap String (List ℤ))
    (objective_of_task captured_origins : TreeMap String String) where
  -- The external id is the one that the Task was captured with, or its own id without `task_`; it is
  -- a text that Google takes.
  abbrev pub HasId : ScheduledTask → String → Type 0
  HasId step id =
      (is_handle id ≡ true)
      × (((origin : String) → get step.task_id captured_origins ≡ some origin → origin ≡ id)
          × (get step.task_id captured_origins ≡ none → step.task_id ≡ "task_" <> id))

  -- The reminders are those of the Task's objective, if it has one that has some.
  abbrev pub HasReminders : String → List ℤ → Type 0
  HasReminders task_id minutes =
      ((objective : String) (given : List ℤ)
        → get task_id objective_of_task ≡ some objective
        → get objective reminders_by_objective ≡ some given
        → minutes ≡ given)
      × ((get task_id objective_of_task ≡ none) → minutes ≡ [])
      × ((objective : String)
          → get task_id objective_of_task ≡ some objective
          → get objective reminders_by_objective ≡ none
          → minutes ≡ [])

  -- What a step puts into the calendar.
  pub record Shows (step : ScheduledTask) (e : DesiredEvent) : Type 0 where
    pub id : HasId step e.external_id
    pub task : e.task_id ≡ step.task_id
    pub title : e.summary ≡ step.summary
    pub blank : e.description ≡ none
    pub starts : e.start_at ≡ step.start_at
    pub ends : e.end_at ≡ step.end_at
    pub colour : e.color_id ≡ step.gcal_color_id
    pub busy : (e.transparent ≡ true) ↔ (step.occupies_capacity ≡ false)
    pub reminds : HasReminders step.task_id e.reminders_minutes

  abbrev code_id : ScheduledTask → Option String
  code_id = id_of reminders_by_objective objective_of_task captured_origins

  HasId-iff : (step : ScheduledTask) (id : String) → (code_id step ≡ some id) ↔ HasId step id
  unfolding id_of external_id_for
  HasId-iff step id = elim (Option-cases (get step.task_id captured_origins)) [
    | inl e ↦
        let law = external_id_iff step.task_id id in
        let code : code_id step ≡ external_id step.task_id = ap (external_id_for step.task_id) e in
        (
          (λ h.
              let found = law.0 (sym code ∙ h) in
              (found.1, ((λ origin q. absurd (cc (e, q))), (λ q. found.0)))),
          (λ h. code ∙ law.1 (h.1.1 e, h.0)),
        )
    | inr (origin, e) ↦
        let law = external_id-append origin id in
        let code : code_id step ≡ external_id ("task_" <> origin) =
          ap (external_id_for step.task_id) e in
        (
          (λ h.
              let found = law.0 (sym code ∙ h) in
              (
                found.1,
                (
                  (λ origin' q. eq_of_some (sym q ∙ e) ∙ found.0),
                  (λ q. absurd (let bad : none ≡ some origin = sym q ∙ e in cc)),
                ),
              )),
          (λ h. code ∙ law.1 (h.1.0 origin e, h.0)),
        )
  ]

  reminders_of-HasReminders :
      (task_id : String)
      → HasReminders task_id
          (reminders_of reminders_by_objective objective_of_task captured_origins task_id)
  unfolding reminders_of
  reminders_of-HasReminders task_id = (
    (λ objective given q r. rw (q, reminders_of) (rw r refl)),
    (λ q. rw (q, reminders_of) refl),
    (λ objective q r. rw (q, reminders_of) (rw r refl)),
  )

  event_of-Shows :
      (step : ScheduledTask) (id : String)
      → HasId step id
      → Shows step (event_of reminders_by_objective objective_of_task captured_origins step id)
  unfolding event_of
  event_of-Shows step id h = record {
    id = h;
    task = refl;
    title = refl;
    blank = refl;
    starts = refl;
    ends = refl;
    colour = refl;
    busy = ((λ q. ground arith), (λ q. ground arith));
    reminds = reminders_of-HasReminders step.task_id;
  }

  Any-Shows :
      (e : DesiredEvent) (steps : List ScheduledTask)
      → Any (IsEventOf reminders_by_objective objective_of_task captured_origins e) steps
      → Any (λ step. Shows step e) steps
  Any-Shows e [] h = h
  Any-Shows e (step ∷ steps) (inl (i, q)) = inl (
      subst (Shows step) (sym q)
        (event_of-Shows step e.external_id ((HasId-iff step e.external_id).0 i)))
  Any-Shows e (step ∷ steps) (inr h) = inr (Any-Shows e steps h)

  Any-eq :
      (step : ScheduledTask) (id : String) (es : List DesiredEvent)
      → HasId step id
      → Any (λ e. e ≡ event_of reminders_by_objective objective_of_task captured_origins step id) es
      → Any (λ e. (e.external_id ≡ id) × Shows step e) es
  unfolding event_of
  Any-eq step id [] i h = h
  Any-eq step id (e ∷ es) i (inl q) =
      inl (ap (λ x. x.external_id) q, subst (Shows step) (sym q) (event_of-Shows step id i))
  Any-eq step id (e ∷ es) i (inr h) = inr (Any-eq step id es i h)

  -- The desired events are in the order of start and external id. Each shows a step: its Task, title,
  -- start, end and colour, transparent exactly if it occupies no capacity, with the reminders of the
  -- Task's objective, under the id that the Task was captured with or its own id without `task_`.
  -- Every step that has such an id is shown under it.
  pub desired_events-Shows :
      (steps : List ScheduledTask)
      → let events =
          desired_events reminders_by_objective objective_of_task captured_origins steps in
        Pairwise Earlier events
        × All (λ e. Any (λ step. Shows step e) steps) events
        × All
            (λ step.
              (id : String) → HasId step id → Any (λ e. (e.external_id ≡ id) × Shows step e) events)
            steps
  unfolding desired_events
  desired_events-Shows steps =
      let events = desired_events reminders_by_objective objective_of_task captured_origins steps in
      let code =
        desired_events_lem reminders_by_objective objective_of_task captured_origins steps in
      (
        sorted-Pairwise events (
            sort_by-IsSortedBy event_le total trans
              (exported reminders_by_objective objective_of_task captured_origins steps)),
        All-map _ _ (λ e h. Any-Shows e steps h) events code.0,
        All-map _ _ (λ step h id i. Any-eq step id events i (h id ((HasId-iff step id).1 i))) steps
            code.1,
      )
