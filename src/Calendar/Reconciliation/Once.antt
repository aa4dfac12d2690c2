-- ===== src/Calendar/Reconciliation/Once.antt =====
-- What a repair does to the store.
use ubu_orchestrator.Base.{
  ◌+◌, ◌≤◌, String, str_eq, eq_iff, true, false, Option, none, some, List, [], ◌∷◌, ◌++◌, ◌≡◌, ◌≢◌,
  refl, sym, ap, ◌∙◌, length, retain, All, arith, inl, inr, Bool-cases, if◌then◌else◌,
  length-append,
}
use ubu_orchestrator.Base.Sort.{length-sort_by}
use ubu_orchestrator.Base.Order.{str_ord}
use ubu_orchestrator.Base.Distinct.{HasKey, values-collect-Distinct, All-values-collect, length-le}
use ubu_orchestrator.Errors.{Result, ok}
use ubu_orchestrator.Errors.Exec.{bind-ok}
use ubu_orchestrator.Calendar.Event.{DesiredEvent, event_id, HasDistinctIds, by_external_id}
use ubu_orchestrator.Calendar.Reconcile.{owns, repair as repair_applied}
use ubu_orchestrator.Calendar.Apply.{last_applied_events}
use ubu_orchestrator.Calendar.Reconciliation.{
  Reconciliation, CalendarStore, CalendarRepairResponse, find_reconciliation, mark_repaired,
  reconciliation_schema,
}
use ubu_orchestrator.Calendar.Reconciliation.Stored.{
  loaded, load_reconciliation, id_le, repair_response, repaired_events, repaired_result,
  write_repair, repair,
}

HasKey-owned :
    (applied : List DesiredEvent) (e : DesiredEvent)
    → owns applied e.external_id ≡ true
    → HasKey event_id applied e
unfolding owns
HasKey-owned [] e h = cc
HasKey-owned (old ∷ applied) e h = elim (Bool-cases (str_eq e.external_id old.external_id)) [
  | inl same ↦
      inl
        (ground (arith, eq_iff e.external_id old.external_id, eq_iff old.external_id e.external_id))
  | inr other ↦ inr (HasKey-owned applied e (rw other at h))
]

HasKey-retained :
    (applied observed : List DesiredEvent)
    → All (HasKey event_id applied) (retain (λ e. owns applied e.external_id) observed)
HasKey-retained applied [] = tt
HasKey-retained applied (e ∷ observed) =
    let rest = HasKey-retained applied observed in
    elim (Bool-cases (owns applied e.external_id)) [
      | inl own ↦ rw own (HasKey-owned applied e own, rest)
      | inr other ↦ rw other rest
    ]

-- A repaired event has the id of an applied one; and no id is kept twice.
pub HasKey-repair :
    (applied observed : List DesiredEvent)
    → All (HasKey event_id applied) (repair_applied applied observed)
unfolding repair_applied by_external_id
HasKey-repair applied observed =
    All-values-collect event_id (HasKey event_id applied)
      (retain (λ e. owns applied e.external_id) observed) (HasKey-retained applied observed)

pub repair-HasDistinctIds :
    (applied observed : List DesiredEvent) → HasDistinctIds (repair_applied applied observed)
unfolding repair_applied by_external_id
repair-HasDistinctIds applied observed =
    values-collect-Distinct event_id (retain (λ e. owns applied e.external_id) observed)

-- A repair keeps at most as many events as were applied, so that the count of dropped events, a
-- subtraction of unsigned numbers, does not wrap round.
pub length-repair-le :
    (applied observed : List DesiredEvent)
    → length (repair_applied applied observed) ≤ length applied
length-repair-le applied observed =
    length-le event_id applied (repair_applied applied observed)
      (repair-HasDistinctIds applied observed) (HasKey-repair applied observed)

abbrev pub marked : Option Reconciliation → Option Reconciliation
marked none = none
marked (some row) = some (record row { status = "repaired" })

pub find-mark :
    (id j : String) (rows : List (String × Reconciliation))
    → find_reconciliation j (mark_repaired id rows)
      ≡ (if str_eq j id then marked (find_reconciliation j rows) else find_reconciliation j rows)
unfolding find_reconciliation mark_repaired
find-mark id j [] = ground arith
find-mark id j ((k, row) ∷ rows) =
    ground (arith, find-mark id j rows, eq_iff k j, eq_iff j id, eq_iff k id)

-- What a successful repair has found and done.
pub record Repaired (id : String) (response : CalendarRepairResponse) (s s' : CalendarStore)
    : Type 0 where
  pub row : Reconciliation
  pub found : load_reconciliation id s ≡ ok row
  pub answers : response ≡ repair_response id row
  pub writes : s' ≡ write_repair id row s

pub repair-Repaired :
    (id : String) (commits : Result (Unit {0})) (response : CalendarRepairResponse)
    (s s' : CalendarStore)
    → repair id commits s ≡ (s', ok response)
    → Repaired id response s s'
unfolding repair
repair-Repaired id commits response s s' h =
    let a = bind-ok _ _ s s' response h in
    let b = bind-ok _ _ a.between s' response a.rest_ok in
    let c = bind-ok _ _ b.between s' response b.rest_ok in
    let at_a : a.between ≡ s = ap (λ x. x.0) (sym a.fst_ok) in
    let at_b : b.between ≡ a.between = ap (λ x. x.0) (sym b.fst_ok) in
    let at_c : write_repair id a.value b.between ≡ c.between = ap (λ x. x.0) c.fst_ok in
    let loads : load_reconciliation id s ≡ ok a.value = ap (λ x. x.1) a.fst_ok in
    let end : c.between ≡ s' = ap (λ x. x.0) c.rest_ok in
    let answer : ok (repair_response id a.value) ≡ ok response = ap (λ x. x.1) c.rest_ok in
    record { row = a.value; found = loads; answers = cc; writes = cc (at_a, at_b, at_c, end) }

-- What the checks on a row let through.
pub record Loaded (id : String) (s : CalendarStore) (row : Reconciliation) : Type 0 where
  pub found : find_reconciliation id s.reconciliations ≡ some row
  pub supported : row.schema_version ≡ reconciliation_schema
  pub open_row : str_eq row.status "repaired" ≡ false

pub load-Loaded :
    (id : String) (s : CalendarStore) (row : Reconciliation)
    → load_reconciliation id s ≡ ok row
    → Loaded id s row
unfolding load_reconciliation
load-Loaded id s row h = go (find_reconciliation id s.reconciliations) refl h
  where
    go :
        (o : Option Reconciliation)
        → find_reconciliation id s.reconciliations ≡ o
        → loaded o ≡ ok row
        → Loaded id s row
    go none e h = absurd (cc)
    go (some r) e h = elim (Bool-cases (str_eq r.schema_version reconciliation_schema)) [
      | inr no_schema ↦ let h' : loaded (some r) ≡ ok row = h in absurd (ground arith)
      | inl schema ↦ elim (Bool-cases (str_eq r.status "repaired")) [
        | inl done ↦ absurd (ground arith)
        | inr fresh ↦
            let same : r ≡ row = ground arith in
            rw (← same) (record {
              found = e;
              supported = (eq_iff r.schema_version reconciliation_schema).0 schema;
              open_row = fresh;
            })
      ]
    ]

module _ (id : String) (commits : Result (Unit {0})) (response : CalendarRepairResponse)
    (s s' : CalendarStore) where
  -- A repair that returned a response found a row that was not repaired. The applied events are then
  -- the row's repaired events, as many as the response counts, and with the dropped ones as many as
  -- were applied in range; no preview and no other reconciliation has changed.
  pub repair_lem :
      repair id commits s ≡ (s', ok response)
      → (row : Reconciliation) × (find_reconciliation id s.reconciliations ≡ some row)
        × (row.status ≢ "repaired")
        × (last_applied_events s'.tables.results ≡ repaired_events row)
        × (length (last_applied_events s'.tables.results) ≡ response.applied_event_count)
        × (response.dropped_events + length (repair_applied row.applied_events row.observed_events)
            ≡ length row.applied_events)
        × (s'.tables.previews ≡ s.tables.previews)
        × ((j : String)
            → str_eq j id ≡ false
            → find_reconciliation j s'.reconciliations ≡ find_reconciliation j s.reconciliations)
  unfolding write_repair last_applied_events repaired_result repaired_events repair_response
  repair_lem h =
      let r = repair-Repaired id commits response s s' h in
      let l = load-Loaded id s r.row r.found in
      let events : last_applied_events s'.tables.results ≡ repaired_events r.row =
        ap (λ t. last_applied_events t.tables.results) r.writes in
      let kept = repair_applied r.row.applied_events r.row.observed_events in
      (
        r.row,
        l.found,
        (λ e. ground (arith, eq_iff r.row.status "repaired")),
        events,
        ap length events
            ∙ length-sort_by id_le (kept ++ r.row.out_of_range_events)
            ∙ length-append kept r.row.out_of_range_events
            ∙ ap (λ x. x.applied_event_count) (sym r.answers),
        omega (
          arith,
          ap (λ x. x.dropped_events) r.answers,
          length-repair-le r.row.applied_events r.row.observed_events,
        ),
        ap (λ t. t.tables.previews) r.writes,
        (λ j n.
            ap (λ t. find_reconciliation j t.reconciliations) r.writes
            ∙ find-mark id j s.reconciliations
            ∙ rw n),
      )
