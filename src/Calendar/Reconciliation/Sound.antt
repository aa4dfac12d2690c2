-- ===== src/Calendar/Reconciliation/Sound.antt =====
-- The events that a reconciliation stores and a repair leaves have each external id once, and what
-- each id then reads.
use ubu_orchestrator.Base.{
  ℕ, subst, String, str_eq, eq_iff, Bool, true, false, not, Option, none, some, List, [], ◌∷◌, ◌++◌,
  ◌≡◌, refl, sym, ap, ◌∙◌, All, arith, inl, inr, Bool-cases, if◌then◌else◌,
}
use ubu_orchestrator.Base.Order.{str_ord}
use ubu_orchestrator.Base.TreeMap.{get, find_last, get-collect}
use ubu_orchestrator.Base.Distinct.{
  Apart, Apart-Any, Differ, retain-Distinct, retain-Apart, append-Distinct, sort_by-Distinct,
  get-collect-sort_by,
}
use ubu_orchestrator.Errors.{ok, ok-eq, >>=-eq-ok}
use ubu_orchestrator.Calendar.Event.{DesiredEvent, event_id, HasDistinctIds, by_external_id}
use ubu_orchestrator.Calendar.Reconcile.{owns, repair as repair_applied}
use ubu_orchestrator.Calendar.Reconcile.Repair.{get-repair}
use ubu_orchestrator.Calendar.Interaction.{Timestamps, range_overlaps}
use ubu_orchestrator.Calendar.Apply.{StoredCalendarResult, last_applied_events}
use ubu_orchestrator.Calendar.Reconciliation.{
  Reconciliation, CapturedSource, Observer, observed_row, observe,
}
use ubu_orchestrator.Calendar.Reconciliation.Stored.{repaired_events, id_le}
use ubu_orchestrator.Calendar.Reconciliation.Once.{HasKey-repair, repair-HasDistinctIds}

-- No id twice, neither among the events in range nor those out of range, nor in both.
pub record IsSound (row : Reconciliation) : Type 0 where
  pub applied : HasDistinctIds row.applied_events
  pub out_of_range : HasDistinctIds row.out_of_range_events
  pub apart : Apart event_id row.applied_events row.out_of_range_events

module _ (ts : Timestamps) (timestamp_at : ℕ → Option String) (o : Observer ts timestamp_at)
    (results : List StoredCalendarResult) (d : HasDistinctIds (last_applied_events results)) where
  observed_row-IsSound :
      (range : ts.Instant × ts.Instant) (listed : List DesiredEvent) (sources : List CapturedSource)
      (active : List String)
      → IsSound (observed_row ts timestamp_at o results range listed sources active)
  unfolding observed_row
  observed_row-IsSound range listed sources active =
      let all_applied = last_applied_events results in
      record {
        applied = retain-Distinct event_id (range_overlaps ts range) all_applied d;
        out_of_range =
            retain-Distinct event_id (λ event. not (range_overlaps ts range event)) all_applied d;
        apart = retain-Apart event_id (range_overlaps ts range) all_applied d;
      }

  -- A reconciliation of applied events without a repeated id stores a sound row.
  pub observe-IsSound :
      (row : Reconciliation) → observe ts timestamp_at o results ≡ ok row → IsSound row
  unfolding observe
  observe-IsSound row h =
      let a = >>=-eq-ok o.available _ h in
      let b = >>=-eq-ok o.connects _ a.2 in
      let (range, r, c) = >>=-eq-ok o.range _ b.2 in
      let (listed, l, e) = >>=-eq-ok (o.list_events (last_applied_events results) range) _ c in
      let (sources, g, f) = >>=-eq-ok o.by_source _ e in
      let (active, k, m) = >>=-eq-ok o.active_tasks _ f in
      subst IsSound (ok-eq m) (observed_row-IsSound range listed sources active)

module _ (row : Reconciliation) (sound : IsSound row) where
  kept-HasDistinctIds :
      HasDistinctIds
        (repair_applied row.applied_events row.observed_events ++ row.out_of_range_events)
  kept-HasDistinctIds =
      let kept = repair_applied row.applied_events row.observed_events in
      append-Distinct event_id kept row.out_of_range_events
        (repair-HasDistinctIds row.applied_events row.observed_events) sound.out_of_range
        (Apart-Any event_id row.applied_events kept row.out_of_range_events
          (HasKey-repair row.applied_events row.observed_events) sound.apart)

  -- A repair leaves each external id once.
  pub repaired_events-HasDistinctIds : HasDistinctIds (repaired_events row)
  unfolding repaired_events
  repaired_events-HasDistinctIds =
      sort_by-Distinct event_id id_le
        (repair_applied row.applied_events row.observed_events ++ row.out_of_range_events)
        kept-HasDistinctIds

find_last-append :
    (j : String) (xs ys : List DesiredEvent) (d : Option DesiredEvent)
    → find_last event_id j (xs ++ ys) d ≡ find_last event_id j ys (find_last event_id j xs d)
unfolding find_last
find_last-append j [] ys d = refl
find_last-append j (x ∷ xs) ys d =
    find_last-append j xs ys (if str_eq x.external_id j then some x else d)

-- An id that was applied in range is none of those out of range.
find_last-Apart :
    (j : String) (xs ys : List DesiredEvent) (d : Option DesiredEvent)
    → owns xs j ≡ true
    → Apart event_id xs ys
    → find_last event_id j ys d ≡ d
unfolding owns find_last
find_last-Apart j [] ys d h a = cc
find_last-Apart j (x ∷ xs) ys d h a = elim (Bool-cases (str_eq j x.external_id)) [
  | inl e ↦ others ((eq_iff j x.external_id).0 e) ys d a.0
  | inr e ↦ find_last-Apart j xs ys d (rw e at h) a.1
]
  where
    others :
        j ≡ x.external_id
        → (ys : List DesiredEvent) (d : Option DesiredEvent) → All (Differ event_id x) ys
        → find_last event_id j ys d ≡ d
    others e [] d n = refl
    others e (y ∷ ys) d n =
        ground
          (arith, eq_iff x.external_id y.external_id, eq_iff y.external_id j, others e ys d n.1)

-- After a repair, an id that was applied in range reads what was observed of it, and nothing if it
-- was not observed; any other id reads what was applied out of range. So an event that UbU did not
-- own is not adopted, and one that the observation could not see is not lost.
pub get-repaired_events :
    (row : Reconciliation) (id : String)
    → IsSound row
    → get id (by_external_id (repaired_events row)) ≡ (
        if owns row.applied_events id
        then get id (by_external_id row.observed_events)
        else get id (by_external_id row.out_of_range_events))
unfolding repaired_events by_external_id
get-repaired_events row id sound =
    let kept = repair_applied row.applied_events row.observed_events in
    let out = row.out_of_range_events in
    let kept_reads =
      sym (get-collect event_id id kept) ∙ get-repair row.applied_events row.observed_events id in
    get-collect-sort_by event_id id_le id (kept ++ out) (kept-HasDistinctIds row sound)
    ∙ get-collect event_id id (kept ++ out)
    ∙ find_last-append id kept out none
    ∙ ap (find_last event_id id out) kept_reads
    ∙ join (owns row.applied_events id) refl
  where
    join :
        (b : Bool)
        → owns row.applied_events id ≡ b
        → find_last event_id id row.out_of_range_events
            (if b then get id (by_external_id row.observed_events) else none)
          ≡ (if b
              then get id (by_external_id row.observed_events)
              else get id (by_external_id row.out_of_range_events))
    join true h =
        find_last-Apart id row.applied_events row.out_of_range_events
          (get id (by_external_id row.observed_events)) h sound.apart
    join false h = sym (get-collect event_id id row.out_of_range_events)
