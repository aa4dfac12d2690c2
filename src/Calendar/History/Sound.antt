-- ===== src/Calendar/History/Sound.antt =====
-- Whatever is called in whatever order, no external id stands twice among the applied events, nor
-- in a stored reconciliation.
use ubu_orchestrator.Base.{
  ℕ, String, str_eq, Bool, true, false, Option, some, List, [], ◌∷◌, ◌≡◌, refl, sym, ap, subst, All,
  inl, inr, Bool-cases, if◌then◌else◌, eq_of_some,
}
use ubu_orchestrator.Base.Order.{str_ord}
use ubu_orchestrator.Base.TreeMap.{values, collect-IsSorted, collect-IsKeyed}
use ubu_orchestrator.Base.Distinct.{values-Distinct}
use ubu_orchestrator.Errors.{Result, ok, err}
use ubu_orchestrator.Errors.Exec.{Fixes, Fixes-bind, bind-holds, bind-reads}
use ubu_orchestrator.Calendar.Event.{DesiredEvent, event_id, HasDistinctIds, by_external_id}
use ubu_orchestrator.Calendar.Diff.{CalendarOperation, land_all}
use ubu_orchestrator.Calendar.Diff.Converge.{land_all-IsSorted, land_all-Keyed}
use ubu_orchestrator.Calendar.Interaction.{Timestamps}
use ubu_orchestrator.Calendar.Apply.{
  Env, Tables, StoredCalendarResult, last_applied_events, is_landed,
}
use ubu_orchestrator.Calendar.Apply.Approve.{State, approve}
use ubu_orchestrator.Calendar.Apply.Record.{approve-Approved}
use ubu_orchestrator.Calendar.Apply.Outcome.{approve_result, approve_error}
use ubu_orchestrator.Calendar.Reconciliation.{
  Reconciliation, CalendarStore, Observer, find_reconciliation, mark_repaired,
}
use ubu_orchestrator.Calendar.Reconciliation.Stored.{
  repaired_result, write_repair, reconcile, repair,
}
use ubu_orchestrator.Calendar.Reconciliation.Once.{load-Loaded}
use ubu_orchestrator.Calendar.Reconciliation.Sound.{
  IsSound, observe-IsSound, repaired_events-HasDistinctIds,
}
use ubu_orchestrator.Calendar.Preview.{Plan}
use ubu_orchestrator.Calendar.Preview.Stored.{preview}
use ubu_orchestrator.Calendar.Gestures.{Host}
use ubu_orchestrator.Calendar.Admission.Captured.{CaptureHost}
use ubu_orchestrator.Calendar.Admission.Kept.{capture-HasDistinctIds}
use ubu_orchestrator.Calendar.History.{
  CalendarState, Step, previewed, approved, captured, reconciled, repaired, elsewhere, Reach, here,
  next,
}
use ubu_orchestrator.Tasks.Record.{Env as TasksEnv}

abbrev AllSound : List (String × Reconciliation) → Type 0
AllSound = All (λ e. IsSound e.1)

-- Each external id stands once among the applied events, and each row is sound.
pub record IsSoundStore (s : CalendarStore) : Type 0 where
  pub applied : HasDistinctIds (last_applied_events s.tables.results)
  pub rows : AllSound s.reconciliations

landed-HasDistinctIds :
    (operations : List CalendarOperation) (events : List DesiredEvent)
    → HasDistinctIds (values (land_all operations (by_external_id events)))
unfolding by_external_id
landed-HasDistinctIds operations events =
    values-Distinct event_id (land_all operations (by_external_id events))
      (land_all-IsSorted operations (by_external_id events) (collect-IsSorted event_id events))
      (land_all-Keyed operations (by_external_id events) (collect-IsKeyed event_id events))

approve-HasDistinctIds :
    (env : Env) (preview_id : String) (s : State env)
    → HasDistinctIds (last_applied_events s.tables.results)
    → HasDistinctIds (last_applied_events (approve env preview_id s).0.tables.results)
approve-HasDistinctIds env preview_id s h = go (approve env preview_id s).1 refl
  where
    choose :
        (b : Bool) (new old : List DesiredEvent)
        → HasDistinctIds new
        → HasDistinctIds old
        → HasDistinctIds (if b then new else old)
    choose true new old n o = n
    choose false new old n o = o

    go :
        (r : Result StoredCalendarResult)
        → (approve env preview_id s).1 ≡ r
        → HasDistinctIds (last_applied_events (approve env preview_id s).0.tables.results)
    go (ok result) e =
        let s' = (approve env preview_id s).0 in
        let run = ap (λ x. (s', x)) e in
        let a = approve-Approved env preview_id s s' result run in
        let (current, names, status, events, after, row) =
          approve_result env preview_id s s' a.stored result a.loaded run in
        subst HasDistinctIds (sym after) (
          choose (is_landed result.status) result.applied_events
            (last_applied_events s.tables.results)
            (subst HasDistinctIds (sym events) (landed-HasDistinctIds _ _)) h)
    go (err x) e =
        let s' = (approve env preview_id s).0 in
        subst (λ t. HasDistinctIds (last_applied_events t.results))
          (sym (approve_error env preview_id s s' x (ap (λ y. (s', y)) e))) h

abbrev results_of : Tables → List StoredCalendarResult
results_of t = t.results

preview-results :
    (plan : Plan) (ts : Timestamps) (timestamp_at : ℕ → Option String) (b : Bool)
    → Fixes results_of (preview plan ts timestamp_at b)
unfolding preview
preview-results plan ts timestamp_at b =
    Fixes-bind results_of _ _ (λ t. refl)
      λ response.
        Fixes-bind results_of _ _ (λ t. refl)
          λ u. Fixes-bind results_of _ _ (λ t. refl) (λ v t. refl)

reconcile-IsSound :
    (ts : Timestamps) (timestamp_at : ℕ → Option String) (o : Observer ts timestamp_at)
    (s : CalendarStore)
    → IsSoundStore s
    → IsSoundStore (reconcile ts timestamp_at o s).0
unfolding reconcile
reconcile-IsSound ts timestamp_at o s h =
    bind-reads IsSoundStore _ _ s (λ t. refl) h
      λ row e.
        bind-reads IsSoundStore _ _ s (λ t. refl) h
          λ u f.
            let sound =
              observe-IsSound ts timestamp_at o s.tables.results h.applied row (ap (λ x. x.1) e) in
            let after : IsSoundStore
                (record s { reconciliations = (o.reconciliation_id, row) ∷ s.reconciliations }) =
              record { applied = h.applied; rows = (sound, h.rows) } in
            bind-holds IsSoundStore _ _ s after λ t v g. subst IsSoundStore (ap (λ x. x.0) g) after

find-IsSound :
    (id : String) (rows : List (String × Reconciliation)) (row : Reconciliation)
    → AllSound rows
    → find_reconciliation id rows ≡ some row
    → IsSound row
unfolding find_reconciliation
find-IsSound id [] row h e = absurd (cc)
find-IsSound id ((key, r) ∷ rows) row h e = elim (Bool-cases (str_eq key id)) [
  | inl hit ↦ subst IsSound (eq_of_some (rw hit at e)) h.0
  | inr miss ↦ find-IsSound id rows row h.1 (rw miss at e)
]

mark-AllSound :
    (id : String) (rows : List (String × Reconciliation))
    → AllSound rows
    → AllSound (mark_repaired id rows)
unfolding mark_repaired
mark-AllSound id [] h = tt
mark-AllSound id ((key, r) ∷ rows) h = (one (str_eq key id), mark-AllSound id rows h.1)
  where
    one : (b : Bool) → IsSound (if b then record r { status = "repaired" } else r)
    one true = record { applied = h.0.applied; out_of_range = h.0.out_of_range; apart = h.0.apart }
    one false = h.0

repair-IsSound :
    (id : String) (commits : Result (Unit {0})) (s : CalendarStore)
    → IsSoundStore s
    → IsSoundStore (repair id commits s).0
unfolding repair write_repair repaired_result last_applied_events
repair-IsSound id commits s h =
    bind-reads IsSoundStore _ _ s (λ t. refl) h
      λ row e.
        bind-reads IsSoundStore _ _ s (λ t. refl) h
          λ u f.
            let found = (load-Loaded id s row (ap (λ x. x.1) e)).found in
            let sound = find-IsSound id s.reconciliations row h.rows found in
            let after : IsSoundStore (write_repair id row s) = record {
              applied = repaired_events-HasDistinctIds row sound;
              rows = mark-AllSound id s.reconciliations h.rows;
            } in
            bind-holds IsSoundStore _ _ s after λ t v g. subst IsSoundStore (ap (λ x. x.0) g) after

module _ (Json : Type 0) (ts : Timestamps) (timestamp_at : ℕ → Option String) (tasks : TasksEnv)
    (host : Host ts tasks) (capture_host : CaptureHost Json ts timestamp_at tasks host)
    (env : Env) where
  Step-IsSound :
      {s t : CalendarState Json ts timestamp_at tasks host capture_host env}
      → Step Json ts timestamp_at tasks host capture_host env s t
      → IsSoundStore s.store
      → IsSoundStore t.store
  Step-IsSound {s} (previewed plan b e) h = subst IsSoundStore (sym (ap (λ x. x.store) e)) (record {
    applied =
        subst (λ r. HasDistinctIds (last_applied_events r))
          (sym (preview-results plan ts timestamp_at b s.store.tables)) h.applied;
    rows = h.rows;
  })
  Step-IsSound {s} (approved id e) h = subst IsSoundStore (sym (ap (λ x. x.store) e)) (record {
    applied =
        approve-HasDistinctIds env id (record { world = s.calendar_world; tables = s.store.tables })
          h.applied;
    rows = h.rows;
  })
  Step-IsSound {s} (captured e) h = subst IsSoundStore (sym (ap (λ x. x.store) e)) (record {
    applied =
        capture-HasDistinctIds Json ts timestamp_at tasks host capture_host
          (record { world = s.task_world; tables = s.store.tables }) h.applied;
    rows = h.rows;
  })
  Step-IsSound {s} (reconciled o fresh e) h =
      subst IsSoundStore (sym (ap (λ x. x.store) e)) (reconcile-IsSound ts timestamp_at o s.store h)
  Step-IsSound {s} (repaired id commits e) h =
      subst IsSoundStore (sym (ap (λ x. x.store) e)) (repair-IsSound id commits s.store h)
  Step-IsSound (elsewhere calendar changed e) h = subst IsSoundStore (sym (ap (λ x. x.store) e)) h

  -- From a store where no external id stands twice among the applied events or within a stored
  -- reconciliation, such as an empty one, every sequence of previews, approvals, captures,
  -- reconciliations and repairs, with their errors and with changes made by others, leads to such
  -- a store.
  pub Reach-IsSound :
      {s t : CalendarState Json ts timestamp_at tasks host capture_host env}
      → IsSoundStore s.store
      → Reach Json ts timestamp_at tasks host capture_host env s t
      → IsSoundStore t.store
  Reach-IsSound h here = h
  Reach-IsSound h (next r step) = Step-IsSound step (Reach-IsSound h r)
