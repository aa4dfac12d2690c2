-- ===== src/Calendar/History/Repaired.antt =====
-- A repaired reconciliation stays repaired, whatever happens later.
use ubu_orchestrator.Base.{
  ℕ, String, str_eq, eq_iff, eq_refl, Bool, true, false, Option, none, some, List, ◌∷◌, ◌≡◌, refl,
  sym, ap, ◌∙◌, subst, inl, inr, Bool-cases,
}
use ubu_orchestrator.Errors.{Result, ok, err, conflict_diagnostic}
use ubu_orchestrator.Errors.Exec.{bind-holds, bind-reads, ◌>>=◌}
use ubu_orchestrator.Calendar.Interaction.{Timestamps}
use ubu_orchestrator.Calendar.Apply.{Env}
use ubu_orchestrator.Calendar.Reconciliation.{
  Reconciliation, CalendarStore, CalendarRepairResponse, Observer, find_reconciliation,
  mark_repaired, reconciliation_schema,
}
use ubu_orchestrator.Calendar.Reconciliation.Stored.{
  load_reconciliation, write_repair, reconcile, repair,
}
use ubu_orchestrator.Calendar.Reconciliation.Once.{find-mark, load-Loaded, repair-Repaired}
use ubu_orchestrator.Calendar.Gestures.{Host}
use ubu_orchestrator.Calendar.Admission.Captured.{CaptureHost}
use ubu_orchestrator.Calendar.History.{
  CalendarState, Step, previewed, approved, captured, reconciled, repaired, elsewhere, Reach, here,
  next,
}
use ubu_orchestrator.Tasks.Record.{Env as TasksEnv}

-- The row of the id is one that has been repaired.
pub record IsRepaired (id : String) (rows : List (String × Reconciliation)) : Type 0 where
  pub row : Reconciliation
  pub found : find_reconciliation id rows ≡ some row
  pub schema : row.schema_version ≡ reconciliation_schema
  pub status : row.status ≡ "repaired"

mark-IsRepaired :
    (id j : String) (rows : List (String × Reconciliation))
    → IsRepaired id rows
    → IsRepaired id (mark_repaired j rows)
mark-IsRepaired id j rows h = go (str_eq id j) refl
  where
    go : (b : Bool) → str_eq id j ≡ b → IsRepaired id (mark_repaired j rows)
    go true e = record {
      row = record h.row { status = "repaired" };
      found = find-mark j id rows ∙ rw (e, h.found);
      schema = h.schema;
      status = refl;
    }
    go false e = record {
      row = h.row;
      found = find-mark j id rows ∙ rw (e, h.found);
      schema = h.schema;
      status = h.status;
    }

new-IsRepaired :
    (id new : String) (row : Reconciliation) (rows : List (String × Reconciliation))
    → find_reconciliation new rows ≡ none
    → IsRepaired id rows
    → IsRepaired id ((new, row) ∷ rows)
unfolding find_reconciliation
new-IsRepaired id new row rows n h = record {
  row = h.row;
  found = elim (Bool-cases (str_eq new id)) [
    | inl same ↦
        let e : new ≡ id = (eq_iff new id).0 same in
        let found : none ≡ some h.row = sym n ∙ ap (λ k. find_reconciliation k rows) e ∙ h.found in
        absurd (cc)
    | inr other ↦ rw other h.found
  ];
  schema = h.schema;
  status = h.status;
}

abbrev InStore : String → CalendarStore → Type 0
InStore id s = IsRepaired id s.reconciliations

reconcile-IsRepaired :
    (ts : Timestamps) (timestamp_at : ℕ → Option String) (o : Observer ts timestamp_at)
    (id : String) (s : CalendarStore)
    → find_reconciliation o.reconciliation_id s.reconciliations ≡ none
    → InStore id s
    → InStore id (reconcile ts timestamp_at o s).0
unfolding reconcile
reconcile-IsRepaired ts timestamp_at o id s n h =
    bind-reads (InStore id) _ _ s (λ t. refl) h
      λ row e.
        bind-reads (InStore id) _ _ s (λ t. refl) h
          λ u f.
            let after = new-IsRepaired id o.reconciliation_id row s.reconciliations n h in
            bind-holds (InStore id) _ _ s after λ t v g. subst (InStore id) (ap (λ x. x.0) g) after

repair-IsRepaired :
    (id j : String) (commits : Result (Unit {0})) (s : CalendarStore)
    → InStore id s
    → InStore id (repair j commits s).0
unfolding repair write_repair
repair-IsRepaired id j commits s h =
    bind-reads (InStore id) _ _ s (λ t. refl) h
      λ row e.
        bind-reads (InStore id) _ _ s (λ t. refl) h
          λ u f.
            let after = mark-IsRepaired id j s.reconciliations h in
            bind-holds (InStore id) _ _ s after λ t v g. subst (InStore id) (ap (λ x. x.0) g) after

-- The row that a repair leaves.
after-IsRepaired :
    (id : String) (commits : Result (Unit {0})) (response : CalendarRepairResponse)
    (s s' : CalendarStore)
    → repair id commits s ≡ (s', ok response)
    → InStore id s'
unfolding write_repair
after-IsRepaired id commits response s s' h =
    let r = repair-Repaired id commits response s s' h in
    let l = load-Loaded id s r.row r.found in
    record {
      row = record r.row { status = "repaired" };
      found =
          ap (λ t. find_reconciliation id t.reconciliations) r.writes
          ∙ find-mark id id s.reconciliations
          ∙ rw (eq_refl id, l.found);
      schema = l.supported;
      status = refl;
    }

refused :
    (id : String) (again : Result (Unit {0})) (s : CalendarStore)
    → InStore id s
    → repair id again s ≡ (
      s,
      err (
          conflict_diagnostic "calendar_reconciliation_already_repaired"
            "This Calendar reconciliation has already been repaired; request a new reconciliation"),
    )
unfolding repair load_reconciliation ◌>>=◌
refused id again s h = rw (h.found, h.schema, h.status)

module _ (Json : Type 0) (ts : Timestamps) (timestamp_at : ℕ → Option String) (tasks : TasksEnv)
    (host : Host ts tasks) (capture_host : CaptureHost Json ts timestamp_at tasks host)
    (env : Env) where
  Step-IsRepaired :
      {s t : CalendarState Json ts timestamp_at tasks host capture_host env} (id : String)
      → Step Json ts timestamp_at tasks host capture_host env s t
      → InStore id s.store
      → InStore id t.store
  Step-IsRepaired id (previewed plan b e) h = subst (InStore id) (sym (ap (λ x. x.store) e)) h
  Step-IsRepaired id (approved p e) h = subst (InStore id) (sym (ap (λ x. x.store) e)) h
  Step-IsRepaired id (captured e) h = subst (InStore id) (sym (ap (λ x. x.store) e)) h
  Step-IsRepaired {s} id (reconciled o fresh e) h =
      subst (InStore id) (sym (ap (λ x. x.store) e))
        (reconcile-IsRepaired ts timestamp_at o id s.store fresh h)
  Step-IsRepaired {s} id (repaired j commits e) h =
      subst (InStore id) (sym (ap (λ x. x.store) e)) (repair-IsRepaired id j commits s.store h)
  Step-IsRepaired id (elsewhere calendar changed e) h =
      subst (InStore id) (sym (ap (λ x. x.store) e)) h

  Reach-IsRepaired :
      {s t : CalendarState Json ts timestamp_at tasks host capture_host env} (id : String)
      → InStore id s.store
      → Reach Json ts timestamp_at tasks host capture_host env s t
      → InStore id t.store
  Reach-IsRepaired id h here = h
  Reach-IsRepaired id h (next r step) = Step-IsRepaired id step (Reach-IsRepaired id h r)

  -- A reconciliation is repaired at most once: after a repair that returned a response, and any
  -- sequence of later calls and changes, another repair of the same reconciliation is refused with
  -- a conflict and leaves the store as it is.
  pub repaired_once :
      {s t : CalendarState Json ts timestamp_at tasks host capture_host env} (id : String)
      (commits again : Result (Unit {0})) (response : CalendarRepairResponse)
      (before : CalendarStore)
      → repair id commits before ≡ (s.store, ok response)
      → Reach Json ts timestamp_at tasks host capture_host env s t
      → repair id again t.store ≡ (
        t.store,
        err (
            conflict_diagnostic "calendar_reconciliation_already_repaired"
              "This Calendar reconciliation has already been repaired; request a new reconciliation"),
      )
  repaired_once {s} {t} id commits again response before h r =
      refused id again t.store
        (Reach-IsRepaired id (after-IsRepaired id commits response before s.store h) r)
