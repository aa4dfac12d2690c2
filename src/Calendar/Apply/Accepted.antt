-- ===== src/Calendar/Apply/Accepted.antt =====
-- An approval against a calendar that accepts every operation comes to its end, and all is applied.
use ubu_orchestrator.Base.{
  String, eq_refl, true, false, none, some, List, [], ◌∷◌, ◌≡◌, refl, ap, ◌∙◌, length, All,
  All-append, arith,
}
use ubu_orchestrator.Errors.{ok}
use ubu_orchestrator.Errors.Exec.{Exec, bind-run}
use ubu_orchestrator.Calendar.Event.{DesiredEvent}
use ubu_orchestrator.Calendar.Diff.{CalendarOperation, create, update, delete}
use ubu_orchestrator.Calendar.Apply.{
  Env, StoredCalendarPreview, StoredCalendarResult, ProjectionOperation, GateDecision,
  OperationResult, ProjectionStatus, automation_worker, is_applied, applied_count,
  last_applied_events, load_preview, lower_operation, ensure_permit_matches, prepare,
}
use ubu_orchestrator.Calendar.Apply.Approve.{
  Progress, State, dispatch, settle, perform, round, run, finish, start, persist_with,
  persist_result, approve,
}
use ubu_orchestrator.Calendar.Apply.Record.{with_row, events_eq_refl}
use ubu_orchestrator.Calendar.Apply.Status.{status_applied_iff}

-- The mode is available, the gate permits exports where the policy does not forbid them, the log and
-- the store take what they are given, and the client accepts every call.
pub record Cooperates (env : Env) : Type 0 where
  pub is_available : (w : env.World) → env.available w ≡ ok tt
  pub connected : (w : env.World) → env.connects w ≡ ok tt
  pub persisted : (w : env.World) → env.persists w ≡ ok tt
  pub inserted : (e : DesiredEvent) (w : env.World) → (env.insert_event e w).1 ≡ none
  pub patched : (e : DesiredEvent) (w : env.World) → (env.patch_event e w).1 ≡ none
  pub deleted : (id : String) (w : env.World) → (env.delete_event id w).1 ≡ none
  pub permitted :
      (core : ProjectionOperation) (w : env.World)
      → (env.gate core (some false) automation_worker w).permit
        ≡ some (record { operation_id = core.operation_id; authority_source = automation_worker })
  pub logged :
      (id : String) (core : ProjectionOperation) (w : env.World)
      → (env.append_boundary_log id core w).1 ≡ ok tt

abbrev AllApplied : List OperationResult → Type 0
AllApplied = All (λ r. is_applied r.status ≡ true)

count_all :
    (results : List OperationResult) → AllApplied results → applied_count results ≡ length results
count_all [] h = refl
count_all (r ∷ results) h = rw h.0 (ground (arith, count_all results h.1))

module _ (env : Env) (c : Cooperates env) where
  dispatched : (operation : CalendarOperation) (w : env.World) → (dispatch env operation w).1 ≡ none
  unfolding dispatch
  dispatched (create event) w = c.inserted event w
  dispatched (update event) w = c.patched event w
  dispatched (delete id summary) w = c.deleted id w

  -- An action that ends with a value that keeps every result applied.
  record Ends (m : Exec (State env) (Progress env)) (s : State env) : Type 0 where
    progress : Progress env
    state : State env
    ends : m s ≡ (state, ok progress)
    all : AllApplied progress.operation_results

  perform-Ends :
      (operation : CalendarOperation) (decision : GateDecision) (p : Progress env) (s : State env)
      → AllApplied p.operation_results
      → Ends
          (perform env operation
            (lower_operation operation)
            decision
            (some (record {
              operation_id = (lower_operation operation).operation_id;
              authority_source = automation_worker;
            }))
            p)
          s
  unfolding perform settle ensure_permit_matches
  perform-Ends operation decision p s h =
      let core = lower_operation operation in
      let w1 = (dispatch env operation s.world).0 in
      let left = env.take_diagnostics w1 in
      let s1 : State env = record s { world = w1 } in
      let s2 : State env = record s1 { world = left.0 } in
      let p' = settle env operation core left.1 none p in
      record {
        progress = p';
        state = s2;
        ends =
            bind-run _ _ s s tt (rw (eq_refl core.operation_id) refl)
            ∙ bind-run _ _ s s1 none (ap (λ x. (s1, ok x)) (dispatched operation s.world))
            ∙ bind-run _ _ s1 s2 left.1 refl;
        all = All-append (λ r. is_applied r.status ≡ true) p.operation_results _ h (refl, tt);
      }

  round-Ends :
      (id : String) (operation : CalendarOperation) (p : Progress env) (s : State env)
      → AllApplied p.operation_results
      → Ends (round env id (some false) operation p) s
  unfolding round
  round-Ends id operation p s h =
      let core = lower_operation operation in
      let decision = env.gate core (some false) automation_worker s.world in
      let s1 : State env = record s { world = (env.append_boundary_log id core s.world).0 } in
      let e = perform-Ends operation decision p s1 h in
      record {
        progress = e.progress;
        state = e.state;
        ends =
            bind-run _ _ s s decision refl
            ∙ bind-run _ _ s s1 tt (ap (λ x. (s1, x)) (c.logged id core s.world))
            ∙ ap (λ x. perform env operation core decision x p s1) (c.permitted core s.world)
            ∙ e.ends;
        all = e.all;
      }

  run-Ends :
      (id : String) (operations : List CalendarOperation) (p : Progress env) (s : State env)
      → AllApplied p.operation_results
      → Ends (run env id (some false) operations p) s
  unfolding run
  run-Ends id [] p s h = record { progress = p; state = s; ends = refl; all = h }
  run-Ends id (operation ∷ operations) p s h =
      let one = round-Ends id operation p s h in
      let rest = run-Ends id operations one.progress one.state one.all in
      record {
        progress = rest.progress;
        state = rest.state;
        ends = bind-run _ _ s one.state one.progress one.ends ∙ rest.ends;
        all = rest.all;
      }

  -- If the calendar, the gate, the log and the store cooperate, a preview that allows exports and
  -- was made against the events that are applied now is approved: the call returns a result, and
  -- its status is `applied`.
  pub approve_total :
      (preview_id : String) (s : State env) (stored : StoredCalendarPreview)
      → load_preview s.tables preview_id ≡ ok stored
      → stored.no_external_export ≡ some false
      → last_applied_events s.tables.results ≡ stored.existing_events
      → (s' : State env) × (result : StoredCalendarResult) × (approve env preview_id s
          ≡ (s', ok result))
        × (result.status ≡ ProjectionStatus.applied)
  unfolding approve prepare finish start persist_result persist_with
  approve_total preview_id s stored l policy current =
      let existing = last_applied_events s.tables.results in
      let loop = run-Ends preview_id stored.operations (start env existing) s tt in
      let result = finish env preview_id loop.progress in
      let s' : State env = record loop.state { tables = with_row result loop.state.tables } in
      (
        s',
        result,
        bind-run _ _ s s stored (
              ap (λ x. (s, x))
                (rw
                  (
                    c.is_available s.world,
                    l,
                    current,
                    events_eq_refl stored.existing_events,
                    c.connected s.world,
                  )
                  refl))
            ∙ bind-run _ _ s s existing refl
            ∙ bind-run _ _ s loop.state loop.progress (
                ap (λ x. run env preview_id x stored.operations (start env existing) s) policy
                ∙ loop.ends)
            ∙ bind-run _ _ loop.state s' tt
                (ap (persist_with env result loop.state) (c.persisted loop.state.world)),
        (status_applied_iff loop.progress.operation_results).1
            (count_all loop.progress.operation_results loop.all),
      )
