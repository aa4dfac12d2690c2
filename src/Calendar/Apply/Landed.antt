-- ===== src/Calendar/Apply/Landed.antt =====
-- What the loop of `approve` leaves: one result for each operation, and the landed operations alone
-- in the applied set.
use ubu_orchestrator.Base.{
  String, Bool, true, false, Option, none, some, List, [], ◌∷◌, ◌++◌, ◌≡◌, refl, sym, ap, ◌∙◌, map,
  if◌then◌else◌,
}
use mathlib.Core.List.{append_assoc, append-nil}
use ubu_orchestrator.Base.Order.{str_ord}
use ubu_orchestrator.Errors.{ok}
use ubu_orchestrator.Errors.Exec.{pure, bind-ok, Fixes, Fixes-bind}
use ubu_orchestrator.Calendar.Event.{Events}
use ubu_orchestrator.Calendar.Capture.{DiagnosticBody}
use ubu_orchestrator.Calendar.Diff.{CalendarOperation, land, land_all}
use ubu_orchestrator.Calendar.Apply.{
  Env, Tables, OperationResult, ProjectionOperation, ExportPermit, GateDecision, lower_operation,
  is_applied,
}
use ubu_orchestrator.Calendar.Apply.Approve.{Progress, State, settle, skip, perform, round, run}

-- The operations whose result says that they were applied, in order.
unfoldable pub accepted : List CalendarOperation → List OperationResult → List CalendarOperation
accepted [] results = []
accepted (operation ∷ operations) [] = []
accepted (operation ∷ operations) (r ∷ results) =
    let rest = accepted operations results in if is_applied r.status then operation ∷ rest else rest

module _ (env : Env) where
  -- One round adds one result, for its operation, and lands the operation if the result says so.
  pub record Round (operation : CalendarOperation) (p p' : Progress env) : Type 0 where
    pub result : OperationResult
    pub names : result.operation_id ≡ (lower_operation operation).operation_id
    pub adds : p'.operation_results ≡ p.operation_results ++ (result ∷ [])
    pub lands : p'.landed ≡ (if is_applied result.status then land operation p.landed else p.landed)

  pub record Rounds (operations : List CalendarOperation) (p p' : Progress env) : Type 0 where
    pub results : List OperationResult
    pub names :
        map (λ r. r.operation_id) results ≡ map (λ o. (lower_operation o).operation_id) operations
    pub adds : p'.operation_results ≡ p.operation_results ++ results
    pub lands : p'.landed ≡ land_all (accepted operations results) p.landed

  -- The loop writes to no table, whether it ends or is cut short by an error.
  abbrev tables : State env → Tables
  tables s = s.tables

  perform-tables :
      (operation : CalendarOperation) (core : ProjectionOperation) (decision : GateDecision)
      (permit : Option ExportPermit) (p : Progress env)
      → Fixes tables (perform env operation core decision permit p)
  unfolding perform
  perform-tables operation core decision none p s = refl
  perform-tables operation core decision (some permit) p s =
      Fixes-bind tables _ _ (λ s. refl)
        (λ u.
          Fixes-bind tables _ _ (λ s. refl)
            (λ answer. Fixes-bind tables _ _ (λ s. refl) (λ left s. refl)))
        s

  round-tables :
      (preview_id : String) (policy : Option Bool) (operation : CalendarOperation)
      (p : Progress env)
      → Fixes tables (round env preview_id policy operation p)
  unfolding round
  round-tables preview_id policy operation p =
      Fixes-bind tables _ _ (λ s. refl)
        λ decision.
          Fixes-bind tables _ _ (λ s. refl)
            λ u. perform-tables operation (lower_operation operation) decision decision.permit p

  pub run-tables :
      (preview_id : String) (policy : Option Bool) (operations : List CalendarOperation)
      (p : Progress env)
      → Fixes tables (run env preview_id policy operations p)
  unfolding run
  run-tables preview_id policy [] p s = refl
  run-tables preview_id policy (operation ∷ operations) p s =
      Fixes-bind tables _ _ (round-tables preview_id policy operation p)
        (λ p'. run-tables preview_id policy operations p') s

  settle-Round :
      (operation : CalendarOperation) (left : List DiagnosticBody) (answer : Option String)
      (p : Progress env)
      → Round operation p (settle env operation (lower_operation operation) left answer p)
  unfolding settle
  settle-Round operation left none p = record {
    result = _;
    names = refl;
    adds = refl;
    lands = refl;
  }
  settle-Round operation left (some m) p = record {
    result = _;
    names = refl;
    adds = refl;
    lands = refl;
  }

  skip-Round :
      (operation : CalendarOperation) (reason : String) (p : Progress env)
      → Round operation p (skip env (lower_operation operation) reason p)
  unfolding skip
  skip-Round operation reason p = record { result = _; names = refl; adds = refl; lands = refl }

  returned : {A : Type 0} {a b : A} {s s' : State env} → pure a s ≡ (s', ok b) → a ≡ b
  returned h = cc

  perform-Round :
      (operation : CalendarOperation) (decision : GateDecision) (permit : Option ExportPermit)
      (p p' : Progress env) (s s' : State env)
      → perform env operation (lower_operation operation) decision permit p s ≡ (s', ok p')
      → Round operation p p'
  unfolding perform
  perform-Round operation decision none p p' s s' h =
      rw (← returned {s = s} h) (skip-Round operation decision.reason p)
  perform-Round operation decision (some permit) p p' s s' h =
      let a = bind-ok _ _ s s' p' h in
      let b = bind-ok _ _ a.between s' p' a.rest_ok in
      let c = bind-ok _ _ b.between s' p' b.rest_ok in
      rw (← returned {s = c.between} c.rest_ok) (settle-Round operation c.value b.value p)

  round-Round :
      (preview_id : String) (policy : Option Bool) (operation : CalendarOperation)
      (p p' : Progress env) (s s' : State env)
      → round env preview_id policy operation p s ≡ (s', ok p')
      → Round operation p p'
  unfolding round
  round-Round preview_id policy operation p p' s s' h =
      let a = bind-ok _ _ s s' p' h in
      let b = bind-ok _ _ a.between s' p' a.rest_ok in
      perform-Round operation a.value a.value.permit p p' b.between s' b.rest_ok

  -- Whatever the gate, the log and the client do, a loop that ends without an error has recorded
  -- one result for each operation, in order and under its id, and its landed events are those it
  -- started from with the operations whose result is `applied`, in order.
  pub run-Rounds :
      (preview_id : String) (policy : Option Bool) (operations : List CalendarOperation)
      (p p' : Progress env) (s s' : State env)
      → run env preview_id policy operations p s ≡ (s', ok p')
      → Rounds operations p p'
  unfolding run accepted land_all
  run-Rounds preview_id policy [] p p' s s' h = rw (← returned {s = s} h) (record {
    results = [];
    names = refl;
    adds = sym (append-nil p.operation_results);
    lands = refl;
  })
  run-Rounds preview_id policy (operation ∷ operations) p p' s s' h =
      let a = bind-ok _ _ s s' p' h in
      let one = round-Round preview_id policy operation p a.value s a.between a.fst_ok in
      let rest = run-Rounds preview_id policy operations a.value p' a.between s' a.rest_ok in
      record {
        results = one.result ∷ rest.results;
        names = cc (one.names, rest.names);
        adds =
            rest.adds
            ∙ ap (λ l. l ++ rest.results) one.adds
            ∙ append_assoc p.operation_results (one.result ∷ []) rest.results;
        lands =
            rest.lands
            ∙ ap (land_all (accepted operations rest.results)) one.lands
            ∙ join (is_applied one.result.status) operation (accepted operations rest.results)
                p.landed;
      }
    where
      join :
          (b : Bool) (o : CalendarOperation) (rest : List CalendarOperation) (m : Events)
          → land_all rest (if b then land o m else m) ≡ land_all (if b then o ∷ rest else rest) m
      join true o rest m = refl
      join false o rest m = refl
