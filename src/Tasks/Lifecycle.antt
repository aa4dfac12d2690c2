-- ===== src/Tasks/Lifecycle.antt =====
-- What the actions on a Task and their undo do: effects at most once, and an undo of the named
-- completion or of none.
use ubu_orchestrator.Base.{
  String, str_eq, eq_iff, Bool, true, false, not, ◌||◌, Option, none, some, ◌≡◌, refl, sym, ap,
  subst, ◌∙◌, if◌then◌else◌, arith,
}
use ubu_orchestrator.Errors.{Result, ok}
use ubu_orchestrator.Errors.Exec.{Exec, check, ◌>>=◌, ◌>>◌, pure, Fixes, Fixes-bind, bind-ok}
use ubu_orchestrator.Tasks.Record.{
  Env, has_value, TaskForTransition, CompletionRecord, is_from_calendar_event, load_task,
}
use ubu_orchestrator.Tasks.Action.{is_captured}
use ubu_orchestrator.Tasks.Reopen.{
  ReopenSignal, ReopenResponse, reopen_task, reopen_if_latest, reopen_calendar_completion,
  ensure_latest, reopen_completion,
}

module _ (env : Env) where
  open env use {World, latest_completion, get_current_state}

  load_task-pure : (id : String) → Fixes (λ s. s) (load_task env id)
  unfolding load_task
  load_task-pure id = Fixes-bind (λ s. s) _ _ (λ s. refl) (λ found s. refl)

  world_of : {A : Type 0} {x y : World × Result A} → x ≡ y → x.0 ≡ y.0
  world_of h = ap (λ x. x.0) h

  latest-false :
      (signal : ReopenSignal) (task : TaskForTransition) (o : Option CompletionRecord)
      (s s' : World)
      → reopen_if_latest env signal task o s ≡ (s', ok false)
      → s' ≡ s
  unfolding reopen_if_latest
  latest-false signal task none s s' h = sym (world_of h)
  latest-false signal task (some c) s s' h =
      go
        (not (str_eq c.log_id signal.completion_log_id)
          || not (is_from_calendar_event c signal.external_id))
        h
    where
      undo : Exec World Bool
      undo = reopen_task env task (some signal.external_id) signal.completion_log_id >> pure true

      go : (b : Bool) → (if b then pure false else undo) s ≡ (s', ok false) → s' ≡ s
      go true h = sym (world_of h)
      go false h = let a = bind-ok _ _ s s' false h in absurd (differ (ap (λ x. x.1) a.rest_ok))
        where
          differ : ok true ≡ ok false → ⊥
          differ q = cc

  -- An undo from the Calendar that answers `false` has written nothing.
  pub reopen_calendar_completion-false :
      (signal : ReopenSignal) (s s' : World)
      → reopen_calendar_completion env signal s ≡ (s', ok false)
      → s' ≡ s
  unfolding reopen_calendar_completion
  reopen_calendar_completion-false signal s s' h =
      let a = bind-ok _ _ s s' false h in
      go a.value a.between
        (not (str_eq a.value.status "completed")
          || (has_value a.value.payload.static_window || is_captured env a.value))
        a.rest_ok
      ∙ sym (world_of a.fst_ok)
      ∙ load_task-pure signal.task_id s
    where
      go :
          (task : TaskForTransition) (t : World) (b : Bool)
          → (if b
                then pure false
                else (check (latest_completion task.id) >>= reopen_if_latest env signal task))
              t
            ≡ (s', ok false)
          → s' ≡ t
      go task t true h = sym (world_of h)
      go task t false h =
          let c = bind-ok _ _ t s' false h in
          latest-false signal task c.value c.between s' c.rest_ok ∙ sym (world_of c.fst_ok)

  -- What an undo that was made had before it.
  pub record Undone (task_id completion_log_id : String) (s : World) : Type 0 where
    pub task : TaskForTransition
    pub completion : CompletionRecord
    pub loaded : load_task env task_id s ≡ (s, ok task)
    pub completed : task.status ≡ "completed"
    pub latest : latest_completion task.id s ≡ ok (some completion)
    pub named : completion.log_id ≡ completion_log_id

  ensure_latest-eq-ok :
      (task_id log_id : String) (o : Option CompletionRecord) {u : Unit {0}}
      → ensure_latest env task_id log_id o ≡ ok u
      → (c : CompletionRecord) × (o ≡ some c) × (c.log_id ≡ log_id)
  unfolding ensure_latest
  ensure_latest-eq-ok task_id log_id none h = absurd (cc)
  ensure_latest-eq-ok task_id log_id (some c) h =
      (c, refl, (eq_iff c.log_id log_id).0 (ground (arith, h)))

  -- The undo of a completion by its id is made only for a completed Task whose latest completion
  -- is the one named, as the world stood when it was called.
  pub reopen_completion-Undone :
      (task_id completion_log_id : String) (s s' : World) (r : ReopenResponse)
      → reopen_completion env task_id completion_log_id s ≡ (s', ok r)
      → Undone task_id completion_log_id s
  unfolding reopen_completion
  reopen_completion-Undone task_id log_id s s' r h =
      let a = bind-ok _ _ s s' r h in
      let b = bind-ok _ _ a.between s' r a.rest_ok in
      let c = bind-ok _ _ b.between s' r b.rest_ok in
      let d = bind-ok _ _ c.between s' r c.rest_ok in
      let stay : a.between ≡ s = sym (world_of a.fst_ok) ∙ load_task-pure task_id s in
      let still : b.between ≡ s = sym (world_of b.fst_ok) ∙ stay in
      let found = ensure_latest-eq-ok task_id log_id c.value (ap (λ x. x.1) d.fst_ok) in
      record {
        task = a.value;
        completion = found.0;
        loaded = subst (λ t. load_task env task_id s ≡ (t, ok a.value)) stay a.fst_ok;
        completed = (eq_iff a.value.status "completed").0 (ground (arith, ap (λ x. x.1) b.fst_ok));
        latest =
            ap (latest_completion a.value.id) (sym still) ∙ ap (λ x. x.1) c.fst_ok ∙ ap ok found.1;
        named = found.2;
      }
