-- ===== src/Tasks/Once.antt =====
-- The effects of a Task are applied at most once, however often it is completed and reopened.
use ubu_orchestrator.Base.{
  String, str_eq, Bool, not, ◌&&◌, Option, none, some, List, ◌≡◌, refl, sym, ap, subst, ◌∙◌,
  Bool-cases, inl, inr,
}
use ubu_orchestrator.Errors.{ok-eq, AppError, ok, err}
use ubu_orchestrator.Errors.Exec.{lift, Fixes, Fixes-bind, bind-ok, bind-holds, bind-reads}
use ubu_orchestrator.Calendar.Apply.{AuthoritySource}
use ubu_orchestrator.Tasks.Record.{
  Env, has_value, TaskForTransition, StoredObject, CompletionRecord, complete, Decision, load_task,
  as_task, persist_task_transition, apply_completed_transition, append_task_decision,
  authority_for_recorded_action,
}
use ubu_orchestrator.Tasks.Action.{
  CompletionSignal, ActionRequest, check_calendar, effects_once, transition,
  record_task_action_with_calendar,
}

-- `view` is a part of the world, such as the universe state, that the admission of a Task and the
-- Log do not write; and an admission does not change which completion is a Task's latest.
module _ (env : Env) {T : Type 0} (view : env.World → T)
    (admit_keeps : (task : TaskForTransition) (a : AuthoritySource)
      → Fixes view (env.admit_object task a))
    (append_keeps : (task : TaskForTransition) (d : Decision) (refs : List String)
        (a : AuthoritySource)
      → Fixes view (env.append_log_entry task d refs a))
    (admit_keeps_latest : (task : TaskForTransition) (a : AuthoritySource) (id : String)
      → Fixes (env.latest_completion id) (env.admit_object task a)) where
  open env use {World, latest_completion}

  -- `apply_completed_transition` refuses the Task.
  abbrev refuses : TaskForTransition → Bool
  refuses task =
      not (str_eq task.status "active")
      && not (str_eq task.status "failed" && has_value task.payload.occurrence)

  completed_keeps :
      {U : Type 0} (look : World → U)
      → ((task : TaskForTransition) (a : AuthoritySource) → Fixes look (env.admit_object task a))
      → (task : TaskForTransition) (a : AuthoritySource)
      → Fixes look (apply_completed_transition env task a)
  unfolding apply_completed_transition persist_task_transition
  completed_keeps look admits task a s = elim (Bool-cases (refuses task)) [
    | inl e ↦ rw e refl
    | inr e ↦ rw e (Fixes-bind look _ _ (admits _ a) (λ x t. refl) s)
  ]

  completed_id :
      (task : TaskForTransition) (a : AuthoritySource) (s t : World) (task' : TaskForTransition)
      → apply_completed_transition env task a s ≡ (t, ok task')
      → task'.id ≡ task.id
  unfolding apply_completed_transition persist_task_transition
  completed_id task a s t task' h = elim (Bool-cases (refuses task)) [
    | inl e ↦ absurd (refused (rw e at h))
    | inr e ↦
        let b = bind-ok _ _ s t task' (rw e at h) in
        sym (ap (λ x. x.id) (ok-eq (ap (λ x. x.1) b.rest_ok)))
  ]
    where
      refused :
          {e : AppError} {x y : World} {u : TaskForTransition} → lift (err e) x ≡ (y, ok u) → ⊥
      refused h = cc

  transition_keeps :
      (task : TaskForTransition) (a : AuthoritySource) (c : CompletionRecord) (s : World)
      → latest_completion task.id s ≡ ok (some c)
      → view (transition env complete task a s).0 ≡ view s
  unfolding transition effects_once
  transition_keeps task a c s h =
      bind-holds (λ w. view w ≡ view s) _ _ s (completed_keeps view admit_keeps task a s)
        λ t task' e.
          let moved : view t ≡ view s =
            ap (λ x. view x.0) (sym e) ∙ completed_keeps view admit_keeps task a s in
          let before : latest_completion task'.id t ≡ ok (some c) =
            ap (λ i. latest_completion i t) (completed_id task a s t task' e)
            ∙ ap (λ x. latest_completion task.id x.0) (sym e)
            ∙ completed_keeps (latest_completion task.id) (λ k b. admit_keeps_latest k b task.id)
                task a s
            ∙ h in
          bind-holds (λ w. view w ≡ view s) _ _ t moved
            λ u found f.
              let still : view u ≡ view s = ap (λ x. view x.0) (sym f) ∙ moved in
              let read : found ≡ some c = sym (ok-eq (sym before ∙ ap (λ x. x.1) f)) in
              bind-holds (λ w. view w ≡ view s) _ _ u
                (subst (λ o. view (effects_once env task' a o u).0 ≡ view s) (sym read)
                  (applied task' u still))
                λ v ds g.
                  ap (λ x. view x.0) (sym g)
                  ∙ subst (λ o. view (effects_once env task' a o u).0 ≡ view s) (sym read)
                      (applied task' u still)
    where
      applied :
          (task' : TaskForTransition) (u : World)
          → view u ≡ view s
          → view (effects_once env task' a (some c) u).0 ≡ view s
      applied task' u h = h

  loaded_id :
      (task_id : String) (s t : World) (obj : StoredObject) (task : TaskForTransition)
      → env.get_current_state task_id s ≡ ok (some obj)
      → load_task env task_id s ≡ (t, ok task)
      → (t ≡ s) × (task.id ≡ obj.id)
  unfolding load_task as_task
  loaded_id task_id s t obj task h k =
      let a = bind-ok _ _ s t task k in
      let b : a.between ≡ s = ap (λ x. x.0) (sym a.fst_ok) in
      let found : a.value ≡ some obj = sym (ok-eq (sym h ∙ ap (λ x. x.1) a.fst_ok)) in
      (
        ap (λ x. x.0) (sym a.rest_ok) ∙ b,
        as_task_id (sym (ap (as_task env task_id) found) ∙ ap (λ x. x.1) a.rest_ok),
      )
    where
      as_task_id : as_task env task_id (some obj) ≡ ok task → task.id ≡ obj.id
      as_task_id h = elim (Bool-cases (not (str_eq obj.object_type "Task"))) [
        | inl e ↦ absurd (refused (rw e at h))
        | inr e ↦ sym (ap (λ x. x.id) (ok-eq (rw e at h)))
      ]
        where
          refused : {e : AppError} {u : TaskForTransition} → err e ≡ ok u → ⊥
          refused h = cc

  load_task-pure : (task_id : String) → Fixes (λ s. s) (load_task env task_id)
  unfolding load_task
  load_task-pure task_id = Fixes-bind (λ s. s) _ _ (λ s. refl) (λ found s. refl)

  check_calendar-pure :
      (calendar : Option CompletionSignal) (task : TaskForTransition)
      → Fixes (λ s. s) (check_calendar env calendar task)
  unfolding check_calendar
  check_calendar-pure none task s = refl
  check_calendar-pure (some signal) task s = Fixes-bind (λ s. s) _ _ (λ s. refl) (λ found s. refl) s

  -- A Task that has a completion on record may be completed again, after a reopening, but its
  -- effects are not applied again: whatever the request, and whether the call returns a response
  -- or an error, the view of the world stays as it was.
  pub effects_applied_once :
      (task_id : String) (request : ActionRequest) (calendar : Option CompletionSignal) (s : World)
      (obj : StoredObject) (c : CompletionRecord)
      → request.action ≡ complete
      → env.get_current_state task_id s ≡ ok (some obj)
      → latest_completion obj.id s ≡ ok (some c)
      → view (record_task_action_with_calendar env task_id request calendar s).0 ≡ view s
  unfolding record_task_action_with_calendar append_task_decision
  effects_applied_once task_id request calendar s obj c q g l =
      bind-reads same _ _ s (λ t. refl) refl
        λ _ _. bind-reads same _ _ s (load_task-pure task_id) refl λ task e.
          let id = (loaded_id task_id s s obj task g e).1 in
          let latest : latest_completion task.id s ≡ ok (some c) =
            ap (λ i. latest_completion i s) id ∙ l in
          bind-reads same _ _ s (check_calendar-pure calendar task) refl λ _ _.
            let kept =
              subst
                (λ k.
                  view (transition env k task (authority_for_recorded_action request.action) s).0
                  ≡ view s)
                (sym q)
                (transition_keeps task (authority_for_recorded_action request.action) c s latest) in
            bind-holds same _ _ s kept λ t done f.
              let after : view t ≡ view s = ap (λ x. view x.0) (sym f) ∙ kept in
              bind-reads same _ _ t (λ u. refl) after
                λ status _.
                  bind-holds same _ _ t (append_keeps done.0 _ _ _ t ∙ after)
                    λ u log_id h. ap (λ x. view x.0) (sym h) ∙ append_keeps done.0 _ _ _ t ∙ after
    where
      same : World → Type 0
      same w = view w ≡ view s
