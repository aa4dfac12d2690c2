-- ===== src/Tasks/Guards.antt =====
-- Which Tasks an action may change.
use ubu_orchestrator.Base.{
  String, str_eq, Bool, true, false, ◌&&◌, ◌||◌, Option, none, some, List, ◌≡◌, refl, sym, ap,
  subst, ◌∙◌, arith, Bool-cases, inl, inr, ◌⊎◌,
}
use ubu_orchestrator.Errors.{AppError, Result, ok, err}
use ubu_orchestrator.Errors.Exec.{lift, pure, Fixes, Fixes-bind, bind-ok}
use ubu_orchestrator.Calendar.Capture.{DiagnosticBody}
use ubu_orchestrator.Calendar.Apply.{AuthoritySource}
use ubu_orchestrator.Tasks.Record.{
  Env, has_value, TaskForTransition, ActionKind, start, complete, skip, override, snooze, Decision,
  load_task, apply_completed_transition, apply_skipped_transition, append_task_decision,
}
use ubu_orchestrator.Tasks.Action.{
  CompletionSignal, ActionRequest, ActionResponse, check_calendar, transition,
  record_task_action_with_calendar,
}

-- The Task's state allows the action.
abbrev pub Allows : ActionKind → TaskForTransition → Type 0
Allows complete task =
    (str_eq task.status "active" ≡ true)
    ⊎ ((str_eq task.status "failed" ≡ true) × (has_value task.payload.occurrence ≡ true))
Allows skip task =
    (has_value task.payload.occurrence ≡ true)
    × ((str_eq task.status "active" ≡ true) ⊎ (str_eq task.status "failed" ≡ true))
Allows start task = Unit
Allows override task = Unit
Allows snooze task = Unit

abbrev pub is_transition : ActionKind → Bool
is_transition complete = true
is_transition skip = true
is_transition start = false
is_transition override = false
is_transition snooze = false

ok-eq : {A : Type 0} {a b : A} → ok a ≡ ok b → a ≡ b
ok-eq h = cc

-- What a block returned, from its last action.
returned : {W A : Type 0} {s t : W} {a b : A} → Path (W × Result A) (pure a s) (t, ok b) → a ≡ b
returned h = ok-eq (ap (λ x. x.1) h)

module _ (env : Env) where
  completed-Allows :
      (task task' : TaskForTransition) (a : AuthoritySource) (s t : env.World)
      → apply_completed_transition env task a s ≡ (t, ok task')
      → Allows complete task
  unfolding apply_completed_transition
  completed-Allows task task' a s t h =
      go (Bool-cases (str_eq task.status "active"))
        (Bool-cases (str_eq task.status "failed" && has_value task.payload.occurrence))
    where
      go :
          (str_eq task.status "active" ≡ true) ⊎ (str_eq task.status "active" ≡ false)
          → ((str_eq task.status "failed" && has_value task.payload.occurrence) ≡ true)
            ⊎ ((str_eq task.status "failed" && has_value task.payload.occurrence) ≡ false)
          → Allows complete task
      go (inl e) f = inl e
      go (inr e) (inl f) = inr (ground (arith, f), ground (arith, f))
      go (inr e) (inr f) = absurd (refused (rw (e, f) at h))
        where
          refused : {x : AppError} → lift (err x) s ≡ (t, ok task') → ⊥
          refused h = cc

  skipped-Allows :
      (task task' : TaskForTransition) (s t : env.World)
      → apply_skipped_transition env task s ≡ (t, ok task')
      → Allows skip task
  unfolding apply_skipped_transition
  skipped-Allows task task' s t h =
      go (Bool-cases (has_value task.payload.occurrence))
        (Bool-cases (str_eq task.status "active" || str_eq task.status "failed"))
    where
      refused : {x : AppError} → lift (err x) s ≡ (t, ok task') → ⊥
      refused h = cc

      go :
          (has_value task.payload.occurrence ≡ true) ⊎ (has_value task.payload.occurrence ≡ false)
          → ((str_eq task.status "active" || str_eq task.status "failed") ≡ true)
            ⊎ ((str_eq task.status "active" || str_eq task.status "failed") ≡ false)
          → Allows skip task
      go (inr e) f = absurd (refused (rw e at h))
      go (inl e) (inr f) = absurd (refused (rw (e, f) at h))
      go (inl e) (inl f) = (e, ground (arith, f))

  transition-Allows :
      (kind : ActionKind) (task : TaskForTransition) (a : AuthoritySource) (s t : env.World)
      (done : TaskForTransition × Bool × List DiagnosticBody)
      → transition env kind task a s ≡ (t, ok done)
      → Allows kind task × (done.1 ≡ is_transition kind)
  unfolding transition
  transition-Allows complete task a s t done h =
      let b = bind-ok _ _ s t done h in
      let c = bind-ok _ _ b.between t done b.rest_ok in
      let d = bind-ok _ _ c.between t done c.rest_ok in
      (
        completed-Allows task b.value a s b.between b.fst_ok,
        ap (λ x. x.1) (sym (returned d.rest_ok)),
      )
  transition-Allows skip task a s t done h =
      let b = bind-ok _ _ s t done h in
      (skipped-Allows task b.value s b.between b.fst_ok, ap (λ x. x.1) (sym (returned b.rest_ok)))
  transition-Allows start task a s t done h = (tt, ap (λ x. x.1) (sym (returned h)))
  transition-Allows override task a s t done h = (tt, ap (λ x. x.1) (sym (returned h)))
  transition-Allows snooze task a s t done h = (tt, ap (λ x. x.1) (sym (returned h)))

  -- An action that was answered with a response was allowed by the state in which its Task was
  -- found: a completion needs an active Task or a missed occurrence, a skip an occurrence that is
  -- active or missed. The response says that there was a transition for these two actions alone.
  pub record_task_action-Allows :
      (task_id : String) (request : ActionRequest) (calendar : Option CompletionSignal)
      (s s' : env.World) (r : ActionResponse)
      → record_task_action_with_calendar env task_id request calendar s ≡ (s', ok r)
      → (task : TaskForTransition) × (load_task env task_id s ≡ (s, ok task))
        × Allows request.action task
        × (r.transition_applied ≡ is_transition request.action)
  unfolding record_task_action_with_calendar load_task
  record_task_action-Allows task_id request calendar s s' r h =
      let a = bind-ok _ _ s s' r h in
      let b = bind-ok _ _ a.between s' r a.rest_ok in
      let c = bind-ok _ _ b.between s' r b.rest_ok in
      let d = bind-ok _ _ c.between s' r c.rest_ok in
      let e = bind-ok _ _ d.between s' r d.rest_ok in
      let f = bind-ok _ _ e.between s' r e.rest_ok in
      let allowed =
        transition-Allows request.action b.value _ c.between d.between d.value d.fst_ok in
      let stay : a.between ≡ s = sym (ap (λ x. x.0) a.fst_ok) in
      let still : b.between ≡ s =
        sym (ap (λ x. x.0) b.fst_ok)
        ∙ Fixes-bind (λ w. w) _ _ (λ w. refl) (λ found w. refl) a.between
        ∙ stay in
      let loaded : load_task env task_id s ≡ (b.between, ok b.value) =
        subst (λ w. load_task env task_id w ≡ (b.between, ok b.value)) stay b.fst_ok in
      (
        b.value,
        subst (λ w. load_task env task_id s ≡ (w, ok b.value)) still loaded,
        allowed.0,
        ap (λ x. x.transition_applied) (sym (returned f.rest_ok)) ∙ allowed.1,
      )

  -- What only the admission of an object writes stays as it is under an action that is no
  -- transition, whatever the call returns: starting, overriding or snoozing a Task is recorded in
  -- the Log and nowhere else.
  pub record_task_action-Fixes :
      {T : Type 0} (view : env.World → T)
      → ((task : TaskForTransition) (d : Decision) (refs : List String) (a : AuthoritySource)
          → Fixes view (env.append_log_entry task d refs a))
      → (task_id : String) (request : ActionRequest) (calendar : Option CompletionSignal)
      → is_transition request.action ≡ false
      → Fixes view (record_task_action_with_calendar env task_id request calendar)
  unfolding record_task_action_with_calendar load_task append_task_decision check_calendar
      transition
  record_task_action-Fixes view appends task_id request calendar k =
      Fixes-bind view _ _ (λ w. refl)
        λ u. Fixes-bind view _ _ (Fixes-bind view _ _ (λ w. refl) (λ found w. refl)) λ task.
          Fixes-bind view _ _ (checks calendar task) λ v.
            Fixes-bind view _ _ (stays request.action k task _) λ done.
              Fixes-bind view _ _ (λ w. refl)
                λ status. Fixes-bind view _ _ (appends done.0 _ _ _) (λ log_id w. refl)
    where
      checks :
          (calendar : Option CompletionSignal) (task : TaskForTransition)
          → Fixes view (check_calendar env calendar task)
      checks none task w = refl
      checks (some signal) task w = Fixes-bind view _ _ (λ w. refl) (λ found w. refl) w

      stays :
          (kind : ActionKind)
          → is_transition kind ≡ false
          → (task : TaskForTransition) (a : AuthoritySource)
          → Fixes view (transition env kind task a)
      stays complete k task a w = absurd (cc)
      stays skip k task a w = absurd (cc)
      stays start k task a w = refl
      stays override k task a w = refl
      stays snooze k task a w = refl
