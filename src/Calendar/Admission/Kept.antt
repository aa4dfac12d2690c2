-- ===== src/Calendar/Admission/Kept.antt =====
-- A capture leaves no external id twice among the applied events.
use ubu_orchestrator.Base.{
  ℕ, String, str_eq, Bool, true, false, not, Option, none, some, List, [], ◌∷◌, ◌≡◌, refl, ap,
  subst, is_some, retain, inl, inr, Bool-cases, if◌then◌else◌,
}
use ubu_orchestrator.Base.Order.{str_ord}
use ubu_orchestrator.Base.TreeMap.{TreeMap, get}
use ubu_orchestrator.Base.Distinct.{Apart, append-Distinct, retain-Distinct, sort_by-Distinct}
use ubu_orchestrator.Errors.{Result, ok, err, ok-eq}
use ubu_orchestrator.Errors.Exec.{Exec, pure, bind-ok, bind-holds, bind-reads}
use ubu_orchestrator.Calendar.Event.{DesiredEvent, event_id, HasDistinctIds}
use ubu_orchestrator.Calendar.Diff.{StringSet}
use ubu_orchestrator.Calendar.Capture.{not_ownable_diagnostic}
use ubu_orchestrator.Calendar.Interaction.{Timestamps, with_id}
use ubu_orchestrator.Calendar.Intake.{CapturedTask}
use ubu_orchestrator.Calendar.Apply.{last_applied_events}
use ubu_orchestrator.Calendar.Reconciliation.Stored.{id_le}
use ubu_orchestrator.Calendar.Gestures.{Host, Applying}
use ubu_orchestrator.Calendar.Gestures.Applied.{apply}
use ubu_orchestrator.Calendar.Gestures.Accepted.{apply-HasDistinctIds}
use ubu_orchestrator.Calendar.Admission.{SourceRow, colour_flipped}
use ubu_orchestrator.Calendar.Admission.Captured.{
  Admitting, CaptureHost, CaptureState, owned_origin, record_origin, count_task, skip_task,
  admit_task, admit_all,
}
use ubu_orchestrator.Calendar.Admission.Whole.{
  Seen, in_world, admit_seen, recorded_result, record_with, record_applied, capture,
}
use ubu_orchestrator.Tasks.Record.{Env as TasksEnv}

others_Apart :
    (e : DesiredEvent) (id : String) (applied : List DesiredEvent)
    → e.external_id ≡ id
    → Apart event_id (retain (λ old. not (str_eq old.external_id id)) applied) (e ∷ [])
others_Apart e id [] n = tt
others_Apart e id (old ∷ applied) n =
    let rest = others_Apart e id applied n in
    elim (Bool-cases (str_eq old.external_id id)) [
      | inl same ↦ rw same rest
      | inr other ↦ rw other ((rw n other, tt), rest)
    ]

record_origin-HasDistinctIds :
    (foreign : List DesiredEvent) (task : CapturedTask) (id : String) (a : Admitting)
    → HasDistinctIds a.applied
    → HasDistinctIds (record_origin foreign task id a).applied
unfolding record_origin
record_origin-HasDistinctIds foreign task id a h =
    go (is_some (not_ownable_diagnostic task.origin_event_id))
  where
    entered : (o : Option DesiredEvent) → HasDistinctIds (owned_origin task id o a).applied
    entered none = h
    entered (some e) =
        let own : DesiredEvent = record e {
          task_id = id;
          start_at = task.start_at;
          end_at = task.end_at;
        } in
        append-Distinct event_id
          (retain (λ old. not (str_eq old.external_id e.external_id)) a.applied) (own ∷ [])
          (retain-Distinct event_id (λ old. not (str_eq old.external_id e.external_id)) a.applied h)
          (tt, tt) (others_Apart own e.external_id a.applied refl)

    go :
        (b : Bool)
        → HasDistinctIds
            (if b then a else owned_origin task id (with_id task.origin_event_id foreign) a).applied
    go true = h
    go false = entered (with_id task.origin_event_id foreign)

module _ (Json : Type 0) (ts : Timestamps) (timestamp_at : ℕ → Option String) (tasks : TasksEnv)
    (host : Host ts tasks) (capture_host : CaptureHost Json ts timestamp_at tasks host) where
  open tasks use {World}

  admit_task-HasDistinctIds :
      (changed_ids : StringSet) (foreign : List DesiredEvent) (task : CapturedTask)
      (previous : Option (SourceRow Json)) (a : Admitting) (w w' : World) (a' : Admitting)
      → HasDistinctIds a.applied
      → admit_task Json ts timestamp_at tasks host capture_host changed_ids foreign task previous a
          w
        ≡ (w', ok a')
      → HasDistinctIds a'.applied
  unfolding admit_task count_task
  admit_task-HasDistinctIds changed_ids foreign task previous a w w' a' d h =
      let b = bind-ok _ _ w w' a' h in
      let c = bind-ok _ _ b.between w' a' b.rest_ok in
      let e = bind-ok _ _ c.between w' a' c.rest_ok in
      let f = bind-ok _ _ e.between w' a' e.rest_ok in
      subst (λ x. HasDistinctIds x.applied) (ok-eq (ap (λ x. x.1) f.rest_ok))
        (record_origin-HasDistinctIds foreign task b.value _ d)

  admit_all-HasDistinctIds :
      (existing : TreeMap String (SourceRow Json)) (changed_ids : StringSet)
      (foreign : List DesiredEvent) (captured : List CapturedTask) (a : Admitting) (w w' : World)
      (a' : Admitting)
      → HasDistinctIds a.applied
      → admit_all Json ts timestamp_at tasks host capture_host existing changed_ids foreign captured
          a w
        ≡ (w', ok a')
      → HasDistinctIds a'.applied
  unfolding admit_all skip_task
  admit_all-HasDistinctIds existing changed_ids foreign [] a w w' a' d h =
      subst (λ x. HasDistinctIds x.applied) (ok-eq (ap (λ x. x.1) h)) d
  admit_all-HasDistinctIds existing changed_ids foreign (task ∷ captured) a w w' a' d h =
      let b = bind-ok _ _ w w' a' h in
      admit_all-HasDistinctIds existing changed_ids foreign captured b.value b.between w' a'
        (one _ (get task.origin_event_id existing) b.between b.value b.fst_ok) b.rest_ok
    where
      one :
          (closed : Bool) (previous : Option (SourceRow Json)) (u : World) (x : Admitting)
          → (if closed
                then pure (skip_task a)
                else admit_task Json ts timestamp_at tasks host capture_host changed_ids foreign
                    task previous a)
              w
            ≡ (u, ok x)
          → HasDistinctIds x.applied
      one true previous u x e = subst (λ y. HasDistinctIds y.applied) (ok-eq (ap (λ y. y.1) e)) d
      one false previous u x e =
          admit_task-HasDistinctIds changed_ids foreign task previous a w u x d e

  abbrev State : Type 0
  State = CaptureState Json ts timestamp_at tasks host

  abbrev AppliedOnce : State → Type 0
  AppliedOnce s = HasDistinctIds (last_applied_events s.tables.results)

  record_applied-AppliedOnce :
      (a : Admitting) (s : State)
      → HasDistinctIds a.applied
      → AppliedOnce s
      → AppliedOnce (record_applied Json ts timestamp_at tasks host capture_host a s).0
  unfolding record_applied record_with recorded_result last_applied_events
  record_applied-AppliedOnce a s d h = go a.recorded (capture_host.persists s.world)
    where
      go :
          (b : Bool) (x : Result (Unit {0}))
          → AppliedOnce
              (if b
                then record_with Json ts timestamp_at tasks host capture_host
                    (recorded_result Json ts timestamp_at tasks host capture_host a.applied s.world)
                    s
                    x
                else (s, ok tt)).0
      go false x = h
      go true (err e) = h
      go true (ok u) = sort_by-Distinct event_id id_le a.applied d

  ran :
      {A : Type 0} (m : Exec World A) (s u : State) (a : A)
      → in_world Json ts timestamp_at tasks host capture_host m s ≡ (u, ok a)
      → m s.world ≡ ((m s.world).0, ok a)
  ran m s u a h = ap (λ x. ((m s.world).0, x)) (ap (λ x. x.1) h)

  admit_seen-HasDistinctIds :
      (seen : Seen) (flipped : StringSet) (gestures : Applying) (w w' : World) (a : Admitting)
      → HasDistinctIds gestures.applied
      → admit_seen Json ts timestamp_at tasks host capture_host seen flipped gestures w ≡ (w', ok a)
      → HasDistinctIds a.applied
  unfolding admit_seen
  admit_seen-HasDistinctIds seen flipped gestures w w' a d h =
      let b = bind-ok _ _ w w' a h in
      let c = bind-ok _ _ b.between w' a b.rest_ok in
      let e = bind-ok _ _ c.between w' a c.rest_ok in
      admit_all-HasDistinctIds c.value gestures.result.changed_external_ids _ _ _ e.between w' a d
        e.rest_ok

  -- If no external id stands twice among the applied events, none does after a capture, whether it
  -- returns a response or an error.
  pub capture-HasDistinctIds :
      (s : CaptureState Json ts timestamp_at tasks host)
      → HasDistinctIds (last_applied_events s.tables.results)
      → HasDistinctIds (
          last_applied_events
            (capture Json ts timestamp_at tasks host capture_host s).0.tables.results)
  unfolding capture
  capture-HasDistinctIds s h =
      bind-reads AppliedOnce _ _ s (λ t. refl) h
        λ available e1.
          bind-reads AppliedOnce _ _ s (λ t. refl) h
            λ applied e2.
              let start : HasDistinctIds applied =
                subst HasDistinctIds (ok-eq (ap (λ x. x.1) e2)) h in
              bind-holds AppliedOnce _ _ s h λ u seen e3.
                let at_u : AppliedOnce u = subst AppliedOnce (ap (λ x. x.0) e3) h in
                bind-holds AppliedOnce _ _ u at_u λ v gestures e4.
                  let at_v : AppliedOnce v = subst AppliedOnce (ap (λ x. x.0) e4) at_u in
                  let kept : HasDistinctIds gestures.applied =
                    apply-HasDistinctIds ts tasks host seen.observed applied u.world
                      (apply ts tasks host seen.observed applied u.world).0 gestures start
                      (ran (apply ts tasks host seen.observed applied) u v gestures e4) in
                  bind-holds AppliedOnce _ _ v at_v λ x admitted e5.
                    let at_x : AppliedOnce x = subst AppliedOnce (ap (λ y. y.0) e5) at_v in
                    let rest =
                      admit_seen Json ts timestamp_at tasks host capture_host seen
                        (colour_flipped applied seen.observed) gestures in
                    let last =
                      admit_seen-HasDistinctIds seen (colour_flipped applied seen.observed) gestures
                        v.world (rest v.world).0 admitted kept (ran rest v x admitted e5) in
                    bind-holds AppliedOnce _ _ x (record_applied-AppliedOnce admitted x last at_x)
                      λ y u e6.
                        subst AppliedOnce (ap (λ z. z.0) e6)
                          (record_applied-AppliedOnce admitted x last at_x)
