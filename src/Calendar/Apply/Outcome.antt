-- ===== src/Calendar/Apply/Outcome.antt =====
-- What a call of `approve` leaves in the tables, for each way that it can end.
use ubu_orchestrator.Base.{
  String, eq_refl, Bool, true, false, ◌&&◌, List, [], ◌∷◌, ◌≡◌, ◌≢◌, refl, sym, ap, ◌∙◌, map,
  length, if◌then◌else◌, arith, inl, inr,
}
use ubu_orchestrator.Base.Order.{str_ord}
use ubu_orchestrator.Base.TreeMap.{values}
use ubu_orchestrator.Errors.{AppError, Result, ok, ok-eq, err, conflict_diagnostic}
use ubu_orchestrator.Errors.Exec.{◌>>=◌, bind-err}
use ubu_orchestrator.Calendar.Event.{DesiredEvent, by_external_id}
use ubu_orchestrator.Calendar.Diff.{StringSet, diff, land_all}
use ubu_orchestrator.Calendar.Diff.Converge.{diff-land_all-diff}
use ubu_orchestrator.Calendar.Apply.{
  Env, StoredCalendarPreview, StoredCalendarResult, ProjectionStatus, last_applied_events,
  load_preview, lower_operation, result_status, result_schema, is_landed, prepare,
}
use ubu_orchestrator.Calendar.Apply.Approve.{
  State, finish, start, persist_with, persist_result, approve,
}
use ubu_orchestrator.Calendar.Apply.Landed.{accepted, run-tables}
use ubu_orchestrator.Calendar.Apply.Record.{approve-Approved, events_eq_sound}
use ubu_orchestrator.Calendar.Apply.Status.{length-map, accepted_all, status_applied_iff}

unpersisted :
    (env : Env) (r : StoredCalendarResult) (s s' : State env) (x : Result (Unit {0})) (e : AppError)
    → persist_with env r s x ≡ (s', err e)
    → s'.tables ≡ s.tables
unfolding persist_with
unpersisted env r s s' (err _) e h = ap (λ x. x.0.tables) (sym h)
unpersisted env r s s' (ok _) e h = absurd (cc)

newest :
    (result : StoredCalendarResult) (rows : List StoredCalendarResult)
    → result.schema_version ≡ result_schema
    → last_applied_events (result ∷ rows)
      ≡ (if is_landed result.status then result.applied_events else last_applied_events rows)
unfolding last_applied_events
newest result rows h = rw (h, eq_refl result_schema, and_true (is_landed result.status)) refl
  where
    and_true : (b : Bool) → b && true ≡ b
    and_true true = refl
    and_true false = refl

module _ (env : Env) (preview_id : String) (s s' : State env) where
  -- A call that returns a result has run against the applied events of the stored preview. It
  -- answers each of the preview's operations once, in order and under its id; its status is the
  -- one of these answers; and its events are those with the operations reported `applied` landed
  -- in order. It is stored as the newest result, with nothing else changed in the tables, and the
  -- applied events are then its events if its status is applied or partial, and the earlier ones
  -- if it is failed.
  pub approve_result :
      (stored : StoredCalendarPreview) (result : StoredCalendarResult)
      → load_preview s.tables preview_id ≡ ok stored
      → approve env preview_id s ≡ (s', ok result)
      → (last_applied_events s.tables.results ≡ stored.existing_events)
        × (map (λ r. r.operation_id) result.operation_results
            ≡ map (λ o. (lower_operation o).operation_id) stored.operations)
        × (result.status ≡ result_status result.operation_results)
        × (result.applied_events
            ≡ values (
                land_all
                  (accepted stored.operations result.operation_results)
                  (by_external_id (last_applied_events s.tables.results))))
        × (last_applied_events s'.tables.results ≡ (
            if is_landed result.status
            then result.applied_events
            else last_applied_events s.tables.results))
        × (s'.tables ≡ record s.tables { results = result ∷ s.tables.results })
  unfolding finish start last_applied_events
  approve_result stored result h k =
      let a = approve-Approved env preview_id s s' result k in
      let same : a.stored ≡ stored = ok-eq (sym a.loaded ∙ h) in
      let results : result.operation_results ≡ a.rounds.results =
        ap (λ r. r.operation_results) (sym a.returned) ∙ a.rounds.adds in
      let landed : result.applied_events ≡ values a.progress.landed =
        ap (λ r. r.applied_events) (sym a.returned) in
      let status : result.status ≡ result_status a.progress.operation_results =
        ap (λ r. r.status) (sym a.returned) in
      (
        cc (a.current, same),
        cc (results, a.rounds.names, same),
        cc (results, a.rounds.adds, status),
        cc (results, a.rounds.lands, landed, same, a.current),
        ap (λ t. last_applied_events t.results) a.row
            ∙ newest result s.tables.results (ap (λ r. r.schema_version) (sym a.returned)),
        a.row,
      )

  -- After a call whose result is `applied`, on a preview of the differences from the applied events
  -- to `desired`, the next preview of `desired` has no operation left.
  pub approve_converges :
      (stored : StoredCalendarPreview) (result : StoredCalendarResult) (desired : List DesiredEvent)
      (retained : StringSet)
      → load_preview s.tables preview_id ≡ ok stored
      → stored.operations ≡ diff desired stored.existing_events retained
      → approve env preview_id s ≡ (s', ok result)
      → result.status ≡ ProjectionStatus.applied
      → diff desired (last_applied_events s'.tables.results) retained ≡ []
  approve_converges stored result desired retained l o h k =
      let (current, names, status, events, next, row) = approve_result stored result l h in
      let results = result.operation_results in
      let count = (status_applied_iff results).0 (sym status ∙ k) in
      let lengths : length results ≡ length stored.operations =
        sym (length-map (λ r. r.operation_id) results)
        ∙ ap length names
        ∙ length-map (λ o. (lower_operation o).operation_id) stored.operations in
      let all : accepted stored.operations results ≡ stored.operations =
        accepted_all stored.operations results lengths count in
      rw (next, k, events, all, o, current)
        (diff-land_all-diff desired stored.existing_events retained)

  -- A call that returns an error, from a check, the gate's permit, the log or the final insert,
  -- leaves the rows of the previews and of the results as they were, also where operations have landed
  -- at the Calendar and entries have been made in the log before the error.
  pub approve_error : (e : AppError) → approve env preview_id s ≡ (s', err e) → s'.tables ≡ s.tables
  unfolding approve persist_result
  approve_error e h = elim (bind-err _ _ s s' e h) [
    | inl a ↦ ap (λ x. x.0.tables) (sym a)
    | inr (stored, t, a, k) ↦ elim (bind-err _ _ t s' e k) [
      | inl b ↦ absurd (cc)
      | inr (existing, u, b, l) ↦
          let before : u.tables ≡ s.tables =
            ap (λ x. x.0.tables) (sym b) ∙ ap (λ x. x.0.tables) (sym a) in
          elim (bind-err _ _ u s' e l) [
            | inl c ↦
                ap (λ x. x.0.tables) (sym c)
                ∙ run-tables env preview_id stored.no_external_export stored.operations
                    (start env existing) u
                ∙ before
            | inr (p, v, c, m) ↦
                let after : v.tables ≡ s.tables =
                  ap (λ x. x.0.tables) (sym c)
                  ∙ run-tables env preview_id stored.no_external_export stored.operations
                      (start env existing) u
                  ∙ before in
                elim (bind-err _ _ v s' e m) [
                  | inl d ↦
                      unpersisted env (finish env preview_id p) v s' (env.persists v.world) e d
                      ∙ after
                  | inr (_, w, d, n) ↦ absurd (cc)
                ]
          ]
    ]
  ]

-- A preview made against other events than those applied now is refused with a conflict: the
-- client, the gate and the log are not called, and no table changes.
pub approve_stale :
    (env : Env) (preview_id : String) (s : State env) (stored : StoredCalendarPreview)
    → env.available s.world ≡ ok tt
    → load_preview s.tables preview_id ≡ ok stored
    → last_applied_events s.tables.results ≢ stored.existing_events
    → approve env preview_id s ≡ (
      s,
      err (
          conflict_diagnostic "calendar_projection_conflict"
            "The applied Calendar event set changed after this preview; request a new preview"),
    )
unfolding approve prepare ◌>>=◌
approve_stale env preview_id s stored a l n =
    ground (arith, events_eq_sound (last_applied_events s.tables.results) stored.existing_events)
