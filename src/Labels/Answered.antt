-- ===== src/Labels/Answered.antt =====
-- `approve` as a whole: what it answers with, and the rows that it adds.
use ubu_orchestrator.Base.{String, Bool, true, false, List, ◌∷◌, ◌≡◌, sym, ap, ◌∙◌, map, all, arith}
use ubu_orchestrator.Errors.{ok}
use ubu_orchestrator.Errors.Exec.{Exec, pure, bind-ok, check-ok, ◌>>=◌, ◌>>◌}
use ubu_orchestrator.Calendar.Apply.{OperationStatus, OperationResult, ProjectionStatus}
use ubu_orchestrator.Labels.Export.{
  StoredPreview, ProjectionResult, ApproveRequest, load_preview, is_applied, result_status,
  answer_all, Env,
}
use ubu_orchestrator.Labels.Approve.{
  State, with_client, export, start, persist_approval, persist_result, approve, Answers, result_of,
}
use ubu_orchestrator.Labels.Answers.{ids, names, ids-answer_all, run-names}
use ubu_orchestrator.Labels.Rows.{Rows, rows, export-rows, approval_added, result_added}

-- A result is `applied` only if every operation was.
applied_all :
    (results : List OperationResult)
    → result_status results ≡ ProjectionStatus.applied
    → all is_applied results ≡ true
unfolding result_status
applied_all results h = ground arith

module _ (env : Env) where
  -- What `export` answers with, for every operation of the preview.
  record Answered (stored : StoredPreview) (answers : Answers env) : Type 0 where
    each : ids answers.0.operation_results ≡ names stored.batch.github_operations
    applied :
        answers.1 ≡ ProjectionStatus.applied → all is_applied answers.0.operation_results ≡ true

  refused-Answered :
      (stored : StoredPreview) (status : OperationStatus) (message : String) (answers : Answers env)
      → answers.0.operation_results ≡ answer_all status message stored.batch.github_operations
      → answers.1 ≡ ProjectionStatus.failed
      → Answered stored answers
  refused-Answered stored status message answers e f = record {
    each = ap ids e ∙ ids-answer_all status message stored.batch.github_operations;
    applied = λ h. absurd (cc);
  }

  with_client-Answered :
      (id : String) (stored : StoredPreview) (client : Bool) (s t : State env)
      (answers : Answers env)
      → with_client env id stored client s ≡ (t, ok answers)
      → Answered stored answers
  unfolding with_client
  with_client-Answered id stored false s t answers e =
      refused-Answered stored OperationStatus.failed
        "live GitHub projection export has no desktop session token" answers (cc e) (cc e)
  with_client-Answered id stored true s t answers e =
      let first = bind-ok _ _ s t answers e in
      let given : (first.value, result_status first.value.operation_results) ≡ answers =
        cc first.rest_ok in
      record {
        each =
            ap (λ (a : Answers env). ids a.0.operation_results) (sym given)
            ∙ run-names env id _ _ _ (start env) first.value s first.between first.fst_ok;
        applied = λ h. applied_all answers.0.operation_results (cc (given, h));
      }

  export-Answered :
      (id : String) (stored : StoredPreview) (approved : Bool) (s t : State env)
      (answers : Answers env)
      → export env id stored approved s ≡ (t, ok answers)
      → Answered stored answers
  unfolding export
  export-Answered id stored false s t answers e =
      refused-Answered stored OperationStatus.skipped "projection batch was not approved" answers
        (cc e) (cc e)
  export-Answered id stored true s t answers e =
      let checked = bind-ok _ _ s t answers e in
      let connected = bind-ok _ _ checked.between t answers checked.rest_ok in
      with_client-Answered id stored connected.value connected.between t answers connected.rest_ok

  -- `approve` from the insert of the approval on.
  abbrev recording : String → StoredPreview → Bool → Exec (State env) ProjectionResult
  recording id stored approved = do
    persist_approval env id approved
    answers ← export env stored.preview_id stored approved
    persist_result env (result_of env stored.preview_id answers)
    pure (result_of env stored.preview_id answers)

  record Recorded (id : String) (stored : StoredPreview) (approved : Bool) (s t : State env)
      (result : ProjectionResult) : Type 0 where
    answers : Answers env
    given : result_of env stored.preview_id answers ≡ result
    answered : Answered stored answers
    added : rows env t ≡ (s.previews, (id, approved) ∷ s.approvals, result ∷ s.results)

  answers-Recorded :
      (id : String) (stored : StoredPreview) (approved : Bool) (s u v t : State env)
      (result : ProjectionResult) (answers : Answers env)
      → rows env u ≡ (s.previews, (id, approved) ∷ s.approvals, s.results)
      → export env stored.preview_id stored approved u ≡ (v, ok answers)
      → (persist_result env (result_of env stored.preview_id answers)
            >> pure (result_of env stored.preview_id answers))
          v
        ≡ (t, ok result)
      → Recorded id stored approved s t result
  unfolding persist_result
  answers-Recorded id stored approved s u v t result answers r e k =
      let last = bind-ok _ _ v t result k in
      let given : result_of env stored.preview_id answers ≡ result = cc last.rest_ok in
      let ended : last.between ≡ t = ap (λ x. x.0) last.rest_ok in
      let kept : rows env v ≡ rows env u =
        ap (λ x. rows env x.0) (sym e) ∙ export-rows env stored.preview_id stored approved u in
      record {
        answers = answers;
        given = given;
        answered = export-Answered stored.preview_id stored approved u v answers e;
        added =
            ap (rows env) (sym ended)
            ∙ result_added env (result_of env stored.preview_id answers) v last.between
                (env.persists v.world) last.fst_ok
            ∙ ap (λ (x : Rows env). (x.0, x.1, result_of env stored.preview_id answers ∷ x.2))
                (kept ∙ r)
            ∙ ap (λ x. (s.previews, (id, approved) ∷ s.approvals, x ∷ s.results)) given;
      }

  recording-Recorded :
      (id : String) (stored : StoredPreview) (approved : Bool) (s t : State env)
      (result : ProjectionResult)
      → recording id stored approved s ≡ (t, ok result)
      → Recorded id stored approved s t result
  unfolding persist_approval
  recording-Recorded id stored approved s t result e =
      let first = bind-ok _ _ s t result e in
      let second = bind-ok _ _ first.between t result first.rest_ok in
      answers-Recorded id stored approved s first.between second.between t result second.value
        (approval_added env id approved s first.between (env.records_approval s.world) first.fst_ok)
        second.fst_ok second.rest_ok

  pub approve_answers :
      (request : ApproveRequest) (s t : State env) (result : ProjectionResult)
      → approve env request s ≡ (t, ok result)
      → (id : String) × (stored : StoredPreview) × (env.parse_id request.preview_id ≡ ok id)
        × (load_preview s.previews id ≡ ok stored)
        × (result.preview_id ≡ stored.preview_id)
        × (map (λ r. r.operation_id) result.operation_results
            ≡ map (λ o. o.operation_id) stored.batch.github_operations)
        × (result.status ≡ ProjectionStatus.applied
            → all is_applied result.operation_results ≡ true)
        × (rows env t ≡ (s.previews, (id, request.approved) ∷ s.approvals, result ∷ s.results))
  unfolding approve
  approve_answers request s t result e =
      let (u, versioned, e1) = check-ok _ _ s t result e in
      let (id, named, e2) = check-ok _ _ s t result e1 in
      let (stored, loaded, e3) = check-ok _ _ s t result e2 in
      let (v, timed, e4) = check-ok _ _ s t result e3 in
      let r = recording-Recorded id stored request.approved s t result e4 in
      (
        id,
        stored,
        named,
        loaded,
        ap (λ x. x.preview_id) (sym r.given),
        ap (λ x. ids x.operation_results) (sym r.given) ∙ r.answered.each,
        (λ h.
            ap (λ x. all is_applied x.operation_results) (sym r.given)
            ∙ r.answered.applied (ap (λ x. x.status) r.given ∙ h)),
        r.added,
      )
