-- ===== src/Labels/Approve.antt =====
-- `approve` of src/services/projection_service.rs: the gate, the writes to GitHub, and the recorded
-- result.
use ubu_orchestrator.Base.{
  String, str_eq, Bool, true, false, not, Option, none, some, List, [], ◌∷◌, if◌then◌else◌,
}
use ubu_orchestrator.Errors.{Result, ok, err}
use ubu_orchestrator.Errors.Exec.{Exec, pure, check, lift, reads, ◌>>=◌, ◌>>◌}
use ubu_orchestrator.Calendar.Capture.{◌<>◌}
use ubu_orchestrator.Calendar.Apply.{
  automation_worker, ExportPermit, OperationStatus, ProjectionStatus,
}
use ubu_orchestrator.Labels.{Payload, GitHubOperation, CoreOperation, ensure_label_only_batch}
use ubu_orchestrator.Labels.Export.{
  Legitimization, PolicySummary, ProjectionDiagnostic, StoredPreview, ProjectionResult,
  ApproveRequest, approval_schema, validate_schema_version, load_preview, preview_operation,
  result_status, denial_reason, or_else, answer_all, Progress, Outcome, go_on, halt, answer,
  diagnose, settle, abandon, Env,
}
use ubu_orchestrator.Labels.Github.{apply_managed_label_operation}

module _ (env : Env) where
  open env use {
    World, is_managed_label, parse_id, parse_approved_at, records_approval, persists, github_client,
    gate, append_boundary_log,
  }

  -- The previews of the store; its approvals and its results, the newest first.
  pub record State : Type 0 where
    pub world : World
    pub previews : List (String × StoredPreview)
    pub approvals : List (String × Bool)
    pub results : List ProjectionResult

  abbrev unmanaged_missing : List String → Option String
  unmanaged_missing [] = none
  unmanaged_missing (name ∷ names) =
      let rest = unmanaged_missing names in
      if is_managed_label name
      then rest
      else some ("managed-label preflight contains unmanaged label `" <> name <> "`")

  abbrev unmanaged_in : Payload → Option String
  unmanaged_in (Payload.missing_labels names) = unmanaged_missing names
  unmanaged_in (Payload.one_label name) =
      if is_managed_label name then none else some "only managed-label writes are allowed in O19"
  unmanaged_in Payload.other = some "only managed-label writes are allowed in O19"

  -- The complaint about a payload that is not managed.
  unfoldable pub assert_operation_payload_managed : GitHubOperation → Option String
  assert_operation_payload_managed operation = unmanaged_in operation.payload

  unfoldable pub write : GitHubOperation → ExportPermit → Progress → Exec State Outcome
  unfolding apply_managed_label_operation settle
  write operation permit p s =
      let (w, a) = apply_managed_label_operation env operation permit s.world in
      (record s { world = w }, ok (settle operation a p))

  unfoldable pub ensure_permit_matches : GitHubOperation → ExportPermit → Option String
  ensure_permit_matches operation permit =
      if not (str_eq permit.operation_id operation.operation_id)
      then some (
          "internal error: core export permit for `" <> permit.operation_id
          <> "` cannot authorize operation `" <> operation.operation_id <> "`")
      else none

  -- A check that failed, or the next thing to do.
  unfoldable pub unless_failed :
      GitHubOperation → Option String → Progress → Exec State Outcome → Exec State Outcome
  unfolding answer
  unless_failed operation (some message) p next =
      pure (go_on (answer operation OperationStatus.failed message p))
  unless_failed operation none p next = next

  unfoldable pub decide :
      GitHubOperation
      → PolicySummary
      → Legitimization
      → Option ExportPermit
      → Progress
      → Exec State Outcome
  unfolding write ensure_permit_matches unless_failed assert_operation_payload_managed answer
      diagnose denial_reason
  decide operation policy Legitimization.accepted none p = pure (
      go_on (
        answer operation OperationStatus.failed
          "accepted projection export did not include a core export permit" p))
  decide operation policy Legitimization.accepted (some permit) p =
      unless_failed operation (assert_operation_payload_managed operation) p (
        unless_failed operation (ensure_permit_matches operation permit) p
          (write operation permit p))
  decide operation policy Legitimization.needs_review permit p = pure (
      go_on (
        answer operation OperationStatus.skipped (denial_reason policy)
          (diagnose operation "projection_denied" (denial_reason policy) p)))
  decide operation policy Legitimization.rejected permit p = pure (
      go_on (
        answer operation OperationStatus.skipped (denial_reason policy)
          (diagnose operation "projection_denied" (denial_reason policy) p)))

  abbrev on_world : (World → World × Result (Unit {0})) → Exec State (Unit {0})
  on_world f s = let (w, r) = f s.world in (record s { world = w }, r)

  unfoldable pub round :
      String → PolicySummary → List CoreOperation → GitHubOperation → Progress → Exec State Outcome
  unfolding preview_operation decide
  round id policy cores operation p = do
    core ← lift (preview_operation cores operation)
    decision ← reads (λ s. gate core operation policy automation_worker s.world)
    on_world (append_boundary_log id operation)
    decide operation policy decision.legitimization decision.permit p

  -- The rest of the loop, or `break` with the rest abandoned.
  unfoldable pub proceed :
      List GitHubOperation → (Progress → Exec State Progress) → Outcome → Exec State Progress
  unfolding abandon
  proceed operations rest (go_on p) = rest p
  proceed operations rest (halt p) = pure (abandon operations p)

  unfoldable pub run :
      String
      → PolicySummary
      → List CoreOperation
      → List GitHubOperation
      → Progress
      → Exec State Progress
  unfolding proceed
  run id policy cores [] p = pure p
  run id policy cores (operation ∷ operations) p =
      let rest = run id policy cores operations in
      round id policy cores operation p >>= proceed operations rest

  abbrev pub start : Progress
  start = record { operation_results = []; diagnostics = [] }

  -- The answers, and the status that `approve` gives the result.
  abbrev pub Answers : Type 0
  Answers = Progress × ProjectionStatus

  abbrev pub no_token : ProjectionDiagnostic
  no_token = record {
    code = "missing_github_session_token";
    message = "live GitHub projection export requires an in-memory desktop session token";
    operation_id = none;
  }

  abbrev pub all_answered :
      OperationStatus → String → List ProjectionDiagnostic → StoredPreview → Answers
  unfolding answer_all
  all_answered status message diagnostics stored = (
    record {
      operation_results = answer_all status message stored.batch.github_operations;
      diagnostics = diagnostics;
    },
    ProjectionStatus.failed,
  )

  unfoldable pub with_client : String → StoredPreview → Bool → Exec State Answers
  unfolding run result_status
  with_client id stored false = pure (
      all_answered OperationStatus.failed
        "live GitHub projection export has no desktop session token" (no_token ∷ []) stored)
  with_client id stored true = do
    p ←
        run id (or_else stored.preview_policy stored.policy_summary) stored.batch.operations
          stored.batch.github_operations start
    pure (p, result_status p.operation_results)

  unfoldable pub export : String → StoredPreview → Bool → Exec State Answers
  unfolding with_client ensure_label_only_batch
  export id stored false =
      pure (all_answered OperationStatus.skipped "projection batch was not approved" [] stored)
  export id stored true = do
    lift (ensure_label_only_batch stored.batch)
    client ← check (λ s. github_client s.world)
    with_client id stored client

  abbrev pub when_ok : Result (Unit {0}) → State → State → State × Result (Unit {0})
  when_ok (ok u) after before = (after, ok u)
  when_ok (err e) after before = (before, err e)

  unfoldable pub persist_approval : String → Bool → Exec State (Unit {0})
  persist_approval id approved s =
      when_ok (records_approval s.world) (record s { approvals = (id, approved) ∷ s.approvals }) s

  unfoldable pub persist_result : ProjectionResult → Exec State (Unit {0})
  persist_result result s = when_ok (persists s.world) (record s { results = result ∷ s.results }) s

  abbrev pub result_of : String → Answers → ProjectionResult
  result_of id answers = record {
    preview_id = id;
    status = answers.1;
    operation_results = answers.0.operation_results;
    diagnostics = answers.0.diagnostics;
  }

  unfoldable pub approve : ApproveRequest → Exec State ProjectionResult
  unfolding validate_schema_version load_preview persist_approval export persist_result
  approve request = do
    lift (validate_schema_version request.schema_version approval_schema)
    id ← lift (parse_id request.preview_id)
    stored ← check (λ s. load_preview s.previews id)
    lift (parse_approved_at request.approved_at)
    persist_approval id request.approved
    answers ← export stored.preview_id stored request.approved
    persist_result (result_of stored.preview_id answers)
    pure (result_of stored.preview_id answers)
