-- ===== src/Labels/Export.antt =====
-- What `approve` of src/services/projection_service.rs reads and answers with: stored previews, policies,
-- answers to operations, and the status of a result. GitHub, the gate of `ubu_core`, the Log and the
-- failures of the store are given by an `Env`.
use ubu_orchestrator.Base.{
  ℕ, String, str_eq, Bool, true, false, not, Option, none, some, List, [], ◌∷◌, ◌++◌, map, all, any,
  find, if◌then◌else◌, ◌⊎◌, inl, inr,
}
use ubu_orchestrator.Errors.{
  not_found, internal, Result, ok, err, refuse_if, bad_request_diagnostic,
}
use ubu_orchestrator.Calendar.Capture.{◌<>◌}
use ubu_orchestrator.Calendar.Apply.{
  AuthoritySource, ExportPermit, OperationStatus, OperationResult, ProjectionStatus,
}
use ubu_orchestrator.Labels.{Target, GitHubOperation, CoreOperation, PreviewBatch}

-- `PolicySummary` of `ubu_core`, as far as it is read.
pub data Legitimization : Type 0 where
  accepted needs_review rejected : Legitimization

pub record PolicySummary : Type 0 where
  pub legitimization : Legitimization
  pub adjudication_reasons : List String
  pub no_external_export : Option Bool

-- The policy of a preview, by what its request says of external export.
abbrev pub resolved_policy_summary : Bool → PolicySummary
resolved_policy_summary true = record {
  legitimization = Legitimization.rejected;
  adjudication_reasons = "effective compartment policy forbids external export" ∷ [];
  no_external_export = some true;
}
resolved_policy_summary false = record {
  legitimization = Legitimization.accepted;
  adjudication_reasons = "managed-label projection is allowed for automation worker export" ∷ [];
  no_external_export = some false;
}

-- The gate's decision.
pub record Adjudication : Type 0 where
  pub legitimization : Legitimization
  pub permit : Option ExportPermit

pub record AdapterError : Type 0 where
  pub message : String
  pub is_rate_limit_or_transport_failure : Bool

pub record ProjectionDiagnostic : Type 0 where
  pub code : String
  pub message : String
  pub operation_id : Option String

pub record StoredPreview : Type 0 where
  pub schema_version : String
  -- `preview.id`
  pub preview_id : String
  pub batch : PreviewBatch
  -- `preview.policy_summary`, and the one beside it.
  pub preview_policy : Option PolicySummary
  pub policy_summary : PolicySummary

pub record ProjectionResult : Type 0 where
  pub preview_id : String
  pub status : ProjectionStatus
  pub operation_results : List OperationResult
  pub diagnostics : List ProjectionDiagnostic

pub record ApproveRequest : Type 0 where
  pub schema_version : Option String
  pub preview_id : String
  pub approved : Bool
  pub approved_at : Option String

abbrev pub preview_schema : String
preview_schema = "ubu.orchestrator.projection_preview.v1"

abbrev pub approval_schema : String
approval_schema = "ubu.orchestrator.projection_approval.v1"

unfoldable pub validate_schema_version : Option String → String → Result (Unit {0})
validate_schema_version none expected =
    err (bad_request_diagnostic "missing_schema_version" "schema_version is required")
validate_schema_version (some actual) expected = refuse_if (not (str_eq actual expected)) (
    bad_request_diagnostic "unknown_schema_version"
      ("unsupported schema_version `" <> actual <> "`"))

unfoldable pub find_preview : String → List (String × StoredPreview) → Option StoredPreview
find_preview id [] = none
find_preview id ((key, row) ∷ rows) = if str_eq key id then some row else find_preview id rows

abbrev supported : Option StoredPreview → Result StoredPreview
supported none = err (not_found "projection preview not found")
supported (some row) =
    if str_eq row.schema_version preview_schema
    then ok row
    else err (
        bad_request_diagnostic "unknown_schema_version"
          ("stored preview has unsupported schema_version `" <> row.schema_version <> "`"))

unfoldable pub load_preview : List (String × StoredPreview) → String → Result StoredPreview
unfolding find_preview
load_preview rows id = supported (find_preview id rows)

abbrev or_lacking : String → Option CoreOperation → Result CoreOperation
or_lacking id none =
    err (internal ("stored preview is missing core projection operation `" <> id <> "`"))
or_lacking id (some core) = ok core

unfoldable pub preview_operation : List CoreOperation → GitHubOperation → Result CoreOperation
preview_operation operations operation =
    or_lacking operation.operation_id
      (find (λ core. str_eq core.operation_id operation.operation_id) operations)

abbrev pub is_applied : OperationResult → Bool
is_applied result = is_it result.status
  where
    is_it : OperationStatus → Bool
    is_it OperationStatus.applied = true
    is_it OperationStatus.skipped = false
    is_it OperationStatus.failed = false

unfoldable pub result_status : List OperationResult → ProjectionStatus
result_status results =
    if all is_applied results
    then ProjectionStatus.applied
    else if any is_applied results
    then ProjectionStatus.partial
    else ProjectionStatus.failed

-- `adjudication_reasons.join("; ")`
abbrev join_reasons : List String → String
join_reasons [] = ""
join_reasons (reason ∷ []) = reason
join_reasons (reason ∷ (next ∷ reasons)) = reason <> "; " <> join_reasons (next ∷ reasons)

abbrev reason_of : List String → String
reason_of [] = "projection operation was not accepted by the enforcement gate"
reason_of (reason ∷ reasons) = join_reasons (reason ∷ reasons)

unfoldable pub denial_reason : PolicySummary → String
denial_reason policy = reason_of policy.adjudication_reasons

abbrev pub or_else : Option PolicySummary → PolicySummary → PolicySummary
or_else none policy = policy
or_else (some own) policy = own

-- An answer for every operation, with the same status and message.
unfoldable pub answer_all : OperationStatus → String → List GitHubOperation → List OperationResult
answer_all status message =
    map (λ o. record { operation_id = o.operation_id; status = status; message = some message })

-- The variables of the loop; and whether it goes on.
pub record Progress : Type 0 where
  pub operation_results : List OperationResult
  pub diagnostics : List ProjectionDiagnostic

pub data Outcome : Type 0 where
  go_on halt : Progress → Outcome

unfoldable pub answer : GitHubOperation → OperationStatus → String → Progress → Progress
answer operation status message p = record p {
  operation_results =
      p.operation_results
      ++ (record { operation_id = operation.operation_id; status = status; message = some message }
          ∷ []);
}

unfoldable pub diagnose : GitHubOperation → String → String → Progress → Progress
diagnose operation code message p = record p {
  diagnostics =
      p.diagnostics
      ++ (record { code = code; message = message; operation_id = some operation.operation_id }
          ∷ []);
}

-- What the client's answer comes to.
unfoldable pub settle : GitHubOperation → String ⊎ AdapterError → Progress → Outcome
unfolding answer diagnose
settle operation (inl message) p = go_on (answer operation OperationStatus.applied message p)
settle operation (inr error) p =
    let failed_one = answer operation OperationStatus.failed error.message p in
    if error.is_rate_limit_or_transport_failure
    then halt (
        diagnose operation "github_projection_transport_aborted"
          "GitHub projection batch stopped after a rate-limit or transport failure" failed_one)
    else go_on failed_one

-- The answers for the operations after the one that stopped the batch.
unfoldable pub abandon : List GitHubOperation → Progress → Progress
unfolding answer_all
abandon remaining p = record p {
  operation_results =
      p.operation_results
      ++ answer_all OperationStatus.skipped
          "not applied because an earlier GitHub write hit a rate-limit or transport failure"
          remaining;
}

pub record Env : Type 1 where
  pub World : Type 0
  pub is_managed_label : String → Bool
  pub parse_id : String → Result String
  pub parse_approved_at : Option String → Result (Unit {0})
  -- The failures of the store's inserts.
  pub records_approval : World → Result (Unit {0})
  pub persists : World → Result (Unit {0})
  -- `projection_github_client`: whether there is a client.
  pub github_client : World → Result Bool
  pub gate :
      CoreOperation → GitHubOperation → PolicySummary → AuthoritySource → World → Adjudication
  pub append_boundary_log : String → GitHubOperation → World → World × Result (Unit {0})
  -- `client.api().create_label`, with the label, its colour and its description.
  pub create_label : Target → String → String → String → World → World × Option AdapterError
  -- `apply_managed_label_write`, which answers with the labels that it applied.
  pub apply_managed_label_write :
      Target → ℕ → List String → AuthoritySource → World → World × (List String ⊎ AdapterError)
  pub remove_label_from_issue : Target → ℕ → String → World → World × Option AdapterError
  -- `AdapterError`'s own texts, which another crate writes.
  pub unsupported_target : AdapterError
  pub forbidden_operation : String → AdapterError
