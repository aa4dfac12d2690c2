-- ===== src/Labels/Reconcile.antt =====
-- `reconcile` of src/services/projection_service.rs: the labels of the issue against the last applied
-- result. The rows of the store are given, the newest first.
use ubu_orchestrator.Base.{
  ℕ, String, str_eq, Bool, true, false, not, Option, none, some, List, [], ◌∷◌, ◌++◌, map, any,
  find, retain, is_some, if◌then◌else◌,
}
use ubu_orchestrator.Errors.{
  AppError, not_found, Result, ok, err, ◌>>=◌, ◌>>◌, bad_request_diagnostic,
}
use ubu_orchestrator.Calendar.Diff.{StringSet, contains}
use ubu_orchestrator.Calendar.Apply.{OperationResult, ProjectionStatus, is_landed}
use ubu_orchestrator.Labels.{Kind, Payload, Target, GitHubOperation}
use ubu_orchestrator.Labels.Sets.{btree_set}
use ubu_orchestrator.Labels.Export.{
  ProjectionDiagnostic, StoredPreview, validate_schema_version, load_preview, is_applied,
}

-- `ProjectionConflictBody`
pub record LabelConflict : Type 0 where
  pub operation_id : String
  pub conflict_type : String
  pub expected_label : String
  pub observed_labels : StringSet
  pub message : String

pub record ResultRow : Type 0 where
  pub status : ProjectionStatus
  pub preview_id : String
  -- The result that the payload holds, or the failure to read one from it.
  pub operation_results : Result (List OperationResult)

-- The row that `reconcile` stores.
pub record LabelReconciliation : Type 0 where
  pub preview_id : String
  pub status : String
  pub observed_labels : StringSet
  pub conflicts : List LabelConflict
  pub diagnostics : List ProjectionDiagnostic

abbrev pub reconciliation_schema : String
reconciliation_schema = "ubu.orchestrator.projection_reconciliation.v1"

abbrev conflict_at : GitHubOperation → StringSet → String → String → String → LabelConflict
conflict_at operation observed kind name message = record {
  operation_id = operation.operation_id;
  conflict_type = kind;
  expected_label = name;
  observed_labels = observed;
  message = message;
}

unfoldable pub missing_conflicts : GitHubOperation → StringSet → List String → List LabelConflict
missing_conflicts operation observed [] = []
missing_conflicts operation observed (name ∷ names) =
    let rest = missing_conflicts operation observed names in
    if contains observed name
    then rest
    else conflict_at operation observed "missing" name
        "managed repository label is missing from observed GitHub state"
      ∷ rest

-- What an applied operation promised and the observation denies.
unfoldable pub conflicts_by : GitHubOperation → StringSet → Kind → Payload → List LabelConflict
unfolding missing_conflicts
conflicts_by operation observed kind (Payload.missing_labels names) =
    missing_conflicts operation observed names
conflicts_by operation observed Kind.apply_label (Payload.one_label name) =
    if contains observed name
    then []
    else conflict_at operation observed "missing" name
        "applied managed label is missing from observed GitHub state"
      ∷ []
conflicts_by operation observed Kind.remove_label (Payload.one_label name) =
    if contains observed name
    then conflict_at operation observed "drifted" name
        "removed managed label is still present in observed GitHub state"
      ∷ []
    else []
conflicts_by operation observed kind payload = []

unfoldable pub applied_ids : List OperationResult → StringSet
applied_ids results = btree_set (map (λ r. r.operation_id) (retain is_applied results))

unfoldable pub conflicts_in : StringSet → StringSet → List GitHubOperation → List LabelConflict
unfolding conflicts_by
conflicts_in applied observed [] = []
conflicts_in applied observed (o ∷ operations) =
    let rest = conflicts_in applied observed operations in
    if not (contains applied o.operation_id)
    then rest
    else conflicts_by o observed o.kind o.payload ++ rest

unfoldable pub reconciliation_conflicts :
    List GitHubOperation → List OperationResult → StringSet → List LabelConflict
unfolding conflicts_in applied_ids
reconciliation_conflicts operations results observed =
    conflicts_in (applied_ids results) observed operations

unfoldable pub load_last_applied_result : List ResultRow → Result (String × List OperationResult)
load_last_applied_result [] = err (not_found "no applied projection result found")
load_last_applied_result (row ∷ rows) =
    if is_landed row.status
    then (row.operation_results >>= λ results. ok (row.preview_id, results))
    else load_last_applied_result rows

unfoldable pub label_status : List LabelConflict → String
label_status [] = "matched"
label_status (c ∷ conflicts) =
    if any (λ d. str_eq d.conflict_type "drifted") (c ∷ conflicts) then "drifted" else "missing"

abbrev diagnostics_of : List LabelConflict → List ProjectionDiagnostic
diagnostics_of [] = []
diagnostics_of (c ∷ conflicts) =
    record {
      code = "projection_conflict";
      message = "observed GitHub labels differ from the last applied projection";
      operation_id = none;
    }
    ∷ []

-- `github_projection_export_mode`: the labels are read from GitHub, or given with the request.
pub data ExportMode : Type 0 where
  live : ExportMode
  mock : List String → ExportMode

module _ (github_client : Result Bool) (read : Target → ℕ → Result (List String)) where
  abbrev pub has_issue : GitHubOperation → Bool
  has_issue operation = is_some operation.target.issue_number

  abbrev pub no_target : AppError
  no_target =
      bad_request_diagnostic "missing_projection_issue_target"
        "live GitHub projection reconciliation requires an issue target"

  abbrev pub read_at : Target → Option ℕ → Result StringSet
  read_at target none = err no_target
  read_at target (some issue) = read target issue >>= λ names. ok (btree_set names)

  abbrev pub read_for : Option GitHubOperation → Result StringSet
  read_for none = err no_target
  read_for (some operation) = read_at operation.target operation.target.issue_number

  unfoldable pub read_live_managed_labels : List GitHubOperation → Result StringSet
  unfolding btree_set
  read_live_managed_labels operations = read_for (find has_issue operations)

  abbrev pub with_token : Bool → List GitHubOperation → Result StringSet
  unfolding read_live_managed_labels
  with_token false operations = err (
      bad_request_diagnostic "missing_github_session_token"
        "live GitHub projection reconciliation requires an in-memory desktop session token")
  with_token true operations = read_live_managed_labels operations

  abbrev pub observed_in : ExportMode → List GitHubOperation → Result StringSet
  unfolding btree_set
  observed_in live operations = github_client >>= λ client. with_token client operations
  observed_in (mock names) operations = ok (btree_set names)

  unfoldable pub reconcile :
      Option String
      → ExportMode
      → List ResultRow
      → List (String × StoredPreview)
      → Result LabelReconciliation
  unfolding validate_schema_version load_last_applied_result load_preview reconciliation_conflicts
      label_status
  reconcile schema_version mode rows previews = do
    validate_schema_version schema_version reconciliation_schema
    last ← load_last_applied_result rows
    stored ← load_preview previews last.0
    observed ← observed_in mode stored.batch.github_operations
    let conflicts = reconciliation_conflicts stored.batch.github_operations last.1 observed
    ok (record {
      preview_id = last.0;
      status = label_status conflicts;
      observed_labels = observed;
      conflicts = conflicts;
      diagnostics = diagnostics_of conflicts;
    })
