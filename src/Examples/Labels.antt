-- ===== src/Examples/Labels.antt =====
-- One issue: the label `ubu:old` is to become `ubu:next`, and `bug` is not UbU's. The batch is approved,
-- refused by its policy, and reconciled.
use ubu_orchestrator.Calendar.Capture.{show, show_within}
use ubu_orchestrator.Base.Sort.{sort_by, place}
use ubu_orchestrator.Base.Order.{str_lt}
use ubu_orchestrator.Base.{
  All, ap, sym, eq_of_some, String, str_eq, Bool, true, false, ◌||◌, Option, none, some, List, [],
  ◌∷◌, ◌≡◌, ◌↔◌, refl, map, all, inl, inr, if◌then◌else◌,
}
use ubu_orchestrator.Errors.{ok}
use ubu_orchestrator.Errors.Exec.{◌>>=◌}
use ubu_orchestrator.Calendar.Diff.{contains}
use ubu_orchestrator.Calendar.Apply.{
  ExportPermit, OperationResult, OperationStatus, ProjectionStatus, automation_worker,
}
use ubu_orchestrator.Labels.{
  Kind, Payload, Target, GitHubOperation, CoreKind, CoreOperation, Adapter, PreviewRequest,
  desired_label_diff, validate_desired_labels, ensure_label_only_batch, preview, PreviewBatch,
  core_operation_from_github, with_managed_label_preflight,
}
use ubu_orchestrator.Labels.Sets.{dedup, btree_set}
use ubu_orchestrator.Labels.Diff.{IsFaithful, labels_after, desired_label_diff-reaches}
use ubu_orchestrator.Labels.Export.{
  Legitimization, resolved_policy_summary, StoredPreview, ProjectionResult, ApproveRequest, Env,
  preview_schema, approval_schema, validate_schema_version, find_preview, load_preview,
  preview_operation, result_status, settle, answer, is_applied,
}
use ubu_orchestrator.Labels.Approve.{
  State, approve, persist_approval, persist_result, export, with_client, run, round, proceed,
  decide, unless_failed, write, ensure_permit_matches, assert_operation_payload_managed,
}
use ubu_orchestrator.Labels.Github.{
  apply_managed_label_operation, apply_by_kind, apply_label, remove_label,
}
use ubu_orchestrator.Labels.Answered.{approve_answers}
use ubu_orchestrator.Labels.Rows.{rows}
use ubu_orchestrator.Labels.Withheld.{Gated, approve_withheld}
use ubu_orchestrator.Labels.Reconcile.{reconciliation_conflicts}
use ubu_orchestrator.Labels.Matched.{Settled}
use ubu_orchestrator.Labels.Batch.{NamesMissing, Provided, matched_iff}

abbrev operation : Kind → String → Target → String → GitHubOperation
operation kind id target name = record {
  operation_id = id;
  kind = kind;
  target = target;
  summary = name;
  payload = Payload.one_label name;
}

abbrev managed : String → Bool
managed name = str_eq name "ubu:next" || str_eq name "ubu:old"

abbrev adapter : Adapter
adapter = record {
  is_managed_label = managed;
  apply_managed_label = operation Kind.apply_label;
  remove_managed_label = operation Kind.remove_label;
  managed_label_preflight = λ owner repo existing. none;
}

adapter-IsFaithful : IsFaithful adapter
adapter-IsFaithful = record {
  applied_lem = λ id target name. (refl, refl, refl);
  removed_lem = λ id target name. (refl, refl, refl);
}

abbrev request : PreviewRequest
request = record {
  owner = "UbU";
  repo = "core";
  issue_number = some 7;
  desired_labels = "ubu:next" ∷ [];
  observed_labels = "bug" ∷ "ubu:old" ∷ [];
  existing_repository_labels = [];
}

validated : validate_desired_labels adapter request.desired_labels ≡ ok tt
unfolding validate_desired_labels
validated = refl

desired_label_diff-reaches_example :
    contains (labels_after (desired_label_diff adapter request) request.observed_labels) "bug" ≡ (
      if managed "bug"
      then contains request.desired_labels "bug"
      else contains request.observed_labels "bug")
desired_label_diff-reaches_example =
    desired_label_diff-reaches adapter adapter-IsFaithful request 7 refl validated "bug"

abbrev target : Target
target = record { owner = "UbU"; repo = "core"; issue_number = some 7 }

abbrev core : String → CoreOperation
core id = record { operation_id = id; kind = CoreKind.label }

abbrev preview_of : Bool → StoredPreview
preview_of forbidden = record {
  schema_version = preview_schema;
  preview_id = "p";
  batch = record {
    operations = core "a" ∷ core "r" ∷ [];
    github_operations =
        operation Kind.apply_label "a" target "ubu:next"
        ∷ operation Kind.remove_label "r" target "ubu:old"
        ∷ [];
  };
  preview_policy = some (resolved_policy_summary forbidden);
  policy_summary = resolved_policy_summary forbidden;
}

abbrev permit_for : Legitimization → CoreOperation → Option ExportPermit
permit_for Legitimization.accepted o =
    some (record { operation_id = o.operation_id; authority_source = automation_worker })
permit_for Legitimization.needs_review o = none
permit_for Legitimization.rejected o = none

-- The world is the labels of the issue.
abbrev github : Env
github = record {
  World = List String;
  is_managed_label = managed;
  parse_id = λ id. ok id;
  parse_approved_at = λ time. ok tt;
  records_approval = λ w. ok tt;
  persists = λ w. ok tt;
  github_client = λ w. ok true;
  gate = λ c o p source w. record {
    legitimization = p.legitimization;
    permit = permit_for p.legitimization c;
  };
  append_boundary_log = λ id o w. (w, ok tt);
  create_label = λ t name colour text w. (w, none);
  apply_managed_label_write = λ t issue names source w. ("ubu:next" ∷ w, inl names);
  remove_label_from_issue = λ t issue name w. ("ubu:next" ∷ "bug" ∷ [], none);
  unsupported_target = record {
    message = "unsupported";
    is_rate_limit_or_transport_failure = false;
  };
  forbidden_operation =
      λ reason. record { message = reason; is_rate_limit_or_transport_failure = false };
}

abbrev approval : Bool → ApproveRequest
approval yes_or_no = record {
  schema_version = some approval_schema;
  preview_id = "p";
  approved = yes_or_no;
  approved_at = none;
}

abbrev before : Bool → State github
before forbidden = record {
  world = "bug" ∷ "ubu:old" ∷ [];
  previews = ("p", preview_of forbidden) ∷ [];
  approvals = [];
  results = [];
}

abbrev result : ProjectionResult
result = record {
  preview_id = "p";
  status = ProjectionStatus.applied;
  operation_results =
      record {
        operation_id = "a";
        status = OperationStatus.applied;
        message = some "managed labels applied: ubu:next";
      }
      ∷ record {
        operation_id = "r";
        status = OperationStatus.applied;
        message = some "managed label removed: ubu:old";
      }
      ∷ [];
  diagnostics = [];
}

abbrev after : State github
after = record {
  world = "ubu:next" ∷ "bug" ∷ [];
  previews = ("p", preview_of false) ∷ [];
  approvals = ("p", true) ∷ [];
  results = result ∷ [];
}

answered : approve github (approval true) (before false) ≡ (after, ok result)
unfolding approve persist_approval persist_result export with_client run round proceed decide
    unless_failed write ensure_permit_matches assert_operation_payload_managed
    apply_managed_label_operation apply_by_kind apply_label remove_label validate_schema_version
    find_preview load_preview preview_operation result_status settle answer ensure_label_only_batch
    ◌>>=◌
answered = refl

approve_answers_example :
    (id : String) × (stored : StoredPreview) × (github.parse_id "p" ≡ ok id)
    × (load_preview (before false).previews id ≡ ok stored)
    × (result.preview_id ≡ stored.preview_id)
    × (map (λ r. r.operation_id) result.operation_results
        ≡ map (λ o. o.operation_id) stored.batch.github_operations)
    × (result.status ≡ ProjectionStatus.applied → all is_applied result.operation_results ≡ true)
    × (rows github after ≡ ((before false).previews, (id, true) ∷ [], result ∷ []))
approve_answers_example =
    approve_answers github (approval true) (before false) after result answered

seen-Gated : Gated github (λ w. w)
seen-Gated = record { rejects = λ c o p source w h. h; logs = λ id o w. refl }

found : load_preview (before true).previews "p" ≡ ok (preview_of true)
unfolding load_preview find_preview
found = refl

approve_withheld_example :
    (approve github (approval true) (before true)).0.world ≡ (before true).world
approve_withheld_example =
    approve_withheld github (λ w. w) seen-Gated (approval true) (before true) "p" (preview_of true)
      refl found (inr refl)

-- A repository that lacks a label: the batch has its preflight first.
abbrev lacking : String → String → GitHubOperation
lacking owner repo = record {
  operation_id = "preflight";
  kind = Kind.preflight;
  target = record { owner = owner; repo = repo; issue_number = none };
  summary = "labels";
  payload = Payload.missing_labels ("ubu:next" ∷ []);
}

abbrev first_time : Adapter
first_time = record adapter {
  managed_label_preflight = λ owner repo existing. some (lacking owner repo);
}

first_time-IsFaithful : IsFaithful first_time
first_time-IsFaithful = record {
  applied_lem = λ id target name. (refl, refl, refl);
  removed_lem = λ id target name. (refl, refl, refl);
}

first_time-NamesMissing : NamesMissing first_time
first_time-NamesMissing = record {
  preflight_lem = λ owner repo existing o e.
      ("ubu:next" ∷ [], ap (λ (x : GitHubOperation). x.payload) (sym (eq_of_some e)));
}

abbrev batched : List GitHubOperation
batched =
    lacking "UbU" "core"
    ∷ operation Kind.apply_label "label-apply-ubu-core-7-ubu:next" target "ubu:next"
    ∷ operation Kind.remove_label "label-remove-ubu-core-7-ubu:old" target "ubu:old"
    ∷ []

abbrev batch : PreviewBatch
batch = record { operations = map core_operation_from_github batched; github_operations = batched }

previewed : preview first_time request ≡ ok batch
unfolding preview desired_label_diff validate_desired_labels with_managed_label_preflight
    ensure_label_only_batch contains core_operation_from_github show show_within sort_by place dedup
    str_lt
previewed = refl

abbrev answers : List OperationResult
answers =
    map
      (λ o. record {
        operation_id = o.operation_id;
        status = OperationStatus.applied;
        message = none;
      })
      batched

matched_iff_example :
    (reconciliation_conflicts batched answers (btree_set ("ubu:next" ∷ "bug" ∷ [])) ≡ []) ↔ (
      Settled first_time first_time-IsFaithful request 7 answers ("ubu:next" ∷ "bug" ∷ [])
      × All (Provided ("ubu:next" ∷ "bug" ∷ [])) batched)
matched_iff_example =
    matched_iff first_time first_time-IsFaithful first_time-NamesMissing request 7 answers
      ("ubu:next" ∷ "bug" ∷ []) batch refl previewed refl refl
