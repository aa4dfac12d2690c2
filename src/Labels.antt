-- ===== src/Labels.antt =====
-- src/services/projection_service.rs: the projection of UbU-managed labels onto a GitHub issue. The
-- adapter crate `ubu_github_adapter` is a parameter: which labels are managed, and how it builds an
-- operation.
pub mod Diff
pub mod Sets
pub mod Export
pub mod Github
pub mod Approve
pub mod Answers
pub mod Rows
pub mod Answered
pub mod Withheld
pub mod Reconcile
pub mod Matched
pub mod Batch
use Prim.Native.Char.{Char, code}
use Prim.Native.String.{char_at}
use ubu_orchestrator.Base.{
  ℕ, ◌-◌, String, str_eq, Bool, true, false, not, ◌&&◌, ◌||◌, Option, none, some, List, [], ◌∷◌,
  ◌++◌, map, retain, all, leb, ◌==◌, if◌then◌else◌,
}
use ubu_orchestrator.Base.Order.{str_lt}
use ubu_orchestrator.Base.Sort.{sort_by}
use ubu_orchestrator.Errors.{Result, ok, err, ◌>>=◌, ◌>>◌, refuse_if, bad_request_diagnostic}
use ubu_orchestrator.Calendar.Capture.{◌<>◌, show}
use ubu_orchestrator.Calendar.Diff.{StringSet, contains}
use ubu_orchestrator.Labels.Sets.{btree_set, difference, stable_operation_id, pair_le, dedup}

-- `GitHubProjectionOperationKind`
pub data Kind : Type 0 where
  preflight apply_label remove_label create_comment create_managed_issue : Kind

-- `GitHubProjectionPayload`: the labels that a repository lacks, a label, or another payload.
pub data Payload : Type 0 where
  missing_labels : List String → Payload
  one_label : String → Payload
  other : Payload

pub record Target : Type 0 where
  pub owner : String
  pub repo : String
  pub issue_number : Option ℕ

pub record GitHubOperation : Type 0 where
  pub operation_id : String
  pub kind : Kind
  pub target : Target
  pub summary : String
  pub payload : Payload

-- What the service calls of the adapter.
pub record Adapter : Type 0 where
  pub is_managed_label : String → Bool
  pub apply_managed_label : String → Target → String → GitHubOperation
  pub remove_managed_label : String → Target → String → GitHubOperation
  pub managed_label_preflight : String → String → List String → Option GitHubOperation

pub record PreviewRequest : Type 0 where
  pub owner : String
  pub repo : String
  pub issue_number : Option ℕ
  pub desired_labels : List String
  pub observed_labels : List String
  pub existing_repository_labels : List String

abbrev is_label_operation : GitHubOperation → Bool
is_label_operation operation = fits operation.kind operation.payload
  where
    fits : Kind → Payload → Bool
    fits Kind.preflight (Payload.missing_labels names) = true
    fits Kind.apply_label (Payload.one_label name) = true
    fits Kind.remove_label (Payload.one_label name) = true
    fits kind payload = false

-- `ProjectionOperationKind` and `ProjectionOperation` of `ubu_core`, as far as they are read.
pub data CoreKind : Type 0 where
  label comment create : CoreKind

pub record CoreOperation : Type 0 where
  pub operation_id : String
  pub kind : CoreKind

abbrev core_kind : Kind → CoreKind
core_kind Kind.preflight = CoreKind.label
core_kind Kind.apply_label = CoreKind.label
core_kind Kind.remove_label = CoreKind.label
core_kind Kind.create_comment = CoreKind.comment
core_kind Kind.create_managed_issue = CoreKind.create

unfoldable pub core_operation_from_github : GitHubOperation → CoreOperation
core_operation_from_github operation = record {
  operation_id = operation.operation_id;
  kind = core_kind operation.kind;
}

abbrev is_label : CoreKind → Bool
is_label CoreKind.label = true
is_label CoreKind.comment = false
is_label CoreKind.create = false

pub record PreviewBatch : Type 0 where
  pub operations : List CoreOperation
  pub github_operations : List GitHubOperation

unfoldable pub ensure_label_only_batch : PreviewBatch → Result (Unit {0})
ensure_label_only_batch batch = do
  refuse_if (not (all is_label_operation batch.github_operations)) (
      bad_request_diagnostic "unsupported_projection_operation"
        "O7 projection writes are limited to managed-label operations")
  refuse_if (not (all (λ o. is_label o.kind) batch.operations)) (
      bad_request_diagnostic "unsupported_projection_operation"
        "O7 projection previews may contain only label operations")

module _ (adapter : Adapter) where
  open adapter use {
    is_managed_label, apply_managed_label, remove_managed_label, managed_label_preflight,
  }

  unfoldable pub validate_desired_labels : List String → Result (Unit {0})
  validate_desired_labels [] = ok tt
  validate_desired_labels (name ∷ names) =
      refuse_if (not (is_managed_label name)) (
        bad_request_diagnostic "unmanaged_projection_label"
          ("projection labels are limited to UbU-managed labels, got `" <> name <> "`"))
      >> validate_desired_labels names

  unfoldable pub operations_for : PreviewRequest → ℕ → StringSet → StringSet → List GitHubOperation
  unfolding difference stable_operation_id
  operations_for request issue desired observed =
      let target : Target = record {
        owner = request.owner;
        repo = request.repo;
        issue_number = some issue;
      } in
      let id = λ (action name : String).
        stable_operation_id action request.owner request.repo issue name in
      map (λ name. apply_managed_label (id "apply" name) target name) (difference desired observed)
      ++ map (λ name. remove_managed_label (id "remove" name) target name)
          (difference observed desired)

  unfoldable pub desired_label_diff : PreviewRequest → List GitHubOperation
  unfolding operations_for btree_set
  desired_label_diff request = elim request.issue_number [
    | none ↦ []
    | some issue ↦
        operations_for request issue (btree_set request.desired_labels)
          (btree_set (retain is_managed_label request.observed_labels))
  ]

  abbrev pub preflights : List String → List (String × String) → List GitHubOperation
  preflights existing [] = []
  preflights existing (pair ∷ pairs) =
      let rest = preflights existing pairs in
      elim (managed_label_preflight pair.0 pair.1 existing) [
        | none ↦ rest
        | some operation ↦ operation ∷ rest
      ]

  unfoldable pub with_managed_label_preflight :
      List GitHubOperation → List String → List GitHubOperation
  unfolding dedup
  with_managed_label_preflight operations existing =
      preflights existing
        (dedup (sort_by pair_le (map (λ o. (o.target.owner, o.target.repo)) operations)))
      ++ operations

  -- The operations of a preview that has none of its own: the repository's missing labels.
  abbrev pub or_preflight : PreviewRequest → List GitHubOperation → List GitHubOperation
  or_preflight request (operation ∷ operations) = operation ∷ operations
  or_preflight request [] =
      elim (managed_label_preflight request.owner request.repo request.existing_repository_labels) [
        | none ↦ []
        | some operation ↦ operation ∷ []
      ]

  -- The batch that `preview` stores.
  unfoldable pub preview : PreviewRequest → Result PreviewBatch
  unfolding validate_desired_labels desired_label_diff with_managed_label_preflight
      ensure_label_only_batch core_operation_from_github
  preview request = do
    validate_desired_labels request.desired_labels
    let operations =
        with_managed_label_preflight (or_preflight request (desired_label_diff request))
          request.existing_repository_labels
    let batch : PreviewBatch = record {
      operations = map core_operation_from_github operations;
      github_operations = operations;
    }
    ensure_label_only_batch batch
    ok batch
