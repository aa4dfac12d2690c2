-- ===== src/Labels/Github.antt =====
-- `apply_managed_label_operation` of src/services/projection_service.rs: the writes to GitHub.
use ubu_orchestrator.Base.{
  ℕ, String, str_eq, Option, none, some, List, [], ◌∷◌, if◌then◌else◌, ◌⊎◌, inl, inr,
}
use ubu_orchestrator.Calendar.Capture.{◌<>◌}
use ubu_orchestrator.Calendar.Apply.{ExportPermit}
use ubu_orchestrator.Labels.{Kind, Payload, Target, GitHubOperation}
use ubu_orchestrator.Labels.Export.{AdapterError, Env}

module _ (env : Env) where
  open env use {
    World, create_label, apply_managed_label_write, remove_label_from_issue, unsupported_target,
    forbidden_operation,
  }

  abbrev color_of : String → String
  color_of name = if str_eq name "ubu" then "5319e7" else "0e8a16"

  -- The loop over the missing labels, which the first error ends.
  unfoldable pub create_labels : Target → List String → World → World × Option AdapterError
  create_labels target [] w = (w, none)
  create_labels target (name ∷ names) w =
      let (w', failure) = create_label target name (color_of name) "UbU managed label" w in
      let rest = create_labels target names w' in
      elim failure [ none ↦ rest | some error ↦ (w', some error) ]

  abbrev said : String → Option AdapterError → String ⊎ AdapterError
  said message none = inl message
  said message (some error) = inr error

  abbrev join_labels : List String → String
  join_labels [] = ""
  join_labels (name ∷ []) = name
  join_labels (name ∷ (next ∷ names)) = name <> ", " <> join_labels (next ∷ names)

  abbrev said_applied : List String ⊎ AdapterError → String ⊎ AdapterError
  said_applied (inl names) = inl ("managed labels applied: " <> join_labels names)
  said_applied (inr error) = inr error

  unfoldable pub apply_label :
      Target → Option ℕ → String → ExportPermit → World → World × (String ⊎ AdapterError)
  apply_label target none name permit w = (w, inr unsupported_target)
  apply_label target (some issue) name permit w =
      let (w', a) = apply_managed_label_write target issue (name ∷ []) permit.authority_source w in
      (w', said_applied a)

  unfoldable pub remove_label : Target → Option ℕ → String → World → World × (String ⊎ AdapterError)
  remove_label target none name w = (w, inr unsupported_target)
  remove_label target (some issue) name w =
      let (w', failure) = remove_label_from_issue target issue name w in
      (w', said ("managed label removed: " <> name) failure)

  unfoldable pub apply_by_kind :
      GitHubOperation → Kind → Payload → ExportPermit → World → World × (String ⊎ AdapterError)
  unfolding create_labels apply_label remove_label
  apply_by_kind operation Kind.preflight (Payload.missing_labels names) permit w =
      let (w', failure) = create_labels operation.target names w in
      (w', said "managed labels ensured" failure)
  apply_by_kind operation Kind.apply_label (Payload.one_label name) permit w =
      apply_label operation.target operation.target.issue_number name permit w
  apply_by_kind operation Kind.remove_label (Payload.one_label name) permit w =
      remove_label operation.target operation.target.issue_number name w
  apply_by_kind operation kind payload permit w = (
    w,
    inr (forbidden_operation ("operation " <> operation.operation_id <> " has mismatched payload")),
  )

  unfoldable pub apply_managed_label_operation :
      GitHubOperation → ExportPermit → World → World × (String ⊎ AdapterError)
  unfolding apply_by_kind
  apply_managed_label_operation operation = apply_by_kind operation operation.kind operation.payload
