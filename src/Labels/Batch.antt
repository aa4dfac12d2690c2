-- ===== src/Labels/Batch.antt =====
-- What a reconciliation says after a stored batch, which holds the preflights of its repositories too.
use ubu_orchestrator.Base.{
  ℕ, String, true, Option, none, some, List, [], ◌∷◌, ◌++◌, map, all, ◌≡◌, ◌↔◌, refl, sym, ap, ◌∙◌,
  All, All-append, arith, Bool-cases, inl, inr, str_eq, eq_iff,
}
use ubu_orchestrator.Base.Sort.{sort_by}
use ubu_orchestrator.Errors.{Result, ok, err, ok-eq, ◌>>=◌}
use ubu_orchestrator.Calendar.Diff.{StringSet, contains}
use ubu_orchestrator.Calendar.Apply.{OperationResult}
use ubu_orchestrator.Labels.{
  Payload, Target, GitHubOperation, PreviewBatch, Adapter, PreviewRequest, desired_label_diff,
  operations_for, preflights, or_preflight, with_managed_label_preflight,
  core_operation_from_github, preview, validate_desired_labels, ensure_label_only_batch,
}
use ubu_orchestrator.Labels.Sets.{btree_set, difference, dedup, pair_le, stable_operation_id}
use ubu_orchestrator.Labels.Export.{is_applied}
use ubu_orchestrator.Labels.Diff.{IsFaithful, contains-btree_set}
use ubu_orchestrator.Labels.Matched.{Covered, applied-Covered, Covered-right, Settled, diff_clear}
use ubu_orchestrator.Labels.Reconcile.{
  LabelConflict, missing_conflicts, conflicts_by, conflicts_in, applied_ids,
  reconciliation_conflicts,
}

-- The adapter documents that a preflight names the labels that the repository lacks.
pub record NamesMissing (adapter : Adapter) : Type 0 where
  pub preflight_lem :
      (owner repo : String) (existing : List String) (operation : GitHubOperation)
      → adapter.managed_label_preflight owner repo existing ≡ some operation
      → (names : List String) × (operation.payload ≡ Payload.missing_labels names)

-- The labels that a preflight names.
abbrev pub named : Payload → List String
named (Payload.missing_labels names) = names
named (Payload.one_label name) = []
named Payload.other = []

-- Each of them is among the labels.
abbrev pub Provided : List String → GitHubOperation → Type 0
Provided live o = (k : String) → contains (named o.payload) k ≡ true → contains live k ≡ true

abbrev pub IsPreflight : GitHubOperation → Type 0
IsPreflight o = (names : List String) × (o.payload ≡ Payload.missing_labels names)

All-split :
    (P : GitHubOperation → Type 0) (xs ys : List GitHubOperation)
    → All P (xs ++ ys)
    → All P xs × All P ys
All-split P [] ys h = (tt, h)
All-split P (x ∷ xs) ys h = let rest = All-split P xs ys h.1 in ((h.0, rest.0), rest.1)

missing-clear :
    (o : GitHubOperation) (live : StringSet) (names : List String)
    → (missing_conflicts o live names ≡ [])
      ↔ ((k : String) → contains names k ≡ true → contains live k ≡ true)
unfolding missing_conflicts contains
missing-clear o live [] = ((λ h k e. absurd (cc)), (λ h. refl))
missing-clear o live (n ∷ names) =
    let ih = missing-clear o live names in
    elim (Bool-cases (contains live n)) [
      | inl e ↦ rw e (
        (λ h k m. elim (Bool-cases (str_eq k n)) [
          | inl s ↦ ap (contains live) ((eq_iff k n).0 s) ∙ e
          | inr s ↦ ih.0 h k (rw s at m)
        ]),
        (λ h. ih.1 (λ k m. h k (ground arith))),
      )
      | inr e ↦
          rw e
            ((λ h. absurd (cc)), (λ h. absurd (let there = h n (ground (arith, eq_iff n n)) in cc)))
    ]

checked_ok :
    (first second : Result (Unit {0})) (made batch : PreviewBatch)
    → (first >>= λ u. second >>= λ v. ok made) ≡ ok batch
    → made ≡ batch
checked_ok (ok u) (ok v) made batch h = ok-eq h
checked_ok (ok u) (err e) made batch h = absurd (cc)
checked_ok (err e) second made batch h = absurd (cc)

append-nil-left : (xs ys : List LabelConflict) → xs ++ ys ≡ [] → (xs ≡ []) × (ys ≡ [])
append-nil-left [] ys h = (refl, h)
append-nil-left (x ∷ xs) ys h = absurd (cc)

module _ (live : List String) where
  abbrev pub seen : StringSet
  seen = btree_set live

  -- An operation that the observation bears out.
  abbrev pub Fine : GitHubOperation → Type 0
  Fine o = conflicts_by o seen o.kind o.payload ≡ []

  -- No conflict is one of no operation.
  all-Fine :
      (applied : StringSet) (operations : List GitHubOperation)
      → Covered applied operations
      → (conflicts_in applied seen operations ≡ []) ↔ All Fine operations
  unfolding conflicts_in
  all-Fine applied [] c = ((λ h. tt), (λ h. refl))
  all-Fine applied (o ∷ operations) c =
      let ih = all-Fine applied operations c.1 in
      rw c.0 (
        (λ h. let parts = append-nil-left _ _ h in (parts.0, ih.0 parts.1)),
        (λ h. rw h.0 (ih.1 h.1)),
      )

  preflight-Fine : (o : GitHubOperation) → IsPreflight o → Fine o ↔ Provided live o
  unfolding conflicts_by
  preflight-Fine o (names, e) =
      let clear = missing-clear o seen names in
      rw e (
        (λ h k m. sym (contains-btree_set k live) ∙ clear.0 h k m),
        (λ h. clear.1 (λ k m. contains-btree_set k live ∙ h k m)),
      )

  preflights-Fine :
      (operations : List GitHubOperation)
      → All IsPreflight operations
      → All Fine operations ↔ All (Provided live) operations
  preflights-Fine [] p = ((λ h. tt), (λ h. tt))
  preflights-Fine (o ∷ operations) p =
      let one = preflight-Fine o p.0 in
      let rest = preflights-Fine operations p.1 in
      ((λ h. (one.0 h.0, rest.0 h.1)), (λ h. (one.1 h.0, rest.1 h.1)))

module _ (adapter : Adapter) (faithful : IsFaithful adapter) (names_missing : NamesMissing adapter)
    (request : PreviewRequest) (issue : ℕ) (results : List OperationResult)
    (live : List String) where
  abbrev diff : List GitHubOperation
  diff = desired_label_diff adapter request

  preflights-IsPreflight :
      (pairs : List (String × String))
      → All IsPreflight (preflights adapter request.existing_repository_labels pairs)
  preflights-IsPreflight [] = tt
  preflights-IsPreflight (pair ∷ pairs) =
      go (adapter.managed_label_preflight pair.0 pair.1 request.existing_repository_labels) refl
        (preflights-IsPreflight pairs)
    where
      go :
          (o : Option GitHubOperation)
          → adapter.managed_label_preflight pair.0 pair.1 request.existing_repository_labels ≡ o
          → All IsPreflight (preflights adapter request.existing_repository_labels pairs)
          → All IsPreflight (elim o [
            | none ↦ preflights adapter request.existing_repository_labels pairs
            | some operation ↦
                operation ∷ preflights adapter request.existing_repository_labels pairs
          ])
      go none e h = h
      go (some operation) e h = (names_missing.preflight_lem _ _ _ operation e, h)

  or_preflight-IsPreflight : All IsPreflight (or_preflight adapter request [])
  or_preflight-IsPreflight =
      go
        (adapter.managed_label_preflight request.owner request.repo
          request.existing_repository_labels)
        refl
    where
      go :
          (o : Option GitHubOperation)
          → adapter.managed_label_preflight request.owner request.repo
              request.existing_repository_labels
            ≡ o
          → All IsPreflight (elim o [ none ↦ [] | some operation ↦ operation ∷ [] ])
      go none e = tt
      go (some operation) e = (names_missing.preflight_lem _ _ _ operation e, tt)

  -- The operations of the diff name no label that the repository lacks.
  All-map-of :
      (f : String → GitHubOperation) (names : List String)
      → ((n : String) → named (f n).payload ≡ [])
      → All (Provided live) (map f names)
  unfolding contains
  All-map-of f [] h = tt
  All-map-of f (n ∷ names) h = (rw (h n) (λ k m. absurd (cc)), All-map-of f names h)

  operations_for-Provided :
      (n : ℕ) (desired observed : StringSet)
      → All (Provided live) (operations_for adapter request n desired observed)
  unfolding operations_for
  operations_for-Provided n desired observed =
      let target : Target = record {
        owner = request.owner;
        repo = request.repo;
        issue_number = some n;
      } in
      let id =
        λ (action name : String). stable_operation_id action request.owner request.repo n name in
      let applies = λ (name : String). adapter.apply_managed_label (id "apply" name) target name in
      let removes =
        λ (name : String). adapter.remove_managed_label (id "remove" name) target name in
      All-append (Provided live) (map applies (difference desired observed))
        (map removes (difference observed desired))
        (All-map-of applies _
          (λ name. ap named (faithful.applied_lem (id "apply" name) target name).2))
        (All-map-of removes _
          (λ name. ap named (faithful.removed_lem (id "remove" name) target name).2))

  diff-Provided : request.issue_number ≡ some issue → All (Provided live) diff
  unfolding desired_label_diff
  diff-Provided e = rw e (operations_for-Provided issue _ _)

  -- The operations that are batched for a diff: it, or a preflight where it is empty.
  batched-Fine :
      request.issue_number ≡ some issue
      → (operations : List GitHubOperation) → diff ≡ operations
      → Covered (applied_ids results) (or_preflight adapter request operations)
      → All (Fine live) (or_preflight adapter request operations) ↔ (
          Settled adapter faithful request issue results live
          × All (Provided live) (or_preflight adapter request operations))
  unfolding conflicts_in
  batched-Fine e [] d c =
      let settled = diff_clear adapter faithful request issue results live e (rw d tt) in
      let fine = preflights-Fine live (or_preflight adapter request []) or_preflight-IsPreflight in
      ((λ h. (settled.0 (rw d refl), fine.0 h)), (λ h. fine.1 h.1))
  batched-Fine e (o ∷ operations) d c =
      let settled = diff_clear adapter faithful request issue results live e (rw d c) in
      let fine = all-Fine live (applied_ids results) diff (rw d c) in
      let provided = diff-Provided e in
      (
        (λ h. (settled.0 (fine.1 (rw d h)), (rw d at provided))),
        (λ h. (rw d at (fine.0 (settled.1 h.0)))),
      )

  preview-operations :
      (batch : PreviewBatch)
      → preview adapter request ≡ ok batch
      → batch.github_operations
        ≡ with_managed_label_preflight adapter
            (or_preflight adapter request diff)
            request.existing_repository_labels
  unfolding preview
  preview-operations batch h =
      let operations =
        with_managed_label_preflight adapter (or_preflight adapter request diff)
          request.existing_repository_labels in
      let made : PreviewBatch = record {
        operations = map core_operation_from_github operations;
        github_operations = operations;
      } in
      ap (λ (b : PreviewBatch). b.github_operations)
        (sym (
          checked_ok (validate_desired_labels adapter request.desired_labels)
            (ensure_label_only_batch made) made batch h))

  -- After a stored batch for an issue all of whose operations were applied, a reconciliation finds no
  -- conflict exactly when every label on which the desired labels and the managed observed ones
  -- differed is now on the issue as it is desired, and every label that a preflight of the batch names
  -- is on the issue.
  pub matched_iff :
      (batch : PreviewBatch)
      → request.issue_number ≡ some issue
      → preview adapter request ≡ ok batch
      → map (λ r. r.operation_id) results ≡ map (λ o. o.operation_id) batch.github_operations
      → all is_applied results ≡ true
      → (reconciliation_conflicts batch.github_operations results (btree_set live) ≡ []) ↔ (
          Settled adapter faithful request issue results live
          × All (Provided live) batch.github_operations)
  unfolding reconciliation_conflicts with_managed_label_preflight
  matched_iff batch e stored each applied =
      let covered = applied-Covered batch.github_operations results each applied in
      let shape = preview-operations batch stored in
      let front = preflights adapter request.existing_repository_labels (
        dedup (
          sort_by pair_le (
            map (λ (o : GitHubOperation). (o.target.owner, o.target.repo))
              (or_preflight adapter request diff)))) in
      let back = or_preflight adapter request diff in
      let covered' : Covered (applied_ids results) (front ++ back) = rw shape at covered in
      let fine = all-Fine live (applied_ids results) (front ++ back) covered' in
      let first = preflights-Fine live front (preflights-IsPreflight _) in
      let second =
        batched-Fine e diff refl (Covered-right (applied_ids results) front back covered') in
      rw shape (
        (λ h.
            let (a, b) = All-split (Fine live) front back (fine.0 h) in
            let c = second.0 b in (c.0, All-append (Provided live) front back (first.0 a) c.1)),
        (λ h.
            let (a, b) = All-split (Provided live) front back h.1 in
            fine.1 (All-append (Fine live) front back (first.1 a) (second.1 (h.0, b)))),
      )
