-- ===== src/Labels/Diff.antt =====
-- What the operations of `desired_label_diff` come to on the labels of the issue.
use ubu_orchestrator.Base.{
  ℕ, String, str_eq, eq_iff, Bool, true, not, ◌&&◌, ◌||◌, some, List, [], ◌∷◌, ◌++◌, map, retain,
  ◌≡◌, refl, ap, ◌∙◌, arith, if◌then◌else◌, Bool-cases, inl, inr,
}
use ubu_orchestrator.Errors.{ok}
use ubu_orchestrator.Calendar.Diff.{StringSet, contains}
use ubu_orchestrator.Labels.{
  Kind, Payload, Target, GitHubOperation, Adapter, PreviewRequest, validate_desired_labels,
  desired_label_diff, operations_for,
}
use ubu_orchestrator.Labels.Sets.{set_insert, btree_set, difference, stable_operation_id}

-- The adapter documents that an operation has the id and the label that it is built from.
pub record IsFaithful (adapter : Adapter) : Type 0 where
  pub applied_lem :
      (id : String) (target : Target) (name : String)
      → let o = adapter.apply_managed_label id target name in
        (o.operation_id ≡ id) × (o.kind ≡ Kind.apply_label) × (o.payload ≡ Payload.one_label name)
  pub removed_lem :
      (id : String) (target : Target) (name : String)
      → let o = adapter.remove_managed_label id target name in
        (o.operation_id ≡ id) × (o.kind ≡ Kind.remove_label) × (o.payload ≡ Payload.one_label name)

-- What GitHub's labels of the issue are after an operation.
abbrev pub effect_of : Kind → Payload → StringSet → StringSet
effect_of Kind.apply_label (Payload.one_label name) labels = name ∷ labels
effect_of Kind.remove_label (Payload.one_label name) labels =
    retain (λ old. not (str_eq old name)) labels
effect_of kind payload labels = labels

unfoldable pub labels_after : List GitHubOperation → StringSet → StringSet
labels_after [] labels = labels
labels_after (o ∷ operations) labels = labels_after operations (effect_of o.kind o.payload labels)

pub contains-set_insert :
    (k name : String) (set : StringSet)
    → contains (set_insert name set) k ≡ (str_eq k name || contains set k)
unfolding contains set_insert
contains-set_insert k name [] = refl
contains-set_insert k name (first ∷ set) =
    ground (arith, contains-set_insert k name set, eq_iff name first, eq_iff k name, eq_iff k first)

pub contains-btree_set :
    (k : String) (names : List String) → contains (btree_set names) k ≡ contains names k
unfolding contains btree_set
contains-btree_set k [] = refl
contains-btree_set k (name ∷ names) =
    contains-set_insert k name (btree_set names)
    ∙ ap (λ b. str_eq k name || b) (contains-btree_set k names)

pub contains-retain :
    (p : String → Bool) (k : String) (names : List String)
    → contains (retain p names) k ≡ (p k && contains names k)
unfolding contains
contains-retain p k [] = ground arith
contains-retain p k (name ∷ names) =
    let same : str_eq k name ≡ true → p k ≡ p name = λ h. ap p ((eq_iff k name).0 h) in
    ground (arith, contains-retain p k names, same)

pub contains-difference :
    (k : String) (a b : StringSet)
    → contains (difference a b) k ≡ (not (contains b k) && contains a k)
unfolding difference
contains-difference k a b = contains-retain (λ name. not (contains b name)) k a

labels_after-append :
    (before after : List GitHubOperation) (labels : StringSet)
    → labels_after (before ++ after) labels ≡ labels_after after (labels_after before labels)
unfolding labels_after
labels_after-append [] after labels = refl
labels_after-append (o ∷ before) after labels =
    labels_after-append before after (effect_of o.kind o.payload labels)

-- A request's labels, once validated, are managed.
pub validate_desired_labels-ok :
    (adapter : Adapter) (names : List String)
    → validate_desired_labels adapter names ≡ ok tt
    → (k : String) → contains names k ≡ true
    → adapter.is_managed_label k ≡ true
unfolding validate_desired_labels contains
validate_desired_labels-ok adapter [] h k c = cc
validate_desired_labels-ok adapter (name ∷ names) h k c =
    elim (Bool-cases (adapter.is_managed_label name)) [
      | inr e ↦ absurd (let bad = (rw e at h) in cc)
      | inl e ↦ elim (Bool-cases (str_eq k name)) [
        | inl s ↦ ap adapter.is_managed_label ((eq_iff k name).0 s) ∙ e
        | inr s ↦ validate_desired_labels-ok adapter names (rw e at h) k (rw s at c)
      ]
    ]

module _ (adapter : Adapter) (faithful : IsFaithful adapter) (id : String → String)
    (target : Target) where
  open faithful use {applied_lem, removed_lem}

  after_applied :
      (k : String) (names : List String) (labels : StringSet)
      → contains
          (labels_after (map (λ n. adapter.apply_managed_label (id n) target n) names) labels)
          k
        ≡ (contains names k || contains labels k)
  unfolding labels_after contains
  after_applied k [] labels = refl
  after_applied k (n ∷ names) labels =
      let law = applied_lem (id n) target n in
      rw (law.1, law.2) (after_applied k names (n ∷ labels) ∙ ground arith)

  after_removed :
      (k : String) (names : List String) (labels : StringSet)
      → contains
          (labels_after (map (λ n. adapter.remove_managed_label (id n) target n) names) labels)
          k
        ≡ (not (contains names k) && contains labels k)
  unfolding labels_after contains
  after_removed k [] labels = ground arith
  after_removed k (n ∷ names) labels =
      let law = removed_lem (id n) target n in
      let kept = contains-retain (λ old. not (str_eq old n)) k labels in
      rw (law.1, law.2)
        (after_removed k names (retain (λ old. not (str_eq old n)) labels)
          ∙ ap (λ b. not (contains names k) && b) kept
          ∙ ground arith)

module _ (adapter : Adapter) (faithful : IsFaithful adapter) (request : PreviewRequest)
    (issue : ℕ) where
  abbrev pub desired : StringSet
  desired = btree_set request.desired_labels

  abbrev pub observed : StringSet
  observed = btree_set (retain adapter.is_managed_label request.observed_labels)

  pub contains-desired : (k : String) → contains desired k ≡ contains request.desired_labels k
  contains-desired k = contains-btree_set k request.desired_labels

  pub contains-observed :
      (k : String)
      → contains observed k ≡ (adapter.is_managed_label k && contains request.observed_labels k)
  contains-observed k =
      contains-btree_set k (retain adapter.is_managed_label request.observed_labels)
      ∙ contains-retain adapter.is_managed_label k request.observed_labels

  contains-after :
      (k : String)
      → contains
          (labels_after
            (operations_for adapter request issue desired observed)
            request.observed_labels)
          k
        ≡ (not (contains (difference observed desired) k)
            && (contains (difference desired observed) k || contains request.observed_labels k))
  unfolding operations_for
  contains-after k =
      let target : Target = record {
        owner = request.owner;
        repo = request.repo;
        issue_number = some issue;
      } in
      let id = λ (action name : String).
        stable_operation_id action request.owner request.repo issue name in
      let applies : List GitHubOperation =
        map (λ n. adapter.apply_managed_label (id "apply" n) target n)
          (difference desired observed) in
      ap (λ labels. contains labels k) (labels_after-append applies _ request.observed_labels)
      ∙ after_removed adapter faithful (id "remove") target k (difference observed desired) _
      ∙ ap (λ b. not (contains (difference observed desired) k) && b)
          (after_applied adapter faithful (id "apply") target k (difference desired observed)
            request.observed_labels)

  -- The operations for an issue lead from the labels that were observed to the desired ones among the
  -- managed labels, and leave every other label of the issue as it is, where the desired labels have
  -- passed the validation.
  pub desired_label_diff-reaches :
      request.issue_number ≡ some issue
      → validate_desired_labels adapter request.desired_labels ≡ ok tt
      → (k : String)
      → contains (labels_after (desired_label_diff adapter request) request.observed_labels) k ≡ (
          if adapter.is_managed_label k
          then contains request.desired_labels k
          else contains request.observed_labels k)
  unfolding desired_label_diff
  desired_label_diff-reaches e valid k =
      let managed = validate_desired_labels-ok adapter request.desired_labels valid k in
      rw e (
        contains-after k
        ∙ ground (
          arith,
          contains-difference k observed desired,
          contains-difference k desired observed,
          contains-desired k,
          contains-observed k,
          managed,
        ))
