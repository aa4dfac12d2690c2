-- ===== src/Labels/Matched.antt =====
-- What it says of the issue's labels that a reconciliation finds no conflict.
use ubu_orchestrator.Base.{
  ℕ, String, str_eq, eq_iff, true, false, ◌&&◌, some, List, [], ◌∷◌, ◌++◌, map, retain, all, ◌≡◌,
  ◌≢◌, ◌↔◌, refl, ap, ◌∙◌, arith, All, All-map, inl, inr, Bool-cases,
}
use ubu_orchestrator.Calendar.Diff.{StringSet, contains}
use ubu_orchestrator.Calendar.Apply.{OperationResult}
use ubu_orchestrator.Labels.{
  Target, GitHubOperation, Adapter, PreviewRequest, desired_label_diff, operations_for,
}
use ubu_orchestrator.Labels.Sets.{btree_set, difference, stable_operation_id}
use ubu_orchestrator.Labels.Export.{is_applied}
use ubu_orchestrator.Labels.Diff.{
  IsFaithful, contains-btree_set, contains-difference, desired, observed, contains-desired,
  contains-observed,
}
use ubu_orchestrator.Labels.Reconcile.{conflicts_by, conflicts_in, applied_ids}

-- Every operation has its id among those that were applied.
abbrev pub Covered : StringSet → List GitHubOperation → Type 0
Covered applied = All (λ o. contains applied o.operation_id ≡ true)

pub Covered-right :
    (applied : StringSet) (before after : List GitHubOperation)
    → Covered applied (before ++ after)
    → Covered applied after
Covered-right applied [] after c = c
Covered-right applied (o ∷ before) after c = Covered-right applied before after c.1

retain-all :
    (results : List OperationResult)
    → all is_applied results ≡ true
    → retain is_applied results ≡ results
retain-all [] h = refl
retain-all (r ∷ results) h = ground (arith, retain-all results)

Covered-names :
    (operations : List GitHubOperation) → Covered (map (λ o. o.operation_id) operations) operations
unfolding contains
Covered-names [] = tt
Covered-names (o ∷ operations) = (
  ground (arith, eq_iff o.operation_id o.operation_id),
  All-map _ _ (λ p h. ground arith) operations (Covered-names operations),
)

pub applied-Covered :
    (operations : List GitHubOperation) (results : List OperationResult)
    → map (λ r. r.operation_id) results ≡ map (λ o. o.operation_id) operations
    → all is_applied results ≡ true
    → Covered (applied_ids results) operations
unfolding applied_ids
applied-Covered operations results e h =
    All-map _ _
      (λ o c.
        contains-btree_set o.operation_id (map (λ r. r.operation_id) (retain is_applied results))
        ∙ ap (λ rs. contains (map (λ (r : OperationResult). r.operation_id) rs) o.operation_id)
            (retain-all results h)
        ∙ ap (λ ids. contains ids o.operation_id) e
        ∙ c)
      operations (Covered-names operations)

here : (n : String) (names : List String) → contains (n ∷ names) n ≡ true
unfolding contains
here n names = ground (arith, eq_iff n n)

module _ (adapter : Adapter) (faithful : IsFaithful adapter) (applied live : StringSet)
    (id : String → String) (target : Target) where
  open faithful use {applied_lem, removed_lem}

  -- The labels of a list are there; the labels of a list are not.
  abbrev pub Present : List String → Type 0
  Present names = (k : String) → contains names k ≡ true → contains live k ≡ true

  abbrev pub Absent : List String → Type 0
  Absent names = (k : String) → contains names k ≡ true → contains live k ≡ false

  abbrev applies : List String → List GitHubOperation
  applies = map (λ n. adapter.apply_managed_label (id n) target n)

  abbrev removes : List String → List GitHubOperation
  removes = map (λ n. adapter.remove_managed_label (id n) target n)

  applies_clear :
      (names : List String) (tail : List GitHubOperation)
      → Covered applied (applies names ++ tail)
      → (conflicts_in applied live (applies names ++ tail) ≡ [])
        ↔ (Present names × (conflicts_in applied live tail ≡ []))
  unfolding contains conflicts_in conflicts_by
  applies_clear [] tail c = ((λ h. ((λ k e. cc), h)), (λ h. h.1))
  applies_clear (n ∷ names) tail c =
      let law = applied_lem (id n) target n in
      let ih = applies_clear names tail c.1 in
      rw (c.0, law.1, law.2)
        (elim (Bool-cases (contains live n)) [
          | inl e ↦ rw e (
            (λ h. (
              (λ k m. elim (Bool-cases (str_eq k n)) [
                | inl s ↦ ap (contains live) ((eq_iff k n).0 s) ∙ e
                | inr s ↦ (ih.0 h).0 k (rw s at m)
              ]),
              (ih.0 h).1,
            )),
            (λ h. ih.1 ((λ k m. h.0 k (ground arith)), h.1)),
          )
          | inr e ↦
              rw e ((λ h. absurd (cc)), (λ h. absurd (let there = h.0 n (here n names) in cc)))
        ])

  removes_clear :
      (names : List String)
      → Covered applied (removes names)
      → (conflicts_in applied live (removes names) ≡ []) ↔ Absent names
  unfolding contains conflicts_in conflicts_by
  removes_clear [] c = ((λ h k e. cc), (λ h. refl))
  removes_clear (n ∷ names) c =
      let law = removed_lem (id n) target n in
      let ih = removes_clear names c.1 in
      rw (c.0, law.1, law.2)
        (elim (Bool-cases (contains live n)) [
          | inr e ↦ rw e (
            (λ h k m. elim (Bool-cases (str_eq k n)) [
              | inl s ↦ ap (contains live) ((eq_iff k n).0 s) ∙ e
              | inr s ↦ ih.0 h k (rw s at m)
            ]),
            (λ h. ih.1 (λ k m. h k (ground arith))),
          )
          | inl e ↦ rw e ((λ h. absurd (cc)), (λ h. absurd (let gone = h n (here n names) in cc)))
        ])

module _ (adapter : Adapter) (faithful : IsFaithful adapter) (request : PreviewRequest) (issue : ℕ)
    (results : List OperationResult) (live : List String) where
  abbrev wanted : StringSet
  wanted = desired adapter faithful request issue

  abbrev held : StringSet
  held = observed adapter faithful request issue

  -- Every label that the diff changes is now as it is desired.
  abbrev pub Settled : Type 0
  Settled =
      (k : String)
      → contains request.desired_labels k
        ≢ (adapter.is_managed_label k && contains request.observed_labels k)
      → contains live k ≡ contains request.desired_labels k

  abbrev target : Target
  target = record { owner = request.owner; repo = request.repo; issue_number = some issue }

  abbrev stable_id : String → String → String
  stable_id action name = stable_operation_id action request.owner request.repo issue name

  -- Both kinds of operation were carried out.
  abbrev Carried : Type 0
  Carried =
      ((k : String)
        → contains (difference wanted held) k ≡ true
        → contains (btree_set live) k ≡ true)
      × ((k : String)
          → contains (difference held wanted) k ≡ true
          → contains (btree_set live) k ≡ false)

  clear_iff :
      Covered (applied_ids results) (operations_for adapter request issue wanted held)
      → (conflicts_in
            (applied_ids results)
            (btree_set live)
            (operations_for adapter request issue wanted held)
          ≡ [])
        ↔ Carried
  unfolding operations_for
  clear_iff c =
      let ids = applied_ids results in
      let gone = difference held wanted in
      let removal : List GitHubOperation =
        map (λ n. adapter.remove_managed_label (stable_id "remove" n) target n) gone in
      let first =
        applies_clear adapter faithful ids (btree_set live) (stable_id "apply") target
          (difference wanted held) removal c in
      let second =
        removes_clear adapter faithful ids (btree_set live) (stable_id "remove") target gone
          (Covered-right ids _ removal c) in
      ((λ h. ((first.0 h).0, second.0 (first.0 h).1)), (λ h. first.1 (h.0, second.1 h.1)))

  carried_iff : Carried ↔ Settled
  carried_iff = (to, from)
    where
      to : Carried → Settled
      to h k differs =
          let p = h.0 k in
          let q = h.1 k in
          ground (
            arith,
            contains-difference k wanted held,
            contains-difference k held wanted,
            contains-desired adapter faithful request issue k,
            contains-observed adapter faithful request issue k,
            contains-btree_set k live,
          )

      from : Settled → Carried
      from h = (
        (λ k m.
            let s = h k in
            ground (
              arith,
              contains-difference k wanted held,
              contains-desired adapter faithful request issue k,
              contains-observed adapter faithful request issue k,
              contains-btree_set k live,
            )),
        (λ k m.
            let s = h k in
            ground (
              arith,
              contains-difference k held wanted,
              contains-desired adapter faithful request issue k,
              contains-observed adapter faithful request issue k,
              contains-btree_set k live,
            )),
      )

  -- The operations of the diff leave no conflict exactly when its labels are settled.
  pub diff_clear :
      request.issue_number ≡ some issue
      → Covered (applied_ids results) (desired_label_diff adapter request)
      → (conflicts_in (applied_ids results) (btree_set live) (desired_label_diff adapter request)
          ≡ [])
        ↔ Settled
  unfolding desired_label_diff
  diff_clear e covered = rw e (
      let clear = clear_iff (rw e at covered) in
      ((λ h. carried_iff.0 (clear.0 h)), (λ h. clear.1 (carried_iff.1 h))))
