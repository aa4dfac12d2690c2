-- ===== src/Planning/Steps/Merged.antt =====
-- What a plan that `merge_steps` gives holds, and in which order.
use ubu_orchestrator.Base.{
  ℕ, ◌+◌, ◌<◌, String, str_eq, eq_iff, true, false, List, [], ◌∷◌, ◌++◌, ◌≡◌, ◌≢◌, refl, sym, subst,
  ap, map, All, All-append, All-map, Any, Any-left, Any-right, arith, Bool-cases, inl, inr, ◌⊎◌,
}
use ubu_orchestrator.Base.Order.{str_ord, str_lt}
use ubu_orchestrator.Base.Sort.{Pairwise, IsSortedBy, sort_by, All-sort_by, Any-sort_by}
use ubu_orchestrator.Planning.Steps.{ScheduledTask, member, fresh, step_le, number, merge_steps}
use ubu_orchestrator.Planning.Steps.Merge.{merge_steps-IsSortedBy}

-- One step comes before another by its start, then by its end, then by its Task's id.
abbrev pub ComesFirst : ScheduledTask → ScheduledTask → Type 0
ComesFirst a b =
    (a.start < b.start)
    ⊎ ((a.start ≡ b.start)
        × ((a.end < b.end) ⊎ ((a.end ≡ b.end) × (str_lt b.task_id a.task_id ≡ false))))

-- The two steps are the same but for the index.
abbrev pub IsSame : ScheduledTask → ScheduledTask → Type 0
IsSame a b = a ≡ record b { index = a.index }

abbrev pub SameTask : ScheduledTask → ScheduledTask → Type 0
SameTask a b = a.task_id ≡ b.task_id

-- A step of the merged plan is a frozen one, or another one of a Task without a frozen step.
abbrev pub IsMerged : List ScheduledTask → List ScheduledTask → ScheduledTask → Type 0
IsMerged frozen others s =
    Any (IsSame s) frozen ⊎ (Any (IsSame s) others × All (λ f. f.task_id ≢ s.task_id) frozen)

ComesFirst-of : (a b : ScheduledTask) → step_le a b ≡ true → ComesFirst a b
ComesFirst-of a b h = ground arith

sorted-Pairwise :
    (steps : List ScheduledTask) → IsSortedBy step_le steps → Pairwise ComesFirst steps
sorted-Pairwise [] h = tt
sorted-Pairwise (s ∷ steps) h = (All-map _ _ (ComesFirst-of s) steps h.0, sorted-Pairwise steps h.1)

module _ (P : ScheduledTask → Type 0)
    (closed : (s : ScheduledTask) (n : ℕ) → P s → P (record s { index = n })) where
  All-number : (n : ℕ) (steps : List ScheduledTask) → All P steps → All P (number n steps)
  unfolding number
  All-number n [] h = tt
  All-number n (s ∷ steps) h = (closed s _ h.0, All-number (n + 1) steps h.1)

  Any-number : (n : ℕ) (steps : List ScheduledTask) → Any P steps → Any P (number n steps)
  unfolding number
  Any-number n [] h = h
  Any-number n (s ∷ steps) (inl h) = inl (closed s _ h)
  Any-number n (s ∷ steps) (inr h) = inr (Any-number (n + 1) steps h)

Any-map :
    (P Q : ScheduledTask → Type 0)
    → ((x : ScheduledTask) → P x → Q x)
    → (xs : List ScheduledTask) → Any P xs
    → Any Q xs
Any-map P Q f [] h = h
Any-map P Q f (x ∷ xs) (inl h) = inl (f x h)
Any-map P Q f (x ∷ xs) (inr h) = inr (Any-map P Q f xs h)

-- Each step is in its list.
each_in : (steps : List ScheduledTask) → All (λ s. Any (IsSame s) steps) steps
each_in [] = tt
each_in (s ∷ steps) = (inl refl, All-map _ _ (λ x h. inr h) steps (each_in steps))

-- The steps that are kept are of Tasks not seen before.
fresh_sound :
    (seen : List String) (steps : List ScheduledTask)
    → All (λ s. Any (IsSame s) steps × (member s.task_id seen ≡ false)) (fresh seen steps)
unfolding fresh
fresh_sound seen [] = tt
fresh_sound seen (step ∷ steps) =
    let again = All-map _ _ (λ s h. (inr h.0, h.1)) (fresh seen steps) (fresh_sound seen steps) in
    let rest =
      All-map _ _ (λ s h. (inr h.0, ground arith)) (fresh (step.task_id ∷ seen) steps)
        (fresh_sound (step.task_id ∷ seen) steps) in
    elim (Bool-cases (member step.task_id seen)) [
      | inl e ↦ rw e again
      | inr e ↦ rw e ((inl refl, e), rest)
    ]

-- A Task of the steps was seen before or keeps a step.
fresh_complete :
    (seen : List String) (steps : List ScheduledTask)
    → All (λ o. (member o.task_id seen ≡ true) ⊎ Any (SameTask o) (fresh seen steps)) steps
unfolding fresh
fresh_complete seen [] = tt
fresh_complete seen (step ∷ steps) =
    let again = fresh_complete seen steps in
    let rest = fresh_complete (step.task_id ∷ seen) steps in
    elim (Bool-cases (member step.task_id seen)) [
      | inl e ↦
          let same : fresh seen (step ∷ steps) ≡ fresh seen steps = rw e refl in
          subst (λ xs. All (Covered xs) (step ∷ steps)) (sym same) (inl e, again)
      | inr e ↦
          let same : fresh seen (step ∷ steps) ≡ step ∷ fresh (step.task_id ∷ seen) steps =
            rw e refl in
          subst (λ xs. All (Covered xs) (step ∷ steps)) (sym same)
            (inr (inl refl), All-map _ _ kept steps rest)
    ]
  where
    Covered : List ScheduledTask → ScheduledTask → Type 0
    Covered xs o = (member o.task_id seen ≡ true) ⊎ Any (SameTask o) xs

    kept :
        (o : ScheduledTask)
        → (member o.task_id (step.task_id ∷ seen) ≡ true)
          ⊎ Any (SameTask o) (fresh (step.task_id ∷ seen) steps)
        → (member o.task_id seen ≡ true)
          ⊎ Any (SameTask o) (step ∷ fresh (step.task_id ∷ seen) steps)
    kept o (inr h) = inr (inr h)
    kept o (inl h) = elim (Bool-cases (str_eq step.task_id o.task_id)) [
      | inl e ↦ inr (inl (sym ((eq_iff step.task_id o.task_id).0 e)))
      | inr e ↦ inl (ground arith)
    ]

not_member :
    (id : String) (steps : List ScheduledTask)
    → member id (map (λ s. s.task_id) steps) ≡ false
    → All (λ f. f.task_id ≢ id) steps
not_member id [] h = tt
not_member id (s ∷ steps) h =
    ((λ e. ground (arith, eq_iff s.task_id id)), not_member id steps (ground arith))

is_member :
    (o : ScheduledTask) (steps : List ScheduledTask)
    → member o.task_id (map (λ s. s.task_id) steps) ≡ true
    → Any (SameTask o) steps
is_member o [] h = cc
is_member o (s ∷ steps) h = elim (Bool-cases (str_eq s.task_id o.task_id)) [
  | inl e ↦ inl (sym ((eq_iff s.task_id o.task_id).0 e))
  | inr e ↦ inr (is_member o steps (rw e at h))
]

-- A merged plan is in the order of start, end and Task id. Each of its steps is, but for the index, a
-- frozen step, or one of the others whose Task has no frozen step. Every frozen step is in it, and
-- every Task of the others has a step in it.
pub merge_steps_lem :
    (frozen others : List ScheduledTask)
    → Pairwise ComesFirst (merge_steps frozen others)
      × All (IsMerged frozen others) (merge_steps frozen others)
      × All (λ f. Any (IsSame f) (merge_steps frozen others)) frozen
      × All (λ o. Any (SameTask o) (merge_steps frozen others)) others
unfolding merge_steps
merge_steps_lem frozen others =
    let ids = map (λ (s : ScheduledTask). s.task_id) frozen in
    let kept = fresh ids others in
    let joined = frozen ++ kept in
    (
      sorted-Pairwise (merge_steps frozen others) (merge_steps-IsSortedBy frozen others),
      All-number (IsMerged frozen others) closed 0 (sort_by step_le joined) (
          All-sort_by step_le (IsMerged frozen others) joined (
            All-append (IsMerged frozen others) frozen kept
              (All-map _ _ (λ s h. inl h) frozen (each_in frozen))
              (All-map _ _ (λ s h. inr (h.0, not_member s.task_id frozen h.1)) kept
                (fresh_sound ids others)))),
      All-map _ _
          (λ f h.
            Any-number (IsSame f) (λ s n e. e) 0 (sort_by step_le joined)
              (Any-sort_by step_le (IsSame f) joined (Any-left (IsSame f) frozen kept h)))
          frozen (each_in frozen),
      All-map _ _
          (λ o h.
            Any-number (SameTask o) (λ s n e. e) 0 (sort_by step_le joined)
              (Any-sort_by step_le (SameTask o) joined (in_joined o h)))
          others (fresh_complete ids others),
    )
  where
    same_index :
        (xs : List ScheduledTask) (s : ScheduledTask) (n : ℕ)
        → Any (IsSame s) xs
        → Any (IsSame (record s { index = n })) xs
    same_index xs s n h =
        Any-map (IsSame s) (IsSame (record s { index = n }))
          (λ r e. ap (λ (x : ScheduledTask). record x { index = n }) e) xs h

    closed :
        (s : ScheduledTask) (n : ℕ)
        → IsMerged frozen others s
        → IsMerged frozen others (record s { index = n })
    closed s n (inl h) = inl (same_index frozen s n h)
    closed s n (inr h) = inr (same_index others s n h.0, h.1)

    in_joined :
        (o : ScheduledTask)
        → (member o.task_id (map (λ s. s.task_id) frozen) ≡ true)
          ⊎ Any (SameTask o) (fresh (map (λ s. s.task_id) frozen) others)
        → Any (SameTask o) (frozen ++ fresh (map (λ s. s.task_id) frozen) others)
    in_joined o (inl h) = Any-left (SameTask o) frozen _ (is_member o frozen h)
    in_joined o (inr h) = Any-right (SameTask o) frozen _ h
