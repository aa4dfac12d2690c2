-- ===== src/Planning/Steps/Merge.antt =====
-- The steps that `merge_steps` gives.
use ubu_orchestrator.Base.{
  ℕ, ◌+◌, String, str_eq, eq_iff, true, false, List, [], ◌∷◌, ◌++◌, ◌≡◌, sym, map, All, All-append,
  All-map, arith, Bool-cases, inl, inr, ◌⊎◌, ap, ◌∙◌, eq_refl,
}
use mathlib.Core.Bool.{false≢true}
use ubu_orchestrator.Base.Order.{str_ord, lt_asymm, le_trans}
use ubu_orchestrator.Base.Sort.{IsSortedBy, sort_by-IsSortedBy, Pairwise, Pairwise-sort_by}
use ubu_orchestrator.Planning.Steps.{ScheduledTask, member, fresh, step_le, number, merge_steps}

-- The two steps are of different Tasks.
abbrev pub IsOther : ScheduledTask → ScheduledTask → Type 0
IsOther a b = str_eq a.task_id b.task_id ≡ false

fresh-IsOther :
    (seen : List String) (steps : List ScheduledTask) (x : ScheduledTask)
    → member x.task_id seen ≡ true
    → All (IsOther x) (fresh seen steps)
unfolding fresh
fresh-IsOther seen [] x h = tt
fresh-IsOther seen (step ∷ steps) x h =
    let again = fresh-IsOther seen steps x h in
    let rest = fresh-IsOther (step.task_id ∷ seen) steps x (ground (arith, h)) in
    elim (Bool-cases (member step.task_id seen)) [
      | inl e ↦ rw e again
      | inr e ↦ rw e (differ (Bool-cases (str_eq x.task_id step.task_id)) e, rest)
    ]
  where
    differ :
        ((str_eq x.task_id step.task_id ≡ true) ⊎ (str_eq x.task_id step.task_id ≡ false))
        → member step.task_id seen ≡ false
        → IsOther x step
    differ (inr q) e = q
    differ (inl q) e =
        absurd (false≢true (sym e ∙ ap (λ i. member i seen) (sym ((eq_iff _ _).0 q)) ∙ h))

fresh-Pairwise :
    (seen : List String) (steps : List ScheduledTask) → Pairwise IsOther (fresh seen steps)
unfolding fresh
fresh-Pairwise seen [] = tt
fresh-Pairwise seen (step ∷ steps) =
    let again = fresh-Pairwise seen steps in
    let rest = fresh-Pairwise (step.task_id ∷ seen) steps in
    let first = fresh-IsOther (step.task_id ∷ seen) steps step (member_here step.task_id seen) in
    elim (Bool-cases (member step.task_id seen)) [ inl e ↦ rw e again | inr e ↦ rw e (first, rest) ]
  where
    member_here : (id : String) (seen : List String) → member id (id ∷ seen) ≡ true
    member_here id seen = ground (arith, eq_refl id)

total : (x y : ScheduledTask) → step_le x y ≡ false → step_le y x ≡ true
total x y h = ground (arith, lt_asymm str_ord y.task_id x.task_id)

trans : (x y z : ScheduledTask) → step_le x y ≡ true → step_le y z ≡ true → step_le x z ≡ true
trans x y z h k = ground (arith, le_trans str_ord x.task_id y.task_id z.task_id)

number-Pairwise :
    (n : ℕ) (steps : List ScheduledTask)
    → Pairwise IsOther steps
    → Pairwise IsOther (number n steps)
unfolding number
number-Pairwise n [] h = tt
number-Pairwise n (step ∷ steps) h =
    (keep (n + 1) steps step h.0, number-Pairwise (n + 1) steps h.1)
  where
    keep :
        (n : ℕ) (steps : List ScheduledTask) (x : ScheduledTask)
        → All (IsOther x) steps
        → All (IsOther x) (number n steps)
    keep n [] x h = tt
    keep n (s ∷ steps) x h = (h.0, keep (n + 1) steps x h.1)

number-IsSortedBy :
    (n : ℕ) (steps : List ScheduledTask)
    → IsSortedBy step_le steps
    → IsSortedBy step_le (number n steps)
unfolding number
number-IsSortedBy n [] h = tt
number-IsSortedBy n (step ∷ steps) h =
    (keep (n + 1) steps step h.0, number-IsSortedBy (n + 1) steps h.1)
  where
    keep :
        (n : ℕ) (steps : List ScheduledTask) (x : ScheduledTask)
        → All (λ y. step_le x y ≡ true) steps
        → All (λ y. step_le x y ≡ true) (number n steps)
    keep n [] x h = tt
    keep n (s ∷ steps) x h = (h.0, keep (n + 1) steps x h.1)

-- A merged plan is in the order of start, end and Task id, whatever the order it is merged from.
pub merge_steps-IsSortedBy :
    (frozen others : List ScheduledTask) → IsSortedBy step_le (merge_steps frozen others)
unfolding merge_steps
merge_steps-IsSortedBy frozen others =
    number-IsSortedBy 0 _ (
      sort_by-IsSortedBy step_le total trans (frozen ++ fresh (map (λ s. s.task_id) frozen) others))

Pairwise-append :
    (xs ys : List ScheduledTask)
    → Pairwise IsOther xs
    → Pairwise IsOther ys
    → All (λ x. All (IsOther x) ys) xs
    → Pairwise IsOther (xs ++ ys)
Pairwise-append [] ys h k c = k
Pairwise-append (x ∷ xs) ys h k c =
    (All-append (IsOther x) xs ys h.0 c.0, Pairwise-append xs ys h.1 k c.1)

taken :
    (seen : List String) (frozen others : List ScheduledTask)
    → All (λ x. member x.task_id seen ≡ true) frozen
    → All (λ x. All (IsOther x) (fresh seen others)) frozen
taken seen [] others h = tt
taken seen (x ∷ frozen) others h = (fresh-IsOther seen others x h.0, taken seen frozen others h.1)

members :
    (seen : List String) (frozen : List ScheduledTask)
    → All (λ x. member x.task_id (map (λ s. s.task_id) frozen) ≡ true) frozen
members seen [] = tt
members seen (x ∷ frozen) = (
  ground (arith, eq_refl x.task_id),
  All-map _ _ (λ y h. ground (arith, h)) frozen (members seen frozen),
)

-- Where no Task has two frozen steps, no Task has two steps in the merged plan.
pub merge_steps-Pairwise :
    (frozen others : List ScheduledTask)
    → Pairwise IsOther frozen
    → Pairwise IsOther (merge_steps frozen others)
unfolding merge_steps
merge_steps-Pairwise frozen others h =
    let ids = map (λ s. s.task_id) frozen in
    number-Pairwise 0 _ (
      Pairwise-sort_by step_le IsOther flip (frozen ++ fresh ids others) (
        Pairwise-append frozen (fresh ids others) h (fresh-Pairwise ids others)
          (taken ids frozen others (members ids frozen))))
  where
    flip : (a b : ScheduledTask) → IsOther a b → IsOther b a
    flip a b h = elim (Bool-cases (str_eq b.task_id a.task_id)) [
      | inr e ↦ e
      | inl e ↦ absurd (
          false≢true
            (sym h ∙ (eq_iff a.task_id b.task_id).1 (sym ((eq_iff b.task_id a.task_id).0 e))))
    ]
