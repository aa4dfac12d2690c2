-- ===== src/Planning/Steps/Canonical.antt =====
-- What `validate_canonical_plan` accepts, and that it accepts a merged plan.
use ubu_orchestrator.Base.{
  ℕ, ◌+◌, ◌%◌, ◌<◌, String, Bool, false, List, [], ◌∷◌, ◌++◌, ◌≡◌, refl, map, All, All-append,
  arith, Bool-cases, inl, inr, ◌↔◌,
}
use ubu_orchestrator.Base.Order.{str_ord}
use ubu_orchestrator.Base.Sort.{sort_by, All-sort_by}
use ubu_orchestrator.Errors.{ok}
use ubu_orchestrator.Planning.Steps.{
  ScheduledTask, member, fresh, step_le, number, merge_steps, validate_steps,
}

module _ (is_blank : String → Bool) where
  -- A step that has a summary and a positive length.
  abbrev pub IsSound : ScheduledTask → Type 0
  IsSound s = (is_blank s.summary ≡ false) × (s.start < s.end)

  -- Sound steps, with the indexes `n`, `n + 1` and so on, as 32 bits hold them.
  abbrev pub IsCounted : ℕ → List ScheduledTask → Type 0
  IsCounted n [] = Unit
  IsCounted n (s ∷ ss) = (s.index ≡ n % 4294967296) × IsSound s × IsCounted (n + 1) ss

  -- A plan's steps are accepted exactly when their indexes count up from the first, each has a
  -- summary, and each ends after it starts.
  pub validate_steps_iff :
      (n : ℕ) (steps : List ScheduledTask)
      → (validate_steps is_blank n steps ≡ ok tt) ↔ IsCounted n steps
  unfolding validate_steps
  validate_steps_iff n [] = (λ h. tt, λ h. refl)
  validate_steps_iff n (s ∷ ss) =
      let rest = validate_steps_iff (n + 1) ss in
      (
        λ h.
            (ground (arith, h), (ground (arith, h), ground (arith, h)), rest.0 (ground (arith, h))),
        λ h. ground (arith, h.0, h.1, rest.1 h.2),
      )

  counted : (n : ℕ) (steps : List ScheduledTask) → All IsSound steps → IsCounted n (number n steps)
  unfolding number
  counted n [] h = tt
  counted n (s ∷ ss) h = (refl, h.0, counted (n + 1) ss h.1)

  IsSound-fresh :
      (seen : List String) (steps : List ScheduledTask)
      → All IsSound steps
      → All IsSound (fresh seen steps)
  unfolding fresh
  IsSound-fresh seen [] h = tt
  IsSound-fresh seen (s ∷ ss) h =
      let again = IsSound-fresh seen ss h.1 in
      let rest = IsSound-fresh (s.task_id ∷ seen) ss h.1 in
      elim (Bool-cases (member s.task_id seen)) [ inl e ↦ rw e again | inr e ↦ rw e (h.0, rest) ]

  -- The steps that `merge_steps` gives pass the checks on a stored plan, if each step that it is
  -- given has a summary and ends after it starts.
  pub merge_steps_valid :
      (frozen others : List ScheduledTask)
      → All IsSound frozen
      → All IsSound others
      → validate_steps is_blank 0 (merge_steps frozen others) ≡ ok tt
  unfolding merge_steps
  merge_steps_valid frozen others h k =
      let ids = map (λ s. s.task_id) frozen in
      let steps = frozen ++ fresh ids others in
      (validate_steps_iff 0 (merge_steps frozen others)).1 (
        counted 0 (sort_by step_le steps) (
          All-sort_by step_le IsSound steps
            (All-append IsSound frozen (fresh ids others) h (IsSound-fresh ids others k))))
