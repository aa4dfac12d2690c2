-- ===== src/Calendar/Interaction/Detected.antt =====
-- Which owned events the gestures come from.
use ubu_orchestrator.Base.{
  str_eq, true, false, not, ◌&&◌, ◌||◌, Option, none, some, List, [], ◌∷◌, ◌≡◌, refl, All,
  All-append, All-map, Any, is_some, is_none, is_some_and, arith, Bool-cases, inl, inr,
}
use ubu_orchestrator.Base.Int.{ℤ, ltb_ℤ}
use ubu_orchestrator.Tasks.Record.{CompletionRecord, is_from_calendar_event}
use ubu_orchestrator.Tasks.Action.{CompletionSignal}
use ubu_orchestrator.Tasks.Reopen.{ReopenSignal}
use ubu_orchestrator.Calendar.Interaction.{
  Timestamps, ObservedOwned, Gestures, parse_range, completes, reopens_one, log_id_of, gesture_in,
  day_before, gesture, detect,
}

-- The completion is of a Task that UbU places, not yet completed, whose event was exported without
-- a colour and has one now.
abbrev pub IsCompleting : CompletionSignal → ObservedOwned → Type 0
IsCompleting c item =
    (item.is_static ≡ false)
    × (item.is_captured ≡ false)
    × (str_eq item.status "completed" ≡ false)
    × (is_some item.event.color_id ≡ true)
    × (item.exported_uncoloured ≡ true)
    × (c.task_id ≡ item.task_id)
    × (c.external_id ≡ item.event.external_id)

-- The reopening is of a completed Task that UbU places, whose event has no colour now, and names
-- the Task's latest completion, which came from that event.
abbrev pub IsReopening : ReopenSignal → ObservedOwned → Type 0
IsReopening r item =
    (item.is_static ≡ false)
    × (item.is_captured ≡ false)
    × (str_eq item.status "completed" ≡ true)
    × (is_none item.event.color_id ≡ true)
    × ((c : CompletionRecord) × (item.latest_completion ≡ some c)
        × (c.log_id ≡ r.completion_log_id)
        × (is_from_calendar_event c item.event.external_id ≡ true))
    × (r.task_id ≡ item.task_id)
    × (r.external_id ≡ item.event.external_id)

abbrev Shown : ObservedOwned → Gestures → Type 0
Shown item g =
    All (λ c. IsCompleting c item) g.completions × All (λ r. IsReopening r item) g.reopens

module _ (ts : Timestamps) where
  gesture-Shown : (now : ℤ) (item : ObservedOwned) → Shown item (gesture ts now item)
  unfolding gesture gesture_in completes reopens_one
  gesture-Shown now item = elim (Bool-cases (item.is_static || item.is_captured)) [
    | inl e ↦ rw e (tt, tt)
    | inr e ↦ elim (Bool-cases (not (completes ts item) && not (reopens_one ts item))) [
      | inl f ↦ rw (e, f) (tt, tt)
      | inr f ↦ rw (e, f) (go e f (parse_range ts item.event.start_at item.event.end_at))
    ]
  ]
    where
      latest :
          (o : Option CompletionRecord)
          → is_some_and o (λ c. is_from_calendar_event c item.event.external_id) ≡ true
          → (c : CompletionRecord) × (o ≡ some c)
            × (c.log_id ≡ log_id_of o)
            × (is_from_calendar_event c item.event.external_id ≡ true)
      latest none h = absurd (cc)
      latest (some c) h = (c, refl, refl, h)

      go :
          item.is_static || item.is_captured ≡ false
          → not (completes ts item) && not (reopens_one ts item) ≡ false
          → (w : Option (ts.Instant × ts.Instant)) → Shown item (gesture_in ts item now w)
      go e f none = (tt, tt)
      go e f (some w) = elim (Bool-cases (completes ts item)) [
        | inl g ↦ rw g (
          (
            (
              (ground (arith, e)),
              (ground (arith, e)),
              ground (arith, g),
              ground (arith, g),
              ground (arith, g),
              refl,
              refl,
            ),
            tt,
          ),
          tt,
        )
        | inr g ↦
            let r : reopens_one ts item ≡ true = ground (arith, g, f) in
            rw g (elim (Bool-cases (ltb_ℤ (day_before ts now) (ts.unix_timestamp w.1))) [
              | inr d ↦ rw d (tt, tt)
              | inl d ↦ rw d (
                tt,
                (
                  (
                    ground (arith, e),
                    ground (arith, e),
                    ground (arith, r),
                    ground (arith, r),
                    latest item.latest_completion (ground (arith, r)),
                    refl,
                    refl,
                  ),
                  tt,
                ),
              )
            ])
      ]

  -- Every completion and reopening that is detected comes from an owned event that shows it.
  pub detect_sound :
      (owned : List ObservedOwned) (now : ℤ)
      → All (λ c. Any (IsCompleting c) owned) (detect ts owned now).completions
        × All (λ r. Any (IsReopening r) owned) (detect ts owned now).reopens
  unfolding detect
  detect_sound [] now = (tt, tt)
  detect_sound (item ∷ owned) now =
      let one = gesture-Shown now item in
      let rest = detect_sound owned now in
      (
        All-append _ (gesture ts now item).completions _
            (All-map _ _ (λ c h. inl h) (gesture ts now item).completions one.0)
            (All-map _ _ (λ c h. inr h) (detect ts owned now).completions rest.0),
        All-append _ (gesture ts now item).reopens _
            (All-map _ _ (λ c h. inl h) (gesture ts now item).reopens one.1)
            (All-map _ _ (λ c h. inr h) (detect ts owned now).reopens rest.1),
      )
