-- ===== src/Calendar/Interaction/Windows.antt =====
-- Which owned events the moves and resizes of `detect_window_gestures` come from.
use ubu_orchestrator.Base.{
  ◌<◌, str_eq, true, false, not, ◌&&◌, ◌||◌, Option, none, some, List, [], ◌∷◌, ◌≡◌, ◌≢◌, refl,
  subst, All, All-append, All-map, Any, is_some, ltb, ◌==◌, arith, Bool-cases, inl, inr, ◌⊎◌,
}
use ubu_orchestrator.Calendar.Interaction.{
  Timestamps, ObservedOwned, MoveSignal, ResizeSignal, WindowGestures, move_of, parse_range,
  changed, left_static_window, seconds_of, resize_of, window_gesture, detect_window_gestures,
}

module _ (ts : Timestamps) where
  -- The move is to the observed window of an active Task: an occurrence that left the window it was
  -- last applied at, or a Static Task that left its own.
  abbrev pub IsMoved : MoveSignal → ObservedOwned → Type 0
  IsMoved m item =
      (m ≡ move_of item)
      × (str_eq item.status "active" ≡ true)
      × (((is_some item.routine_objective_id ≡ true) × (changed ts item ≡ true))
          ⊎ ((item.is_static ≡ true) × (left_static_window ts item ≡ true)))

  -- The resize is of an active Dynamic Task that is no occurrence, to the positive length of its
  -- observed window, which is not the length declared.
  abbrev pub IsResized : ResizeSignal → ObservedOwned → Type 0
  IsResized r item =
      (r.task_id ≡ item.task_id)
      × (r.external_id ≡ item.event.external_id)
      × (str_eq item.status "active" ≡ true)
      × (is_some item.routine_objective_id ≡ false)
      × (item.is_static ≡ false)
      × (0 < r.new_duration_seconds)
      × (r.new_duration_seconds ≢ item.declared_duration_seconds)
      × ((w : ts.Instant × ts.Instant) × (parse_range ts item.event.start_at item.event.end_at
            ≡ some w)
          × (r.new_duration_seconds ≡ seconds_of ts w))

  abbrev Shown : ObservedOwned → WindowGestures → Type 0
  Shown item g = All (λ m. IsMoved m item) g.moves × All (λ r. IsResized r item) g.resizes

  resize_of-Shown :
      (item : ObservedOwned)
      → str_eq item.status "active" ≡ true
      → is_some item.routine_objective_id ≡ false
      → item.is_static ≡ false
      → (o : Option (ts.Instant × ts.Instant))
      → parse_range ts item.event.start_at item.event.end_at ≡ o
      → Shown item (resize_of ts item o)
  unfolding resize_of
  resize_of-Shown item a r s none e = (tt, tt)
  resize_of-Shown item a r s (some w) e =
      elim (Bool-cases
        (ltb 0 (seconds_of ts w) && not (seconds_of ts w == item.declared_duration_seconds))) [
          | inr f ↦ rw f (tt, tt)
          | inl f ↦ rw f (
            tt,
            (
              (refl, refl, a, r, s, ground (arith, f), (λ q. ground (arith, f, q)), (w, e, refl)),
              tt,
            ),
          )
        ]

  window_gesture-Shown : (item : ObservedOwned) → Shown item (window_gesture ts item)
  unfolding window_gesture
  window_gesture-Shown item = elim (Bool-cases (str_eq item.status "active")) [
    | inr a ↦ elim (Bool-cases (changed ts item || left_static_window ts item)) [
      | inl c ↦ rw (a, c) (tt, tt)
      | inr c ↦ rw (a, c) (tt, tt)
    ]
    | inl a ↦ elim (Bool-cases (is_some item.routine_objective_id)) [
      | inl r ↦ elim (Bool-cases (changed ts item)) [
        | inl c ↦ rw (a, r, c) (((refl, refl, inl (refl, refl)), tt), tt)
        | inr c ↦ rw (a, r, c) (tt, tt)
      ]
      | inr r ↦ elim (Bool-cases item.is_static) [
        | inl s ↦ elim (Bool-cases (left_static_window ts item)) [
          | inl c ↦ rw (a, r, s, c) (((refl, refl, inr (refl, refl)), tt), tt)
          | inr c ↦ rw (a, r, s, c) (tt, tt)
        ]
        | inr s ↦
            let same : resize_of ts item (parse_range ts item.event.start_at item.event.end_at)
                ≡ window_gesture ts item =
              rw (a, r, s) refl in
            subst (Shown item) same (resize_of-Shown item a r s _ refl)
      ]
    ]
  ]

  -- Every move and every resize that is detected comes from an owned event that shows it, so an
  -- inactive Task is neither moved nor resized, a Static Task is never resized, and a Dynamic Task
  -- that is no occurrence is never moved.
  pub detect_window_gestures_sound :
      (owned : List ObservedOwned)
      → All (λ m. Any (IsMoved m) owned) (detect_window_gestures ts owned).moves
        × All (λ r. Any (IsResized r) owned) (detect_window_gestures ts owned).resizes
  unfolding detect_window_gestures
  detect_window_gestures_sound [] = (tt, tt)
  detect_window_gestures_sound (item ∷ owned) =
      let one = window_gesture-Shown item in
      let rest = detect_window_gestures_sound owned in
      (
        All-append _ (window_gesture ts item).moves _
            (All-map _ _ (λ c h. inl h) (window_gesture ts item).moves one.0)
            (All-map _ _ (λ c h. inr h) (detect_window_gestures ts owned).moves rest.0),
        All-append _ (window_gesture ts item).resizes _
            (All-map _ _ (λ c h. inl h) (window_gesture ts item).resizes one.1)
            (All-map _ _ (λ c h. inr h) (detect_window_gestures ts owned).resizes rest.1),
      )
