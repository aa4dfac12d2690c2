-- ===== src/Calendar/Intake/Counts.antt =====
-- Which events `plan_capture` takes, and what it makes of them.
use ubu_orchestrator.Base.{
  ℕ, String, str_eq, Bool, true, false, not, ◌&&◌, Option, none, some, List, [], ◌∷◌, ◌≡◌, refl, ap,
  ◌∙◌, All, All-map, Any, any, is_none, arith, Bool-cases, Option-cases, inl, inr,
}
use ubu_orchestrator.Base.Order.{str_ord, str_lt}
use ubu_orchestrator.Base.TreeMap.{TreeMap, get, contains_key}
use ubu_orchestrator.Base.Sort.{Pairwise}
use ubu_orchestrator.Calendar.Event.{DesiredEvent}
use ubu_orchestrator.Calendar.Diff.{StringSet, contains}
use ubu_orchestrator.Calendar.Capture.{DiagnosticBody, not_ownable_diagnostic}
use ubu_orchestrator.Calendar.Interaction.{Timestamps, parse_range}
use ubu_orchestrator.Calendar.Intake.{
  CapturedTask, Taken, stale, skipped, taken, static, dynamic, take_within, take_at, take_valid,
  take_event, Capture, add, capture_from, plan_capture, by_category, place_by_colour, occupies,
}

abbrev pub OtherEvent : CapturedTask → CapturedTask → Type 0
OtherEvent a b = str_eq a.origin_event_id b.origin_event_id ≡ false

-- A Dynamic capture is an event without a colour that UbU can own, and it occupies capacity.
abbrev pub IsPlaced : CapturedTask → DesiredEvent → Type 0
IsPlaced t event = elim t.placement [
  | static ↦ t.occupies_capacity ≡ not event.transparent
  | dynamic seconds ↦
      (event.color_id ≡ none)
      × (is_none (not_ownable_diagnostic event.external_id) ≡ true)
      × (t.occupies_capacity ≡ true)
      × (t.category_tag ≡ none)
]

-- The Task is the event's, with a window of at least one planning second.
abbrev pub IsFrom : CapturedTask → DesiredEvent → Type 0
IsFrom t event =
    (t.origin_event_id ≡ event.external_id)
    × (t.title ≡ event.summary)
    × (str_lt t.start_at t.end_at ≡ true)
    × IsPlaced t event

abbrev Sound : DesiredEvent → Taken → Type 0
Sound event stale = Unit
Sound event (skipped d) = Unit
Sound event (taken t ds ownable) = IsFrom t event

by_category-static :
    (event : DesiredEvent) (color : String) (o : Option (Option String))
    → (by_category event color o).0 ≡ static
unfolding by_category
by_category-static event color none = refl
by_category-static event color (some none) = refl
by_category-static event color (some (some c)) = refl

module _ (ts : Timestamps) (timestamp_at : ℕ → Option String) (is_blank : String → Bool)
    (capture_description : String → Option String → Option String × Option DiagnosticBody)
    (palette_inverse : TreeMap String (Option String))
    (existing_by_source : TreeMap String String) where
  take_at-Sound :
      (event : DesiredEvent) (n : ℕ) (a b : String)
      → str_lt a b ≡ true
      → Sound event (
          take_at ts timestamp_at is_blank capture_description palette_inverse existing_by_source
            event n a b)
  unfolding take_at place_by_colour occupies
  take_at-Sound event n a b h = (
    refl,
    refl,
    h,
    elim (Option-cases event.color_id) [
      | inl e ↦ elim (Bool-cases (is_none (not_ownable_diagnostic event.external_id))) [
        | inl f ↦ rw (e, f) (refl, f, refl, refl)
        | inr f ↦ rw (e, f) refl
      ]
      | inr (color, e) ↦ rw (e, by_category-static event color (get color palette_inverse)) refl
    ],
  )

  take_within-Sound :
      (event : DesiredEvent) (n : ℕ) (a b : Option String)
      → Sound event (
          take_within ts timestamp_at is_blank capture_description palette_inverse
            existing_by_source event n a b)
  unfolding take_within
  take_within-Sound event n (some a) (some b) = elim (Bool-cases (str_lt a b)) [
    | inl e ↦ rw e (take_at-Sound event n a b e)
    | inr e ↦ rw e tt
  ]
  take_within-Sound event n none b = tt
  take_within-Sound event n (some a) none = tt

  take_event-Sound :
      (ids : StringSet) (event : DesiredEvent)
      → Sound event (
          take_event ts timestamp_at is_blank capture_description palette_inverse existing_by_source
            ids event)
  unfolding take_event take_valid
  take_event-Sound ids event =
      elim (Bool-cases (
        contains ids event.external_id
        && not (contains_key event.external_id existing_by_source))) [
          | inl e ↦ rw e tt
          | inr e ↦ rw e (go (parse_range ts event.start_at event.end_at))
        ]
    where
      go :
          (w : Option (ts.Instant × ts.Instant))
          → Sound event (
              take_valid ts timestamp_at is_blank capture_description palette_inverse
                existing_by_source event w)
      go none = tt
      go (some w) = elim (Bool-cases (is_blank event.summary)) [
        | inl e ↦ rw e tt
        | inr e ↦ rw e (take_within-Sound event _ _ _)
      ]

  -- Of the tasks: each is of an event not in `seen`, and no two are of one event.
  abbrev Distinct : List String → List CapturedTask → Type 0
  Distinct seen tasks =
      All (λ t. any (λ id. str_eq id t.origin_event_id) seen ≡ false) tasks
      × Pairwise OtherEvent tasks

  add-Distinct :
      (seen : List String) (event : DesiredEvent) (x : Taken)
      (c : Capture ts timestamp_at is_blank capture_description palette_inverse existing_by_source)
      → any (λ id. str_eq id event.external_id) seen ≡ false
      → Sound event x
      → Distinct (event.external_id ∷ seen) c.tasks
      → Distinct seen
          (add ts timestamp_at is_blank capture_description palette_inverse existing_by_source event
            x c).tasks
  unfolding add
  add-Distinct seen event stale c n s h = (All-map _ _ (λ t k. ground (arith, k)) c.tasks h.0, h.1)
  add-Distinct seen event (skipped d) c n s h =
      (All-map _ _ (λ t k. ground (arith, k)) c.tasks h.0, h.1)
  add-Distinct seen event (taken t ds o) c n s h = (
    (
      ap (λ i. any (λ id. str_eq id i) seen) s.0 ∙ n,
      All-map _ _ (λ t k. ground (arith, k)) c.tasks h.0,
    ),
    (
      All-map _ _ (λ u k. ap (λ i. str_eq i u.origin_event_id) s.0 ∙ ground (arith, k)) c.tasks h.0,
      h.1,
    ),
  )

  add-IsFrom :
      (event : DesiredEvent) (foreign : List DesiredEvent) (x : Taken)
      (c : Capture ts timestamp_at is_blank capture_description palette_inverse existing_by_source)
      → Sound event x
      → All (λ t. Any (IsFrom t) foreign) c.tasks
      → All
          (λ t. Any (IsFrom t) (event ∷ foreign))
          (add ts timestamp_at is_blank capture_description palette_inverse existing_by_source event
            x c).tasks
  unfolding add
  add-IsFrom event foreign stale c s h = All-map _ _ (λ t k. inr k) c.tasks h
  add-IsFrom event foreign (skipped d) c s h = All-map _ _ (λ t k. inr k) c.tasks h
  add-IsFrom event foreign (taken t ds o) c s h = (inl s, All-map _ _ (λ t k. inr k) c.tasks h)

  capture_from-lem :
      (ids : StringSet) (seen : List String) (foreign : List DesiredEvent)
      → let tasks =
          (capture_from ts timestamp_at is_blank capture_description palette_inverse
            existing_by_source ids seen foreign).tasks in
        Distinct seen tasks × All (λ t. Any (IsFrom t) foreign) tasks
  unfolding capture_from
  capture_from-lem ids seen [] = ((tt, tt), tt)
  capture_from-lem ids seen (event ∷ foreign) =
      let again = any (λ id. str_eq id event.external_id) seen in
      let skip = capture_from-lem ids seen foreign in
      let rest = capture_from-lem ids (event.external_id ∷ seen) foreign in
      let s = take_event-Sound ids event in
      elim (Bool-cases again) [
        | inl e ↦ rw e (skip.0, All-map _ _ (λ t k. inr k) _ skip.1)
        | inr e ↦
            rw e (add-Distinct seen event _ _ e s rest.0, add-IsFrom event foreign _ _ s rest.1)
      ]

  -- No event becomes two Tasks, and every captured Task is that of an event: it has its title, a
  -- window of at least one planning second, and it is Dynamic only for an event without a colour
  -- that UbU can own, in which case it occupies capacity and has no category.
  pub plan_capture_lem :
      (foreign : List DesiredEvent) (ids : StringSet)
      → let tasks =
          (plan_capture ts timestamp_at is_blank capture_description palette_inverse
            existing_by_source foreign ids).0 in
        Pairwise OtherEvent tasks × All (λ t. Any (IsFrom t) foreign) tasks
  unfolding plan_capture
  plan_capture_lem foreign ids = let h = capture_from-lem ids [] foreign in (h.0.1, h.1)
