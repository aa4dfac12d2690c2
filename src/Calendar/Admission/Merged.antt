-- ===== src/Calendar/Admission/Merged.antt =====
-- What a capture makes of a Task's payload, and how many Tasks it makes.
use ubu_orchestrator.Base.{
  String, eq_refl, eq_of_some, ◌⊎◌, Bool, true, false, ◌&&◌, Option, none, some, List, [], ◌∷◌,
  ◌++◌, ◌≡◌, refl, any, arith, inl, inr, Bool-cases, if◌then◌else◌,
}
use ubu_orchestrator.Tasks.Record.{Field, missing, null, value, has_value}
use ubu_orchestrator.Calendar.Intake.{CapturedPlacement, static, dynamic, CapturedTask}
use ubu_orchestrator.Calendar.Admission.{
  TaskPayload, Duration, Tag, is_text, fixed, with_category, with_placement, with_description,
  merge_payload,
}

module _ (Json : Type 0) where
  -- At most one scheduling form: a static window, or a duration.
  abbrev pub HasOneForm : TaskPayload Json → Type 0
  HasOneForm p = (has_value p.static_window && has_value p.duration_estimate) ≡ false

  -- The category, if there is one, is among the tags.
  abbrev pub HasTagged : TaskPayload Json → Type 0
  HasTagged p = (c : String) → p.category_tag ≡ some c → any (is_text Json c) p.tags ≡ true

  description_keeps-form :
      (is_blank : String → Bool) (d : Option String) (p : TaskPayload Json)
      → HasOneForm p
      → HasOneForm (with_description Json is_blank d p)
  unfolding with_description
  description_keeps-form is_blank none p h = h
  description_keeps-form is_blank (some d) p h = go _
    where
      go : (b : Bool) → HasOneForm (if b then record p { description = some d } else p)
      go true = h
      go false = h

  placement_form :
      (task : CapturedTask) (placement : CapturedPlacement) (p : TaskPayload Json)
      → HasOneForm p
      → HasOneForm (with_placement Json task placement p)
  unfolding with_placement
  placement_form task static p h = go p.static_window p.duration_estimate h
    where
      go :
          (w : Field (String × String)) (d : Field (Duration Json))
          → (has_value w && has_value d) ≡ false
          → has_value (if has_value w then d else missing) ≡ false
      go missing d h = refl
      go null d h = refl
      go (value x) d h = h
  placement_form task (dynamic seconds) p h = refl

  category_form :
      (c : Option String) (p : TaskPayload Json)
      → HasOneForm p
      → HasOneForm (with_category Json c p) × HasTagged (with_category Json c p)
  unfolding with_category
  category_form none p h = (h, (λ c e. absurd (cc)))
  category_form (some c) p h =
      (h, (λ k e. tagged (Bool-cases (any (is_text Json c) p.tags)) k (eq_of_some e)))
    where
      any-last : (tags : List (Tag Json)) → any (is_text Json c) (tags ++ (Tag.text c ∷ [])) ≡ true
      any-last [] = rw (eq_refl c)
      any-last (t ∷ tags) = ground (arith, any-last tags)

      tagged :
          (any (is_text Json c) p.tags ≡ true) ⊎ (any (is_text Json c) p.tags ≡ false)
          → (k : String) → c ≡ k
          → any
              (is_text Json k)
              (if any (is_text Json c) p.tags then p.tags else p.tags ++ (Tag.text c ∷ []))
            ≡ true
      tagged (inl e) k s = rw (← s, e) e
      tagged (inr e) k s = rw (← s, e) (any-last p.tags)

  -- The payload has the placement that was captured: its window, or its length.
  abbrev pub HasPlacement : CapturedTask → CapturedPlacement → TaskPayload Json → Type 0
  HasPlacement task static p = p.static_window ≡ value (task.start_at, task.end_at)
  HasPlacement task (dynamic seconds) p =
      (p.static_window ≡ missing) × (p.duration_estimate ≡ value (fixed seconds))

  placement-HasPlacement :
      (task : CapturedTask) (placement : CapturedPlacement) (p : TaskPayload Json)
      → HasPlacement task placement (with_placement Json task placement p)
  unfolding with_placement
  placement-HasPlacement task static p = refl
  placement-HasPlacement task (dynamic seconds) p = (refl, refl)

  category-HasPlacement :
      (task : CapturedTask) (placement : CapturedPlacement) (c : Option String)
      (p : TaskPayload Json)
      → HasPlacement task placement p
      → HasPlacement task placement (with_category Json c p)
  unfolding with_category
  category-HasPlacement task static none p h = h
  category-HasPlacement task static (some c) p h = h
  category-HasPlacement task (dynamic seconds) none p h = h
  category-HasPlacement task (dynamic seconds) (some c) p h = h

  occupied-HasPlacement :
      (task : CapturedTask) (placement : CapturedPlacement) (o : Option Bool) (p : TaskPayload Json)
      → HasPlacement task placement p
      → HasPlacement task placement (record p { occupies_capacity = o })
  occupied-HasPlacement task static o p h = h
  occupied-HasPlacement task (dynamic seconds) o p h = h

  -- A payload with at most one scheduling form has at most one after a capture, and it is the one
  -- that was captured: the event's window for a Static placement, no window and its length for a
  -- Dynamic one. The category, if there is one, is among the tags.
  pub merge_payload_lem :
      (is_blank : String → Bool) (task : CapturedTask) (p : TaskPayload Json)
      → HasOneForm p
      → HasOneForm (merge_payload Json is_blank task p)
        × HasTagged (merge_payload Json is_blank task p)
        × HasPlacement task task.placement (merge_payload Json is_blank task p)
  unfolding merge_payload
  merge_payload_lem is_blank task p h =
      let titled = record p { title = some task.title } in
      let described = with_description Json is_blank task.description titled in
      let f =
        placement_form task task.placement described
          (description_keeps-form is_blank task.description titled h) in
      let placed = with_placement Json task task.placement described in
      let occupied = record placed { occupies_capacity = some task.occupies_capacity } in
      let g = category_form task.category_tag occupied f in
      (
        g.0,
        g.1,
        category-HasPlacement task task.placement task.category_tag occupied (
            occupied-HasPlacement task task.placement (some task.occupies_capacity) placed
              (placement-HasPlacement task task.placement described)),
      )
