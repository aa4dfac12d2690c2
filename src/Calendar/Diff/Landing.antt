-- ===== src/Calendar/Diff/Landing.antt =====
-- The operations of `diff`, landed in order on the existing events, are what the two sets ask for.
use ubu_orchestrator.Base.{
  String, eq_iff, Bool, true, false, Option, none, some, List, [], ◌∷◌, ◌++◌, ◌≡◌, refl, arith,
  if◌then◌else◌, ◌∙◌,
}
use ubu_orchestrator.Base.Order.{str_ord}
use ubu_orchestrator.Base.TreeMap.{
  get, IsSorted, IsKeyed, get-Above, collect-IsSorted, collect-IsKeyed,
}
use ubu_orchestrator.Calendar.Event.{DesiredEvent, Events, same_managed_fields, by_external_id}
use ubu_orchestrator.Calendar.Diff.{StringSet, contains, pending, obsolete, diff, land_all}
use ubu_orchestrator.Calendar.Diff.Effect.{effect, first, or_keep, effect-append, get-land_all}

-- What an id reads once a preview is applied: a retained id keeps what it has, an id that is not
-- wanted is gone, a wanted one holds the wanted event, or its old event with the same managed fields.
abbrev pub outcome : Bool → Option DesiredEvent → Option DesiredEvent → Option DesiredEvent
outcome true wanted held = held
outcome false none held = none
outcome false (some event) none = some event
outcome false (some event) (some old) =
    if same_managed_fields old event then some old else some event

abbrev creates : Bool → Option DesiredEvent → Option DesiredEvent → Option (Option DesiredEvent)
creates false (some event) none = some (some event)
creates _ _ _ = none

abbrev updates : Bool → Option DesiredEvent → Option DesiredEvent → Option (Option DesiredEvent)
updates false (some event) (some old) =
    if same_managed_fields old event then none else some (some event)
updates _ _ _ = none

abbrev deletes : Bool → Option DesiredEvent → Option DesiredEvent → Option (Option DesiredEvent)
deletes false none (some old) = some none
deletes _ _ _ = none

abbrev Keyed : Events → Type 0
Keyed = IsKeyed (λ e. e.external_id)

creates-none : (b : Bool) (h : Option DesiredEvent) → creates b none h ≡ none
creates-none b h = ground arith

updates-none : (b : Bool) (h : Option DesiredEvent) → updates b none h ≡ none
updates-none b h = ground arith

deletes-none : (b : Bool) (w : Option DesiredEvent) → deletes b w none ≡ none
deletes-none b w = ground arith

module _ (j : String) (retained : StringSet) where
  effect-creates :
      (held wanted : Events)
      → IsSorted wanted
      → Keyed wanted
      → effect j (pending held retained wanted).0
        ≡ creates (contains retained j) (get j wanted) (get j held)
  unfolding pending effect get
  effect-creates held [] s k = ground (arith, creates-none (contains retained j) (get j held))
  effect-creates held ((id, event) ∷ wanted) s k = ground (
    arith,
    effect-creates held wanted s.1 k.1,
    get-Above id wanted s.0,
    eq_iff id event.external_id,
    eq_iff id j,
    eq_iff event.external_id j,
    creates-none (contains retained j) (get j held),
  )

  effect-updates :
      (held wanted : Events)
      → IsSorted wanted
      → Keyed wanted
      → effect j (pending held retained wanted).1
        ≡ updates (contains retained j) (get j wanted) (get j held)
  unfolding pending effect get
  effect-updates held [] s k = ground (arith, updates-none (contains retained j) (get j held))
  effect-updates held ((id, event) ∷ wanted) s k = ground (
    arith,
    effect-updates held wanted s.1 k.1,
    get-Above id wanted s.0,
    eq_iff id event.external_id,
    eq_iff id j,
    eq_iff event.external_id j,
    updates-none (contains retained j) (get j held),
  )

  effect-deletes :
      (wanted held : Events)
      → IsSorted held
      → effect j (obsolete wanted retained held)
        ≡ deletes (contains retained j) (get j wanted) (get j held)
  unfolding obsolete effect get
  effect-deletes wanted [] s = ground (arith, deletes-none (contains retained j) (get j wanted))
  effect-deletes wanted ((id, event) ∷ held) s = ground (
    arith,
    effect-deletes wanted held s.1,
    get-Above id held s.0,
    eq_iff id j,
    deletes-none (contains retained j) (get j wanted),
  )

join :
    (b : Bool) (w h : Option DesiredEvent)
    → or_keep (first (first (deletes b w h) (updates b w h)) (creates b w h)) h ≡ outcome b w h
join true none none = refl
join true none (some x) = refl
join true (some e) none = refl
join true (some e) (some x) = refl
join false none none = refl
join false none (some x) = refl
join false (some e) none = refl
join false (some e) (some x) = ground arith

-- Whatever the two event lists and the retained ids are, landing the operations of `diff` in order
-- on the existing events makes every external id read its `outcome`: a retained id reads what it
-- read before, an unwanted one nothing, a wanted one the wanted event, or its old event where that
-- has the same managed fields.
pub get-land_all-diff :
    (desired existing : List DesiredEvent) (retained : StringSet) (id : String)
    → get id (land_all (diff desired existing retained) (by_external_id existing))
      ≡ outcome
          (contains retained id)
          (get id (by_external_id desired))
          (get id (by_external_id existing))
unfolding diff by_external_id
get-land_all-diff desired existing retained id =
    let wanted = by_external_id desired in
    let held = by_external_id existing in
    let ws = collect-IsSorted (λ e. e.external_id) desired in
    let wk = collect-IsKeyed (λ e. e.external_id) desired in
    let hs = collect-IsSorted (λ e. e.external_id) existing in
    get-land_all id (diff desired existing retained) held
    ∙ rw
        (
          effect-append id (pending held retained wanted).0
              ((pending held retained wanted).1 ++ obsolete wanted retained held),
          effect-append id (pending held retained wanted).1 (obsolete wanted retained held),
          effect-creates id retained held wanted ws wk,
          effect-updates id retained held wanted ws wk,
          effect-deletes id retained wanted held hs,
        )
        (join (contains retained id) (get id wanted) (get id held))
