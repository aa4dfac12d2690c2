-- ===== src/Calendar/Preview/Kept.antt =====
-- The operations of a preview leave the events of completed Tasks and the source events of captured
-- Tasks alone.
use ubu_orchestrator.Base.{
  String, str_eq, eq_iff, Bool, true, not, ◌&&◌, ◌||◌, some, List, [], ◌∷◌, ◌++◌, ◌≡◌, refl, ap,
  ◌∙◌, any, retain, All, arith, inl, inr, Bool-cases, Option-cases,
}
use ubu_orchestrator.Base.Order.{str_ord}
use ubu_orchestrator.Base.TreeMap.{
  TreeMap, get, contains_key, IsSorted, All-get, values, collect-IsSorted,
}
use ubu_orchestrator.Calendar.Event.{DesiredEvent, Events, same_managed_fields, by_external_id}
use ubu_orchestrator.Calendar.Diff.{
  CalendarOperation, StringSet, contains, pending, obsolete, diff, land_all,
}
use ubu_orchestrator.Calendar.Diff.Landing.{outcome, get-land_all-diff}
use ubu_orchestrator.Calendar.Preview.{spares_sources, preview_operations}

-- The sources of the captured Tasks that the desired events leave out, with the retained ids.
abbrev pub spared : TreeMap String String → StringSet → List DesiredEvent → StringSet
spared origins retained desired =
    retained ++ retain (λ id. not (contains_key id (by_external_id desired))) (values origins)

contains-append :
    (as' bs : StringSet) (id : String) → contains (as' ++ bs) id ≡ contains as' id || contains bs id
unfolding contains
contains-append [] bs id = refl
contains-append (a ∷ as') bs id = ground (arith, contains-append as' bs id)

contains-retain :
    (p : String → Bool) (as' : StringSet) (id : String)
    → contains (retain p as') id ≡ p id && any (λ a. str_eq a id) as'
unfolding contains
contains-retain p [] id = ground arith
contains-retain p (a ∷ as') id = ground (arith, contains-retain p as' id, eq_iff a id, eq_iff id a)

module _ (origins : TreeMap String String) (retained : StringSet)
    (desired : List DesiredEvent) where
  abbrev wanted : Events
  wanted = by_external_id desired

  contains-spared :
      (id : String)
      → contains (spared origins retained desired) id
        ≡ contains retained id
          || (not (contains_key id (by_external_id desired))
              && any (λ origin. str_eq origin id) (values origins))
  contains-spared id =
      contains-append retained (retain (λ k. not (contains_key k wanted)) (values origins)) id
      ∙ ap (λ b. contains retained id || b)
          (contains-retain (λ k. not (contains_key k wanted)) (values origins) id)

  -- What is wanted is spared only where it is retained.
  pending-spared :
      (held part : Events)
      → All (λ e. get e.0 (by_external_id desired) ≡ some e.1) part
      → pending held (spared origins retained desired) part ≡ pending held retained part
  unfolding pending
  pending-spared held [] h = refl
  pending-spared held ((id, e) ∷ part) h =
      let same : contains (spared origins retained desired) id ≡ contains retained id =
        contains-spared id ∙ rw h.0 (ground arith) in
      ground (arith, same, pending-spared held part h.1)

  obsolete-spared :
      (held : Events)
      → obsolete wanted (spared origins retained desired) held
        ≡ retain (spares_sources origins) (obsolete wanted retained held)
  unfolding obsolete
  obsolete-spared [] = refl
  obsolete-spared ((id, e) ∷ held) = ground (arith, obsolete-spared held, contains-spared id)

retain-append :
    (p : CalendarOperation → Bool) (xs ys : List CalendarOperation)
    → retain p (xs ++ ys) ≡ retain p xs ++ retain p ys
retain-append p [] ys = refl
retain-append p (x ∷ xs) ys = ground (arith, retain-append p xs ys)

retain_all :
    (p : CalendarOperation → Bool) (xs : List CalendarOperation)
    → All (λ x. p x ≡ true) xs
    → retain p xs ≡ xs
retain_all p [] h = refl
retain_all p (x ∷ xs) h = rw (h.0, retain_all p xs h.1)

module _ (origins : TreeMap String String) (held : Events) (retained : StringSet) where
  pending-spares :
      (part : Events)
      → All (λ o. spares_sources origins o ≡ true) (pending held retained part).0
        × All (λ o. spares_sources origins o ≡ true) (pending held retained part).1
  unfolding pending
  pending-spares [] = (tt, tt)
  pending-spares ((id, e) ∷ part) =
      let rest = pending-spares part in
      elim (Bool-cases (contains retained id)) [
        | inl k ↦ rw k rest
        | inr k ↦ rw k (elim (Option-cases (get id held)) [
          | inl n ↦ rw n ((refl, rest.0), rest.1)
          | inr (old, o) ↦ rw o (elim (Bool-cases (same_managed_fields old e)) [
            | inl same ↦ rw same rest
            | inr other ↦ rw other (rest.0, (refl, rest.1))
          ])
        ])
      ]

-- The operations of a preview are those of `diff` with the sources that the plan leaves out retained.
pub preview_operations-diff :
    (origins : TreeMap String String) (retained : StringSet) (desired existing : List DesiredEvent)
    → preview_operations origins retained desired existing
      ≡ diff desired existing (spared origins retained desired)
unfolding preview_operations diff by_external_id
preview_operations-diff origins retained desired existing =
    let wanted = by_external_id desired in
    let held = by_external_id existing in
    let p = spares_sources origins in
    let ops = pending held retained wanted in
    let all = pending-spares origins held retained wanted in
    let same =
      pending-spared origins retained desired held wanted
        (All-get wanted (wanted_sorted desired)) in
    retain-append p ops.0 (ops.1 ++ obsolete wanted retained held)
    ∙ ap (λ l. retain p ops.0 ++ l) (retain-append p ops.1 (obsolete wanted retained held))
    ∙ rw (
      retain_all p ops.0 all.0,
      retain_all p ops.1 all.1,
      same,
      obsolete-spared origins retained desired held,
    )
  where
    wanted_sorted : (desired : List DesiredEvent) → IsSorted (by_external_id desired)
    wanted_sorted desired = collect-IsSorted (λ e. e.external_id) desired

-- What an external id reads once the operations of a preview have landed: what it read before, where
-- it is retained as the event of a completed Task, or is the source of a captured Task that the
-- desired events leave out; and otherwise the `outcome` of the desired event and the applied one.
pub get-land_all-preview_operations :
    (origins : TreeMap String String) (retained : StringSet) (desired existing : List DesiredEvent)
    (id : String)
    → get id
        (land_all (preview_operations origins retained desired existing) (by_external_id existing))
      ≡ outcome
          (contains retained id
            || (not (contains_key id (by_external_id desired))
                && any (λ origin. str_eq origin id) (values origins)))
          (get id (by_external_id desired))
          (get id (by_external_id existing))
get-land_all-preview_operations origins retained desired existing id =
    ap (λ ops. get id (land_all ops (by_external_id existing)))
      (preview_operations-diff origins retained desired existing)
    ∙ get-land_all-diff desired existing (spared origins retained desired) id
    ∙ ap (λ b. outcome b (get id (by_external_id desired)) (get id (by_external_id existing)))
        (contains-spared origins retained desired id)
