-- ===== src/Calendar/Diff/Converge.antt =====
-- Projecting again once every operation has landed: there is nothing left to do.
use ubu_orchestrator.Base.{
  String, eq_iff, Bool, true, false, Option, none, some, List, [], ◌∷◌, ◌≡◌, refl, arith, ◌∙◌,
}
use ubu_orchestrator.Base.Order.{str_ord}
use ubu_orchestrator.Base.TreeMap.{
  get, values, IsSorted, IsKeyed, All-get, All-insert, All-remove, insert-IsSorted, remove-IsSorted,
  get-collect-values, collect-IsSorted, collect-IsKeyed,
}
use ubu_orchestrator.Calendar.Event.{
  DesiredEvent, Events, same_managed_fields, same_managed_fields_refl, by_external_id,
}
use ubu_orchestrator.Calendar.Diff.{
  CalendarOperation, create, update, delete, StringSet, contains, pending, obsolete, diff, land,
  land_all,
}
use ubu_orchestrator.Calendar.Diff.Landing.{outcome, get-land_all-diff}
use ubu_orchestrator.Base.{All, All-map, is_some, ◌||◌}

abbrev Keyed : Events → Type 0
Keyed = IsKeyed (λ e. e.external_id)

-- A landed operation keeps the events in the order of their ids, each under its own id.
land-IsSorted : (op : CalendarOperation) (m : Events) → IsSorted m → IsSorted (land op m)
unfolding land
land-IsSorted (create e) m h = insert-IsSorted e.external_id e m h
land-IsSorted (update e) m h = insert-IsSorted e.external_id e m h
land-IsSorted (delete id s) m h = remove-IsSorted id m h

land-Keyed : (op : CalendarOperation) (m : Events) → Keyed m → Keyed (land op m)
unfolding land
land-Keyed (create e) m h = All-insert _ e.external_id e m ((eq_iff _ _).1 refl) h
land-Keyed (update e) m h = All-insert _ e.external_id e m ((eq_iff _ _).1 refl) h
land-Keyed (delete id s) m h = All-remove _ id m h

pub land_all-IsSorted :
    (ops : List CalendarOperation) (m : Events) → IsSorted m → IsSorted (land_all ops m)
unfolding land_all
land_all-IsSorted [] m h = h
land_all-IsSorted (op ∷ ops) m h = land_all-IsSorted ops (land op m) (land-IsSorted op m h)

pub land_all-Keyed : (ops : List CalendarOperation) (m : Events) → Keyed m → Keyed (land_all ops m)
unfolding land_all
land_all-Keyed [] m h = h
land_all-Keyed (op ∷ ops) m h = land_all-Keyed ops (land op m) (land-Keyed op m h)

-- A wanted event that asks for no operation, and a held id that asks for no deletion.
abbrev is_settled : Bool → DesiredEvent → Option DesiredEvent → Bool
is_settled true event held = true
is_settled false event none = false
is_settled false event (some old) = same_managed_fields old event

abbrev is_wanted : Bool → Option DesiredEvent → Bool
is_wanted retained wanted = is_some wanted || retained

pending-nil :
    (held wanted : Events) (retained : StringSet)
    → All (λ e. is_settled (contains retained e.0) e.1 (get e.0 held) ≡ true) wanted
    → pending held retained wanted ≡ ([], [])
unfolding pending
pending-nil held [] retained h = refl
pending-nil held ((id, e) ∷ wanted) retained h =
    ground (arith, pending-nil held wanted retained h.1, h.0)

obsolete-nil :
    (wanted held : Events) (retained : StringSet)
    → All (λ e. is_wanted (contains retained e.0) (get e.0 wanted) ≡ true) held
    → obsolete wanted retained held ≡ []
unfolding obsolete
obsolete-nil wanted [] retained h = refl
obsolete-nil wanted ((id, e) ∷ held) retained h =
    ground (arith, obsolete-nil wanted held retained h.1, h.0)

settled_outcome :
    (b : Bool) (e : DesiredEvent) (w h g : Option DesiredEvent)
    → w ≡ some e
    → g ≡ outcome b w h
    → is_settled b e g ≡ true
settled_outcome b e w h g p q = rw (q, p) (go b h)
  where
    go : (b : Bool) (h : Option DesiredEvent) → is_settled b e (outcome b (some e) h) ≡ true
    go true h = refl
    go false none = same_managed_fields_refl e
    go false (some old) = ground (arith, same_managed_fields_refl e)

wanted_outcome :
    (b : Bool) (e : DesiredEvent) (w h g : Option DesiredEvent)
    → g ≡ some e
    → g ≡ outcome b w h
    → is_wanted b w ≡ true
wanted_outcome b e w h g p q = ground arith

-- Once every operation of a preview has landed, a second preview of the same desired events, the
-- same retained ids and the events that are now applied has no operation.
pub diff-land_all-diff :
    (desired existing : List DesiredEvent) (retained : StringSet)
    → diff desired
        (values (land_all (diff desired existing retained) (by_external_id existing)))
        retained
      ≡ []
unfolding diff by_external_id
diff-land_all-diff desired existing retained = rw (
  pending-nil again wanted retained (All-map _ _ settles wanted (All-get wanted ws)),
  obsolete-nil wanted again retained (All-map _ _ stays again (All-get again again_sorted)),
)
  where
    wanted : Events
    wanted = by_external_id desired

    held : Events
    held = by_external_id existing

    landed : Events
    landed = land_all (diff desired existing retained) held

    again : Events
    again = by_external_id (values landed)

    ws : IsSorted wanted
    ws = collect-IsSorted (λ e. e.external_id) desired

    again_sorted : IsSorted again
    again_sorted = collect-IsSorted (λ e. e.external_id) (values landed)

    reads :
        (id : String) → get id again ≡ outcome (contains retained id) (get id wanted) (get id held)
    reads id =
        get-collect-values (λ e. e.external_id) id landed
          (land_all-IsSorted (diff desired existing retained) held
            (collect-IsSorted (λ e. e.external_id) existing))
          (land_all-Keyed (diff desired existing retained) held
            (collect-IsKeyed (λ e. e.external_id) existing))
        ∙ get-land_all-diff desired existing retained id

    settles :
        (e : String × DesiredEvent)
        → get e.0 wanted ≡ some e.1
        → is_settled (contains retained e.0) e.1 (get e.0 again) ≡ true
    settles e h =
        settled_outcome (contains retained e.0) e.1 (get e.0 wanted) (get e.0 held) (get e.0 again)
          h (reads e.0)

    stays :
        (e : String × DesiredEvent)
        → get e.0 again ≡ some e.1
        → is_wanted (contains retained e.0) (get e.0 wanted) ≡ true
    stays e h =
        wanted_outcome (contains retained e.0) e.1 (get e.0 wanted) (get e.0 held) (get e.0 again) h
          (reads e.0)
