-- ===== src/Calendar/Diff/Effect.antt =====
-- What a sequence of landed operations does to one external id: the last operation on it decides.
use ubu_orchestrator.Base.{
  String, str_eq, Bool, Option, none, some, List, [], ◌∷◌, ◌++◌, ◌≡◌, refl, arith, if◌then◌else◌,
  ◌∙◌, ap,
}
use ubu_orchestrator.Base.Order.{str_ord}
use ubu_orchestrator.Base.TreeMap.{get, get-insert, get-remove}
use ubu_orchestrator.Calendar.Event.{DesiredEvent, Events}
use ubu_orchestrator.Calendar.Diff.{
  CalendarOperation, create, update, delete, operation_id, land, land_all,
}

-- What an id reads after an operation on it.
abbrev pub result : CalendarOperation → Option DesiredEvent
result (create event) = some event
result (update event) = some event
result (delete id summary) = none

abbrev pub first {ℓ} : {A : Type ℓ} → Option A → Option A → Option A
first none d = d
first (some a) d = some a

abbrev pub or_keep {ℓ} : {A : Type ℓ} → Option A → A → A
or_keep none d = d
or_keep (some a) d = a

-- The last operation on `j`, by its result; `none` where no operation is on it.
unfoldable pub effect : String → List CalendarOperation → Option (Option DesiredEvent)
effect j [] = none
effect j (op ∷ ops) =
    first (effect j ops) (if str_eq (operation_id op) j then some (result op) else none)

get-land :
    (j : String) (op : CalendarOperation) (m : Events)
    → get j (land op m) ≡ (if str_eq (operation_id op) j then result op else get j m)
unfolding land
get-land j (create e) m = get-insert j e.external_id e m
get-land j (update e) m = get-insert j e.external_id e m
get-land j (delete id s) m = get-remove j id m

keep_cases :
    (x : Option (Option DesiredEvent)) (b : Bool) (r g : Option DesiredEvent)
    → or_keep x (if b then r else g) ≡ or_keep (first x (if b then some r else none)) g
keep_cases x b r g = ground arith

-- An id reads the result of the last operation on it, or what it read before.
pub get-land_all :
    (j : String) (ops : List CalendarOperation) (m : Events)
    → get j (land_all ops m) ≡ or_keep (effect j ops) (get j m)
unfolding land_all effect
get-land_all j [] m = refl
get-land_all j (op ∷ ops) m =
    get-land_all j ops (land op m)
    ∙ ap (or_keep (effect j ops)) (get-land j op m)
    ∙ keep_cases (effect j ops) (str_eq (operation_id op) j) (result op) (get j m)

first_assoc {ℓ} : {A : Type ℓ} (x y z : Option A) → first (first x y) z ≡ first x (first y z)
first_assoc none y z = refl
first_assoc (some x) y z = refl

pub effect-append :
    (j : String) (xs ys : List CalendarOperation)
    → effect j (xs ++ ys) ≡ first (effect j ys) (effect j xs)
unfolding effect
effect-append j [] ys = first_none (effect j ys)
  where
    first_none : (x : Option (Option DesiredEvent)) → x ≡ first x none
    first_none none = refl
    first_none (some x) = refl
effect-append j (x ∷ xs) ys = rw (effect-append j xs ys) (
    first_assoc (effect j ys) (effect j xs)
      (if str_eq (operation_id x) j then some (result x) else none))
