-- ===== src/Calendar/Event.antt =====
-- src/services/calendar_projection.rs: `DesiredEvent` and `same_managed_fields`.
use ubu_orchestrator.Base.{
  String, str_eq, eq_iff, Bool, true, false, ◌&&◌, Option, none, some, List, [], ◌∷◌, ◌≡◌, ◌↔◌,
  refl, arith,
}
use ubu_orchestrator.Base.Int.{ℤ, eq_ℤ, eq_ℤ_iff}
use ubu_orchestrator.Base.Order.{str_ord}
use ubu_orchestrator.Base.TreeMap.{TreeMap, collect}
use ubu_orchestrator.Base.Distinct.{Distinct}

pub record DesiredEvent : Type 0 where
  pub external_id : String
  pub task_id : String
  pub summary : String
  pub description : Option String
  pub start_at : String
  pub end_at : String
  pub color_id : Option String
  pub transparent : Bool
  pub reminders_minutes : List ℤ

abbrev pub opt_eq : Option String → Option String → Bool
opt_eq none none = true
opt_eq (some a) (some b) = str_eq a b
opt_eq _ _ = false

abbrev pub bool_eq : Bool → Bool → Bool
bool_eq true b = b
bool_eq false true = false
bool_eq false false = true

abbrev pub ints_eq : List ℤ → List ℤ → Bool
ints_eq [] [] = true
ints_eq (a ∷ as') (b ∷ bs) = eq_ℤ a b && ints_eq as' bs
ints_eq _ _ = false

-- The fields that UbU writes: all but the description.
unfoldable pub same_managed_fields : DesiredEvent → DesiredEvent → Bool
same_managed_fields self other =
    str_eq self.external_id other.external_id
    && str_eq self.task_id other.task_id
    && str_eq self.summary other.summary
    && str_eq self.start_at other.start_at
    && str_eq self.end_at other.end_at
    && opt_eq self.color_id other.color_id
    && bool_eq self.transparent other.transparent
    && ints_eq self.reminders_minutes other.reminders_minutes

pub opt_eq_iff : (a b : Option String) → (opt_eq a b ≡ true) ↔ (a ≡ b)
opt_eq_iff none none = ground arith
opt_eq_iff none (some b) = ground arith
opt_eq_iff (some a) none = ground arith
opt_eq_iff (some a) (some b) = ground (arith, eq_iff a b)

bool_eq_iff : (a b : Bool) → (bool_eq a b ≡ true) ↔ (a ≡ b)
bool_eq_iff a b = ground arith

ints_eq_iff : (a b : List ℤ) → (ints_eq a b ≡ true) ↔ (a ≡ b)
ints_eq_iff [] [] = ground arith
ints_eq_iff [] (b ∷ bs) = ground arith
ints_eq_iff (a ∷ as') [] = ground arith
ints_eq_iff (a ∷ as') (b ∷ bs) = ground (arith, eq_ℤ_iff a b, ints_eq_iff as' bs)

-- What UbU manages of an event: the event without its description.
abbrev pub managed : DesiredEvent → DesiredEvent
managed e = record e { description = none }

-- Two events have the same managed fields exactly when they are equal but for the description.
pub same_managed_fields_iff :
    (a b : DesiredEvent) → (same_managed_fields a b ≡ true) ↔ (managed a ≡ managed b)
unfolding same_managed_fields
same_managed_fields_iff a b = (to a b, from a b)
  where
    to : (a b : DesiredEvent) → same_managed_fields a b ≡ true → managed a ≡ managed b
    to a b h = ground (
      arith,
      eq_iff a.external_id b.external_id,
      eq_iff a.task_id b.task_id,
      eq_iff a.summary b.summary,
      eq_iff a.start_at b.start_at,
      eq_iff a.end_at b.end_at,
      opt_eq_iff a.color_id b.color_id,
      bool_eq_iff a.transparent b.transparent,
      ints_eq_iff a.reminders_minutes b.reminders_minutes,
    )

    from : (a b : DesiredEvent) → managed a ≡ managed b → same_managed_fields a b ≡ true
    from a b h = ground (
      arith,
      eq_iff a.external_id b.external_id,
      eq_iff a.task_id b.task_id,
      eq_iff a.summary b.summary,
      eq_iff a.start_at b.start_at,
      eq_iff a.end_at b.end_at,
      opt_eq_iff a.color_id b.color_id,
      bool_eq_iff a.transparent b.transparent,
      ints_eq_iff a.reminders_minutes b.reminders_minutes,
    )

pub same_managed_fields_refl : (a : DesiredEvent) → same_managed_fields a a ≡ true
same_managed_fields_refl a = (same_managed_fields_iff a a).1 refl

abbrev pub event_id : DesiredEvent → String
event_id e = e.external_id

-- No external id stands for two events of the list.
abbrev pub HasDistinctIds : List DesiredEvent → Type 0
HasDistinctIds = Distinct event_id

-- A set of events as the code keys it: `BTreeMap` from the external id.
abbrev pub Events : Type 0
Events = TreeMap String DesiredEvent

unfoldable pub by_external_id : List DesiredEvent → Events
by_external_id = collect (λ e. e.external_id)
