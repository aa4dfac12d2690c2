-- ===== src/Planning/Collisions.antt =====
-- src/services/planning_service.rs: the entry of a colliding pair of Static Tasks, and the warning
-- about it. The entries are a `BTreeMap` under a start and two ids.
use ubu_orchestrator.Base.{
  ℕ, String, Bool, true, false, not, ◌&&◌, ◌||◌, Option, none, some, ltb, ◌==◌, if◌then◌else◌, ◌≡◌,
  refl, sym, ◌∙◌, str_eq, eq_iff, arith, Bool-cases, inl, inr, ◌⊎◌,
}
use mathlib.Core.Bool.{false≢true}
use ubu_orchestrator.Base.Order.{str_ord, str_lt, lt_asymm}
use ubu_orchestrator.Base.TreeMap.{TreeMap, get}
use ubu_orchestrator.Calendar.Capture.{DiagnosticBody, ◌<>◌}
use ubu_orchestrator.Planning.Window.{TimeWindow}

pub record StaticConflict : Type 0 where
  pub overlap : Bool
  pub precedence : Option (String × String)

-- `(first_window.start, first) <= (second_window.start, second)`
abbrev pub comes_first : String → TimeWindow → String → TimeWindow → Bool
comes_first a v b w = ltb v.start w.start || (v.start == w.start && not (str_lt b a))

-- The key of the entry that `add_static_conflict` returns.
unfoldable pub conflict_key : String → TimeWindow → String → TimeWindow → ℕ × String × String
conflict_key a v b w = if comes_first a v b w then (v.start, a, b) else (w.start, b, a)

unfoldable pub name_of : TreeMap String String → String → String
name_of titles id = elim (get id titles) [
  | none ↦ "`" <> id <> "`"
  | some title ↦ "“" <> title <> "” (`" <> id <> "`)"
]

abbrev collision_message : TreeMap String String → String → String → StaticConflict → String
collision_message titles first second conflict = elim conflict.precedence [
  | none ↦
      "Static Tasks "
      <> name_of titles first
      <> " and "
      <> name_of titles second
      <> " overlap; both keep their fixed windows and stay on the Calendar, and the whole span is busy"
  | some (dependent, prerequisite) ↦
      "Static Task "
      <> name_of titles dependent
      <> " depends on "
      <> name_of titles prerequisite
      <> ", which ends after it starts; both keep their fixed windows and stay on the Calendar, and the dependency is not enforced"
      <> (if conflict.overlap then "; the whole span is busy" else "")
]

unfoldable pub static_collision_diagnostic :
    String → String → StaticConflict → TreeMap String String → DiagnosticBody
unfolding name_of
static_collision_diagnostic first second conflict titles = record {
  code = "static_task_collision";
  message = collision_message titles first second conflict;
}

unfoldable pub exclusion_diagnostic : String → Bool → String → String → DiagnosticBody
exclusion_diagnostic id mandatory code reason =
    if mandatory
    then record {
      code = "mandatory_occurrence_unplaceable";
      message =
          "Mandatory routine occurrence `" <> id <> "` was left out of the Plan: " <> reason
          <> "; do it late, skip it, or change other commitments";
    }
    else record {
      code = code;
      message = "Task `" <> id <> "` was left out of the Plan: " <> reason;
    }

-- A pair of Tasks has one key, whichever of the two is named first.
pub conflict_key_comm :
    (a : String) (v : TimeWindow) (b : String) (w : TimeWindow)
    → conflict_key a v b w ≡ conflict_key b w a v
unfolding conflict_key
conflict_key_comm a v b w = go (Bool-cases (comes_first a v b w)) (Bool-cases (comes_first b w a v))
  where
    same_id : str_lt a b ≡ false → str_lt b a ≡ false → a ≡ b
    same_id h k = elim (Bool-cases (str_eq a b)) [
      | inl e ↦ (eq_iff a b).0 e
      | inr e ↦ absurd (false≢true (sym k ∙ str_ord.lt_total a b h e))
    ]

    key : (m n : ℕ) (x y : String) → m ≡ n → x ≡ y → Path (ℕ × String × String) (m, x, y) (n, y, x)
    key m n x y h k = cc

    go :
        (comes_first a v b w ≡ true) ⊎ (comes_first a v b w ≡ false)
        → (comes_first b w a v ≡ true) ⊎ (comes_first b w a v ≡ false)
        → conflict_key a v b w ≡ conflict_key b w a v
    go (inl e) (inl f) =
        rw (e, f)
          (key v.start w.start a b (ground (arith, e, f))
            (same_id (ground (arith, e, f)) (ground (arith, e, f))))
    go (inl e) (inr f) = rw (e, f) refl
    go (inr e) (inl f) = rw (e, f) refl
    go (inr e) (inr f) = absurd (ground (arith, e, f, lt_asymm str_ord a b, lt_asymm str_ord b a))
