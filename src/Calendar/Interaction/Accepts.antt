-- ===== src/Calendar/Interaction/Accepts.antt =====
-- What `accept_observation` leaves in the applied events.
use ubu_orchestrator.Base.{
  String, str_eq, eq_iff, true, false, ◌&&◌, Option, none, some, List, [], ◌∷◌, ◌≡◌, refl, sym, ap,
  subst, ◌∙◌, is_some, if◌then◌else◌, arith, Bool-cases, inl, inr, ◌⊎◌,
}
use mathlib.Core.Bool.{true≢false}
use ubu_orchestrator.Calendar.Event.{DesiredEvent}
use ubu_orchestrator.Calendar.Interaction.{with_id, replace_first, accept_observation}

got : {A : Type 0} {a b : A} → some a ≡ some b → a ≡ b
got h = cc

pub with_id-names :
    (id : String) (es : List DesiredEvent) (e : DesiredEvent)
    → with_id id es ≡ some e
    → str_eq e.external_id id ≡ true
with_id-names id [] e h = absurd (cc)
with_id-names id (x ∷ es) e h = elim (Bool-cases (str_eq x.external_id id)) [
  | inl q ↦ let g : x ≡ e = got (rw q at h) in ap (λ y. str_eq y.external_id id) (sym g) ∙ q
  | inr q ↦ with_id-names id es e (rw q at h)
]

with_id-replace_first :
    (id : String) (current : DesiredEvent) (es : List DesiredEvent)
    → str_eq current.external_id id ≡ true
    → (j : String)
    → with_id j (replace_first id current es)
      ≡ (if str_eq id j && is_some (with_id id es) then some current else with_id j es)
unfolding replace_first
with_id-replace_first id current [] h j = ground arith
with_id-replace_first id current (e ∷ es) h j =
    let rest = with_id-replace_first id current es h j in
    go (Bool-cases (str_eq e.external_id id)) rest
  where
    go :
        (str_eq e.external_id id ≡ true) ⊎ (str_eq e.external_id id ≡ false)
        → with_id j (replace_first id current es)
          ≡ (if str_eq id j && is_some (with_id id es) then some current else with_id j es)
        → with_id j (replace_first id current (e ∷ es)) ≡ (
            if str_eq id j && is_some (with_id id (e ∷ es))
            then some current
            else with_id j (e ∷ es))
    go (inl q) rest =
        let a = (eq_iff current.external_id id).0 h in
        let b = (eq_iff e.external_id id).0 q in
        rw q (
          subst
            (λ x. (if str_eq x j then some current else with_id j es) ≡ (
              if str_eq id j && true
              then some current
              else (if str_eq e.external_id j then some e else with_id j es)))
            (sym a)
            (subst
              (λ x. (if str_eq id j then some current else with_id j es) ≡ (
                if str_eq id j && true
                then some current
                else (if str_eq x j then some e else with_id j es)))
              (sym b) (ground arith)))
    go (inr q) rest = rw q (elim (Bool-cases (str_eq e.external_id j)) [
      | inr r ↦ ground (arith, r, rest)
      | inl r ↦ ground (arith, r, other r)
    ])
      where
        other : str_eq e.external_id j ≡ true → str_eq id j ≡ false
        other r = elim (Bool-cases (str_eq id j)) [
          | inr f ↦ f
          | inl f ↦ absurd (true≢false (sym (same r f) ∙ q))
        ]
          where
            same :
                str_eq e.external_id j ≡ true → str_eq id j ≡ true → str_eq e.external_id id ≡ true
            same r f =
                (eq_iff e.external_id id).1 ((eq_iff e.external_id j).0 r ∙ sym ((eq_iff id j).0 f))

-- After an observed event is accepted, the applied event of its id, if there was one, is the one
-- observed, and every other id has the applied event that it had.
pub with_id-accept_observation :
    (external_id j : String) (observed applied : List DesiredEvent)
    → with_id j (accept_observation external_id observed applied) ≡ (
        if str_eq external_id j
          && (is_some (with_id external_id applied) && is_some (with_id external_id observed))
        then with_id external_id observed
        else with_id j applied)
unfolding accept_observation
with_id-accept_observation external_id j observed applied = go (with_id external_id observed) refl
  where
    go :
        (o : Option DesiredEvent)
        → with_id external_id observed ≡ o
        → with_id j
            (elim o [ none ↦ applied | some current ↦ replace_first external_id current applied ])
          ≡ (if str_eq external_id j && (is_some (with_id external_id applied) && is_some o)
              then o
              else with_id j applied)
    go none h = ground arith
    go (some c) h =
        with_id-replace_first external_id c applied (with_id-names external_id observed c h) j
        ∙ ground arith
