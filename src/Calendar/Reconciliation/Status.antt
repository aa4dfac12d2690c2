-- ===== src/Calendar/Reconciliation/Status.antt =====
-- What the status of a stored reconciliation says of the applied and the observed events.
use ubu_orchestrator.Base.{
  String, str_eq, eq_iff, Bool, true, false, ◌||◌, Option, none, some, List, [], ◌∷◌, ◌≡◌, ◌≢◌, ◌↔◌,
  ◌⊎◌, refl, any, All, Any, arith, inl, inr, Bool-cases, subst, Option-cases,
}
use ubu_orchestrator.Calendar.Event.{DesiredEvent}
use ubu_orchestrator.Calendar.Diff.{StringSet}
use ubu_orchestrator.Calendar.Reconcile.{CalendarConflict, classify}
use ubu_orchestrator.Calendar.Reconcile.Kinds.{kind_of, IsReport, classify_sound, classify_complete}
use ubu_orchestrator.Calendar.Reconciliation.{has_type, status_of}

abbrev is_lost : CalendarConflict → Bool
is_lost c = has_type "drifted" c || has_type "missing" c

-- The id's applied event is missing from the calendar, or has drifted there.
abbrev pub IsLost : Option String → Type 0
IsLost k = (k ≡ some "drifted") ⊎ (k ≡ some "missing")

any-found :
    (f : String → Option String) (cs : List CalendarConflict)
    → All (λ c. f c.external_id ≡ some c.conflict_type) cs
    → any is_lost cs ≡ true
    → (id : String) × IsLost (f id)
any-found f [] s h = absurd (cc)
any-found f (c ∷ cs) s h = elim (Bool-cases (str_eq c.conflict_type "drifted")) [
  | inl e ↦
      let drifted : c.conflict_type ≡ "drifted" = (eq_iff c.conflict_type "drifted").0 e in
      (c.external_id, inl (cc (s.0, drifted)))
  | inr e ↦ elim (Bool-cases (str_eq c.conflict_type "missing")) [
    | inl g ↦
        let missing : c.conflict_type ≡ "missing" = (eq_iff c.conflict_type "missing").0 g in
        (c.external_id, inr (cc (s.0, missing)))
    | inr g ↦ any-found f cs s.1 (rw (e, g) at h)
  ]
]

any-reported :
    (k id : String) (cs : List CalendarConflict)
    → (k ≡ "drifted") ⊎ (k ≡ "missing")
    → Any (IsReport id k) cs
    → any is_lost cs ≡ true
any-reported k id [] l h = elim h [ ]
any-reported k id (c ∷ cs) (inl l) (inl r) =
    ground (arith, r.1, l, eq_iff c.conflict_type "drifted", eq_iff c.conflict_type "missing")
any-reported k id (c ∷ cs) (inr l) (inl r) =
    ground (arith, r.1, l, eq_iff c.conflict_type "drifted", eq_iff c.conflict_type "missing")
any-reported k id (c ∷ cs) l (inr h) = ground (arith, any-reported k id cs l h)

-- Texts that the test tells apart are different.
ne_of_test : (a b : String) → str_eq a b ≡ false → a ≢ b
ne_of_test a b n h = ground (arith, eq_iff a b)

status_of-drifted :
    (cs : List CalendarConflict) → (status_of cs ≡ "drifted") ↔ (any is_lost cs ≡ true)
unfolding status_of
status_of-drifted [] = ((λ h. absurd (ne_of_test "matched" "drifted" refl h)), (λ h. cc))
status_of-drifted (c ∷ cs) = elim (Bool-cases (any is_lost (c ∷ cs))) [
  | inl e ↦ rw e ((λ h. refl), (λ h. refl))
  | inr e ↦ rw e ((λ h. absurd (ne_of_test "observed" "drifted" refl h)), (λ h. cc))
]

status_of-matched : (cs : List CalendarConflict) → (status_of cs ≡ "matched") ↔ (cs ≡ [])
unfolding status_of
status_of-matched [] = ((λ h. refl), (λ h. refl))
status_of-matched (c ∷ cs) = elim (Bool-cases (any is_lost (c ∷ cs))) [
  | inl e ↦ rw e ((λ h. absurd (ne_of_test "drifted" "matched" refl h)), (λ h. absurd (cons_nil h)))
  | inr e ↦
      rw e ((λ h. absurd (ne_of_test "observed" "matched" refl h)), (λ h. absurd (cons_nil h)))
]
  where
    cons_nil : (c ∷ cs) ≢ []
    cons_nil h = cc

module _ (applied observed : List DesiredEvent) (known created : StringSet) where
  abbrev conflicts : List CalendarConflict
  conflicts = classify applied observed known created

  abbrev finds : String → Option String
  finds = kind_of applied observed known

  -- The status is `drifted` exactly when some applied event is missing from the calendar or has
  -- drifted there; and `matched` exactly when no external id is in any conflict.
  pub status_of_iff :
      ((status_of (classify applied observed known created) ≡ "drifted")
        ↔ ((id : String) × IsLost (kind_of applied observed known id)))
      × ((status_of (classify applied observed known created) ≡ "matched")
          ↔ ((id : String) → kind_of applied observed known id ≡ none))
  status_of_iff = ((to, from), (clear, empty))
    where
      to : status_of conflicts ≡ "drifted" → (id : String) × IsLost (finds id)
      to h =
          any-found finds conflicts (classify_sound applied observed known created)
            ((status_of-drifted conflicts).0 h)

      reported :
          (id k : String)
          → (k ≡ "drifted") ⊎ (k ≡ "missing")
          → finds id ≡ some k
          → status_of conflicts ≡ "drifted"
      reported id k l e =
          (status_of-drifted conflicts).1 (
            any-reported k id conflicts l (classify_complete applied observed known created id k e))

      from : ((id : String) × IsLost (finds id)) → status_of conflicts ≡ "drifted"
      from (id, inl e) = reported id "drifted" (inl refl) e
      from (id, inr e) = reported id "missing" (inr refl) e

      not_reported : (id k : String) → conflicts ≡ [] → finds id ≡ some k → ⊥
      not_reported id k e h =
          subst (Any (IsReport id k)) e (classify_complete applied observed known created id k h)

      clear : status_of conflicts ≡ "matched" → (id : String) → finds id ≡ none
      clear h id = elim (Option-cases (finds id)) [
        | inl e ↦ e
        | inr (k, e) ↦ absurd (not_reported id k ((status_of-matched conflicts).0 h) e)
      ]

      none_found :
          (cs : List CalendarConflict)
          → All (λ c. finds c.external_id ≡ some c.conflict_type) cs
          → ((id : String) → finds id ≡ none)
          → cs ≡ []
      none_found [] s h = refl
      none_found (c ∷ cs) s h = let lacks = h c.external_id in let finds_it = s.0 in absurd (cc)

      empty : ((id : String) → finds id ≡ none) → status_of conflicts ≡ "matched"
      empty h =
          (status_of-matched conflicts).1
            (none_found conflicts (classify_sound applied observed known created) h)
