-- ===== src/Calendar/Gestures/Accepted.antt =====
-- What the loops of `apply` leave in the applied events.
use ubu_orchestrator.Base.{
  String, str_eq, eq_iff, Bool, true, false, ◌&&◌, ◌||◌, Option, none, some, List, [], ◌∷◌, ◌≡◌,
  refl, sym, ap, ◌∙◌, All, is_some, subst, arith, inl, inr, Bool-cases, if◌then◌else◌,
}
use ubu_orchestrator.Base.Order.{str_ord}
use ubu_orchestrator.Base.Distinct.{Differ}
use ubu_orchestrator.Errors.{AppError, Result, ok, err, ok-eq}
use ubu_orchestrator.Errors.Exec.{Exec, bind-ok}
use ubu_orchestrator.Calendar.Event.{DesiredEvent, event_id, HasDistinctIds}
use ubu_orchestrator.Calendar.Capture.{DiagnosticBody}
use ubu_orchestrator.Calendar.Diff.{contains}
use ubu_orchestrator.Calendar.Interaction.{Timestamps, with_id, replace_first, accept_observation}
use ubu_orchestrator.Calendar.Interaction.Accepts.{with_id-names, with_id-accept_observation}
use ubu_orchestrator.Tasks.Record.{Env as TasksEnv}
use ubu_orchestrator.Tasks.Action.{record_calendar_completion}
use ubu_orchestrator.Tasks.Reopen.{ReopenSignal}
use ubu_orchestrator.Calendar.Gestures.{
  Host, Applying, accept, told, settled, settled_err, attempt, each, absorb, absorb_one, apply_move,
  apply_resize,
}
use ubu_orchestrator.Calendar.Gestures.Applied.{
  one_moved, one_resized, begin, reopened, move_one, resize_one, complete_one, reopen_one, apply,
}

-- A value that an action returns has the property.
abbrev Returns : {S : Type 0} → (Applying → Type 0) → Exec S Applying → Type 0
Returns {S} P m = (s s' : S) (a : Applying) → m s ≡ (s', ok a) → P a

module _ {S A : Type 0} (P : Applying → Type 0) where
  settled-Returns :
      (absorbs : AppError → Option (List DiagnosticBody)) (done : A → Applying → Applying)
      (a : Applying) (x : S × Result A)
      → ((v : A) → P (done v a))
      → ((ds : List DiagnosticBody) → P (told ds a))
      → (s' : S) (a' : Applying) → settled absorbs done a x ≡ (s', ok a')
      → P a'
  settled-Returns absorbs done a (s, ok v) d t s' a' h = subst P (ok-eq (ap (λ y. y.1) h)) (d v)
  settled-Returns absorbs done a (s, err e) d t s' a' h = go (absorbs e) h
    where
      go : (o : Option (List DiagnosticBody)) → settled_err o e a s ≡ (s', ok a') → P a'
      go none h = absurd (cc)
      go (some ds) h = subst P (ok-eq (ap (λ y. y.1) h)) (t ds)

  attempt-Returns :
      (absorbs : AppError → Option (List DiagnosticBody)) (action : Exec S A)
      (done : A → Applying → Applying) (a : Applying)
      → ((v : A) → P (done v a))
      → ((ds : List DiagnosticBody) → P (told ds a))
      → Returns P (attempt absorbs action done a)
  unfolding attempt
  attempt-Returns absorbs action done a d t s s' a' h =
      settled-Returns absorbs done a (action s) d t s' a' h

  each-Returns :
      (step : A → Applying → Exec S Applying)
      → ((x : A) (a : Applying) → P a → Returns P (step x a))
      → (xs : List A) (a : Applying) → P a
      → Returns P (each step xs a)
  unfolding each
  each-Returns step keep [] a p s s' a' h = subst P (ok-eq (ap (λ y. y.1) h)) p
  each-Returns step keep (x ∷ xs) a p s s' a' h =
      let b = bind-ok _ _ s s' a' h in
      each-Returns step keep xs b.value (keep x a p s b.between b.value b.fst_ok) b.between s' a'
        b.rest_ok

module _ (ts : Timestamps) (tasks : TasksEnv) (host : Host ts tasks) (observed : List DesiredEvent)
    (P : Applying → Type 0)
    (accepts : (id : String) (a : Applying) → P a → P (accept observed id a))
    (tells : (ds : List DiagnosticBody) (a : Applying) → P a → P (told ds a)) where
  -- What accepting an observation and telling a diagnostic keep, and no count changes, is so of
  -- what `apply` returns, if it is so at the start.
  apply-Returns :
      ((a : Applying) → P a → P (one_moved ts tasks host observed a))
      → ((a : Applying) → P a → P (one_resized ts tasks host observed a))
      → (applied : List DesiredEvent)
      → ((ds : List DiagnosticBody) → P (begin ts tasks host observed applied ds))
      → Returns P (apply ts tasks host observed applied)
  unfolding apply move_one resize_one complete_one reopen_one
  apply-Returns moves resizes applied starts s s' a' h =
      let b = bind-ok _ _ s s' a' h in
      let c = bind-ok _ _ b.between s' a' b.rest_ok in
      let d = bind-ok _ _ c.between s' a' c.rest_ok in
      let e = bind-ok _ _ d.between s' a' d.rest_ok in
      let f = bind-ok _ _ e.between s' a' e.rest_ok in
      let one =
        each-Returns P (move_one ts tasks host observed)
          (λ x a p.
            attempt-Returns P absorb (apply_move ts tasks host x)
              (λ ds b. accept observed x.external_id (one_moved ts tasks host observed (told ds b)))
              a (λ ds. accepts x.external_id _ (moves _ (tells ds a p))) (λ ds. tells ds a p))
          _ _ (starts _) c.between d.between d.value d.fst_ok in
      let two =
        each-Returns P (resize_one ts tasks host observed)
          (λ x a p.
            attempt-Returns P absorb (apply_resize ts tasks host x)
              (λ u b. accept observed x.external_id (one_resized ts tasks host observed b)) a
              (λ u. accepts x.external_id _ (resizes a p)) (λ ds. tells ds a p))
          _ _ one d.between e.between e.value e.fst_ok in
      let three =
        each-Returns P (complete_one ts tasks host observed)
          (λ x a p.
            attempt-Returns P absorb_one (record_calendar_completion tasks x)
              (λ r b. accept observed x.external_id (told r.diagnostics b)) a
              (λ r. accepts x.external_id _ (tells r.diagnostics a p)) (λ ds. tells ds a p))
          _ _ two e.between f.between f.value f.fst_ok in
      each-Returns P (reopen_one ts tasks host observed) undo _ _ three f.between s' a' f.rest_ok
    where
      undo :
          (x : ReopenSignal) (a : Applying)
          → P a
          → Returns P (reopen_one ts tasks host observed x a)
      undo x a p s s' a' h =
          let b = bind-ok _ _ s s' a' h in subst P (ok-eq (ap (λ y. y.1) b.rest_ok)) (done b.value)
        where
          done : (y : Bool) → P (reopened ts tasks host observed x.external_id a y)
          done true = accepts x.external_id a p
          done false = p

-- The applied event of an id that changed is the observed one; any other is the one it was.
abbrev pub IsAccepted : List DesiredEvent → List DesiredEvent → Applying → Type 0
IsAccepted observed before a =
    (j : String)
    → with_id j a.applied ≡ (
        if contains a.result.changed_external_ids j
          && (is_some (with_id j before) && is_some (with_id j observed))
        then with_id j observed
        else with_id j before)

-- The choice for one id, before and after one more observation is accepted: `m` says that its id is
-- the one accepted, `c` that it had changed already.
chosen :
    (m c : Bool) (before observed : Option DesiredEvent) (now : Option DesiredEvent)
    → now ≡ (if c && (is_some before && is_some observed) then observed else before)
    → (if m && (is_some now && is_some observed) then observed else now)
      ≡ (if (m || c) && (is_some before && is_some observed) then observed else before)
chosen true c none none now h = ground arith
chosen true c none (some o) now h = ground arith
chosen true c (some b) none now h = ground arith
chosen true c (some b) (some o) now h = ground arith
chosen false c before observed now h = ground arith

module _ (observed before : List DesiredEvent) (id : String) (a : Applying) where
  accept-IsAccepted :
      IsAccepted observed before a → IsAccepted observed before (accept observed id a)
  unfolding accept contains
  accept-IsAccepted h j = elim (Bool-cases (str_eq id j)) [
    | inl same ↦
        let e : id ≡ j = (eq_iff id j).0 same in
        with_id-accept_observation id j observed a.applied
        ∙ ap
            (λ k.
              if str_eq id j && (is_some (with_id k a.applied) && is_some (with_id k observed))
              then with_id k observed
              else with_id j a.applied)
            e
        ∙ rw (same, (eq_iff j id).1 (sym e))
            (chosen true (contains a.result.changed_external_ids j) (with_id j before)
              (with_id j observed) (with_id j a.applied) (h j))
    | inr other ↦
        with_id-accept_observation id j observed a.applied ∙ rw (other, differs other) (h j)
  ]
    where
      differs : str_eq id j ≡ false → str_eq j id ≡ false
      differs n = ground (arith, eq_iff id j, eq_iff j id)

module _ (id : String) (current : DesiredEvent) (named : str_eq current.external_id id ≡ true) where
  replace_first-Differ :
      (x : DesiredEvent) (es : List DesiredEvent)
      → All (Differ event_id x) es
      → All (Differ event_id x) (replace_first id current es)
  unfolding replace_first
  replace_first-Differ x [] h = tt
  replace_first-Differ x (e ∷ es) h =
      let rest = replace_first-Differ x es h.1 in
      elim (Bool-cases (str_eq e.external_id id)) [
        | inl hit ↦
            let same : e.external_id ≡ current.external_id =
              (eq_iff e.external_id id).0 hit ∙ sym ((eq_iff current.external_id id).0 named) in
            rw hit (subst (λ k. str_eq x.external_id k ≡ false) same h.0, h.1)
        | inr miss ↦ rw miss (h.0, rest)
      ]

  -- The accepted event has the id of the one that it replaces.
  replace_first-HasDistinctIds :
      (es : List DesiredEvent) → HasDistinctIds es → HasDistinctIds (replace_first id current es)
  unfolding replace_first
  replace_first-HasDistinctIds [] h = tt
  replace_first-HasDistinctIds (e ∷ es) h =
      let rest = replace_first-HasDistinctIds es h.1 in
      let others = replace_first-Differ e es h.0 in
      elim (Bool-cases (str_eq e.external_id id)) [
        | inl hit ↦
            let same : e.external_id ≡ current.external_id =
              (eq_iff e.external_id id).0 hit ∙ sym ((eq_iff current.external_id id).0 named) in
            rw hit (subst (λ k. All (λ y. str_eq k y.external_id ≡ false) es) same h.0, h.1)
        | inr miss ↦ rw miss (others, rest)
      ]

accept-HasDistinctIds :
    (observed : List DesiredEvent) (id : String) (a : Applying)
    → HasDistinctIds a.applied
    → HasDistinctIds (accept observed id a).applied
unfolding accept accept_observation
accept-HasDistinctIds observed id a h = go (with_id id observed) refl
  where
    go :
        (o : Option DesiredEvent)
        → with_id id observed ≡ o
        → HasDistinctIds
            (elim o [ none ↦ a.applied | some current ↦ replace_first id current a.applied ])
    go none e = h
    go (some c) e = replace_first-HasDistinctIds id c (with_id-names id observed c e) a.applied h

module _ (ts : Timestamps) (tasks : TasksEnv) (host : Host ts tasks)
    (observed applied : List DesiredEvent) (w w' : tasks.World) (a : Applying) where
  -- Whatever the moves, resizes, completions and undos of an observation come to, the applied
  -- events that are returned differ from those before only at the ids that are reported as changed,
  -- and there they are the observed events.
  pub apply_lem :
      apply ts tasks host observed applied w ≡ (w', ok a)
      → (j : String)
      → with_id j a.applied ≡ (
          if contains a.result.changed_external_ids j
            && (is_some (with_id j applied) && is_some (with_id j observed))
          then with_id j observed
          else with_id j applied)
  unfolding contains
  apply_lem h =
      apply-Returns ts tasks host observed (IsAccepted observed applied)
        (λ id a p. accept-IsAccepted observed applied id a p) (λ ds a p. p) (λ a p. p) (λ a p. p)
        applied (λ ds j. refl) w w' a h

  pub apply-HasDistinctIds :
      HasDistinctIds applied
      → apply ts tasks host observed applied w ≡ (w', ok a)
      → HasDistinctIds a.applied
  apply-HasDistinctIds d h =
      apply-Returns ts tasks host observed (λ a. HasDistinctIds a.applied)
        (λ id a p. accept-HasDistinctIds observed id a p) (λ ds a p. p) (λ a p. p) (λ a p. p)
        applied (λ ds. d) w w' a h
