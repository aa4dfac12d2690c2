-- ===== src/Calendar/Apply/Record.antt =====
-- What `approve` records, and what the next preview finds.
use ubu_orchestrator.Base.{
  String, Bool, true, false, not, List, [], ◌∷◌, ◌≡◌, refl, sym, ap, subst, ◌∙◌, arith,
}
use ubu_orchestrator.Base.Order.{str_ord}
use ubu_orchestrator.Errors.{ok-eq, Result, ok, err, refuse_if, refuse_if-eq-ok, >>=-eq-ok}
use ubu_orchestrator.Errors.Exec.{check, bind-ok}
use ubu_orchestrator.Calendar.Event.{
  DesiredEvent, same_managed_fields, same_managed_fields_refl, same_managed_fields_iff, opt_eq,
  opt_eq_iff,
}
use ubu_orchestrator.Calendar.Apply.{
  Env, Tables, StoredCalendarPreview, StoredCalendarResult, last_applied_events, load_preview,
  events_eq, prepare,
}
use ubu_orchestrator.Calendar.Apply.Approve.{
  Progress, State, finish, start, persist_with, persist_result, approve,
}
use ubu_orchestrator.Calendar.Apply.Landed.{Rounds, run-Rounds, run-tables}

event_eq :
    (a b : DesiredEvent)
    → same_managed_fields a b ≡ true
    → opt_eq a.description b.description ≡ true
    → a ≡ b
event_eq a b h k =
    ground (arith, (same_managed_fields_iff a b).0 h, (opt_eq_iff a.description b.description).0 k)

pub events_eq_sound : (xs ys : List DesiredEvent) → events_eq xs ys ≡ true → xs ≡ ys
events_eq_sound [] [] h = refl
events_eq_sound [] (y ∷ ys) h = cc
events_eq_sound (x ∷ xs) [] h = cc
events_eq_sound (x ∷ xs) (y ∷ ys) h = ground (arith, event_eq x y, events_eq_sound xs ys)

pub events_eq_refl : (xs : List DesiredEvent) → events_eq xs xs ≡ true
events_eq_refl [] = refl
events_eq_refl (x ∷ xs) =
    rw (
      same_managed_fields_refl x,
      (opt_eq_iff x.description x.description).1 refl,
      events_eq_refl xs,
    )

-- The tables with one more row of results.
abbrev pub with_row : StoredCalendarResult → Tables → Tables
with_row r t = record t { results = r ∷ t.results }

module _ (env : Env) (preview_id : String) where
  -- What a preview that passed the checks is.
  record Prepared (tables : Tables) (stored : StoredCalendarPreview) : Type 0 where
    loaded : load_preview tables preview_id ≡ ok stored
    current : last_applied_events tables.results ≡ stored.existing_events

  prepare-Prepared :
      (w : env.World) (tables : Tables) (stored : StoredCalendarPreview)
      → prepare env preview_id w tables ≡ ok stored
      → Prepared tables stored
  unfolding prepare
  prepare-Prepared w tables stored h =
      let a = >>=-eq-ok (env.available w) _ h in
      let b = >>=-eq-ok (load_preview tables preview_id) _ a.2 in
      let same = not (events_eq (last_applied_events tables.results) b.0.existing_events) in
      let c = >>=-eq-ok (refuse_if same _) _ b.2 in
      let d = >>=-eq-ok (env.connects w) _ c.2 in
      let e : b.0 ≡ stored = cc (d.2) in
      rw (← e) (record {
        loaded = b.1;
        current = events_eq_sound _ _ (not_false _ (refuse_if-eq-ok same _ c.1));
      })
    where
      not_false : (b : Bool) → not b ≡ false → b ≡ true
      not_false true h = refl
      not_false false h = cc

  -- What a call of `approve` that returned a result did.
  pub record Approved (s s' : State env) (result : StoredCalendarResult) : Type 0 where
    pub stored : StoredCalendarPreview
    pub loaded : load_preview s.tables preview_id ≡ ok stored
    pub current : last_applied_events s.tables.results ≡ stored.existing_events
    pub progress : Progress env
    pub rounds : Rounds env stored.operations (start env stored.existing_events) progress
    pub returned : finish env preview_id progress ≡ result
    pub row : s'.tables ≡ with_row result s.tables

  persisted :
      (r : StoredCalendarResult) (s s' : State env) (x : Result (Unit {0})) (u : Unit {0})
      → persist_with env r s x ≡ (s', ok u)
      → s'.tables ≡ with_row r s.tables
  unfolding persist_with
  persisted r s s' (err e) u h = absurd (cc)
  persisted r s s' (ok v) u h = sym (ap (λ x. x.0.tables) h)

  checked :
      {A : Type 0} (f : State env → Result A) {s t : State env} {a : A}
      → check f s ≡ (t, ok a)
      → (s ≡ t) × (f s ≡ ok a)
  checked f h = (ap (λ x. x.0) h, ap (λ x. x.1) h)

  pub approve-Approved :
      (s s' : State env) (result : StoredCalendarResult)
      → approve env preview_id s ≡ (s', ok result)
      → Approved s s' result
  unfolding approve persist_result
  approve-Approved s s' result h =
      let a = bind-ok _ _ s s' result h in
      let first = checked (λ s. prepare env preview_id s.world s.tables) a.fst_ok in
      let ready = prepare-Prepared s.world s.tables a.value first.1 in
      let b = bind-ok _ _ a.between s' result a.rest_ok in
      let c = bind-ok _ _ b.between s' result b.rest_ok in
      let rounds =
        run-Rounds env preview_id a.value.no_external_export a.value.operations (start env b.value)
          c.value b.between c.between c.fst_ok in
      let d = bind-ok _ _ c.between s' result c.rest_ok in
      let same_tables : b.between.tables ≡ s.tables =
        ap (λ x. x.0.tables) (sym b.fst_ok) ∙ ap (λ x. x.tables) (sym first.0) in
      let read : last_applied_events s.tables.results ≡ b.value =
        ap (λ t. last_applied_events t.tables.results) first.0 ∙ ok-eq (ap (λ x. x.1) b.fst_ok) in
      let kept : c.between.tables ≡ s.tables =
        ap (λ x. x.0.tables) (sym c.fst_ok)
        ∙ run-tables env preview_id a.value.no_external_export a.value.operations
            (start env b.value) b.between
        ∙ same_tables in
      let row =
        persisted (finish env preview_id c.value) c.between d.between (env.persists c.between.world)
          d.value d.fst_ok in
      record {
        stored = a.value;
        loaded = ready.loaded;
        current = ready.current;
        progress = c.value;
        rounds =
            subst (λ e. Rounds env a.value.operations (start env e) c.value)
              (sym read ∙ ready.current) rounds;
        returned = ok-eq (ap (λ x. x.1) d.rest_ok);
        row =
            ap (λ x. x.0.tables) (sym d.rest_ok)
            ∙ row
            ∙ ap (λ r. with_row r c.between.tables) (ok-eq (ap (λ x. x.1) d.rest_ok))
            ∙ ap (with_row result) kept;
      }
