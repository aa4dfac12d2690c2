-- ===== src/Calendar/Preview/Approved.antt =====
-- A preview followed by its approval.
use ubu_orchestrator.Base.{
  ℕ, String, eq_refl, Bool, false, Option, some, List, [], ◌∷◌, ◌≡◌, refl, sym, ap, ◌∙◌,
}
use ubu_orchestrator.Base.TreeMap.{TreeMap}
use ubu_orchestrator.Errors.{ok, ok-eq, >>=-eq-ok}
use ubu_orchestrator.Errors.Exec.{bind-ok}
use ubu_orchestrator.Calendar.Event.{DesiredEvent}
use ubu_orchestrator.Calendar.Interaction.{Timestamps}
use ubu_orchestrator.Calendar.Interaction.Owned.{preserve_completed, current_static_windows}
use ubu_orchestrator.Calendar.Apply.{
  Env, Tables, StoredCalendarPreview, StoredCalendarResult, ProjectionStatus, last_applied_events,
  find_preview, load_preview, preview_schema,
}
use ubu_orchestrator.Calendar.Apply.Approve.{State, approve}
use ubu_orchestrator.Calendar.Apply.Accepted.{Cooperates, approve_total}
use ubu_orchestrator.Calendar.Apply.Outcome.{approve_converges}
use ubu_orchestrator.Calendar.Preview.{
  Plan, PreviewResponse, completed_event_ids, preview_operations, stored_preview, preview_response,
  static_tasks, compute_preview, asked_events, static_of,
}
use ubu_orchestrator.Base.{map}
use ubu_orchestrator.Calendar.Diff.{diff}
use ubu_orchestrator.Calendar.Preview.Kept.{spared, preview_operations-diff}
use ubu_orchestrator.Calendar.Preview.Stored.{preview}

module _ (plan : Plan) (ts : Timestamps) (timestamp_at : ℕ → Option String) where
  -- What a preview that was answered has stored.
  pub record Previewed (no_external_export : Bool) (tables tables' : Tables) (r : PreviewResponse)
      : Type 0 where
    pub origins : TreeMap String String
    pub read : plan.origins ≡ ok origins
    pub row : tables' ≡ record tables { previews = (plan.preview_id, r.stored) ∷ tables.previews }
    pub schema : r.stored.schema_version ≡ preview_schema
    pub policy : r.stored.no_external_export ≡ some no_external_export
    pub existing : r.stored.existing_events ≡ last_applied_events tables.results
    pub operations :
        r.stored.operations
        ≡ preview_operations origins
            (completed_event_ids plan.completed_tasks (last_applied_events tables.results))
            r.stored.desired_events
            (last_applied_events tables.results)

  response_stored :
      (origins : TreeMap String String) (calendar : _) (existing : List DesiredEvent)
      (stored : StoredCalendarPreview) (r : PreviewResponse)
      → preview_response plan calendar origins existing stored ≡ ok r
      → stored ≡ r.stored
  unfolding preview_response
  response_stored origins calendar existing stored r h =
      let a =
        >>=-eq-ok
          (static_tasks plan.get_current_state (map (λ step. step.task_id) calendar.steps)
            stored.operations (static_of calendar.steps))
          _ h in
      ap (λ x. x.stored) (ok-eq a.2)

  compute-Previewed :
      (no_external_export : Bool) (tables : Tables) (r : PreviewResponse)
      → compute_preview plan ts timestamp_at no_external_export tables ≡ ok r
      → Previewed no_external_export tables
          (record tables { previews = (plan.preview_id, r.stored) ∷ tables.previews })
          r
  unfolding compute_preview stored_preview
  compute-Previewed no_external_export tables r h =
      let (calendar, c, h1) = >>=-eq-ok plan.calendar _ h in
      let (origins, o, h2) = >>=-eq-ok plan.origins _ h1 in
      let existing = last_applied_events tables.results in
      let (kept, k, h3) =
        >>=-eq-ok
          (preserve_completed plan.get_current_state (asked_events plan calendar origins existing)
            existing)
          _ h2 in
      let (desired, d, h4) =
        >>=-eq-ok (current_static_windows plan.get_current_state ts timestamp_at kept) _ h3 in
      let stored = stored_preview plan no_external_export calendar origins desired existing in
      let same : stored ≡ r.stored = response_stored origins calendar existing stored r h4 in
      record {
        origins = origins;
        read = o;
        row = refl;
        schema = ap (λ x. x.schema_version) (sym same);
        policy = ap (λ x. x.no_external_export) (sym same);
        existing = ap (λ x. x.existing_events) (sym same);
        operations =
            ap (λ x. x.operations) (sym same)
            ∙ ap
                (λ x.
                  preview_operations origins (completed_event_ids plan.completed_tasks existing)
                    x.desired_events existing)
                same;
      }

  pub preview-Previewed :
      (no_external_export : Bool) (tables tables' : Tables) (r : PreviewResponse)
      → preview plan ts timestamp_at no_external_export tables ≡ (tables', ok r)
      → Previewed no_external_export tables tables' r
  unfolding preview
  preview-Previewed no_external_export tables tables' r h =
      let a = bind-ok _ _ tables tables' r h in
      let b = bind-ok _ _ a.between tables' r a.rest_ok in
      let c = bind-ok _ _ b.between tables' r b.rest_ok in
      let at_a : tables ≡ a.between = ap (λ x. x.0) a.fst_ok in
      let computed : compute_preview plan ts timestamp_at no_external_export tables ≡ ok a.value =
        ap (λ x. x.1) a.fst_ok in
      let at_b : a.between ≡ b.between = ap (λ x. x.0) b.fst_ok in
      let answer : a.value ≡ r = ok-eq (ap (λ x. x.1) c.rest_ok) in
      let p = compute-Previewed no_external_export tables r (computed ∙ ap ok answer) in
      let write : Tables → PreviewResponse → Tables =
        λ t x. record t { previews = (plan.preview_id, x.stored) ∷ t.previews } in
      record {
        origins = p.origins;
        read = p.read;
        row =
            sym (ap (λ x. x.0) c.rest_ok)
            ∙ sym (ap (λ x. x.0) c.fst_ok)
            ∙ ap (λ t. write t a.value) (sym (at_a ∙ at_b))
            ∙ ap (write tables) answer;
        schema = p.schema;
        policy = p.policy;
        existing = p.existing;
        operations = p.operations;
      }

  -- A preview is found under its id, and is of the applied events.
  pub load-preview :
      (no_external_export : Bool) (tables tables' : Tables) (r : PreviewResponse)
      → Previewed no_external_export tables tables' r
      → load_preview tables' plan.preview_id ≡ ok r.stored
  unfolding load_preview find_preview
  load-preview no_external_export tables tables' r p =
      ap (λ t. load_preview t plan.preview_id) p.row
      ∙ rw (eq_refl plan.preview_id) (rw p.schema refl)

  module _ (env : Env) (w : env.World) (tables tables' : Tables) (r : PreviewResponse) where
    abbrev at : State env
    at = record { world = w; tables = tables' }

    -- A preview that allows exports is approved, with the status `applied`, if nothing but the
    -- preview happens first and the calendar, the gate, the log and the store cooperate. The next
    -- preview with the same desired events, sources and retained ids then has no operation.
    pub preview_approved :
        Cooperates env
        → preview plan ts timestamp_at false tables ≡ (tables', ok r)
        → (s' : State env) × (result : StoredCalendarResult) × (origins : TreeMap String String)
          × (approve env plan.preview_id (record { world = w; tables = tables' }) ≡ (s', ok result))
          × (result.status ≡ ProjectionStatus.applied)
          × (plan.origins ≡ ok origins)
          × (preview_operations origins
                (completed_event_ids plan.completed_tasks (last_applied_events tables.results))
                r.stored.desired_events
                (last_applied_events s'.tables.results)
              ≡ [])
    preview_approved c h =
        let p = preview-Previewed false tables tables' r h in
        let l = load-preview false tables tables' r p in
        let now : last_applied_events tables'.results ≡ r.stored.existing_events =
          ap (λ t. last_applied_events t.results) p.row ∙ sym p.existing in
        let (s', result, approved, applied) =
          approve_total env c plan.preview_id at r.stored l p.policy now in
        let retained =
          completed_event_ids plan.completed_tasks (last_applied_events tables.results) in
        let desired = r.stored.desired_events in
        let operations =
          p.operations
          ∙ preview_operations-diff p.origins retained desired (last_applied_events tables.results)
          ∙ ap (λ e. diff desired e (spared p.origins retained desired)) (sym p.existing) in
        (
          s',
          result,
          p.origins,
          approved,
          applied,
          p.read,
          preview_operations-diff p.origins retained desired (last_applied_events s'.tables.results)
              ∙ approve_converges env plan.preview_id at s' r.stored result desired
                  (spared p.origins retained desired) l operations approved applied,
        )
