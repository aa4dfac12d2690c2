-- ===== src/Labels/Rows.antt =====
-- What the parts of `approve` change among the rows of the store.
use ubu_orchestrator.Base.{
  String, Bool, true, false, none, some, Option, List, [], ◌∷◌, ◌≡◌, refl, sym, ap,
}
use ubu_orchestrator.Errors.{Result, ok, err}
use ubu_orchestrator.Errors.Exec.{Fixes, Fixes-bind}
use ubu_orchestrator.Calendar.Apply.{ExportPermit}
use ubu_orchestrator.Labels.{GitHubOperation, CoreOperation}
use ubu_orchestrator.Labels.Export.{
  Legitimization, PolicySummary, StoredPreview, ProjectionResult, Progress, Outcome, go_on, halt,
  Env,
}
use ubu_orchestrator.Labels.Approve.{
  State, write, unless_failed, decide, round, proceed, run, with_client, export, start, when_ok,
}

module _ (env : Env) where
  -- The rows of the store, which only the two inserts change.
  abbrev pub Rows : Type 0
  Rows = List (String × StoredPreview) × List (String × Bool) × List ProjectionResult

  abbrev pub rows : State env → Rows
  rows s = (s.previews, s.approvals, s.results)

  unless_failed-rows :
      (operation : GitHubOperation) (failure : Option String) (p : Progress) (permit : ExportPermit)
      (second : Option String)
      → Fixes rows (
          unless_failed env operation failure p
            (unless_failed env operation second p (write env operation permit p)))
  unfolding unless_failed write
  unless_failed-rows operation (some m) p permit second s = refl
  unless_failed-rows operation none p permit (some m) s = refl
  unless_failed-rows operation none p permit none s = refl

  decide-rows :
      (operation : GitHubOperation) (policy : PolicySummary) (l : Legitimization)
      (permit : Option ExportPermit) (p : Progress)
      → Fixes rows (decide env operation policy l permit p)
  unfolding decide
  decide-rows operation policy Legitimization.accepted none p s = refl
  decide-rows operation policy Legitimization.accepted (some permit) p s =
      unless_failed-rows operation _ p permit _ s
  decide-rows operation policy Legitimization.needs_review permit p s = refl
  decide-rows operation policy Legitimization.rejected permit p s = refl

  round-rows :
      (id : String) (policy : PolicySummary) (cores : List CoreOperation)
      (operation : GitHubOperation) (p : Progress)
      → Fixes rows (round env id policy cores operation p)
  unfolding round
  round-rows id policy cores operation p =
      Fixes-bind rows _ _ (λ s. refl)
        λ core.
          Fixes-bind rows _ _ (λ s. refl)
            λ decision. Fixes-bind rows _ _ (λ s. refl) λ u. decide-rows operation policy _ _ p

  run-rows :
      (id : String) (policy : PolicySummary) (cores : List CoreOperation)
      (operations : List GitHubOperation) (p : Progress)
      → Fixes rows (run env id policy cores operations p)
  unfolding run
  run-rows id policy cores [] p s = refl
  run-rows id policy cores (operation ∷ operations) p s =
      Fixes-bind rows _ _ (round-rows id policy cores operation p)
        (after (run-rows id policy cores operations)) s
    where
      after :
          ((q : Progress) → Fixes rows (run env id policy cores operations q))
          → (outcome : Outcome)
          → Fixes rows (proceed env operations (run env id policy cores operations) outcome)
      after ih (go_on q) s = ih q s
      after ih (halt q) s = refl

  with_client-rows :
      (id : String) (stored : StoredPreview) (client : Bool)
      → Fixes rows (with_client env id stored client)
  unfolding with_client
  with_client-rows id stored false s = refl
  with_client-rows id stored true s =
      Fixes-bind rows _ _ (run-rows id _ _ stored.batch.github_operations (start env)) (λ p s. refl)
        s

  pub export-rows :
      (id : String) (stored : StoredPreview) (approved : Bool)
      → Fixes rows (export env id stored approved)
  unfolding export
  export-rows id stored false s = refl
  export-rows id stored true s =
      Fixes-bind rows _ _ (λ s. refl)
        (λ u. Fixes-bind rows _ _ (λ s. refl) (λ client. with_client-rows id stored client)) s

  pub approval_added :
      (id : String) (approved : Bool) (s t : State env) {u : Unit {0}} (r : Result (Unit {0}))
      → when_ok env r (record s { approvals = (id, approved) ∷ s.approvals }) s ≡ (t, ok u)
      → rows t ≡ (s.previews, (id, approved) ∷ s.approvals, s.results)
  approval_added id approved s t (ok _) h = ap (λ x. rows x.0) (sym h)
  approval_added id approved s t (err e) h = absurd (cc)

  pub result_added :
      (result : ProjectionResult) (s t : State env) {u : Unit {0}} (r : Result (Unit {0}))
      → when_ok env r (record s { results = result ∷ s.results }) s ≡ (t, ok u)
      → rows t ≡ (s.previews, s.approvals, result ∷ s.results)
  result_added result s t (ok _) h = ap (λ x. rows x.0) (sym h)
  result_added result s t (err e) h = absurd (cc)
