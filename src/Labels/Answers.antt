-- ===== src/Labels/Answers.antt =====
-- What `approve` answers and stores.
use ubu_orchestrator.Base.{
  String, none, some, Option, List, [], ◌∷◌, ◌++◌, ◌≡◌, refl, sym, ap, ◌∙◌, map, ◌⊎◌, inl, inr,
  Bool-cases,
}
use mathlib.Core.List.{append_assoc, append-nil}
use ubu_orchestrator.Errors.{ok}
use ubu_orchestrator.Errors.Exec.{Exec, bind-ok}
use ubu_orchestrator.Calendar.Apply.{OperationStatus, OperationResult, ExportPermit}
use ubu_orchestrator.Labels.{GitHubOperation, CoreOperation}
use ubu_orchestrator.Labels.Export.{
  Legitimization, PolicySummary, AdapterError, denial_reason, answer_all, Progress, Outcome, go_on,
  halt, answer, diagnose, settle, abandon, Env,
}
use ubu_orchestrator.Labels.Approve.{State, write, unless_failed, decide, round, proceed, run}
use ubu_orchestrator.Labels.Github.{apply_managed_label_operation}

abbrev settled : Outcome → Progress
settled (go_on p) = p
settled (halt p) = p

abbrev pub ids : List OperationResult → List String
ids = map (λ r. r.operation_id)

abbrev pub names : List GitHubOperation → List String
names = map (λ o. o.operation_id)

ids-append : (a b : List OperationResult) → ids (a ++ b) ≡ ids a ++ ids b
ids-append [] b = refl
ids-append (r ∷ a) b = ap (λ rest. r.operation_id ∷ rest) (ids-append a b)

pub ids-answer_all :
    (status : OperationStatus) (message : String) (operations : List GitHubOperation)
    → ids (answer_all status message operations) ≡ names operations
unfolding answer_all
ids-answer_all status message [] = refl
ids-answer_all status message (o ∷ operations) =
    ap (λ rest. o.operation_id ∷ rest) (ids-answer_all status message operations)

-- One more answer, under the operation's id.
abbrev Adds : GitHubOperation → Progress → Outcome → Type 0
Adds operation p outcome =
    ids (settled outcome).operation_results
    ≡ ids p.operation_results ++ (operation.operation_id ∷ [])

answer-Adds :
    (operation : GitHubOperation) (status : OperationStatus) (message : String) (p : Progress)
    → Adds operation p (go_on (answer operation status message p))
unfolding answer
answer-Adds operation status message p = ids-append p.operation_results _

settle-Adds :
    (operation : GitHubOperation) (a : String ⊎ AdapterError) (p : Progress)
    → Adds operation p (settle operation a p)
unfolding settle diagnose
settle-Adds operation (inl message) p = answer-Adds operation OperationStatus.applied message p
settle-Adds operation (inr error) p =
    let added = answer-Adds operation OperationStatus.failed error.message p in
    elim (Bool-cases error.is_rate_limit_or_transport_failure) [
      | inl e ↦ rw e added
      | inr e ↦ rw e added
    ]

module _ (env : Env) where
  -- An action whose outcome adds the operation's answer.
  abbrev Answering : GitHubOperation → Progress → Exec (State env) Outcome → Type 0
  Answering operation p m =
      (s t : State env) (outcome : Outcome) → m s ≡ (t, ok outcome) → Adds operation p outcome

  pure-Answering :
      (operation : GitHubOperation) (p : Progress) (outcome : Outcome)
      → Adds operation p outcome
      → Answering operation p (λ s. (s, ok outcome))
  pure-Answering operation p outcome h s t o e = cc (h, e)

  write-Answering :
      (operation : GitHubOperation) (permit : ExportPermit) (p : Progress)
      → Answering operation p (write env operation permit p)
  unfolding write
  write-Answering operation permit p s t o e =
      let added =
        settle-Adds operation (apply_managed_label_operation env operation permit s.world).1 p in
      cc (e, added)

  unless_failed-Answering :
      (operation : GitHubOperation) (failure : Option String) (p : Progress)
      (next : Exec (State env) Outcome)
      → Answering operation p next
      → Answering operation p (unless_failed env operation failure p next)
  unfolding unless_failed
  unless_failed-Answering operation (some message) p next h =
      pure-Answering operation p _ (answer-Adds operation OperationStatus.failed message p)
  unless_failed-Answering operation none p next h = h

  decide-Answering :
      (operation : GitHubOperation) (policy : PolicySummary) (l : Legitimization)
      (permit : Option ExportPermit) (p : Progress)
      → Answering operation p (decide env operation policy l permit p)
  unfolding decide diagnose
  decide-Answering operation policy Legitimization.accepted none p =
      pure-Answering operation p _ (answer-Adds operation OperationStatus.failed _ p)
  decide-Answering operation policy Legitimization.accepted (some permit) p =
      unless_failed-Answering operation _ p _
        (unless_failed-Answering operation _ p _ (write-Answering operation permit p))
  decide-Answering operation policy Legitimization.needs_review permit p =
      pure-Answering operation p _ (
        answer-Adds operation OperationStatus.skipped _
          (diagnose operation "projection_denied" (denial_reason policy) p))
  decide-Answering operation policy Legitimization.rejected permit p =
      pure-Answering operation p _ (
        answer-Adds operation OperationStatus.skipped _
          (diagnose operation "projection_denied" (denial_reason policy) p))

  round-Answering :
      (id : String) (policy : PolicySummary) (cores : List CoreOperation)
      (operation : GitHubOperation) (p : Progress)
      → Answering operation p (round env id policy cores operation p)
  unfolding round
  round-Answering id policy cores operation p s t o e =
      let found = bind-ok _ _ s t o e in
      let gated = bind-ok _ _ found.between t o found.rest_ok in
      let logged = bind-ok _ _ gated.between t o gated.rest_ok in
      decide-Answering operation policy _ _ p logged.between t o logged.rest_ok

  pub run-names :
      (id : String) (policy : PolicySummary) (cores : List CoreOperation)
      (operations : List GitHubOperation) (p p' : Progress) (s t : State env)
      → run env id policy cores operations p s ≡ (t, ok p')
      → ids p'.operation_results ≡ ids p.operation_results ++ names operations
  unfolding run abandon proceed
  run-names id policy cores [] p p' s t e = cc (e, append-nil (ids p.operation_results))
  run-names id policy cores (operation ∷ operations) p p' s t e =
      let first = bind-ok _ _ s t p' e in
      let added =
        round-Answering id policy cores operation p s first.between first.value first.fst_ok in
      after first.value added (λ q. run-names id policy cores operations q p') first.between
        first.rest_ok
    where
      after :
          (outcome : Outcome)
          → Adds operation p outcome
          → ((q : Progress) (u v : State env)
              → run env id policy cores operations q u ≡ (v, ok p')
              → ids p'.operation_results ≡ ids q.operation_results ++ names operations)
          → (u : State env)
          → proceed env operations (run env id policy cores operations) outcome u ≡ (t, ok p')
          → ids p'.operation_results
            ≡ ids p.operation_results ++ (operation.operation_id ∷ names operations)
      after (go_on q) added rest u k =
          rest q u t k
          ∙ ap (λ front. front ++ names operations) added
          ∙ append_assoc (ids p.operation_results) (operation.operation_id ∷ []) (names operations)
      after (halt q) added rest u k =
          let ended : abandon operations q ≡ p' = cc k in
          ap (λ (x : Progress). ids x.operation_results) (sym ended)
          ∙ ids-append q.operation_results _
          ∙ ap (λ back. ids q.operation_results ++ back) (ids-answer_all _ _ operations)
          ∙ ap (λ front. front ++ names operations) added
          ∙ append_assoc (ids p.operation_results) (operation.operation_id ∷ []) (names operations)
