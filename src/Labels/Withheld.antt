-- ===== src/Labels/Withheld.antt =====
-- When `approve` writes nothing to GitHub.
use ubu_orchestrator.Base.{
  String, Bool, true, false, Option, List, [], ◌∷◌, ◌≡◌, refl, sym, ap, ◌∙◌, ◌⊎◌, inl, inr, subst,
}
use ubu_orchestrator.Errors.{Result, ok, err, ok-eq}
use ubu_orchestrator.Errors.Exec.{bind-holds, bind-reads, Fixes, Fixes-bind}
use ubu_orchestrator.Calendar.Apply.{ExportPermit, AuthoritySource}
use ubu_orchestrator.Labels.{GitHubOperation, CoreOperation}
use ubu_orchestrator.Labels.Export.{
  Legitimization, rejected, PolicySummary, StoredPreview, ApproveRequest, load_preview, or_else,
  Progress, Outcome, go_on, halt, Env,
}
use ubu_orchestrator.Labels.Approve.{
  State, decide, round, proceed, run, with_client, export, start, persist_approval, persist_result,
  approve, when_ok,
}

-- What the gate documents, and what the Log leaves alone: a rejected policy is never accepted, and
-- an entry of the Log changes nothing at GitHub.
pub record Gated {ℓ} (env : Env) {T : Type ℓ} (github : env.World → T) : Type ℓ where
  pub rejects :
      (core : CoreOperation) (operation : GitHubOperation) (policy : PolicySummary)
      (source : AuthoritySource) (w : env.World)
      → policy.legitimization ≡ rejected
      → (env.gate core operation policy source w).legitimization ≡ rejected
  pub logs :
      (id : String) (operation : GitHubOperation) (w : env.World)
      → github (env.append_boundary_log id operation w).0 ≡ github w

-- The policy that an approval reads from a stored preview.
abbrev pub policy_of : StoredPreview → PolicySummary
policy_of stored = or_else stored.preview_policy stored.policy_summary

module _ (env : Env) {T : Type 0} (github : env.World → T) (gated : Gated env github) where
  open gated use {rejects, logs}

  abbrev seen : State env → T
  seen s = github s.world

  decide-withheld :
      (operation : GitHubOperation) (policy : PolicySummary) (l : Legitimization)
      (permit : Option ExportPermit) (p : Progress)
      → l ≡ rejected
      → Fixes seen (decide env operation policy l permit p)
  unfolding decide
  decide-withheld operation policy Legitimization.accepted permit p h s = absurd (cc)
  decide-withheld operation policy Legitimization.needs_review permit p h s = refl
  decide-withheld operation policy Legitimization.rejected permit p h s = refl

  round-withheld :
      (id : String) (policy : PolicySummary) (cores : List CoreOperation)
      (operation : GitHubOperation) (p : Progress)
      → policy.legitimization ≡ rejected
      → Fixes seen (round env id policy cores operation p)
  unfolding round
  round-withheld id policy cores operation p h s =
      let same = λ (u : State env). seen u ≡ seen s in
      bind-reads same _ _ s (λ t. refl) refl
        λ core found.
          bind-reads same _ _ s (λ t. refl) refl
            λ decision gate_said. bind-holds same _ _ s (logs id operation s.world) λ u a logged.
              let denied : decision.legitimization ≡ rejected =
                ap (λ d. d.legitimization) (ok-eq (ap (λ x. x.1) (sym gate_said)))
                ∙ rejects core operation policy _ s.world h in
              decide-withheld operation policy _ _ p denied u
              ∙ ap (λ x. seen x.0) (sym logged)
              ∙ logs id operation s.world

  run-withheld :
      (id : String) (policy : PolicySummary) (cores : List CoreOperation)
      (operations : List GitHubOperation) (p : Progress)
      → policy.legitimization ≡ rejected
      → Fixes seen (run env id policy cores operations p)
  unfolding run
  run-withheld id policy cores [] p h s = refl
  run-withheld id policy cores (operation ∷ operations) p h s =
      Fixes-bind seen _ _ (round-withheld id policy cores operation p h)
        (after (λ q. run-withheld id policy cores operations q h)) s
    where
      after :
          ((q : Progress) → Fixes seen (run env id policy cores operations q))
          → (outcome : Outcome)
          → Fixes seen (proceed env operations (run env id policy cores operations) outcome)
      after ih (go_on q) s = ih q s
      after ih (halt q) s = refl

  with_client-withheld :
      (id : String) (stored : StoredPreview) (client : Bool)
      → (policy_of stored).legitimization ≡ rejected
      → Fixes seen (with_client env id stored client)
  unfolding with_client
  with_client-withheld id stored false h s = refl
  with_client-withheld id stored true h s =
      Fixes-bind seen _ _
        (run-withheld id (policy_of stored) _ stored.batch.github_operations (start env) h)
        (λ p s. refl) s

  export-withheld :
      (id : String) (stored : StoredPreview) (approved : Bool)
      → (approved ≡ false) ⊎ ((policy_of stored).legitimization ≡ rejected)
      → Fixes seen (export env id stored approved)
  unfolding export
  export-withheld id stored false h s = refl
  export-withheld id stored true (inl h) s = absurd (cc)
  export-withheld id stored true (inr h) s =
      Fixes-bind seen _ _ (λ s. refl)
        (λ u. Fixes-bind seen _ _ (λ s. refl) (λ client. with_client-withheld id stored client h)) s

  when_ok-seen :
      (r : Result (Unit {0})) (after before : State env)
      → seen after ≡ seen before
      → seen (when_ok env r after before).0 ≡ seen before
  when_ok-seen (ok u) after before h = h
  when_ok-seen (err e) after before h = refl

  -- A preview that is not approved, or whose policy is rejected, leads to no write: whatever the call
  -- returns, what is seen at GitHub is as it was, where the gate accepts nothing under a rejected
  -- policy and the Log is kept elsewhere.
  pub approve_withheld :
      (request : ApproveRequest) (s : State env) (id : String) (stored : StoredPreview)
      → env.parse_id request.preview_id ≡ ok id
      → load_preview s.previews id ≡ ok stored
      → (request.approved ≡ false) ⊎ ((policy_of stored).legitimization ≡ rejected)
      → github (approve env request s).0.world ≡ github s.world
  unfolding approve persist_approval persist_result
  approve_withheld request s id stored parsed loaded h =
      let same = λ (u : State env). seen u ≡ seen s in
      bind-reads same _ _ s (λ t. refl) refl
        λ a versioned.
          bind-reads same _ _ s (λ t. refl) refl
            λ b named.
              bind-reads same _ _ s (λ t. refl) refl
                λ row found.
                  bind-reads same _ _ s (λ t. refl) refl
                    λ d timed.
                      let its_id : b ≡ id = ok-eq (sym (ap (λ x. x.1) named) ∙ parsed) in
                      let its_row : row ≡ stored = ok-eq (
                        sym (ap (λ x. x.1) found) ∙ ap (load_preview s.previews) its_id ∙ loaded) in
                      let withheld : (request.approved ≡ false)
                          ⊎ ((policy_of row).legitimization ≡ rejected) =
                        subst
                          (λ x.
                            (request.approved ≡ false) ⊎ ((policy_of x).legitimization ≡ rejected))
                          (sym its_row) h in
                      Fixes-bind seen _ _
                        (λ t. when_ok-seen (env.records_approval t.world) _ t refl)
                        (λ u.
                          Fixes-bind seen _ _
                            (export-withheld row.preview_id row request.approved withheld)
                            (λ answers.
                              Fixes-bind seen _ _
                                (λ t. when_ok-seen (env.persists t.world) _ t refl) (λ v t. refl)))
                        s
