-- ===== src/Tasks/Effects.antt =====
-- `apply_completed_effects` of src/services/log_service.rs.
use ubu_orchestrator.Base.{
  ℕ, String, Option, none, some, List, [], ◌∷◌, ◌⊎◌, inl, inr, if◌then◌else◌,
}
use ubu_orchestrator.Errors.{internal, Result, ok, err}
use ubu_orchestrator.Errors.Exec.{Exec, check, lift, ◌>>=◌, ◌>>◌, pure}
use ubu_orchestrator.Calendar.Capture.{DiagnosticBody}
use ubu_orchestrator.Calendar.Apply.{AuthoritySource}
use ubu_orchestrator.Tasks.Record.{Env, TaskForTransition}

module _ (env : Env) where
  open env use {
    World, Mutation, Universe, task_mutations, validate_mutations_for_mode,
    read_current_universe_state, admit_seed, apply_universe_mutations, persist_universe_state,
  }

  abbrev seeded : Option (Universe × ℕ) → Result (Universe × ℕ)
  seeded none = err (internal "UniverseState missing after seed admission")
  seeded (some current) = ok current

  -- The current universe state, admitted first if there is none.
  unfoldable pub current_or_seed :
      TaskForTransition → AuthoritySource → Option (Universe × ℕ) → Exec World (Universe × ℕ)
  current_or_seed task authority_source (some current) = pure current
  current_or_seed task authority_source none = do
    admit_seed task authority_source
    again ← check read_current_universe_state
    lift (seeded again)

  unfoldable pub persist_next :
      TaskForTransition → AuthoritySource → ℕ → String ⊎ Universe → Exec World (List DiagnosticBody)
  persist_next task authority_source version (inl message) =
      pure (record { code = "task_effect_application_failed"; message = message } ∷ [])
  persist_next task authority_source version (inr next) = do
    persist_universe_state task version next authority_source
    pure []

  unfoldable pub apply_mutations :
      TaskForTransition
      → AuthoritySource
      → List Mutation
      → Option String
      → Exec World (List DiagnosticBody)
  unfolding current_or_seed persist_next
  apply_mutations task authority_source mutations (some message) =
      pure (record { code = "task_effect_mode_invalid"; message = message } ∷ [])
  apply_mutations task authority_source mutations none = do
    found ← check read_current_universe_state
    current ← current_or_seed task authority_source found
    persist_next task authority_source current.1 (apply_universe_mutations current.0 mutations)

  abbrev unless_empty :
      TaskForTransition → AuthoritySource → List Mutation → Exec World (List DiagnosticBody)
  unless_empty task authority_source [] = pure []
  unless_empty task authority_source (m ∷ ms) =
      apply_mutations task authority_source (m ∷ ms) (validate_mutations_for_mode (m ∷ ms))

  unfoldable pub apply_completed_effects :
      TaskForTransition → AuthoritySource → Exec World (List DiagnosticBody)
  unfolding apply_mutations
  apply_completed_effects task authority_source =
      if task.payload.has_effects_field
      then lift (task_mutations task) >>= unless_empty task authority_source
      else pure []
