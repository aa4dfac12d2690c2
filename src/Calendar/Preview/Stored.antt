-- ===== src/Calendar/Preview/Stored.antt =====
-- `preview` of src/services/calendar_apply.rs as a change of the tables: one more stored preview.
use ubu_orchestrator.Base.{ℕ, String, Bool, Option, ◌∷◌}
use ubu_orchestrator.Errors.Exec.{Exec, pure, check, lift, total, ◌>>=◌, ◌>>◌}
use ubu_orchestrator.Calendar.Interaction.{Timestamps}
use ubu_orchestrator.Calendar.Apply.{Tables}
use ubu_orchestrator.Calendar.Preview.{Plan, PreviewResponse, compute_preview}

module _ (plan : Plan) (ts : Timestamps) (timestamp_at : ℕ → Option String) where
  unfoldable pub preview : Bool → Exec Tables PreviewResponse
  unfolding compute_preview
  preview no_external_export = do
    response ← check (compute_preview plan ts timestamp_at no_external_export)
    lift plan.stores
    total (λ tables.
        (record tables { previews = (plan.preview_id, response.stored) ∷ tables.previews }, tt))
    pure response
