-- ===== src/AnalysisRuns/Presenting.antt =====
-- apps/api/api_app/metadata_analysis_runs.py: submitting a run, and its status as clients see it. The
-- request models of apps/api/api_app/schemas.py are parameters: how each one reads a payload, or
-- raises, and the payload of a request.
use mssql_ai_project.Base.{ℕ, String, Option, none, some}
use mssql_ai_project.Base.Json.{Fields}
use mssql_ai_project.Base.Result.{Result, ok, ◌>>=◌}
use mssql_ai_project.Base.Exec
use mssql_ai_project.Base.Exec.{lift}
use mssql_ai_project.Repository
use mssql_ai_project.Repository.{
  MetadataAnalysisRunRecord, World, MemoryWorkflowRepository, prefixed_id,
}
use mssql_ai_project.AnalysisRuns.{ServiceError, Attempt, embed}

-- `Model.model_validate(value) if value is not None else None`
abbrev pub validate_given :
    {A : Type 0} → (Fields → Result ServiceError A) → Option Fields → Result ServiceError (Option A)
validate_given validate none = ok none
validate_given validate (some value) = validate value >>= λ a. ok (some a)

pub record MetadataAnalysisRunStatus (Request Response Error : Type 0) : Type 0 where
  pub run_id : String
  pub status : String
  pub submitted_at : ℕ
  pub started_at : Option ℕ
  pub completed_at : Option ℕ
  pub request : Request
  pub analysis : Option Response
  pub error : Option Error

module _ {Request Response Error : Type 0} (validate_request : Fields → Result ServiceError Request)
    (validate_analysis : Fields → Result ServiceError Response)
    (validate_error : Fields → Result ServiceError Error) where
  unfoldable pub present_metadata_analysis_run :
      MetadataAnalysisRunRecord
      → Result ServiceError (MetadataAnalysisRunStatus Request Response Error)
  present_metadata_analysis_run run = do
    analysis ← validate_given validate_analysis run.analysis
    error ← validate_given validate_error run.error
    request ← validate_request run.request
    ok (record {
      run_id = run.run_id;
      status = run.status;
      submitted_at = run.submitted_at;
      started_at = run.started_at;
      completed_at = run.completed_at;
      request = request;
      analysis = analysis;
      error = error;
    })

  unfoldable pub get_metadata_analysis_run :
      String
      → MemoryWorkflowRepository
      → Result ServiceError (Option (MetadataAnalysisRunStatus Request Response Error))
  get_metadata_analysis_run run_id s = elim (Repository.get_metadata_analysis_run run_id s) [
    | none ↦ ok none
    | some run ↦ present_metadata_analysis_run run >>= λ status. ok (some status)
  ]

  module _ (w : World) (model_payload : Request → Fields) where
    unfoldable pub create_metadata_analysis_run :
        Request → Attempt (MetadataAnalysisRunStatus Request Response Error)
    create_metadata_analysis_run request =
        Exec.◌>>=◌ (embed (prefixed_id w "metadata_run")) (λ run_id.
          Exec.◌>>=◌
            (embed (Repository.create_metadata_analysis_run w run_id (model_payload request)))
            (λ run. lift (present_metadata_analysis_run run)))
