-- ===== src/DesignRuns/Presenting.antt =====
-- apps/api/api_app/metadata_design_runs.py: the status of a run as clients see it. The models of
-- apps/api/api_app/schemas.py are parameters: how each one reads a payload, or raises.
use mssql_ai_project.Base.{ℕ, String, Option, none, some, List, [], ◌∷◌}
use mssql_ai_project.Base.Int.{ℤ}
use mssql_ai_project.Base.Json.{Fields}
use mssql_ai_project.Base.Result.{Result, ok, ◌>>=◌}
use mssql_ai_project.Repository
use mssql_ai_project.Repository.{MetadataDesignRunRecord, MemoryWorkflowRepository}
use mssql_ai_project.AnalysisRuns.{ServiceError}
use mssql_ai_project.AnalysisRuns.Presenting.{validate_given}

pub record MetadataDesignRunStatus (Request Design Error : Type 0) : Type 0 where
  pub run_id : String
  pub conversation_id : String
  pub status : String
  pub submitted_at : ℕ
  pub started_at : Option ℕ
  pub completed_at : Option ℕ
  pub request : Request
  pub result : Option Design
  pub error : Option Error

pub record MetadataDesignConversation (Request Design Error : Type 0) : Type 0 where
  pub conversation_id : String
  pub runs : List (MetadataDesignRunStatus Request Design Error)

module _ {Request Design Error : Type 0} (validate_request : Fields → Result ServiceError Request)
    (validate_result : Fields → Result ServiceError Design)
    (validate_error : Fields → Result ServiceError Error) where
  unfoldable pub present_metadata_design_run :
      MetadataDesignRunRecord → Result ServiceError (MetadataDesignRunStatus Request Design Error)
  present_metadata_design_run run = do
    result ← validate_given validate_result run.result
    error ← validate_given validate_error run.error
    request ← validate_request run.request
    ok (record {
      run_id = run.run_id;
      conversation_id = run.conversation_id;
      status = run.status;
      submitted_at = run.submitted_at;
      started_at = run.started_at;
      completed_at = run.completed_at;
      request = request;
      result = result;
      error = error;
    })

  unfoldable pub get_metadata_design_run :
      String
      → MemoryWorkflowRepository
      → Result ServiceError (Option (MetadataDesignRunStatus Request Design Error))
  get_metadata_design_run run_id s = elim (Repository.get_metadata_design_run run_id s) [
    | none ↦ ok none
    | some run ↦ present_metadata_design_run run >>= λ status. ok (some status)
  ]

  unfoldable pub present_all :
      List MetadataDesignRunRecord
      → Result ServiceError (List (MetadataDesignRunStatus Request Design Error))
  present_all [] = ok []
  present_all (run ∷ runs) = do
    status ← present_metadata_design_run run
    statuses ← present_all runs
    ok (status ∷ statuses)

  unfoldable pub list_metadata_design_conversation :
      String
      → ℤ
      → MemoryWorkflowRepository
      → Result ServiceError (MetadataDesignConversation Request Design Error)
  list_metadata_design_conversation conversation_id limit s = do
    runs ←
        present_all (Repository.list_metadata_design_runs_for_conversation conversation_id limit s)
    ok (record { conversation_id = conversation_id; runs = runs })
