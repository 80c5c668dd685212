-- ===== src/Repository/Calls.antt =====
-- The methods of the repository that change it, as calls that a client makes one after the other.
-- A call that raises leaves behind what it wrote before, and the client goes on.
use mssql_ai_project.Base.{ℕ, String, Bool, Option, List, [], ◌∷◌}
use mssql_ai_project.Base.Dict.{Dict}
use mssql_ai_project.Base.Text.{Text}
use mssql_ai_project.Base.Json.{Json, Fields}
use mssql_ai_project.Lifecycle.{JobStatus, WorkflowStepType, ArtifactType}
use mssql_ai_project.Repository.State.{World, MemoryWorkflowRepository}
use mssql_ai_project.Repository.Log
use mssql_ai_project.Repository.Requests
use mssql_ai_project.Repository.Jobs
use mssql_ai_project.Repository.Artifacts
use mssql_ai_project.Repository.Collections
use mssql_ai_project.Repository.Runs
use mssql_ai_project.Repository.DesignRuns
use mssql_ai_project.Repository.Knowledge

pub data Call : Type 0 where
  create_request :
      Text → Fields → List Text → Fields → Text → Text → Option Text → Option Text → Call
  update_request_status : String → JobStatus → Call
  create_job : String → Option Text → Call
  transition_job : String → JobStatus → Option WorkflowStepType → Call
  claim_submitted_job : String → Call
  fail_job : String → Text → Text → Call
  claim_stale_active_job : String → ℕ → Call
  save_metadata_collection : String → Text → Fields → Call
  save_agent_run : String → Text → Text → Text → Text → Fields → Fields → Option Text → Call
  add_artifact :
      String
      → ArtifactType
      → Text
      → Text
      → List Fields
      → Text
      → List Text
      → List Text
      → Bool
      → Option Fields
      → Option Text
      → Call
  save_validation_report :
      String → String → List (Dict Text) → List Text → List Text → Option Text → Text → Call
  record_audit_event : String → String → String → Fields → Text → Option Text → Call
  create_metadata_analysis_run : String → Fields → Call
  claim_metadata_analysis_run : String → ℕ → Call
  mark_metadata_analysis_run_running : String → Call
  mark_metadata_analysis_run_succeeded : String → Fields → Call
  mark_metadata_analysis_run_failed : String → Fields → Call
  create_metadata_design_run : String → String → Fields → Call
  claim_metadata_design_run : String → ℕ → Call
  mark_metadata_design_run_running : String → Call
  mark_metadata_design_run_succeeded : String → Fields → Call
  mark_metadata_design_run_failed : String → Fields → Call
  upsert_knowledge_asset :
      Option String → Text → Text → Fields → Fields → List Json → List Json → Text → Call
  save_knowledge_export : Text → Text → Text → Text → List Text → Call

module _ (w : World) where
  -- The state that a call leaves, whether it returns or raises.
  unfoldable pub perform : Call → MemoryWorkflowRepository → MemoryWorkflowRepository
  perform (create_request p t o q h c i k) s = (Requests.create_request w p t o q h c i k s).1
  perform (update_request_status r st) s = (Requests.update_request_status w r st s).1
  perform (create_job r c) s = (Jobs.create_job w r c s).1
  perform (transition_job j st step) s = (Jobs.transition_job w j st step s).1
  perform (claim_submitted_job j) s = (Jobs.claim_submitted_job w j s).1
  perform (fail_job j c m) s = (Jobs.fail_job w j c m s).1
  perform (claim_stale_active_job j t) s = (Jobs.claim_stale_active_job w j t s).1
  perform (save_metadata_collection j st p) s = (Collections.save_metadata_collection w j st p s).1
  perform (save_agent_run j a st r m o i k) s = (Collections.save_agent_run w j a st r m o i k s).1
  perform (add_artifact j a t c e g r p v x k) s =
      (Artifacts.add_artifact w j a t c e g r p v x k s).1
  perform (save_validation_report a st k e p c by) s =
      (Artifacts.save_validation_report w a st k e p c by s).1
  perform (record_audit_event a t r p by c) s = (Log.record_audit_event w a t r p by c s).1
  perform (create_metadata_analysis_run r q) s = (Runs.create_metadata_analysis_run w r q s).1
  perform (claim_metadata_analysis_run r t) s = (Runs.claim_metadata_analysis_run w r t s).1
  perform (mark_metadata_analysis_run_running r) s =
      (Runs.mark_metadata_analysis_run_running w r s).1
  perform (mark_metadata_analysis_run_succeeded r a) s =
      (Runs.mark_metadata_analysis_run_succeeded w r a s).1
  perform (mark_metadata_analysis_run_failed r e) s =
      (Runs.mark_metadata_analysis_run_failed w r e s).1
  perform (create_metadata_design_run r v q) s = (DesignRuns.create_metadata_design_run w r v q s).1
  perform (claim_metadata_design_run r t) s = (DesignRuns.claim_metadata_design_run w r t s).1
  perform (mark_metadata_design_run_running r) s =
      (DesignRuns.mark_metadata_design_run_running w r s).1
  perform (mark_metadata_design_run_succeeded r a) s =
      (DesignRuns.mark_metadata_design_run_succeeded w r a s).1
  perform (mark_metadata_design_run_failed r e) s =
      (DesignRuns.mark_metadata_design_run_failed w r e s).1
  perform (upsert_knowledge_asset j p k t v f e h) s =
      (Knowledge.upsert_knowledge_asset w j p k t v f e h s).1
  perform (save_knowledge_export f t c h a) s = (Knowledge.save_knowledge_export w f t c h a s).1

  unfoldable pub perform_all : List Call → MemoryWorkflowRepository → MemoryWorkflowRepository
  perform_all [] s = s
  perform_all (c ∷ cs) s = perform_all cs (perform c s)

-- `MemoryWorkflowRepository()`
abbrev pub empty_repository : MemoryWorkflowRepository
empty_repository = record {
  requests = [];
  jobs = [];
  metadata_collections = [];
  agent_runs = [];
  artifacts = [];
  validation_reports = [];
  knowledge_assets = [];
  knowledge_versions = [];
  knowledge_exports = [];
  knowledge_job_links = [];
  metadata_analysis_runs = [];
  metadata_design_runs = [];
  audit_events = [];
  ids_drawn = 0;
  clock_reads = 0;
}
