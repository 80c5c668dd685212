-- ===== src/Repository/Growth/Methods.antt =====
-- Every method of the repository only adds to it.
use mssql_ai_project.Base.{ℕ, String, Bool, Option, none, some, List, [], ◌∷◌}
use mssql_ai_project.Base.Dict.{Dict}
use mssql_ai_project.Base.Text.{Text}
use mssql_ai_project.Base.Json.{Fields}
use mssql_ai_project.Lifecycle.{JobStatus, WorkflowStepType, ArtifactType, ArtifactStatus}
use mssql_ai_project.Repository.Records.{
  WorkRequestRecord, JobRecord, ArtifactRecord, ValidationReportRecord, MetadataAnalysisRunRecord,
  MetadataDesignRunRecord,
}
use mssql_ai_project.Repository.State.{World}
use mssql_ai_project.Repository.Log.{record_audit_event}
use mssql_ai_project.Repository.Requests.{create_request, update_request_status, set_request_status}
use mssql_ai_project.Repository.Jobs.{
  create_job, apply_transition, transition_job, claim_submitted_job, apply_failure, fail_job, touch,
  claim_stale_active_job,
}
use mssql_ai_project.Repository.Artifacts.{
  add_artifact, store_report, correlation_or_job, save_validation_report,
}
use mssql_ai_project.Repository.Collections.{save_metadata_collection, save_agent_run}
use mssql_ai_project.Repository.Runs.{
  create_metadata_analysis_run, start_claimed, claim_metadata_analysis_run,
  mark_metadata_analysis_run_running, mark_metadata_analysis_run_succeeded,
  mark_metadata_analysis_run_failed,
}
use mssql_ai_project.Repository.DesignRuns.{
  create_metadata_design_run, start_claimed_design, claim_metadata_design_run,
  mark_metadata_design_run_running, mark_metadata_design_run_succeeded,
  mark_metadata_design_run_failed,
}
use mssql_ai_project.Repository.Growth.{KeepsAll, growth_rules}

module _ (w : World) where
  pub record_audit_event-KeepsAll :
      (a k r : String) (p : Fields) (by : Text) (c : Option Text)
      → KeepsAll (record_audit_event w a k r p by c)
  unfolding record_audit_event
  record_audit_event-KeepsAll a k r p by c = search growth_rules depth 12

  set_request_status-KeepsAll :
      (r : String) (st : JobStatus) (q : Option WorkRequestRecord)
      → KeepsAll (set_request_status w r st q)
  unfolding set_request_status
  set_request_status-KeepsAll r st none = search growth_rules
  set_request_status-KeepsAll r st (some q) = search growth_rules depth 10

  pub update_request_status-KeepsAll :
      (r : String) (st : JobStatus) → KeepsAll (update_request_status w r st)
  unfolding update_request_status
  update_request_status-KeepsAll r st = search (growth_rules, set_request_status-KeepsAll)

  pub create_request-KeepsAll :
      (p : Text) (t : Fields) (o : List Text) (q : Fields) (h c : Text) (i k : Option Text)
      → KeepsAll (create_request w p t o q h c i k)
  unfolding create_request
  create_request-KeepsAll p t o q h c i k =
      search (growth_rules, record_audit_event-KeepsAll) depth 16

  pub create_job-KeepsAll : (r : String) (c : Option Text) → KeepsAll (create_job w r c)
  unfolding create_job
  create_job-KeepsAll r c = search growth_rules depth 14

  apply_transition-KeepsAll :
      (j : String) (st : JobStatus) (step : Option WorkflowStepType) (job : JobRecord)
      → KeepsAll (apply_transition w j st step job)
  unfolding apply_transition
  apply_transition-KeepsAll j st step job =
      search (growth_rules, record_audit_event-KeepsAll, update_request_status-KeepsAll) depth 14

  pub transition_job-KeepsAll :
      (j : String) (st : JobStatus) (step : Option WorkflowStepType)
      → KeepsAll (transition_job w j st step)
  unfolding transition_job
  transition_job-KeepsAll j st step = search (growth_rules, apply_transition-KeepsAll) depth 10

  pub claim_submitted_job-KeepsAll : (j : String) → KeepsAll (claim_submitted_job w j)
  unfolding claim_submitted_job
  claim_submitted_job-KeepsAll j = search (growth_rules, transition_job-KeepsAll) depth 10

  apply_failure-KeepsAll :
      (j : String) (c m : Text) (job : JobRecord) → KeepsAll (apply_failure w j c m job)
  unfolding apply_failure
  apply_failure-KeepsAll j c m job =
      search (growth_rules, record_audit_event-KeepsAll, update_request_status-KeepsAll) depth 14

  pub fail_job-KeepsAll : (j : String) (c m : Text) → KeepsAll (fail_job w j c m)
  unfolding fail_job
  fail_job-KeepsAll j c m = search (growth_rules, apply_failure-KeepsAll) depth 10

  touch-KeepsAll : (j : String) (q : Option JobRecord) → KeepsAll (touch w j q)
  unfolding touch
  touch-KeepsAll j none = search growth_rules
  touch-KeepsAll j (some q) = search growth_rules depth 10

  pub claim_stale_active_job-KeepsAll :
      (j : String) (t : ℕ) → KeepsAll (claim_stale_active_job w j t)
  unfolding claim_stale_active_job
  claim_stale_active_job-KeepsAll j t = search (growth_rules, touch-KeepsAll)

  pub save_metadata_collection-KeepsAll :
      (j : String) (st : Text) (p : Fields) → KeepsAll (save_metadata_collection w j st p)
  unfolding save_metadata_collection
  save_metadata_collection-KeepsAll j st p =
      search (growth_rules, record_audit_event-KeepsAll) depth 16

  pub save_agent_run-KeepsAll :
      (j : String) (a st r m : Text) (o i : Fields) (k : Option Text)
      → KeepsAll (save_agent_run w j a st r m o i k)
  unfolding save_agent_run
  save_agent_run-KeepsAll j a st r m o i k =
      search (growth_rules, record_audit_event-KeepsAll) depth 16

  pub add_artifact-KeepsAll :
      (j : String) (a : ArtifactType) (t c : Text) (e : List Fields) (g : Text) (r p : List Text)
      (v : Bool) (x : Option Fields) (k : Option Text)
      → KeepsAll (add_artifact w j a t c e g r p v x k)
  unfolding add_artifact
  add_artifact-KeepsAll j a t c e g r p v x k =
      search (growth_rules, record_audit_event-KeepsAll) depth 16

  store_report-KeepsAll :
      (a : String) (art : ArtifactRecord) (n : ArtifactStatus) (r : ValidationReportRecord)
      → KeepsAll (store_report w a art n r)
  unfolding store_report
  store_report-KeepsAll a art n r = search growth_rules depth 12

  correlation_or_job-KeepsAll : (c : Option Text) (j : String) → KeepsAll (correlation_or_job w c j)
  unfolding correlation_or_job
  correlation_or_job-KeepsAll none j = search growth_rules depth 8
  correlation_or_job-KeepsAll (some []) j = search growth_rules depth 8
  correlation_or_job-KeepsAll (some (x ∷ xs)) j = search growth_rules depth 8

  pub save_validation_report-KeepsAll :
      (a st : String) (k : List (Dict Text)) (e p : List Text) (c : Option Text) (by : Text)
      → KeepsAll (save_validation_report w a st k e p c by)
  unfolding save_validation_report
  save_validation_report-KeepsAll a st k e p c by =
      search
        (
          growth_rules, record_audit_event-KeepsAll, store_report-KeepsAll,
          correlation_or_job-KeepsAll,
        )
        depth 20

  start_claimed-KeepsAll :
      (r : String) (q : Option MetadataAnalysisRunRecord) → KeepsAll (start_claimed w r q)
  unfolding start_claimed
  start_claimed-KeepsAll r none = search growth_rules
  start_claimed-KeepsAll r (some q) = search growth_rules depth 10

  pub claim_metadata_analysis_run-KeepsAll :
      (r : String) (t : ℕ) → KeepsAll (claim_metadata_analysis_run w r t)
  unfolding claim_metadata_analysis_run
  claim_metadata_analysis_run-KeepsAll r t = search (growth_rules, start_claimed-KeepsAll)

  pub create_metadata_analysis_run-KeepsAll :
      (r : String) (q : Fields) → KeepsAll (create_metadata_analysis_run w r q)
  unfolding create_metadata_analysis_run
  create_metadata_analysis_run-KeepsAll r q = search growth_rules depth 10

  pub mark_metadata_analysis_run_running-KeepsAll :
      (r : String) → KeepsAll (mark_metadata_analysis_run_running w r)
  unfolding mark_metadata_analysis_run_running
  mark_metadata_analysis_run_running-KeepsAll r = search growth_rules depth 12

  pub mark_metadata_analysis_run_succeeded-KeepsAll :
      (r : String) (a : Fields) → KeepsAll (mark_metadata_analysis_run_succeeded w r a)
  unfolding mark_metadata_analysis_run_succeeded
  mark_metadata_analysis_run_succeeded-KeepsAll r a = search growth_rules depth 12

  pub mark_metadata_analysis_run_failed-KeepsAll :
      (r : String) (e : Fields) → KeepsAll (mark_metadata_analysis_run_failed w r e)
  unfolding mark_metadata_analysis_run_failed
  mark_metadata_analysis_run_failed-KeepsAll r e = search growth_rules depth 12

  start_claimed_design-KeepsAll :
      (r : String) (q : Option MetadataDesignRunRecord) → KeepsAll (start_claimed_design w r q)
  unfolding start_claimed_design
  start_claimed_design-KeepsAll r none = search growth_rules
  start_claimed_design-KeepsAll r (some q) = search growth_rules depth 10

  pub claim_metadata_design_run-KeepsAll :
      (r : String) (t : ℕ) → KeepsAll (claim_metadata_design_run w r t)
  unfolding claim_metadata_design_run
  claim_metadata_design_run-KeepsAll r t = search (growth_rules, start_claimed_design-KeepsAll)

  pub create_metadata_design_run-KeepsAll :
      (r v : String) (q : Fields) → KeepsAll (create_metadata_design_run w r v q)
  unfolding create_metadata_design_run
  create_metadata_design_run-KeepsAll r v q = search growth_rules depth 10

  pub mark_metadata_design_run_running-KeepsAll :
      (r : String) → KeepsAll (mark_metadata_design_run_running w r)
  unfolding mark_metadata_design_run_running
  mark_metadata_design_run_running-KeepsAll r = search growth_rules depth 12

  pub mark_metadata_design_run_succeeded-KeepsAll :
      (r : String) (a : Fields) → KeepsAll (mark_metadata_design_run_succeeded w r a)
  unfolding mark_metadata_design_run_succeeded
  mark_metadata_design_run_succeeded-KeepsAll r a = search growth_rules depth 12

  pub mark_metadata_design_run_failed-KeepsAll :
      (r : String) (e : Fields) → KeepsAll (mark_metadata_design_run_failed w r e)
  unfolding mark_metadata_design_run_failed
  mark_metadata_design_run_failed-KeepsAll r e = search growth_rules depth 12
