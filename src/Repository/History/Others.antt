-- ===== src/Repository/History/Others.antt =====
-- The methods that store no job keep the histories of the jobs.
use mssql_ai_project.Base.{ℕ, String, Bool, Option, none, some, List, [], ◌∷◌}
use mssql_ai_project.Base.Dict.{Dict}
use mssql_ai_project.Base.Text.{Text}
use mssql_ai_project.Base.Json.{Fields}
use mssql_ai_project.Lifecycle.{ArtifactType, ArtifactStatus}
use mssql_ai_project.Repository.Records.{
  ArtifactRecord, ValidationReportRecord, MetadataAnalysisRunRecord, MetadataDesignRunRecord,
}
use mssql_ai_project.Repository.State.{World}
use mssql_ai_project.Repository.Requests.{create_request}
use mssql_ai_project.Repository.Artifacts.{
  add_artifact, store_report, correlation_or_job, save_validation_report,
}
use mssql_ai_project.Repository.Collections.{save_metadata_collection, save_agent_run}
use mssql_ai_project.Repository.Runs.{
  create_metadata_analysis_run, start_claimed, claim_metadata_analysis_run,
  mark_metadata_analysis_run_running, mark_metadata_analysis_run_succeeded,
  mark_metadata_analysis_run_failed,
}
use mssql_ai_project.Repository.DesignRuns.{
  create_metadata_design_run, start_claimed_design, claim_metadata_design_run,
  mark_metadata_design_run_running, mark_metadata_design_run_succeeded,
  mark_metadata_design_run_failed,
}
use mssql_ai_project.Repository.History.Jobs.{KeepsHistories, history_rules}

module _ (w : World) where
  pub create_request-KeepsHistories :
      (p : Text) (t : Fields) (o : List Text) (q : Fields) (h c : Text) (i k : Option Text)
      → KeepsHistories (create_request w p t o q h c i k)
  unfolding create_request
  create_request-KeepsHistories p t o q h c i k = search history_rules depth 16

  pub save_metadata_collection-KeepsHistories :
      (j : String) (st : Text) (p : Fields) → KeepsHistories (save_metadata_collection w j st p)
  unfolding save_metadata_collection
  save_metadata_collection-KeepsHistories j st p = search history_rules depth 16

  pub save_agent_run-KeepsHistories :
      (j : String) (a st r m : Text) (o i : Fields) (k : Option Text)
      → KeepsHistories (save_agent_run w j a st r m o i k)
  unfolding save_agent_run
  save_agent_run-KeepsHistories j a st r m o i k = search history_rules depth 16

  pub add_artifact-KeepsHistories :
      (j : String) (a : ArtifactType) (t c : Text) (e : List Fields) (g : Text) (r p : List Text)
      (v : Bool) (x : Option Fields) (k : Option Text)
      → KeepsHistories (add_artifact w j a t c e g r p v x k)
  unfolding add_artifact
  add_artifact-KeepsHistories j a t c e g r p v x k = search history_rules depth 16

  pub store_report-KeepsHistories :
      (a : String) (art : ArtifactRecord) (n : ArtifactStatus) (r : ValidationReportRecord)
      → KeepsHistories (store_report w a art n r)
  unfolding store_report
  store_report-KeepsHistories a art n r = search history_rules depth 12

  pub correlation_or_job-KeepsHistories :
      (c : Option Text) (j : String) → KeepsHistories (correlation_or_job w c j)
  unfolding correlation_or_job
  correlation_or_job-KeepsHistories none j = search history_rules depth 8
  correlation_or_job-KeepsHistories (some []) j = search history_rules depth 8
  correlation_or_job-KeepsHistories (some (x ∷ xs)) j = search history_rules depth 8

  pub save_validation_report-KeepsHistories :
      (a st : String) (k : List (Dict Text)) (e p : List Text) (c : Option Text) (by : Text)
      → KeepsHistories (save_validation_report w a st k e p c by)
  unfolding save_validation_report
  save_validation_report-KeepsHistories a st k e p c by =
      search (history_rules, store_report-KeepsHistories, correlation_or_job-KeepsHistories) depth
        20

  pub start_claimed-KeepsHistories :
      (r : String) (q : Option MetadataAnalysisRunRecord) → KeepsHistories (start_claimed w r q)
  unfolding start_claimed
  start_claimed-KeepsHistories r none = search history_rules
  start_claimed-KeepsHistories r (some q) = search history_rules depth 10

  pub claim_metadata_analysis_run-KeepsHistories :
      (r : String) (t : ℕ) → KeepsHistories (claim_metadata_analysis_run w r t)
  unfolding claim_metadata_analysis_run
  claim_metadata_analysis_run-KeepsHistories r t =
      search (history_rules, start_claimed-KeepsHistories)

  pub create_metadata_analysis_run-KeepsHistories :
      (r : String) (q : Fields) → KeepsHistories (create_metadata_analysis_run w r q)
  unfolding create_metadata_analysis_run
  create_metadata_analysis_run-KeepsHistories r q = search history_rules depth 10

  pub mark_running-KeepsHistories :
      (r : String) → KeepsHistories (mark_metadata_analysis_run_running w r)
  unfolding mark_metadata_analysis_run_running
  mark_running-KeepsHistories r = search history_rules depth 12

  pub mark_succeeded-KeepsHistories :
      (r : String) (a : Fields) → KeepsHistories (mark_metadata_analysis_run_succeeded w r a)
  unfolding mark_metadata_analysis_run_succeeded
  mark_succeeded-KeepsHistories r a = search history_rules depth 12

  pub mark_failed-KeepsHistories :
      (r : String) (e : Fields) → KeepsHistories (mark_metadata_analysis_run_failed w r e)
  unfolding mark_metadata_analysis_run_failed
  mark_failed-KeepsHistories r e = search history_rules depth 12

  pub start_claimed_design-KeepsHistories :
      (r : String) (q : Option MetadataDesignRunRecord)
      → KeepsHistories (start_claimed_design w r q)
  unfolding start_claimed_design
  start_claimed_design-KeepsHistories r none = search history_rules
  start_claimed_design-KeepsHistories r (some q) = search history_rules depth 10

  pub claim_metadata_design_run-KeepsHistories :
      (r : String) (t : ℕ) → KeepsHistories (claim_metadata_design_run w r t)
  unfolding claim_metadata_design_run
  claim_metadata_design_run-KeepsHistories r t =
      search (history_rules, start_claimed_design-KeepsHistories)

  pub create_metadata_design_run-KeepsHistories :
      (r v : String) (q : Fields) → KeepsHistories (create_metadata_design_run w r v q)
  unfolding create_metadata_design_run
  create_metadata_design_run-KeepsHistories r v q = search history_rules depth 10

  pub mark_design_running-KeepsHistories :
      (r : String) → KeepsHistories (mark_metadata_design_run_running w r)
  unfolding mark_metadata_design_run_running
  mark_design_running-KeepsHistories r = search history_rules depth 12

  pub mark_design_succeeded-KeepsHistories :
      (r : String) (a : Fields) → KeepsHistories (mark_metadata_design_run_succeeded w r a)
  unfolding mark_metadata_design_run_succeeded
  mark_design_succeeded-KeepsHistories r a = search history_rules depth 12

  pub mark_design_failed-KeepsHistories :
      (r : String) (e : Fields) → KeepsHistories (mark_metadata_design_run_failed w r e)
  unfolding mark_metadata_design_run_failed
  mark_design_failed-KeepsHistories r e = search history_rules depth 12
