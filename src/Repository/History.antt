-- ===== src/Repository/History.antt =====
-- The histories of the jobs, over every sequence of calls.
pub mod Jobs
pub mod Others
pub mod Knowledge
use mssql_ai_project.Base.{
  ℕ, String, Bool, ◌≡◌, refl, sym, subst, Option, none, some, List, [], ◌∷◌, ◌++◌, inl, inr,
  Bool-cases, Option-cases,
}
use mssql_ai_project.Base.Dict
use mssql_ai_project.Base.Dict.{Dict, Each, Each-get, Each-put}
use mssql_ai_project.Base.Text.{Text}
use mssql_ai_project.Base.Json.{Fields}
use mssql_ai_project.Base.Result.{Result-cases}
use mssql_ai_project.Base.Exec.{Exec, pure, lift, gets, or_raise, modify, ◌>>=◌}
use mssql_ai_project.Base.Exec.Keeps.{
  IsKept, Invariant, Invariant-IsKept, Keeps, Keeps-modify, keeps_rules,
}
use mssql_ai_project.Lifecycle.{
  JobStatus, submitted, ArtifactType, ArtifactStatus, WorkflowStepType, StateError,
  ensure_job_transition,
}
use mssql_ai_project.Lifecycle.Order.{
  Permitted, IsRunning, Permitted-IsRunning, ensure_job_transition_iff,
}
use mssql_ai_project.Repository.Records.{
  WorkRequestRecord, JobRecord, ArtifactRecord, ValidationReportRecord, MetadataAnalysisRunRecord,
  MetadataDesignRunRecord,
}
use mssql_ai_project.Repository.State.{
  RepositoryError, World, MemoryWorkflowRepository, Method, prefixed_id, utc_now,
}
use mssql_ai_project.Repository.Log.{record_audit_event}
use mssql_ai_project.Repository.Requests.{create_request, update_request_status, set_request_status}
use mssql_ai_project.Repository.Jobs.{
  get_job, checked, create_job, new_job, apply_transition, transition_job, claim_submitted_job,
  apply_failure, fail_job, touch, if_stale, is_stale, claim_stale_active_job,
}
use mssql_ai_project.Repository.Trail.{
  Follows, Follows-IsRunning, IsTracked, HasHistories, new_job-IsTracked, moved-IsTracked,
  failed-IsTracked, touched-IsTracked,
}
use mssql_ai_project.Repository.Artifacts.{
  add_artifact, store_report, correlation_or_job, save_validation_report,
}
use mssql_ai_project.Repository.Collections.{save_metadata_collection, save_agent_run}
use mssql_ai_project.Repository.Runs.{
  create_metadata_analysis_run, start_claimed, claim_metadata_analysis_run,
  mark_metadata_analysis_run_running, mark_metadata_analysis_run_succeeded,
  mark_metadata_analysis_run_failed,
}
use mssql_ai_project.Repository.DesignRuns.{
  create_metadata_design_run, start_claimed_design, claim_metadata_design_run,
  mark_metadata_design_run_running, mark_metadata_design_run_succeeded,
  mark_metadata_design_run_failed,
}
use mssql_ai_project.Repository.Calls.{Call, perform, perform_all, empty_repository}
use mssql_ai_project.Repository.History.Jobs.{
  prefixed_id-KeepsHistories, utc_now-KeepsHistories, put_job-KeepsHistories,
  record_audit_event-KeepsHistories, set_request_status-KeepsHistories,
  update_request_status-KeepsHistories, create_job-KeepsHistories, apply_transition-KeepsHistories,
  apply_failure-KeepsHistories, touch-KeepsHistories, transition_job-KeepsHistories,
  fail_job-KeepsHistories, claim_submitted_job-KeepsHistories,
  claim_stale_active_job-KeepsHistories,
}
use mssql_ai_project.Repository.History.Others.{
  create_request-KeepsHistories, save_metadata_collection-KeepsHistories,
  save_agent_run-KeepsHistories, add_artifact-KeepsHistories, store_report-KeepsHistories,
  correlation_or_job-KeepsHistories, save_validation_report-KeepsHistories,
  start_claimed-KeepsHistories, claim_metadata_analysis_run-KeepsHistories,
  create_metadata_analysis_run-KeepsHistories, mark_running-KeepsHistories,
  mark_succeeded-KeepsHistories, mark_failed-KeepsHistories, start_claimed_design-KeepsHistories,
  claim_metadata_design_run-KeepsHistories, create_metadata_design_run-KeepsHistories,
  mark_design_running-KeepsHistories, mark_design_succeeded-KeepsHistories,
  mark_design_failed-KeepsHistories,
}
use mssql_ai_project.Repository.History.Knowledge.{
  upsert_knowledge_asset-KeepsHistories, save_knowledge_export-KeepsHistories,
}

module _ (w : World) where
  pub perform-KeepsHistories :
      (c : Call) (s : MemoryWorkflowRepository) → HasHistories s → HasHistories (perform w c s)
  unfolding perform
  perform-KeepsHistories (Call.create_request p t o q h c i k) s =
      (create_request-KeepsHistories w p t o q h c i k).at s
  perform-KeepsHistories (Call.update_request_status r st) s =
      (update_request_status-KeepsHistories w r st).at s
  perform-KeepsHistories (Call.create_job r c) s = (create_job-KeepsHistories w r c).at s
  perform-KeepsHistories (Call.transition_job j st step) s =
      (transition_job-KeepsHistories w j st step).at s
  perform-KeepsHistories (Call.claim_submitted_job j) s =
      (claim_submitted_job-KeepsHistories w j).at s
  perform-KeepsHistories (Call.fail_job j c m) s = (fail_job-KeepsHistories w j c m).at s
  perform-KeepsHistories (Call.claim_stale_active_job j t) s =
      (claim_stale_active_job-KeepsHistories w j t).at s
  perform-KeepsHistories (Call.save_metadata_collection j st p) s =
      (save_metadata_collection-KeepsHistories w j st p).at s
  perform-KeepsHistories (Call.save_agent_run j a st r m o i k) s =
      (save_agent_run-KeepsHistories w j a st r m o i k).at s
  perform-KeepsHistories (Call.add_artifact j a t c e g r p v x k) s =
      (add_artifact-KeepsHistories w j a t c e g r p v x k).at s
  perform-KeepsHistories (Call.save_validation_report a st k e p c by) s =
      (save_validation_report-KeepsHistories w a st k e p c by).at s
  perform-KeepsHistories (Call.record_audit_event a t r p by c) s =
      (record_audit_event-KeepsHistories w a t r p by c).at s
  perform-KeepsHistories (Call.create_metadata_analysis_run r q) s =
      (create_metadata_analysis_run-KeepsHistories w r q).at s
  perform-KeepsHistories (Call.claim_metadata_analysis_run r t) s =
      (claim_metadata_analysis_run-KeepsHistories w r t).at s
  perform-KeepsHistories (Call.mark_metadata_analysis_run_running r) s =
      (mark_running-KeepsHistories w r).at s
  perform-KeepsHistories (Call.mark_metadata_analysis_run_succeeded r a) s =
      (mark_succeeded-KeepsHistories w r a).at s
  perform-KeepsHistories (Call.mark_metadata_analysis_run_failed r e) s =
      (mark_failed-KeepsHistories w r e).at s
  perform-KeepsHistories (Call.create_metadata_design_run r v q) s =
      (create_metadata_design_run-KeepsHistories w r v q).at s
  perform-KeepsHistories (Call.claim_metadata_design_run r t) s =
      (claim_metadata_design_run-KeepsHistories w r t).at s
  perform-KeepsHistories (Call.mark_metadata_design_run_running r) s =
      (mark_design_running-KeepsHistories w r).at s
  perform-KeepsHistories (Call.mark_metadata_design_run_succeeded r a) s =
      (mark_design_succeeded-KeepsHistories w r a).at s
  perform-KeepsHistories (Call.mark_metadata_design_run_failed r e) s =
      (mark_design_failed-KeepsHistories w r e).at s
  perform-KeepsHistories (Call.upsert_knowledge_asset j p k t v f e h) s =
      (upsert_knowledge_asset-KeepsHistories w j p k t v f e h).at s
  perform-KeepsHistories (Call.save_knowledge_export f t c h a) s =
      (save_knowledge_export-KeepsHistories w f t c h a).at s

  perform_all-KeepsHistories :
      (cs : List Call) (s : MemoryWorkflowRepository)
      → HasHistories s
      → HasHistories (perform_all w cs s)
  unfolding perform_all
  perform_all-KeepsHistories [] s h = h
  perform_all-KeepsHistories (c ∷ cs) s h =
      perform_all-KeepsHistories cs (perform w c s) (perform-KeepsHistories c s h)

-- Whatever methods of Repository/Calls are called on a new repository, in whatever order and with whatever arguments,
-- returning or raising: a job that is found has its id as its key, its recorded transitions lead by
-- permitted changes from `SUBMITTED` to its status, and that status is none of `REVIEW_PENDING`,
-- `APPROVED`, `REJECTED`, `PUBLISHED` and `CANCELED`.
pub get_job-IsTracked :
    (w : World) (calls : List Call) (key : String) (job : JobRecord)
    → get_job key (perform_all w calls empty_repository) ≡ some job
    → (job.job_id ≡ key) × Follows submitted job.transitions job.status × IsRunning job.status
unfolding get_job
get_job-IsTracked w calls key job found =
    let t : IsTracked key job =
      Each-get IsTracked (perform_all w calls empty_repository).jobs key job
        (perform_all-KeepsHistories w calls empty_repository tt) found in
    (t.own_id, t.history, Follows-IsRunning submitted job.transitions job.status t.history tt)
