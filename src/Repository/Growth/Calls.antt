-- ===== src/Repository/Growth/Calls.antt =====
-- Every sequence of calls of the repository only adds to it.
use mssql_ai_project.Base.{List, [], ◌∷◌}
use mssql_ai_project.Repository.State.{World, MemoryWorkflowRepository}
use mssql_ai_project.Repository.Calls.{Call, perform, perform_all}
use mssql_ai_project.Repository.Growth.{Grows, Grows-refl, Grows-trans}
use mssql_ai_project.Repository.Growth.Methods.{
  record_audit_event-KeepsAll, update_request_status-KeepsAll, create_request-KeepsAll,
  create_job-KeepsAll, transition_job-KeepsAll, claim_submitted_job-KeepsAll, fail_job-KeepsAll,
  claim_stale_active_job-KeepsAll, save_metadata_collection-KeepsAll, save_agent_run-KeepsAll,
  add_artifact-KeepsAll, save_validation_report-KeepsAll, claim_metadata_analysis_run-KeepsAll,
  create_metadata_analysis_run-KeepsAll, mark_metadata_analysis_run_running-KeepsAll,
  mark_metadata_analysis_run_succeeded-KeepsAll, mark_metadata_analysis_run_failed-KeepsAll,
  claim_metadata_design_run-KeepsAll, create_metadata_design_run-KeepsAll,
  mark_metadata_design_run_running-KeepsAll, mark_metadata_design_run_succeeded-KeepsAll,
  mark_metadata_design_run_failed-KeepsAll,
}
use mssql_ai_project.Repository.Growth.Knowledge.{
  upsert_knowledge_asset-KeepsAll, save_knowledge_export-KeepsAll,
}

module _ (w : World) where
  pub perform-Grows : (c : Call) (s : MemoryWorkflowRepository) → Grows s (perform w c s)
  unfolding perform
  perform-Grows (Call.create_request p t o q h c i k) s =
      (create_request-KeepsAll w p t o q h c i k).at s
  perform-Grows (Call.update_request_status r st) s = (update_request_status-KeepsAll w r st).at s
  perform-Grows (Call.create_job r c) s = (create_job-KeepsAll w r c).at s
  perform-Grows (Call.transition_job j st step) s = (transition_job-KeepsAll w j st step).at s
  perform-Grows (Call.claim_submitted_job j) s = (claim_submitted_job-KeepsAll w j).at s
  perform-Grows (Call.fail_job j c m) s = (fail_job-KeepsAll w j c m).at s
  perform-Grows (Call.claim_stale_active_job j t) s = (claim_stale_active_job-KeepsAll w j t).at s
  perform-Grows (Call.save_metadata_collection j st p) s =
      (save_metadata_collection-KeepsAll w j st p).at s
  perform-Grows (Call.save_agent_run j a st r m o i k) s =
      (save_agent_run-KeepsAll w j a st r m o i k).at s
  perform-Grows (Call.add_artifact j a t c e g r p v x k) s =
      (add_artifact-KeepsAll w j a t c e g r p v x k).at s
  perform-Grows (Call.save_validation_report a st k e p c by) s =
      (save_validation_report-KeepsAll w a st k e p c by).at s
  perform-Grows (Call.record_audit_event a t r p by c) s =
      (record_audit_event-KeepsAll w a t r p by c).at s
  perform-Grows (Call.create_metadata_analysis_run r q) s =
      (create_metadata_analysis_run-KeepsAll w r q).at s
  perform-Grows (Call.claim_metadata_analysis_run r t) s =
      (claim_metadata_analysis_run-KeepsAll w r t).at s
  perform-Grows (Call.mark_metadata_analysis_run_running r) s =
      (mark_metadata_analysis_run_running-KeepsAll w r).at s
  perform-Grows (Call.mark_metadata_analysis_run_succeeded r a) s =
      (mark_metadata_analysis_run_succeeded-KeepsAll w r a).at s
  perform-Grows (Call.mark_metadata_analysis_run_failed r e) s =
      (mark_metadata_analysis_run_failed-KeepsAll w r e).at s
  perform-Grows (Call.create_metadata_design_run r v q) s =
      (create_metadata_design_run-KeepsAll w r v q).at s
  perform-Grows (Call.claim_metadata_design_run r t) s =
      (claim_metadata_design_run-KeepsAll w r t).at s
  perform-Grows (Call.mark_metadata_design_run_running r) s =
      (mark_metadata_design_run_running-KeepsAll w r).at s
  perform-Grows (Call.mark_metadata_design_run_succeeded r a) s =
      (mark_metadata_design_run_succeeded-KeepsAll w r a).at s
  perform-Grows (Call.mark_metadata_design_run_failed r e) s =
      (mark_metadata_design_run_failed-KeepsAll w r e).at s
  perform-Grows (Call.upsert_knowledge_asset j p k t v f e h) s =
      (upsert_knowledge_asset-KeepsAll w j p k t v f e h).at s
  perform-Grows (Call.save_knowledge_export f t c h a) s =
      (save_knowledge_export-KeepsAll w f t c h a).at s

-- Whatever methods of Repository/Calls are called, in whatever order, returning or raising: the audit events that were
-- there are still there, in place, with the new ones after them, and every id of a request, job,
-- metadata collection, agent run, artifact, validation report, analysis run, design run, knowledge asset, version or export still has its record.
pub perform_all-Grows :
    (w : World) (calls : List Call) (s : MemoryWorkflowRepository) → Grows s (perform_all w calls s)
unfolding perform_all
perform_all-Grows w [] s = Grows-refl s
perform_all-Grows w (c ∷ cs) s =
    Grows-trans s (perform w c s) (perform_all w cs (perform w c s)) (perform-Grows w c s)
      (perform_all-Grows w cs (perform w c s))
