-- ===== src/Repository/Checks/Stored.antt =====
-- apps/api/api_app/memory_repository.py at concrete inputs: runs and artifacts.
use mssql_ai_project.Base.{◌+◌, ◌≡◌, ◌≢◌, refl, true, none, some, [], ◌∷◌, arith}
use mssql_ai_project.Base.Dict
use mssql_ai_project.Base.Exec
use mssql_ai_project.Base.Text.{codes}
use mssql_ai_project.Base.Json.{empty}
use mssql_ai_project.Base.Result.{ok, err}
use mssql_ai_project.Lifecycle.{
  job_eq, ArtifactStatus, draft, artifact_status_after_validation, ArtifactType,
}
use mssql_ai_project.Repository.Records.{
  ArtifactRecord, MetadataAnalysisRunRecord, MetadataDesignRunRecord,
}
use mssql_ai_project.Repository.State.{utc_now, MemoryWorkflowRepository, key_error}
use mssql_ai_project.Repository.Artifacts.{save_validation_report, validation_storage_result}
use mssql_ai_project.Repository.Runs.{
  claim_metadata_analysis_run, metadata_analysis_run_is_recoverable, start_claimed, if_recoverable,
}
use mssql_ai_project.Repository.DesignRuns.{
  claim_metadata_design_run, metadata_design_run_is_recoverable, start_claimed_design,
  if_design_recoverable,
}
use mssql_ai_project.Repository.StaleClaims.{claim_metadata_analysis_run_once}
use mssql_ai_project.Repository.Transitions.{Appends, SameRest}
use mssql_ai_project.Repository.Validation.{
  report_of, save_validation_report_accepted, orphan_report_stored,
}
use mssql_ai_project.Repository.Checks.{world}

abbrev analysis_run : MetadataAnalysisRunRecord
analysis_run = record {
  run_id = "run_1";
  status = "QUEUED";
  request = empty;
  submitted_at = 900;
  started_at = none;
  completed_at = none;
  analysis = none;
  error = none;
}

abbrev design_run : MetadataDesignRunRecord
design_run = record {
  run_id = "run_2";
  conversation_id = "conv_1";
  status = "RUNNING";
  request = empty;
  submitted_at = 900;
  started_at = some 901;
  completed_at = none;
  result = none;
  error = none;
}

abbrev artifact : ArtifactRecord
artifact = record {
  artifact_id = "art_1";
  job_id = "job_a0";
  type = ArtifactType.service_draft;
  status = draft;
  title = codes "Draft";
  content = codes "select";
  evidence_refs = [];
  generator_version = codes "1";
  registry_refs = [];
  assumptions = [];
  review_required = true;
  target_key = none;
  extra = empty;
  created_at = 900;
  updated_at = 900;
  latest_validation_report_id = none;
  latest_validation_status = none;
}

abbrev stocked : MemoryWorkflowRepository
stocked = record {
  requests = [];
  jobs = [];
  metadata_collections = [];
  agent_runs = [];
  artifacts = ("art_1", artifact) ∷ [];
  validation_reports = [];
  knowledge_assets = [];
  knowledge_versions = [];
  knowledge_exports = [];
  knowledge_job_links = [];
  metadata_analysis_runs = ("run_1", analysis_run) ∷ [];
  metadata_design_runs = ("run_2", design_run) ∷ [];
  audit_events = [];
  ids_drawn = 1;
  clock_reads = 2;
}

abbrev started_run : MetadataAnalysisRunRecord
started_run = record analysis_run { status = "RUNNING"; started_at = some 1002 }

run_claimed : (claim_metadata_analysis_run world "run_1" 950 stocked).0 ≡ ok (some started_run)
unfolding claim_metadata_analysis_run Exec.◌>>=◌ start_claimed if_recoverable Dict.get
    metadata_analysis_run_is_recoverable utc_now
run_claimed = refl

claim_metadata_analysis_run_once_example :
    let t = (claim_metadata_analysis_run world "run_1" 950 stocked).1 in
    ((old : MetadataAnalysisRunRecord) × (Dict.get stocked.metadata_analysis_runs "run_1"
        ≡ some old)
      × (metadata_analysis_run_is_recoverable old 950 ≡ true))
    × (started_run.status ≡ "RUNNING")
    × (started_run.error ≡ none)
    × (Dict.get t.metadata_analysis_runs "run_1" ≡ some started_run)
    × (claim_metadata_analysis_run world "run_1" 950 t ≡ (ok none, t))
claim_metadata_analysis_run_once_example =
    claim_metadata_analysis_run_once world stocked "run_1" 950 started_run run_claimed (omega arith)

abbrev restarted_run : MetadataDesignRunRecord
restarted_run = record design_run { started_at = some 1002 }

design_run_claimed :
    (claim_metadata_design_run world "run_2" 950 stocked).0 ≡ ok (some restarted_run)
unfolding claim_metadata_design_run Exec.◌>>=◌ start_claimed_design if_design_recoverable Dict.get
    metadata_design_run_is_recoverable utc_now
design_run_claimed = refl

found_artifact : Dict.get stocked.artifacts "art_1" ≡ some artifact
unfolding Dict.get
found_artifact = refl

no_job : Dict.get stocked.jobs "job_a0" ≡ none
unfolding Dict.get
no_job = refl

artifact_is_draft : draft ≢ ArtifactStatus.published
artifact_is_draft = λ e. ground arith

passed : validation_storage_result "PASSED" ≡ ok "PASS"
unfolding validation_storage_result
passed = refl

save_validation_report_accepted_example :
    let (r, t) =
      save_validation_report world "art_1" "PASSED" [] [] []
        (some (codes "c1"))
        (codes "AI_PLATFORM_API")
        stocked in
    let report = report_of world stocked "art_1" "PASSED" [] [] [] "PASS" in
    (r ≡ ok report)
    × (t.validation_reports
        ≡ Dict.put stocked.validation_reports report.validation_report_id report)
    × (t.artifacts
        ≡ Dict.put stocked.artifacts "art_1" (record artifact {
          latest_validation_report_id = some report.validation_report_id;
          latest_validation_status = some "PASSED";
          updated_at = world.clock (stocked.clock_reads + 1);
          status = artifact_status_after_validation "PASSED" artifact.status;
        }))
    × Appends "ARTIFACT_VALIDATED" "art_1" stocked.audit_events t.audit_events
    × (t.jobs ≡ stocked.jobs)
    × (t.requests ≡ stocked.requests)
    × SameRest stocked t
save_validation_report_accepted_example =
    save_validation_report_accepted world stocked "art_1" "PASSED" [] [] [] 99 (49 ∷ [])
      (codes "AI_PLATFORM_API") artifact "PASS" found_artifact artifact_is_draft passed

orphan_report_stored_example :
    let (r, t) =
      save_validation_report world "art_1" "PASSED" [] [] [] none
        (codes "AI_PLATFORM_API")
        stocked in
    let report = report_of world stocked "art_1" "PASSED" [] [] [] "PASS" in
    (r ≡ err (key_error artifact.job_id))
    × (t.validation_reports
        ≡ Dict.put stocked.validation_reports report.validation_report_id report)
    × (t.artifacts
        ≡ Dict.put stocked.artifacts "art_1" (record artifact {
          latest_validation_report_id = some report.validation_report_id;
          latest_validation_status = some "PASSED";
          updated_at = world.clock (stocked.clock_reads + 1);
          status = artifact_status_after_validation "PASSED" artifact.status;
        }))
    × (t.audit_events ≡ stocked.audit_events)
orphan_report_stored_example =
    orphan_report_stored world stocked "art_1" "PASSED" [] [] [] (codes "AI_PLATFORM_API") artifact
      "PASS" found_artifact artifact_is_draft passed no_job
