-- ===== src/Repository/Checks.antt =====
-- apps/api/api_app/memory_repository.py at concrete inputs: jobs.
mod Stored
mod Assets
use mssql_ai_project.Base.{
  ℕ, zero, ◌+◌, String, ◌≡◌, ◌≢◌, refl, true, none, some, List, [], ◌∷◌, length, suc, arith, elem,
}
use mssql_ai_project.Base.Dict
use mssql_ai_project.Base.Exec
use mssql_ai_project.Base.Text.{codes}
use mssql_ai_project.Base.Json.{empty}
use mssql_ai_project.Base.Result.{ok, err}
use mssql_ai_project.Lifecycle.{
  JobStatus, submitted, collecting_metadata, analyzing, collect_metadata, job_eq,
  allowed_job_transitions, terminal_job_statuses, ArtifactStatus, draft, unsupported_job,
  ensure_job_transition, artifact_status_after_validation, ArtifactType,
}
use mssql_ai_project.Lifecycle.Order.{IsRunning}
use mssql_ai_project.Repository.Records.{
  JobRecord, ArtifactRecord, MetadataAnalysisRunRecord, MetadataDesignRunRecord,
}
use mssql_ai_project.Base.Json
use mssql_ai_project.Repository.Audit
use mssql_ai_project.Repository.Audit.{standardized_audit_payload}
use mssql_ai_project.Repository.Log.{record_audit_event}
use mssql_ai_project.Repository.Requests.{update_request_status, set_request_status}
use mssql_ai_project.Repository.State.{
  prefixed_id, utc_now, World, MemoryWorkflowRepository, key_error, state_error,
}
use mssql_ai_project.Repository.Jobs.{
  get_job, transition_job, claim_submitted_job, fail_job, is_stale, claim_stale_active_job, new_job,
}
use mssql_ai_project.Repository.Artifacts.{save_validation_report, validation_storage_result}
use mssql_ai_project.Repository.Runs.{
  claim_metadata_analysis_run, metadata_analysis_run_is_recoverable, start_claimed, if_recoverable,
}
use mssql_ai_project.Repository.DesignRuns.{
  claim_metadata_design_run, metadata_design_run_is_recoverable, start_claimed_design,
  if_design_recoverable,
}
use mssql_ai_project.Repository.Calls
use mssql_ai_project.Repository.Jobs
use mssql_ai_project.Repository.Calls.{Call, perform_all, empty_repository}
use mssql_ai_project.Repository.Trail.{Follows}
use mssql_ai_project.Repository.History.{get_job-IsTracked}
use mssql_ai_project.Repository.Growth.{Grows}
use mssql_ai_project.Repository.Growth.Calls.{perform_all-Grows}
use mssql_ai_project.Repository.Transitions.{
  moved, failed_with, IsMoveTo, transition_job_accepted, transition_job_refused, fail_job_accepted,
}
use mssql_ai_project.Repository.Claims.{claim_submitted_job_lem, claim_submitted_job_once}
use mssql_ai_project.Repository.StaleClaims.{
  claim_stale_active_job_once, claim_metadata_analysis_run_once,
}
use mssql_ai_project.Repository.DesignClaims.{claim_metadata_design_run_once}
use mssql_ai_project.Repository.Validation.{
  report_of, save_validation_report_accepted, orphan_report_stored,
}

abbrev hex : ℕ → String
hex zero = "a0"
hex (suc zero) = "b1"
hex (suc (suc zero)) = "c2"
hex _ = "d3"

abbrev world : World
world = record { uuid_hex = hex; clock = λ n. n + 1000; repr = λ v. codes "{}" }

-- A job, claimed.
abbrev calls : List Call
calls =
    Call.create_job "req_1" (some (codes "corr"))
    ∷ Call.claim_submitted_job "job_a0"
    ∷ Call.claim_submitted_job "job_a0"
    ∷ []

abbrev job : JobRecord
job = new_job "job_a0" "req_1" (some (codes "corr")) none 1000 1001

abbrev one_job : MemoryWorkflowRepository
one_job = record {
  requests = [];
  jobs = ("job_a0", job) ∷ [];
  metadata_collections = [];
  agent_runs = [];
  artifacts = [];
  validation_reports = [];
  knowledge_assets = [];
  knowledge_versions = [];
  knowledge_exports = [];
  knowledge_job_links = [];
  metadata_analysis_runs = [];
  metadata_design_runs = [];
  audit_events = [];
  ids_drawn = 1;
  clock_reads = 2;
}

found_job : Dict.get one_job.jobs "job_a0" ≡ some job
unfolding Dict.get
found_job = refl

job_may_move : ensure_job_transition job.status collecting_metadata ≡ ok tt
unfolding ensure_job_transition new_job allowed_job_transitions terminal_job_statuses elem
job_may_move = refl

job_may_fail : job.status ≢ JobStatus.published
unfolding new_job
job_may_fail = λ e. ground arith

refusal :
    (transition_job world "job_a0" analyzing none one_job).0
    ≡ err (state_error (unsupported_job submitted analyzing))
unfolding transition_job Exec.◌>>=◌ Exec.or_raise Dict.get ensure_job_transition new_job
    allowed_job_transitions terminal_job_statuses elem
refusal = refl

transition_job_accepted_example :
    let (r, t) =
      transition_job world "job_a0" collecting_metadata (some collect_metadata) one_job in
    (r ≡ ok (moved world one_job collecting_metadata (some collect_metadata) job))
    × IsMoveTo world one_job "JOB_TRANSITIONED" "job_a0"
        (moved world one_job collecting_metadata (some collect_metadata) job)
        t
transition_job_accepted_example =
    transition_job_accepted world one_job "job_a0" collecting_metadata (some collect_metadata) job
      found_job job_may_move

transition_job_refused_example : (transition_job world "job_a0" analyzing none one_job).1 ≡ one_job
transition_job_refused_example =
    transition_job_refused world one_job "job_a0" analyzing none
      (state_error (unsupported_job submitted analyzing)) refusal

fail_job_accepted_example :
    let (r, t) = fail_job world "job_a0" (codes "TIMEOUT") (codes "no answer") one_job in
    (r ≡ ok (failed_with world one_job (codes "TIMEOUT") (codes "no answer") job))
    × IsMoveTo world one_job "JOB_FAILED" "job_a0"
        (failed_with world one_job (codes "TIMEOUT") (codes "no answer") job)
        t
fail_job_accepted_example =
    fail_job_accepted world one_job "job_a0" (codes "TIMEOUT") (codes "no answer") job found_job
      job_may_fail

perform_all-Grows_example : Grows one_job (perform_all world calls one_job)
perform_all-Grows_example = perform_all-Grows world calls one_job

abbrev claimed : JobRecord
claimed = record {
  job_id = "job_a0";
  request_id = "req_1";
  status = collecting_metadata;
  current_step = some collect_metadata;
  correlation_id = some (codes "corr");
  db_profile_id = none;
  target = none;
  target_key = none;
  outputs = [];
  created_at = 1000;
  updated_at = 1002;
  error_code = none;
  error_message = none;
  transitions = (collecting_metadata, some collect_metadata) ∷ [];
}

found_claimed : get_job "job_a0" (perform_all world calls empty_repository) ≡ some claimed
unfolding Calls.perform perform_all get_job Jobs.create_job claim_submitted_job transition_job
    Exec.◌>>=◌ Exec.pure Exec.lift Exec.gets Exec.or_raise Exec.modify Dict.get Dict.put
    Jobs.not_submitted Jobs.apply_transition prefixed_id utc_now new_job ensure_job_transition
    allowed_job_transitions terminal_job_statuses elem update_request_status set_request_status
    record_audit_event Jobs.step_or_null standardized_audit_payload Audit.with_correlation
    Audit.mapping_of Json.get Audit.with_defaults Audit.set_default Json.put
found_claimed = refl

get_job-IsTracked_example :
    (claimed.job_id ≡ "job_a0")
    × Follows submitted claimed.transitions claimed.status
    × IsRunning claimed.status
get_job-IsTracked_example = get_job-IsTracked world calls "job_a0" claimed found_claimed

claim_succeeds :
    (claim_submitted_job world "job_a0" one_job).0
    ≡ ok (some (moved world one_job collecting_metadata (some collect_metadata) job))
unfolding new_job
claim_succeeds = (claim_submitted_job_lem world one_job "job_a0" job found_job refl).0

claim_submitted_job_once_example :
    let t = (claim_submitted_job world "job_a0" one_job).1 in
    let claimed_job = moved world one_job collecting_metadata (some collect_metadata) job in
    ((old : JobRecord) × (Dict.get one_job.jobs "job_a0" ≡ some old) × (old.status ≡ submitted))
    × (claimed_job.status ≡ collecting_metadata)
    × (Dict.get t.jobs "job_a0" ≡ some claimed_job)
    × (claim_submitted_job world "job_a0" t ≡ (ok none, t))
claim_submitted_job_once_example =
    claim_submitted_job_once world one_job "job_a0"
      (moved world one_job collecting_metadata (some collect_metadata) job) claim_succeeds

abbrev touched : JobRecord
touched = record job { updated_at = 1002 }

stale_succeeds : (claim_stale_active_job world "job_a0" 1001 one_job).0 ≡ ok (some touched)
unfolding claim_stale_active_job Exec.◌>>=◌ Jobs.touch Jobs.if_stale Dict.get is_stale
    Jobs.is_active elem new_job utc_now
stale_succeeds = refl

claim_stale_active_job_once_example :
    let t = (claim_stale_active_job world "job_a0" 1001 one_job).1 in
    ((old : JobRecord) × (Dict.get one_job.jobs "job_a0" ≡ some old)
      × (is_stale 1001 old ≡ true)
      × (touched ≡ record old { updated_at = world.clock one_job.clock_reads }))
    × (Dict.get t.jobs "job_a0" ≡ some touched)
    × (claim_stale_active_job world "job_a0" 1001 t ≡ (ok none, t))
claim_stale_active_job_once_example =
    claim_stale_active_job_once world one_job "job_a0" 1001 touched stale_succeeds (omega arith)
