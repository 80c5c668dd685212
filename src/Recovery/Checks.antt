-- ===== src/Recovery/Checks.antt =====
-- apps/api/api_app/recovery_worker.py at concrete inputs.
use mssql_ai_project.Base.{◌+◌, ◌*◌, ◌≤◌, String, none, some, [], ◌∷◌}
use mssql_ai_project.Base.Text.{codes}
use mssql_ai_project.Base.Int.{pos}
use mssql_ai_project.Base.Json.{Fields, empty}
use mssql_ai_project.Base.Result.{Result, ok, err}
use mssql_ai_project.Base.Exec.{pure, raise}
use mssql_ai_project.Lifecycle.{JobStatus, failed}
use mssql_ai_project.Repository.{World, MemoryWorkflowRepository}
use mssql_ai_project.Repository.Calls.{Call, perform_all, empty_repository}
use mssql_ai_project.AnalysisRuns.{ServiceError, other_error, Attempt}
use mssql_ai_project.DesignRuns.{MetadataDesignRunRequest}
use mssql_ai_project.Recovery.{Environment, WorkerError, Step, worker_batch_size, run_recovery_once}
use mssql_ai_project.Recovery.Bounds.{handled, run_recovery_once_bounds}
use mssql_ai_project.Recovery.Services.{Program, finish, call, read}
use mssql_ai_project.Recovery.Pass.{Designer}

abbrev world : World
world = record { uuid_hex = λ n. "0"; clock = λ n. n * 4000; repr = λ v. codes "{}" }

abbrev env : Environment
env = record {
  analysis_stale_seconds = [];
  design_stale_seconds = [];
  workflow_stale_seconds = codes "60";
  batch_size = [];
}

abbrev valid : Fields → Result ServiceError Fields
valid q = ok q

abbrev valid_design : Fields → Result ServiceError MetadataDesignRunRequest
valid_design q = ok (record { conversation_id = none; model_payload = q })

-- The analysis raises, the design returns, and a resumed workflow fails its job.
abbrev analysis_fails : Fields → Attempt Fields
analysis_fails q = raise other_error

abbrev designs : MetadataDesignRunRequest → Attempt Fields
designs q = pure q.model_payload

abbrev resume : String → Step JobStatus
resume j = pure failed

-- a claimed job, a queued analysis run and a queued design run
abbrev stored : MemoryWorkflowRepository
stored =
    perform_all world
      (Call.create_job "req_1" none
        ∷ Call.claim_submitted_job "job_0"
        ∷ Call.create_metadata_analysis_run "run_1" empty
        ∷ Call.create_metadata_design_run "run_2" "conv" empty
        ∷ [])
      empty_repository

run_recovery_once_bounds_example :
    let batch = worker_batch_size env.batch_size (some (pos 7)) in
    (1 ≤ batch)
    × (batch ≤ 100)
    × (handled
          (run_recovery_once world env valid analysis_fails valid_design resume
            (some designs)
            (some (pos 7))
            stored).0
        ≤ 2 * batch + batch)
run_recovery_once_bounds_example =
    run_recovery_once_bounds world env valid analysis_fails valid_design resume (some designs)
      (some (pos 7)) stored

-- An analysis that leaves an audit event and raises, and a resumption that fails its job.
abbrev event : Call
event = Call.record_audit_event "ANALYZED" "RUN" "run_1" empty (codes "worker") none

abbrev analysis_recorded : Fields → Program ServiceError Fields
analysis_recorded q = call event (finish (err other_error))

abbrev resume_fails : String → Program WorkerError JobStatus
resume_fails j = call (Call.fail_job j (codes "STOPPED") (codes "stopped")) (finish (ok failed))

abbrev designer : Designer
designer q = read (λ s. finish (ok q.model_payload))
