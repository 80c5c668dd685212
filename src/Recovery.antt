-- ===== src/Recovery.antt =====
-- apps/api/api_app/recovery_worker.py: one pass over the runs and jobs that their workers seem to
-- have dropped, on the in-memory repository. The services that do the work (the analysis, the design
-- and the resumption of a workflow) are parameters, which may read and write the repository and may
-- raise; the environment gives each variable's value or "". Times are in seconds.
pub mod Bounds
pub mod Keeping
pub mod Services
pub mod Pass
mod Checks
use mssql_ai_project.Base.{
  ℕ, ◌+◌, ◌-◌, String, Bool, true, false, Option, none, some, List, [], ◌∷◌, ◌++◌, max, min,
  is_some, if◌then◌else◌,
}
use mssql_ai_project.Base.Text.{Text, codes, strip, is_empty}
use mssql_ai_project.Base.Int.{ℤ, pos, negsuc}
use mssql_ai_project.Base.Json.{Fields}
use mssql_ai_project.Base.Values.{parse_int}
use mssql_ai_project.Base.Result.{Result, ok, err}
use mssql_ai_project.Base.Exec.{Exec, pure, gets, ◌>>=◌}
use mssql_ai_project.Lifecycle.{JobStatus, failed}
use mssql_ai_project.Repository.{
  JobRecord, MetadataAnalysisRunRecord, MetadataDesignRunRecord, RepositoryError, key_error,
  state_error, unsupported_validation_status, not_a_mapping, not_a_pair, not_iterable, World,
  MemoryWorkflowRepository, Method, utc_now, claim_stale_active_job, list_stale_active_jobs,
  list_recoverable_metadata_analysis_runs, list_recoverable_metadata_design_runs,
}
use mssql_ai_project.AnalysisRuns.{
  ServiceError, Attempt, stale_before, execute_metadata_analysis_run,
}
use mssql_ai_project.DesignRuns.{
  MetadataDesignRunRequest, metadata_design_run_stale_before, execute_metadata_design_run,
}

pub record RecoveryWorkerReport : Type 0 where
  pub metadata_runs_claimed : ℕ
  pub metadata_design_runs_claimed : ℕ
  pub sp_jobs_recovered : ℕ
  pub sp_jobs_failed : ℕ
  pub errors : List Text

-- `_env_int`, of the value of the variable or "", with a natural default and minimum
unfoldable pub env_int : Text → ℕ → ℕ → ℕ
env_int raw_value default minimum = elim (parse_int (strip raw_value)) [
  | none ↦ default
  | some (pos n) ↦ max n minimum
  | some (negsuc n) ↦ minimum
]

unfoldable pub metadata_analysis_run_worker_interval_seconds : Text → ℕ
metadata_analysis_run_worker_interval_seconds raw_value = env_int raw_value 10 1

-- `max(min(int(value), 100), 1)`
unfoldable pub worker_batch_size : Text → Option ℤ → ℕ
worker_batch_size raw_value none = max (min (env_int raw_value 5 1) 100) 1
worker_batch_size raw_value (some (pos n)) = max (min n 100) 1
worker_batch_size raw_value (some (negsuc n)) = 1

unfoldable pub sp_workflow_stale_seconds : Text → ℕ
sp_workflow_stale_seconds raw_value = env_int raw_value 1800 60

unfoldable pub sp_workflow_stale_before : Text → ℕ → ℕ
sp_workflow_stale_before raw_value now = now - sp_workflow_stale_seconds raw_value

-- An exception: its attribute `code`, where that is a text, and the name of its class.
pub record WorkerError : Type 0 where
  pub error_code : Option Text
  pub class_name : Text

unfoldable pub safe_error_code : WorkerError → Text
safe_error_code exc = elim exc.error_code [
  | none ↦ exc.class_name
  | some c ↦ if is_empty (strip c) then exc.class_name else strip c
]

abbrev of_class : String → WorkerError
of_class name = record { error_code = none; class_name = codes name }

-- what the repository raises; none of it has a `code`
unfoldable pub worker_error : RepositoryError → WorkerError
worker_error (key_error k) = of_class "KeyError"
worker_error (state_error e) = of_class "WorkflowStateError"
worker_error (unsupported_validation_status st) = of_class "ValueError"
worker_error (not_a_mapping v) = of_class "TypeError"
worker_error (not_a_pair v) = of_class "ValueError"
worker_error (not_iterable v) = of_class "TypeError"

-- the values of the environment variables that the pass reads
pub record Environment : Type 0 where
  pub analysis_stale_seconds : Text
  pub design_stale_seconds : Text
  pub workflow_stale_seconds : Text
  pub batch_size : Text

abbrev pub Step : Type 0 → Type 0
Step A = Exec WorkerError MemoryWorkflowRepository A

abbrev relabel : {A : Type 0} → Result RepositoryError A → Result WorkerError A
relabel (ok a) = ok a
relabel (err e) = err (worker_error e)

unfoldable pub calls : {A : Type 0} → Method A → Step A
calls m s = let (r, t) = m s in (relabel r, t)

-- `errors.append(_safe_error_code(exc))`
unfoldable pub add_error : WorkerError → RecoveryWorkerReport → RecoveryWorkerReport
add_error exc report = record report { errors = report.errors ++ safe_error_code exc ∷ [] }

unfoldable pub count_run : Result WorkerError Bool → RecoveryWorkerReport → RecoveryWorkerReport
count_run (ok claimed) report =
    if claimed
    then record report { metadata_runs_claimed = report.metadata_runs_claimed + 1 }
    else report
count_run (err exc) report = add_error exc report

unfoldable pub count_design_run :
    Result WorkerError Bool → RecoveryWorkerReport → RecoveryWorkerReport
count_design_run (ok claimed) report =
    if claimed
    then record report { metadata_design_runs_claimed = report.metadata_design_runs_claimed + 1 }
    else report
count_design_run (err exc) report = add_error exc report

unfoldable pub count_job :
    Result WorkerError (Option JobStatus) → RecoveryWorkerReport → RecoveryWorkerReport
count_job (ok none) report = report
count_job (ok (some failed)) report = record report { sp_jobs_failed = report.sp_jobs_failed + 1 }
count_job (ok (some status)) report = record report {
  sp_jobs_recovered = report.sp_jobs_recovered + 1;
}
count_job (err exc) report = add_error exc report

-- A `for` loop whose body raises into the report.
unfoldable pub each :
    {A B : Type 0}
    → (A → Step B)
    → (Result WorkerError B → RecoveryWorkerReport → RecoveryWorkerReport)
    → List A
    → RecoveryWorkerReport
    → MemoryWorkflowRepository
    → RecoveryWorkerReport × MemoryWorkflowRepository
each step count [] report s = (report, s)
each step count (a ∷ as_) report s = let (r, t) = step a s in each step count as_ (count r report) t

abbrev pub no_report : RecoveryWorkerReport
no_report = record {
  metadata_runs_claimed = 0;
  metadata_design_runs_claimed = 0;
  sp_jobs_recovered = 0;
  sp_jobs_failed = 0;
  errors = [];
}

module _ (w : World) (env : Environment) (validate : Fields → Result ServiceError Fields)
    (analyze : Fields → Attempt Fields)
    (validate_design : Fields → Result ServiceError MetadataDesignRunRequest)
    (resume_sp_workflow : String → Step JobStatus) where
  unfoldable pub recover_run : MetadataAnalysisRunRecord → Step Bool
  recover_run run = calls (do
    now ← utc_now w
    execute_metadata_analysis_run w validate analyze run.run_id none
        (stale_before env.analysis_stale_seconds now))

  unfoldable pub recover_design_run :
      (MetadataDesignRunRequest → Attempt Fields) → MetadataDesignRunRecord → Step Bool
  recover_design_run design run = calls (do
    now ← utc_now w
    execute_metadata_design_run w validate_design design run.run_id none
        (metadata_design_run_stale_before env.design_stale_seconds now))

  unfoldable pub resume_claimed : Option JobRecord → Step (Option JobStatus)
  resume_claimed none = pure none
  resume_claimed (some job) = do status ← resume_sp_workflow job.job_id; pure (some status)

  unfoldable pub recover_job : JobRecord → Step (Option JobStatus)
  recover_job job = do
    now ← calls (utc_now w)
    claimed ← calls (
        claim_stale_active_job w job.job_id
          (sp_workflow_stale_before env.workflow_stale_seconds now))
    resume_claimed claimed

  -- the three phases; `utc_now` is the clock that the limits of each list read
  unfoldable pub recover_runs :
      ℕ
      → RecoveryWorkerReport
      → MemoryWorkflowRepository
      → RecoveryWorkerReport × MemoryWorkflowRepository
  recover_runs batch report s =
      let now : ℕ = w.clock s.clock_reads in
      let t : MemoryWorkflowRepository = (utc_now w s).1 in
      each recover_run count_run
        (list_recoverable_metadata_analysis_runs (stale_before env.analysis_stale_seconds now)
          (some (pos batch)) t)
        report t

  unfoldable pub recover_design_runs :
      Option (MetadataDesignRunRequest → Attempt Fields)
      → ℕ
      → RecoveryWorkerReport
      → MemoryWorkflowRepository
      → RecoveryWorkerReport × MemoryWorkflowRepository
  recover_design_runs none batch report s = (report, s)
  recover_design_runs (some design) batch report s =
      let now : ℕ = w.clock s.clock_reads in
      let t : MemoryWorkflowRepository = (utc_now w s).1 in
      each (recover_design_run design) count_design_run
        (list_recoverable_metadata_design_runs
          (metadata_design_run_stale_before env.design_stale_seconds now) (some (pos batch)) t)
        report t

  unfoldable pub recover_jobs :
      ℕ
      → RecoveryWorkerReport
      → MemoryWorkflowRepository
      → RecoveryWorkerReport × MemoryWorkflowRepository
  recover_jobs batch report s =
      let now : ℕ = w.clock s.clock_reads in
      let t : MemoryWorkflowRepository = (utc_now w s).1 in
      each recover_job count_job
        (list_stale_active_jobs (sp_workflow_stale_before env.workflow_stale_seconds now)
          (some (pos batch)) t)
        report t

  unfoldable pub run_recovery_once :
      Option (MetadataDesignRunRequest → Attempt Fields)
      → Option ℤ
      → MemoryWorkflowRepository
      → RecoveryWorkerReport × MemoryWorkflowRepository
  run_recovery_once design batch_size s =
      let batch : ℕ = worker_batch_size env.batch_size batch_size in
      let (report, t) = recover_runs batch no_report s in
      let (report', t') = recover_design_runs design batch report t in recover_jobs batch report' t'
