-- ===== src/Recovery/Bounds.antt =====
-- A pass handles no more runs and jobs than its batch size allows.
use mssql_ai_project.Base.{
  ℕ, ◌+◌, ◌*◌, ◌≤◌, String, Bool, true, false, Option, none, some, List, [], ◌∷◌, arith, length,
  length-append, length-take, max, min, if◌then◌else◌, take, is_some,
}
use mssql_ai_project.Base.Text.{Text}
use mssql_ai_project.Base.Int.{ℤ, pos, negsuc}
use mssql_ai_project.Base.Json.{Fields}
use mssql_ai_project.Base.Result.{Result, ok, err}
use mssql_ai_project.Lifecycle.{JobStatus, failed}
use mssql_ai_project.Repository.{
  World, MemoryWorkflowRepository, bounded, list_stale_active_jobs,
  list_recoverable_metadata_analysis_runs, list_recoverable_metadata_design_runs,
}
use mssql_ai_project.AnalysisRuns.{ServiceError, Attempt}
use mssql_ai_project.DesignRuns.{MetadataDesignRunRequest}
use mssql_ai_project.Recovery.{
  RecoveryWorkerReport, WorkerError, Environment, Step, add_error, count_run, count_design_run,
  count_job, each, worker_batch_size, recover_runs, recover_design_runs, recover_jobs, no_report,
  recover_run, recover_design_run, recover_job, run_recovery_once,
}

worker_batch_size_bounds :
    (raw : Text) (v : Option ℤ) → (1 ≤ worker_batch_size raw v) × (worker_batch_size raw v ≤ 100)
unfolding worker_batch_size
worker_batch_size_bounds raw none = (omega arith, omega arith)
worker_batch_size_bounds raw (some (pos n)) = (omega arith, omega arith)
worker_batch_size_bounds raw (some (negsuc n)) = (omega arith, omega arith)

length-bounded :
    {A : Type 0} (n : ℕ) (xs : List A) → 1 ≤ n → n ≤ 100 → length (bounded (some (pos n)) xs) ≤ n
unfolding bounded
length-bounded n xs h k =
    let t : length (take (max (min n 100) 1) xs) ≤ max (min n 100) 1 =
      length-take (max (min n 100) 1) xs in
    omega arith

-- What a report counts in all.
abbrev pub handled : RecoveryWorkerReport → ℕ
handled report =
    report.metadata_runs_claimed
    + report.metadata_design_runs_claimed
    + report.sp_jobs_recovered
    + report.sp_jobs_failed
    + length report.errors

each-handled :
    {A B : Type 0} (step : A → Step B)
    (count : Result WorkerError B → RecoveryWorkerReport → RecoveryWorkerReport)
    → ((r : Result WorkerError B) (report : RecoveryWorkerReport)
        → handled (count r report) ≤ handled report + 1)
    → (as_ : List A) (report : RecoveryWorkerReport) (s : MemoryWorkflowRepository)
    → handled (each step count as_ report s).0 ≤ handled report + length as_
unfolding each
each-handled step count k [] report s = omega arith
each-handled step count k (a ∷ as_) report s =
    let r = (step a s).0 in
    let one = k r report in
    let more = each-handled step count k as_ (count r report) (step a s).1 in
    omega (arith, one, more)

each-bounded :
    {A B : Type 0} (step : A → Step B)
    (count : Result WorkerError B → RecoveryWorkerReport → RecoveryWorkerReport)
    → ((r : Result WorkerError B) (report : RecoveryWorkerReport)
        → handled (count r report) ≤ handled report + 1)
    → (batch : ℕ) → 1 ≤ batch
    → batch ≤ 100
    → (xs : List A) (report : RecoveryWorkerReport) (s : MemoryWorkflowRepository)
    → handled (each step count (bounded (some (pos batch)) xs) report s).0 ≤ handled report + batch
each-bounded step count k batch low high xs report s =
    let n = length-bounded batch xs low high in
    let e = each-handled step count k (bounded (some (pos batch)) xs) report s in
    omega (arith, n, e)

handled-count_run :
    (r : Result WorkerError Bool) (report : RecoveryWorkerReport)
    → handled (count_run r report) ≤ handled report + 1
unfolding count_run add_error
handled-count_run (ok true) report = omega arith
handled-count_run (ok false) report = omega arith
handled-count_run (err e) report = rw length-append (omega arith)

handled-count_design_run :
    (r : Result WorkerError Bool) (report : RecoveryWorkerReport)
    → handled (count_design_run r report) ≤ handled report + 1
unfolding count_design_run add_error
handled-count_design_run (ok true) report = omega arith
handled-count_design_run (ok false) report = omega arith
handled-count_design_run (err e) report = rw length-append (omega arith)

handled-count_job :
    (r : Result WorkerError (Option JobStatus)) (report : RecoveryWorkerReport)
    → handled (count_job r report) ≤ handled report + 1
unfolding count_job add_error
handled-count_job (ok none) report = omega arith
handled-count_job (ok (some failed)) report = omega arith
handled-count_job (ok (some st)) report = omega arith
handled-count_job (err e) report = rw length-append (omega arith)

module _ (w : World) (env : Environment) (validate : Fields → Result ServiceError Fields)
    (analyze : Fields → Attempt Fields)
    (validate_design : Fields → Result ServiceError MetadataDesignRunRequest)
    (resume : String → Step JobStatus) where
  module _ (batch : ℕ) (low : 1 ≤ batch) (high : batch ≤ 100) (report : RecoveryWorkerReport)
      (s : MemoryWorkflowRepository) where
    runs_handled :
        handled (recover_runs w env validate analyze validate_design resume batch report s).0
        ≤ handled report + batch
    unfolding recover_runs list_recoverable_metadata_analysis_runs
    runs_handled =
        each-bounded (recover_run w env validate analyze validate_design resume) count_run
          handled-count_run batch low high _ report _

    design_runs_handled :
        (design : Option (MetadataDesignRunRequest → Attempt Fields))
        → handled
            (recover_design_runs w env validate analyze validate_design resume design batch report
              s).0
          ≤ handled report + (if is_some design then batch else 0)
    unfolding recover_design_runs list_recoverable_metadata_design_runs
    design_runs_handled none = omega arith
    design_runs_handled (some design) =
        each-bounded (recover_design_run w env validate analyze validate_design resume design)
          count_design_run handled-count_design_run batch low high _ report _

    jobs_handled :
        handled (recover_jobs w env validate analyze validate_design resume batch report s).0
        ≤ handled report + batch
    unfolding recover_jobs list_stale_active_jobs
    jobs_handled =
        each-bounded (recover_job w env validate analyze validate_design resume) count_job
          handled-count_job batch low high _ report _

  -- One pass makes at most three attempts for each place of its batch, two where no design service is
  -- given, counting every run and job it reports as claimed, recovered or failed and every error; and
  -- the batch size is between 1 and 100, whatever is asked for and whatever the environment holds.
  pub run_recovery_once_bounds :
      (design : Option (MetadataDesignRunRequest → Attempt Fields)) (asked : Option ℤ)
      (s : MemoryWorkflowRepository)
      → let batch = worker_batch_size env.batch_size asked in
        (1 ≤ batch)
        × (batch ≤ 100)
        × (handled
              (run_recovery_once w env validate analyze validate_design resume design asked s).0
            ≤ 2 * batch + (if is_some design then batch else 0))
  unfolding run_recovery_once
  run_recovery_once_bounds design asked s =
      let batch : ℕ = worker_batch_size env.batch_size asked in
      let (low, high) = worker_batch_size_bounds env.batch_size asked in
      let (report, t) =
        recover_runs w env validate analyze validate_design resume batch no_report s in
      let (report', t') =
        recover_design_runs w env validate analyze validate_design resume design batch report t in
      let a = runs_handled batch low high no_report s in
      let b = design_runs_handled batch low high report t design in
      let c = jobs_handled batch low high report' t' in (low, high, omega (arith, a, b, c))
