-- ===== src/Recovery/Keeping.antt =====
-- A pass keeps what the repository's methods and its services keep.
pub mod Instances
use mssql_ai_project.Base.{
  ℕ, ◌≡◌, refl, String, Bool, true, false, Option, none, some, List, [], ◌∷◌, if◌then◌else◌,
}
use mssql_ai_project.Base.Text.{Text}
use mssql_ai_project.Base.Int.{ℤ, pos}
use mssql_ai_project.Base.Json.{Fields}
use mssql_ai_project.Base.Result.{Result, ok, err}
use mssql_ai_project.Base.Exec.{Exec, pure, lift, gets, ◌>>=◌, ◌>>◌}
use mssql_ai_project.Base.Exec.Keeps.{
  IsKept, Keeps, Keeps-bind, Keeps-pure, Keeps-lift, Keeps-gets, Keeps-if,
}
use mssql_ai_project.Lifecycle.{JobStatus}
use mssql_ai_project.Repository.{
  JobRecord, MetadataAnalysisRunRecord, MetadataDesignRunRecord, World, MemoryWorkflowRepository,
  Method, utc_now, claim_stale_active_job, claim_metadata_analysis_run, claim_metadata_design_run,
  mark_metadata_analysis_run_succeeded, mark_metadata_analysis_run_failed,
  mark_metadata_design_run_succeeded, mark_metadata_design_run_failed,
}
use mssql_ai_project.AnalysisRuns
use mssql_ai_project.AnalysisRuns.{
  ServiceError, Attempt, embed, execute_metadata_analysis_run, metadata_analysis_run_error,
}
use mssql_ai_project.DesignRuns
use mssql_ai_project.DesignRuns.{
  MetadataDesignRunRequest, execute_metadata_design_run, metadata_design_run_error,
}
use mssql_ai_project.Recovery.{
  RecoveryWorkerReport, WorkerError, Environment, Step, calls, each, recover_run,
  recover_design_run, resume_claimed, recover_job, recover_runs, recover_design_runs, recover_jobs,
  run_recovery_once, no_report, worker_batch_size, count_run, count_design_run, count_job,
}

-- The methods of the repository that the pass and its attempts call keep `R`.
pub record MethodsKeep (R : MemoryWorkflowRepository → MemoryWorkflowRepository → Type 0)
    (w : World) : Type 0 where
  pub now : Keeps R (utc_now w)
  pub claim : (r : String) (l : ℕ) → Keeps R (claim_metadata_analysis_run w r l)
  pub succeed : (r : String) (a : Fields) → Keeps R (mark_metadata_analysis_run_succeeded w r a)
  pub fail : (r : String) (e : Fields) → Keeps R (mark_metadata_analysis_run_failed w r e)
  pub claim_design : (r : String) (l : ℕ) → Keeps R (claim_metadata_design_run w r l)
  pub succeed_design :
      (r : String) (a : Fields) → Keeps R (mark_metadata_design_run_succeeded w r a)
  pub fail_design : (r : String) (e : Fields) → Keeps R (mark_metadata_design_run_failed w r e)
  pub claim_job : (j : String) (l : ℕ) → Keeps R (claim_stale_active_job w j l)

module _ {R : MemoryWorkflowRepository → MemoryWorkflowRepository → Type 0} (kept : IsKept R)
    (w : World) (methods : MethodsKeep R w) where
  Keeps-embed : {A : Type 0} (m : Method A) → Keeps R m → Keeps R (embed m)
  unfolding embed
  Keeps-embed m k = record { at = k.at }

  Keeps-calls : {A : Type 0} (m : Method A) → Keeps R m → Keeps R (calls m)
  unfolding calls
  Keeps-calls m k = record { at = k.at }

  module _ (validate : Fields → Result ServiceError Fields) (analyze : Fields → Attempt Fields)
      (analyzes : (q : Fields) → Keeps R (analyze q)) where
    attempt-Keeps :
        (r : String) (q : Option Fields) (run : MetadataAnalysisRunRecord)
        → Keeps R (AnalysisRuns.attempt w validate analyze r q run)
    unfolding AnalysisRuns.attempt
    attempt-Keeps r q run = Keeps-bind kept _ _ (Keeps-lift kept _) (λ a.
        Keeps-bind kept _ _ (analyzes a) (λ b. Keeps-bind kept _ _ (Keeps-gets kept _) (λ c.
          Keeps-if c _ _ (λ h. Keeps-pure kept tt)
            (λ h.
              Keeps-bind kept _ _ (Keeps-embed _ (methods.succeed r b))
                (λ d. Keeps-pure kept tt)))))

    record_failure-Keeps :
        (r : String) (e : Fields) → Keeps R (AnalysisRuns.record_failure w validate analyze r e)
    unfolding AnalysisRuns.record_failure
    record_failure-Keeps r e = Keeps-bind kept _ _ (Keeps-gets kept _) (λ c.
        Keeps-if c _ _ (λ h. Keeps-pure kept tt)
          (λ h. Keeps-bind kept _ _ (methods.fail r e) (λ d. Keeps-pure kept tt)))

    work-Keeps :
        (r : String) (q : Option Fields) (o : Option MetadataAnalysisRunRecord)
        → Keeps R (AnalysisRuns.work w validate analyze r q o)
    unfolding AnalysisRuns.work
    work-Keeps r q none = record { at = kept.same }
    work-Keeps r q (some run) = record {
      at = λ s.
          ends s (AnalysisRuns.attempt w validate analyze r q run s) ((attempt-Keeps r q run).at s);
    }
      where
        ends :
            (s : MemoryWorkflowRepository)
            (p : Result ServiceError (Unit {0}) × MemoryWorkflowRepository)
            → R s p.1
            → R s (AnalysisRuns.handled w validate analyze r p)
        ends s (ok u, t) h = h
        ends s (err e, t) h =
            kept.join s t _ h ((record_failure-Keeps r (metadata_analysis_run_error e)).at t)

    execute-Keeps :
        (r : String) (q : Option Fields) (l : ℕ)
        → Keeps R (execute_metadata_analysis_run w validate analyze r q l)
    unfolding execute_metadata_analysis_run
    execute-Keeps r q l = Keeps-bind kept _ _ (methods.claim r l) (work-Keeps r q)

  module _ (validate : Fields → Result ServiceError MetadataDesignRunRequest)
      (design : MetadataDesignRunRequest → Attempt Fields)
      (designs : (q : MetadataDesignRunRequest) → Keeps R (design q)) where
    design_attempt-Keeps :
        (r : String) (q : Option MetadataDesignRunRequest) (run : MetadataDesignRunRecord)
        → Keeps R (DesignRuns.attempt w validate design r q run)
    unfolding DesignRuns.attempt
    design_attempt-Keeps r q run = Keeps-bind kept _ _ (Keeps-lift kept _) (λ a.
        Keeps-bind kept _ _ (designs _) (λ b. Keeps-bind kept _ _ (Keeps-gets kept _) (λ c.
          Keeps-if c _ _ (λ h. Keeps-pure kept tt)
            (λ h.
              Keeps-bind kept _ _ (Keeps-embed _ (methods.succeed_design r b))
                (λ d. Keeps-pure kept tt)))))

    design_failure-Keeps :
        (r : String) (e : Fields) → Keeps R (DesignRuns.record_failure w validate design r e)
    unfolding DesignRuns.record_failure
    design_failure-Keeps r e = Keeps-bind kept _ _ (Keeps-gets kept _) (λ c.
        Keeps-if c _ _ (λ h. Keeps-pure kept tt)
          (λ h. Keeps-bind kept _ _ (methods.fail_design r e) (λ d. Keeps-pure kept tt)))

    design_work-Keeps :
        (r : String) (q : Option MetadataDesignRunRequest) (o : Option MetadataDesignRunRecord)
        → Keeps R (DesignRuns.work w validate design r q o)
    unfolding DesignRuns.work
    design_work-Keeps r q none = record { at = kept.same }
    design_work-Keeps r q (some run) = record {
      at = λ s.
          ends s (DesignRuns.attempt w validate design r q run s)
            ((design_attempt-Keeps r q run).at s);
    }
      where
        ends :
            (s : MemoryWorkflowRepository)
            (p : Result ServiceError (Unit {0}) × MemoryWorkflowRepository)
            → R s p.1
            → R s (DesignRuns.handled w validate design r p)
        ends s (ok u, t) h = h
        ends s (err e, t) h =
            kept.join s t _ h ((design_failure-Keeps r (metadata_design_run_error e)).at t)

    execute_design-Keeps :
        (r : String) (q : Option MetadataDesignRunRequest) (l : ℕ)
        → Keeps R (execute_metadata_design_run w validate design r q l)
    unfolding execute_metadata_design_run
    execute_design-Keeps r q l =
        Keeps-bind kept _ _ (methods.claim_design r l) (design_work-Keeps r q)

  each-Keeps :
      {A B : Type 0} (step : A → Step B)
      (count : Result WorkerError B → RecoveryWorkerReport → RecoveryWorkerReport)
      → ((a : A) → Keeps R (step a))
      → (xs : List A) (report : RecoveryWorkerReport) (s : MemoryWorkflowRepository)
      → R s (each step count xs report s).1
  unfolding each
  each-Keeps step count k [] report s = kept.same s
  each-Keeps step count k (a ∷ xs) report s =
      kept.join s (step a s).1 _ ((k a).at s)
        (each-Keeps step count k xs (count (step a s).0 report) (step a s).1)

  module _ (env : Environment) (validate : Fields → Result ServiceError Fields)
      (analyze : Fields → Attempt Fields)
      (validate_design : Fields → Result ServiceError MetadataDesignRunRequest)
      (resume : String → Step JobStatus)
      (design : Option (MetadataDesignRunRequest → Attempt Fields))
      (analyzes : (q : Fields) → Keeps R (analyze q)) (resumes : (j : String) → Keeps R (resume j))
      (designs : (f : MetadataDesignRunRequest → Attempt Fields)
        → design ≡ some f
        → (q : MetadataDesignRunRequest) → Keeps R (f q)) where
    recover_run-Keeps :
        (run : MetadataAnalysisRunRecord)
        → Keeps R (recover_run w env validate analyze validate_design resume run)
    unfolding recover_run
    recover_run-Keeps run =
        Keeps-calls _
          (Keeps-bind kept _ _ methods.now (λ t. execute-Keeps validate analyze analyzes _ _ _))

    recover_design_run-Keeps :
        (f : MetadataDesignRunRequest → Attempt Fields)
        → ((q : MetadataDesignRunRequest) → Keeps R (f q))
        → (run : MetadataDesignRunRecord)
        → Keeps R (recover_design_run w env validate analyze validate_design resume f run)
    unfolding recover_design_run
    recover_design_run-Keeps f k run =
        Keeps-calls _
          (Keeps-bind kept _ _ methods.now (λ t. execute_design-Keeps validate_design f k _ _ _))

    resume_claimed-Keeps :
        (o : Option JobRecord)
        → Keeps R (resume_claimed w env validate analyze validate_design resume o)
    unfolding resume_claimed
    resume_claimed-Keeps none = Keeps-pure kept none
    resume_claimed-Keeps (some job) =
        Keeps-bind kept _ _ (resumes job.job_id) (λ st. Keeps-pure kept (some st))

    recover_job-Keeps :
        (job : JobRecord) → Keeps R (recover_job w env validate analyze validate_design resume job)
    unfolding recover_job
    recover_job-Keeps job = Keeps-bind kept _ _ (Keeps-calls _ methods.now) (λ t.
        Keeps-bind kept _ _ (Keeps-calls _ (methods.claim_job job.job_id _)) resume_claimed-Keeps)

    runs-Keeps :
        (batch : ℕ) (report : RecoveryWorkerReport) (s : MemoryWorkflowRepository)
        → R s (recover_runs w env validate analyze validate_design resume batch report s).1
    unfolding recover_runs
    runs-Keeps batch report s = kept.join s (utc_now w s).1 _ (methods.now.at s) (
        each-Keeps (recover_run w env validate analyze validate_design resume) count_run
          recover_run-Keeps _ report _)

    design_runs-Keeps :
        (o : Option (MetadataDesignRunRequest → Attempt Fields))
        → design ≡ o
        → (batch : ℕ) (report : RecoveryWorkerReport) (s : MemoryWorkflowRepository)
        → R s (recover_design_runs w env validate analyze validate_design resume o batch report s).1
    unfolding recover_design_runs
    design_runs-Keeps none e batch report s = kept.same s
    design_runs-Keeps (some f) e batch report s = kept.join s (utc_now w s).1 _ (methods.now.at s) (
        each-Keeps (recover_design_run w env validate analyze validate_design resume f)
          count_design_run (recover_design_run-Keeps f (designs f e)) _ report _)

    jobs-Keeps :
        (batch : ℕ) (report : RecoveryWorkerReport) (s : MemoryWorkflowRepository)
        → R s (recover_jobs w env validate analyze validate_design resume batch report s).1
    unfolding recover_jobs
    jobs-Keeps batch report s = kept.join s (utc_now w s).1 _ (methods.now.at s) (
        each-Keeps (recover_job w env validate analyze validate_design resume) count_job
          recover_job-Keeps _ report _)

    pub pass-Keeps :
        (asked : Option ℤ) (s : MemoryWorkflowRepository)
        → R s (run_recovery_once w env validate analyze validate_design resume design asked s).1
    unfolding run_recovery_once
    pass-Keeps asked s =
        let batch : ℕ = worker_batch_size env.batch_size asked in
        let p = recover_runs w env validate analyze validate_design resume batch no_report s in
        let q =
          recover_design_runs w env validate analyze validate_design resume design batch p.0 p.1 in
        let z = recover_jobs w env validate analyze validate_design resume batch q.0 q.1 in
        kept.join s p.1 z.1 (runs-Keeps batch no_report s) (
          kept.join p.1 q.1 z.1 (design_runs-Keeps design refl batch p.0 p.1)
            (jobs-Keeps batch q.0 q.1))
