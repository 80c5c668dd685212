-- ===== src/AnalysisRuns/Outcome.antt =====
-- How an attempt at an analysis run ends.
use mssql_ai_project.Base.{
  ℕ, ◌+◌, String, ◌≡◌, refl, subst, inl, inr, true, Option, none, some, Bool-cases, if◌then◌else◌,
}
use mssql_ai_project.Base.Dict
use mssql_ai_project.Base.Dict.{get-put_self}
use mssql_ai_project.Base.Json.{Fields}
use mssql_ai_project.Base.Result.{Result, ok, err, Result-cases}
use mssql_ai_project.Base.Exec
use mssql_ai_project.Base.Exec.{or_raise}
use mssql_ai_project.Repository.{
  MetadataAnalysisRunRecord, World, MemoryWorkflowRepository, utc_now, claim_metadata_analysis_run,
  mark_metadata_analysis_run_succeeded, mark_metadata_analysis_run_failed,
  get_metadata_analysis_run,
}
use mssql_ai_project.AnalysisRuns.{
  ServiceError, metadata_analysis_run_error, terminal_statuses, metadata_analysis_run_is_terminal,
  Attempt, embed, request_of, attempt, record_failure, handled, work, execute_metadata_analysis_run,
}

terminal_of :
    (r : String) (now : MetadataAnalysisRunRecord) (t : MemoryWorkflowRepository)
    → Dict.get t.metadata_analysis_runs r ≡ some now
    → metadata_analysis_run_is_terminal r t ≡ terminal_statuses now.status
unfolding metadata_analysis_run_is_terminal get_metadata_analysis_run
terminal_of r now t found = rw (found, metadata_analysis_run_is_terminal) refl

module _ (w : World) (validate : Fields → Result ServiceError Fields)
    (analyze : Fields → Attempt Fields) where
  -- What the analysis gives: the error of the request's validation, or the result of `analyze`.
  abbrev pub produced :
      Option Fields
      → MetadataAnalysisRunRecord
      → MemoryWorkflowRepository
      → Result ServiceError Fields × MemoryWorkflowRepository
  produced request run s = elim (request_of w validate analyze request run) [
    | ok q ↦ analyze q s
    | err e ↦ (err e, s)
  ]

  -- The record of a run that ended with this result, from the record `run` at the time `now`.
  abbrev pub ended :
      Result ServiceError Fields → MetadataAnalysisRunRecord → ℕ → MetadataAnalysisRunRecord
  ended (ok analysis) run now = record run {
    status = "SUCCEEDED";
    completed_at = some now;
    analysis = some analysis;
    error = none;
  }
  ended (err e) run now = record run {
    status = "FAILED";
    completed_at = some now;
    error = some (metadata_analysis_run_error e);
  }

  module _ (r : String) (now : MetadataAnalysisRunRecord) (t : MemoryWorkflowRepository) where
    -- The state once a result is recorded for the record `now`, unless that has ended already.
    abbrev pub recorded : Result ServiceError Fields → MemoryWorkflowRepository
    recorded result = if terminal_statuses now.status then t else record t {
      metadata_analysis_runs =
          Dict.put t.metadata_analysis_runs r (ended result now (w.clock t.clock_reads));
      clock_reads = t.clock_reads + 1;
    }

    record_failure_lem :
        (e : ServiceError)
        → Dict.get t.metadata_analysis_runs r ≡ some now
        → (record_failure w validate analyze r (metadata_analysis_run_error e) t).1
          ≡ recorded (err e)
    unfolding record_failure mark_metadata_analysis_run_failed utc_now Exec.◌>>=◌
    record_failure_lem e found = elim (Bool-cases (terminal_statuses now.status)) [
      | inl done ↦ rw (terminal_of r now t found) (rw done refl)
      | inr open_ ↦ rw (terminal_of r now t found) (rw open_ (rw (found, or_raise) refl))
    ]

    success_lem :
        (request : Option Fields) (run : MetadataAnalysisRunRecord) (s : MemoryWorkflowRepository)
        (q analysis : Fields)
        → request_of w validate analyze request run ≡ ok q
        → analyze q s ≡ (ok analysis, t)
        → Dict.get t.metadata_analysis_runs r ≡ some now
        → attempt w validate analyze r request run s ≡ (ok tt, recorded (ok analysis))
    unfolding attempt embed mark_metadata_analysis_run_succeeded utc_now Exec.◌>>=◌
    success_lem request run s q analysis chosen made found =
        elim (Bool-cases (terminal_statuses now.status)) [
          | inl done ↦ rw chosen (rw made (rw (terminal_of r now t found) (rw done refl)))
          | inr open_ ↦
              rw chosen
                (rw made (rw (terminal_of r now t found) (rw open_ (rw (found, or_raise) refl))))
        ]

    raised_lem :
        (request : Option Fields) (run : MetadataAnalysisRunRecord) (s : MemoryWorkflowRepository)
        (q : Fields) (e : ServiceError)
        → request_of w validate analyze request run ≡ ok q
        → analyze q s ≡ (err e, t)
        → attempt w validate analyze r request run s ≡ (err e, t)
    unfolding attempt Exec.◌>>=◌
    raised_lem request run s q e chosen made = rw chosen (rw made refl)

  invalid_lem :
      (r : String) (request : Option Fields) (run : MetadataAnalysisRunRecord)
      (s : MemoryWorkflowRepository) (e : ServiceError)
      → request_of w validate analyze request run ≡ err e
      → attempt w validate analyze r request run s ≡ (err e, s)
  unfolding attempt Exec.◌>>=◌
  invalid_lem r request run s e chosen = rw chosen refl

  attempt_lem :
      (r : String) (now : MetadataAnalysisRunRecord) (t : MemoryWorkflowRepository)
      (request : Option Fields) (run : MetadataAnalysisRunRecord) (s : MemoryWorkflowRepository)
      (result : Result ServiceError Fields)
      → produced request run s ≡ (result, t)
      → Dict.get t.metadata_analysis_runs r ≡ some now
      → handled w validate analyze r (attempt w validate analyze r request run s)
        ≡ recorded r now t result
  attempt_lem r now t request run s result made found =
      elim (Result-cases (request_of w validate analyze request run)) [
        | inl (q, chosen) ↦ ran q chosen result (rw (chosen, produced) at made)
        | inr (e, chosen) ↦
            let bad : (err e, s) ≡ (result, t) = rw (chosen, produced) at made in
            subst
              (λ (p : Result ServiceError Fields × MemoryWorkflowRepository).
                Dict.get p.1.metadata_analysis_runs r ≡ some now
                → handled w validate analyze r (attempt w validate analyze r request run s)
                  ≡ recorded r now p.1 p.0)
              bad (λ f. rw (invalid_lem r request run s e chosen) (record_failure_lem r now s e f))
              found
      ]
    where
      ran :
          (q : Fields)
          → request_of w validate analyze request run ≡ ok q
          → (result : Result ServiceError Fields) → analyze q s ≡ (result, t)
          → handled w validate analyze r (attempt w validate analyze r request run s)
            ≡ recorded r now t result
      ran q chosen (ok a) m = rw (success_lem r now t request run s q a chosen m found) refl
      ran q chosen (err e) m =
          rw (raised_lem r now t request run s q e chosen m) (record_failure_lem r now t e found)

  -- Once a run is claimed, `execute_metadata_analysis_run` returns `True` and never raises. Let `now`
  -- be the record of the run when the analysis is done. If that is `SUCCEEDED` or `FAILED` already, the
  -- attempt writes nothing more. Else the run is stored as `SUCCEEDED` with the analysis and without
  -- error, or as `FAILED` with the payload of what the validation or the analysis raised; nothing else
  -- of the state that the analysis left is changed but that the clock is read once.
  pub execute_metadata_analysis_run_claimed :
      (r : String) (request : Option Fields) (limit : ℕ) (run now : MetadataAnalysisRunRecord)
      (s s' t : MemoryWorkflowRepository) (result : Result ServiceError Fields)
      → claim_metadata_analysis_run w r limit s ≡ (ok (some run), s')
      → produced request run s' ≡ (result, t)
      → Dict.get t.metadata_analysis_runs r ≡ some now
      → execute_metadata_analysis_run w validate analyze r request limit s
        ≡ (ok true, recorded r now t result)
  unfolding execute_metadata_analysis_run work Exec.◌>>=◌
  execute_metadata_analysis_run_claimed r request limit run now s s' t result claimed made found =
      rw claimed (rw (attempt_lem r now t request run s' result made found) refl)
