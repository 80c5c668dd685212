-- ===== src/Repository/Runs.antt =====
-- Metadata analysis runs: the queue that request handlers and the recovery worker share.
use mssql_ai_project.Base.{
  ℕ, String, Bool, true, false, Option, none, some, List, ◌==◌, filter, string_eq, leb,
  if◌then◌else◌,
}
use mssql_ai_project.Base.Dict
use mssql_ai_project.Base.Int.{ℤ}
use mssql_ai_project.Base.Sort.{sort_by, key_ltb}
use mssql_ai_project.Base.Json.{Fields}
use mssql_ai_project.Base.Exec.{pure, gets, or_raise, modify, ◌>>=◌, ◌>>◌}
use mssql_ai_project.Repository.Records.{MetadataAnalysisRunRecord}
use mssql_ai_project.Repository.State.{key_error, World, MemoryWorkflowRepository, Method, utc_now}
use mssql_ai_project.Repository.Jobs.{bounded}

-- `record.started_at or record.submitted_at`
abbrev pub reference_time : MetadataAnalysisRunRecord → ℕ
reference_time run = elim run.started_at [ none ↦ run.submitted_at | some t ↦ t ]

unfoldable pub metadata_analysis_run_is_recoverable : MetadataAnalysisRunRecord → ℕ → Bool
metadata_analysis_run_is_recoverable run stale_before =
    if run.status == "QUEUED"
    then true
    else if run.status == "RUNNING"
    then leb (reference_time run) stale_before
    else false

abbrev pub put_run :
    String → MetadataAnalysisRunRecord → MemoryWorkflowRepository → MemoryWorkflowRepository
put_run run_id run s = record s {
  metadata_analysis_runs = Dict.put s.metadata_analysis_runs run_id run;
}

unfoldable pub if_recoverable :
    ℕ → Option MetadataAnalysisRunRecord → Option MetadataAnalysisRunRecord
if_recoverable stale_before none = none
if_recoverable stale_before (some run) =
    if metadata_analysis_run_is_recoverable run stale_before then some run else none

module _ (w : World) where
  unfoldable pub create_metadata_analysis_run : String → Fields → Method MetadataAnalysisRunRecord
  create_metadata_analysis_run run_id request = do
    submitted_at ← utc_now w
    let run : MetadataAnalysisRunRecord = record {
      run_id = run_id;
      status = "QUEUED";
      request = request;
      submitted_at = submitted_at;
      started_at = none;
      completed_at = none;
      analysis = none;
      error = none;
    }
    modify (put_run run_id run)
    pure run

  unfoldable pub start_claimed :
      String → Option MetadataAnalysisRunRecord → Method (Option MetadataAnalysisRunRecord)
  start_claimed run_id none = pure none
  start_claimed run_id (some run) = do
    started_at ← utc_now w
    let changed : MetadataAnalysisRunRecord = record run {
      status = "RUNNING";
      started_at = some started_at;
      completed_at = none;
      error = none;
    }
    modify (put_run run_id changed)
    pure (some changed)

  unfoldable pub claim_metadata_analysis_run :
      String → ℕ → Method (Option MetadataAnalysisRunRecord)
  claim_metadata_analysis_run run_id stale_before = do
    found ← gets (λ s. Dict.get s.metadata_analysis_runs run_id)
    start_claimed run_id (if_recoverable stale_before found)

  unfoldable pub mark_metadata_analysis_run_running : String → Method MetadataAnalysisRunRecord
  mark_metadata_analysis_run_running run_id = do
    found ← gets (λ s. Dict.get s.metadata_analysis_runs run_id)
    run ← or_raise (key_error run_id) found
    started_at ← utc_now w
    let changed : MetadataAnalysisRunRecord = record run {
      status = "RUNNING";
      started_at = some started_at;
    }
    modify (put_run run_id changed)
    pure changed

  unfoldable pub mark_metadata_analysis_run_succeeded :
      String → Fields → Method MetadataAnalysisRunRecord
  mark_metadata_analysis_run_succeeded run_id analysis = do
    found ← gets (λ s. Dict.get s.metadata_analysis_runs run_id)
    run ← or_raise (key_error run_id) found
    completed_at ← utc_now w
    let changed : MetadataAnalysisRunRecord = record run {
      status = "SUCCEEDED";
      completed_at = some completed_at;
      analysis = some analysis;
      error = none;
    }
    modify (put_run run_id changed)
    pure changed

  unfoldable pub mark_metadata_analysis_run_failed :
      String → Fields → Method MetadataAnalysisRunRecord
  mark_metadata_analysis_run_failed run_id error = do
    found ← gets (λ s. Dict.get s.metadata_analysis_runs run_id)
    run ← or_raise (key_error run_id) found
    completed_at ← utc_now w
    let changed : MetadataAnalysisRunRecord = record run {
      status = "FAILED";
      completed_at = some completed_at;
      error = some error;
    }
    modify (put_run run_id changed)
    pure changed

unfoldable pub get_metadata_analysis_run :
    String → MemoryWorkflowRepository → Option MetadataAnalysisRunRecord
get_metadata_analysis_run run_id s = Dict.get s.metadata_analysis_runs run_id

abbrev pub older_run : MetadataAnalysisRunRecord → MetadataAnalysisRunRecord → Bool
older_run a b = key_ltb (a.submitted_at, a.run_id) (b.submitted_at, b.run_id)

unfoldable pub list_recoverable_metadata_analysis_runs :
    ℕ → Option ℤ → MemoryWorkflowRepository → List MetadataAnalysisRunRecord
list_recoverable_metadata_analysis_runs stale_before limit s = bounded limit (
    sort_by older_run (
      filter (λ run. metadata_analysis_run_is_recoverable run stale_before)
        (Dict.values s.metadata_analysis_runs)))
