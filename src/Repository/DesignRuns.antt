-- ===== src/Repository/DesignRuns.antt =====
-- Metadata design runs: the same queue for the runs of a conversation, which lists its own.
use mssql_ai_project.Base.{
  ℕ, String, Bool, true, false, Option, none, some, List, ◌==◌, filter, string_eq, leb,
  if◌then◌else◌,
}
use mssql_ai_project.Base.Dict
use mssql_ai_project.Base.Int.{ℤ}
use mssql_ai_project.Base.Sort.{sort_by, key_ltb}
use mssql_ai_project.Base.Json.{Fields}
use mssql_ai_project.Base.Exec.{pure, gets, or_raise, modify, ◌>>=◌, ◌>>◌}
use mssql_ai_project.Repository.Records.{MetadataDesignRunRecord}
use mssql_ai_project.Repository.State.{key_error, World, MemoryWorkflowRepository, Method, utc_now}
use mssql_ai_project.Repository.Jobs.{bounded}

-- `record.started_at or record.submitted_at`
abbrev pub design_reference_time : MetadataDesignRunRecord → ℕ
design_reference_time run = elim run.started_at [ none ↦ run.submitted_at | some t ↦ t ]

unfoldable pub metadata_design_run_is_recoverable : MetadataDesignRunRecord → ℕ → Bool
metadata_design_run_is_recoverable run stale_before =
    if run.status == "QUEUED"
    then true
    else if run.status == "RUNNING"
    then leb (design_reference_time run) stale_before
    else false

abbrev pub put_design_run :
    String → MetadataDesignRunRecord → MemoryWorkflowRepository → MemoryWorkflowRepository
put_design_run run_id run s = record s {
  metadata_design_runs = Dict.put s.metadata_design_runs run_id run;
}

unfoldable pub if_design_recoverable :
    ℕ → Option MetadataDesignRunRecord → Option MetadataDesignRunRecord
if_design_recoverable stale_before none = none
if_design_recoverable stale_before (some run) =
    if metadata_design_run_is_recoverable run stale_before then some run else none

module _ (w : World) where
  unfoldable pub create_metadata_design_run :
      String → String → Fields → Method MetadataDesignRunRecord
  create_metadata_design_run run_id conversation_id request = do
    submitted_at ← utc_now w
    let run : MetadataDesignRunRecord = record {
      run_id = run_id;
      conversation_id = conversation_id;
      status = "QUEUED";
      request = request;
      submitted_at = submitted_at;
      started_at = none;
      completed_at = none;
      result = none;
      error = none;
    }
    modify (put_design_run run_id run)
    pure run

  unfoldable pub start_claimed_design :
      String → Option MetadataDesignRunRecord → Method (Option MetadataDesignRunRecord)
  start_claimed_design run_id none = pure none
  start_claimed_design run_id (some run) = do
    started_at ← utc_now w
    let changed : MetadataDesignRunRecord = record run {
      status = "RUNNING";
      started_at = some started_at;
      completed_at = none;
      result = none;
      error = none;
    }
    modify (put_design_run run_id changed)
    pure (some changed)

  unfoldable pub claim_metadata_design_run : String → ℕ → Method (Option MetadataDesignRunRecord)
  claim_metadata_design_run run_id stale_before = do
    found ← gets (λ s. Dict.get s.metadata_design_runs run_id)
    start_claimed_design run_id (if_design_recoverable stale_before found)

  unfoldable pub mark_metadata_design_run_running : String → Method MetadataDesignRunRecord
  mark_metadata_design_run_running run_id = do
    found ← gets (λ s. Dict.get s.metadata_design_runs run_id)
    run ← or_raise (key_error run_id) found
    started_at ← utc_now w
    let changed : MetadataDesignRunRecord = record run {
      status = "RUNNING";
      started_at = some started_at;
    }
    modify (put_design_run run_id changed)
    pure changed

  unfoldable pub mark_metadata_design_run_succeeded :
      String → Fields → Method MetadataDesignRunRecord
  mark_metadata_design_run_succeeded run_id result = do
    found ← gets (λ s. Dict.get s.metadata_design_runs run_id)
    run ← or_raise (key_error run_id) found
    completed_at ← utc_now w
    let changed : MetadataDesignRunRecord = record run {
      status = "SUCCEEDED";
      completed_at = some completed_at;
      result = some result;
      error = none;
    }
    modify (put_design_run run_id changed)
    pure changed

  unfoldable pub mark_metadata_design_run_failed : String → Fields → Method MetadataDesignRunRecord
  mark_metadata_design_run_failed run_id error = do
    found ← gets (λ s. Dict.get s.metadata_design_runs run_id)
    run ← or_raise (key_error run_id) found
    completed_at ← utc_now w
    let changed : MetadataDesignRunRecord = record run {
      status = "FAILED";
      completed_at = some completed_at;
      error = some error;
    }
    modify (put_design_run run_id changed)
    pure changed

unfoldable pub get_metadata_design_run :
    String → MemoryWorkflowRepository → Option MetadataDesignRunRecord
get_metadata_design_run run_id s = Dict.get s.metadata_design_runs run_id

abbrev pub older_design_run : MetadataDesignRunRecord → MetadataDesignRunRecord → Bool
older_design_run a b = key_ltb (a.submitted_at, a.run_id) (b.submitted_at, b.run_id)

unfoldable pub list_recoverable_metadata_design_runs :
    ℕ → Option ℤ → MemoryWorkflowRepository → List MetadataDesignRunRecord
list_recoverable_metadata_design_runs stale_before limit s = bounded limit (
    sort_by older_design_run (
      filter (λ run. metadata_design_run_is_recoverable run stale_before)
        (Dict.values s.metadata_design_runs)))

-- newest first: `sorted(..., reverse=True)`
unfoldable pub list_metadata_design_runs_for_conversation :
    String → ℤ → MemoryWorkflowRepository → List MetadataDesignRunRecord
list_metadata_design_runs_for_conversation conversation_id limit s = bounded (some limit) (
    sort_by (λ a b. older_design_run b a)
      (filter (λ run. run.conversation_id == conversation_id) (Dict.values s.metadata_design_runs)))
