-- ===== src/AnalysisRuns/Checks.antt =====
-- apps/api/api_app/metadata_analysis_runs.py at concrete inputs.
use mssql_ai_project.Base.{ℕ, ◌+◌, ◌≡◌, refl, true, none, some, [], ◌∷◌}
use mssql_ai_project.Base.Dict
use mssql_ai_project.Base.Text.{codes}
use mssql_ai_project.Base.Json.{Fields, empty}
use mssql_ai_project.Base.Result.{Result, ok, err}
use mssql_ai_project.Base.Exec
use mssql_ai_project.Repository.{
  MetadataAnalysisRunRecord, World, MemoryWorkflowRepository, utc_now, claim_metadata_analysis_run,
  start_claimed, if_recoverable, metadata_analysis_run_is_recoverable,
}
use mssql_ai_project.AnalysisRuns.{
  ServiceError, other_error, Attempt, request_of, execute_metadata_analysis_run,
}
use mssql_ai_project.AnalysisRuns.Outcome.{
  produced, recorded, execute_metadata_analysis_run_claimed,
}

abbrev world : World
world = record { uuid_hex = λ n. "0"; clock = λ n. n + 1000; repr = λ v. codes "{}" }

abbrev valid : Fields → Result ServiceError Fields
valid q = ok q

-- an analysis that raises
abbrev analysis_fails : Fields → Attempt Fields
analysis_fails q s = (err other_error, s)

abbrev queued : MetadataAnalysisRunRecord
queued = record {
  run_id = "run_1";
  status = "QUEUED";
  request = empty;
  submitted_at = 900;
  started_at = none;
  completed_at = none;
  analysis = none;
  error = none;
}

abbrev running : MetadataAnalysisRunRecord
running = record {
  run_id = "run_1";
  status = "RUNNING";
  request = empty;
  submitted_at = 900;
  started_at = some 1000;
  completed_at = none;
  analysis = none;
  error = none;
}

abbrev holding : MetadataAnalysisRunRecord → ℕ → MemoryWorkflowRepository
holding run reads = record {
  requests = [];
  jobs = [];
  metadata_collections = [];
  agent_runs = [];
  artifacts = [];
  validation_reports = [];
  knowledge_assets = [];
  knowledge_versions = [];
  knowledge_exports = [];
  knowledge_job_links = [];
  metadata_analysis_runs = ("run_1", run) ∷ [];
  metadata_design_runs = [];
  audit_events = [];
  ids_drawn = 0;
  clock_reads = reads;
}

run_claimed :
    claim_metadata_analysis_run world "run_1" 950 (holding queued 0)
    ≡ (ok (some running), holding running 1)
unfolding claim_metadata_analysis_run Exec.◌>>=◌ start_claimed if_recoverable Dict.get Dict.put
    metadata_analysis_run_is_recoverable utc_now
run_claimed = refl

raises :
    produced world valid analysis_fails none running (holding running 1)
    ≡ (err other_error, holding running 1)
unfolding request_of
raises = refl

still_there : Dict.get (holding running 1).metadata_analysis_runs "run_1" ≡ some running
unfolding Dict.get
still_there = refl

execute_metadata_analysis_run_claimed_example :
    execute_metadata_analysis_run world valid analysis_fails "run_1" none 950 (holding queued 0) ≡ (
      ok true,
      recorded world valid analysis_fails "run_1" running (holding running 1) (err other_error),
    )
execute_metadata_analysis_run_claimed_example =
    execute_metadata_analysis_run_claimed world valid analysis_fails "run_1" none 950 running
      running (holding queued 0) (holding running 1) (holding running 1) (err other_error)
      run_claimed raises still_there
