-- ===== src/AnalysisRuns.antt =====
-- apps/api/api_app/metadata_analysis_runs.py: one attempt at a queued metadata analysis, claimed,
-- worked and recorded. The analysis itself (`MetadataAnalysisService.analyze`) and the validation of
-- its request are parameters: the analysis may read and write the repository, and may raise.
pub mod Outcome
pub mod Presenting
mod Checks
use mssql_ai_project.Base.{
  ℕ, ◌-◌, String, Bool, true, false, Option, none, some, List, [], ◌∷◌, ◌==◌, ◌||◌, string_eq, max,
  is_some, if◌then◌else◌,
}
use mssql_ai_project.Base.Dict
use mssql_ai_project.Base.Text.{Text, codes, is_empty, strip}
use mssql_ai_project.Base.Int.{ℤ, pos, negsuc}
use mssql_ai_project.Base.Json.{Json, int, str, Fields, empty, field}
use mssql_ai_project.Base.Values.{parse_int}
use mssql_ai_project.Base.Result.{Result, ok, err}
use mssql_ai_project.Base.Exec.{Exec, pure, lift, gets, ◌>>=◌, ◌>>◌}
use mssql_ai_project.Repository.{
  MetadataAnalysisRunRecord, RepositoryError, key_error, state_error, unsupported_validation_status,
  not_a_mapping, not_a_pair, not_iterable, World, MemoryWorkflowRepository, Method,
  claim_metadata_analysis_run, mark_metadata_analysis_run_succeeded,
  mark_metadata_analysis_run_failed, get_metadata_analysis_run,
}

-- `metadata_analysis_run_stale_seconds`, of the value of its environment variable or "".
unfoldable pub stale_seconds : Text → ℕ
stale_seconds raw_value = elim (parse_int (strip raw_value)) [
  | none ↦ 1800
  | some (pos n) ↦ max n 60
  | some (negsuc n) ↦ 60
]

-- `metadata_analysis_run_stale_before`, with times in seconds.
unfoldable pub stale_before : Text → ℕ → ℕ
stale_before raw_value now = now - stale_seconds raw_value

-- What an attempt may raise, by the classes that `_metadata_analysis_run_error` tells apart.
pub data ServiceError : Type 0 where
  -- `MetadataSearchDependencyError`: code, detail, status
  dependency_error : Text → Text → ℕ → ServiceError
  -- `MetadataToolError`: code, message and `http_status`
  tool_error : Text → Text → ℕ → ServiceError
  -- `KnowledgePersistenceError`, `MetadataAnalysisRunPersistenceError`: code, text, status
  persistence_error : Text → Text → ℕ → ServiceError
  -- `ValueError` and what derives from it
  value_error : Text → ServiceError
  other_error : ServiceError

abbrev pub error_payload : Text → Text → ℕ → Fields
error_payload error_code message status_code = field (codes "code") (str error_code) (
    field (codes "message") (str message)
      (field (codes "statusCode") (int (pos status_code)) empty))

-- `_metadata_analysis_run_error`; `code_for_status(500)` is "API_ERROR"
unfoldable pub metadata_analysis_run_error : ServiceError → Fields
metadata_analysis_run_error (dependency_error c detail st) = error_payload c detail st
metadata_analysis_run_error (tool_error c message st) = error_payload c message st
metadata_analysis_run_error (persistence_error c text st) = error_payload c text st
metadata_analysis_run_error (value_error text) = error_payload (codes "VALIDATION_ERROR") text 422
metadata_analysis_run_error other_error =
    error_payload (codes "API_ERROR") (codes "Metadata analysis run failed.") 500

-- The classes of what the repository raises: `WorkflowStateError` is a `ValueError`, `KeyError` is not.
unfoldable pub of_repository_error : RepositoryError → ServiceError
of_repository_error (key_error k) = other_error
of_repository_error (state_error e) = value_error (codes "")
of_repository_error (unsupported_validation_status st) = value_error (codes st)
of_repository_error (not_a_mapping v) = other_error
of_repository_error (not_a_pair v) = other_error
of_repository_error (not_iterable v) = other_error

unfoldable pub terminal_statuses : String → Bool
terminal_statuses status = status == "SUCCEEDED" || status == "FAILED"

unfoldable pub metadata_analysis_run_is_terminal : String → MemoryWorkflowRepository → Bool
metadata_analysis_run_is_terminal run_id s = elim (get_metadata_analysis_run run_id s) [
  | none ↦ false
  | some run ↦ terminal_statuses run.status
]

abbrev pub Attempt : Type 0 → Type 0
Attempt A = Exec ServiceError MemoryWorkflowRepository A

-- A call of the repository inside `try`.
abbrev relabel : {A : Type 0} → Result RepositoryError A → Result ServiceError A
relabel (ok a) = ok a
relabel (err e) = err (of_repository_error e)

unfoldable pub embed : {A : Type 0} → Method A → Attempt A
embed m s = let (r, t) = m s in (relabel r, t)

module _ (w : World) (validate : Fields → Result ServiceError Fields)
    (analyze : Fields → Attempt Fields) where
  -- `request or MetadataAnalysisRequest.model_validate(claimed.request)`
  unfoldable pub request_of : Option Fields → MetadataAnalysisRunRecord → Result ServiceError Fields
  request_of none run = validate run.request
  request_of (some q) run = ok q

  -- the body of the outer `try`
  unfoldable pub attempt : String → Option Fields → MetadataAnalysisRunRecord → Attempt (Unit {0})
  attempt run_id request run = do
    analysis_request ← lift (request_of request run)
    analysis ← analyze analysis_request
    finished ← gets (metadata_analysis_run_is_terminal run_id)
    if finished
        then pure tt
        else do embed (mark_metadata_analysis_run_succeeded w run_id analysis); pure tt

  -- the body of the inner `try`
  unfoldable pub record_failure : String → Fields → Method (Unit {0})
  record_failure run_id error = do
    finished ← gets (metadata_analysis_run_is_terminal run_id)
    if finished then pure tt else do mark_metadata_analysis_run_failed w run_id error; pure tt

  -- Both handlers: whatever is raised, the attempt counts as made.
  abbrev pub handled :
      String → Result ServiceError (Unit {0}) × MemoryWorkflowRepository → MemoryWorkflowRepository
  handled run_id (ok _, t) = t
  handled run_id (err exc, t) = (record_failure run_id (metadata_analysis_run_error exc) t).1

  unfoldable pub work : String → Option Fields → Option MetadataAnalysisRunRecord → Method Bool
  work run_id request none s = (ok false, s)
  work run_id request (some run) s = (ok true, handled run_id (attempt run_id request run s))

  unfoldable pub execute_metadata_analysis_run : String → Option Fields → ℕ → Method Bool
  execute_metadata_analysis_run run_id request limit = do
    claimed ← claim_metadata_analysis_run w run_id limit
    work run_id request claimed
