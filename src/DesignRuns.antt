-- ===== src/DesignRuns.antt =====
-- apps/api/api_app/metadata_design_runs.py: the redaction of a request, and one attempt at a queued
-- design run. The design itself (`MetadataDesignChatService.design`) and the validation of its
-- request are parameters: the design may read and write the repository, and may raise. Of what is
-- raised, `persistence_error` stands for `MetadataDesignRunPersistenceError` alone here.
pub mod Redaction
pub mod Redacted
pub mod Presenting
mod Checks
unfoldable pub use Redaction.*
use mssql_ai_project.Base.{
  ℕ, ◌-◌, String, Bool, true, false, Option, none, some, ◌==◌, string_eq, max, if◌then◌else◌,
}
use mssql_ai_project.Base.Text.{Text, codes, strip}
use mssql_ai_project.Base.Int.{pos, negsuc}
use mssql_ai_project.Base.Json
use mssql_ai_project.Base.Json.{str, Fields}
use mssql_ai_project.Base.Values.{parse_int}
use mssql_ai_project.Base.Result.{Result, ok, err}
use mssql_ai_project.Base.Exec.{pure, lift, gets, ◌>>=◌, ◌>>◌}
use mssql_ai_project.Repository
use mssql_ai_project.Repository.{
  MetadataDesignRunRecord, World, MemoryWorkflowRepository, Method, prefixed_id,
  claim_metadata_design_run, mark_metadata_design_run_succeeded, mark_metadata_design_run_failed,
}
use mssql_ai_project.AnalysisRuns.{
  ServiceError, dependency_error, tool_error, persistence_error, value_error, other_error, Attempt,
  embed, error_payload, terminal_statuses,
}

-- of the value of its environment variable or ""
unfoldable pub metadata_design_run_stale_seconds : Text → ℕ
metadata_design_run_stale_seconds raw_value = elim (parse_int (strip raw_value)) [
  | none ↦ 1800
  | some (pos n) ↦ max n 60
  | some (negsuc n) ↦ 60
]

-- with times in seconds
unfoldable pub metadata_design_run_stale_before : Text → ℕ → ℕ
metadata_design_run_stale_before raw_value now = now - metadata_design_run_stale_seconds raw_value

-- `_metadata_design_run_error`; `code_for_status(500)` is "API_ERROR"
unfoldable pub metadata_design_run_error : ServiceError → Fields
metadata_design_run_error (dependency_error c detail st) = error_payload c detail st
metadata_design_run_error (tool_error c message st) = error_payload c message st
metadata_design_run_error (persistence_error c text st) = error_payload c text st
metadata_design_run_error (value_error text) = error_payload (codes "VALIDATION_ERROR") text 422
metadata_design_run_error other_error =
    error_payload (codes "API_ERROR") (codes "Metadata design run failed.") 500

-- `MetadataDesignRunRequest`: its conversation, and what else it holds
pub record MetadataDesignRunRequest : Type 0 where
  pub conversation_id : Option String
  pub model_payload : Fields

unfoldable pub metadata_design_run_is_terminal : String → MemoryWorkflowRepository → Bool
metadata_design_run_is_terminal run_id s = elim (Repository.get_metadata_design_run run_id s) [
  | none ↦ false
  | some run ↦ terminal_statuses run.status
]

-- `conversation_id or default`
abbrev pub conversation_or : Option String → String → String
conversation_or none default = default
conversation_or (some c) default = if c == "" then default else c

module _ (w : World) where
  unfoldable pub conversation_or_fresh : Option String → Method String
  conversation_or_fresh none = prefixed_id w "metadata_design_conv"
  conversation_or_fresh (some c) = if c == "" then prefixed_id w "metadata_design_conv" else pure c

  -- The record that is then presented.
  unfoldable pub create_metadata_design_run :
      MetadataDesignRunRequest → Method MetadataDesignRunRecord
  create_metadata_design_run request = do
    conversation_id ← conversation_or_fresh request.conversation_id
    let request_payload : Fields =
        Json.put (sanitize_design_request_payload request.model_payload) (codes "conversationId")
          (str (codes conversation_id))
    run_id ← prefixed_id w "metadata_design_run"
    Repository.create_metadata_design_run w run_id conversation_id request_payload

  module _ (validate : Fields → Result ServiceError MetadataDesignRunRequest)
      (design : MetadataDesignRunRequest → Attempt Fields) where
    -- `request or MetadataDesignRunRequest.model_validate(claimed.request)`
    unfoldable pub request_of :
        Option MetadataDesignRunRequest
        → MetadataDesignRunRecord
        → Result ServiceError MetadataDesignRunRequest
    request_of none run = validate run.request
    request_of (some q) run = ok q

    -- the conversation of the run, where the request names none
    unfoldable pub with_conversation :
        MetadataDesignRunRecord → MetadataDesignRunRequest → MetadataDesignRunRequest
    with_conversation run q = record q {
      conversation_id = some (conversation_or q.conversation_id run.conversation_id);
    }

    -- the body of the outer `try`
    unfoldable pub attempt :
        String → Option MetadataDesignRunRequest → MetadataDesignRunRecord → Attempt (Unit {0})
    attempt run_id request run = do
      design_request ← lift (request_of request run)
      result ← design (with_conversation run design_request)
      finished ← gets (metadata_design_run_is_terminal run_id)
      if finished
          then pure tt
          else do embed (mark_metadata_design_run_succeeded w run_id result); pure tt

    -- the body of the inner `try`
    unfoldable pub record_failure : String → Fields → Method (Unit {0})
    record_failure run_id error = do
      finished ← gets (metadata_design_run_is_terminal run_id)
      if finished then pure tt else do mark_metadata_design_run_failed w run_id error; pure tt

    -- Both handlers: whatever is raised, the attempt counts as made.
    abbrev pub handled :
        String
        → Result ServiceError (Unit {0}) × MemoryWorkflowRepository
        → MemoryWorkflowRepository
    handled run_id (ok _, t) = t
    handled run_id (err exc, t) = (record_failure run_id (metadata_design_run_error exc) t).1

    unfoldable pub work :
        String → Option MetadataDesignRunRequest → Option MetadataDesignRunRecord → Method Bool
    work run_id request none s = (ok false, s)
    work run_id request (some run) s = (ok true, handled run_id (attempt run_id request run s))

    unfoldable pub execute_metadata_design_run :
        String → Option MetadataDesignRunRequest → ℕ → Method Bool
    execute_metadata_design_run run_id request limit = do
      claimed ← claim_metadata_design_run w run_id limit
      work run_id request claimed
