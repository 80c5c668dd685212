-- ===== src/Lifecycle.antt =====
-- apps/api/api_app/lifecycle.py: which status changes the product lifecycle permits, over the
-- statuses of packages/domain/src/ai_agent_domain/models.py.
pub mod Status
pub mod Order
pub mod Limits
mod Checks
pub use Status.*
use mssql_ai_project.Base.{
  ℕ, String, not, ◌&&◌, ◌||◌, Option, none, some, List, [], ◌∷◌, ◌==◌, if◌then◌else◌, elem,
  string_eq, min, max,
}
use mssql_ai_project.Base.Int.{ℤ, pos, negsuc}
use mssql_ai_project.Base.Result.{Result, ok, err}

-- `WorkflowStateError`, by the message that it carries.
pub data StateError : Type 0 where
  terminal_job : JobStatus → JobStatus → StateError
  unsupported_job : JobStatus → JobStatus → StateError
  publish_blocked : StateError

-- `ALLOWED_JOB_TRANSITIONS.get(current, set())`
unfoldable pub allowed_job_transitions : JobStatus → List JobStatus
allowed_job_transitions submitted = collecting_metadata ∷ []
allowed_job_transitions collecting_metadata = analyzing ∷ []
allowed_job_transitions analyzing = generating ∷ []
allowed_job_transitions generating = validating ∷ []
allowed_job_transitions validating = validation_complete ∷ JobStatus.failed ∷ []
allowed_job_transitions _ = []

unfoldable pub terminal_job_statuses : List JobStatus
terminal_job_statuses =
    validation_complete ∷ JobStatus.approved ∷ JobStatus.rejected ∷ JobStatus.published
    ∷ JobStatus.failed ∷ canceled ∷ []

unfoldable pub ensure_job_transition : JobStatus → JobStatus → Result StateError (Unit {0})
ensure_job_transition current next_status =
    if current == next_status
    then ok tt
    else if next_status == JobStatus.failed && not (current == JobStatus.published)
    then ok tt
    else if elem current terminal_job_statuses
    then err (terminal_job current next_status)
    else if elem next_status (allowed_job_transitions current)
    then ok tt
    else err (unsupported_job current next_status)

unfoldable pub ensure_artifact_can_change :
    ArtifactStatus → ArtifactStatus → Result StateError (Unit {0})
ensure_artifact_can_change current next_status =
    if current == ArtifactStatus.published || next_status == ArtifactStatus.published
    then err publish_blocked
    else ok tt

unfoldable pub artifact_status_after_validation : String → ArtifactStatus → ArtifactStatus
artifact_status_after_validation status current =
    if current == ArtifactStatus.approved || current == ArtifactStatus.rejected
    then current
    else if status == "PASSED"
    then validated
    else if status == "REVIEW_REQUIRED"
    then current
    else current

abbrev pub default_page_limit : ℕ
default_page_limit = 100

abbrev pub max_page_limit : ℕ
max_page_limit = 100

-- `max(n, 1)` of an integer, as a natural number.
abbrev pub at_least_one : ℤ → ℕ
at_least_one (pos n) = max n 1
at_least_one (negsuc n) = 1

unfoldable pub normalize_page_limit : Option ℤ → ℕ
normalize_page_limit none = default_page_limit
normalize_page_limit (some limit) = min (at_least_one limit) max_page_limit
