-- ===== src/Repository.antt =====
-- apps/api/api_app/memory_repository.py: the in-memory workflow repository, method by method, over
-- the records of apps/api/api_app/repositories.py.
mod Records
mod State
mod Audit
mod Log
mod Requests
mod Jobs
mod Artifacts
mod Collections
mod Runs
mod DesignRuns
mod Knowledge
mod ContentKeeps
pub mod Calls
pub mod Trail
pub mod History
pub mod Growth
pub mod Transitions
pub mod Claims
pub mod Validation
pub mod StaleClaims
pub mod DesignClaims
pub mod Versions
mod Checks
pub use Records.*
pub use State.{
  RepositoryError, key_error, state_error, unsupported_validation_status, not_a_mapping, not_a_pair,
  not_iterable, World, MemoryWorkflowRepository, Method,
}
unfoldable pub use State.{prefixed_id, utc_now}
unfoldable pub use Audit.*
unfoldable pub use Log.*
unfoldable pub use Requests.*
unfoldable pub use Jobs.*
unfoldable pub use Artifacts.*
unfoldable pub use Collections.*
unfoldable pub use Runs.*
unfoldable pub use DesignRuns.*
unfoldable pub use Knowledge.*
