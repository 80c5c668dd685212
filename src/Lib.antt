-- ===== src/Lib.antt =====
-- The workflow core of the AI platform for SQL Server: what its in-memory repository, its lifecycle
-- rules, its queues of metadata runs with their recovery worker, its admission counter, the schemas,
-- guards and cache of its metadata tool server, and its SQL scanners promise, and why the code keeps
-- it.
--
-- A client submits a request, for which the repository creates a job; workers claim jobs and move
-- them through the lifecycle, store metadata, agent runs and artifacts, and validate artifacts; each
-- change writes an audit event. Analysis and design runs are queued beside the jobs and claimed by
-- request handlers and by a recovery worker, which also resumes jobs that were dropped. What is
-- learnt of a database object is kept as a knowledge asset, with a version for each content.
-- Requests, jobs, artifacts and assets are matched to database objects by canonical keys.
--
-- Base: what the modules share: Python's dict and str (as code points), JSON values, results,
--   methods that change a state and may raise (Exec), what such methods keep (Exec/Keeps), settings
--   from the environment (Env).
-- Lifecycle: apps/api/api_app/lifecycle.py over the enumerations of
--   packages/domain/src/ai_agent_domain/models.py.
-- TargetKey: apps/api/api_app/target_keys.py.
-- Repository: apps/api/api_app/memory_repository.py, one function for each method, over the records
--   and the audit payload of apps/api/api_app/repositories.py. Requests, Jobs, Collections,
--   Artifacts, Runs, DesignRuns and Knowledge hold the methods, Log and Audit the audit
--   trail; Calls makes them the calls of a client, and History, Growth, Transitions, Claims,
--   StaleClaims, DesignClaims, Validation and Versions prove things of them.
-- AnalysisRuns: apps/api/api_app/metadata_analysis_runs.py, execute_metadata_analysis_run; Presenting
--   submits a run and shows its status.
-- DesignRuns: apps/api/api_app/metadata_design_runs.py, create_metadata_design_run with its redaction
--   and execute_metadata_design_run; Presenting shows a run and a conversation.
-- Recovery: apps/api/api_app/recovery_worker.py, run_recovery_once and its settings; Services says what
--   the services of a pass may do to the repository, and Pass what a pass then keeps.
-- Admission: apps/api/api_app/backpressure.py and its twin in services/mssql-mcp/mssql_mcp_app.
-- Mcp: services/mssql-mcp/mssql_mcp_app/guardrails.py (Guardrails), schema_validation.py (Schema),
--   the checks of registry.py (Registry), and tool_cache.py (Redaction, ToolCache).
-- Auth: apps/api/api_app/auth.py, and the actors of apps/api/api_app/memory_repository.py.
-- SqlText: packages/analysis/src/ai_agent_analysis/sql_utils.py, the scanners.
--
-- A method of a class is a function from the state to its result and the state that it leaves, also
-- where it raises. Fresh ids and readings of the clock are drawn in order from a parameter (World).
-- The hash of cache keys, the decoding of tokens, the environment, the text that Python gives of a
-- list or dict, how it compares an int with a float, and the analysis and design services with the
-- validation of their payloads and the resumption of a workflow are parameters. All functions are
-- recursive on their data (a schema is read into its validator); the printer of decimal numbers alone
-- counts down a fuel, the number plus one, and a number has no more digits than that. A step under a
-- lock is one step; Admission orders the steps of several callers in every way, those without a limit
-- included.
--
-- Not modelled: the workflow service and the HTTP layer, the loop around a recovery pass, the
-- platform database, what the tool registry does after its checks, the catalog queries, the agent
-- runtime, the generation and validation packages, and the web front end. Lower-casing maps ASCII
-- letters, and the keys of a dict are texts.
pub mod Base
pub mod Lifecycle
pub mod TargetKey
pub mod Repository
pub mod AnalysisRuns
pub mod DesignRuns
pub mod Recovery
pub mod Mcp
pub mod SqlText
pub mod Auth
pub mod Admission
