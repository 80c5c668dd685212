-- ===== src/Repository/Jobs.antt =====
-- Workflow jobs: their creation, their changes of status and the claims on them.
use mssql_ai_project.Base.{
  ℕ, String, Bool, true, false, not, ◌&&◌, Option, none, some, List, [], ◌∷◌, ◌++◌, min, max, ◌==◌,
  if◌then◌else◌, filter, first_where, take, elem, string_eq, leb,
}
use mssql_ai_project.Base.Dict
use mssql_ai_project.Base.Dict.{Dict}
use mssql_ai_project.Base.Int.{ℤ, pos, negsuc}
use mssql_ai_project.Base.Sort.{sort_by, key_ltb}
use mssql_ai_project.Base.Text.{Text, codes, text_eq}
use mssql_ai_project.Base.Json.{Json, null, str, empty, field}
use mssql_ai_project.Base.Result.{Result, ok, err}
use mssql_ai_project.Base.Exec.{pure, lift, gets, or_raise, modify, ◌>>=◌, ◌>>◌}
use mssql_ai_project.Lifecycle.{
  JobStatus, submitted, collecting_metadata, analyzing, generating, validating, job_eq, job_value,
  WorkflowStepType, collect_metadata, step_value, StateError, ensure_job_transition,
}
use mssql_ai_project.Repository.Records.{WorkRequestRecord, JobRecord}
use mssql_ai_project.Repository.State.{
  RepositoryError, key_error, state_error, World, MemoryWorkflowRepository, Method, prefixed_id,
  utc_now,
}
use mssql_ai_project.Repository.Log.{record_audit_event, api_system}
use mssql_ai_project.Repository.Requests.{update_request_status}

-- A call of `lifecycle` that may raise.
abbrev pub checked : {A : Type 0} → Result StateError A → Result RepositoryError A
checked (ok a) = ok a
checked (err e) = err (state_error e)

-- The fields that a new job takes from its request, where there is one.
unfoldable pub new_job :
    String → String → Option Text → Option WorkRequestRecord → ℕ → ℕ → JobRecord
new_job job_id request_id correlation_id request created_at updated_at = record {
  job_id = job_id;
  request_id = request_id;
  status = submitted;
  current_step = none;
  correlation_id = correlation_id;
  db_profile_id = elim request [ none ↦ none | some r ↦ some r.db_profile_id ];
  target = elim request [ none ↦ none | some r ↦ some r.target ];
  target_key = elim request [ none ↦ none | some r ↦ r.target_key ];
  outputs = elim request [ none ↦ [] | some r ↦ r.outputs ];
  created_at = created_at;
  updated_at = updated_at;
  error_code = none;
  error_message = none;
  transitions = [];
}

abbrev pub put_job : JobRecord → MemoryWorkflowRepository → MemoryWorkflowRepository
put_job job s = record s { jobs = Dict.put s.jobs job.job_id job }

-- `active_statuses` of the two methods on stale jobs, and their test.
unfoldable pub is_active : JobStatus → Bool
is_active status =
    elem status (submitted ∷ collecting_metadata ∷ analyzing ∷ generating ∷ validating ∷ [])

unfoldable pub is_stale : ℕ → JobRecord → Bool
is_stale stale_before job = is_active job.status && leb job.updated_at stale_before

-- `job is None or job.status != SUBMITTED`
unfoldable pub not_submitted : Option JobRecord → Bool
not_submitted none = true
not_submitted (some job) = not (job.status == submitted)

-- The record, if it is there and stale.
unfoldable pub if_stale : ℕ → Option JobRecord → Option JobRecord
if_stale stale_before none = none
if_stale stale_before (some job) = if is_stale stale_before job then some job else none

unfoldable pub step_or_null : Option WorkflowStepType → Json
step_or_null none = null
step_or_null (some step) = str (codes (step_value step))

module _ (w : World) where
  unfoldable pub create_job : String → Option Text → Method JobRecord
  create_job request_id correlation_id = do
    request ← gets (λ s. Dict.get s.requests request_id)
    job_id ← prefixed_id w "job"
    created_at ← utc_now w
    updated_at ← utc_now w
    let job = new_job job_id request_id correlation_id request created_at updated_at
    modify (λ s. record s { jobs = Dict.put s.jobs job_id job })
    pure job

  -- What follows once a change of status is accepted: the record, its request and the audit trail.
  unfoldable pub apply_transition :
      String → JobStatus → Option WorkflowStepType → JobRecord → Method JobRecord
  apply_transition job_id status current_step job = do
    updated_at ← utc_now w
    let changed : JobRecord = record job {
      status = status;
      current_step = current_step;
      updated_at = updated_at;
      transitions = job.transitions ++ (status, current_step) ∷ [];
    }
    modify (λ s. record s { jobs = Dict.put s.jobs job_id changed })
    update_request_status w job.request_id status
    record_audit_event w "JOB_TRANSITIONED" "JOB" job_id
        (field (codes "status") (str (codes (job_value status)))
          (field (codes "currentStep") (step_or_null current_step) empty))
        api_system job.correlation_id
    pure changed

  unfoldable pub transition_job : String → JobStatus → Option WorkflowStepType → Method JobRecord
  transition_job job_id status current_step = do
    found ← gets (λ s. Dict.get s.jobs job_id)
    job ← or_raise (key_error job_id) found
    lift (checked (ensure_job_transition job.status status))
    apply_transition job_id status current_step job

  unfoldable pub claim_submitted_job : String → Method (Option JobRecord)
  claim_submitted_job job_id = do
    found ← gets (λ s. Dict.get s.jobs job_id)
    if not_submitted found then pure none else do
      job ← transition_job job_id collecting_metadata (some collect_metadata)
      pure (some job)

  unfoldable pub apply_failure : String → Text → Text → JobRecord → Method JobRecord
  apply_failure job_id error_code message job = do
    updated_at ← utc_now w
    let changed : JobRecord = record job {
      status = JobStatus.failed;
      error_code = some error_code;
      error_message = some message;
      updated_at = updated_at;
      transitions = job.transitions ++ (JobStatus.failed, job.current_step) ∷ [];
    }
    modify (λ s. record s { jobs = Dict.put s.jobs job_id changed })
    update_request_status w job.request_id JobStatus.failed
    record_audit_event w "JOB_FAILED" "JOB" job_id
        (field (codes "code") (str error_code) (field (codes "message") (str message) empty))
        api_system job.correlation_id
    pure changed

  unfoldable pub fail_job : String → Text → Text → Method JobRecord
  fail_job job_id error_code message = do
    found ← gets (λ s. Dict.get s.jobs job_id)
    job ← or_raise (key_error job_id) found
    lift (checked (ensure_job_transition job.status JobStatus.failed))
    apply_failure job_id error_code message job

  unfoldable pub touch : String → Option JobRecord → Method (Option JobRecord)
  touch job_id none = pure none
  touch job_id (some job) = do
    updated_at ← utc_now w
    let changed : JobRecord = record job { updated_at = updated_at }
    modify (λ s. record s { jobs = Dict.put s.jobs job_id changed })
    pure (some changed)

  unfoldable pub claim_stale_active_job : String → ℕ → Method (Option JobRecord)
  claim_stale_active_job job_id stale_before = do
    found ← gets (λ s. Dict.get s.jobs job_id)
    touch job_id (if_stale stale_before found)

-- `items[: max(min(int(limit), 100), 1)]`, where a limit is given
unfoldable pub bounded {ℓ} : {A : Type ℓ} → Option ℤ → List A → List A
bounded none items = items
bounded (some (pos n)) items = take (max (min n 100) 1) items
bounded (some (negsuc n)) items = take 1 items

unfoldable pub get_job : String → MemoryWorkflowRepository → Option JobRecord
get_job job_id s = Dict.get s.jobs job_id

unfoldable pub find_job_by_request_id : String → MemoryWorkflowRepository → Option JobRecord
find_job_by_request_id request_id s =
    first_where (λ job. job.request_id == request_id) (Dict.values s.jobs)

-- newest first
abbrev pub newer_job : JobRecord → JobRecord → Bool
newer_job a b = key_ltb (b.created_at, b.job_id) (a.created_at, a.job_id)

abbrev pub older_update : JobRecord → JobRecord → Bool
older_update a b = key_ltb (a.updated_at, a.job_id) (b.updated_at, b.job_id)

-- `if target_key:` and the filter under it
unfoldable pub for_target : Option Text → List JobRecord → List JobRecord
for_target none jobs = jobs
for_target (some []) jobs = jobs
for_target (some (c ∷ k)) jobs =
    filter (λ job. elim job.target_key [ none ↦ false | some t ↦ t == c ∷ k ]) jobs

unfoldable pub list_jobs : Option ℤ → Option Text → MemoryWorkflowRepository → List JobRecord
list_jobs limit target_key s =
    bounded limit (for_target target_key (sort_by newer_job (Dict.values s.jobs)))

unfoldable pub list_stale_active_jobs : ℕ → Option ℤ → MemoryWorkflowRepository → List JobRecord
list_stale_active_jobs stale_before limit s =
    bounded limit (sort_by older_update (filter (is_stale stale_before) (Dict.values s.jobs)))
