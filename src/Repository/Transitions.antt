-- ===== src/Repository/Transitions.antt =====
-- What `transition_job` and `fail_job` do, on every branch.
use mssql_ai_project.Base.{
  ◌+◌, String, ◌≡◌, refl, ◌≢◌, inl, inr, Option, none, some, List, [], ◌∷◌, ◌++◌, Option-cases,
}
use mssql_ai_project.Base.Dict
use mssql_ai_project.Base.Dict.{Dict, get-put_self}
use mssql_ai_project.Base.Text.{Text, codes}
use mssql_ai_project.Base.Json
use mssql_ai_project.Base.Json.{Json, str, Fields, empty, field}
use mssql_ai_project.Base.Result.{Result, ok, err, Result-cases}
use mssql_ai_project.Base.Exec.{or_raise, ◌>>=◌}
use mssql_ai_project.Lifecycle.{JobStatus, job_value, WorkflowStepType, ensure_job_transition}
use mssql_ai_project.Lifecycle.Order.{Permitted, ensure_job_transition_iff}
use mssql_ai_project.Repository.Records.{WorkRequestRecord, JobRecord, AuditEventRecord}
use mssql_ai_project.Repository.State.{
  RepositoryError, World, MemoryWorkflowRepository, prefixed_id, utc_now,
}
use mssql_ai_project.Repository.Audit.{
  standardized_audit_payload, with_correlation, mapping_of, with_defaults, set_default,
}
use mssql_ai_project.Repository.Log.{record_audit_event, api_system}
use mssql_ai_project.Repository.Requests.{update_request_status, set_request_status}
use mssql_ai_project.Repository.Jobs.{
  checked, step_or_null, apply_transition, transition_job, apply_failure, fail_job,
}

-- A payload with two entries of its own, of which neither is `tracking` or `refs`, has its audit
-- form: no call of `dict` in it meets anything but a mapping.
payload_returns :
    (repr : Json → Text) (action kind ref : String) (v u : Json) (actor : Text) (c : Option Text)
    → (p : Fields) × (standardized_audit_payload repr action kind ref
          (field (codes "status") v (field (codes "currentStep") u empty))
          actor
          c
        ≡ ok p)
unfolding standardized_audit_payload with_correlation mapping_of with_defaults set_default Json.get
    Json.put
payload_returns repr action kind ref v u actor none = (_, refl)
payload_returns repr action kind ref v u actor (some []) = (_, refl)
payload_returns repr action kind ref v u actor (some (x ∷ xs)) = (_, refl)

failure_returns :
    (repr : Json → Text) (action kind ref : String) (v u : Json) (actor : Text) (c : Option Text)
    → (p : Fields) × (standardized_audit_payload repr action kind ref
          (field (codes "code") v (field (codes "message") u empty))
          actor
          c
        ≡ ok p)
unfolding standardized_audit_payload with_correlation mapping_of with_defaults set_default Json.get
    Json.put
failure_returns repr action kind ref v u actor none = (_, refl)
failure_returns repr action kind ref v u actor (some []) = (_, refl)
failure_returns repr action kind ref v u actor (some (x ∷ xs)) = (_, refl)

ok_not_err : {E A : Type 0} {r : Result E A} {a : A} {e : E} → r ≡ ok a → r ≡ err e → ⊥
ok_not_err p q = cc

-- One audit event more than before, of this action and about this record.
abbrev pub Appends : String → String → List AuditEventRecord → List AuditEventRecord → Type 0
Appends action ref before after =
    (e : AuditEventRecord) × (after ≡ before ++ e ∷ [])
    × (e.action ≡ action)
    × (e.target_ref_id ≡ ref)

-- The records that a change of a job or of an artifact has nothing to do with.
abbrev pub SameRest : MemoryWorkflowRepository → MemoryWorkflowRepository → Type 0
SameRest s t =
    (t.metadata_collections ≡ s.metadata_collections)
    × (t.agent_runs ≡ s.agent_runs)
    × (t.metadata_analysis_runs ≡ s.metadata_analysis_runs)
    × (t.metadata_design_runs ≡ s.metadata_design_runs)
    × (t.knowledge_assets ≡ s.knowledge_assets)
    × (t.knowledge_versions ≡ s.knowledge_versions)
    × (t.knowledge_exports ≡ s.knowledge_exports)
    × (t.knowledge_job_links ≡ s.knowledge_job_links)

module _ (w : World) (s : MemoryWorkflowRepository) where
  -- The requests once the request of a job has taken the status `st`, where there is one.
  abbrev pub requests_after : String → JobStatus → Dict WorkRequestRecord
  requests_after request_id st = elim (Dict.get s.requests request_id) [
    | none ↦ s.requests
    | some q ↦
        Dict.put s.requests request_id
          (record q { status = st; updated_at = w.clock (s.clock_reads + 1) })
  ]

  abbrev pub moved : JobStatus → Option WorkflowStepType → JobRecord → JobRecord
  moved st step job = record job {
    status = st;
    current_step = step;
    updated_at = w.clock s.clock_reads;
    transitions = job.transitions ++ (st, step) ∷ [];
  }

  abbrev pub failed_with : Text → Text → JobRecord → JobRecord
  failed_with c m job = record job {
    status = JobStatus.failed;
    error_code = some c;
    error_message = some m;
    updated_at = w.clock s.clock_reads;
    transitions = job.transitions ++ (JobStatus.failed, job.current_step) ∷ [];
  }

  -- The job is stored as `changed`, its request follows, one audit event of the action is added at
  -- the end of the trail, and every other record is as it was.
  abbrev pub IsMoveTo : String → String → JobRecord → MemoryWorkflowRepository → Type 0
  IsMoveTo action j changed t =
      (t.jobs ≡ Dict.put s.jobs j changed)
      × (t.requests ≡ requests_after changed.request_id changed.status)
      × Appends action j s.audit_events t.audit_events
      × (t.artifacts ≡ s.artifacts)
      × (t.validation_reports ≡ s.validation_reports)
      × SameRest s t

  apply_transition_lem :
      (j : String) (st : JobStatus) (step : Option WorkflowStepType) (job : JobRecord)
      → let (r, t) = apply_transition w j st step job s in
        (r ≡ ok (moved st step job)) × IsMoveTo "JOB_TRANSITIONED" j (moved st step job) t
  unfolding apply_transition update_request_status set_request_status record_audit_event prefixed_id
      utc_now ◌>>=◌
  apply_transition_lem j st step job =
      let returns =
        (payload_returns w.repr "JOB_TRANSITIONED" "JOB" j (str (codes (job_value st)))
          (step_or_null step) api_system job.correlation_id).1 in
      elim (Option-cases (Dict.get s.requests job.request_id)) [
        | inl e ↦
            rw (e, set_request_status)
              (rw returns (
                refl,
                (
                  refl,
                  rw (e, requests_after) refl,
                  (_, refl, refl, refl),
                  refl,
                  refl,
                  (refl, refl, refl, refl, refl, refl, refl, refl),
                ),
              ))
        | inr (q, e) ↦
            rw (e, set_request_status)
              (rw returns (
                refl,
                (
                  refl,
                  rw (e, requests_after) refl,
                  (_, refl, refl, refl),
                  refl,
                  refl,
                  (refl, refl, refl, refl, refl, refl, refl, refl),
                ),
              ))
      ]

  apply_failure_lem :
      (j : String) (c m : Text) (job : JobRecord)
      → let (r, t) = apply_failure w j c m job s in
        (r ≡ ok (failed_with c m job)) × IsMoveTo "JOB_FAILED" j (failed_with c m job) t
  unfolding apply_failure update_request_status set_request_status record_audit_event prefixed_id
      utc_now ◌>>=◌
  apply_failure_lem j c m job =
      let returns =
        (failure_returns w.repr "JOB_FAILED" "JOB" j (str c) (str m) api_system
          job.correlation_id).1 in
      elim (Option-cases (Dict.get s.requests job.request_id)) [
        | inl e ↦
            rw (e, set_request_status)
              (rw returns (
                refl,
                (
                  refl,
                  rw (e, requests_after) refl,
                  (_, refl, refl, refl),
                  refl,
                  refl,
                  (refl, refl, refl, refl, refl, refl, refl, refl),
                ),
              ))
        | inr (q, e) ↦
            rw (e, set_request_status)
              (rw returns (
                refl,
                (
                  refl,
                  rw (e, requests_after) refl,
                  (_, refl, refl, refl),
                  refl,
                  refl,
                  (refl, refl, refl, refl, refl, refl, refl, refl),
                ),
              ))
      ]

  -- A change of status that the lifecycle permits is made: the job is stored with its new status and
  -- one transition more, its request takes the status too where the repository has it, the audit trail
  -- gets one `JOB_TRANSITIONED` event about the job at its end, and every other record of the
  -- repository is as it was. Its result is the new record.
  pub transition_job_accepted :
      (j : String) (st : JobStatus) (step : Option WorkflowStepType) (job : JobRecord)
      → Dict.get s.jobs j ≡ some job
      → ensure_job_transition job.status st ≡ ok tt
      → let (r, t) = transition_job w j st step s in
        (r ≡ ok (moved st step job)) × IsMoveTo "JOB_TRANSITIONED" j (moved st step job) t
  unfolding transition_job ◌>>=◌
  transition_job_accepted j st step job found accepted =
      rw (found, or_raise) (rw (accepted, checked) (apply_transition_lem j st step job))

  -- Whenever `transition_job` raises, it has changed nothing: no record, no audit event, and no id
  -- or time was drawn for it.
  pub transition_job_refused :
      (j : String) (st : JobStatus) (step : Option WorkflowStepType) (e : RepositoryError)
      → (transition_job w j st step s).0 ≡ err e
      → (transition_job w j st step s).1 ≡ s
  transition_job_refused j st step e raised = elim (Option-cases (Dict.get s.jobs j)) [
    | inl missing ↦ unfold transition_job ◌>>=◌ in rw (missing, or_raise) refl
    | inr (job, found) ↦ elim (Result-cases (ensure_job_transition job.status st)) [
      | inl (_, accepted) ↦
          absurd (ok_not_err (transition_job_accepted j st step job found accepted).0 raised)
      | inr (why, refused) ↦
          unfold transition_job ◌>>=◌ in rw (found, or_raise) (rw (refused, checked) refl)
    ]
  ]

  -- Failing a job that may fail stores it as `FAILED` with the code and the message, and one
  -- transition more at the step where it stood; its request fails too where the repository has it, the
  -- audit trail gets one `JOB_FAILED` event about the job at its end, and every other record of the
  -- repository is as it was. Its result is the new record.
  pub fail_job_accepted :
      (j : String) (c m : Text) (job : JobRecord)
      → Dict.get s.jobs j ≡ some job
      → job.status ≢ JobStatus.published
      → let (r, t) = fail_job w j c m s in
        (r ≡ ok (failed_with c m job)) × IsMoveTo "JOB_FAILED" j (failed_with c m job) t
  unfolding fail_job ◌>>=◌
  fail_job_accepted j c m job found live =
      rw (found, or_raise)
        (rw
          (
            (ensure_job_transition_iff job.status JobStatus.failed).1
                (Permitted.fail job.status live),
            checked,
          )
          (apply_failure_lem j c m job))
