-- ===== src/Repository/History/Jobs.antt =====
-- Every method that moves or touches a job keeps the histories of the jobs.
use mssql_ai_project.Base.{ℕ, String, Option, none, some, inl, inr, Bool-cases, Option-cases}
use mssql_ai_project.Base.Dict
use mssql_ai_project.Base.Dict.{Dict, Each, Each-get, Each-put}
use mssql_ai_project.Base.Text.{Text}
use mssql_ai_project.Base.Json.{Fields}
use mssql_ai_project.Base.Result.{Result-cases}
use mssql_ai_project.Base.Exec.{or_raise, modify, ◌>>=◌}
use mssql_ai_project.Base.Exec.Keeps.{
  IsKept, Invariant, Invariant-IsKept, Keeps, Keeps-modify, keeps_rules,
}
use mssql_ai_project.Lifecycle.{JobStatus, WorkflowStepType, ensure_job_transition}
use mssql_ai_project.Lifecycle.Order.{Permitted, ensure_job_transition_iff}
use mssql_ai_project.Repository.Records.{WorkRequestRecord, JobRecord}
use mssql_ai_project.Repository.State.{
  RepositoryError, World, MemoryWorkflowRepository, Method, prefixed_id, utc_now,
}
use mssql_ai_project.Repository.Log.{record_audit_event}
use mssql_ai_project.Repository.Requests.{update_request_status, set_request_status}
use mssql_ai_project.Repository.Jobs.{
  checked, create_job, apply_transition, transition_job, claim_submitted_job, apply_failure,
  fail_job, touch, if_stale, is_stale, claim_stale_active_job,
}
use mssql_ai_project.Repository.Trail.{
  IsTracked, HasHistories, new_job-IsTracked, moved-IsTracked, failed-IsTracked, touched-IsTracked,
}

abbrev pub kept : IsKept (Invariant HasHistories)
kept = Invariant-IsKept HasHistories

abbrev pub KeepsHistories : {A : Type 0} → Method A → Type 0
KeepsHistories m = Keeps (Invariant HasHistories) m

module _ (w : World) where
  pub prefixed_id-KeepsHistories : (p : String) → KeepsHistories (prefixed_id w p)
  unfolding prefixed_id
  prefixed_id-KeepsHistories p = record { at = λ s h. h }

  pub utc_now-KeepsHistories : KeepsHistories (utc_now w)
  unfolding utc_now
  utc_now-KeepsHistories = record { at = λ s h. h }

  pub put_job-KeepsHistories :
      (key : String) (job : JobRecord)
      → IsTracked key job
      → KeepsHistories (
          modify {E = RepositoryError}
            (λ (s : MemoryWorkflowRepository). record s { jobs = Dict.put s.jobs key job }))
  put_job-KeepsHistories key job t = Keeps-modify _ (λ s h. Each-put IsTracked s.jobs key job h t)

  pub record_audit_event-KeepsHistories :
      (action kind ref : String) (payload : Fields) (actor : Text) (c : Option Text)
      → KeepsHistories (record_audit_event w action kind ref payload actor c)
  unfolding record_audit_event
  record_audit_event-KeepsHistories action kind ref payload actor c =
      search (kept, keeps_rules, Keeps-modify, prefixed_id-KeepsHistories, utc_now-KeepsHistories)
        depth 12

  pub set_request_status-KeepsHistories :
      (r : String) (st : JobStatus) (q : Option WorkRequestRecord)
      → KeepsHistories (set_request_status w r st q)
  unfolding set_request_status
  set_request_status-KeepsHistories r st none = search (kept, keeps_rules)
  set_request_status-KeepsHistories r st (some q) =
      search (kept, keeps_rules, Keeps-modify, utc_now-KeepsHistories)

  pub update_request_status-KeepsHistories :
      (r : String) (st : JobStatus) → KeepsHistories (update_request_status w r st)
  unfolding update_request_status
  update_request_status-KeepsHistories r st =
      search (kept, keeps_rules, set_request_status-KeepsHistories)

  pub ruleset history_rules = (
    kept, keeps_rules, Keeps-modify, prefixed_id-KeepsHistories, utc_now-KeepsHistories,
    record_audit_event-KeepsHistories, update_request_status-KeepsHistories, put_job-KeepsHistories,
  )

  pub create_job-KeepsHistories : (r : String) (c : Option Text) → KeepsHistories (create_job w r c)
  unfolding create_job
  create_job-KeepsHistories r c = search (history_rules, new_job-IsTracked) depth 14

  module _ (j : String) (job : JobRecord) (t : IsTracked j job) where
    pub apply_transition-KeepsHistories :
        (st : JobStatus) (step : Option WorkflowStepType)
        → Permitted job.status st
        → KeepsHistories (apply_transition w j st step job)
    unfolding apply_transition
    apply_transition-KeepsHistories st step p =
        search (history_rules, moved-IsTracked j job t) depth 14

    pub apply_failure-KeepsHistories :
        (c m : Text)
        → Permitted job.status JobStatus.failed
        → KeepsHistories (apply_failure w j c m job)
    unfolding apply_failure
    apply_failure-KeepsHistories c m p = search (history_rules, failed-IsTracked j job t) depth 14

    pub touch-KeepsHistories : KeepsHistories (touch w j (some job))
    unfolding touch
    touch-KeepsHistories = search (history_rules, touched-IsTracked j job t) depth 14

  pub transition_job-KeepsHistories :
      (j : String) (st : JobStatus) (step : Option WorkflowStepType)
      → KeepsHistories (transition_job w j st step)
  unfolding transition_job ◌>>=◌
  transition_job-KeepsHistories j st step = record {
    at = λ s h. elim (Option-cases (Dict.get s.jobs j)) [
      | inl missing ↦ rw (missing, or_raise) h
      | inr (job, found) ↦
          rw (found, or_raise)
            (elim (Result-cases (ensure_job_transition job.status st)) [
              | inl (_, yes_) ↦
                  rw (yes_, checked)
                    ((apply_transition-KeepsHistories j job
                        (Each-get IsTracked s.jobs j job h found) st step
                        ((ensure_job_transition_iff job.status st).0 yes_)).at
                      s h)
              | inr (e, refused) ↦ rw (refused, checked) h
            ])
    ];
  }

  pub fail_job-KeepsHistories : (j : String) (c m : Text) → KeepsHistories (fail_job w j c m)
  unfolding fail_job ◌>>=◌
  fail_job-KeepsHistories j c m = record {
    at = λ s h. elim (Option-cases (Dict.get s.jobs j)) [
      | inl missing ↦ rw (missing, or_raise) h
      | inr (job, found) ↦
          rw (found, or_raise)
            (elim (Result-cases (ensure_job_transition job.status JobStatus.failed)) [
              | inl (_, yes_) ↦
                  rw (yes_, checked)
                    ((apply_failure-KeepsHistories j job (Each-get IsTracked s.jobs j job h found) c
                        m ((ensure_job_transition_iff job.status JobStatus.failed).0 yes_)).at
                      s h)
              | inr (e, refused) ↦ rw (refused, checked) h
            ])
    ];
  }

  pub claim_submitted_job-KeepsHistories : (j : String) → KeepsHistories (claim_submitted_job w j)
  unfolding claim_submitted_job
  claim_submitted_job-KeepsHistories j = search (history_rules, transition_job-KeepsHistories)

  pub claim_stale_active_job-KeepsHistories :
      (j : String) (t : ℕ) → KeepsHistories (claim_stale_active_job w j t)
  unfolding claim_stale_active_job ◌>>=◌ if_stale touch
  claim_stale_active_job-KeepsHistories j t = record {
    at = λ s h. elim (Option-cases (Dict.get s.jobs j)) [
      | inl missing ↦ rw missing h
      | inr (job, found) ↦
          rw (found, if_stale)
            (elim (Bool-cases (is_stale t job)) [
              | inl stale ↦
                  rw stale
                    ((touch-KeepsHistories j job (Each-get IsTracked s.jobs j job h found)).at s h)
              | inr fresh ↦ rw fresh h
            ])
    ];
  }
