-- ===== src/Repository/Trail.antt =====
-- Every stored job has a history: its transitions lead by permitted changes from `SUBMITTED` to the
-- status that it has.
use mssql_ai_project.Base.{ℕ, String, ◌≡◌, refl, sym, subst, Option, some, List, [], ◌∷◌, ◌++◌}
use mssql_ai_project.Base.Dict.{Each}
use mssql_ai_project.Base.Text.{Text}
use mssql_ai_project.Lifecycle.{JobStatus, submitted, WorkflowStepType}
use mssql_ai_project.Lifecycle.Order.{Permitted, IsRunning, Permitted-IsRunning}
use mssql_ai_project.Repository.Records.{WorkRequestRecord, JobRecord}
use mssql_ai_project.Repository.State.{MemoryWorkflowRepository}
use mssql_ai_project.Repository.Jobs.{new_job}

-- From `a` the transitions lead to `b`.
abbrev pub Follows : JobStatus → List (JobStatus × Option WorkflowStepType) → JobStatus → Type 0
Follows a [] b = a ≡ b
Follows a ((s, step) ∷ rest) b = Permitted a s × Follows s rest b

Follows-append :
    (a : JobStatus) (trail : List (JobStatus × Option WorkflowStepType)) (b s : JobStatus)
    (step : Option WorkflowStepType)
    → Follows a trail b
    → Permitted b s
    → Follows a (trail ++ (s, step) ∷ []) s
Follows-append a [] b s step h p = (subst (λ x. Permitted x s) (sym h) p, refl)
Follows-append a ((t, u) ∷ rest) b s step h p = (h.0, Follows-append t rest b s step h.1 p)

pub Follows-IsRunning :
    (a : JobStatus) (trail : List (JobStatus × Option WorkflowStepType)) (b : JobStatus)
    → Follows a trail b
    → IsRunning a
    → IsRunning b
Follows-IsRunning a [] b h r = subst IsRunning h r
Follows-IsRunning a ((t, u) ∷ rest) b h r =
    Follows-IsRunning t rest b h.1 (Permitted-IsRunning h.0 r)

-- A job is stored under its own id, with its history.
pub record IsTracked (key : String) (job : JobRecord) : Type 0 where
  pub own_id : job.job_id ≡ key
  pub history : Follows submitted job.transitions job.status

abbrev pub HasHistories : MemoryWorkflowRepository → Type 0
HasHistories s = Each IsTracked s.jobs

pub new_job-IsTracked :
    (j r : String) (c : Option Text) (q : Option WorkRequestRecord) (t u : ℕ)
    → IsTracked j (new_job j r c q t u)
unfolding new_job
new_job-IsTracked j r c q t u = record { own_id = refl; history = refl }

module _ (j : String) (job : JobRecord) (t : IsTracked j job) where
  pub moved-IsTracked :
      (st : JobStatus) (step : Option WorkflowStepType) (u : ℕ)
      → Permitted job.status st
      → IsTracked j (record job {
        status = st;
        current_step = step;
        updated_at = u;
        transitions = job.transitions ++ (st, step) ∷ [];
      })
  moved-IsTracked st step u p = record {
    own_id = t.own_id;
    history = Follows-append submitted job.transitions job.status st step t.history p;
  }

  pub failed-IsTracked :
      (c m : Text) (u : ℕ)
      → Permitted job.status JobStatus.failed
      → IsTracked j (record job {
        status = JobStatus.failed;
        error_code = some c;
        error_message = some m;
        updated_at = u;
        transitions = job.transitions ++ (JobStatus.failed, job.current_step) ∷ [];
      })
  failed-IsTracked c m u p = record {
    own_id = t.own_id;
    history =
        Follows-append submitted job.transitions job.status JobStatus.failed job.current_step
          t.history p;
  }

  pub touched-IsTracked : (u : ℕ) → IsTracked j (record job { updated_at = u })
  touched-IsTracked u = record { own_id = t.own_id; history = t.history }
