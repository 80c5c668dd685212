-- ===== src/Lifecycle/Checks.antt =====
-- apps/api/api_app/lifecycle.py at concrete inputs.
use mssql_ai_project.Base.{◌≡◌, refl, ◌↔◌, ◌≤◌, elem}
use mssql_ai_project.Base.Result.{ok}
use mssql_ai_project.Lifecycle.{
  submitted, collecting_metadata, analyzing, canceled, ensure_job_transition,
  allowed_job_transitions, terminal_job_statuses, job_eq,
}
use mssql_ai_project.Lifecycle.Order.{
  Permitted, Chain, done, accepted, stage, ensure_job_transition_iff, stage-Chain,
}

ensure_job_transition_iff_example :
    (ensure_job_transition submitted canceled ≡ ok tt) ↔ Permitted submitted canceled
ensure_job_transition_iff_example = ensure_job_transition_iff submitted canceled

two_changes : Chain submitted analyzing
unfolding ensure_job_transition allowed_job_transitions terminal_job_statuses elem
two_changes = accepted (accepted {u = collecting_metadata} done refl) refl

stage-Chain_example : stage submitted ≤ stage analyzing
stage-Chain_example = stage-Chain two_changes
