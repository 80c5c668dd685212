-- ===== src/Recovery/Keeping/Instances.antt =====
-- The audit trail, the stored records and the histories of the jobs, over a pass.
use mssql_ai_project.Base.Exec.Keeps.{IsKept, Keeps}
use mssql_ai_project.Repository.{World, MemoryWorkflowRepository, Method}
use mssql_ai_project.Repository.Trail.{HasHistories}
use mssql_ai_project.Repository.Growth.{Grows, Grows-refl, Grows-trans, KeepsAll, utc_now-KeepsAll}
use mssql_ai_project.Repository.Growth.Methods.{
  claim_stale_active_job-KeepsAll, claim_metadata_analysis_run-KeepsAll,
  mark_metadata_analysis_run_succeeded-KeepsAll, mark_metadata_analysis_run_failed-KeepsAll,
  claim_metadata_design_run-KeepsAll, mark_metadata_design_run_succeeded-KeepsAll,
  mark_metadata_design_run_failed-KeepsAll,
}
use mssql_ai_project.Repository.History.Jobs.{
  KeepsHistories, utc_now-KeepsHistories, claim_stale_active_job-KeepsHistories,
}
use mssql_ai_project.Repository.History.Others.{
  claim_metadata_analysis_run-KeepsHistories, mark_succeeded-KeepsHistories,
  mark_failed-KeepsHistories, claim_metadata_design_run-KeepsHistories,
  mark_design_succeeded-KeepsHistories, mark_design_failed-KeepsHistories,
}
use mssql_ai_project.Recovery.Keeping.{MethodsKeep}

-- Nothing is forgotten from the first state to the second, and jobs with proper histories keep them.
abbrev pub Continues : MemoryWorkflowRepository → MemoryWorkflowRepository → Type 0
Continues s t = Grows s t × (HasHistories s → HasHistories t)

pub Continues-kept : IsKept Continues
Continues-kept = record {
  same = λ s. (Grows-refl s, λ h. h);
  join = λ s t u f g. (Grows-trans s t u f.0 g.0, λ h. g.1 (f.1 h));
}

both : {A : Type 0} {m : Method A} → KeepsAll m → KeepsHistories m → Keeps Continues m
both k h = record { at = λ s. (k.at s, h.at s) }

pub methods_continue : (w : World) → MethodsKeep Continues w
methods_continue w = record {
  now = both (utc_now-KeepsAll w) (utc_now-KeepsHistories w);
  claim = λ r l.
      both (claim_metadata_analysis_run-KeepsAll w r l)
        (claim_metadata_analysis_run-KeepsHistories w r l);
  succeed = λ r a.
      both (mark_metadata_analysis_run_succeeded-KeepsAll w r a)
        (mark_succeeded-KeepsHistories w r a);
  fail = λ r e.
      both (mark_metadata_analysis_run_failed-KeepsAll w r e) (mark_failed-KeepsHistories w r e);
  claim_design = λ r l.
      both (claim_metadata_design_run-KeepsAll w r l)
        (claim_metadata_design_run-KeepsHistories w r l);
  succeed_design = λ r a.
      both (mark_metadata_design_run_succeeded-KeepsAll w r a)
        (mark_design_succeeded-KeepsHistories w r a);
  fail_design = λ r e.
      both (mark_metadata_design_run_failed-KeepsAll w r e)
        (mark_design_failed-KeepsHistories w r e);
  claim_job = λ j l.
      both (claim_stale_active_job-KeepsAll w j l) (claim_stale_active_job-KeepsHistories w j l);
}
