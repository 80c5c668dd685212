-- ===== src/Recovery/Services.antt =====
-- What the analysis, the design and `resume_sp_workflow` may be for the repository: any program that
-- reads it and calls its methods, one after the other, before it returns or raises.
use mssql_ai_project.Base.Result.{Result}
use mssql_ai_project.Base.Exec.{Exec}
use mssql_ai_project.Base.Exec.Keeps.{Keeps}
use mssql_ai_project.Repository.{World, MemoryWorkflowRepository}
use mssql_ai_project.Repository.Calls.{Call, perform}
use mssql_ai_project.Repository.Growth.Calls.{perform-Grows}
use mssql_ai_project.Repository.History.{perform-KeepsHistories}
use mssql_ai_project.Recovery.Keeping.Instances.{Continues, Continues-kept}

-- A method called may raise half way; what the program does next it decides from what it reads.
pub data Program (E A : Type 0) : Type 0 where
  finish : Result E A → Program E A
  call : Call → Program E A → Program E A
  read : (MemoryWorkflowRepository → Program E A) → Program E A

module _ (w : World) {E A : Type 0} where
  unfoldable pub run : Program E A → Exec E MemoryWorkflowRepository A
  run (finish r) s = (r, s)
  run (call c p) s = run p (perform w c s)
  run (read f) s = run (f s) s

  runs_on : (p : Program E A) (s : MemoryWorkflowRepository) → Continues s (run p s).1
  unfolding run
  runs_on (finish r) s = Continues-kept.same s
  runs_on (call c p) s =
      Continues-kept.join s (perform w c s) (run p (perform w c s)).1
        (perform-Grows w c s, perform-KeepsHistories w c s) (runs_on p (perform w c s))
  runs_on (read f) s = runs_on (f s) s

  pub run-Keeps : (p : Program E A) → Keeps Continues (run p)
  run-Keeps p = record { at = runs_on p }
