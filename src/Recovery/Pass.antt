-- ===== src/Recovery/Pass.antt =====
-- A whole pass of apps/api/api_app/recovery_worker.py, with any services that use the repository by
-- its methods.
use mssql_ai_project.Base.{Option, none, some}
use mssql_ai_project.Base.Json.{Fields}
use mssql_ai_project.Base.Result.{Result}
use mssql_ai_project.Base.Exec.Keeps.{Keeps}
use mssql_ai_project.Repository.{World}
use mssql_ai_project.AnalysisRuns.{ServiceError, Attempt}
use mssql_ai_project.DesignRuns.{MetadataDesignRunRequest}
use mssql_ai_project.Recovery.Keeping.Instances.{Continues}
use mssql_ai_project.Recovery.Services.{Program, run}

abbrev pub Designer : Type 0
Designer = MetadataDesignRunRequest → Program ServiceError Fields

module _ (w : World) where
  -- the design service, where there is one
  unfoldable pub run_design : Option Designer → Option (MetadataDesignRunRequest → Attempt Fields)
  run_design none = none
  run_design (some design) = some (λ q. run w (design q))

  abbrev GoesOn : Option (MetadataDesignRunRequest → Attempt Fields) → Type 0
  GoesOn none = Unit
  GoesOn (some f) = (q : MetadataDesignRunRequest) → Keeps Continues (f q)
