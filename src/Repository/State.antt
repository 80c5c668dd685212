-- ===== src/Repository/State.antt =====
-- The state of `MemoryWorkflowRepository`, what its methods raise, and what they take from outside:
-- fresh ids and the clock.
use Prim.Native.String.{◌++◌}
use mssql_ai_project.Base.{ℕ, ◌+◌, String, List}
use mssql_ai_project.Base.Dict.{Dict}
use mssql_ai_project.Base.Text.{Text}
use mssql_ai_project.Base.Json.{Json}
use mssql_ai_project.Base.Result.{ok}
use mssql_ai_project.Base.Exec.{Exec}
use mssql_ai_project.Lifecycle.{StateError}
use mssql_ai_project.Repository.Records.{
  WorkRequestRecord, JobRecord, MetadataCollectionRecord, AgentRunRecord, ArtifactRecord,
  ValidationReportRecord, AuditEventRecord, MetadataAnalysisRunRecord, MetadataDesignRunRecord,
  KnowledgeAssetRecord, KnowledgeAssetVersionRecord, KnowledgeExportRecord,
}

pub data RepositoryError : Type 0 where
  -- `KeyError`: a subscript with a missing key
  key_error : String → RepositoryError
  -- `WorkflowStateError`
  state_error : StateError → RepositoryError
  -- `ValueError("Unsupported validation status: ...")`
  unsupported_validation_status : String → RepositoryError
  -- `TypeError`: `dict(...)` of a value that is neither a mapping nor a sequence, of a list with an
  -- item that is no sequence, or with a key that cannot be hashed
  not_a_mapping : Json → RepositoryError
  -- `ValueError`: `dict(...)` of a text, or of a list with an item that has not two elements
  not_a_pair : Json → RepositoryError
  -- `TypeError`: a loop over a value that is not iterable
  not_iterable : Json → RepositoryError

-- The n-th draw of `uuid4().hex[:10]`, the n-th reading of the clock, and `str` of a list or dict.
pub record World : Type 0 where
  pub uuid_hex : ℕ → String
  pub clock : ℕ → ℕ
  pub repr : Json → Text

pub record MemoryWorkflowRepository : Type 0 where
  pub requests : Dict WorkRequestRecord
  pub jobs : Dict JobRecord
  pub metadata_collections : Dict MetadataCollectionRecord
  pub agent_runs : Dict AgentRunRecord
  pub artifacts : Dict ArtifactRecord
  pub validation_reports : Dict ValidationReportRecord
  pub knowledge_assets : Dict KnowledgeAssetRecord
  pub knowledge_versions : Dict KnowledgeAssetVersionRecord
  pub knowledge_exports : Dict KnowledgeExportRecord
  -- a set: no link stands twice
  pub knowledge_job_links : List (String × String × String)
  pub metadata_analysis_runs : Dict MetadataAnalysisRunRecord
  pub metadata_design_runs : Dict MetadataDesignRunRecord
  pub audit_events : List AuditEventRecord
  -- how many ids have been drawn, and how often the clock has been read
  pub ids_drawn : ℕ
  pub clock_reads : ℕ

abbrev pub Method : Type 0 → Type 0
Method A = Exec RepositoryError MemoryWorkflowRepository A

module _ (w : World) where
  -- `f"{prefix}_{uuid4().hex[:10]}"`
  unfoldable pub prefixed_id : String → Method String
  prefixed_id prefix s =
      (ok ((prefix ++ "_") ++ w.uuid_hex s.ids_drawn), record s { ids_drawn = s.ids_drawn + 1 })

  unfoldable pub utc_now : Method ℕ
  utc_now s = (ok (w.clock s.clock_reads), record s { clock_reads = s.clock_reads + 1 })
