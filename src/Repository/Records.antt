-- ===== src/Repository/Records.antt =====
-- The records of apps/api/api_app/repositories.py. A time is a natural number, as a reading of the
-- clock gives it; a payload (`dict[str, Any]`) is the fields of a JSON object.
use mssql_ai_project.Base.{ℕ, String, Bool, Option, List}
use mssql_ai_project.Base.Dict.{Dict}
use mssql_ai_project.Base.Text.{Text}
use mssql_ai_project.Base.Json.{Fields}
use mssql_ai_project.Lifecycle.{JobStatus, WorkflowStepType, ArtifactType, ArtifactStatus}

pub record WorkRequestRecord : Type 0 where
  pub request_id : String
  pub db_profile_id : Text
  pub target : Fields
  pub outputs : List Text
  pub options : Fields
  pub request_hash : Text
  pub correlation_id : Text
  pub idempotency_key : Option Text
  pub target_key : Option Text
  pub status : JobStatus
  pub created_at : ℕ
  pub updated_at : ℕ

pub record JobRecord : Type 0 where
  pub job_id : String
  pub request_id : String
  pub status : JobStatus
  pub current_step : Option WorkflowStepType
  pub correlation_id : Option Text
  pub db_profile_id : Option Text
  pub target : Option Fields
  pub target_key : Option Text
  pub outputs : List Text
  pub created_at : ℕ
  pub updated_at : ℕ
  pub error_code : Option Text
  pub error_message : Option Text
  pub transitions : List (JobStatus × Option WorkflowStepType)

pub record MetadataCollectionRecord : Type 0 where
  pub metadata_id : String
  pub job_id : String
  pub status : Text
  pub payload : Fields
  pub created_at : ℕ

pub record AgentRunRecord : Type 0 where
  pub agent_run_id : String
  pub job_id : String
  pub agent_type : Text
  pub status : Text
  pub target_ref : Text
  pub summary : Text
  pub structured_output : Fields
  pub model_invocation : Fields
  pub target_key : Option Text
  pub created_at : ℕ

pub record ArtifactRecord : Type 0 where
  pub artifact_id : String
  pub job_id : String
  pub type : ArtifactType
  pub status : ArtifactStatus
  pub title : Text
  pub content : Text
  pub evidence_refs : List Fields
  pub generator_version : Text
  pub registry_refs : List Text
  pub assumptions : List Text
  pub review_required : Bool
  pub target_key : Option Text
  pub extra : Fields
  pub created_at : ℕ
  pub updated_at : ℕ
  pub latest_validation_report_id : Option String
  pub latest_validation_status : Option String

pub record ValidationReportRecord : Type 0 where
  pub validation_report_id : String
  pub artifact_id : String
  pub status : String
  pub checks : List (Dict Text)
  pub missing_evidence : List Text
  pub manual_review_points : List Text
  pub storage_result : String
  pub created_at : ℕ

pub record AuditEventRecord : Type 0 where
  pub audit_id : String
  pub action : String
  pub target_type : String
  pub target_ref_id : String
  pub payload : Fields
  pub actor : Text
  pub correlation_id : Option Text
  pub created_at : ℕ

pub record MetadataAnalysisRunRecord : Type 0 where
  pub run_id : String
  pub status : String
  pub request : Fields
  pub submitted_at : ℕ
  pub started_at : Option ℕ
  pub completed_at : Option ℕ
  pub analysis : Option Fields
  pub error : Option Fields

pub record MetadataDesignRunRecord : Type 0 where
  pub run_id : String
  pub conversation_id : String
  pub status : String
  pub request : Fields
  pub submitted_at : ℕ
  pub started_at : Option ℕ
  pub completed_at : Option ℕ
  pub result : Option Fields
  pub error : Option Fields

pub record KnowledgeAssetRecord : Type 0 where
  pub asset_id : String
  pub asset_kind : Text
  pub db_profile_id : Text
  pub target_type : Text
  pub target_schema : Text
  pub target_name : Text
  pub logical_key : Text
  pub target_key : Option Text
  pub current_version_id : Option String
  pub current_version_no : ℕ
  pub content_hash : Option Text
  pub source_job_id : Option String
  pub lifecycle_status : Text
  pub archived_at : Option ℕ
  pub created_at : ℕ
  pub updated_at : ℕ

pub record KnowledgeFactRecord : Type 0 where
  pub fact_id : Text
  pub version_id : String
  pub asset_id : String
  pub fact_type : Text
  pub object_ref : Text
  pub summary : Text
  pub status : Text
  pub evidence_refs : List Text
  pub payload : Fields
  pub content_hash : Text
  pub created_at : ℕ

pub record KnowledgeEdgeRecord : Type 0 where
  pub edge_id : Text
  pub version_id : String
  pub asset_id : String
  pub from_fact_id : Text
  pub to_fact_id : Text
  pub edge_type : Text
  pub evidence_refs : List Text
  pub payload : Fields
  pub created_at : ℕ

pub record KnowledgeAssetVersionRecord : Type 0 where
  pub version_id : String
  pub asset_id : String
  pub version_no : ℕ
  pub content_hash : Text
  pub payload : Fields
  pub facts : List KnowledgeFactRecord
  pub edges : List KnowledgeEdgeRecord
  pub source_job_id : Option String
  pub lifecycle_status : Text
  pub archived_at : Option ℕ
  pub created_at : ℕ

pub record KnowledgeFactSearchRecord : Type 0 where
  pub asset_id : String
  pub asset_kind : Text
  pub version_id : String
  pub lifecycle_status : Text
  pub fact : KnowledgeFactRecord

pub record KnowledgeExportRecord : Type 0 where
  pub export_id : String
  pub format : Text
  pub content_type : Text
  pub content : Text
  pub content_hash : Text
  pub asset_ids : List Text
  pub created_at : ℕ
