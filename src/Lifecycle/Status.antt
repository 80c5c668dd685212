-- ===== src/Lifecycle/Status.antt =====
-- The enumerations of packages/domain/src/ai_agent_domain/models.py that the workflow stores, with
-- their equality and their values.
use mssql_ai_project.Base.{
  ℕ, String, ◌≡◌, refl, ap, ◌↔◌, true, some, List, [], ◌∷◌, Eq, nat_beq, nat_beq_iff, get_elem?,
}

pub data JobStatus : Type 0 where
  submitted collecting_metadata analyzing generating validating : JobStatus
  validation_complete review_pending approved rejected published failed canceled : JobStatus

pub data WorkflowStepType : Type 0 where
  collect_metadata analyze generate validate review publish : WorkflowStepType

pub data ArtifactType : Type 0 where
  sp_analysis_doc dependency_report metadata_query_result schema_enrichment_result : ArtifactType
  mapper_xml mapper_interface service_draft dto_draft validation_report approval_log : ArtifactType

pub data ArtifactStatus : Type 0 where
  draft validated review_pending approved rejected published archived : ArtifactStatus

-- The place of a member of `JobStatus`, by which members are told apart, and its value.
abbrev pub job_place : JobStatus → ℕ
job_place JobStatus.submitted = 0
job_place JobStatus.collecting_metadata = 1
job_place JobStatus.analyzing = 2
job_place JobStatus.generating = 3
job_place JobStatus.validating = 4
job_place JobStatus.validation_complete = 5
job_place JobStatus.review_pending = 6
job_place JobStatus.approved = 7
job_place JobStatus.rejected = 8
job_place JobStatus.published = 9
job_place JobStatus.failed = 10
job_place JobStatus.canceled = 11

abbrev pub job_value : JobStatus → String
job_value JobStatus.submitted = "SUBMITTED"
job_value JobStatus.collecting_metadata = "COLLECTING_METADATA"
job_value JobStatus.analyzing = "ANALYZING"
job_value JobStatus.generating = "GENERATING"
job_value JobStatus.validating = "VALIDATING"
job_value JobStatus.validation_complete = "VALIDATION_COMPLETE"
job_value JobStatus.review_pending = "REVIEW_PENDING"
job_value JobStatus.approved = "APPROVED"
job_value JobStatus.rejected = "REJECTED"
job_value JobStatus.published = "PUBLISHED"
job_value JobStatus.failed = "FAILED"
job_value JobStatus.canceled = "CANCELED"

abbrev job_members : List JobStatus
job_members =
    JobStatus.submitted ∷ JobStatus.collecting_metadata ∷ JobStatus.analyzing ∷ JobStatus.generating
    ∷ JobStatus.validating ∷ JobStatus.validation_complete ∷ JobStatus.review_pending
    ∷ JobStatus.approved ∷ JobStatus.rejected ∷ JobStatus.published ∷ JobStatus.failed
    ∷ JobStatus.canceled ∷ []

job_at_place : (s : JobStatus) → get_elem? job_members (job_place s) ≡ some s
job_at_place JobStatus.submitted = refl
job_at_place JobStatus.collecting_metadata = refl
job_at_place JobStatus.analyzing = refl
job_at_place JobStatus.generating = refl
job_at_place JobStatus.validating = refl
job_at_place JobStatus.validation_complete = refl
job_at_place JobStatus.review_pending = refl
job_at_place JobStatus.approved = refl
job_at_place JobStatus.rejected = refl
job_at_place JobStatus.published = refl
job_at_place JobStatus.failed = refl
job_at_place JobStatus.canceled = refl

pub job_beq_iff : (a b : JobStatus) → (nat_beq (job_place a) (job_place b) ≡ true) ↔ (a ≡ b)
job_beq_iff a b = (
  λ h. cc (
    ap (get_elem? job_members) ((nat_beq_iff (job_place a) (job_place b)).0 h),
    job_at_place a,
    job_at_place b,
  ),
  λ e. (nat_beq_iff (job_place a) (job_place b)).1 (ap job_place e),
)

instance abbrev pub job_eq : Eq JobStatus
job_eq = record { equals = λ a b. nat_beq (job_place a) (job_place b); equals_iff = job_beq_iff }

-- The place of a member of `WorkflowStepType`, by which members are told apart, and its value.
abbrev pub step_place : WorkflowStepType → ℕ
step_place WorkflowStepType.collect_metadata = 0
step_place WorkflowStepType.analyze = 1
step_place WorkflowStepType.generate = 2
step_place WorkflowStepType.validate = 3
step_place WorkflowStepType.review = 4
step_place WorkflowStepType.publish = 5

abbrev pub step_value : WorkflowStepType → String
step_value WorkflowStepType.collect_metadata = "COLLECT_METADATA"
step_value WorkflowStepType.analyze = "ANALYZE"
step_value WorkflowStepType.generate = "GENERATE"
step_value WorkflowStepType.validate = "VALIDATE"
step_value WorkflowStepType.review = "REVIEW"
step_value WorkflowStepType.publish = "PUBLISH"

abbrev step_members : List WorkflowStepType
step_members =
    WorkflowStepType.collect_metadata ∷ WorkflowStepType.analyze ∷ WorkflowStepType.generate
    ∷ WorkflowStepType.validate ∷ WorkflowStepType.review ∷ WorkflowStepType.publish ∷ []

step_at_place : (s : WorkflowStepType) → get_elem? step_members (step_place s) ≡ some s
step_at_place WorkflowStepType.collect_metadata = refl
step_at_place WorkflowStepType.analyze = refl
step_at_place WorkflowStepType.generate = refl
step_at_place WorkflowStepType.validate = refl
step_at_place WorkflowStepType.review = refl
step_at_place WorkflowStepType.publish = refl

pub step_beq_iff :
    (a b : WorkflowStepType) → (nat_beq (step_place a) (step_place b) ≡ true) ↔ (a ≡ b)
step_beq_iff a b = (
  λ h. cc (
    ap (get_elem? step_members) ((nat_beq_iff (step_place a) (step_place b)).0 h),
    step_at_place a,
    step_at_place b,
  ),
  λ e. (nat_beq_iff (step_place a) (step_place b)).1 (ap step_place e),
)

instance abbrev pub step_eq : Eq WorkflowStepType
step_eq = record {
  equals = λ a b. nat_beq (step_place a) (step_place b);
  equals_iff = step_beq_iff;
}

-- The place of a member of `ArtifactType`, by which members are told apart, and its value.
abbrev pub artifact_type_place : ArtifactType → ℕ
artifact_type_place ArtifactType.sp_analysis_doc = 0
artifact_type_place ArtifactType.dependency_report = 1
artifact_type_place ArtifactType.metadata_query_result = 2
artifact_type_place ArtifactType.schema_enrichment_result = 3
artifact_type_place ArtifactType.mapper_xml = 4
artifact_type_place ArtifactType.mapper_interface = 5
artifact_type_place ArtifactType.service_draft = 6
artifact_type_place ArtifactType.dto_draft = 7
artifact_type_place ArtifactType.validation_report = 8
artifact_type_place ArtifactType.approval_log = 9

abbrev pub artifact_type_value : ArtifactType → String
artifact_type_value ArtifactType.sp_analysis_doc = "SP_ANALYSIS_DOC"
artifact_type_value ArtifactType.dependency_report = "DEPENDENCY_REPORT"
artifact_type_value ArtifactType.metadata_query_result = "METADATA_QUERY_RESULT"
artifact_type_value ArtifactType.schema_enrichment_result = "SCHEMA_ENRICHMENT_RESULT"
artifact_type_value ArtifactType.mapper_xml = "MAPPER_XML"
artifact_type_value ArtifactType.mapper_interface = "MAPPER_INTERFACE"
artifact_type_value ArtifactType.service_draft = "SERVICE_DRAFT"
artifact_type_value ArtifactType.dto_draft = "DTO_DRAFT"
artifact_type_value ArtifactType.validation_report = "VALIDATION_REPORT"
artifact_type_value ArtifactType.approval_log = "APPROVAL_LOG"

abbrev artifact_type_members : List ArtifactType
artifact_type_members =
    ArtifactType.sp_analysis_doc ∷ ArtifactType.dependency_report
    ∷ ArtifactType.metadata_query_result ∷ ArtifactType.schema_enrichment_result
    ∷ ArtifactType.mapper_xml ∷ ArtifactType.mapper_interface ∷ ArtifactType.service_draft
    ∷ ArtifactType.dto_draft ∷ ArtifactType.validation_report ∷ ArtifactType.approval_log ∷ []

artifact_type_at_place :
    (s : ArtifactType) → get_elem? artifact_type_members (artifact_type_place s) ≡ some s
artifact_type_at_place ArtifactType.sp_analysis_doc = refl
artifact_type_at_place ArtifactType.dependency_report = refl
artifact_type_at_place ArtifactType.metadata_query_result = refl
artifact_type_at_place ArtifactType.schema_enrichment_result = refl
artifact_type_at_place ArtifactType.mapper_xml = refl
artifact_type_at_place ArtifactType.mapper_interface = refl
artifact_type_at_place ArtifactType.service_draft = refl
artifact_type_at_place ArtifactType.dto_draft = refl
artifact_type_at_place ArtifactType.validation_report = refl
artifact_type_at_place ArtifactType.approval_log = refl

pub artifact_type_beq_iff :
    (a b : ArtifactType)
    → (nat_beq (artifact_type_place a) (artifact_type_place b) ≡ true) ↔ (a ≡ b)
artifact_type_beq_iff a b = (
  λ h. cc (
    ap (get_elem? artifact_type_members)
        ((nat_beq_iff (artifact_type_place a) (artifact_type_place b)).0 h),
    artifact_type_at_place a,
    artifact_type_at_place b,
  ),
  λ e. (nat_beq_iff (artifact_type_place a) (artifact_type_place b)).1 (ap artifact_type_place e),
)

instance abbrev pub artifact_type_eq : Eq ArtifactType
artifact_type_eq = record {
  equals = λ a b. nat_beq (artifact_type_place a) (artifact_type_place b);
  equals_iff = artifact_type_beq_iff;
}

-- The place of a member of `ArtifactStatus`, by which members are told apart, and its value.
abbrev pub artifact_status_place : ArtifactStatus → ℕ
artifact_status_place ArtifactStatus.draft = 0
artifact_status_place ArtifactStatus.validated = 1
artifact_status_place ArtifactStatus.review_pending = 2
artifact_status_place ArtifactStatus.approved = 3
artifact_status_place ArtifactStatus.rejected = 4
artifact_status_place ArtifactStatus.published = 5
artifact_status_place ArtifactStatus.archived = 6

abbrev pub artifact_status_value : ArtifactStatus → String
artifact_status_value ArtifactStatus.draft = "DRAFT"
artifact_status_value ArtifactStatus.validated = "VALIDATED"
artifact_status_value ArtifactStatus.review_pending = "REVIEW_PENDING"
artifact_status_value ArtifactStatus.approved = "APPROVED"
artifact_status_value ArtifactStatus.rejected = "REJECTED"
artifact_status_value ArtifactStatus.published = "PUBLISHED"
artifact_status_value ArtifactStatus.archived = "ARCHIVED"

abbrev artifact_status_members : List ArtifactStatus
artifact_status_members =
    ArtifactStatus.draft ∷ ArtifactStatus.validated ∷ ArtifactStatus.review_pending
    ∷ ArtifactStatus.approved ∷ ArtifactStatus.rejected ∷ ArtifactStatus.published
    ∷ ArtifactStatus.archived ∷ []

artifact_status_at_place :
    (s : ArtifactStatus) → get_elem? artifact_status_members (artifact_status_place s) ≡ some s
artifact_status_at_place ArtifactStatus.draft = refl
artifact_status_at_place ArtifactStatus.validated = refl
artifact_status_at_place ArtifactStatus.review_pending = refl
artifact_status_at_place ArtifactStatus.approved = refl
artifact_status_at_place ArtifactStatus.rejected = refl
artifact_status_at_place ArtifactStatus.published = refl
artifact_status_at_place ArtifactStatus.archived = refl

pub artifact_status_beq_iff :
    (a b : ArtifactStatus)
    → (nat_beq (artifact_status_place a) (artifact_status_place b) ≡ true) ↔ (a ≡ b)
artifact_status_beq_iff a b = (
  λ h. cc (
    ap (get_elem? artifact_status_members)
        ((nat_beq_iff (artifact_status_place a) (artifact_status_place b)).0 h),
    artifact_status_at_place a,
    artifact_status_at_place b,
  ),
  λ e.
      (nat_beq_iff (artifact_status_place a) (artifact_status_place b)).1
        (ap artifact_status_place e),
)

instance abbrev pub artifact_status_eq : Eq ArtifactStatus
artifact_status_eq = record {
  equals = λ a b. nat_beq (artifact_status_place a) (artifact_status_place b);
  equals_iff = artifact_status_beq_iff;
}
