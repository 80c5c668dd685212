-- ===== src/Repository/Artifacts.antt =====
-- Artifacts and their validation reports.
use mssql_ai_project.Base.{
  String, Bool, Option, none, some, List, [], ◌∷◌, ◌==◌, ◌&&◌, ◌||◌, take, if◌then◌else◌, filter,
  string_eq,
}
use mssql_ai_project.Base.Dict
use mssql_ai_project.Base.Dict.{Dict}
use mssql_ai_project.Base.Int.{ℤ}
use mssql_ai_project.Base.Sort.{sort_by, key_ltb}
use mssql_ai_project.Base.Text.{Text, codes}
use mssql_ai_project.Base.Json.{str, Fields, empty, field}
use mssql_ai_project.Base.Result.{Result, ok, err}
use mssql_ai_project.Base.Exec.{pure, lift, gets, or_raise, modify, ◌>>=◌, ◌>>◌}
use mssql_ai_project.Lifecycle.{
  ArtifactType, artifact_type_eq, artifact_type_value, ArtifactStatus, draft, artifact_status_value,
  ensure_artifact_can_change, artifact_status_after_validation, normalize_page_limit,
}
use mssql_ai_project.TargetKey.{or_else}
use mssql_ai_project.Repository.Records.{JobRecord, ArtifactRecord, ValidationReportRecord}
use mssql_ai_project.Repository.State.{
  RepositoryError, key_error, unsupported_validation_status, World, MemoryWorkflowRepository,
  Method, prefixed_id, utc_now,
}
use mssql_ai_project.Repository.Log.{record_audit_event, api_system, str_or_null}
use mssql_ai_project.Repository.Jobs.{checked}

-- `validation_storage_result` of apps/api/api_app/contracts.py
unfoldable pub validation_storage_result : String → Result RepositoryError String
validation_storage_result status =
    if status == "PASSED"
    then ok "PASS"
    else if status == "FAILED" || status == "REVIEW_REQUIRED"
    then ok "FAIL"
    else err (unsupported_validation_status status)

-- `job.correlation_id if job else None`, and the same for the target key
abbrev pub job_correlation : Option JobRecord → Option Text
job_correlation none = none
job_correlation (some job) = job.correlation_id

abbrev pub job_target_key : Option JobRecord → Option Text
job_target_key none = none
job_target_key (some job) = job.target_key

module _ (w : World) where
  unfoldable pub add_artifact :
      String
      → ArtifactType
      → Text
      → Text
      → List Fields
      → Text
      → List Text
      → List Text
      → Bool
      → Option Fields
      → Option Text
      → Method ArtifactRecord
  add_artifact job_id artifact_type title content evidence_refs generator_version registry_refs
        assumptions review_required extra target_key =
      do
        job ← gets (λ s. Dict.get s.jobs job_id)
        artifact_id ← prefixed_id w "art"
        created_at ← utc_now w
        updated_at ← utc_now w
        let artifact : ArtifactRecord = record {
          artifact_id = artifact_id;
          job_id = job_id;
          type = artifact_type;
          status = draft;
          title = title;
          content = content;
          evidence_refs = evidence_refs;
          generator_version = generator_version;
          registry_refs = registry_refs;
          assumptions = assumptions;
          review_required = review_required;
          target_key = or_else target_key (job_target_key job);
          extra = elim extra [ none ↦ empty | some d ↦ d ];
          created_at = created_at;
          updated_at = updated_at;
          latest_validation_report_id = none;
          latest_validation_status = none;
        }
        modify (λ s. record s { artifacts = Dict.put s.artifacts artifact_id artifact })
        record_audit_event w "ARTIFACT_CREATED" "ARTIFACT" artifact_id
            (field (codes "artifactId") (str (codes artifact_id)) (
              field (codes "jobId") (str (codes job_id)) (
                field (codes "artifactType") (str (codes (artifact_type_value artifact_type))) (
                  field (codes "targetKey") (str_or_null artifact.target_key)
                    (field (codes "status") (str (codes (artifact_status_value draft))) empty)))))
            api_system (job_correlation job)
        pure artifact

  -- The writes of `save_validation_report`: the report, then the artifact.
  unfoldable pub store_report :
      String → ArtifactRecord → ArtifactStatus → ValidationReportRecord → Method (Unit {0})
  store_report artifact_id artifact next_status report = do
    modify (λ s. record s {
      validation_reports = Dict.put s.validation_reports report.validation_report_id report;
    })
    updated_at ← utc_now w
    let changed : ArtifactRecord = record artifact {
      latest_validation_report_id = some report.validation_report_id;
      latest_validation_status = some report.status;
      updated_at = updated_at;
      status = next_status;
    }
    modify (λ s. record s { artifacts = Dict.put s.artifacts artifact_id changed })

  -- `correlation_id or self.jobs[artifact.job_id].correlation_id`
  unfoldable pub correlation_or_job : Option Text → String → Method (Option Text)
  correlation_or_job none job_id = do
    found ← gets (λ s. Dict.get s.jobs job_id)
    job ← or_raise (key_error job_id) found
    pure job.correlation_id
  correlation_or_job (some []) job_id = do
    found ← gets (λ s. Dict.get s.jobs job_id)
    job ← or_raise (key_error job_id) found
    pure job.correlation_id
  correlation_or_job (some (c ∷ s)) job_id = pure (some (c ∷ s))

  unfoldable pub save_validation_report :
      String
      → String
      → List (Dict Text)
      → List Text
      → List Text
      → Option Text
      → Text
      → Method ValidationReportRecord
  save_validation_report artifact_id status checks missing_evidence manual_review_points
        correlation_id actor =
      do
        found ← gets (λ s. Dict.get s.artifacts artifact_id)
        artifact ← or_raise (key_error artifact_id) found
        let next_status = artifact_status_after_validation status artifact.status
        lift (checked (ensure_artifact_can_change artifact.status next_status))
        report_id ← prefixed_id w "val"
        storage_result ← lift (validation_storage_result status)
        created_at ← utc_now w
        let report : ValidationReportRecord = record {
          validation_report_id = report_id;
          artifact_id = artifact_id;
          status = status;
          checks = checks;
          missing_evidence = missing_evidence;
          manual_review_points = manual_review_points;
          storage_result = storage_result;
          created_at = created_at;
        }
        store_report artifact_id artifact next_status report
        correlation ← correlation_or_job correlation_id artifact.job_id
        record_audit_event w "ARTIFACT_VALIDATED" "ARTIFACT" artifact_id
            (field (codes "status") (str (codes status)) (
              field (codes "storageResult") (str (codes storage_result))
                (field (codes "validationReportId") (str (codes report_id)) empty)))
            actor correlation
        pure report

unfoldable pub get_artifact : String → MemoryWorkflowRepository → Option ArtifactRecord
get_artifact artifact_id s = Dict.get s.artifacts artifact_id

-- oldest first
abbrev pub older_artifact : ArtifactRecord → ArtifactRecord → Bool
older_artifact a b = key_ltb (a.created_at, a.artifact_id) (b.created_at, b.artifact_id)

-- `bounded_artifact_records` of apps/api/api_app/lifecycle.py
unfoldable pub bounded_artifact_records : List ArtifactRecord → Option ℤ → List ArtifactRecord
bounded_artifact_records artifacts limit =
    take (normalize_page_limit limit) (sort_by older_artifact artifacts)

unfoldable pub find_job_artifact_by_type :
    String → ArtifactType → MemoryWorkflowRepository → Option ArtifactRecord
find_job_artifact_by_type job_id artifact_type s =
    elim (sort_by older_artifact
      (filter (λ a. a.job_id == job_id && a.type == artifact_type) (Dict.values s.artifacts))) [
        | [] ↦ none
        | a ∷ rest ↦ some a
      ]

unfoldable pub list_job_artifacts :
    String → Option ℤ → MemoryWorkflowRepository → Option (List ArtifactRecord)
list_job_artifacts job_id limit s =
    if Dict.contains s.jobs job_id
    then some (
        bounded_artifact_records (filter (λ a. a.job_id == job_id) (Dict.values s.artifacts)) limit)
    else none

unfoldable pub report_of :
    Option ArtifactRecord → MemoryWorkflowRepository → Option ValidationReportRecord
report_of none s = none
report_of (some artifact) s = elim artifact.latest_validation_report_id [
  | none ↦ none
  | some report_id ↦ Dict.get s.validation_reports report_id
]

unfoldable pub latest_validation_for :
    String → MemoryWorkflowRepository → Option ValidationReportRecord
latest_validation_for artifact_id s = report_of (Dict.get s.artifacts artifact_id) s

unfoldable pub has_validation_report : String → MemoryWorkflowRepository → Bool
has_validation_report report_id s = Dict.contains s.validation_reports report_id
