-- ===== src/Repository/Validation.antt =====
-- Validation reports: what a validation does to its artifact, and where its writes stop half way.
use mssql_ai_project.Base.{
  ℕ, ◌+◌, String, ◌≡◌, refl, ◌≢◌, false, none, some, List, ◌∷◌, arith, ◌==◌, string_eq,
}
use mssql_ai_project.Base.Dict
use mssql_ai_project.Base.Dict.{Dict, Each, Each-get, Each-put, get-put_self}
use mssql_ai_project.Base.Text.{Text, codes}
use mssql_ai_project.Base.Json
use mssql_ai_project.Base.Json.{Json, str, Fields, empty, field}
use mssql_ai_project.Base.Result.{ok, err}
use mssql_ai_project.Base.Exec.{or_raise, ◌>>=◌}
use mssql_ai_project.Lifecycle.{
  ArtifactStatus, validated, artifact_status_eq, artifact_status_beq_iff,
  ensure_artifact_can_change, artifact_status_after_validation,
}
use mssql_ai_project.Repository.Records.{ArtifactRecord, ValidationReportRecord}
use mssql_ai_project.Repository.State.{
  key_error, World, MemoryWorkflowRepository, prefixed_id, utc_now,
}
use mssql_ai_project.Repository.Audit.{
  standardized_audit_payload, with_correlation, mapping_of, with_defaults, set_default,
}
use mssql_ai_project.Repository.Log.{record_audit_event}
use mssql_ai_project.Repository.Jobs.{checked}
use mssql_ai_project.Repository.Transitions.{Appends, SameRest}
use mssql_ai_project.Repository.Artifacts.{
  validation_storage_result, store_report, correlation_or_job, save_validation_report,
}

-- A validation never takes an approval or a rejection back, validates exactly on `PASSED`, and else
-- leaves the status alone.
pub artifact_status_after_validation_lem :
    (status : String) (current : ArtifactStatus)
    → (current ≡ ArtifactStatus.approved
        → artifact_status_after_validation status current ≡ ArtifactStatus.approved)
      × (current ≡ ArtifactStatus.rejected
          → artifact_status_after_validation status current ≡ ArtifactStatus.rejected)
      × ((status == "PASSED") ≡ false → artifact_status_after_validation status current ≡ current)
      × (current ≢ ArtifactStatus.approved
          → current ≢ ArtifactStatus.rejected
          → status ≡ "PASSED"
          → artifact_status_after_validation status current ≡ validated)
unfolding artifact_status_after_validation
artifact_status_after_validation_lem status current = (
  λ e. rw e refl,
  λ e. rw e refl,
  λ e. ground arith,
  λ a r e. rw e (
      ground (
        arith,
        artifact_status_beq_iff current ArtifactStatus.approved,
        artifact_status_beq_iff current ArtifactStatus.rejected,
      )),
)

validation_allowed :
    (status : String) (current : ArtifactStatus)
    → current ≢ ArtifactStatus.published
    → ensure_artifact_can_change current (artifact_status_after_validation status current) ≡ ok tt
unfolding ensure_artifact_can_change artifact_status_after_validation
validation_allowed status current live =
    ground (arith, artifact_status_beq_iff current ArtifactStatus.published)

report_payload_returns :
    (repr : Json → Text) (action kind ref : String) (v u r : Json) (actor : Text) (c : ℕ)
    (cs : Text)
    → (p : Fields) × (standardized_audit_payload repr action kind ref
          (field
            (codes "status")
            v
            (field (codes "storageResult") u (field (codes "validationReportId") r empty)))
          actor
          (some (c ∷ cs))
        ≡ ok p)
unfolding standardized_audit_payload with_correlation mapping_of with_defaults set_default Json.get
    Json.put
report_payload_returns repr action kind ref v u r actor c cs = (_, refl)

module _ (w : World) (s : MemoryWorkflowRepository) where
  abbrev pub report_of :
      String → String → List (Dict Text) → List Text → List Text → String → ValidationReportRecord
  report_of a status checks missing points result = record {
    validation_report_id = Prim.Native.String.◌++◌ "val_" (w.uuid_hex s.ids_drawn);
    artifact_id = a;
    status = status;
    checks = checks;
    missing_evidence = missing;
    manual_review_points = points;
    storage_result = result;
    created_at = w.clock s.clock_reads;
  }

  -- `save_validation_report` of an artifact whose job is unknown, with no correlation id given: the
  -- report is stored and the artifact has its new status and names the report, yet the call raises
  -- `KeyError` for the job, and no audit event is written.
  pub orphan_report_stored :
      (a status : String) (checks : List (Dict Text)) (missing points : List Text) (actor : Text)
      (artifact : ArtifactRecord) (result : String)
      → Dict.get s.artifacts a ≡ some artifact
      → artifact.status ≢ ArtifactStatus.published
      → validation_storage_result status ≡ ok result
      → Dict.get s.jobs artifact.job_id ≡ none
      → let (r, t) = save_validation_report w a status checks missing points none actor s in
        let report = report_of a status checks missing points result in
        (r ≡ err (key_error artifact.job_id))
        × (t.validation_reports ≡ Dict.put s.validation_reports report.validation_report_id report)
        × (t.artifacts
            ≡ Dict.put s.artifacts a (record artifact {
              latest_validation_report_id = some report.validation_report_id;
              latest_validation_status = some status;
              updated_at = w.clock (s.clock_reads + 1);
              status = artifact_status_after_validation status artifact.status;
            }))
        × (t.audit_events ≡ s.audit_events)
  unfolding save_validation_report store_report correlation_or_job prefixed_id utc_now ◌>>=◌
  orphan_report_stored a status checks missing points actor artifact result found live stored
        orphan =
      rw (found, or_raise)
        (rw (validation_allowed status artifact.status live, checked)
          (rw stored (rw (orphan, or_raise) (refl, refl, refl, refl))))

  -- With the correlation id of its request, a validation with a known result of an artifact that is
  -- there and not published returns the report and stores it; the artifact names it and has the
  -- status of `artifact_status_after_validation`; the audit trail gets one `ARTIFACT_VALIDATED` event
  -- about the artifact at its end; every other record of the repository, the other reports and
  -- artifacts included, is as it was.
  pub save_validation_report_accepted :
      (a status : String) (checks : List (Dict Text)) (missing points : List Text) (c : ℕ)
      (cs : Text) (actor : Text) (artifact : ArtifactRecord) (result : String)
      → Dict.get s.artifacts a ≡ some artifact
      → artifact.status ≢ ArtifactStatus.published
      → validation_storage_result status ≡ ok result
      → let (r, t) =
          save_validation_report w a status checks missing points (some (c ∷ cs)) actor s in
        let report = report_of a status checks missing points result in
        (r ≡ ok report)
        × (t.validation_reports ≡ Dict.put s.validation_reports report.validation_report_id report)
        × (t.artifacts
            ≡ Dict.put s.artifacts a (record artifact {
              latest_validation_report_id = some report.validation_report_id;
              latest_validation_status = some status;
              updated_at = w.clock (s.clock_reads + 1);
              status = artifact_status_after_validation status artifact.status;
            }))
        × Appends "ARTIFACT_VALIDATED" a s.audit_events t.audit_events
        × (t.jobs ≡ s.jobs)
        × (t.requests ≡ s.requests)
        × SameRest s t
  unfolding save_validation_report store_report correlation_or_job prefixed_id utc_now
      record_audit_event ◌>>=◌
  save_validation_report_accepted a status checks missing points c cs actor artifact result found
        live stored =
      let returns =
        (report_payload_returns w.repr "ARTIFACT_VALIDATED" "ARTIFACT" a (str (codes status))
          (str (codes result))
          (str (codes (Prim.Native.String.◌++◌ "val_" (w.uuid_hex s.ids_drawn)))) actor c cs).1 in
      rw (found, or_raise)
        (rw (validation_allowed status artifact.status live, checked)
          (rw stored (
            rw returns (
              refl,
              refl,
              refl,
              (_, refl, refl, refl),
              refl,
              refl,
              (refl, refl, refl, refl, refl, refl, refl, refl),
            ))))
