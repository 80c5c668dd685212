-- ===== src/Repository/Growth.antt =====
-- Nothing is forgotten: the audit trail only grows at its end, and no record is removed.
pub mod Methods
pub mod Knowledge
pub mod Calls
use mssql_ai_project.Base.{
  ℕ, String, Bool, true, ◌≡◌, refl, sym, ap, ◌∙◌, Option, none, some, List, [], ◌∷◌, ◌++◌, arith,
}
use mathlib.Core.List.{append-nil, append_assoc}
use mssql_ai_project.Base.Dict
use mssql_ai_project.Base.Dict.{Dict, contains-put}
use mssql_ai_project.Base.Text.{Text}
use mssql_ai_project.Base.Json.{Fields}
use mssql_ai_project.Base.Exec.{modify}
use mssql_ai_project.Base.Exec.Keeps.{IsKept, Keeps, Keeps-modify, keeps_rules}
use mssql_ai_project.Lifecycle.{JobStatus, WorkflowStepType, ArtifactType, ArtifactStatus}
use mssql_ai_project.Repository.Records.{
  WorkRequestRecord, JobRecord, ArtifactRecord, ValidationReportRecord, AuditEventRecord,
  MetadataCollectionRecord, AgentRunRecord, MetadataAnalysisRunRecord, MetadataDesignRunRecord,
  KnowledgeAssetRecord, KnowledgeAssetVersionRecord, KnowledgeExportRecord,
}
use mssql_ai_project.Repository.State.{
  World, MemoryWorkflowRepository, Method, prefixed_id, utc_now,
}
use mssql_ai_project.Repository.Knowledge.{change_asset, set_assets, link}

-- Every key of the first dict is a key of the second.
abbrev pub Covers {ℓ} : {V : Type ℓ} → Dict V → Dict V → Type 0
Covers d e = (k : String) → Dict.contains d k ≡ true → Dict.contains e k ≡ true

-- The second trail is the first and what was appended.
abbrev pub Extends : List AuditEventRecord → List AuditEventRecord → Type 0
Extends xs ys = (l : List AuditEventRecord) × (ys ≡ xs ++ l)

abbrev pub Grows : MemoryWorkflowRepository → MemoryWorkflowRepository → Type 0
Grows s t =
    Extends s.audit_events t.audit_events
    × Covers s.requests t.requests
    × Covers s.jobs t.jobs
    × Covers s.metadata_collections t.metadata_collections
    × Covers s.agent_runs t.agent_runs
    × Covers s.artifacts t.artifacts
    × Covers s.validation_reports t.validation_reports
    × Covers s.metadata_analysis_runs t.metadata_analysis_runs
    × Covers s.metadata_design_runs t.metadata_design_runs
    × Covers s.knowledge_assets t.knowledge_assets
    × Covers s.knowledge_versions t.knowledge_versions
    × Covers s.knowledge_exports t.knowledge_exports

Extends-refl : (xs : List AuditEventRecord) → Extends xs xs
Extends-refl xs = ([], sym (append-nil xs))

Extends-trans : (xs ys zs : List AuditEventRecord) → Extends xs ys → Extends ys zs → Extends xs zs
Extends-trans xs ys zs (l, g) (m, h) =
    (l ++ m, h ∙ ap (λ (r : List AuditEventRecord). r ++ m) g ∙ append_assoc xs l m)

same_keys {ℓ} : {V : Type ℓ} (d : Dict V) → Covers d d
same_keys d k h = h

pub Grows-refl : (s : MemoryWorkflowRepository) → Grows s s
Grows-refl s = (
  Extends-refl s.audit_events,
  same_keys s.requests,
  same_keys s.jobs,
  same_keys s.metadata_collections,
  same_keys s.agent_runs,
  same_keys s.artifacts,
  same_keys s.validation_reports,
  same_keys s.metadata_analysis_runs,
  same_keys s.metadata_design_runs,
  same_keys s.knowledge_assets,
  same_keys s.knowledge_versions,
  same_keys s.knowledge_exports,
)

pub Grows-trans : (s t u : MemoryWorkflowRepository) → Grows s t → Grows t u → Grows s u
Grows-trans s t u g h = (
  Extends-trans s.audit_events t.audit_events u.audit_events g.0 h.0,
  λ k e. h.1 k (g.1 k e),
  λ k e. h.2 k (g.2 k e),
  λ k e. h.3 k (g.3 k e),
  λ k e. h.4 k (g.4 k e),
  λ k e. h.5 k (g.5 k e),
  λ k e. h.6 k (g.6 k e),
  λ k e. h.7 k (g.7 k e),
  λ k e. h.8 k (g.8 k e),
  λ k e. h.9 k (g.9 k e),
  λ k e. h.10 k (g.10 k e),
  λ k e. h.11 k (g.11 k e),
)

pub grows : IsKept Grows
grows = record { same = Grows-refl; join = Grows-trans }

abbrev pub KeepsAll : {A : Type 0} → Method A → Type 0
KeepsAll m = Keeps Grows m

abbrev pub change : (MemoryWorkflowRepository → MemoryWorkflowRepository) → Method (Unit {0})
change f = modify f

Covers-put {ℓ} : {V : Type ℓ} (d : Dict V) (k : String) (v : V) → Covers d (Dict.put d k v)
Covers-put d k v j h = contains-put d k j v h

module _ (w : World) where
  pub prefixed_id-KeepsAll : (p : String) → KeepsAll (prefixed_id w p)
  unfolding prefixed_id
  prefixed_id-KeepsAll p = record { at = λ s. Grows-refl s }

  pub utc_now-KeepsAll : KeepsAll (utc_now w)
  unfolding utc_now
  utc_now-KeepsAll = record { at = λ s. Grows-refl s }

pub log-KeepsAll :
    (e : AuditEventRecord)
    → KeepsAll (change (λ s. record s { audit_events = s.audit_events ++ e ∷ [] }))
log-KeepsAll e = Keeps-modify _ (λ s.
    let g = Grows-refl s in
    ((e ∷ [], refl), g.1, g.2, g.3, g.4, g.5, g.6, g.7, g.8, g.9, g.10, g.11))

module _ (k : String) where
  pub put_request-KeepsAll :
      (v : WorkRequestRecord)
      → KeepsAll (change (λ s. record s { requests = Dict.put s.requests k v }))
  put_request-KeepsAll v = Keeps-modify _ (λ s.
      let g = Grows-refl s in
      (g.0, Covers-put s.requests k v, g.2, g.3, g.4, g.5, g.6, g.7, g.8, g.9, g.10, g.11))

  pub put_job-KeepsAll :
      (v : JobRecord) → KeepsAll (change (λ s. record s { jobs = Dict.put s.jobs k v }))
  put_job-KeepsAll v = Keeps-modify _ (λ s.
      let g = Grows-refl s in
      (g.0, g.1, Covers-put s.jobs k v, g.3, g.4, g.5, g.6, g.7, g.8, g.9, g.10, g.11))

  pub put_collection-KeepsAll :
      (v : MetadataCollectionRecord)
      → KeepsAll
          (change (λ s. record s { metadata_collections = Dict.put s.metadata_collections k v }))
  put_collection-KeepsAll v = Keeps-modify _ (λ s.
      let g = Grows-refl s in
      (
        g.0,
        g.1,
        g.2,
        Covers-put s.metadata_collections k v,
        g.4,
        g.5,
        g.6,
        g.7,
        g.8,
        g.9,
        g.10,
        g.11,
      ))

  pub put_agent_run-KeepsAll :
      (v : AgentRunRecord)
      → KeepsAll (change (λ s. record s { agent_runs = Dict.put s.agent_runs k v }))
  put_agent_run-KeepsAll v = Keeps-modify _ (λ s.
      let g = Grows-refl s in
      (g.0, g.1, g.2, g.3, Covers-put s.agent_runs k v, g.5, g.6, g.7, g.8, g.9, g.10, g.11))

  pub put_artifact-KeepsAll :
      (v : ArtifactRecord)
      → KeepsAll (change (λ s. record s { artifacts = Dict.put s.artifacts k v }))
  put_artifact-KeepsAll v = Keeps-modify _ (λ s.
      let g = Grows-refl s in
      (g.0, g.1, g.2, g.3, g.4, Covers-put s.artifacts k v, g.6, g.7, g.8, g.9, g.10, g.11))

  pub put_report-KeepsAll :
      (v : ValidationReportRecord)
      → KeepsAll (change (λ s. record s { validation_reports = Dict.put s.validation_reports k v }))
  put_report-KeepsAll v = Keeps-modify _ (λ s.
      let g = Grows-refl s in
      (
        g.0,
        g.1,
        g.2,
        g.3,
        g.4,
        g.5,
        Covers-put s.validation_reports k v,
        g.7,
        g.8,
        g.9,
        g.10,
        g.11,
      ))

  pub put_run-KeepsAll :
      (v : MetadataAnalysisRunRecord)
      → KeepsAll (
          change (λ s. record s { metadata_analysis_runs = Dict.put s.metadata_analysis_runs k v }))
  put_run-KeepsAll v = Keeps-modify _ (λ s.
      let g = Grows-refl s in
      (
        g.0,
        g.1,
        g.2,
        g.3,
        g.4,
        g.5,
        g.6,
        Covers-put s.metadata_analysis_runs k v,
        g.8,
        g.9,
        g.10,
        g.11,
      ))

  pub put_design_run-KeepsAll :
      (v : MetadataDesignRunRecord)
      → KeepsAll
          (change (λ s. record s { metadata_design_runs = Dict.put s.metadata_design_runs k v }))
  put_design_run-KeepsAll v = Keeps-modify _ (λ s.
      let g = Grows-refl s in
      (
        g.0,
        g.1,
        g.2,
        g.3,
        g.4,
        g.5,
        g.6,
        g.7,
        Covers-put s.metadata_design_runs k v,
        g.9,
        g.10,
        g.11,
      ))

  pub put_asset-KeepsAll :
      (v : KnowledgeAssetRecord)
      → KeepsAll (change (λ s. record s { knowledge_assets = Dict.put s.knowledge_assets k v }))
  put_asset-KeepsAll v = Keeps-modify _ (λ s.
      let g = Grows-refl s in
      (g.0, g.1, g.2, g.3, g.4, g.5, g.6, g.7, g.8, Covers-put s.knowledge_assets k v, g.10, g.11))

  pub put_version-KeepsAll :
      (v : KnowledgeAssetVersionRecord)
      → KeepsAll (change (λ s. record s { knowledge_versions = Dict.put s.knowledge_versions k v }))
  put_version-KeepsAll v = Keeps-modify _ (λ s.
      let g = Grows-refl s in
      (g.0, g.1, g.2, g.3, g.4, g.5, g.6, g.7, g.8, g.9, Covers-put s.knowledge_versions k v, g.11))

  pub put_export-KeepsAll :
      (v : KnowledgeExportRecord)
      → KeepsAll (change (λ s. record s { knowledge_exports = Dict.put s.knowledge_exports k v }))
  put_export-KeepsAll v = Keeps-modify _ (λ s.
      let g = Grows-refl s in
      (g.0, g.1, g.2, g.3, g.4, g.5, g.6, g.7, g.8, g.9, g.10, Covers-put s.knowledge_exports k v))

Covers-change_asset :
    (key : Text) (f : KnowledgeAssetRecord → KnowledgeAssetRecord) (d : Dict KnowledgeAssetRecord)
    → Covers d (change_asset key f d)
unfolding change_asset Dict.get
Covers-change_asset key f [] k h = h
Covers-change_asset key f ((i, a) ∷ d) k h = ground (arith, Covers-change_asset key f d k)

pub change_asset-KeepsAll :
    (key : Text) (f : KnowledgeAssetRecord → KnowledgeAssetRecord)
    → KeepsAll (change (set_assets (change_asset key f)))
change_asset-KeepsAll key f = Keeps-modify _ (λ s.
    let g = Grows-refl s in
    (
      g.0,
      g.1,
      g.2,
      g.3,
      g.4,
      g.5,
      g.6,
      g.7,
      g.8,
      Covers-change_asset key f s.knowledge_assets,
      g.10,
      g.11,
    ))

pub link-KeepsAll : (j : Option String) (a v : String) → KeepsAll (change (link j a v))
link-KeepsAll j a v = Keeps-modify _ (λ s. Grows-refl s)

pub ruleset growth_rules = (
  grows, keeps_rules, prefixed_id-KeepsAll, utc_now-KeepsAll, log-KeepsAll, put_request-KeepsAll,
  put_job-KeepsAll, put_collection-KeepsAll, put_agent_run-KeepsAll, put_artifact-KeepsAll,
  put_report-KeepsAll, put_run-KeepsAll, put_design_run-KeepsAll, put_asset-KeepsAll,
  put_version-KeepsAll, put_export-KeepsAll, change_asset-KeepsAll, link-KeepsAll,
)
