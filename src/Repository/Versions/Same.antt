-- ===== src/Repository/Versions/Same.antt =====
-- The steps of `upsert_knowledge_asset` that change neither the assets nor their versions, and that
-- the event of a new version is logged without a raise.
use mssql_ai_project.Base.{
  String, Bool, true, false, ◌≡◌, refl, sym, ◌∙◌, Option, none, some, [], ◌∷◌, ◌++◌ as ◌++ˡ◌,
  string_eq, inl, inr, arith, ap,
}
use mssql_ai_project.Base.Text.{Text, text_eq}
use mssql_ai_project.Base.Json
use mssql_ai_project.Base.Json.{Json, Fields}
use mssql_ai_project.Base.Result.{Result, ok, err, Result-cases}
use mssql_ai_project.Base.Exec.{pure, lift, modify, ◌>>=◌}
use mssql_ai_project.Base.Exec.Keeps.{IsKept, Keeps, Keeps-modify, keeps_rules}
use mssql_ai_project.Repository.Records.{KnowledgeAssetVersionRecord, AuditEventRecord}
use mssql_ai_project.Repository.State.{
  RepositoryError, World, MemoryWorkflowRepository, prefixed_id, utc_now,
}
use mssql_ai_project.Repository.Audit.{
  standardized_audit_payload, with_correlation, with_defaults, mapping_of, set_default,
}
use mssql_ai_project.Repository.Log.{record_audit_event, api_system}
use mssql_ai_project.Repository.Knowledge.{versioned_payload}

abbrev pub returns : {A : Type 0} → Result RepositoryError A → Bool
returns (ok a) = true
returns (err e) = false

unfoldable pub SameKnowledge : MemoryWorkflowRepository → MemoryWorkflowRepository → Type 0
SameKnowledge s t =
    (t.knowledge_assets ≡ s.knowledge_assets) × (t.knowledge_versions ≡ s.knowledge_versions)

pub same_knowledge : IsKept SameKnowledge
unfolding SameKnowledge
same_knowledge = record { same = λ s. (refl, refl); join = λ s t u f g. (g.0 ∙ f.0, g.1 ∙ f.1) }

module _ (w : World) where
  pub prefixed_id-SameKnowledge : (p : String) → Keeps SameKnowledge (prefixed_id w p)
  unfolding prefixed_id SameKnowledge
  prefixed_id-SameKnowledge p = record { at = λ s. (refl, refl) }

  pub utc_now-SameKnowledge : Keeps SameKnowledge (utc_now w)
  unfolding utc_now SameKnowledge
  utc_now-SameKnowledge = record { at = λ s. (refl, refl) }

  pub log-SameKnowledge :
      (e : AuditEventRecord)
      → Keeps {E = RepositoryError} SameKnowledge
          (modify (λ s. record s { audit_events = s.audit_events ++ˡ e ∷ [] }))
  unfolding SameKnowledge
  log-SameKnowledge e = Keeps-modify _ (λ s. (refl, refl))

  pub record_audit_event-SameKnowledge :
      (a t i : String) (p : Fields) (by : Text) (c : Option Text)
      → Keeps SameKnowledge (record_audit_event w a t i p by c)
  unfolding record_audit_event
  record_audit_event-SameKnowledge a t i p by c =
      search
        (
          same_knowledge, keeps_rules, prefixed_id-SameKnowledge, utc_now-SameKnowledge,
          log-SameKnowledge,
        )
        depth 14

pub versioned_payload-returns :
    (repr : Json → Text) (k : Text) (j : Option String) (t : Option Text)
    (v : KnowledgeAssetVersionRecord) (i : String) (c : Option Text)
    → returns (
        standardized_audit_payload repr "KNOWLEDGE_ASSET_VERSIONED" "KNOWLEDGE_ASSET" i
          (versioned_payload k j t v)
          api_system
          c)
      ≡ true
unfolding standardized_audit_payload with_correlation with_defaults mapping_of set_default Json.get
    Json.put
versioned_payload-returns repr k j t v i none = refl
versioned_payload-returns repr k j t v i (some []) = refl
versioned_payload-returns repr k j t v i (some (x ∷ c)) = refl

pub record_audit_event-returns :
    (w : World) (a t i : String) (p : Fields) (by : Text) (c : Option Text)
    (s : MemoryWorkflowRepository)
    → returns (standardized_audit_payload w.repr a t i p by c) ≡ true
    → returns (record_audit_event w a t i p by c s).0 ≡ true
unfolding record_audit_event ◌>>=◌ lift prefixed_id utc_now modify pure
record_audit_event-returns w a t i p by c s h =
    elim (Result-cases (standardized_audit_payload w.repr a t i p by c)) [
      | inl (q, e) ↦ rw e refl
      | inr (q, e) ↦ let z : false ≡ true = sym (ap returns e) ∙ h in ground arith
    ]
