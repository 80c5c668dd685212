-- ===== src/Repository/History/Knowledge.antt =====
-- The methods on knowledge assets keep the histories of the jobs.
use mssql_ai_project.Base.{String, Option, none, some, List}
use mssql_ai_project.Base.Text.{Text}
use mssql_ai_project.Base.Json.{Json, Fields}
use mssql_ai_project.Repository.Records.{KnowledgeAssetRecord, KnowledgeAssetVersionRecord}
use mssql_ai_project.Repository.State.{World}
use mssql_ai_project.Repository.Knowledge.{
  each_mapping, fact_record, edge_record, new_asset, keep_asset, obtain_asset, reuse_version,
  store_version, new_version, put_content, upsert_knowledge_asset, save_knowledge_export,
}
use mssql_ai_project.Repository.ContentKeeps.{facts-Keeps, edges-Keeps}
use mssql_ai_project.Base.Exec.Keeps.{Invariant}
use mssql_ai_project.Repository.Trail.{HasHistories}
use mssql_ai_project.Repository.History.Jobs.{
  KeepsHistories, kept, history_rules, prefixed_id-KeepsHistories, utc_now-KeepsHistories,
  record_audit_event-KeepsHistories,
}

module _ (w : World) where
  facts-KeepsHistories :
      (v a : String) (k h : Text) (vs : List Json)
      → KeepsHistories (each_mapping (fact_record w v a k h) vs)
  facts-KeepsHistories =
      facts-Keeps (Invariant HasHistories) kept w (prefixed_id-KeepsHistories w)
        (utc_now-KeepsHistories w)

  edges-KeepsHistories :
      (v a : String) (vs : List Json) → KeepsHistories (each_mapping (edge_record w v a) vs)
  edges-KeepsHistories =
      edges-Keeps (Invariant HasHistories) kept w (prefixed_id-KeepsHistories w)
        (utc_now-KeepsHistories w)

  new_asset-KeepsHistories :
      (j : Option String) (k p t sc n l : Text) (c : Option Text)
      → KeepsHistories (new_asset w j k p t sc n l c)
  unfolding new_asset
  new_asset-KeepsHistories j k p t sc n l c = search history_rules depth 14

  keep_asset-KeepsHistories :
      (l : Text) (c : Option Text) (a : KnowledgeAssetRecord) → KeepsHistories (keep_asset w l c a)
  unfolding keep_asset
  keep_asset-KeepsHistories l c a = search history_rules depth 10

  obtain_asset-KeepsHistories :
      (j : Option String) (k p t sc n l : Text) (c : Option Text) (a : Option KnowledgeAssetRecord)
      → KeepsHistories (obtain_asset w j k p t sc n l c a)
  unfolding obtain_asset
  obtain_asset-KeepsHistories j k p t sc n l c none = new_asset-KeepsHistories j k p t sc n l c
  obtain_asset-KeepsHistories j k p t sc n l c (some a) = keep_asset-KeepsHistories l c a

  reuse_version-KeepsHistories :
      (j : Option String) (l : Text) (a : KnowledgeAssetRecord)
      → KeepsHistories (reuse_version w j l a)
  unfolding reuse_version
  reuse_version-KeepsHistories j l a = search history_rules depth 14

  store_version-KeepsHistories :
      (j : Option String) (k l : Text) (c : Option Text) (a : KnowledgeAssetRecord)
      (v : KnowledgeAssetVersionRecord)
      → KeepsHistories (store_version w j k l c a v)
  unfolding store_version
  store_version-KeepsHistories j k l c a v =
      search (history_rules, record_audit_event-KeepsHistories) depth 16

  new_version-KeepsHistories :
      (j : Option String) (k l : Text) (c : Option Text) (p : Fields) (f e : List Json) (h : Text)
      (a : KnowledgeAssetRecord)
      → KeepsHistories (new_version w j k l c p f e h a)
  unfolding new_version
  new_version-KeepsHistories j k l c p f e h a =
      search
        (history_rules, facts-KeepsHistories, edges-KeepsHistories, store_version-KeepsHistories)
        depth 16

  put_content-KeepsHistories :
      (j : Option String) (k l : Text) (c : Option Text) (p : Fields) (f e : List Json) (h : Text)
      (a : KnowledgeAssetRecord)
      → KeepsHistories (put_content w j k l c p f e h a)
  unfolding put_content
  put_content-KeepsHistories j k l c p f e h a =
      search (history_rules, reuse_version-KeepsHistories, new_version-KeepsHistories) depth 8

  pub upsert_knowledge_asset-KeepsHistories :
      (j : Option String) (p k : Text) (t v : Fields) (f e : List Json) (h : Text)
      → KeepsHistories (upsert_knowledge_asset w j p k t v f e h)
  unfolding upsert_knowledge_asset
  upsert_knowledge_asset-KeepsHistories j p k t v f e h =
      search (history_rules, obtain_asset-KeepsHistories, put_content-KeepsHistories) depth 10

  pub save_knowledge_export-KeepsHistories :
      (f t c h : Text) (a : List Text) → KeepsHistories (save_knowledge_export w f t c h a)
  unfolding save_knowledge_export
  save_knowledge_export-KeepsHistories f t c h a =
      search (history_rules, record_audit_event-KeepsHistories) depth 14
