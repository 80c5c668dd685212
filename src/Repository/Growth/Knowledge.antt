-- ===== src/Repository/Growth/Knowledge.antt =====
-- The methods on knowledge assets only add to the repository.
use mssql_ai_project.Base.{String, Option, none, some, List}
use mssql_ai_project.Base.Text.{Text}
use mssql_ai_project.Base.Json.{Json, Fields}
use mssql_ai_project.Repository.Records.{KnowledgeAssetRecord, KnowledgeAssetVersionRecord}
use mssql_ai_project.Repository.State.{World}
use mssql_ai_project.Repository.Knowledge.{
  each_mapping, fact_record, edge_record, new_asset, keep_asset, obtain_asset, reuse_version,
  store_version, new_version, put_content, upsert_knowledge_asset, save_knowledge_export,
}
use mssql_ai_project.Repository.ContentKeeps.{facts-Keeps, edges-Keeps}
use mssql_ai_project.Repository.Growth.{
  Grows, grows, KeepsAll, growth_rules, prefixed_id-KeepsAll, utc_now-KeepsAll,
}
use mssql_ai_project.Repository.Growth.Methods.{record_audit_event-KeepsAll}

module _ (w : World) where
  facts-KeepsAll :
      (v a : String) (k h : Text) (vs : List Json)
      → KeepsAll (each_mapping (fact_record w v a k h) vs)
  facts-KeepsAll = facts-Keeps Grows grows w (prefixed_id-KeepsAll w) (utc_now-KeepsAll w)

  edges-KeepsAll : (v a : String) (vs : List Json) → KeepsAll (each_mapping (edge_record w v a) vs)
  edges-KeepsAll = edges-Keeps Grows grows w (prefixed_id-KeepsAll w) (utc_now-KeepsAll w)

  new_asset-KeepsAll :
      (j : Option String) (k p t sc n l : Text) (c : Option Text)
      → KeepsAll (new_asset w j k p t sc n l c)
  unfolding new_asset
  new_asset-KeepsAll j k p t sc n l c = search growth_rules depth 14

  keep_asset-KeepsAll :
      (l : Text) (c : Option Text) (a : KnowledgeAssetRecord) → KeepsAll (keep_asset w l c a)
  unfolding keep_asset
  keep_asset-KeepsAll l c a = search growth_rules depth 10

  obtain_asset-KeepsAll :
      (j : Option String) (k p t sc n l : Text) (c : Option Text) (a : Option KnowledgeAssetRecord)
      → KeepsAll (obtain_asset w j k p t sc n l c a)
  unfolding obtain_asset
  obtain_asset-KeepsAll j k p t sc n l c none = new_asset-KeepsAll j k p t sc n l c
  obtain_asset-KeepsAll j k p t sc n l c (some a) = keep_asset-KeepsAll l c a

  reuse_version-KeepsAll :
      (j : Option String) (l : Text) (a : KnowledgeAssetRecord) → KeepsAll (reuse_version w j l a)
  unfolding reuse_version
  reuse_version-KeepsAll j l a = search growth_rules depth 14

  store_version-KeepsAll :
      (j : Option String) (k l : Text) (c : Option Text) (a : KnowledgeAssetRecord)
      (v : KnowledgeAssetVersionRecord)
      → KeepsAll (store_version w j k l c a v)
  unfolding store_version
  store_version-KeepsAll j k l c a v = search (growth_rules, record_audit_event-KeepsAll) depth 16

  new_version-KeepsAll :
      (j : Option String) (k l : Text) (c : Option Text) (p : Fields) (f e : List Json) (h : Text)
      (a : KnowledgeAssetRecord)
      → KeepsAll (new_version w j k l c p f e h a)
  unfolding new_version
  new_version-KeepsAll j k l c p f e h a =
      search (growth_rules, facts-KeepsAll, edges-KeepsAll, store_version-KeepsAll) depth 16

  put_content-KeepsAll :
      (j : Option String) (k l : Text) (c : Option Text) (p : Fields) (f e : List Json) (h : Text)
      (a : KnowledgeAssetRecord)
      → KeepsAll (put_content w j k l c p f e h a)
  unfolding put_content
  put_content-KeepsAll j k l c p f e h a =
      search (growth_rules, reuse_version-KeepsAll, new_version-KeepsAll) depth 8

  pub upsert_knowledge_asset-KeepsAll :
      (j : Option String) (p k : Text) (t v : Fields) (f e : List Json) (h : Text)
      → KeepsAll (upsert_knowledge_asset w j p k t v f e h)
  unfolding upsert_knowledge_asset
  upsert_knowledge_asset-KeepsAll j p k t v f e h =
      search (growth_rules, obtain_asset-KeepsAll, put_content-KeepsAll) depth 10

  pub save_knowledge_export-KeepsAll :
      (f t c h : Text) (a : List Text) → KeepsAll (save_knowledge_export w f t c h a)
  unfolding save_knowledge_export
  save_knowledge_export-KeepsAll f t c h a =
      search (growth_rules, record_audit_event-KeepsAll) depth 14
