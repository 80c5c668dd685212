-- ===== src/Repository/Knowledge.antt =====
-- Knowledge assets: an asset for each logical key, and a version of it for each content.
mod Assets
mod Content
mod Queries
unfoldable pub use Assets.*
unfoldable pub use Content.*
unfoldable pub use Queries.*
use mssql_ai_project.Base.{
  ℕ, ◌+◌, String, Bool, true, false, not, ◌&&◌, Option, none, some, List, [], ◌∷◌, ◌++◌, ◌==◌,
  string_eq, first_where, is_some, elem, if◌then◌else◌,
}
use mssql_ai_project.Base.Dict
use mssql_ai_project.Base.Dict.{Dict}
use mssql_ai_project.Base.Int.{pos}
use mssql_ai_project.Base.Text.{Text, codes, text_eq, lower}
use mssql_ai_project.Base.Json
use mssql_ai_project.Base.Json.{Json, null, int, str, arr, Fields, empty, field}
use mssql_ai_project.Base.Values.{str_or_empty}
use mssql_ai_project.Base.Exec.{pure, gets, or_raise, modify, ◌>>=◌, ◌>>◌}
use mssql_ai_project.TargetKey.{target_key_for_target}
use mssql_ai_project.Repository.Records.{
  JobRecord, KnowledgeAssetRecord, KnowledgeFactRecord, KnowledgeEdgeRecord,
  KnowledgeAssetVersionRecord, KnowledgeExportRecord,
}
use mssql_ai_project.Repository.State.{
  key_error, World, MemoryWorkflowRepository, Method, prefixed_id, utc_now,
}
use mssql_ai_project.Repository.Audit.{given}
use mssql_ai_project.Repository.Log.{record_audit_event, api_system, str_or_null, str_items}
use mssql_ai_project.Repository.Artifacts.{job_correlation}

module _ (w : World) where
  -- the fields of an asset that has no version yet
  unfoldable pub new_asset :
      Option String
      → Text
      → Text
      → Text
      → Text
      → Text
      → Text
      → Option Text
      → Method KnowledgeAssetRecord
  new_asset job_id asset_kind db_profile_id target_type target_schema target_name logical_key
        target_key =
      do
        asset_id ← prefixed_id w "know"
        created_at ← utc_now w
        updated_at ← utc_now w
        let asset : KnowledgeAssetRecord = record {
          asset_id = asset_id;
          asset_kind = asset_kind;
          db_profile_id = db_profile_id;
          target_type = target_type;
          target_schema = target_schema;
          target_name = target_name;
          logical_key = logical_key;
          target_key = target_key;
          current_version_id = none;
          current_version_no = 0;
          content_hash = none;
          source_job_id = job_id;
          lifecycle_status = codes "DRAFT";
          archived_at = none;
          created_at = created_at;
          updated_at = updated_at;
        }
        modify (set_assets (λ d. Dict.put d asset_id asset))
        pure asset

  unfoldable pub keep_asset :
      Text → Option Text → KnowledgeAssetRecord → Method KnowledgeAssetRecord
  keep_asset logical_key target_key asset = do
    modify (set_assets (change_asset logical_key (with_target_key target_key)))
    pure (with_target_key target_key asset)

  -- the branch of a content that is the current one
  unfoldable pub reuse_version :
      Option String → Text → KnowledgeAssetRecord → Method KnowledgeAssetVersionRecord
  reuse_version job_id logical_key asset = do
    let version_id : String = id_or_empty asset.current_version_id
    found ← gets (λ s. Dict.get s.knowledge_versions version_id)
    version ← or_raise (key_error version_id) found
    modify (set_assets (change_asset logical_key (with_source_job job_id)))
    modify (link job_id asset.asset_id version.version_id)
    pure version

  -- the writes of a new version, once its facts and edges are there
  unfoldable pub store_version :
      Option String
      → Text
      → Text
      → Option Text
      → KnowledgeAssetRecord
      → KnowledgeAssetVersionRecord
      → Method KnowledgeAssetVersionRecord
  store_version job_id asset_kind logical_key target_key asset version = do
    modify (λ s. record s {
      knowledge_versions = Dict.put s.knowledge_versions version.version_id version;
    })
    updated_at ← utc_now w
    modify (
        set_assets (
          change_asset logical_key (λ a. with_source_job job_id (
            with_version version.version_id version.version_no version.content_hash updated_at a))))
    modify (link job_id asset.asset_id version.version_id)
    job ← gets (job_of job_id)
    record_audit_event w "KNOWLEDGE_ASSET_VERSIONED" "KNOWLEDGE_ASSET" asset.asset_id
        (versioned_payload asset_kind job_id target_key version) api_system (job_correlation job)
    pure version

  unfoldable pub new_version :
      Option String
      → Text
      → Text
      → Option Text
      → Fields
      → List Json
      → List Json
      → Text
      → KnowledgeAssetRecord
      → Method KnowledgeAssetVersionRecord
  new_version job_id asset_kind logical_key target_key payload facts edges content_hash asset = do
    version_id ← prefixed_id w "knowv"
    fact_records ←
        each_mapping (fact_record w version_id asset.asset_id asset_kind content_hash) facts
    edge_records ← each_mapping (edge_record w version_id asset.asset_id) edges
    created_at ← utc_now w
    let version : KnowledgeAssetVersionRecord = record {
      version_id = version_id;
      asset_id = asset.asset_id;
      version_no = asset.current_version_no + 1;
      content_hash = content_hash;
      payload = payload;
      facts = fact_records;
      edges = edge_records;
      source_job_id = job_id;
      lifecycle_status = codes "DRAFT";
      archived_at = none;
      created_at = created_at;
    }
    store_version job_id asset_kind logical_key target_key asset version

  -- What follows once the asset is there.
  unfoldable pub put_content :
      Option String
      → Text
      → Text
      → Option Text
      → Fields
      → List Json
      → List Json
      → Text
      → KnowledgeAssetRecord
      → Method KnowledgeAssetVersionRecord
  put_content job_id asset_kind logical_key target_key payload facts edges content_hash asset =
      if has_content asset content_hash
      then reuse_version job_id logical_key asset
      else new_version job_id asset_kind logical_key target_key payload facts edges content_hash
          asset

  unfoldable pub obtain_asset :
      Option String
      → Text
      → Text
      → Text
      → Text
      → Text
      → Text
      → Option Text
      → Option KnowledgeAssetRecord
      → Method KnowledgeAssetRecord
  obtain_asset job_id asset_kind db_profile_id target_type target_schema target_name logical_key
        target_key none =
      new_asset job_id asset_kind db_profile_id target_type target_schema target_name logical_key
        target_key
  obtain_asset job_id asset_kind db_profile_id target_type target_schema target_name logical_key
        target_key (some asset) =
      keep_asset logical_key target_key asset

  -- the three texts of a target, with the default of its type
  abbrev pub type_of_target : Fields → Text
  type_of_target target = text_or w (Json.get target (codes "type")) (codes "OBJECT")

  abbrev pub schema_of_target : Fields → Text
  schema_of_target target = str_or_empty w.repr (Json.get target (codes "schema"))

  abbrev pub name_of_target : Fields → Text
  name_of_target target = str_or_empty w.repr (Json.get target (codes "name"))

  abbrev pub target_logical_key : Text → Text → Fields → Text
  target_logical_key db_profile_id asset_kind target =
      logical_key_of db_profile_id asset_kind (type_of_target target) (schema_of_target target)
        (name_of_target target)

  unfoldable pub upsert_knowledge_asset :
      Option String
      → Text
      → Text
      → Fields
      → Fields
      → List Json
      → List Json
      → Text
      → Method KnowledgeAssetVersionRecord
  upsert_knowledge_asset job_id db_profile_id asset_kind target payload facts edges content_hash =
      do
        let logical_key : Text = target_logical_key db_profile_id asset_kind target
        let target_key : Option Text =
            target_key_for_target w.repr (some db_profile_id) (some target) none
        found ← gets (λ s. find_asset logical_key s.knowledge_assets)
        asset ←
            obtain_asset job_id asset_kind db_profile_id (type_of_target target)
              (schema_of_target target) (name_of_target target) logical_key target_key found
        put_content job_id asset_kind logical_key target_key payload facts edges content_hash asset

  unfoldable pub save_knowledge_export :
      Text → Text → Text → Text → List Text → Method KnowledgeExportRecord
  save_knowledge_export export_format content_type content content_hash asset_ids = do
    export_id ← prefixed_id w "kexp"
    created_at ← utc_now w
    let export : KnowledgeExportRecord = record {
      export_id = export_id;
      format = export_format;
      content_type = content_type;
      content = content;
      content_hash = content_hash;
      asset_ids = asset_ids;
      created_at = created_at;
    }
    modify (λ s. record s { knowledge_exports = Dict.put s.knowledge_exports export_id export })
    record_audit_event w "KNOWLEDGE_EXPORTED" "KNOWLEDGE_EXPORT" export_id
        (field (codes "format") (str export_format) (
          field (codes "contentHash") (str content_hash)
            (field (codes "assetIds") (arr (str_items asset_ids)) empty)))
        api_system none
    pure export
