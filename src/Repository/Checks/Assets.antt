-- ===== src/Repository/Checks/Assets.antt =====
-- Knowledge assets at concrete inputs.
use Prim.Native.String.{◌++◌}
use mssql_ai_project.Base.{
  ℕ, zero, suc, ◌+◌, String, ◌≡◌, refl, ◌&&◌, none, some, [], ◌==◌, if◌then◌else◌,
}
use mssql_ai_project.Base.Dict
use mssql_ai_project.Base.Exec
use mssql_ai_project.Base.Text.{codes, text_eq}
use mssql_ai_project.Base.Json
use mssql_ai_project.Base.Json.{Json, str, Fields, empty, field}
use mssql_ai_project.Base.Result.{ok}
use mssql_ai_project.Repository.Records.{KnowledgeAssetVersionRecord}
use mssql_ai_project.Repository.State.{World, MemoryWorkflowRepository, prefixed_id, utc_now}
use mssql_ai_project.Repository.Audit.{
  standardized_audit_payload, with_correlation, with_defaults, mapping_of, set_default,
}
use mssql_ai_project.Repository.Log.{record_audit_event}
use mssql_ai_project.Repository.Knowledge.{
  find_asset, has_content, obtain_asset, new_asset, put_content, new_version, store_version,
  each_mapping, upsert_knowledge_asset, target_logical_key,
}
use mssql_ai_project.Repository.Calls.{empty_repository}
use mssql_ai_project.Repository.Versions.Assets.{content_of, append}
use mssql_ai_project.Repository.Versions.Same.{returns}
use mssql_ai_project.Repository.Versions.{
  upsert_knowledge_asset-append, upsert_knowledge_asset_again,
}

abbrev hex : ℕ → String
hex zero = "a0"
hex (suc zero) = "b1"
hex _ = "c2"

abbrev world : World
world = record { uuid_hex = hex; clock = λ n. n + 1000; repr = λ v. codes "{}" }

abbrev table : Fields
table =
    field (codes "type") (str (codes "TABLE")) (field (codes "name") (str (codes "orders")) empty)

abbrev first_version : KnowledgeAssetVersionRecord
first_version = record {
  version_id = "knowv_b1";
  asset_id = "know_a0";
  version_no = 1;
  content_hash = codes "h1";
  payload = empty;
  facts = [];
  edges = [];
  source_job_id = none;
  lifecycle_status = codes "DRAFT";
  archived_at = none;
  created_at = 1002;
}

abbrev after_first : MemoryWorkflowRepository
after_first =
    (upsert_knowledge_asset world none (codes "p") (codes "TABLE_FACTS") table empty [] []
      (codes "h1") empty_repository).1

fresh : Dict.get empty_repository.knowledge_assets (("know" ++ "_") ++ hex 0) ≡ none
unfolding Dict.get
fresh = refl

first_run :
    upsert_knowledge_asset world none
      (codes "p")
      (codes "TABLE_FACTS")
      table
      empty
      []
      []
      (codes "h1")
      empty_repository
    ≡ (ok first_version, after_first)
unfolding upsert_knowledge_asset obtain_asset new_asset put_content has_content new_version
    store_version each_mapping find_asset prefixed_id utc_now record_audit_event
    standardized_audit_payload with_correlation with_defaults mapping_of set_default Json.get
    Json.put Exec.◌>>=◌
first_run = refl

upsert_knowledge_asset-append_example :
    let (r, t) =
      upsert_knowledge_asset world none
        (codes "p")
        (codes "TABLE_FACTS")
        table
        empty
        []
        []
        (codes "h1")
        empty_repository in
    content_of (find_asset (codes "p|table_facts|table||orders") t.knowledge_assets) ≡ (
      if target_logical_key world (codes "p") (codes "TABLE_FACTS") table
          == codes "p|table_facts|table||orders"
        && returns r
      then append (codes "h1") (content_of (find_asset (codes "p|table_facts|table||orders") []))
      else content_of (find_asset (codes "p|table_facts|table||orders") []))
upsert_knowledge_asset-append_example =
    upsert_knowledge_asset-append world none (codes "p") (codes "TABLE_FACTS") table empty [] []
      (codes "h1") empty_repository fresh (codes "p|table_facts|table||orders")

-- The second call brings another payload under the same hash.
upsert_knowledge_asset_again_example :
    let (r, u) =
      upsert_knowledge_asset world
        (some "job_1")
        (codes "p")
        (codes "TABLE_FACTS")
        table
        table
        []
        []
        (codes "h1")
        after_first in
    (r ≡ ok first_version)
    × (u.knowledge_versions ≡ after_first.knowledge_versions)
    × (u.audit_events ≡ after_first.audit_events)
upsert_knowledge_asset_again_example =
    upsert_knowledge_asset_again world none (codes "p") (codes "TABLE_FACTS") table empty [] []
      (codes "h1") empty_repository after_first first_version fresh first_run (some "job_1") table
      [] []
