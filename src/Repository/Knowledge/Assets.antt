-- ===== src/Repository/Knowledge/Assets.antt =====
-- The search of an asset by its logical key, the writes to its fields, and its links to jobs.
use mssql_ai_project.Base.{
  ℕ, String, Bool, false, not, ◌&&◌, Option, none, some, List, [], ◌∷◌, ◌++◌, ◌==◌, string_eq,
  if◌then◌else◌,
}
use mssql_ai_project.Base.Dict
use mssql_ai_project.Base.Dict.{Dict}
use mssql_ai_project.Base.Int.{pos}
use mssql_ai_project.Base.Text.{Text, codes, text_eq, lower}
use mssql_ai_project.Base.Json.{Json, null, int, str, Fields, empty, field}
use mssql_ai_project.Repository.Records.{
  JobRecord, KnowledgeAssetRecord, KnowledgeAssetVersionRecord,
}
use mssql_ai_project.Repository.State.{MemoryWorkflowRepository}
use mssql_ai_project.Repository.Audit.{given}
use mssql_ai_project.Repository.Log.{str_or_null}

-- `"|".join([...]).lower()`
unfoldable pub logical_key_of : Text → Text → Text → Text → Text → Text
logical_key_of db_profile_id asset_kind target_type target_schema target_name = lower (
    db_profile_id
    ++ (b'|'
        ∷ (asset_kind
            ++ (b'|' ∷ (target_type ++ (b'|' ∷ (target_schema ++ (b'|' ∷ target_name))))))))

-- `next((item for item in knowledge_assets.values() if item.logical_key == logical_key), None)`
unfoldable pub find_asset : Text → Dict KnowledgeAssetRecord → Option KnowledgeAssetRecord
find_asset key [] = none
find_asset key ((i, a) ∷ d) = if a.logical_key == key then some a else find_asset key d

-- An assignment to a field of the object that the search finds.
unfoldable pub change_asset :
    Text
    → (KnowledgeAssetRecord → KnowledgeAssetRecord)
    → Dict KnowledgeAssetRecord
    → Dict KnowledgeAssetRecord
change_asset key f [] = []
change_asset key f ((i, a) ∷ d) =
    let rest = change_asset key f d in if a.logical_key == key then (i, f a) ∷ d else (i, a) ∷ rest

-- `if job_id` of an optional id, and `if version_id`
unfoldable pub id_given : Option String → Bool
id_given none = false
id_given (some i) = not (i == "")

unfoldable pub link_knowledge_asset_to_job :
    Option String
    → String
    → String
    → List (String × String × String)
    → List (String × String × String)
link_knowledge_asset_to_job none asset_id version_id links = links
link_knowledge_asset_to_job (some job_id) asset_id version_id links =
    if job_id == "" then links else add_link (job_id, asset_id, version_id) links
  where
    add_link :
        String × String × String → List (String × String × String) → List (String × String × String)
    add_link l [] = l ∷ []
    add_link (j, a, v) ((k, b, u) ∷ ls) =
        let rest = add_link (j, a, v) ls in
        if k == j && b == a && u == v then (k, b, u) ∷ ls else (k, b, u) ∷ rest

-- `if job_id and not asset.source_job_id: asset.source_job_id = job_id`
unfoldable pub with_source_job : Option String → KnowledgeAssetRecord → KnowledgeAssetRecord
with_source_job job_id asset =
    if id_given job_id && not (id_given asset.source_job_id)
    then record asset { source_job_id = job_id }
    else asset

-- `elif not asset.target_key: asset.target_key = target_key`
unfoldable pub with_target_key : Option Text → KnowledgeAssetRecord → KnowledgeAssetRecord
with_target_key target_key asset =
    if given asset.target_key then asset else record asset { target_key = target_key }

unfoldable pub with_version : String → ℕ → Text → ℕ → KnowledgeAssetRecord → KnowledgeAssetRecord
with_version version_id version_no content_hash updated_at asset = record asset {
  current_version_id = some version_id;
  current_version_no = version_no;
  content_hash = some content_hash;
  updated_at = updated_at;
}

-- `asset.content_hash == content_hash and asset.current_version_id`
unfoldable pub has_content : KnowledgeAssetRecord → Text → Bool
has_content asset content_hash =
    elim asset.content_hash [ none ↦ false | some h ↦ h == content_hash ]
    && id_given asset.current_version_id

abbrev pub id_or_empty : Option String → String
id_or_empty none = ""
id_or_empty (some i) = i

abbrev pub set_assets :
    (Dict KnowledgeAssetRecord → Dict KnowledgeAssetRecord)
    → MemoryWorkflowRepository
    → MemoryWorkflowRepository
set_assets f s = record s { knowledge_assets = f s.knowledge_assets }

abbrev pub link :
    Option String → String → String → MemoryWorkflowRepository → MemoryWorkflowRepository
link job_id asset_id version_id s = record s {
  knowledge_job_links =
      link_knowledge_asset_to_job job_id asset_id version_id s.knowledge_job_links;
}

-- `self.jobs.get(job_id)` of an optional id
abbrev pub job_of : Option String → MemoryWorkflowRepository → Option JobRecord
job_of none s = none
job_of (some job_id) s = Dict.get s.jobs job_id

abbrev pub id_or_null : Option String → Json
id_or_null none = null
id_or_null (some i) = str (codes i)

-- the payload of the event `KNOWLEDGE_ASSET_VERSIONED`
abbrev pub versioned_payload :
    Text → Option String → Option Text → KnowledgeAssetVersionRecord → Fields
versioned_payload asset_kind job_id target_key version =
    field (codes "assetKind") (str asset_kind) (
      field (codes "versionId") (str (codes version.version_id)) (
        field (codes "versionNo") (int (pos version.version_no)) (
          field (codes "contentHash") (str version.content_hash) (
            field (codes "sourceJobId") (id_or_null job_id)
              (field (codes "targetKey") (str_or_null target_key) empty)))))
