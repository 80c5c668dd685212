-- ===== src/Repository/Knowledge/Queries.antt =====
-- The reads of knowledge assets, versions and facts. The links are a set, whose order of iteration
-- is that of insertion here; what is read of it does not depend on the order where an asset has no
-- two versions with one number.
use mssql_ai_project.Base.{
  ℕ, String, Bool, true, not, ◌&&◌, ◌||◌, Option, none, some, List, [], ◌∷◌, ◌++◌, ◌==◌, string_eq,
  nat_eq, filter, map, take, min, max, ltb, if◌then◌else◌,
}
use mssql_ai_project.Base.Dict
use mssql_ai_project.Base.Dict.{Dict}
use mssql_ai_project.Base.Int.{ℤ, pos, negsuc}
use mssql_ai_project.Base.Sort.{sort_by, key_ltb}
use mssql_ai_project.Base.Text.{Text, codes, text_eq, lower, is_empty, is_substring}
use mssql_ai_project.Repository.Records.{
  KnowledgeAssetRecord, KnowledgeFactRecord, KnowledgeEdgeRecord, KnowledgeAssetVersionRecord,
  KnowledgeFactSearchRecord,
}
use mssql_ai_project.Repository.State.{MemoryWorkflowRepository}

-- `_asset_with_version_state`
unfoldable pub asset_with_version_state :
    KnowledgeAssetRecord → Option KnowledgeAssetVersionRecord → KnowledgeAssetRecord
asset_with_version_state asset none = asset
asset_with_version_state asset (some version) = record asset {
  current_version_id = some version.version_id;
  current_version_no = version.version_no;
  content_hash = some version.content_hash;
  lifecycle_status = version.lifecycle_status;
  archived_at = version.archived_at;
}

-- `wanted is None or value == wanted`
unfoldable pub matches : Option Text → Text → Bool
matches none value = true
matches (some wanted) value = value == wanted

-- `not (wanted and value != wanted)`
unfoldable pub matches_given : Option Text → Text → Bool
matches_given none value = true
matches_given (some wanted) value = is_empty wanted || value == wanted

pub record AssetFilters : Type 0 where
  pub asset_kind : Option Text
  pub db_profile_id : Option Text
  pub target_type : Option Text
  pub target_schema : Option Text
  pub target_name : Option Text
  pub lifecycle_status : Option Text

unfoldable pub asset_matches_filters : AssetFilters → KnowledgeAssetRecord → Bool
asset_matches_filters f asset =
    matches f.asset_kind asset.asset_kind
    && matches f.db_profile_id asset.db_profile_id
    && matches f.target_type asset.target_type
    && matches f.target_schema asset.target_schema
    && matches f.target_name asset.target_name
    && matches f.lifecycle_status asset.lifecycle_status

-- `not (wanted is None and status == "ARCHIVED")`
unfoldable pub is_shown : Option Text → Text → Bool
is_shown none status = not (status == codes "ARCHIVED")
is_shown (some wanted) status = true

-- `max(1, min(int(limit), 200))`
unfoldable pub up_to_200 : ℤ → ℕ
up_to_200 (pos n) = max 1 (min n 200)
up_to_200 (negsuc n) = 1

-- the version that an asset names, if it names one
unfoldable pub current_version :
    KnowledgeAssetRecord → MemoryWorkflowRepository → Option KnowledgeAssetVersionRecord
current_version asset s = elim asset.current_version_id [
  | none ↦ none
  | some i ↦ if i == "" then none else Dict.get s.knowledge_versions i
]

unfoldable pub with_state : MemoryWorkflowRepository → KnowledgeAssetRecord → KnowledgeAssetRecord
with_state s asset = asset_with_version_state asset (current_version asset s)

unfoldable pub get_knowledge_asset : String → MemoryWorkflowRepository → Option KnowledgeAssetRecord
get_knowledge_asset asset_id s = elim (Dict.get s.knowledge_assets asset_id) [
  | none ↦ none
  | some asset ↦ some (with_state s asset)
]

-- `reverse=True`
abbrev pub later_asset : KnowledgeAssetRecord → KnowledgeAssetRecord → Bool
later_asset a b = key_ltb (b.updated_at, b.asset_id) (a.updated_at, a.asset_id)

unfoldable pub list_knowledge_assets :
    AssetFilters → ℤ → MemoryWorkflowRepository → List KnowledgeAssetRecord
list_knowledge_assets filters limit s = take (up_to_200 limit) (
    sort_by later_asset (
      filter
        (λ asset.
          asset_matches_filters filters asset
          && is_shown filters.lifecycle_status asset.lifecycle_status)
        (map (with_state s) (Dict.values s.knowledge_assets))))

-- `existing is None or version.version_no > existing.version_no`
abbrev pub is_later : KnowledgeAssetVersionRecord → Option KnowledgeAssetVersionRecord → Bool
is_later version none = true
is_later version (some existing) = ltb existing.version_no version.version_no

-- One round of the loop over the links.
unfoldable pub linked_version :
    String
    → Dict KnowledgeAssetVersionRecord
    → String × String × String
    → Dict KnowledgeAssetVersionRecord
    → Dict KnowledgeAssetVersionRecord
linked_version job_id versions (linked_job_id, asset_id, version_id) latest =
    elim (Dict.get versions version_id) [
      | none ↦ latest
      | some version ↦
          if linked_job_id == job_id && is_later version (Dict.get latest asset_id)
          then Dict.put latest asset_id version
          else latest
    ]

unfoldable pub latest_linked_versions :
    String
    → Dict KnowledgeAssetVersionRecord
    → List (String × String × String)
    → Dict KnowledgeAssetVersionRecord
    → Dict KnowledgeAssetVersionRecord
latest_linked_versions job_id versions [] latest = latest
latest_linked_versions job_id versions (l ∷ links) latest =
    latest_linked_versions job_id versions links (linked_version job_id versions l latest)

unfoldable pub linked_assets :
    Dict KnowledgeAssetRecord → Dict KnowledgeAssetVersionRecord → List KnowledgeAssetRecord
linked_assets assets [] = []
linked_assets assets ((asset_id, version) ∷ latest) =
    let rest = linked_assets assets latest in
    elim (Dict.get assets asset_id) [
      | none ↦ rest
      | some asset ↦ asset_with_version_state asset (some version) ∷ rest
    ]

unfoldable pub list_job_knowledge_assets :
    String → MemoryWorkflowRepository → Option (List KnowledgeAssetRecord)
list_job_knowledge_assets job_id s =
    if Dict.contains s.jobs job_id
    then some (
        sort_by later_asset (
          linked_assets s.knowledge_assets
            (latest_linked_versions job_id s.knowledge_versions s.knowledge_job_links [])))
    else none

unfoldable pub list_knowledge_asset_versions :
    String → MemoryWorkflowRepository → Option (List KnowledgeAssetVersionRecord)
list_knowledge_asset_versions asset_id s =
    if Dict.contains s.knowledge_assets asset_id
    then some (
        sort_by
          (λ (a : KnowledgeAssetVersionRecord) (b : KnowledgeAssetVersionRecord).
            ltb b.version_no a.version_no)
          (filter (λ (version : KnowledgeAssetVersionRecord). version.asset_id == asset_id)
            (Dict.values s.knowledge_versions)))
    else none

-- `None if version is None or version.asset_id != asset_id`
unfoldable pub version_of_asset :
    String → Option KnowledgeAssetVersionRecord → Option KnowledgeAssetVersionRecord
version_of_asset asset_id none = none
version_of_asset asset_id (some version) =
    if version.asset_id == asset_id then some version else none

unfoldable pub get_knowledge_asset_version :
    String → String → MemoryWorkflowRepository → Option KnowledgeAssetVersionRecord
get_knowledge_asset_version asset_id version_id s =
    if Dict.contains s.knowledge_assets asset_id
    then version_of_asset asset_id (Dict.get s.knowledge_versions version_id)
    else none

unfoldable pub list_knowledge_facts :
    String
    → String
    → MemoryWorkflowRepository
    → Option (List KnowledgeFactRecord × List KnowledgeEdgeRecord)
list_knowledge_facts asset_id version_id s =
    elim (get_knowledge_asset_version asset_id version_id s) [
      | none ↦ none
      | some version ↦ some (version.facts, version.edges)
    ]

pub record FactFilters : Type 0 where
  pub object_ref : Option Text
  pub fact_type : Option Text
  pub status : Option Text
  pub asset_kind : Option Text
  pub target_name : Option Text
  pub lifecycle_status : Option Text

abbrev pub text_of_filter : Option Text → Text
text_of_filter none = []
text_of_filter (some s) = s

unfoldable pub version_matches :
    FactFilters → KnowledgeAssetRecord → KnowledgeAssetVersionRecord → Bool
version_matches f asset version =
    is_shown f.lifecycle_status version.lifecycle_status
    && matches_given f.lifecycle_status version.lifecycle_status
    && matches_given f.asset_kind asset.asset_kind
    && matches_given f.target_name asset.target_name

unfoldable pub fact_matches : FactFilters → KnowledgeFactRecord → Bool
fact_matches f fact =
    (is_empty (lower (text_of_filter f.object_ref))
      || is_substring (lower (text_of_filter f.object_ref)) (lower fact.object_ref))
    && matches_given f.fact_type fact.fact_type
    && matches_given f.status fact.status

unfoldable pub facts_of_version :
    FactFilters
    → Option KnowledgeAssetRecord
    → KnowledgeAssetVersionRecord
    → List KnowledgeFactSearchRecord
facts_of_version f none version = []
facts_of_version f (some asset) version =
    if version_matches f asset version
    then map
        (λ fact. record {
          asset_id = asset.asset_id;
          asset_kind = asset.asset_kind;
          version_id = version.version_id;
          lifecycle_status = version.lifecycle_status;
          fact = fact;
        })
        (filter (fact_matches f) version.facts)
    else []

unfoldable pub found_facts :
    FactFilters
    → Dict KnowledgeAssetRecord
    → List KnowledgeAssetVersionRecord
    → List KnowledgeFactSearchRecord
found_facts f assets [] = []
found_facts f assets (version ∷ versions) =
    facts_of_version f (Dict.get assets version.asset_id) version ++ found_facts f assets versions

unfoldable pub search_knowledge_facts :
    FactFilters → ℤ → MemoryWorkflowRepository → List KnowledgeFactSearchRecord
search_knowledge_facts f limit s =
    take (up_to_200 limit) (found_facts f s.knowledge_assets (Dict.values s.knowledge_versions))
