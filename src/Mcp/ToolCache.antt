-- ===== src/Mcp/ToolCache.antt =====
-- services/mssql-mcp/mssql_mcp_app/tool_cache.py: the cache of tool results, oldest entry first.
-- `time.monotonic()` is a number of milliseconds; the hash of a key is the parameter
-- `stable_json_hash`; the environment is read by the parameter `getenv`. Payloads are values, so
-- that `copy.deepcopy` is the identity. Each method runs under the lock, as one step.
pub mod Entries
pub mod Calls
pub mod Keys
use mssql_ai_project.Base.{
  nat_beq, ℕ, zero, suc, ◌+◌, ◌-◌, ◌*◌, ◌≤◌, ◌≡◌, refl, Bool, true, false, not, ◌&&◌, ◌||◌, String,
  Option, none, some, List, [], ◌∷◌, ◌++◌, arith, elem, length, take, ltb, leb, ◌==◌, if◌then◌else◌,
}
use mssql_ai_project.Base.Dict
use mssql_ai_project.Base.Dict.{Dict}
use mssql_ai_project.Base.Text.{Text, codes, text_eq, strip, lower, is_empty}
use mssql_ai_project.Base.Int.{ℤ, pos, negsuc}
use mssql_ai_project.Base.Json
use mssql_ai_project.Base.Json.{
  Json, null, bool, int, float, str, arr, obj, Items, nil, cons, Fields, empty, field,
}
use mssql_ai_project.Base.Values.{parse_int}
use mssql_ai_project.Base.Env.{env_flag, env_int, at_least_zero}
use mssql_ai_project.Mcp.Redaction.{payload_is_cacheable}

pub data CacheStatus : Type 0 where
  disabled : CacheStatus
  miss : CacheStatus
  hit : CacheStatus
  bypass : CacheStatus

pub record MetadataToolCacheEvent : Type 0 where
  pub status : CacheStatus
  pub cache_key_hash : Text
  pub cache_age_ms : Option ℕ

abbrev pub status_text : CacheStatus → Text
status_text disabled = codes "DISABLED"
status_text miss = codes "MISS"
status_text hit = codes "HIT"
status_text bypass = codes "BYPASS"

abbrev hash_fields : Text → Fields
hash_fields [] = empty
hash_fields (c ∷ s) = field (codes "cacheKeyHash") (str (c ∷ s)) empty

abbrev age_fields : Option ℕ → Fields → Fields
age_fields none fields = fields
age_fields (some age) fields = Json.put fields (codes "cacheAgeMs") (int (pos age))

-- `MetadataToolCacheEvent.summary`
unfoldable pub summary : MetadataToolCacheEvent → Fields
summary e =
    age_fields e.cache_age_ms
      (field (codes "cacheStatus") (str (status_text e.status)) (hash_fields e.cache_key_hash))

-- `_normalize_value`: the entries of every object in the order of their keys. A key stands once in a
-- dict, so that inserting the entries one by one is the sorting.
unfoldable pub key_before : Text → Text → Bool
key_before [] t = true
key_before (c ∷ s) [] = false
key_before (c ∷ s) (d ∷ t) = if nat_beq c d then key_before s t else ltb c d

unfoldable pub insert_field : Text → Json → Fields → Fields
insert_field key value empty = field key value empty
insert_field key value (field j u d) =
    if key_before key j then field key value (field j u d) else field j u (insert_field key value d)

unfoldable mutual
  pub normalize_value : Json → Json
  normalize_value null = null
  normalize_value (bool b) = bool b
  normalize_value (int n) = int n
  normalize_value (float r) = float r
  normalize_value (str s) = str s
  normalize_value (arr vs) = arr (normalize_items vs)
  normalize_value (obj d) = obj (normalize_fields d)

  pub normalize_items : Items → Items
  normalize_items nil = nil
  normalize_items (cons v vs) = cons (normalize_value v) (normalize_items vs)

  pub normalize_fields : Fields → Fields
  normalize_fields empty = empty
  normalize_fields (field key v d) = insert_field key (normalize_value v) (normalize_fields d)

-- `cache_key_for_metadata_tool`: what is hashed.
unfoldable pub cache_key_for_metadata_tool :
    (Json → Text) → Text → Fields → Text → Text → Text → Text → Text
cache_key_for_metadata_tool stable_json_hash tool_name arguments db_profile_id source_database
      repository_mode catalog_version =
    stable_json_hash (
      obj (
        field (codes "toolName") (str tool_name) (
          field (codes "arguments") (normalize_value (obj arguments)) (
            field (codes "dbProfileId") (str db_profile_id) (
              field (codes "sourceDatabase") (str source_database) (
                field (codes "repositoryMode") (str repository_mode)
                  (field (codes "catalogVersion") (str catalog_version) empty)))))))

pub record MetadataToolCacheSettings : Type 0 where
  pub enabled : Bool
  pub ttl_seconds : ℕ
  pub max_entries : ℕ

pub record CacheEntry : Type 0 where
  pub stored_at : ℕ
  pub payload : Fields

abbrev pub Entries : Type 0
Entries = Dict CacheEntry

module _ (getenv : String → Option Text) where
  unfoldable pub load_cache_settings : MetadataToolCacheSettings
  load_cache_settings = record {
    enabled = env_flag getenv "MCP_TOOL_RESULT_CACHE_ENABLED" true;
    ttl_seconds = at_least_zero (env_int getenv "MCP_TOOL_RESULT_CACHE_TTL_SECONDS" (pos 300));
    max_entries = at_least_zero (env_int getenv "MCP_TOOL_RESULT_CACHE_MAX_ENTRIES" (pos 1024));
  }

-- `move_to_end(key)` of a present key
unfoldable pub move_to_end : Entries → String → Entries
move_to_end d key = elim (Dict.get d key) [ none ↦ d | some e ↦ Dict.remove d key ++ (key, e) ∷ [] ]

-- `while len(entries) > max_entries: entries.popitem(last=False)`
unfoldable pub evict : ℕ → Entries → Entries
evict max_entries [] = []
evict max_entries (e ∷ d) =
    let rest = evict max_entries d in if ltb max_entries (length (e ∷ d)) then rest else e ∷ d

unfoldable pub is_off : MetadataToolCacheSettings → Bool
is_off settings = not settings.enabled || leb settings.max_entries 0

-- `ttl <= 0 or now - stored_at > ttl`
unfoldable pub is_expired : MetadataToolCacheSettings → ℕ → CacheEntry → Bool
is_expired settings now e =
    leb settings.ttl_seconds 0 || ltb (settings.ttl_seconds * 1000) (now - e.stored_at)

module _ (stable_json_hash : String → Text) (settings : MetadataToolCacheSettings) where
  abbrev pub event : CacheStatus → String → Option ℕ → MetadataToolCacheEvent
  event status key age = record {
    status = status;
    cache_key_hash = take 16 (stable_json_hash key);
    cache_age_ms = age;
  }

  abbrev pub lookup :
      ℕ → String → Option CacheEntry → Entries → (Option Fields × MetadataToolCacheEvent) × Entries
  lookup now key none d = ((none, event miss key none), d)
  lookup now key (some e) d =
      if is_expired settings now e
      then ((none, event miss key none), Dict.remove d key)
      else ((some e.payload, event hit key (some (now - e.stored_at))), move_to_end d key)

  unfoldable pub get : ℕ → String → Entries → (Option Fields × MetadataToolCacheEvent) × Entries
  get now key d =
      if is_off settings
      then ((none, event disabled key none), d)
      else lookup now key (Dict.get d key) d

  unfoldable pub put : ℕ → String → Fields → Entries → MetadataToolCacheEvent × Entries
  put now key payload d =
      if is_off settings
      then (event disabled key none, d)
      else if not (payload_is_cacheable payload)
      then (event bypass key none, d)
      else let stored : Entries = Dict.put d key (record { stored_at = now; payload = payload }) in
        (event miss key none, evict settings.max_entries (move_to_end stored key))

unfoldable pub clear : Entries → Entries
clear d = []
