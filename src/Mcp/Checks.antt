-- ===== src/Mcp/Checks.antt =====
-- services/mssql-mcp/mssql_mcp_app at concrete inputs.
mod Schema
mod Registry
use mssql_ai_project.Base.{
  ◌-◌, ◌*◌, ◌≤◌, ◌≡◌, ◌≢◌, ◌↔◌, refl, true, false, String, some, List, [], ◌∷◌, ◌++◌, length, elem,
  arith,
}
use mssql_ai_project.Base.Dict
use mssql_ai_project.Base.Text.{Text, codes, text_eq, lower}
use mssql_ai_project.Base.Json
use mssql_ai_project.Base.Json.{Json, bool, str, arr, obj, Items, Fields, empty, field, nil, cons}
use mssql_ai_project.Base.Result.{ok}
use mssql_ai_project.Mcp.Guardrails.{
  enforce_read_only_arguments, NothingRefused, enforce_read_only_arguments_iff,
}
use mssql_ai_project.Mcp.Redaction.{
  payload_is_cacheable, payload_is_cacheable_lem, entry, next_entry, below, in_object, is_true,
  forbidden_cache_keys, normalized_key, is_sql_key, key_is_forbidden,
  contains_forbidden_cache_value,
}
use mssql_ai_project.Mcp.ToolCache.{
  cache_key_for_metadata_tool, CacheEntry, Entries, MetadataToolCacheSettings, event, hit, is_off,
  is_expired, get, put, evict, move_to_end,
}
use mssql_ai_project.Mcp.ToolCache.Keys.{
  SameFields, same_entry, swap, join, no_fields, same, same_obj,
  cache_key_for_metadata_tool-SameFields,
}
use mssql_ai_project.Mcp.ToolCache.Entries.{get-put_hit, get-served}
use mssql_ai_project.Mcp.ToolCache.Calls.{
  Call, get_call, put_call, perform, perform_all, get-cacheable, perform_all-bounded,
}

abbrev arguments : Json
arguments =
    obj (field (codes "filter") (arr (cons (obj (field (codes " SQL ") (str []) empty)) nil)) empty)

enforce_read_only_arguments_iff_example :
    (enforce_read_only_arguments (codes "arguments.sql" ∷ []) arguments (codes "arguments") ≡ ok tt)
    ↔ NothingRefused (codes "arguments.sql" ∷ []) arguments (codes "arguments")
enforce_read_only_arguments_iff_example =
    enforce_read_only_arguments_iff (codes "arguments.sql" ∷ []) arguments (codes "arguments")

abbrev column : Fields
column = field (codes "type") (str (codes "int")) empty

abbrev payload : Fields
payload = field (codes "ok") (bool true) (field (codes "column") (obj column) empty)

payload_passes : payload_is_cacheable payload ≡ true
unfolding payload_is_cacheable is_true Json.get contains_forbidden_cache_value key_is_forbidden elem
    forbidden_cache_keys normalized_key lower is_sql_key
payload_passes = refl

payload_is_cacheable_lem_example :
    (is_true (Json.get payload (codes "ok")) ≡ true)
    × (key_is_forbidden (codes "type") ≡ false)
    × (contains_forbidden_cache_value (str (codes "int")) (codes "type") ≡ false)
payload_is_cacheable_lem_example =
    payload_is_cacheable_lem payload (codes "type") (str (codes "int")) payload_passes
      (next_entry (below (in_object entry)))

abbrev settings : MetadataToolCacheSettings
settings = record { enabled = true; ttl_seconds = 1; max_entries = 1 }

abbrev hash : String → Text
hash = codes

abbrev held : Entries
held = ("old", record { stored_at = 0; payload = payload }) ∷ []

settings_on : is_off settings ≡ false
unfolding is_off
settings_on = refl

get-put_hit_example :
    (get hash settings 600 "new" (put hash settings 100 "new" payload held).1).0
    ≡ (some payload, event hash settings hit "new" (some (600 - 100)))
get-put_hit_example =
    get-put_hit hash settings 100 600 "new" payload held settings_on payload_passes (omega arith)
      (omega arith)

served : (get hash settings 600 "old" held).0.0 ≡ some payload
unfolding get is_off Dict.get is_expired
served = refl

get-served_example :
    (e : CacheEntry) × (Dict.get held "old" ≡ some e)
    × (e.payload ≡ payload)
    × (600 - e.stored_at ≤ settings.ttl_seconds * 1000)
get-served_example = get-served hash settings 600 "old" payload held served

abbrev calls : List Call
calls =
    put_call settings 100 "a" payload
    ∷ get_call settings 200 "a"
    ∷ put_call settings 300 "b" payload
    ∷ []

served_after : (get hash settings 600 "b" (perform_all hash calls [])).0.0 ≡ some payload
unfolding get perform_all is_off Dict.get is_expired perform put payload_is_cacheable is_true
    Json.get contains_forbidden_cache_value key_is_forbidden elem forbidden_cache_keys
    normalized_key lower is_sql_key evict move_to_end Dict.put Dict.remove
served_after = refl

get-cacheable_example : payload_is_cacheable payload ≡ true
get-cacheable_example = get-cacheable hash calls settings 600 "b" payload served_after

perform_all-bounded_example : length (perform_all hash calls []) ≤ 1
perform_all-bounded_example =
    perform_all-bounded hash 1 calls (omega arith, (tt, (omega arith, tt)))

different_keys : codes "schema" ≢ codes "name"
different_keys = λ e. ground arith

-- The arguments of a call, and the same in another order, the dict inside them included.
abbrev filter_in_order : Fields
filter_in_order =
    field (codes "schema") (str (codes "dbo")) (field (codes "name") (str (codes "t")) empty)

abbrev filter_swapped : Fields
filter_swapped =
    field (codes "name") (str (codes "t")) (field (codes "schema") (str (codes "dbo")) empty)

abbrev given_first : Fields
given_first =
    field (codes "schema") (obj filter_in_order)
      (field (codes "name") (str (codes "x")) (field (codes "limit") (str []) empty))

abbrev given_second : Fields
given_second =
    field (codes "name") (str (codes "x"))
      (field (codes "schema") (obj filter_swapped) (field (codes "limit") (str []) empty))

same_arguments : SameFields given_first given_second
same_arguments =
    join
      (same_entry (codes "schema")
        (same_obj (
          swap (codes "schema") (codes "name") (str (codes "dbo")) (str (codes "t")) empty
            different_keys))
        (same_entry (codes "name") (same (str (codes "x")))
          (same_entry (codes "limit") (same (str [])) no_fields)))
      (swap (codes "schema") (codes "name") (obj filter_swapped) (str (codes "x"))
        (field (codes "limit") (str []) empty) different_keys)

-- A hash that tells values apart: every key, text and bracket in a row.
mutual
  json_text : Json → Text
  json_text (str s) = 34 ∷ s
  json_text (arr vs) = 91 ∷ items_text vs
  json_text (obj d) = 123 ∷ fields_text d
  json_text _ = 48 ∷ []

  items_text : Items → Text
  items_text nil = 93 ∷ []
  items_text (cons v vs) = json_text v ++ items_text vs

  fields_text : Fields → Text
  fields_text empty = 125 ∷ []
  fields_text (field k v d) = k ++ 58 ∷ json_text v ++ fields_text d

cache_key_for_metadata_tool-SameFields_example :
    cache_key_for_metadata_tool json_text
      (codes "describe_table")
      given_first
      (codes "dev")
      (codes "Sales")
      (codes "live")
      (codes "1")
    ≡ cache_key_for_metadata_tool json_text
        (codes "describe_table")
        given_second
        (codes "dev")
        (codes "Sales")
        (codes "live")
        (codes "1")
cache_key_for_metadata_tool-SameFields_example =
    cache_key_for_metadata_tool-SameFields json_text (codes "describe_table") given_first
      given_second (codes "dev") (codes "Sales") (codes "live") (codes "1") same_arguments
