-- ===== src/Mcp/Redaction.antt =====
-- services/mssql-mcp/mssql_mcp_app/tool_cache.py, payload_is_cacheable: what a payload must not hold
-- to be kept in the cache.
use mssql_ai_project.Base.{
  ◌≡◌, Bool, true, false, not, ◌&&◌, ◌||◌, List, [], ◌∷◌, map, arith, elem, nat_beq, Option, none,
  some, if◌then◌else◌,
}
use mssql_ai_project.Base.Text.{Text, codes, text_eq, strip, lower, is_empty, is_substring}
use mssql_ai_project.Base.Json
use mssql_ai_project.Base.Json.{
  Json, null, bool, int, float, str, arr, obj, Items, nil, cons, Fields, empty, field,
}

unfoldable pub forbidden_cache_keys : List Text
forbidden_cache_keys =
    codes "raw_definition"
    ∷ codes "rawsql"
    ∷ codes "raw_sql"
    ∷ codes "sqltext"
    ∷ codes "sql_text"
    ∷ codes "rowdata"
    ∷ codes "row_data"
    ∷ codes "rows"
    ∷ codes "records"
    ∷ codes "password"
    ∷ codes "secret"
    ∷ codes "token"
    ∷ codes "apikey"
    ∷ codes "api_key"
    ∷ codes "connectionstring"
    ∷ codes "connection_string"
    ∷ codes "credential"
    ∷ []

unfoldable pub raw_sql_markers : List Text
raw_sql_markers =
    codes "create procedure"
    ∷ codes "alter procedure"
    ∷ codes "create proc"
    ∷ codes "alter proc"
    ∷ codes "create view"
    ∷ codes "alter view"
    ∷ codes "create function"
    ∷ codes "alter function"
    ∷ codes "select "
    ∷ codes "insert "
    ∷ codes "update "
    ∷ codes "delete "
    ∷ codes "merge "
    ∷ codes "exec "
    ∷ codes "execute "
    ∷ []

unfoldable pub any_marker : List Text → Text → Bool
any_marker [] text = false
any_marker (marker ∷ markers) text = is_substring marker text || any_marker markers text

unfoldable pub looks_like_raw_sql_definition : Text → Bool
looks_like_raw_sql_definition value =
    let text : Text = lower (strip value) in
    if is_empty text then false else any_marker raw_sql_markers text

-- `key.replace("-", "_").lower()`
unfoldable pub normalized_key : Text → Text
normalized_key key = lower (map (λ c. if nat_beq c b'-' then b'_' else c) key)

unfoldable pub is_sql_key : Text → Bool
is_sql_key key =
    elem key (codes "definition" ∷ codes "sql" ∷ codes "statement" ∷ codes "command" ∷ [])

unfoldable pub key_is_forbidden : Text → Bool
key_is_forbidden key = elem (normalized_key key) forbidden_cache_keys

unfoldable mutual
  pub contains_forbidden_cache_value : Json → Text → Bool
  contains_forbidden_cache_value null key = key_is_forbidden key
  contains_forbidden_cache_value (bool b) key = key_is_forbidden key
  contains_forbidden_cache_value (int n) key = key_is_forbidden key
  contains_forbidden_cache_value (float r) key = key_is_forbidden key
  contains_forbidden_cache_value (str s) key =
      key_is_forbidden key || is_sql_key (normalized_key key) && looks_like_raw_sql_definition s
  contains_forbidden_cache_value (arr vs) key = key_is_forbidden key || any_item vs
  contains_forbidden_cache_value (obj d) key = key_is_forbidden key || any_field d

  pub any_item : Items → Bool
  any_item nil = false
  any_item (cons v vs) = contains_forbidden_cache_value v [] || any_item vs

  pub any_field : Fields → Bool
  any_field empty = false
  any_field (field k v d) = contains_forbidden_cache_value v k || any_field d

-- `value is True`
unfoldable pub is_true : Option Json → Bool
is_true none = false
is_true (some null) = false
is_true (some (bool b)) = b
is_true (some (int n)) = false
is_true (some (float r)) = false
is_true (some (str s)) = false
is_true (some (arr vs)) = false
is_true (some (obj d)) = false

unfoldable pub payload_is_cacheable : Fields → Bool
payload_is_cacheable payload =
    is_true (Json.get payload (codes "ok")) && not (contains_forbidden_cache_value (obj payload) [])

-- The entries of an object, those of the objects and the lists below it included.
mutual
  pub data Within : Text → Json → Fields → Type 0 where
    entry : {k : Text} {v : Json} {d : Fields} → Within k v (field k v d)
    next_entry : {k j : Text} {v u : Json} {d : Fields} → Within k v d → Within k v (field j u d)
    below : {k j : Text} {v u : Json} {d : Fields} → WithinValue k v u → Within k v (field j u d)

  pub data WithinValue : Text → Json → Json → Type 0 where
    in_object : {k : Text} {v : Json} {d : Fields} → Within k v d → WithinValue k v (obj d)
    in_list : {k : Text} {v : Json} {vs : Items} → WithinItems k v vs → WithinValue k v (arr vs)

  pub data WithinItems : Text → Json → Items → Type 0 where
    first : {k : Text} {v u : Json} {vs : Items} → WithinValue k v u → WithinItems k v (cons u vs)
    later : {k : Text} {v u : Json} {vs : Items} → WithinItems k v vs → WithinItems k v (cons u vs)

neither : (a b : Bool) → (a || b) ≡ false → (a ≡ false) × (b ≡ false)
neither a b h = ground arith

module _ (k : Text) (v : Json) where
  mutual
    unfolding contains_forbidden_cache_value any_item any_field

    entry_allowed :
        (d : Fields)
        → any_field d ≡ false
        → Within k v d
        → contains_forbidden_cache_value v k ≡ false
    entry_allowed empty h i = elim i [ ]
    entry_allowed (field _ _ d) h entry = (neither _ (any_field d) h).0
    entry_allowed (field j u d) h (next_entry i) =
        entry_allowed d (neither (contains_forbidden_cache_value u j) (any_field d) h).1 i
    entry_allowed (field j u d) h (below i) =
        below_allowed u j (neither (contains_forbidden_cache_value u j) (any_field d) h).0 i

    below_allowed :
        (u : Json) (j : Text)
        → contains_forbidden_cache_value u j ≡ false
        → WithinValue k v u
        → contains_forbidden_cache_value v k ≡ false
    below_allowed null j h i = elim i [ ]
    below_allowed (bool b) j h i = elim i [ ]
    below_allowed (int n) j h i = elim i [ ]
    below_allowed (float r) j h i = elim i [ ]
    below_allowed (str s) j h i = elim i [ ]
    below_allowed (obj d) j h (in_object i) =
        entry_allowed d (neither (key_is_forbidden j) (any_field d) h).1 i
    below_allowed (arr vs) j h (in_list i) =
        item_allowed vs (neither (key_is_forbidden j) (any_item vs) h).1 i

    item_allowed :
        (vs : Items)
        → any_item vs ≡ false
        → WithinItems k v vs
        → contains_forbidden_cache_value v k ≡ false
    item_allowed nil h i = elim i [ ]
    item_allowed (cons u vs) h (first i) =
        below_allowed u [] (neither (contains_forbidden_cache_value u []) (any_item vs) h).0 i
    item_allowed (cons u vs) h (later i) =
        item_allowed vs (neither (contains_forbidden_cache_value u []) (any_item vs) h).1 i

-- A value that passes under a key: the key is not a forbidden one.
key_allowed :
    (v : Json) (k : Text) → contains_forbidden_cache_value v k ≡ false → key_is_forbidden k ≡ false
unfolding contains_forbidden_cache_value
key_allowed null k h = h
key_allowed (bool b) k h = h
key_allowed (int n) k h = h
key_allowed (float r) k h = h
key_allowed (str s) k h = (neither (key_is_forbidden k) _ h).0
key_allowed (arr vs) k h = (neither (key_is_forbidden k) _ h).0
key_allowed (obj d) k h = (neither (key_is_forbidden k) _ h).0

both : (a b : Bool) → (a && not b) ≡ true → (a ≡ true) × (b ≡ false)
both a b h = ground arith

-- A payload that is cacheable says that the tool succeeded, and an entry at any depth of it, below
-- lists too, is not under a forbidden key and is no forbidden value.
pub payload_is_cacheable_lem :
    (payload : Fields) (k : Text) (v : Json)
    → payload_is_cacheable payload ≡ true
    → Within k v payload
    → (is_true (Json.get payload (codes "ok")) ≡ true)
      × (key_is_forbidden k ≡ false)
      × (contains_forbidden_cache_value v k ≡ false)
payload_is_cacheable_lem payload k v h i =
    let (succeeded, clean) =
      both (is_true (Json.get payload (codes "ok")))
        (contains_forbidden_cache_value (obj payload) []) (unfold payload_is_cacheable in h) in
    let allowed = below_allowed k v (obj payload) [] clean (in_object i) in
    (succeeded, key_allowed v k allowed, allowed)
