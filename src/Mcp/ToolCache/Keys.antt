-- ===== src/Mcp/ToolCache/Keys.antt =====
-- services/mssql-mcp/mssql_mcp_app/tool_cache.py, cache_key_for_metadata_tool: which calls share a key.
use mssql_ai_project.Base.{◌≡◌, ◌≢◌, refl, true, false, [], ◌∷◌, arith, nat_beq_iff, ◌∙◌, ap}
use mssql_ai_project.Base.Text.{Text}
use mssql_ai_project.Base.Json.{Json, arr, obj, Items, nil, cons, Fields, empty, field}
use mssql_ai_project.Mcp.ToolCache.{
  key_before, insert_field, normalize_value, normalize_items, normalize_fields,
  cache_key_for_metadata_tool,
}

key_before_antisym : (s t : Text) → key_before s t ≡ true → key_before t s ≡ true → s ≡ t
unfolding key_before
key_before_antisym [] [] h g = refl
key_before_antisym [] (d ∷ t) h g = ground arith
key_before_antisym (c ∷ s) [] h g = ground arith
key_before_antisym (c ∷ s) (d ∷ t) h g =
    ground (arith, key_before_antisym s t, nat_beq_iff c d, nat_beq_iff d c)

key_before_total : (s t : Text) → key_before s t ≡ false → key_before t s ≡ true
unfolding key_before
key_before_total [] t h = ground arith
key_before_total (c ∷ s) [] h = refl
key_before_total (c ∷ s) (d ∷ t) h =
    ground (arith, key_before_total s t, nat_beq_iff c d, nat_beq_iff d c)

key_before_trans :
    (s t u : Text) → key_before s t ≡ true → key_before t u ≡ true → key_before s u ≡ true
unfolding key_before
key_before_trans [] t u h g = refl
key_before_trans (c ∷ s) [] u h g = ground arith
key_before_trans (c ∷ s) (d ∷ t) [] h g = ground arith
key_before_trans (c ∷ s) (d ∷ t) (e ∷ u) h g =
    ground (arith, key_before_trans s t u, nat_beq_iff c d, nat_beq_iff d e, nat_beq_iff c e)

insert_field-swap :
    (s t : Text) (u v : Json) (d : Fields)
    → s ≢ t
    → insert_field s u (insert_field t v d) ≡ insert_field t v (insert_field s u d)
unfolding insert_field
insert_field-swap s t u v empty n = ground (arith, key_before_antisym s t, key_before_total s t)
insert_field-swap s t u v (field k w d) n = ground (
  arith,
  key_before_antisym s t,
  key_before_total s t,
  key_before_total t s,
  key_before_total s k,
  key_before_total t k,
  key_before_trans s t k,
  key_before_trans t s k,
  insert_field-swap s t u v d n,
)

-- The same JSON up to the order of the entries of its objects, at any depth. Entries change places
-- where their keys differ, as all keys of one dict do.
mutual
  pub data SameJson : Json → Json → Type 0 where
    same : (v : Json) → SameJson v v
    same_arr : {vs us : Items} → SameItems vs us → SameJson (arr vs) (arr us)
    same_obj : {d e : Fields} → SameFields d e → SameJson (obj d) (obj e)

  pub data SameItems : Items → Items → Type 0 where
    no_items : SameItems nil nil
    item :
        {v u : Json} {vs us : Items}
        → SameJson v u
        → SameItems vs us
        → SameItems (cons v vs) (cons u us)

  pub data SameFields : Fields → Fields → Type 0 where
    no_fields : SameFields empty empty
    same_entry :
        {v u : Json} {d e : Fields} (k : Text)
        → SameJson v u
        → SameFields d e
        → SameFields (field k v d) (field k u e)
    swap :
        (s t : Text) (u v : Json) (d : Fields)
        → s ≢ t
        → SameFields (field s u (field t v d)) (field t v (field s u d))
    join : {d e f : Fields} → SameFields d e → SameFields e f → SameFields d f

mutual
  unfolding normalize_value normalize_items normalize_fields

  normalize_value-SameJson : {v u : Json} → SameJson v u → normalize_value v ≡ normalize_value u
  normalize_value-SameJson (same v) = refl
  normalize_value-SameJson (same_arr h) = ap arr (normalize_items-SameItems h)
  normalize_value-SameJson (same_obj h) = ap obj (normalize_fields-SameFields h)

  normalize_items-SameItems :
      {vs us : Items} → SameItems vs us → normalize_items vs ≡ normalize_items us
  normalize_items-SameItems no_items = refl
  normalize_items-SameItems (item h hs) =
      cc (normalize_value-SameJson h, normalize_items-SameItems hs)

  normalize_fields-SameFields :
      {d e : Fields} → SameFields d e → normalize_fields d ≡ normalize_fields e
  normalize_fields-SameFields no_fields = refl
  normalize_fields-SameFields (same_entry k h hs) =
      cc (normalize_value-SameJson h, normalize_fields-SameFields hs)
  normalize_fields-SameFields (swap s t u v d n) =
      insert_field-swap s t (normalize_value u) (normalize_value v) (normalize_fields d) n
  normalize_fields-SameFields (join h g) =
      normalize_fields-SameFields h ∙ normalize_fields-SameFields g

-- Two calls of a tool whose arguments differ only in the order of the entries of the dicts, that of
-- the arguments themselves and any inside them, have one cache key, whatever the hash.
pub cache_key_for_metadata_tool-SameFields :
    (stable_json_hash : Json → Text) (tool_name : Text) (d e : Fields)
    (profile database mode version : Text)
    → SameFields d e
    → cache_key_for_metadata_tool stable_json_hash tool_name d profile database mode version
      ≡ cache_key_for_metadata_tool stable_json_hash tool_name e profile database mode version
unfolding cache_key_for_metadata_tool normalize_value
cache_key_for_metadata_tool-SameFields stable_json_hash tool_name d e profile database mode version
      h =
    rw (normalize_fields-SameFields h) refl
