-- ===== src/Mcp/Schema/Objects.antt =====
-- The schemas of arrays and objects, given the validators of what is inside.
use mssql_ai_project.Base.{
  ℕ, suc, Bool, true, false, not, Option, none, some, List, [], ◌∷◌, ◌==◌, if◌then◌else◌, is_some,
  filter, ltb, nat_beq,
}
use mssql_ai_project.Base.Text.{Text, codes, text_eq, is_empty}
use mssql_ai_project.Base.Sort.{sort_by}
use mssql_ai_project.Base.Json
use mssql_ai_project.Base.Json.{
  Json, null, bool, int, float, str, arr, obj, Items, nil, cons, Fields, empty, field,
}
use mssql_ai_project.Base.Result.{Result, ok, err, ◌>>=◌}
use mssql_ai_project.Mcp.Guardrails.{nested_path, item_path}
use mssql_ai_project.Mcp.Schema.Scalars.{
  SchemaError, invalid, type_error, key_error, Validator, must_be_an_array,
  schema_items_must_be_an_object, must_be_an_object, schema_properties_must_be_an_object,
  unsupported_arguments, missing_required_arguments,
}

-- the list comprehension over `enumerate(value)`
unfoldable pub validate_all : Validator → Items → Text → ℕ → Result SchemaError Items
validate_all f nil path index = ok nil
validate_all f (cons v vs) path index = do
  w ← f v (item_path path index) true
  ws ← validate_all f vs path (suc index)
  ok (cons w ws)

-- `isinstance(schema.get(key, {}), dict)`
unfoldable pub is_mapping : Option Json → Bool
is_mapping none = true
is_mapping (some (obj d)) = true
is_mapping (some v) = false

unfoldable pub validate_array : Option Json → Validator → Validator
validate_array items f (arr vs) path required =
    if is_mapping items
    then (validate_all f vs path 0 >>= λ ws. ok (arr ws))
    else err (invalid path schema_items_must_be_an_object)
validate_array items f value path required = err (invalid path must_be_an_array)

-- The members of `set(value)`, in the order of the value. Lists and dicts have no hash.
unfoldable pub members : Items → Result SchemaError (List Json)
members nil = ok []
members (cons (arr v) vs) = err type_error
members (cons (obj v) vs) = err type_error
members (cons v vs) = do ws ← members vs; ok (v ∷ ws)

unfoldable pub keys_of : Fields → List Text
keys_of empty = []
keys_of (field k v d) = k ∷ keys_of d

unfoldable strings : List Text → List Json
strings [] = []
strings (k ∷ ks) = str k ∷ strings ks

unfoldable characters : Text → List Json
characters [] = []
characters (c ∷ s) = str (c ∷ []) ∷ characters s

-- `set(schema.get("required", []))`
unfoldable pub required_keys : Option Json → Result SchemaError (List Json)
unfolding strings characters
required_keys none = ok []
required_keys (some (arr vs)) = members vs
required_keys (some (str s)) = ok (characters s)
required_keys (some (obj d)) = ok (strings (keys_of d))
required_keys (some v) = err type_error

-- `key in required_keys`
unfoldable pub is_required : List Json → Text → Bool
is_required [] key = false
is_required (str k ∷ ks) key = let rest = is_required ks key in if k == key then true else rest
is_required (v ∷ ks) key = is_required ks key

-- `if key not in normalized and isinstance(property_schema, dict) and "default" in property_schema`
unfoldable pub with_default : Text → Json → Fields → Fields
with_default key (obj schema) normalized =
    if is_some (Json.get normalized key)
    then normalized
    else elim (Json.get schema (codes "default")) [
      | none ↦ normalized
      | some v ↦ Json.put normalized key v
    ]
with_default key schema normalized = normalized

unfoldable pub with_defaults : Fields → Fields → Fields
with_defaults empty normalized = normalized
with_defaults (field key schema d) normalized = with_defaults d (with_default key schema normalized)

-- A value that counts as missing under a required key: none, `None` or `""`.
unfoldable pub is_blank : Option Json → Bool
is_blank none = true
is_blank (some null) = true
is_blank (some (str s)) = is_empty s
is_blank (some v) = false

-- `key not in normalized or normalized[key] is None or normalized[key] == ""`; the keys of
-- a decoded object are texts
unfoldable pub is_missing : Fields → Json → Bool
is_missing normalized (str key) = is_blank (Json.get normalized key)
is_missing normalized key = true

unfoldable pub validator_at : List (Text × Validator) → Text → Option Validator
validator_at [] key = none
validator_at ((k, f) ∷ fs) key = if k == key then some f else validator_at fs key

abbrev pub or_key_error : {A : Type 0} → Option A → Text → Result SchemaError A
or_key_error none key = err (key_error key)
or_key_error (some a) key = ok a

-- the loop over the items of `normalized`, with its `properties[key]`
unfoldable pub validate_fields :
    List (Text × Validator) → List Json → Fields → Text → Result SchemaError Fields
validate_fields fs required empty path = ok empty
validate_fields fs required (field k v d) path = do
  f ← or_key_error (validator_at fs k) k
  w ← f v (nested_path path k) (is_required required k)
  rest ← validate_fields fs required d path
  ok (field k w rest)

-- the order of texts, by code points
unfoldable text_before : Text → Text → Bool
text_before s [] = false
text_before [] (d ∷ t) = true
text_before (c ∷ s) (d ∷ t) = let rest = text_before s t in if nat_beq c d then rest else ltb c d

-- `set(value) - set(properties)`
unfoldable pub unknown_keys : Fields → Fields → List Text
unknown_keys properties value = filter (λ k. not (is_some (Json.get properties k))) (keys_of value)

-- What follows once `properties` is a dict and the required keys are read. The message lists the
-- missing keys in the order of the schema; a set has none of its own.
unfoldable pub validate_members_of :
    Fields → List (Text × Validator) → List Json → Fields → Text → Result SchemaError Json
unfolding text_before
validate_members_of properties fs required value path =
    if is_empty (unknown_keys properties value)
    then (let normalized = with_defaults properties value in
        let missing = filter (is_missing normalized) required in
        if is_empty missing
        then (validate_fields fs required normalized path >>= λ d. ok (obj d))
        else err (invalid path (missing_required_arguments missing)))
    else err
        (invalid path (unsupported_arguments (sort_by text_before (unknown_keys properties value))))

abbrev pub fields_of : Option Json → Fields
fields_of (some (obj d)) = d
fields_of o = empty

-- `schema.get("properties", {})` of one that is a dict
abbrev pub properties_of : Fields → Fields
properties_of schema = fields_of (Json.get schema (codes "properties"))

unfoldable pub validate_object : Fields → List (Text × Validator) → Validator
validate_object schema fs (obj value) path required =
    if is_mapping (Json.get schema (codes "properties"))
    then (required_keys (Json.get schema (codes "required")) >>= λ keys.
        validate_members_of (properties_of schema) fs keys value path)
    else err (invalid path schema_properties_must_be_an_object)
validate_object schema fs value path required = err (invalid path must_be_an_object)
