-- ===== src/TargetKey.antt =====
-- apps/api/api_app/target_keys.py: the canonical key of a database object, by which requests, jobs,
-- artifacts and knowledge assets are matched to their target.
pub mod Canonical
mod Checks
use mssql_ai_project.Base.{
  ℕ, suc, Bool, true, false, not, ◌&&◌, ◌||◌, Option, none, some, List, [], ◌∷◌, ◌++◌, map, ltb,
  nat_beq, if◌then◌else◌, length, filter,
}
use mssql_ai_project.Base.Text.{Text, codes, is_empty, strip, lower}
use mssql_ai_project.Base.Json
use mssql_ai_project.Base.Json.{Json, Fields}
use mssql_ai_project.Base.Values.{str_or_empty}

-- `pairs` of `_strip_identifier_quotes`, on the first and the last code point.
unfoldable pub is_quote_pair : ℕ → ℕ → Bool
is_quote_pair first last =
    (nat_beq first b'[' && nat_beq last b']')
    || (nat_beq first b'"' && nat_beq last b'"')
    || (nat_beq first 39 && nat_beq last 39)
    || (nat_beq first b'`' && nat_beq last b'`')

-- `cleaned[-1]` and `cleaned[:-1]` of `c ∷ s`.
unfoldable pub last_of : ℕ → Text → ℕ
last_of c [] = c
last_of c (d ∷ s) = last_of d s

unfoldable pub init_of : ℕ → Text → Text
init_of c [] = []
init_of c (d ∷ s) = c ∷ init_of d s

-- `cleaned[1:-1].strip()` where the first and the last code point are a pair of quotes.
unfoldable pub unquote : Text → Text
unquote [] = []
unquote (c ∷ []) = c ∷ []
unquote (c ∷ d ∷ s) = if is_quote_pair c (last_of d s) then strip (init_of d s) else c ∷ d ∷ s

unfoldable pub strip_identifier_quotes : Text → Text
strip_identifier_quotes value = unquote (strip value)

-- `value or ""`
abbrev pub or_empty : Option Text → Text
or_empty none = []
or_empty (some s) = s

unfoldable pub normalize_part : Option Text → Text
normalize_part value = lower (strip_identifier_quotes (strip (or_empty value)))

-- `text or "-"`
abbrev pub or_dash : Text → Text
or_dash [] = b'-' ∷ []
or_dash (c ∷ s) = c ∷ s

-- `f"mssql:{profile}:{database}:{type}:{schema}.{name}"`
unfoldable pub key_text : Text → Text → Text → Text → Text → Text
key_text profile database kind schema name =
    codes "mssql:"
    ++ (profile ++ (b':' ∷ (database ++ (b':' ∷ (kind ++ (b':' ∷ (schema ++ (b'.' ∷ name))))))))

unfoldable pub canonical_target_key :
    Option Text → Option Text → Option Text → Option Text → Option Text → Option Text
canonical_target_key db_profile_id object_type schema name database =
    let profile : Text = normalize_part db_profile_id in
    let obj_type : Text = normalize_part object_type in
    let schema_part : Text = normalize_part schema in
    let name_part : Text = normalize_part name in
    if is_empty profile || is_empty obj_type || is_empty schema_part || is_empty name_part
    then none
    else some (key_text profile (or_dash (normalize_part database)) obj_type schema_part name_part)

-- A target that is no mapping has no key.
unfoldable pub target_key_for_target :
    (Json → Text) → Option Text → Option Fields → Option Text → Option Text
target_key_for_target repr db_profile_id none database = none
target_key_for_target repr db_profile_id (some target) database =
    canonical_target_key db_profile_id (some (str_or_empty repr (Json.get target (codes "type"))))
      (some (str_or_empty repr (Json.get target (codes "schema"))))
      (some (str_or_empty repr (Json.get target (codes "name")))) database

-- `text.split(".")`: the parts, never none of them.
unfoldable pub split_dots : Text → Text → List Text
split_dots part [] = part ∷ []
split_dots part (c ∷ s) =
    let rest = split_dots [] s in
    let longer = split_dots (part ++ c ∷ []) s in if nat_beq c b'.' then part ∷ rest else longer

-- The last three of at least three parts, or the parts there are.
unfoldable pub last_parts : List Text → Option Text × Option Text × Option Text
last_parts [] = (none, none, none)
last_parts (a ∷ []) = (none, none, some a)
last_parts (a ∷ b ∷ []) = (none, some a, some b)
last_parts (a ∷ b ∷ c ∷ []) = (some a, some b, some c)
last_parts (a ∷ b ∷ c ∷ d ∷ r) = last_parts (b ∷ c ∷ d ∷ r)

unfoldable pub parse_object_ref : Option Text → Option Text × Option Text × Option Text
parse_object_ref target_ref = last_parts (
    map strip_identifier_quotes
      (filter (λ part. not (is_empty (strip part))) (split_dots [] (strip (or_empty target_ref)))))

-- `database or parsed_database`
abbrev pub or_else : Option Text → Option Text → Option Text
or_else none b = b
or_else (some []) b = b
or_else (some (c ∷ s)) b = some (c ∷ s)

unfoldable pub target_key_for_ref :
    Option Text → Option Text → Option Text → Option Text → Option Text
target_key_for_ref db_profile_id target_ref object_type database =
    let (parsed_database, schema, name) = parse_object_ref target_ref in
    canonical_target_key db_profile_id object_type schema name (or_else database parsed_database)
