-- ===== src/TargetKey/Checks.antt =====
-- apps/api/api_app/target_keys.py at concrete inputs.
use mssql_ai_project.Base.{◌≡◌, refl, none, some, elem}
use mssql_ai_project.Base.Text.{codes, text_eq, lower, strip, is_space}
use mssql_ai_project.TargetKey.{
  canonical_target_key, normalize_part, or_dash, strip_identifier_quotes, unquote, is_quote_pair,
  last_of, init_of, key_text,
}
use mssql_ai_project.TargetKey.Canonical.{
  Target, IsPlain, target_key, canonical_target_key-injective,
}

abbrev plain : Target
plain = record {
  db_profile_id = some (codes "dev");
  object_type = some (codes "VIEW");
  schema = some (codes "[dbo]");
  name = some (codes "v_sales");
  database = none;
}

abbrev quoted : Target
quoted = record {
  db_profile_id = some (codes " DEV ");
  object_type = some (codes "view");
  schema = some (codes "dbo");
  name = some (codes "[V_Sales]");
  database = some (codes "");
}

plain_key : target_key plain ≡ some (codes "mssql:dev:-:view:dbo.v_sales")
unfolding canonical_target_key normalize_part lower strip_identifier_quotes unquote strip is_space
    is_quote_pair last_of init_of key_text
plain_key = refl

quoted_key : target_key quoted ≡ some (codes "mssql:dev:-:view:dbo.v_sales")
unfolding canonical_target_key normalize_part lower strip_identifier_quotes unquote strip is_space
    is_quote_pair last_of init_of key_text
quoted_key = refl

plain-IsPlain : IsPlain plain
unfolding normalize_part elem lower strip_identifier_quotes unquote strip is_space is_quote_pair
    last_of init_of
plain-IsPlain = (refl, refl, refl, refl)

quoted-IsPlain : IsPlain quoted
unfolding normalize_part elem lower strip_identifier_quotes unquote strip is_space is_quote_pair
    last_of init_of
quoted-IsPlain = (refl, refl, refl, refl)

-- A full stop in the schema: two targets share a key.
shared_key :
    canonical_target_key
      (some (codes "dev"))
      (some (codes "view"))
      (some (codes "a.b"))
      (some (codes "c"))
      none
    ≡ canonical_target_key
        (some (codes "dev"))
        (some (codes "view"))
        (some (codes "a"))
        (some (codes "b.c"))
        none
unfolding canonical_target_key normalize_part lower strip_identifier_quotes unquote strip is_space
    is_quote_pair last_of init_of key_text
shared_key = refl

canonical_target_key-injective_example :
    (normalize_part plain.db_profile_id ≡ normalize_part quoted.db_profile_id)
    × (or_dash (normalize_part plain.database) ≡ or_dash (normalize_part quoted.database))
    × (normalize_part plain.object_type ≡ normalize_part quoted.object_type)
    × (normalize_part plain.schema ≡ normalize_part quoted.schema)
    × (normalize_part plain.name ≡ normalize_part quoted.name)
canonical_target_key-injective_example =
    canonical_target_key-injective plain quoted (codes "mssql:dev:-:view:dbo.v_sales") plain-IsPlain
      quoted-IsPlain plain_key quoted_key
