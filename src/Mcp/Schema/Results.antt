-- ===== src/Mcp/Schema/Results.antt =====
-- Validation is stable: what it returns, it returns unchanged when it is validated again.
use mssql_ai_project.Base.{
  ◌≡◌, refl, sym, ap, ◌∙◌, Bool, true, false, List, [], ◌==◌, arith, if◌then◌else◌, is_some, filter,
}
use mssql_ai_project.Base.Text.{Text, codes, text_eq, is_empty}
use mssql_ai_project.Base.Json
use mssql_ai_project.Base.Json.{Json, null, bool, int, float, str, arr, obj, Fields, empty, field}
use mssql_ai_project.Base.Result.{Result, ok, err}
use mssql_ai_project.Mcp.Schema.{
  invalid, unsupported_schema_type, attribute_error, is_blank, Numbers, SchemaError, Validator,
  validate_object, validate_members_of, properties_of, is_mapping, required_keys, is_required,
  unknown_keys, with_defaults, is_missing, validate_fields, type_is, validate_by_type,
  validate_value, validate_items, validate_properties, validate_members, validate_each,
  validate_tool_arguments,
}
use mssql_ai_project.Mcp.Schema.Again.{
  IsStable, bind_ok, value_of, returned, validate_string-IsStable, validate_integer-IsStable,
  validate_boolean-IsStable, validate_array-IsStable,
}
use mssql_ai_project.Mcp.Schema.Members.{
  AllStable, validate_fields-Validated, with_defaults_again, with_defaults-Covers,
}
use mssql_ai_project.Mcp.Schema.Keys.{
  unknown_keys-with_defaults, is_missing-Validated, required_is_there,
}

pub if_err :
    {E B : Type 0} (b : Bool) (r : Result E B) (e : E) (w : B)
    → (if b then r else err e) ≡ ok w
    → (b ≡ true) × (r ≡ ok w)
if_err true r e w h = (refl, h)
if_err false r e w h = ground arith

module _ (fs : List (Text × Validator)) (stable : AllStable fs) where
  members_again :
      (props : Fields) (ks : List Json) (d : Fields) (p : Text) (w : Json)
      → validate_members_of props fs ks d p ≡ ok w
      → (n : Fields) × (w ≡ obj n) × ((q : Text) → validate_members_of props fs ks n q ≡ ok (obj n))
  unfolding validate_members_of
  members_again props ks d p w h =
      let full : Fields = with_defaults props d in
      let (a, h1) = if_err (is_empty (unknown_keys props d)) _ _ w h in
      let (b, h2) = if_err (is_empty (filter (is_missing full) ks)) _ _ w h1 in
      let (n, c, e) = bind_ok (validate_fields fs ks full p) _ w h2 in
      let valid = validate_fields-Validated fs ks full p n stable c in
      let settled : with_defaults props n ≡ n =
        with_defaults_again props d n (λ k x. valid.present k ∙ x) in
      (
        n,
        sym (value_of e),
        λ q.
            rw
              (
                unknown_keys-with_defaults props d a n valid.keys,
                settled,
                is_missing-Validated fs ks full n valid b,
                valid.again q,
              )
              refl,
      )

  validate_object-IsStable : (s : Fields) → IsStable (validate_object s fs)
  unfolding validate_object is_blank
  validate_object-IsStable s (obj d) p r w h =
      let (a, h1) = if_err (is_mapping (Json.get s (codes "properties"))) _ _ w h in
      let (ks, b, h2) = bind_ok (required_keys (Json.get s (codes "required"))) _ w h1 in
      let (n, e, g) = members_again (properties_of s) ks d p w h2 in
      returned {v = obj n} (ap ok (sym e))
        (record { again = λ q. rw (a, b) (g q); filled = λ z. refl })
  validate_object-IsStable s v p r w h = ground arith

either-IsStable :
    (b : Bool) (f g : Validator)
    → IsStable f
    → IsStable g
    → IsStable (λ value path required. if b then f value path required else g value path required)
either-IsStable true f g kf kg v p r w h = record {
  again = (kf v p r w h).again;
  filled = (kf v p r w h).filled;
}
either-IsStable false f g kf kg v p r w h = record {
  again = (kg v p r w h).again;
  filled = (kg v p r w h).filled;
}

raises-IsStable : (e : Text → SchemaError) → IsStable (λ value path required. err (e path))
raises-IsStable e v p r w h = ground arith

by_type-IsStable :
    (numbers : Numbers) (s : Fields) (f : Validator) (fs : List (Text × Validator))
    → IsStable f
    → AllStable fs
    → IsStable (validate_by_type numbers s f fs)
unfolding validate_by_type
by_type-IsStable numbers s f fs k ks =
    either-IsStable (type_is s "string") _ _ (validate_string-IsStable s) (
      either-IsStable (type_is s "integer") _ _ (validate_integer-IsStable numbers s) (
        either-IsStable (type_is s "boolean") _ _ validate_boolean-IsStable (
          either-IsStable (type_is s "array") _ _
            (validate_array-IsStable (Json.get s (codes "items")) f k)
            (either-IsStable (type_is s "object") _ _ (validate_object-IsStable fs ks s) (
              raises-IsStable
                (λ path. invalid path (unsupported_schema_type (Json.get s (codes "type")))))))))

if_IsStable : (b : Bool) (f g : Validator) → IsStable f → IsStable g → IsStable (if b then f else g)
if_IsStable true f g kf kg = kf
if_IsStable false f g kf kg = kg

if_all :
    (b : Bool) (f g : List (Text × Validator))
    → AllStable f
    → AllStable g
    → AllStable (if b then f else g)
if_all true f g kf kg = kf
if_all false f g kf kg = kg

module _ (numbers : Numbers) where
  mutual
    unfolding validate_value validate_items validate_properties validate_members validate_each

    value-IsStable : (s : Json) → IsStable (validate_value numbers s)
    value-IsStable (obj s) =
        by_type-IsStable numbers s (validate_items numbers s) (validate_properties numbers s)
          (items-IsStable s) (properties-AllStable s)
    value-IsStable s = raises-IsStable (λ path. attribute_error)

    items-IsStable : (s : Fields) → IsStable (validate_items numbers s)
    items-IsStable empty =
        by_type-IsStable numbers empty (λ value path required. err attribute_error) []
          (raises-IsStable (λ path. attribute_error)) tt
    items-IsStable (field k s d) =
        if_IsStable (k == codes "items") (validate_value numbers s) (validate_items numbers d)
          (value-IsStable s) (items-IsStable d)

    properties-AllStable : (s : Fields) → AllStable (validate_properties numbers s)
    properties-AllStable empty = tt
    properties-AllStable (field k s d) =
        if_all (k == codes "properties") (validate_members numbers s)
          (validate_properties numbers d) (members-AllStable s) (properties-AllStable d)

    members-AllStable : (s : Json) → AllStable (validate_members numbers s)
    members-AllStable (obj d) = each-AllStable d
    members-AllStable s = tt

    each-AllStable : (d : Fields) → AllStable (validate_each numbers d)
    each-AllStable empty = tt
    each-AllStable (field k s d) = (value-IsStable s, each-AllStable d)

-- When `validate_tool_arguments` returns, it returns an object, and validating that object against
-- the same input schema returns it unchanged.
pub validate_tool_arguments_again :
    (numbers : Numbers) (tool : Text) (schema arguments : Fields) (result : Json)
    → validate_tool_arguments numbers tool schema arguments ≡ ok result
    → (n : Fields) × (result ≡ obj n) × (validate_tool_arguments numbers tool schema n ≡ ok (obj n))
unfolding validate_tool_arguments validate_object
validate_tool_arguments_again numbers tool s d w h =
    let fs = validate_properties numbers s in
    let (a, h0) = if_err (type_is s "object") _ _ w h in
    let (b, h1) = if_err (is_mapping (Json.get s (codes "properties"))) _ _ w h0 in
    let (ks, c, h2) = bind_ok (required_keys (Json.get s (codes "required"))) _ w h1 in
    let (n, e, g) =
      members_again fs (properties-AllStable numbers s) (properties_of s) ks d (codes "arguments") w
        h2 in
    (n, e, rw (a, b, c) (g (codes "arguments")))

-- When `validate_tool_arguments` returns, it returns an object that has no key outside the
-- `properties` of the input schema, under each key that the schema requires something other than
-- `None` and the empty text, and every key of the arguments.
pub validate_tool_arguments-keys :
    (numbers : Numbers) (tool : Text) (schema arguments : Fields) (result : Json)
    → validate_tool_arguments numbers tool schema arguments ≡ ok result
    → (n : Fields) × (required : List Json) × (result ≡ obj n)
      × (required_keys (Json.get schema (codes "required")) ≡ ok required)
      × (unknown_keys (properties_of schema) n ≡ [])
      × ((k : Text) → is_required required k ≡ true → is_blank (Json.get n k) ≡ false)
      × ((k : Text) → is_some (Json.get arguments k) ≡ true → is_some (Json.get n k) ≡ true)
unfolding validate_tool_arguments validate_object validate_members_of
validate_tool_arguments-keys numbers tool s d w h =
    let fs = validate_properties numbers s in
    let props : Fields = properties_of s in
    let full : Fields = with_defaults props d in
    let (a, h0) = if_err (type_is s "object") _ _ w h in
    let (b, h1) = if_err (is_mapping (Json.get s (codes "properties"))) _ _ w h0 in
    let (ks, c, h2) = bind_ok (required_keys (Json.get s (codes "required"))) _ w h1 in
    let (u, h3) = if_err (is_empty (unknown_keys props d)) _ _ w h2 in
    let (m, h4) = if_err (is_empty (filter (is_missing full) ks)) _ _ w h3 in
    let (n, e, g) = bind_ok (validate_fields fs ks full (codes "arguments")) _ w h4 in
    let valid =
      validate_fields-Validated fs ks full (codes "arguments") n (properties-AllStable numbers s)
        e in
    (
      n,
      ks,
      sym (value_of g),
      c,
      unknown_keys-with_defaults props d u n valid.keys,
      λ k r. required_is_there fs ks full n valid m k r,
      λ k x. valid.present k ∙ with_defaults-Covers props d k x,
    )
