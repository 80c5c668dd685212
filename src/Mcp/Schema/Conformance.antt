-- ===== src/Mcp/Schema/Conformance.antt =====
-- What a schema asks of a value, stated without the validator, and that the validator keeps to it.
use mssql_ai_project.Base.{
  ◌≡◌, refl, subst, Bool, true, false, Option, some, arith, ◌⊎◌, Bool-cases, inl, inr, ◌&&◌,
}
use mssql_ai_project.Base.Int.{ℤ}
use mssql_ai_project.Base.Text.{Text, codes, text_eq, strip, strip_idem, is_empty}
use mssql_ai_project.Base.Json
use mssql_ai_project.Base.Json.{
  Json, null, bool, int, float, str, arr, obj, Items, nil, cons, Fields, empty, field,
}
use mssql_ai_project.Base.Result.{Result, ok, ◌>>◌}
use mssql_ai_project.Mcp.Schema.{
  Numbers, SchemaError, Validator, text_in, int_in, int_exceeds, check_enum, check_maximum,
  validate_string, validate_integer, validate_boolean, properties_of, type_is,
}
use mssql_ai_project.Mcp.Schema.Again.{bind_ok, value_of, first_ok, ok_or}

-- The value is among the `enum` of the schema, where it has one.
abbrev pub Listed : (Json → Result SchemaError Bool) → Fields → Type 0
Listed value_in s =
    (e : Json) → Json.get s (codes "enum") ≡ some e → (e ≡ null) ⊎ (value_in e ≡ ok true)

-- The number is no greater than the `maximum` of the schema, where it has one.
abbrev pub Limited : (Json → Result SchemaError Bool) → Fields → Type 0
Limited exceeds s =
    (m : Json) → Json.get s (codes "maximum") ≡ some m → (m ≡ null) ⊎ (exceeds m ≡ ok false)

mutual
  pub data Conforms (numbers : Numbers) : Json → Json → Type 0 where
    text :
        {s : Fields} {t : Text}
        → type_is s "string" ≡ true
        → strip t ≡ t
        → Listed (text_in t) s
        → Conforms numbers (obj s) (str t)
    integer :
        {s : Fields} {n : ℤ}
        → type_is s "integer" ≡ true
        → Limited (int_exceeds numbers n) s
        → Listed (int_in numbers n) s
        → Conforms numbers (obj s) (int n)
    boolean :
        {s : Fields} {b : Bool} → type_is s "boolean" ≡ true → Conforms numbers (obj s) (bool b)
    array :
        {s : Fields} {vs : Items}
        → type_is s "array" ≡ true
        → ItemsConform numbers (Json.get s (codes "items")) vs
        → Conforms numbers (obj s) (arr vs)
    object :
        {s d : Fields}
        → type_is s "object" ≡ true
        → MembersConform numbers (properties_of s) d
        → Conforms numbers (obj s) (obj d)

  -- Each item conforms to the schema of the items; where there is none, there are no items.
  pub data ItemsConform (numbers : Numbers) : Option Json → Items → Type 0 where
    no_items : {o : Option Json} → ItemsConform numbers o nil
    next_item :
        {s v : Json} {vs : Items}
        → Conforms numbers s v
        → ItemsConform numbers (some s) vs
        → ItemsConform numbers (some s) (cons v vs)

  -- Each member conforms to the schema of its key.
  pub data MembersConform (numbers : Numbers) : Fields → Fields → Type 0 where
    no_members : {p : Fields} → MembersConform numbers p empty
    next_member :
        {p d : Fields} {k : Text} {s v : Json}
        → Json.get p k ≡ some s
        → Conforms numbers s v
        → MembersConform numbers p d
        → MembersConform numbers p (field k v d)

check_enum-Listed :
    (t : Json → Result SchemaError Bool) (s : Fields) (p : Text)
    → check_enum t (Json.get s (codes "enum")) p ≡ ok tt
    → Listed t s
unfolding check_enum
check_enum-Listed t s p h e g = one e (subst (λ o. check_enum t o p ≡ ok tt) g h)
  where
    one : (e : Json) → check_enum t (some e) p ≡ ok tt → (e ≡ null) ⊎ (t e ≡ ok true)
    one null c = inl refl
    one e c =
        let (b, x, y) = bind_ok (t e) _ tt c in
        elim (Bool-cases b) [
          | inl q ↦ inr (rw (x, q) refl)
          | inr q ↦ let z = rw q at y in ground arith
        ]

check_maximum-Limited :
    (t : Json → Result SchemaError Bool) (s : Fields) (p : Text)
    → check_maximum t (Json.get s (codes "maximum")) p ≡ ok tt
    → Limited t s
unfolding check_maximum
check_maximum-Limited t s p h e g = one e (subst (λ o. check_maximum t o p ≡ ok tt) g h)
  where
    one : (e : Json) → check_maximum t (some e) p ≡ ok tt → (e ≡ null) ⊎ (t e ≡ ok false)
    one null c = inl refl
    one e c =
        let (b, x, y) = bind_ok (t e) _ tt c in
        elim (Bool-cases b) [
          | inr q ↦ inr (rw (x, q) refl)
          | inl q ↦ let z = rw q at y in ground arith
        ]

module _ (numbers : Numbers) where
  -- What the validator returns conforms to the schema.
  abbrev pub Realizes : Validator → Json → Type 0
  Realizes f s = (v : Json) (p : Text) (r : Bool) (w : Json) → f v p r ≡ ok w → Conforms numbers s w

  pub string-Conforms :
      (s : Fields) → type_is s "string" ≡ true → Realizes (validate_string s) (obj s)
  unfolding validate_string
  string-Conforms s h (str t) p r w e =
      let (_, g) = ok_or (r && is_empty (strip t)) _ _ w e in
      let (c, d) = first_ok _ _ w g in
      subst (Conforms numbers (obj s)) (value_of d)
        (text h (strip_idem t) (check_enum-Listed (text_in (strip t)) s p c))
  string-Conforms s h v p r w e = ground arith

  pub integer-Conforms :
      (s : Fields) → type_is s "integer" ≡ true → Realizes (validate_integer numbers s) (obj s)
  unfolding validate_integer
  integer-Conforms s h (int n) p r w e =
      let maximum = check_maximum (int_exceeds numbers n) (Json.get s (codes "maximum")) p in
      let listed = check_enum (int_in numbers n) (Json.get s (codes "enum")) p in
      let (b, d) = first_ok (maximum >> listed) (ok (int n)) w e in
      let (c, g) = first_ok maximum listed tt b in
      subst (Conforms numbers (obj s)) (value_of d) (
        integer h (check_maximum-Limited (int_exceeds numbers n) s p c)
          (check_enum-Listed (int_in numbers n) s p g))
  integer-Conforms s h v p r w e = ground arith

  pub boolean-Conforms :
      (s : Fields) → type_is s "boolean" ≡ true → Realizes validate_boolean (obj s)
  unfolding validate_boolean
  boolean-Conforms s h (bool b) p r w e = subst (Conforms numbers (obj s)) (value_of e) (boolean h)
  boolean-Conforms s h v p r w e = ground arith
