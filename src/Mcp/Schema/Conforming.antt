-- ===== src/Mcp/Schema/Conforming.antt =====
-- Arrays and objects conform to their schemas, and so do the arguments of a tool.
use mssql_ai_project.Base.{
  ◌≡◌, refl, sym, subst, Bool, true, false, Option, none, some, List, [], ◌∷◌, ◌==◌, arith,
  if◌then◌else◌, Bool-cases, inl, inr, filter, ℕ, suc,
}
use mssql_ai_project.Base.Text.{Text, codes, text_eq, is_empty}
use mssql_ai_project.Base.Json
use mssql_ai_project.Base.Json.{
  Json, null, bool, int, float, str, arr, obj, Items, nil, cons, Fields, empty, field,
}
use mssql_ai_project.Base.Result.{ok, err}
use mssql_ai_project.Mcp.Guardrails.{nested_path, item_path}
use mssql_ai_project.Mcp.Schema.{
  Numbers, Validator, validate_all, validate_array, is_mapping, validator_at, is_required,
  validate_fields, validate_members_of, validate_object, properties_of, fields_of, attribute_error,
  with_defaults, unknown_keys, is_missing, required_keys, type_is, validate_by_type, validate_value,
  validate_items, validate_properties, validate_members, validate_each, validate_tool_arguments,
}
use mssql_ai_project.Mcp.Schema.Again.{bind_ok, value_of}
use mssql_ai_project.Mcp.Schema.Members.{or_key_error_ok, some_inj}
use mssql_ai_project.Mcp.Schema.Results.{if_err}
use mssql_ai_project.Mcp.Schema.Conformance.{
  Conforms, array, object, ItemsConform, no_items, next_item, MembersConform, no_members,
  next_member, Realizes, string-Conforms, integer-Conforms, boolean-Conforms,
}

module _ (numbers : Numbers) where
  -- the validator of the items, by the schema of the items
  RealizesItems : Validator → Option Json → Type 0
  RealizesItems f none = (v : Json) (p : Text) (r : Bool) (w : Json) → f v p r ≡ ok w → ⊥
  RealizesItems f (some s) = Realizes numbers f s

  -- the validators of the members, by their schemas
  RealizesEach : List (Text × Validator) → Fields → Type 0
  RealizesEach [] p = Unit
  RealizesEach ((k, f) ∷ fs) empty = ⊥
  RealizesEach ((k, f) ∷ fs) (field j s p) = (k ≡ j) × Realizes numbers f s × RealizesEach fs p

  items-Conform :
      (f : Validator) (o : Option Json) (vs : Items) (p : Text) (i : ℕ) (ws : Items)
      → RealizesItems f o
      → validate_all f vs p i ≡ ok ws
      → ItemsConform numbers o ws
  unfolding validate_all RealizesItems
  items-Conform f o nil p i ws k h = subst (ItemsConform numbers o) (value_of h) no_items
  items-Conform f none (cons v vs) p i ws k h =
      let (w, e, g) = bind_ok (f v (item_path p i) true) _ ws h in
      elim (k v (item_path p i) true w e) [ ]
  items-Conform f (some s) (cons v vs) p i ws k h =
      let (w, e, g) = bind_ok (f v (item_path p i) true) _ ws h in
      let (us, c, d) = bind_ok (validate_all f vs p (suc i)) _ ws g in
      subst (ItemsConform numbers (some s)) (value_of d)
        (next_item (k v (item_path p i) true w e) (items-Conform f (some s) vs p (suc i) us k c))

  array-Conforms :
      (s : Fields) (f : Validator)
      → type_is s "array" ≡ true
      → RealizesItems f (Json.get s (codes "items"))
      → Realizes numbers (validate_array (Json.get s (codes "items")) f) (obj s)
  unfolding validate_array
  array-Conforms s f h k (arr vs) p r w e =
      let (a, g) = if_err (is_mapping (Json.get s (codes "items"))) _ _ w e in
      let (us, c, d) = bind_ok (validate_all f vs p 0) _ w g in
      subst (Conforms numbers (obj s)) (value_of d)
        (array h (items-Conform f (Json.get s (codes "items")) vs p 0 us k c))
  array-Conforms s f h k v p r w e = ground arith

  validator_at-Realizes :
      (fs : List (Text × Validator)) (p : Fields) (k : Text) (f : Validator)
      → RealizesEach fs p
      → validator_at fs k ≡ some f
      → (s : Json) × (Json.get p k ≡ some s) × Realizes numbers f s
  unfolding validator_at RealizesEach Json.get
  validator_at-Realizes [] p k f h e = ground arith
  validator_at-Realizes ((j, g) ∷ fs) empty k f h e = elim h [ ]
  validator_at-Realizes ((j, g) ∷ fs) (field i s p) k f h e = elim (Bool-cases (j == k)) [
    | inl q ↦
        (s, rw (sym h.0, q) refl, subst (λ x. Realizes numbers x s) (some_inj (rw q at e)) h.1)
    | inr q ↦
        let (t, g1, g2) = validator_at-Realizes fs p k f h.2 (rw q at e) in
        (t, rw (sym h.0, q) g1, g2)
  ]

  members-Conform :
      (fs : List (Text × Validator)) (props : Fields) (ks : List Json) (d : Fields) (p : Text)
      (n : Fields)
      → RealizesEach fs props
      → validate_fields fs ks d p ≡ ok n
      → MembersConform numbers props n
  unfolding validate_fields
  members-Conform fs props ks empty p n k h =
      subst (MembersConform numbers props) (value_of h) no_members
  members-Conform fs props ks (field key v d) p n k h =
      let (f, e, h1) = or_key_error_ok (validator_at fs key) key _ n h in
      let (w, g, h2) = bind_ok (f v (nested_path p key) (is_required ks key)) _ n h1 in
      let (rest, c, z) = bind_ok (validate_fields fs ks d p) _ n h2 in
      let (s, found, realizes) = validator_at-Realizes fs props key f k e in
      subst (MembersConform numbers props) (value_of z) (
        next_member found (realizes v (nested_path p key) (is_required ks key) w g)
          (members-Conform fs props ks d p rest k c))

  object-Conforms :
      (s : Fields) (fs : List (Text × Validator))
      → type_is s "object" ≡ true
      → RealizesEach fs (properties_of s)
      → Realizes numbers (validate_object s fs) (obj s)
  unfolding validate_object validate_members_of
  object-Conforms s fs h k (obj d) p r w e =
      let props : Fields = properties_of s in
      let full : Fields = with_defaults props d in
      let (a, h1) = if_err (is_mapping (Json.get s (codes "properties"))) _ _ w e in
      let (ks, b, h2) = bind_ok (required_keys (Json.get s (codes "required"))) _ w h1 in
      let (u, h3) = if_err (is_empty (unknown_keys props d)) _ _ w h2 in
      let (m, h4) = if_err (is_empty (filter (is_missing full) ks)) _ _ w h3 in
      let (n, c, g) = bind_ok (validate_fields fs ks full p) _ w h4 in
      subst (Conforms numbers (obj s)) (value_of g)
        (object h (members-Conform fs props ks full p n k c))
  object-Conforms s fs h k v p r w e = ground arith

  either-Realizes :
      (b : Bool) (f g : Validator) (s : Json)
      → (b ≡ true → Realizes numbers f s)
      → Realizes numbers g s
      → Realizes numbers
          (λ value path required. if b then f value path required else g value path required)
          s
  either-Realizes true f g s kf kg v p r w h = kf refl v p r w h
  either-Realizes false f g s kf kg v p r w h = kg v p r w h

  by_type-Realizes :
      (s : Fields) (f : Validator) (fs : List (Text × Validator))
      → RealizesItems f (Json.get s (codes "items"))
      → RealizesEach fs (properties_of s)
      → Realizes numbers (validate_by_type numbers s f fs) (obj s)
  unfolding validate_by_type
  by_type-Realizes s f fs k ks =
      either-Realizes (type_is s "string") _ _ (obj s) (string-Conforms numbers s) (
        either-Realizes (type_is s "integer") _ _ (obj s) (integer-Conforms numbers s) (
          either-Realizes (type_is s "boolean") _ _ (obj s) (boolean-Conforms numbers s) (
            either-Realizes (type_is s "array") _ _ (obj s) (λ h. array-Conforms s f h k)
              (either-Realizes (type_is s "object") _ _ (obj s) (λ h. object-Conforms s fs h ks)
                (λ v p r w e. ground arith)))))

  no_item_schema :
      (f : Validator) (fs : List (Text × Validator))
      → RealizesItems (validate_by_type numbers empty f fs) none
  unfolding RealizesItems validate_by_type type_is Json.get
  no_item_schema f fs v p r w e = ground arith

  mutual
    unfolding validate_value validate_items validate_properties validate_members validate_each
        RealizesItems RealizesEach Json.get

    value-Realizes : (s : Json) → Realizes numbers (validate_value numbers s) s
    value-Realizes (obj s) v p r w e =
        by_type-Realizes s (validate_items numbers s) (validate_properties numbers s)
          (items-Realizes s) (properties-Realizes s) v p r w e
    value-Realizes s v p r w e = ground arith

    items-Realizes :
        (s : Fields) → RealizesItems (validate_items numbers s) (Json.get s (codes "items"))
    items-Realizes empty = no_item_schema (λ value path required. err attribute_error) []
    items-Realizes (field k s d) = elim (Bool-cases (k == codes "items")) [
      | inl q ↦ rw q (value-Realizes s)
      | inr q ↦ rw q (items-Realizes d)
    ]

    properties-Realizes :
        (s : Fields) → RealizesEach (validate_properties numbers s) (properties_of s)
    properties-Realizes empty = tt
    properties-Realizes (field k s d) = elim (Bool-cases (k == codes "properties")) [
      | inl q ↦ rw q (members-Realizes s)
      | inr q ↦ rw q (properties-Realizes d)
    ]

    members-Realizes : (s : Json) → RealizesEach (validate_members numbers s) (fields_of (some s))
    members-Realizes (obj d) = each-Realizes d
    members-Realizes s = tt

    each-Realizes : (d : Fields) → RealizesEach (validate_each numbers d) d
    each-Realizes empty = tt
    each-Realizes (field k s d) = (refl, value-Realizes s, each-Realizes d)

-- Whatever `validate_tool_arguments` returns conforms to the input schema, at every depth: a text is
-- stripped and among the texts of its `enum`, an integer is among those of its `enum` and not above its
-- `maximum`, a boolean is one, the items of a list conform to the schema of its items, and every
-- member of an object has a schema and conforms to it.
pub validate_tool_arguments-Conforms :
    (numbers : Numbers) (tool : Text) (schema arguments : Fields) (result : Json)
    → validate_tool_arguments numbers tool schema arguments ≡ ok result
    → Conforms numbers (obj schema) result
unfolding validate_tool_arguments
validate_tool_arguments-Conforms numbers tool s d w h =
    let (a, g) = if_err (type_is s "object") _ _ w h in
    object-Conforms numbers s (validate_properties numbers s) a (properties-Realizes numbers s)
      (obj d) (codes "arguments") true w g
