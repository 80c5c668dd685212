-- ===== src/Mcp/Schema/Again.antt =====
-- What a validator returns is valid: validated again it is returned unchanged.
use mssql_ai_project.Base.{
  ℕ, suc, ◌≡◌, refl, ap, Bool, true, false, ◌&&◌, Option, none, some, arith, if◌then◌else◌,
  Bool-cases, inl, inr, subst,
}
use mssql_ai_project.Base.Text.{Text, codes, text_eq, strip, strip_idem, is_empty}
use mssql_ai_project.Base.Json
use mssql_ai_project.Base.Json.{
  Json, null, bool, int, float, str, arr, obj, Items, nil, cons, Fields, empty, field,
}
use mssql_ai_project.Base.Result.{Result, ok, err, ◌>>=◌, ◌>>◌, Result-cases}
use mssql_ai_project.Mcp.Guardrails.{item_path}
use mssql_ai_project.Mcp.Schema.Scalars.{
  SchemaError, Validator, Numbers, validate_string, validate_integer, validate_boolean,
  check_maximum, text_in, int_in, int_exceeds, guard_result, check_enum,
}
use mssql_ai_project.Mcp.Schema.Objects.{is_blank, validate_all, validate_array, is_mapping}

-- Validated again the value is returned unchanged, and it is not blank under a required key.
pub record Stays (f : Validator) (required : Bool) (w : Json) : Type 0 where
  pub again : (path : Text) → f w path required ≡ ok w
  pub filled : required ≡ true → is_blank (some w) ≡ false

abbrev pub IsStable : Validator → Type 0
IsStable f = (v : Json) (p : Text) (r : Bool) (w : Json) → f v p r ≡ ok w → Stays f r w

pub bind_ok :
    {E A B : Type 0} (m : Result E A) (f : A → Result E B) (b : B)
    → (m >>= f) ≡ ok b
    → (a : A) × (m ≡ ok a) × (f a ≡ ok b)
bind_ok (ok a) f b h = (a, refl, h)
bind_ok (err e) f b h = ground arith

pub first_ok :
    {E B : Type 0} (m : Result E (Unit {0})) (r : Result E B) (b : B)
    → (m >> r) ≡ ok b
    → (m ≡ ok tt) × (r ≡ ok b)
first_ok (ok u) r b h = (refl, h)
first_ok (err e) r b h = ground arith

guard_elsewhere :
    (r : Result SchemaError Bool) (e f : SchemaError)
    → guard_result r e ≡ ok tt
    → guard_result r f ≡ ok tt
guard_elsewhere (ok true) e f h = refl
guard_elsewhere (ok false) e f h = ground arith
guard_elsewhere (err z) e f h = ground arith

-- A check that passes at one path passes at every path.
check_enum_elsewhere :
    (t : Json → Result SchemaError Bool) (o : Option Json) (p q : Text)
    → check_enum t o p ≡ ok tt
    → check_enum t o q ≡ ok tt
unfolding check_enum
check_enum_elsewhere t none p q h = refl
check_enum_elsewhere t (some null) p q h = refl
check_enum_elsewhere t (some e) p q h = guard_elsewhere (t e) _ _ h

check_maximum_elsewhere :
    (t : Json → Result SchemaError Bool) (o : Option Json) (p q : Text)
    → check_maximum t o p ≡ ok tt
    → check_maximum t o q ≡ ok tt
unfolding check_maximum
check_maximum_elsewhere t none p q h = refl
check_maximum_elsewhere t (some null) p q h = refl
check_maximum_elsewhere t (some e) p q h = ground (arith, Result-cases (t e))

pub ok_or :
    {E B : Type 0} (b : Bool) (e : E) (r : Result E B) (w : B)
    → (if b then err e else r) ≡ ok w
    → (b ≡ false) × (r ≡ ok w)
ok_or true e r w h = ground arith
ok_or false e r w h = (refl, h)

pub value_of : {E A : Type 0} {v w : A} → Path (Result E A) (ok v) (ok w) → v ≡ w
value_of {E} {A} {v} g = ap (λ r. elim r [ ok x ↦ x | err e ↦ v ]) g

pub returned :
    {f : Validator} {r : Bool} {v w : Json}
    → Path (Result SchemaError Json) (ok v) (ok w)
    → Stays f r v
    → Stays f r w
returned {f} {r} e h = subst (λ x. Stays f r x) (value_of e) h

pub validate_string-IsStable : (s : Fields) → IsStable (validate_string s)
unfolding validate_string is_blank
validate_string-IsStable s (str t) p r w h =
    let (e, g) = ok_or (r && is_empty (strip t)) _ _ w h in
    let (c, d) = first_ok _ _ w g in
    returned d (record {
      again = λ q.
          rw
            (
              strip_idem t,
              e,
              check_enum_elsewhere (text_in (strip t)) (Json.get s (codes "enum")) p q c,
            )
            refl;
      filled = λ z. ground arith;
    })
validate_string-IsStable s v p r w h = ground arith

pub validate_integer-IsStable :
    (numbers : Numbers) (s : Fields) → IsStable (validate_integer numbers s)
unfolding validate_integer is_blank
validate_integer-IsStable numbers s (int n) p r w h =
    let (b, d) =
      first_ok
        (check_maximum (int_exceeds numbers n) (Json.get s (codes "maximum")) p
          >> check_enum (int_in numbers n) (Json.get s (codes "enum")) p)
        (ok (int n)) w h in
    let (c, e) =
      first_ok (check_maximum (int_exceeds numbers n) (Json.get s (codes "maximum")) p)
        (check_enum (int_in numbers n) (Json.get s (codes "enum")) p) tt b in
    returned {v = int n} d (record {
      again = λ q.
          rw
            (
              check_maximum_elsewhere (int_exceeds numbers n) (Json.get s (codes "maximum")) p q c,
              check_enum_elsewhere (int_in numbers n) (Json.get s (codes "enum")) p q e,
            )
            refl;
      filled = λ z. refl;
    })
validate_integer-IsStable numbers s v p r w h = ground arith

pub validate_boolean-IsStable : IsStable validate_boolean
unfolding validate_boolean is_blank
validate_boolean-IsStable (bool b) p r w h =
    returned h (record { again = λ q. refl; filled = λ z. refl })
validate_boolean-IsStable v p r w h = ground arith

items_again :
    (f : Validator) (vs : Items) (p : Text) (i : ℕ) (ws : Items)
    → IsStable f
    → validate_all f vs p i ≡ ok ws
    → (q : Text) (j : ℕ) → validate_all f ws q j ≡ ok ws
unfolding validate_all
items_again f nil p i ws k h q j = subst (λ x. validate_all f x q j ≡ ok x) (value_of h) refl
items_again f (cons v vs) p i ws k h q j =
    let (w, e, g) = bind_ok (f v (item_path p i) true) _ ws h in
    let (us, c, d) = bind_ok (validate_all f vs p (suc i)) _ ws g in
    subst (λ x. validate_all f x q j ≡ ok x) (value_of d)
      (rw
        (
          (k v (item_path p i) true w e).again (item_path q j),
          items_again f vs p (suc i) us k c q (suc j),
        )
        refl)

pub validate_array-IsStable :
    (o : Option Json) (f : Validator) → IsStable f → IsStable (validate_array o f)
unfolding validate_array is_blank
validate_array-IsStable o f k (arr vs) p r w h = elim (Bool-cases (is_mapping o)) [
  | inl e ↦
      let (us, c, d) = bind_ok (validate_all f vs p 0) _ w (rw e at h) in
      returned {v = arr us} d
        (record { again = λ q. rw (e, items_again f vs p 0 us k c q 0) refl; filled = λ z. refl })
  | inr e ↦ ground arith
]
validate_array-IsStable o f k v p r w h = ground arith
