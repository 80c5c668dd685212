-- ===== src/Mcp/Schema/Members.antt =====
-- The members of an object that is validated again: no key is unknown, no default is left to set, no
-- required member is missing.
use mssql_ai_project.Base.{
  ◌≡◌, refl, sym, ap, subst, Bool, true, false, not, ◌||◌, Option, none, some, List, [], ◌∷◌, ◌==◌,
  arith, Bool-cases, Option-cases, inl, inr, is_some, All,
}
use mssql_ai_project.Base.Text.{Text, codes, text_eq, text_beq_iff}
use mssql_ai_project.Base.Json
use mssql_ai_project.Base.Json.{
  Json, null, bool, int, float, str, arr, obj, Items, nil, cons, Fields, empty, field,
}
use mssql_ai_project.Base.Result.{Result, ok, ◌>>=◌}
use mssql_ai_project.Mcp.Guardrails.{nested_path}
use mssql_ai_project.Mcp.Schema.Scalars.{SchemaError, Validator}
use mssql_ai_project.Mcp.Schema.Objects.{
  is_blank, keys_of, is_required, with_default, with_defaults, validator_at, validate_fields,
  or_key_error,
}
use mssql_ai_project.Mcp.Schema.Again.{Stays, IsStable, bind_ok, value_of}

abbrev pub AllStable : List (Text × Validator) → Type 0
AllStable = All (λ (e : Text × Validator). IsStable e.1)

pub some_inj : {A : Type 0} {x y : A} → Path (Option A) (some x) (some y) → x ≡ y
some_inj {A} {x} p = ap (λ o. elim o [ none ↦ x | some z ↦ z ]) p

validator_at-IsStable :
    (fs : List (Text × Validator)) (k : Text) (f : Validator)
    → AllStable fs
    → validator_at fs k ≡ some f
    → IsStable f
unfolding validator_at
validator_at-IsStable [] k f h e = ground arith
validator_at-IsStable ((j, g) ∷ fs) k f h e = elim (Bool-cases (j == k)) [
  | inl q ↦ subst IsStable (some_inj (rw q at e)) h.0
  | inr q ↦ validator_at-IsStable fs k f h.1 (rw q at e)
]

-- What was kept of the members: the keys, and under a required key nothing blank.
pub record Validated (fs : List (Text × Validator)) (ks : List Json) (d n : Fields) : Type 0 where
  pub again : (q : Text) → validate_fields fs ks n q ≡ ok n
  pub keys : keys_of n ≡ keys_of d
  pub present : (k : Text) → is_some (Json.get n k) ≡ is_some (Json.get d k)
  pub filled :
      (k : Text) (w : Json)
      → is_required ks k ≡ true
      → Json.get n k ≡ some w
      → is_blank (some w) ≡ false

pub or_key_error_ok :
    {A B : Type 0} (o : Option A) (k : Text) (f : A → Result SchemaError B) (b : B)
    → (or_key_error o k >>= f) ≡ ok b
    → (a : A) × (o ≡ some a) × (f a ≡ ok b)
or_key_error_ok none k f b h = ground arith
or_key_error_ok (some a) k f b h = (a, refl, h)

Validated-field :
    (fs : List (Text × Validator)) (ks : List Json) (k : Text) (v w : Json) (f : Validator)
    (d rest : Fields)
    → validator_at fs k ≡ some f
    → Stays f (is_required ks k) w
    → Validated fs ks d rest
    → Validated fs ks (field k v d) (field k w rest)
unfolding validate_fields keys_of Json.get
Validated-field fs ks k v w f d rest e stays more = record {
  again = λ q. rw (e, stays.again (nested_path q k), more.again q) refl;
  keys = ap (λ l. k ∷ l) more.keys;
  present = λ j. elim (Bool-cases (k == j)) [ inl y ↦ rw y refl | inr y ↦ rw y (more.present j) ];
  filled = λ j u r y. elim (Bool-cases (k == j)) [
    | inl c ↦
        let q : is_required ks k ≡ true =
          subst (λ x. is_required ks x ≡ true) (sym ((text_beq_iff k j).0 c)) r in
        subst (λ x. is_blank (some x) ≡ false) (some_inj (rw c at y)) (stays.filled q)
    | inr c ↦ more.filled j u r (rw c at y)
  ];
}

pub validate_fields-Validated :
    (fs : List (Text × Validator)) (ks : List Json) (d : Fields) (p : Text) (n : Fields)
    → AllStable fs
    → validate_fields fs ks d p ≡ ok n
    → Validated fs ks d n
unfolding validate_fields keys_of Json.get
validate_fields-Validated fs ks empty p n a h =
    subst (λ x. Validated fs ks empty x) (value_of h)
      (record {
        again = λ q. refl;
        keys = refl;
        present = λ k. refl;
        filled = λ k w r g. ground arith;
      })
validate_fields-Validated fs ks (field k v d) p n a h =
    let (f, e, h1) = or_key_error_ok (validator_at fs k) k _ n h in
    let (w, g, h2) = bind_ok (f v (nested_path p k) (is_required ks k)) _ n h1 in
    let (rest, c, z) = bind_ok (validate_fields fs ks d p) _ n h2 in
    let more = validate_fields-Validated fs ks d p rest a c in
    let stays = validator_at-IsStable fs k f a e v (nested_path p k) (is_required ks k) w g in
    subst (λ x. Validated fs ks (field k v d) x) (value_of z)
      (Validated-field fs ks k v w f d rest e stays more)

-- Every key of the first is a key of the second.
abbrev Covers : Fields → Fields → Type 0
Covers d e = (k : Text) → is_some (Json.get d k) ≡ true → is_some (Json.get e k) ≡ true

-- The default of the key is set, or it has none.
unfoldable settled : Text → Json → Fields → Bool
settled k (obj s) n = is_some (Json.get n k) || not (is_some (Json.get s (codes "default")))
settled k s n = true

settled-with_default :
    (k : Text) (s : Json) (n : Fields) → settled k s n ≡ true → with_default k s n ≡ n
unfolding settled with_default
settled-with_default k (obj s) n h = elim (Option-cases (Json.get s (codes "default"))) [
  | inl e ↦ rw e (ground arith)
  | inr (v, e) ↦ ground arith
]
settled-with_default k s n h = refl

with_default-settled : (k : Text) (s : Json) (n : Fields) → settled k s (with_default k s n) ≡ true
unfolding settled with_default
with_default-settled k (obj s) n = elim (Option-cases (Json.get s (codes "default"))) [
  | inl e ↦ ground arith
  | inr (v, e) ↦ ground (arith, Json.get-put n k k v, text_beq_iff k k)
]
with_default-settled k s n = ground arith

settled-Covers :
    (k : Text) (s : Json) (n e : Fields) → Covers n e → settled k s n ≡ true → settled k s e ≡ true
unfolding settled
settled-Covers k (obj s) n e c h = ground (arith, c k)
settled-Covers k s n e c h = ground arith

with_default-Covers : (k : Text) (s : Json) (n : Fields) → Covers n (with_default k s n)
unfolding with_default
with_default-Covers k (obj s) n j h = elim (Option-cases (Json.get s (codes "default"))) [
  | inl e ↦ ground arith
  | inr (v, e) ↦ ground (arith, Json.get-put n k j v)
]
with_default-Covers k s n j h = ground arith

pub with_defaults-Covers : (p n : Fields) → Covers n (with_defaults p n)
unfolding with_defaults
with_defaults-Covers empty n j h = h
with_defaults-Covers (field k s p) n j h =
    with_defaults-Covers p (with_default k s n) j (with_default-Covers k s n j h)

-- The defaults are set: what has the keys of such an object is left as it is.
pub with_defaults_again : (p n e : Fields) → Covers (with_defaults p n) e → with_defaults p e ≡ e
unfolding with_defaults
with_defaults_again empty n e c = refl
with_defaults_again (field k s p) n e c =
    let n1 : Fields = with_default k s n in
    let head : settled k s e ≡ true = settled-Covers k s (with_defaults p n1) e c (
      settled-Covers k s n1 (with_defaults p n1) (with_defaults-Covers p n1)
        (with_default-settled k s n)) in
    rw (settled-with_default k s e head) (with_defaults_again p n1 e c)
