-- ===== src/Mcp/Schema/Keys.antt =====
-- The keys of a validated object: all known, and no required one missing.
use mssql_ai_project.Base.{
  ◌≡◌, refl, ◌∙◌, subst, Bool, true, false, not, some, List, [], ◌∷◌, ◌==◌, arith, Bool-cases,
  Option-cases, inl, inr, is_some, All, filter,
}
use mssql_ai_project.Base.Text.{Text, codes, text_eq, text_beq_iff, is_empty}
use mssql_ai_project.Base.Json
use mssql_ai_project.Base.Json.{
  Json, null, bool, int, float, str, arr, obj, Items, nil, cons, Fields, empty, field,
}
use mssql_ai_project.Mcp.Schema.Scalars.{Validator}
use mssql_ai_project.Mcp.Schema.Objects.{
  is_blank, keys_of, is_required, with_default, with_defaults, is_missing, unknown_keys,
}
use mssql_ai_project.Mcp.Schema.Members.{Validated}

filter-empty :
    {A : Type 0} (p : A → Bool) (xs : List A)
    → is_empty (filter p xs) ≡ true
    → All (λ x. p x ≡ false) xs
unfolding filter
filter-empty p [] h = tt
filter-empty p (x ∷ xs) h = elim (Bool-cases (p x)) [
  | inl e ↦ let z : false ≡ true = rw e at h in ground arith
  | inr e ↦ (e, filter-empty p xs (rw e at h))
]

filter-none :
    {A : Type 0} (p : A → Bool) (xs : List A) → All (λ x. p x ≡ false) xs → filter p xs ≡ []
unfolding filter
filter-none p [] h = refl
filter-none p (x ∷ xs) h = rw (h.0, filter-none p xs h.1) refl

module _ (P : Text → Type 0) where
  All-put :
      (n : Fields) (k : Text) (v : Json)
      → All P (keys_of n)
      → P k
      → All P (keys_of (Json.put n k v))
  unfolding keys_of Json.put
  All-put empty k v h x = (x, tt)
  All-put (field j u n) k v h x = elim (Bool-cases (j == k)) [
    | inl e ↦ rw e h
    | inr e ↦ rw e (h.0, All-put n k v h.1 x)
  ]

  All-with_default :
      (k : Text) (s : Json) (n : Fields)
      → All P (keys_of n)
      → P k
      → All P (keys_of (with_default k s n))
  unfolding with_default
  All-with_default k (obj s) n h x = elim (Bool-cases (is_some (Json.get n k))) [
    | inl e ↦ rw e h
    | inr e ↦ elim (Option-cases (Json.get s (codes "default"))) [
      | inl c ↦ rw (e, c) h
      | inr (v, c) ↦ rw (e, c) (All-put n k v h x)
    ]
  ]
  All-with_default k s n h x = h

  All-with_defaults :
      (p n : Fields) → All P (keys_of n) → All P (keys_of p) → All P (keys_of (with_defaults p n))
  unfolding with_defaults keys_of
  All-with_defaults empty n h g = h
  All-with_defaults (field k s p) n h g =
      All-with_defaults p (with_default k s n) (All-with_default k s n h g.0) g.1

  All-keys : (ks : List Text) (Q : Text → Type 0) → ((k : Text) → P k → Q k) → All P ks → All Q ks
  All-keys [] Q f h = tt
  All-keys (k ∷ ks) Q f h = (f k h.0, All-keys ks Q f h.1)

abbrev Known : Fields → Text → Type 0
Known p k = is_some (Json.get p k) ≡ true

keys_of-Known : (p : Fields) → All (Known p) (keys_of p)
unfolding keys_of Json.get
keys_of-Known empty = tt
keys_of-Known (field k v p) = (
  ground (arith, text_beq_iff k k),
  All-keys (Known p) (keys_of p) (Known (field k v p)) (λ j h. ground arith) (keys_of-Known p),
)

-- No key is unknown after the defaults are set, when none was before.
pub unknown_keys-with_defaults :
    (p d : Fields)
    → is_empty (unknown_keys p d) ≡ true
    → (n : Fields) → keys_of n ≡ keys_of (with_defaults p d)
    → unknown_keys p n ≡ []
unfolding unknown_keys
unknown_keys-with_defaults p d h n e =
    let before : All (Known p) (keys_of d) =
      All-keys (λ k. not (is_some (Json.get p k)) ≡ false) (keys_of d) (Known p)
        (λ k g. ground arith) (filter-empty (λ k. not (is_some (Json.get p k))) (keys_of d) h) in
    filter-none (λ k. not (is_some (Json.get p k))) (keys_of n)
      (rw e (
        All-keys (Known p) (keys_of (with_defaults p d)) (λ k. not (is_some (Json.get p k)) ≡ false)
          (λ k g. ground arith) (All-with_defaults (Known p) p d before (keys_of-Known p))))

-- A text among the keys is a required key.
abbrev Asked : List Json → Json → Type 0
Asked ks (str k) = is_required ks k ≡ true
Asked ks v = Unit

Asked-later : (x : Json) (ks xs : List Json) → All (Asked ks) xs → All (Asked (x ∷ ks)) xs
unfolding is_required
Asked-later x ks [] h = tt
Asked-later x ks (y ∷ xs) h = (one x y h.0, Asked-later x ks xs h.1)
  where
    one : (x y : Json) → Asked ks y → Asked (x ∷ ks) y
    one (str j) (str k) g = ground arith
    one x (str k) g = g
    one x y g = tt

Asked-self : (ks : List Json) → All (Asked ks) ks
unfolding is_required
Asked-self [] = tt
Asked-self (str k ∷ ks) =
    (ground (arith, text_beq_iff k k), Asked-later (str k) ks ks (Asked-self ks))
Asked-self (x ∷ ks) = (tt, Asked-later x ks ks (Asked-self ks))

is_missing-blank :
    (n : Fields) (k : Text) (w : Json)
    → Json.get n k ≡ some w
    → is_blank (some w) ≡ false
    → is_missing n (str k) ≡ false
unfolding is_missing
is_missing-blank n k w e h = rw e h

present_of : (d : Fields) (k : Text) → is_missing d (str k) ≡ false → is_some (Json.get d k) ≡ true
unfolding is_missing is_blank
present_of d k h = elim (Option-cases (Json.get d k)) [
  | inl e ↦ let z = rw e at h in ground arith
  | inr (v, e) ↦ rw e refl
]

All_required :
    (P : Json → Type 0) (ks : List Json) (k : Text) → is_required ks k ≡ true → All P ks → P (str k)
unfolding is_required
All_required P [] k r h = ground arith
All_required P (str j ∷ ks) k r h = elim (Bool-cases (j == k)) [
  | inl e ↦ subst (λ x. P (str x)) ((text_beq_iff j k).0 e) h.0
  | inr e ↦ All_required P ks k (rw e at r) h.1
]
All_required P (x ∷ ks) k r h = All_required P ks k r h.1

-- No required key is missing from what the members are validated to, when none was before.
pub is_missing-Validated :
    (fs : List (Text × Validator)) (ks : List Json) (d n : Fields)
    → Validated fs ks d n
    → is_empty (filter (is_missing d) ks) ≡ true
    → filter (is_missing n) ks ≡ []
unfolding is_missing
is_missing-Validated fs ks d n valid h =
    filter-none (is_missing n) ks (go ks (Asked-self ks) (filter-empty (is_missing d) ks h))
  where
    one : (x : Json) → Asked ks x → is_missing d x ≡ false → is_missing n x ≡ false
    one (str k) a m = elim (Option-cases (Json.get n k)) [
      | inl e ↦
          let there : is_some (Json.get d k) ≡ true = present_of d k m in
          let z : is_some (Json.get n k) ≡ true = valid.present k ∙ there in
          let absurd = rw e at z in ground arith
      | inr (w, e) ↦ is_missing-blank n k w e (valid.filled k w a e)
    ]
    one x a m = m

    go :
        (xs : List Json)
        → All (Asked ks) xs
        → All (λ x. is_missing d x ≡ false) xs
        → All (λ x. is_missing n x ≡ false) xs
    go [] a m = tt
    go (x ∷ xs) a m = (one x a.0 m.0, go xs a.1 m.1)

-- What stands under a required key is not blank.
pub required_is_there :
    (fs : List (Text × Validator)) (ks : List Json) (d n : Fields)
    → Validated fs ks d n
    → is_empty (filter (is_missing d) ks) ≡ true
    → (k : Text) → is_required ks k ≡ true
    → is_blank (Json.get n k) ≡ false
required_is_there fs ks d n valid h k r =
    let there : is_missing d (str k) ≡ false =
      All_required (λ x. is_missing d x ≡ false) ks k r (filter-empty (is_missing d) ks h) in
    elim (Option-cases (Json.get n k)) [
      | inl e ↦
          let z : is_some (Json.get n k) ≡ true = valid.present k ∙ present_of d k there in
          let absurd = rw e at z in ground arith
      | inr (w, e) ↦ rw e (valid.filled k w r e)
    ]
