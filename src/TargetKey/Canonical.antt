-- ===== src/TargetKey/Canonical.antt =====
-- apps/api/api_app/target_keys.py: which spellings of a target share a key, and which keys tell two
-- targets apart.
use mssql_ai_project.Base.{
  ℕ, ◌≡◌, refl, sym, ap, ◌∙◌, Bool, true, false, Option, none, some, [], ◌∷◌, ◌++◌, arith,
  if◌then◌else◌, elem, nat_eq,
}
use mssql_ai_project.Base.Text.{
  Text, codes, strip, lower, lstrip, to_lower, lower_idem, lstrip-lower, rstrip-lower,
}
use mssql_ai_project.TargetKey.{
  is_quote_pair, last_of, init_of, unquote, strip_identifier_quotes, normalize_part, or_dash,
  key_text, canonical_target_key,
}

strip-lower : (s : Text) → strip (lower s) ≡ lower (strip s)
unfolding strip
strip-lower s = rw (lstrip-lower s, rstrip-lower (lstrip s)) refl

is_quote_pair-lower : (c d : ℕ) → is_quote_pair (to_lower c) (to_lower d) ≡ is_quote_pair c d
unfolding is_quote_pair to_lower
is_quote_pair-lower c d = ground arith

last_of-lower : (c : ℕ) (s : Text) → last_of (to_lower c) (lower s) ≡ to_lower (last_of c s)
unfolding last_of lower
last_of-lower c [] = refl
last_of-lower c (d ∷ s) = last_of-lower d s

init_of-lower : (c : ℕ) (s : Text) → init_of (to_lower c) (lower s) ≡ lower (init_of c s)
unfolding init_of lower
init_of-lower c [] = refl
init_of-lower c (d ∷ s) = ap (λ r. to_lower c ∷ r) (init_of-lower d s)

-- The branch of `unquote`, lowered.
pick :
    (b : Bool) (inner whole : Text)
    → (if b then strip (lower inner) else lower whole) ≡ lower (if b then strip inner else whole)
pick true inner whole = strip-lower inner
pick false inner whole = refl

unquote-lower : (s : Text) → unquote (lower s) ≡ lower (unquote s)
unfolding unquote lower
unquote-lower [] = refl
unquote-lower (c ∷ []) = refl
unquote-lower (c ∷ d ∷ s) =
    rw (last_of-lower d s, init_of-lower d s, is_quote_pair-lower c (last_of d s))
      (pick (is_quote_pair c (last_of d s)) (init_of d s) (c ∷ d ∷ s))

normalize_part-lower : (s : Text) → normalize_part (some (lower s)) ≡ normalize_part (some s)
unfolding normalize_part strip_identifier_quotes
normalize_part-lower s =
    rw
      (
        strip-lower s,
        strip-lower (strip s),
        unquote-lower (strip (strip s)),
        lower_idem (unquote (strip (strip s))),
      )
      refl

-- Names that differ in ASCII letter case alone share a key, in each of the parts.
pub canonical_target_key-lower :
    (profile kind schema name database : Text)
    → canonical_target_key
        (some (lower profile))
        (some (lower kind))
        (some (lower schema))
        (some (lower name))
        (some (lower database))
      ≡ canonical_target_key (some profile) (some kind) (some schema) (some name) (some database)
unfolding canonical_target_key
canonical_target_key-lower profile kind schema name database =
    rw
      (
        normalize_part-lower profile,
        normalize_part-lower kind,
        normalize_part-lower schema,
        normalize_part-lower name,
        normalize_part-lower database,
      )
      refl

-- the part holds no such mark
abbrev pub IsFree : ℕ → Text → Type 0
IsFree c s = elem c s ≡ false

cut_at :
    (c : ℕ) (a b x y : Text) → IsFree c a → IsFree c b → a ++ c ∷ x ≡ b ++ c ∷ y → (a ≡ b) × (x ≡ y)
unfolding elem
cut_at c [] [] x y f g e = ground (arith)
cut_at c [] (d ∷ b) x y f g e = ground (arith)
cut_at c (d ∷ a) [] x y f g e = ground (arith)
cut_at c (d ∷ a) (k ∷ b) x y f g e = ground (arith, cut_at c a b x y)

drop_prefix : (a x y : Text) → a ++ x ≡ a ++ y → x ≡ y
drop_prefix [] x y e = e
drop_prefix (c ∷ a) x y e = ground (arith, drop_prefix a x y)

key_text-injective :
    (profile database kind schema name profile' database' kind' schema' name' : Text)
    → IsFree b':' profile
    → IsFree b':' profile'
    → IsFree b':' database
    → IsFree b':' database'
    → IsFree b':' kind
    → IsFree b':' kind'
    → IsFree b'.' schema
    → IsFree b'.' schema'
    → key_text profile database kind schema name ≡ key_text profile' database' kind' schema' name'
    → (profile ≡ profile')
      × (database ≡ database')
      × (kind ≡ kind')
      × (schema ≡ schema')
      × (name ≡ name')
unfolding key_text
key_text-injective p d k s n p' d' k' s' n' fp fp' fd fd' fk fk' fs fs' e =
    let (same_p, rest) = cut_at b':' p p' _ _ fp fp' (drop_prefix (codes "mssql:") _ _ e) in
    let (same_d, rest_d) = cut_at b':' d d' _ _ fd fd' rest in
    let (same_k, rest_k) = cut_at b':' k k' _ _ fk fk' rest_d in
    let (same_s, same_n) = cut_at b'.' s s' n n' fs fs' rest_k in
    (same_p, same_d, same_k, same_s, same_n)

-- the parts of a target as its key holds them
pub record Target : Type 0 where
  pub db_profile_id : Option Text
  pub object_type : Option Text
  pub schema : Option Text
  pub name : Option Text
  pub database : Option Text

abbrev pub target_key : Target → Option Text
target_key t = canonical_target_key t.db_profile_id t.object_type t.schema t.name t.database

-- No colon in the first three parts, and no full stop in the schema.
abbrev pub IsPlain : Target → Type 0
IsPlain t =
    IsFree b':' (normalize_part t.db_profile_id)
    × IsFree b':' (or_dash (normalize_part t.database))
    × IsFree b':' (normalize_part t.object_type)
    × IsFree b'.' (normalize_part t.schema)

if_some : (b : Bool) (x : Text) (k : Text) → (if b then none else some x) ≡ some k → x ≡ k
if_some true x k e = ground arith
if_some false x k e = ground arith

made_key :
    (t : Target) (k : Text)
    → target_key t ≡ some k
    → key_text
        (normalize_part t.db_profile_id)
        (or_dash (normalize_part t.database))
        (normalize_part t.object_type)
        (normalize_part t.schema)
        (normalize_part t.name)
      ≡ k
unfolding canonical_target_key
made_key t k e = if_some _ _ k e

-- Two targets with the same key are the same in every normalised part, where their profiles,
-- databases and types hold no colon and their schemas no full stop.
pub canonical_target_key-injective :
    (t u : Target) (k : Text)
    → IsPlain t
    → IsPlain u
    → target_key t ≡ some k
    → target_key u ≡ some k
    → (normalize_part t.db_profile_id ≡ normalize_part u.db_profile_id)
      × (or_dash (normalize_part t.database) ≡ or_dash (normalize_part u.database))
      × (normalize_part t.object_type ≡ normalize_part u.object_type)
      × (normalize_part t.schema ≡ normalize_part u.schema)
      × (normalize_part t.name ≡ normalize_part u.name)
canonical_target_key-injective t u k f g e h =
    key_text-injective _ _ _ _ _ _ _ _ _ _ f.0 g.0 f.1 g.1 f.2 g.2 f.3 g.3
      (made_key t k e ∙ sym (made_key u k h))
