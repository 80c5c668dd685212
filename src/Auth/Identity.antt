-- ===== src/Auth/Identity.antt =====
-- apps/api/api_app/auth.py: what a verified identity and a token are known to be.
use mssql_ai_project.Base.{
  ◌≡◌, refl, subst, Bool, true, false, not, ◌||◌, Option, none, some, List, [], ◌∷◌, ◌++◌, elem,
  arith, Bool-cases, inl, inr, if◌then◌else◌,
}
use mssql_ai_project.Base.Text.{Text, codes, text_eq, text_beq_iff, is_empty, strip, strip_idem}
use mssql_ai_project.Base.Json
use mssql_ai_project.Base.Json.{Json, Fields}
use mssql_ai_project.Base.Values.{str_or_empty}
use mssql_ai_project.Base.Result.{Result, ok, err}
use mssql_ai_project.Auth.{
  AuthError, authentication_required, auth_configuration, AuthSettings, VerifiedIdentity,
  text_or_empty, with_candidate, lookup_candidates, oidc_configured, bearer_token, partition_space,
  extract_bearer_token, identity_from_claims, identity_of, verify,
}

-- stripped, and not blank
abbrev pub IsClean : Text → Type 0
IsClean s = (strip s ≡ s) × (is_empty s ≡ false)

strip-IsClean : (s : Text) → is_empty (strip s) ≡ false → IsClean (strip s)
strip-IsClean s h = (strip_idem s, h)

picked :
    {A : Type 0} (b : Bool) (e : AuthError) (x y : A)
    → (if b then err e else ok x) ≡ ok y
    → (b ≡ false) × (x ≡ y)
picked true e x y h = ground arith
picked false e x y h = ground arith

second_false : (a b : Bool) → (a || b) ≡ false → b ≡ false
second_false a b h = ground arith

bearer-IsClean : (p : Text × Text) (token : Text) → bearer_token p ≡ ok token → IsClean token
bearer-IsClean (scheme, rest) token h =
    let (passed, same) = picked _ authentication_required (strip rest) token h in
    subst IsClean same (strip-IsClean rest (second_false _ (is_empty (strip rest)) passed))

-- A token that `extract_bearer_token` returns is stripped and not empty.
pub extract_bearer_token-IsClean :
    (authorization : Option Text) (token : Text)
    → extract_bearer_token authorization ≡ ok token
    → IsClean token
unfolding extract_bearer_token
extract_bearer_token-IsClean authorization token h =
    elim (Bool-cases (is_empty (strip (text_or_empty authorization)))) [
      | inl blank ↦ ground arith
      | inr full ↦
          bearer-IsClean (partition_space (strip (text_or_empty authorization))) token
            (ground arith)
    ]

-- no text twice
abbrev pub IsDistinct : List Text → Type 0
IsDistinct [] = Unit
IsDistinct (s ∷ ss) = (elem s ss ≡ false) × IsDistinct ss

abbrev pub AllClean : List Text → Type 0
AllClean [] = Unit
AllClean (s ∷ ss) = IsClean s × AllClean ss

elem-last :
    (s v : Text) (ss : List Text)
    → elem s ss ≡ false
    → elem v (s ∷ ss) ≡ false
    → elem s (ss ++ v ∷ []) ≡ false
unfolding elem
elem-last s v [] h n = ground (arith, text_beq_iff s v, text_beq_iff v s)
elem-last s v (t ∷ ss) h n = ground (arith, text_beq_iff s v, text_beq_iff v s, elem-last s v ss)

IsDistinct-append :
    (ss : List Text) (v : Text) → IsDistinct ss → elem v ss ≡ false → IsDistinct (ss ++ v ∷ [])
unfolding elem
IsDistinct-append [] v h n = (refl, tt)
IsDistinct-append (s ∷ ss) v h n =
    (elem-last s v ss h.0 n, IsDistinct-append ss v h.1 (ground arith))

AllClean-append : (ss : List Text) (v : Text) → AllClean ss → IsClean v → AllClean (ss ++ v ∷ [])
AllClean-append [] v h c = (c, tt)
AllClean-append (s ∷ ss) v h c = (h.0, AllClean-append ss v h.1 c)

with_candidate-keeps :
    (seen : List Text) (candidate : Option Text)
    → IsDistinct seen × AllClean seen
    → IsDistinct (with_candidate seen candidate) × AllClean (with_candidate seen candidate)
unfolding with_candidate
with_candidate-keeps seen candidate h =
    elim (Bool-cases (is_empty (strip (text_or_empty candidate)))) [
      | inl blank ↦ rw blank h
      | inr full ↦ elim (Bool-cases (elem (strip (text_or_empty candidate)) seen)) [
        | inl old ↦ rw (full, old) h
        | inr new ↦
            rw (full, new)
              (
                IsDistinct-append seen (strip (text_or_empty candidate)) h.0 new,
                AllClean-append seen (strip (text_or_empty candidate)) h.1
                    (strip-IsClean (text_or_empty candidate) full),
              )
      ]
    ]

-- The names by which an identity is looked up are stripped and not blank, and none stands twice.
pub lookup_candidates-IsDistinct :
    (identity : VerifiedIdentity)
    → IsDistinct (lookup_candidates identity) × AllClean (lookup_candidates identity)
unfolding lookup_candidates
lookup_candidates-IsDistinct identity = with_candidate-keeps _ (some identity.subject) (
    with_candidate-keeps _ identity.email
      (with_candidate-keeps [] identity.preferred_username (tt, tt)))

module _ (repr : Json → Text) (decode : AuthSettings → Text → Option Fields) where
  subject-IsClean :
      (claims : Fields) (identity : VerifiedIdentity)
      → identity_from_claims repr claims ≡ ok identity
      → IsClean identity.subject
  unfolding identity_from_claims
  subject-IsClean claims identity h =
      let (full, same) = picked _ authentication_required _ identity h in
      subst (λ (i : VerifiedIdentity). IsClean i.subject) same
        (strip-IsClean (str_or_empty repr (Json.get claims (codes "sub"))) full)

  -- What `verify` comes to, with its test and the decoded claims apart.
  abbrev outcome : Bool → Option Fields → Result AuthError VerifiedIdentity
  outcome configured claims =
      if not configured then err auth_configuration else identity_of repr decode claims

  outcome-IsClean :
      (configured : Bool) (claims : Option Fields) (identity : VerifiedIdentity)
      → outcome configured claims ≡ ok identity
      → (configured ≡ true) × ((c : Fields) × (claims ≡ some c)) × IsClean identity.subject
  outcome-IsClean true none identity h = ground arith
  outcome-IsClean true (some claims) identity h =
      (refl, (claims, refl), subject-IsClean claims identity h)
  outcome-IsClean false claims identity h = ground arith

  -- An identity is returned for a token only if all OIDC settings are there and the token was
  -- decoded, and then its subject is stripped and not blank.
  pub verify_lem :
      (settings : AuthSettings) (token : Text) (identity : VerifiedIdentity)
      → verify repr decode settings token ≡ ok identity
      → (oidc_configured settings ≡ true)
        × ((claims : Fields) × (decode settings token ≡ some claims))
        × IsClean identity.subject
  unfolding verify
  verify_lem settings token identity h =
      outcome-IsClean (oidc_configured settings) (decode settings token) identity h
