-- ===== src/Auth.antt =====
-- apps/api/api_app/auth.py, and the actors of apps/api/api_app/memory_repository.py: who sends a
-- request, and with which roles. A set of roles is a list of which only membership is read. The
-- verification of a token (the library `jwt` and the keys of the issuer) is the parameter `decode`.
pub mod Identity
pub mod Roles
mod Checks
use mssql_ai_project.Base.{
  Bool, true, false, not, ◌&&◌, ◌||◌, String, Option, none, some, List, [], ◌∷◌, ◌++◌, map, filter,
  elem, nat_beq, if◌then◌else◌, ◌==◌,
}
use mssql_ai_project.Base.Text.{Text, codes, text_eq, is_empty, strip, lower, upper}
use mssql_ai_project.Base.Json
use mssql_ai_project.Base.Json.{Json, null, Fields}
use mssql_ai_project.Base.Values.{py_str, str_or_empty}
use mssql_ai_project.Base.Env.{env_flag}
use mssql_ai_project.Base.Result.{Result, ok, err}

unfoldable pub canonical_roles : List Text
canonical_roles = codes "USER" ∷ codes "ADMIN" ∷ codes "AUDITOR" ∷ []

pub data AuthError : Type 0 where
  -- `AuthConfigurationError`
  auth_configuration : AuthError
  -- `AuthenticationRequiredError`
  authentication_required : AuthError

pub record AuthSettings : Type 0 where
  pub enforcement_enabled : Bool
  pub issuer : Text
  pub audience : Text
  pub jwks_url : Text

unfoldable pub oidc_configured : AuthSettings → Bool
oidc_configured settings =
    not (is_empty settings.issuer)
    && not (is_empty settings.audience)
    && not (is_empty settings.jwks_url)

pub record VerifiedIdentity : Type 0 where
  pub subject : Text
  pub email : Option Text
  pub preferred_username : Option Text
  pub name : Option Text

pub record Actor : Type 0 where
  pub actor_id : Text
  pub login : Text
  pub email : Option Text
  pub roles : List Text
  pub display_name : Option Text

-- `value or ""`
abbrev pub text_or_empty : Option Text → Text
text_or_empty none = []
text_or_empty (some s) = s

-- One turn of the loop of `lookup_candidates`.
unfoldable pub with_candidate : List Text → Option Text → List Text
with_candidate seen candidate =
    let value : Text = strip (text_or_empty candidate) in
    if not (is_empty value) && not (elem value seen) then seen ++ value ∷ [] else seen

unfoldable pub lookup_candidates : VerifiedIdentity → List Text
lookup_candidates identity =
    with_candidate (with_candidate (with_candidate [] identity.preferred_username) identity.email)
      (some identity.subject)

-- `os.getenv(name, "").strip()`
abbrev pub env_text : (String → Option Text) → String → Text
env_text getenv name = strip (text_or_empty (getenv name))

-- `env_bool` is `_env_flag` of the tool cache.
unfoldable pub load_auth_settings : (String → Option Text) → AuthSettings
load_auth_settings getenv = record {
  enforcement_enabled = env_flag getenv "AUTH_RBAC_ENFORCEMENT" false;
  issuer = env_text getenv "OIDC_ISSUER";
  audience = env_text getenv "OIDC_AUDIENCE";
  jwks_url = env_text getenv "OIDC_JWKS_URL";
}

-- `value.partition(" ")`, its first and its last part
unfoldable pub partition_space : Text → Text × Text
partition_space [] = ([], [])
partition_space (c ∷ s) =
    let (scheme, token) = partition_space s in if nat_beq c 32 then ([], s) else (c ∷ scheme, token)

abbrev pub bearer_token : Text × Text → Result AuthError Text
bearer_token (scheme, token) =
    if not (lower scheme == codes "bearer") || is_empty (strip token)
    then err authentication_required
    else ok (strip token)

unfoldable pub extract_bearer_token : Option Text → Result AuthError Text
extract_bearer_token authorization =
    let value : Text = strip (text_or_empty authorization) in
    if is_empty value then err authentication_required else bearer_token (partition_space value)

-- `text or None`
abbrev pub or_none : Text → Option Text
or_none [] = none
or_none (c ∷ s) = some (c ∷ s)

module _ (repr : Json → Text) where
  unfoldable pub string_claim : Fields → Text → Option Text
  string_claim claims key = elim (Json.get claims key) [
    | none ↦ none
    | some null ↦ none
    | some value ↦ or_none (strip (py_str repr value))
  ]

  unfoldable pub identity_from_claims : Fields → Result AuthError VerifiedIdentity
  identity_from_claims claims =
      let subject : Text = strip (str_or_empty repr (Json.get claims (codes "sub"))) in
      if is_empty subject
      then err authentication_required
      else ok (record {
        subject = subject;
        email = string_claim claims (codes "email");
        preferred_username = string_claim claims (codes "preferred_username");
        name = string_claim claims (codes "name");
      })

  module _ (decode : AuthSettings → Text → Option Fields) where
    abbrev pub identity_of : Option Fields → Result AuthError VerifiedIdentity
    identity_of none = err authentication_required
    identity_of (some claims) = identity_from_claims claims

    -- `OidcJwtVerifier.verify`
    unfoldable pub verify : AuthSettings → Text → Result AuthError VerifiedIdentity
    verify settings token =
        if not (oidc_configured settings)
        then err auth_configuration
        else identity_of (decode settings token)

unfoldable pub canonical_role_set : List Text → List Text
canonical_role_set roles =
    filter (λ role. elem role canonical_roles) (map (λ item. upper (strip item)) roles)

-- `auth_actors`, by stripped and lowered names
abbrev pub Directory : Type 0
Directory = List (Text × Actor)

unfoldable pub actor_at : Directory → Text → Option Actor
actor_at [] key = none
actor_at ((k, a) ∷ d) key = if k == key then some a else actor_at d key

unfoldable pub set_actor : Directory → Text → Actor → Directory
set_actor [] key actor = (key, actor) ∷ []
set_actor ((k, a) ∷ d) key actor =
    let rest = set_actor d key actor in if k == key then (k, actor) ∷ d else (k, a) ∷ rest

-- `if candidate: auth_actors[candidate.strip().lower()] = actor`
unfoldable pub register : Directory → Option Text → Actor → Directory
register d candidate actor =
    if is_empty (text_or_empty candidate)
    then d
    else set_actor d (lower (strip (text_or_empty candidate))) actor

abbrev pub new_actor : Text → Text → Option Text → List Text → Option Text → Actor
new_actor subject login email roles display_name = record {
  actor_id = subject;
  login = login;
  email = email;
  roles = canonical_role_set roles;
  display_name = display_name;
}

unfoldable pub add_auth_actor :
    Text → Text → Option Text → List Text → Option Text → Directory → Actor × Directory
add_auth_actor subject login email roles display_name d =
    let actor : Actor = new_actor subject login email roles display_name in
    (actor, register (register (register d (some subject) actor) (some login) actor) email actor)

-- `if actor is not None: return actor`
abbrev pub or_later : Option Actor → Option Actor → Option Actor
or_later none rest = rest
or_later (some actor) rest = some actor

-- the first candidate that has an actor
unfoldable pub first_actor : Directory → List Text → Option Actor
first_actor d [] = none
first_actor d (candidate ∷ candidates) =
    or_later (actor_at d (lower (strip candidate))) (first_actor d candidates)

unfoldable pub resolve_actor_roles : VerifiedIdentity → Directory → Option Actor
resolve_actor_roles identity d = first_actor d (lookup_candidates identity)
