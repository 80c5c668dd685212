-- ===== src/Auth/Checks.antt =====
-- apps/api/api_app/auth.py at concrete inputs.
use mssql_ai_project.Base.{◌≡◌, refl, true, Option, none, some, List, [], ◌∷◌, elem}
use mssql_ai_project.Base.Text.{Text, codes, text_eq, strip, lower, is_space}
use mssql_ai_project.Base.Json
use mssql_ai_project.Base.Json.{Json, str, Fields, empty, field}
use mssql_ai_project.Base.Values.{truthy, py_str}
use mssql_ai_project.Base.Result.{ok}
use mssql_ai_project.Auth.{
  AuthSettings, VerifiedIdentity, Actor, lookup_candidates, oidc_configured, extract_bearer_token,
  identity_from_claims, verify, string_claim, resolve_actor_roles, new_actor, partition_space,
  add_auth_actor, register, set_actor, actor_at, first_actor, with_candidate,
}
use mssql_ai_project.Auth.Identity.{IsClean, verify_lem}
use mssql_ai_project.Auth.Roles.{
  IsCanonical, Registration, add_all, resolve_actor_roles-IsCanonical,
}

token_found : extract_bearer_token (some (codes " Bearer  abc ")) ≡ ok (codes "abc")
unfolding extract_bearer_token strip is_space lower partition_space
token_found = refl

abbrev kim : VerifiedIdentity
kim = record {
  subject = codes "kim";
  email = some (codes "kim@corp");
  preferred_username = some (codes " kim ");
  name = none;
}

abbrev settings : AuthSettings
settings = record {
  enforcement_enabled = true;
  issuer = codes "https://idp";
  audience = codes "api";
  jwks_url = codes "https://idp/keys";
}

abbrev claims : Fields
claims = field (codes "sub") (str (codes " kim ")) empty

abbrev decoded : AuthSettings → Text → Option Fields
decoded s token = some claims

abbrev subject_only : VerifiedIdentity
subject_only = record {
  subject = codes "kim";
  email = none;
  preferred_username = none;
  name = none;
}

verified : verify (λ v. []) decoded settings (codes "abc") ≡ ok subject_only
unfolding verify oidc_configured identity_from_claims strip Json.get truthy py_str is_space
    string_claim
verified = refl

verify_lem_example :
    (oidc_configured settings ≡ true)
    × ((c : Fields) × (decoded settings (codes "abc") ≡ some c))
    × IsClean subject_only.subject
verify_lem_example = verify_lem (λ v. []) decoded settings (codes "abc") subject_only verified

abbrev registrations : List Registration
registrations =
    record {
      subject = codes "kim";
      login = codes "KIM";
      email = none;
      roles = codes "admin" ∷ codes "root" ∷ [];
      display_name = none;
    }
    ∷ []

abbrev kim_actor : Actor
kim_actor = new_actor (codes "kim") (codes "KIM") none (codes "admin" ∷ codes "root" ∷ []) none

kim_found : resolve_actor_roles kim (add_all registrations []) ≡ some kim_actor
unfolding resolve_actor_roles add_all first_actor lookup_candidates with_candidate strip is_space
    elem actor_at add_auth_actor register set_actor lower
kim_found = refl

resolve_actor_roles-IsCanonical_example : IsCanonical kim_actor.roles
resolve_actor_roles-IsCanonical_example =
    resolve_actor_roles-IsCanonical registrations kim kim_actor kim_found
