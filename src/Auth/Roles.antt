-- ===== src/Auth/Roles.antt =====
-- apps/api/api_app/memory_repository.py, add_auth_actor and resolve_actor_roles: which roles an actor
-- may come to have, and that a registered actor is found.
use mssql_ai_project.Base.{
  ◌≡◌, ◌∙◌, true, Option, some, List, [], ◌∷◌, map, filter, elem, arith, Bool-cases, Option-cases,
  All, inl, inr, ◌==◌,
}
use mssql_ai_project.Base.Text.{Text, text_eq, is_empty, strip, lower, upper}
use mssql_ai_project.Auth.{
  canonical_roles, canonical_role_set, Actor, VerifiedIdentity, Directory, text_or_empty, actor_at,
  set_actor, register, add_auth_actor, first_actor, resolve_actor_roles, lookup_candidates,
}

abbrev pub IsCanonical : List Text → Type 0
IsCanonical = All (λ role. elem role canonical_roles ≡ true)

IsCanonical-filter :
    (roles : List Text) → IsCanonical (filter (λ role. elem role canonical_roles) roles)
unfolding filter
IsCanonical-filter [] = tt
IsCanonical-filter (r ∷ rs) = elim (Bool-cases (elem r canonical_roles)) [
  | inl listed ↦ rw listed (listed, IsCanonical-filter rs)
  | inr other ↦ rw other (IsCanonical-filter rs)
]

canonical_role_set-IsCanonical : (roles : List Text) → IsCanonical (canonical_role_set roles)
unfolding canonical_role_set
canonical_role_set-IsCanonical roles = IsCanonical-filter (map (λ item. upper (strip item)) roles)

abbrev pub HasCanonicalRoles : Directory → Type 0
HasCanonicalRoles = All (λ (e : Text × Actor). IsCanonical e.1.roles)

set_actor-HasCanonicalRoles :
    (d : Directory) (key : Text) (actor : Actor)
    → HasCanonicalRoles d
    → IsCanonical actor.roles
    → HasCanonicalRoles (set_actor d key actor)
unfolding set_actor
set_actor-HasCanonicalRoles [] key actor h c = (c, tt)
set_actor-HasCanonicalRoles ((k, a) ∷ d) key actor h c = elim (Bool-cases (k == key)) [
  | inl same ↦ rw same (c, h.1)
  | inr other ↦ rw other (h.0, set_actor-HasCanonicalRoles d key actor h.1 c)
]

register-HasCanonicalRoles :
    (d : Directory) (candidate : Option Text) (actor : Actor)
    → HasCanonicalRoles d
    → IsCanonical actor.roles
    → HasCanonicalRoles (register d candidate actor)
unfolding register
register-HasCanonicalRoles d candidate actor h c =
    elim (Bool-cases (is_empty (text_or_empty candidate))) [
      | inl blank ↦ rw blank h
      | inr full ↦
          rw full
            (set_actor-HasCanonicalRoles d (lower (strip (text_or_empty candidate))) actor h c)
    ]

-- The arguments of a call of `add_auth_actor`.
pub record Registration : Type 0 where
  pub subject : Text
  pub login : Text
  pub email : Option Text
  pub roles : List Text
  pub display_name : Option Text

abbrev pub add : Registration → Directory → Directory
add r d = (add_auth_actor r.subject r.login r.email r.roles r.display_name d).1

unfoldable pub add_all : List Registration → Directory → Directory
add_all [] d = d
add_all (r ∷ rs) d = add_all rs (add r d)

add-HasCanonicalRoles :
    (r : Registration) (d : Directory) → HasCanonicalRoles d → HasCanonicalRoles (add r d)
unfolding add_auth_actor
add-HasCanonicalRoles r d h =
    let c = canonical_role_set-IsCanonical r.roles in
    register-HasCanonicalRoles _ r.email _
      (register-HasCanonicalRoles _ (some r.login) _
        (register-HasCanonicalRoles d (some r.subject) _ h c) c)
      c

add_all-HasCanonicalRoles :
    (rs : List Registration) (d : Directory)
    → HasCanonicalRoles d
    → HasCanonicalRoles (add_all rs d)
unfolding add_all
add_all-HasCanonicalRoles [] d h = h
add_all-HasCanonicalRoles (r ∷ rs) d h =
    add_all-HasCanonicalRoles rs (add r d) (add-HasCanonicalRoles r d h)

found-IsCanonical :
    (d : Directory) (key : Text) (actor : Actor)
    → HasCanonicalRoles d
    → actor_at d key ≡ some actor
    → IsCanonical actor.roles
unfolding actor_at
found-IsCanonical [] key actor h e = ground arith
found-IsCanonical ((k, a) ∷ d) key actor h e = elim (Bool-cases (k == key)) [
  | inl same ↦ rw (some_same (rw same at e)) at h.0
  | inr other ↦ found-IsCanonical d key actor h.1 (rw other at e)
]
  where
    some_same : some a ≡ some actor → a ≡ actor
    some_same q = ground arith

first_actor-IsCanonical :
    (d : Directory) (candidates : List Text) (actor : Actor)
    → HasCanonicalRoles d
    → first_actor d candidates ≡ some actor
    → IsCanonical actor.roles
unfolding first_actor
first_actor-IsCanonical d [] actor h e = ground arith
first_actor-IsCanonical d (c ∷ cs) actor h e = elim (Option-cases (actor_at d (lower (strip c)))) [
  | inl missing ↦ first_actor-IsCanonical d cs actor h (rw missing at e)
  | inr (a, found) ↦ found-IsCanonical d (lower (strip c)) actor h (found ∙ (rw found at e))
]

-- Whoever was registered with whatever roles, an actor that is resolved has no roles but `USER`,
-- `ADMIN` and `AUDITOR`.
pub resolve_actor_roles-IsCanonical :
    (registrations : List Registration) (identity : VerifiedIdentity) (actor : Actor)
    → resolve_actor_roles identity (add_all registrations []) ≡ some actor
    → IsCanonical actor.roles
unfolding resolve_actor_roles
resolve_actor_roles-IsCanonical registrations identity actor e =
    first_actor-IsCanonical (add_all registrations []) (lookup_candidates identity) actor
      (add_all-HasCanonicalRoles registrations [] tt) e
