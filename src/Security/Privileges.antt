-- ===== src/Security/Privileges.antt =====
-- What a token can make its bearer be allowed to do: agent/security/oidc_roles.py feeding
-- agent/security/authorization.py.
use agentic_soc_triage_assis.Security.Authorization.{
  Permission, has_permission, permissions_for_roles, same_permission, permissions_of_role, role_of,
}
use agentic_soc_triage_assis.Prelude.{
  ◌>>=◌, String, Option, [], none, some, true, false, inl, inr, refl, ◌≡◌, ◌∷◌, ◌||◌, ◌==◌, ◌∙◌,
  Bool, List, Dict, ℕ, any, contains, any-append, arith, get_entry, Bool-cases, text_equality, ap,
  eq_of_beq, ltb, subst, length,
}
use agentic_soc_triage_assis.Security.OidcRoles.{
  map_roles, ClaimValue, external_roles_of, OidcRoleMapper, append_new, map_claims, checked_roles,
  max_external_roles, is_bad_role,
}

-- A role name on its own gives the permission.
unfoldable pub role_grants : Permission → (role_name : String) → Bool
role_grants permission role_name =
    any (same_permission permission) (permissions_of_role (role_of role_name))

has_permission-any :
    (roles : List String) (permission : Permission)
    → has_permission roles permission ≡ any (role_grants permission) roles
unfolding has_permission permissions_for_roles role_grants
has_permission-any [] permission = refl
has_permission-any (role ∷ roles) permission =
    any-append (same_permission permission) (permissions_of_role (role_of role))
      (permissions_for_roles roles)
    ∙ ap (λ b. role_grants permission role || b) (has_permission-any roles permission)

-- The role that an external role is mapped to gives the permission.
abbrev pub mapped_grants : Permission → Option String → Bool
mapped_grants permission none = false
mapped_grants permission (some role_name) = role_grants permission role_name

contains-any :
    (p : String → Bool) (x : String) (xs : List String)
    → contains x xs ≡ true
    → any p xs ≡ (any p xs || p x)
contains-any p x [] h = absurd (ground arith)
contains-any p x (y ∷ xs) h = elim (Bool-cases (x == y)) [
  | inl same ↦ ground (arith, ap p (eq_of_beq x y same))
  | inr differ ↦ ground (arith, contains-any p x xs)
]

any-append_new :
    (permission : Permission) (mapped : Option String) (roles : List String)
    → any (role_grants permission) (append_new mapped roles)
      ≡ (any (role_grants permission) roles || mapped_grants permission mapped)
any-append_new permission none roles = ground arith
any-append_new permission (some role) roles = elim (Bool-cases (contains role roles)) [
  | inl there ↦ ground (arith, contains-any (role_grants permission) role roles there)
  | inr new ↦ ground (arith, any-append (role_grants permission) roles (role ∷ []))
]

any-map_roles :
    (permission : Permission) (mapping : Dict String String) (external_roles roles : List String)
    → any (role_grants permission) (map_roles mapping external_roles roles) ≡ (
        any (role_grants permission) roles
        || any (λ external. mapped_grants permission (get_entry external mapping)) external_roles)
unfolding map_roles
any-map_roles permission mapping [] roles = ground arith
any-map_roles permission mapping (external ∷ external_roles) roles = ground (
  arith,
  any-map_roles permission mapping external_roles (append_new (get_entry external mapping) roles),
  any-append_new permission (get_entry external mapping) roles,
)

abbrev pub or_empty : Option (List String) → List String
or_empty none = []
or_empty (some roles) = roles

-- The strings that a claim names, where it names strings.
abbrev pub claimed_roles : Option ClaimValue → List String
claimed_roles value = or_empty (external_roles_of value)

checked_roles-map :
    (text_length : String → ℕ) (mapping : Dict String String) (external_roles roles : List String)
    → (do checked ← checked_roles text_length external_roles; some (map_roles mapping checked []))
      ≡ some roles
    → map_roles mapping external_roles [] ≡ roles
unfolding checked_roles
checked_roles-map text_length mapping external_roles roles accepted =
    elim (Bool-cases (
      ltb max_external_roles (length external_roles)
      || any (is_bad_role text_length) external_roles)) [
        | inl bad ↦ absurd (ground (arith, accepted))
        | inr good ↦ ground (arith, accepted)
      ]

map_found :
    (text_length : String → ℕ) (mapping : Dict String String) (found : Option (List String))
    (roles : List String)
    → (do
      external_roles ← found
      checked ← checked_roles text_length external_roles
      some (map_roles mapping checked []))
      ≡ some roles
    → map_roles mapping (or_empty found) [] ≡ roles
map_found text_length mapping none roles accepted = absurd (ground (arith, accepted))
map_found text_length mapping (some external_roles) roles accepted =
    checked_roles-map text_length mapping external_roles roles accepted

module _ (text_length : String → ℕ) (mapper : OidcRoleMapper)
    (claims : String → Option ClaimValue) where
  -- Where the claims are accepted, and whatever the lengths of texts are: the roles that they are mapped
  -- to give a permission exactly if one of the external roles that the claim names is mapped to a role
  -- that gives it.
  pub map_claims-has_permission :
      (roles : List String) (permission : Permission)
      → map_claims text_length mapper claims ≡ some roles
      → has_permission roles permission
        ≡ any
            (λ external. mapped_grants permission (get_entry external mapper.role_mapping))
            (claimed_roles (claims mapper.roles_claim))
  unfolding map_claims
  map_claims-has_permission roles permission accepted =
      subst
        (λ r.
          has_permission r permission
          ≡ any (λ external. mapped_grants permission (get_entry external mapper.role_mapping))
              (claimed_roles (claims mapper.roles_claim)))
        (map_found text_length mapper.role_mapping (external_roles_of (claims mapper.roles_claim))
          roles accepted)
        (has_permission-any _ permission
          ∙ any-map_roles permission mapper.role_mapping (claimed_roles (claims mapper.roles_claim))
              [])
