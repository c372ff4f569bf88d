-- ===== src/Security/OidcRoles.antt =====
-- `OidcRoleMapper` of agent/security/oidc_roles.py. Claims are read by `claims`, which is `none` for a
-- claim that is not there; `none` in a list is an element that is no string. Python's `len` of a text
-- is the parameter `text_length`.
use agentic_soc_triage_assis.Prelude.{
  ◌>>=◌, String, ℕ, List, Option, Dict, [], none, some, ◌∷◌, ◌++◌, ◌||◌, ◌==◌, if◌then◌else◌,
  put_entry, contains, get_entry, Bool, ltb, length, text_equality, any,
}

pub data ClaimValue : Type 0 where
  one_role : String → ClaimValue
  role_list : List (Option String) → ClaimValue
  other_value : ClaimValue

abbrev pub max_external_roles : ℕ
max_external_roles = 100

abbrev pub max_external_role_length : ℕ
max_external_role_length = 128

-- `all(isinstance(role, str) for role in value)`, with the strings.
unfoldable pub all_texts : List (Option String) → Option (List String)
all_texts [] = some []
all_texts (none ∷ values) = none
all_texts (some role ∷ values) = do roles ← all_texts values; some (role ∷ roles)

-- `none` stands for `ValueError("jwt_roles_invalid")`.
unfoldable pub external_roles_of : Option ClaimValue → Option (List String)
unfolding all_texts
external_roles_of none = some []
external_roles_of (some (one_role role)) = some (role ∷ [])
external_roles_of (some (role_list values)) = all_texts values
external_roles_of (some other_value) = none

pub record OidcRoleMapper : Type 0 where
  pub roles_claim : String
  pub role_mapping : Dict String String

-- `dict(role_mapping)` in the constructor.
unfoldable pub put_all : Dict String String → Dict String String → Dict String String
put_all mapping [] = mapping
put_all mapping (entry ∷ entries) = put_all (put_entry entry.0 entry.1 mapping) entries

unfoldable pub new_role_mapper : (roles_claim : String) → List (String × String) → OidcRoleMapper
unfolding put_all
new_role_mapper roles_claim role_mapping = record {
  roles_claim = roles_claim;
  role_mapping = put_all [] role_mapping;
}

abbrev pub append_new : Option String → List String → List String
append_new none mapped_roles = mapped_roles
append_new (some internal_role) mapped_roles =
    if contains internal_role mapped_roles
    then mapped_roles
    else mapped_roles ++ (internal_role ∷ [])

unfoldable pub map_roles :
    Dict String String → List String → (mapped_roles : List String) → List String
map_roles mapping [] mapped_roles = mapped_roles
map_roles mapping (external_role ∷ external_roles) mapped_roles =
    map_roles mapping external_roles (append_new (get_entry external_role mapping) mapped_roles)

module _ (text_length : String → ℕ) where
  abbrev pub is_bad_role : String → Bool
  is_bad_role role = (role == "") || ltb max_external_role_length (text_length role)

  unfoldable pub checked_roles : List String → Option (List String)
  checked_roles external_roles =
      if ltb max_external_roles (length external_roles) || any is_bad_role external_roles
      then none
      else some external_roles

  unfoldable pub map_claims :
      OidcRoleMapper → (claims : String → Option ClaimValue) → Option (List String)
  unfolding external_roles_of checked_roles map_roles
  map_claims mapper claims = do
    external_roles ← external_roles_of (claims mapper.roles_claim)
    checked ← checked_roles external_roles
    some (map_roles mapper.role_mapping checked [])
