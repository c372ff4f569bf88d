-- ===== src/Security/Tests.antt =====
-- Concrete claims and requests: the theorems on them.
use agentic_soc_triage_assis.Security.OidcRoles.{
  OidcRoleMapper, map_claims, new_role_mapper, external_roles_of, ClaimValue, all_texts, role_list,
  checked_roles, map_roles, put_all,
}
use agentic_soc_triage_assis.Prelude.{
  String, List, All, [], none, some, true, false, inl, inr, refl, ◌≡◌, ◌∷◌, ◌≤◌, Option, ℕ, any,
  arith, get_entry, map, put_entry, text_equality,
}
use agentic_soc_triage_assis.Security.Authorization.{has_permission, job_cancel}
use agentic_soc_triage_assis.Security.RateLimiting.{
  consume_each, is_valid_consumption, consume_valid, Consumption, new_rate_limiter, consume,
  clean_up, current_window, count_cost, decide, RateLimitDecision,
}
use agentic_soc_triage_assis.Security.Granted.{granted, IsWithin, granted_le}
use agentic_soc_triage_assis.Security.RateLimits.{fixed_windows, consume_each-fixed_windows}
use agentic_soc_triage_assis.Security.Privileges.{
  mapped_grants, claimed_roles, map_claims-has_permission,
}

abbrev mapper : OidcRoleMapper
mapper = new_role_mapper "roles" (("soc", "analyst") ∷ ("bot", "service") ∷ [])

abbrev token_claims : String → Option ClaimValue
token_claims name = some (role_list (some "bot" ∷ some "guest" ∷ some "soc" ∷ some "soc" ∷ []))

accepted_claims : map_claims (λ s. 4) mapper token_claims ≡ some ("service" ∷ "analyst" ∷ [])
unfolding map_claims external_roles_of all_texts checked_roles map_roles new_role_mapper put_all
    get_entry put_entry
accepted_claims = refl

map_claims-has_permission_example :
    has_permission ("service" ∷ "analyst" ∷ []) job_cancel
    ≡ any
        (λ external. mapped_grants job_cancel (get_entry external mapper.role_mapping))
        (claimed_roles (token_claims mapper.roles_claim))
map_claims-has_permission_example =
    map_claims-has_permission (λ s. 4) mapper token_claims ("service" ∷ "analyst" ∷ []) job_cancel
      accepted_claims

abbrev request : (key : String) (now : ℕ) → Consumption
request key now = record { key = key; limit = 1; window_seconds = 10; cost = 1; now = now }

abbrev requests : List Consumption
requests = request "a" 5 ∷ request "b" 6 ∷ request "a" 7 ∷ request "a" 20_000_000 ∷ []

consume_each-fixed_windows_example :
    consume_each requests new_rate_limiter ≡ fixed_windows requests (λ key. none)
consume_each-fixed_windows_example =
    consume_each-fixed_windows requests
      (omega arith, (omega arith, (omega arith, (omega arith, tt))))

consume_each_test :
    map
      (λ (answer : Option RateLimitDecision). elim answer [ none ↦ false | some d ↦ d.allowed ])
      (consume_each requests new_rate_limiter)
    ≡ true ∷ true ∷ false ∷ true ∷ []
unfolding consume_each consume consume_valid clean_up current_window count_cost decide
    is_valid_consumption
consume_each_test = refl

valid_request : is_valid_consumption (request "a" 5) ≡ true
unfolding is_valid_consumption
valid_request = refl

reset_of_request : (consume_valid (request "a" 5) new_rate_limiter).0.reset_at ≡ 10_000_005
unfolding consume_valid clean_up current_window count_cost decide
reset_of_request = refl

requests-IsWithin :
    All
      (IsWithin "a" 1 (consume_valid (request "a" 5) new_rate_limiter).0.reset_at)
      (request "b" 6 ∷ request "a" 7 ∷ [])
requests-IsWithin = rw reset_of_request ((omega arith, inl refl), ((omega arith, inr refl), tt))

granted_le_example :
    granted "a" (request "a" 5 ∷ request "b" 6 ∷ request "a" 7 ∷ []) new_rate_limiter ≤ 1
granted_le_example =
    granted_le (request "a" 5) (request "b" 6 ∷ request "a" 7 ∷ []) new_rate_limiter valid_request
      requests-IsWithin
