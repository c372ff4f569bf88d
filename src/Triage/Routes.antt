-- ===== src/Triage/Routes.antt =====
-- What each route says of the incident's events.
use agentic_soc_triage_assis.Prelude.{
  true, false, ◌≡◌, Bool, List, String, intersects, is_empty, all, any, arith, text_equality,
}
use agentic_soc_triage_assis.Triage.Routing.{
  TriageRoute, Incident, deterministic_report, store_only, digest, decide_route, is_fully_blocked,
  high_value_rule_ids, is_likely_spi_state_desync, TriageOrigin, no_origin,
}
use agentic_soc_triage_assis.Detection.Model.{TextMethods, Event}
use agentic_soc_triage_assis.Detection.EventFacts.{is_blocked, is_allowed}

-- Is the incident summarised as blocked, without a row of its own?
abbrev pub claims_all_blocked : TriageRoute → Bool
claims_all_blocked deterministic_report = true
claims_all_blocked digest = true
claims_all_blocked _ = false

abbrev pub is_store_only : TriageRoute → Bool
is_store_only store_only = true
is_store_only _ = false

abbrev pub has_no_origin : TriageOrigin → Bool
has_no_origin no_origin = true
has_no_origin _ = false

module _ (text : TextMethods) (i : Incident) (events context : List Event) (rules : List String)
    (fallback : Bool) where
  -- Whatever Python's text methods give: an incident that goes to the digest or to a deterministic report
  -- has at least one event, all its events are blocked, none is allowed, no signal of it is from a
  -- high-value rule, and it is not a likely desynchronisation of the firewall's state.
  pub decide_route-blocked :
      claims_all_blocked (decide_route text i events context rules fallback).route ≡ true
      → (is_empty events ≡ false)
        × (all (is_blocked text) events ≡ true)
        × (any (is_allowed text) events ≡ false)
        × (intersects rules high_value_rule_ids ≡ false)
        × (is_likely_spi_state_desync text i events context fallback ≡ false)
  unfolding decide_route is_fully_blocked
  decide_route-blocked h = ground arith

  -- Whatever Python's text methods give: no route calls a provider, and an incident is without an origin
  -- exactly when it is only stored.
  pub decide_route-provider_free :
      let decision = decide_route text i events context rules fallback in
      (decision.llm_invoked ≡ false)
      × (has_no_origin decision.triage_origin ≡ is_store_only decision.route)
  unfolding decide_route
  decide_route-provider_free = ground arith
