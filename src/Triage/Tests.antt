-- ===== src/Triage/Tests.antt =====
-- Concrete incidents, claims and calls: the theorems on them, and tests of the definitions.
use agentic_soc_triage_assis.Triage.Routing.{
  Incident, decide_route, is_fully_blocked, high_value_rule_ids, is_likely_spi_state_desync,
  spi_response_events, digest, RoutingDecision, low_severity_fully_blocked_scanner, deterministic,
}
use agentic_soc_triage_assis.Prelude.{
  List, is_empty, All, [], some, true, false, inr, refl, ◌≡◌, ◌∷◌, all, String, intersects, any,
  arith, ap, text_equality,
}
use agentic_soc_triage_assis.Triage.Routes.{decide_route-blocked, claims_all_blocked}
use agentic_soc_triage_assis.Triage.Claims.{
  ClaimType, validate_claims, EvidenceResult, TriageClaim, IsSupported, judge_claim, other_claim,
  validate_claims-IsSupported, validated, data_exfiltration,
}
use agentic_soc_triage_assis.Triage.Lifecycle.{
  StoredIncident, transitions, IsTrail, transition, transitions-IsTrail, begun,
}
use agentic_soc_triage_assis.Triage.Breaker.{
  IsSound, is_open, new_breaker, after_calls, failing, failing_at, succeeding, failures-open,
  checking, after_calls-IsSound,
}
use agentic_soc_triage_assis.Detection.Model.{low, Event}
use agentic_soc_triage_assis.Detection.Samples.{plain_text, sample_event}
use agentic_soc_triage_assis.Detection.EventFacts.{is_blocked, is_allowed, is_spi_anomaly_event}

abbrev incident : Incident
incident = record { incident_family = "network_scanning"; severity = low }

abbrev blocked_events : List Event
blocked_events = sample_event "e1" 10 ∷ sample_event "e2" 20 ∷ []

blocked_route :
    decide_route plain_text incident blocked_events [] ("horizontal_scan" ∷ []) true ≡ record {
      route = digest;
      reason = low_severity_fully_blocked_scanner;
      triage_origin = deterministic;
      llm_invoked = false;
    }
unfolding decide_route is_fully_blocked is_blocked is_allowed is_likely_spi_state_desync
    spi_response_events is_spi_anomaly_event
blocked_route = refl

decide_route-blocked_example :
    (is_empty blocked_events ≡ false)
    × (all (is_blocked plain_text) blocked_events ≡ true)
    × (any (is_allowed plain_text) blocked_events ≡ false)
    × (intersects ("horizontal_scan" ∷ []) high_value_rule_ids ≡ false)
    × (is_likely_spi_state_desync plain_text incident blocked_events [] true ≡ false)
decide_route-blocked_example =
    decide_route-blocked plain_text incident blocked_events [] ("horizontal_scan" ∷ []) true
      (ap (λ (d : RoutingDecision). claims_all_blocked d.route) blocked_route)

abbrev results : List EvidenceResult
results =
    record { evidence_id = "v1"; event_id = "e1"; is_validated = true }
    ∷ record { evidence_id = "v2"; event_id = "e2"; is_validated = false }
    ∷ []

abbrev claim_on : ClaimType → (evidence event : String) → TriageClaim
claim_on claim_type evidence event = record {
  claim_id = evidence;
  claim_type = claim_type;
  supporting_evidence_ids = evidence ∷ [];
  supporting_event_ids = event ∷ [];
}

abbrev sample_claims : List TriageClaim
sample_claims =
    claim_on other_claim "v1" "e1"
    ∷ claim_on other_claim "v2" "e2"
    ∷ claim_on data_exfiltration "v1" "e1"
    ∷ []

validate_claims-IsSupported_example :
    All (IsSupported results) (validate_claims sample_claims results false).0
validate_claims-IsSupported_example = validate_claims-IsSupported sample_claims results false

validate_claims_test :
    (validate_claims sample_claims results false).0 ≡ claim_on other_claim "v1" "e1" ∷ []
unfolding validate_claims judge_claim validated
validate_claims_test = refl

abbrev new_incident : StoredIncident
new_incident = record { status = "new"; version = some 1; audit_events = [] }

transitions-IsTrail_example :
    let after = transitions new_incident ("triaged" ∷ "closed" ∷ "resolved" ∷ []) in
    IsTrail "new" after.audit_events after.status
transitions-IsTrail_example =
    transitions-IsTrail "new" new_incident ("triaged" ∷ "closed" ∷ "resolved" ∷ []) begun

transitions_test :
    (transitions new_incident ("triaged" ∷ "closed" ∷ "resolved" ∷ [])).status ≡ "resolved"
unfolding transitions transition
transitions_test = refl

fresh-IsSound : IsSound (new_breaker 3 60)
fresh-IsSound = record { closed_below = λ _. refl; opened_with_failures = λ e. cc e }

after_calls-IsSound_example : IsSound (
    after_calls
      ((failing, 1) ∷ (succeeding, 2) ∷ (failing, 3) ∷ (checking, 4) ∷ [])
      (new_breaker 3 60))
after_calls-IsSound_example =
    after_calls-IsSound ((failing, 1) ∷ (succeeding, 2) ∷ (failing, 3) ∷ (checking, 4) ∷ [])
      (new_breaker 3 60) fresh-IsSound

failures-open_example :
    is_open (after_calls (failing_at (1 ∷ 2 ∷ 3 ∷ [])) (new_breaker 3 60)).state ≡ true
failures-open_example =
    failures-open (1 ∷ 2 ∷ 3 ∷ []) (new_breaker 3 60) (inr (omega arith)) (omega arith)
