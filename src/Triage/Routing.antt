-- ===== src/Triage/Routing.antt =====
-- `decide_route` of agent/triage/routing.py and its helpers. An incident is here its family and its
-- severity, all that the decision reads of it.
use agentic_soc_triage_assis.Prelude.{
  [], true, false, ◌∷◌, ◌&&◌, ◌==◌, if◌then◌else◌, String, List, Bool, filter, not, intersects,
  contains, any, is_empty, all, text_equality, sort_by, not_after, compare_text,
}
use agentic_soc_triage_assis.Detection.Model.{Severity, TextMethods, Event, low}
use agentic_soc_triage_assis.Detection.EventFacts.{
  event_tcp_flag_tokens, is_allowed, is_spi_anomaly_event, is_blocked,
}
use agentic_soc_triage_assis.Detection.Related.{events_are_bidirectionally_related}

pub data TriageRoute : Type 0 where
  individual_triage deterministic_report digest store_only : TriageRoute

pub data RouteReason : Type 0 where
  high_value_rule : (rule_id : String) → RouteReason
  allowed_connection_observed verified_spi_state_desynchronization : RouteReason
  not_fully_blocked_conservative low_severity_fully_blocked_scanner : RouteReason
  fully_blocked_reconnaissance : RouteReason

pub data TriageOrigin : Type 0 where
  llm deterministic no_origin : TriageOrigin

pub record RoutingDecision : Type 0 where
  pub route : TriageRoute
  pub reason : RouteReason
  pub triage_origin : TriageOrigin
  pub llm_invoked : Bool

pub record Incident : Type 0 where
  pub incident_family : String
  pub severity : Severity

abbrev pub high_value_rule_ids : List String
high_value_rule_ids =
    "inbound_sensitive_service_allowed" ∷ "critical_management_service_exposed"
    ∷ "dnat_sensitive_service_exposure" ∷ "wan_to_lan_sensitive_service_allowed"
    ∷ "wan_to_dmz_administrative_service_allowed" ∷ "blocked_then_allowed_same_service"
    ∷ "multi_source_allowed_sensitive_service" ∷ "scan_followed_by_allowed_connection"
    ∷ "spi_followed_by_allowed_connection" ∷ []

abbrev pub response_oriented_flags : List String
response_oriented_flags = "ACK" ∷ "RST" ∷ "FIN" ∷ []

abbrev pub is_low : Severity → Bool
is_low low = true
is_low _ = false

-- `sorted(high_value_rules)[0]`, which is only read where there is one.
abbrev pub first_or_empty : List String → String
first_or_empty [] = ""
first_or_empty (rule_id ∷ rule_ids) = rule_id

unfoldable pub first_high_value_rule : List String → String
first_high_value_rule signal_rule_ids = first_or_empty (
    sort_by (λ a b. not_after (compare_text a b))
      (filter (λ rule_id. contains rule_id high_value_rule_ids) signal_rule_ids))

abbrev pub batch_enrichment : RouteReason → RoutingDecision
batch_enrichment reason = record {
  route = individual_triage;
  reason = reason;
  triage_origin = deterministic;
  llm_invoked = false;
}

module _ (text : TextMethods) where
  unfoldable pub response_oriented_without_syn : Event → Bool
  response_oriented_without_syn event =
      let tokens = event_tcp_flag_tokens text event in
      not (contains "SYN" tokens) && intersects tokens response_oriented_flags

  unfoldable pub spi_response_events : List Event → (fallback_raw_match : Bool) → List Event
  unfolding response_oriented_without_syn
  spi_response_events incident_events fallback_raw_match =
      filter
        (λ event.
          is_spi_anomaly_event text event fallback_raw_match && response_oriented_without_syn event)
        incident_events

  -- Is the context event allowed and related to one of the SPI events?
  unfoldable pub is_allowed_flow_of : List Event → Event → Bool
  is_allowed_flow_of spi_events context_event =
      is_allowed text context_event
      && any (λ spi_event. events_are_bidirectionally_related text spi_event context_event)
          spi_events

  unfoldable pub is_likely_spi_state_desync :
      Incident
      → (incident_events related_context_events : List Event) → (fallback_raw_match : Bool) → Bool
  is_likely_spi_state_desync incident incident_events related_context_events fallback_raw_match =
      let spi_events = spi_response_events incident_events fallback_raw_match in
      if not (incident.incident_family == "network_anomaly")
      then false
      else if is_empty spi_events
      then false
      else any (is_allowed_flow_of spi_events) related_context_events

  unfoldable pub is_fully_blocked : List Event → Bool
  is_fully_blocked incident_events =
      not (is_empty incident_events) && all (is_blocked text) incident_events

  unfoldable pub decide_route :
      Incident
      → (incident_events related_context_events : List Event) → (signal_rule_ids : List String)
      → (fallback_raw_match : Bool) → RoutingDecision
  decide_route incident incident_events related_context_events signal_rule_ids fallback_raw_match =
      if intersects signal_rule_ids high_value_rule_ids
      then batch_enrichment (high_value_rule (first_high_value_rule signal_rule_ids))
      else if any (is_allowed text) incident_events
      then batch_enrichment allowed_connection_observed
      else if is_likely_spi_state_desync incident incident_events related_context_events
          fallback_raw_match
      then record {
        route = store_only;
        reason = verified_spi_state_desynchronization;
        triage_origin = no_origin;
        llm_invoked = false;
      }
      else if not (is_fully_blocked incident_events)
      then batch_enrichment not_fully_blocked_conservative
      else if incident.incident_family == "network_scanning" && is_low incident.severity
      then record {
        route = digest;
        reason = low_severity_fully_blocked_scanner;
        triage_origin = deterministic;
        llm_invoked = false;
      }
      else record {
        route = deterministic_report;
        reason = fully_blocked_reconnaissance;
        triage_origin = deterministic;
        llm_invoked = false;
      }
