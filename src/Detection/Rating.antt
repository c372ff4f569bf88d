-- ===== src/Detection/Rating.antt =====
-- agent/detection/scoring.py, from the events to the severity: `derive_incident_severity_facts`,
-- `calculate_incident_severity` and `calculate_incident_confidence`, with the ports and the effective
-- destination of agent/detection/detectors/exposure_helpers.py.
use agentic_soc_triage_assis.Prelude.{
  List, String, ℕ, Bool, [], none, some, true, false, ◌∷◌, ◌++◌, ◌+◌, ◌&&◌, ◌||◌, if◌then◌else◌,
  is_empty, Option, Dict, map, intersects, max, filter, min, leb, is_some, put_entry, get_entry,
  contains, length, nat_beq, take, add_member, to_set, ltb, sort_by, text_equality, number_equality,
}
use agentic_soc_triage_assis.Detection.Model.{
  Event, TextMethods, Severity, Signal, severity_rank, informational, low, medium, high, critical,
}
use agentic_soc_triage_assis.Detection.Scoring.{
  AssetValue, Targeting, IncidentSeverityFacts, standard_asset, targeted, critical_asset,
  sensitive_asset, broad,
}
use agentic_soc_triage_assis.Detection.Related.{present_port, present_text}
use agentic_soc_triage_assis.Detection.EventFacts.{is_allowed, is_blocked}

abbrev pub sensitive_service_ports : List ℕ
sensitive_service_ports =
    20 ∷ 21 ∷ 22 ∷ 23 ∷ 135 ∷ 139 ∷ 389 ∷ 445 ∷ 1433 ∷ 3306 ∷ 3389 ∷ 5432 ∷ 5900 ∷ []

abbrev pub critical_management_ports : List ℕ
critical_management_ports = 161 ∷ 623 ∷ 2375 ∷ 5985 ∷ 6379 ∷ 9200 ∷ 10250 ∷ 11211 ∷ 27017 ∷ []

-- `event.translated_dst_ip or event.dst_ip`, where the caller drops an empty text.
unfoldable pub effective_destination_ip : Event → List String
effective_destination_ip event =
    if is_empty (present_text event.translated_dst_ip)
    then present_text event.dst_ip
    else present_text event.translated_dst_ip

unfoldable pub effective_destination_port : Event → Option ℕ
effective_destination_port event =
    if is_some event.translated_dst_port then event.translated_dst_port else event.dst_port

-- `{event.event_id: event for event in events}`: the last event with an id.
unfoldable pub index_events : List Event → Dict String Event → Dict String Event
index_events [] index = index
index_events (event ∷ events) index = index_events events (put_entry event.event_id event index)

unfoldable pub unique_events : List Event → List Event
unique_events events = map (λ (entry : String × Event). entry.1) (index_events events [])

unfoldable pub destinations_of : List Event → List String
destinations_of [] = []
destinations_of (event ∷ events) = effective_destination_ip event ++ destinations_of events

unfoldable pub ports_of : List Event → List ℕ
ports_of [] = []
ports_of (event ∷ events) = present_port (effective_destination_port event) ++ ports_of events

-- `if allowed_ports & CRITICAL_MANAGEMENT_PORTS`, and what follows.
unfoldable pub asset_value_of : (allowed_ports : List ℕ) → AssetValue
asset_value_of allowed_ports =
    if intersects allowed_ports critical_management_ports
    then critical_asset
    else if intersects allowed_ports sensitive_service_ports
    then sensitive_asset
    else standard_asset

abbrev pub ports_at : String → Dict String (List ℕ) → List ℕ
ports_at destination sensitive = elim (get_entry destination sensitive) [
  | none ↦ []
  | some ports ↦ ports
]

-- The loop body: the ports and destinations of one event are lists of at most one element.
unfoldable pub add_sensitive_port :
    (destinations : List String) (ports : List ℕ) → Dict String (List ℕ) → Dict String (List ℕ)
add_sensitive_port (destination ∷ _) (port ∷ _) sensitive =
    if contains port sensitive_service_ports
    then put_entry destination (add_member port (ports_at destination sensitive)) sensitive
    else sensitive
add_sensitive_port _ _ sensitive = sensitive

unfoldable pub sensitive_ports_by_destination :
    List Event → Dict String (List ℕ) → Dict String (List ℕ)
unfolding add_sensitive_port
sensitive_ports_by_destination [] sensitive = sensitive
sensitive_ports_by_destination (event ∷ events) sensitive = sensitive_ports_by_destination events (
    add_sensitive_port (effective_destination_ip event)
      (present_port (effective_destination_port event)) sensitive)

-- `max(..., default=0)`.
abbrev pub maximum : List ℕ → ℕ
maximum [] = 0
maximum (n ∷ ns) = max n (maximum ns)

module _ (text : TextMethods) where
  unfoldable pub derive_incident_severity_facts :
      List Event → (family : String) → IncidentSeverityFacts
  derive_incident_severity_facts events family =
      let ordered_events = unique_events events in
      let allowed_events = filter (is_allowed text) ordered_events in
      let distinct_destination_count = length (to_set (destinations_of ordered_events)) in
      record {
        family = family;
        total_event_count = length ordered_events;
        allowed_event_count = length allowed_events;
        blocked_event_count = length (filter (is_blocked text) ordered_events);
        distinct_destination_count = distinct_destination_count;
        asset_value = asset_value_of (ports_of allowed_events);
        targeting = if leb distinct_destination_count 2 then targeted else broad;
        max_sensitive_ports_per_destination = maximum (
            map (λ (entry : String × List ℕ). length entry.1)
              (sensitive_ports_by_destination allowed_events []));
      }

abbrev pub recon_families : List String
recon_families = "network_scanning" ∷ "service_probing" ∷ []

abbrev pub event_aware_families : List String
event_aware_families =
    "network_scanning" ∷ "service_probing" ∷ "firewall_exposure" ∷ "firewall_policy"
    ∷ "network_intrusion_candidate" ∷ []

-- `_VALUE_TO_SEVERITY`; no value above 4 comes up.
abbrev pub severity_of_value : ℕ → Severity
severity_of_value value =
    if nat_beq value 0
    then informational
    else if nat_beq value 1
    then low
    else if nat_beq value 2
    then medium
    else if nat_beq value 3
    then high
    else critical

unfoldable pub legacy_signal_severity : List Signal → ℕ
legacy_signal_severity signals = maximum (map (λ (s : Signal). severity_rank s.severity) signals)

-- `min(4, severity_value + 1)` under a test.
abbrev pub raised_if : Bool → ℕ → ℕ
raised_if test value = if test then min 4 (value + 1) else value

abbrev pub total_of : List ℕ → ℕ
total_of [] = 0
total_of (n ∷ ns) = n + total_of ns

abbrev pub targets_of : List Signal → List String
targets_of [] = []
targets_of (s ∷ signals) = s.target_entities ++ targets_of signals

-- The branch without facts of an event-aware family.
unfoldable pub severity_without_events : List Signal → Severity
unfolding legacy_signal_severity
severity_without_events signals =
    let total_events = total_of (map (λ (s : Signal). length s.event_ids) signals) in
    let distinct_targets = length (to_set (targets_of signals)) in
    severity_of_value
      (raised_if (ltb 500 total_events || ltb 50 distinct_targets) (legacy_signal_severity signals))

abbrev pub asset_severity : AssetValue → ℕ
asset_severity standard_asset = 2
asset_severity sensitive_asset = 3
asset_severity critical_asset = 4

abbrev pub is_targeted : Targeting → Bool
is_targeted targeted = true
is_targeted broad = false

-- The branches for facts of an event-aware family.
unfoldable pub severity_by_events : IncidentSeverityFacts → Severity
severity_by_events facts =
    if nat_beq facts.allowed_event_count 0 && contains facts.family recon_families
    then severity_of_value (if leb 25 facts.distinct_destination_count then 2 else 1)
    else if ltb 0 facts.allowed_event_count
    then severity_of_value (
        raised_if (ltb 500 facts.total_event_count || ltb 50 facts.distinct_destination_count) (
          raised_if (is_targeted facts.targeting && leb 2 facts.max_sensitive_ports_per_destination)
            (asset_severity facts.asset_value)))
    else low

unfoldable pub calculate_incident_severity :
    List Signal → (facts : Option IncidentSeverityFacts) → Severity
unfolding severity_without_events severity_by_events
calculate_incident_severity [] facts = informational
calculate_incident_severity (s ∷ signals) none = severity_without_events (s ∷ signals)
calculate_incident_severity (s ∷ signals) (some facts) =
    if contains facts.family event_aware_families
    then severity_by_events facts
    else severity_without_events (s ∷ signals)

-- `sum(top_confs) / len(top_confs)`.
pub record Confidence : Type 0 where
  pub total : ℕ
  pub count : ℕ

abbrev pub not_below : ℕ → ℕ → Bool
not_below a b = leb b a

unfoldable pub calculate_incident_confidence : List Signal → Confidence
calculate_incident_confidence [] = record { total = 0; count = 1 }
calculate_incident_confidence (s ∷ signals) =
    let top_confs = take 3 (sort_by not_below (map (λ (x : Signal). x.confidence) (s ∷ signals))) in
    record { total = total_of top_confs; count = length top_confs }
