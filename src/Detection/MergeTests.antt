-- ===== src/Detection/MergeTests.antt =====
-- Concrete incidents and facts: the theorems on them.
use agentic_soc_triage_assis.Detection.Scoring.{
  Numerals, IncidentSeverityFacts, from_metrics, standard_asset, update_metrics, targeted,
  text_metric, as_metrics, found_facts,
}
use agentic_soc_triage_assis.Prelude.{
  String, List, [], none, some, refl, ◌≡◌, ◌∷◌, ◌==◌, if◌then◌else◌, nat_beq, any, get_entry,
  text_equality, map, put_entry, All, to_set, true, all, sort_by, insert_sorted, length,
}
use agentic_soc_triage_assis.Detection.Severities.{
  IsFitting, calculate_incident_severity-IsFitting, from_metrics-as_metrics,
}
use agentic_soc_triage_assis.Detection.Rating.{
  calculate_incident_severity, derive_incident_severity_facts, severity_by_events, unique_events,
  index_events, destinations_of, ports_of, sensitive_ports_by_destination, effective_destination_ip,
  effective_destination_port, asset_value_of, add_sensitive_port,
}
use agentic_soc_triage_assis.Detection.Merging.{
  index_signals, int_or_zero, merge_overlapping_incidents,
}
use agentic_soc_triage_assis.Detection.MergeRuns.{IsMergeOf, merge_overlapping_incidents-IsMergeOf}
use agentic_soc_triage_assis.Detection.Bundles.{IncidentBundle}
use agentic_soc_triage_assis.Detection.Model.{Event, Signal, low}
use agentic_soc_triage_assis.Detection.Samples.{sample_event, signal_on, plain_text}
use agentic_soc_triage_assis.Detection.EventFacts.{is_allowed, is_blocked}
use agentic_soc_triage_assis.Detection.Merged.{IsMergeable}
use agentic_soc_triage_assis.Detection.Titles.{TitleMethods}
use agentic_soc_triage_assis.Detection.Building.{
  BuildMethods, BuildSettings, build_correlated_incidents,
}
use agentic_soc_triage_assis.Detection.Covering.{is_proper_signal}
use agentic_soc_triage_assis.Detection.Incidents.{IsCovering, build_correlated_incidents-IsCovering}
use agentic_soc_triage_assis.Detection.Repeats.{
  deduplicate_signals, merge_sources, merge_rules, group_signals, append_group, absorb_repeats,
  absorb_repeat, repeats,
}
use agentic_soc_triage_assis.Detection.Reported.{IsReport, correlate_signals-IsReport}
use agentic_soc_triage_assis.Detection.Results.{correlate_signals}

-- Numerals that know a few numbers.
abbrev pub few_numerals : Numerals
few_numerals = record {
  decimal = λ n. if nat_beq n 0 then "0" else if nat_beq n 1 then "1" else "2";
  parse_decimal = λ s.
      if s == "0" then some 0 else if s == "1" then some 1 else if s == "2" then some 2 else none;
}

abbrev pub sample_incident : (id : String) → (event_ids : List String) → IncidentBundle
sample_incident id event_ids = record {
  incident_id = id;
  incident_type = "scan";
  incident_family = "network_scanning";
  title = "Scan";
  severity = low;
  confidence = record { total = 500_000; count = 1 };
  first_seen = 10;
  last_seen = 30;
  primary_entity = "203.0.113.7";
  target_entities = [];
  signal_ids = "s1" ∷ [];
  event_ids = event_ids;
  context_event_ids = "c1" ∷ [];
  evidence =
      map (λ event_id. record { event_id = event_id; quote = "q"; reason = "r"; source = id })
        event_ids;
  metrics = [];
  mitre_techniques = [];
  merge_key = "k";
  review_reason = none;
  absorbed_signal_ids = [];
}

abbrev pub plain_titles : TitleMethods
plain_titles = record { source_metrics = λ s. s.primary_entity; split_commas = λ s. s ∷ [] }

abbrev sample_facts : IncidentSeverityFacts
sample_facts = record {
  family = "network_scanning";
  total_event_count = 2;
  allowed_event_count = 0;
  blocked_event_count = 2;
  distinct_destination_count = 1;
  asset_value = standard_asset;
  targeting = targeted;
  max_sensitive_ports_per_destination = 0;
}

from_metrics-as_metrics_example :
    from_metrics few_numerals
      (update_metrics (("targeting", text_metric "broad") ∷ []) (as_metrics sample_facts))
    ≡ found_facts sample_facts
from_metrics-as_metrics_example =
    from_metrics-as_metrics few_numerals sample_facts (("targeting", text_metric "broad") ∷ [])
      (refl, (refl, (refl, (refl, (refl, tt)))))

abbrev sample_events : List Event
sample_events = sample_event "e1" 10 ∷ sample_event "e2" 20 ∷ []

calculate_incident_severity-IsFitting_example :
    IsFitting (any (is_allowed plain_text) (unique_events sample_events)) (
      calculate_incident_severity
        (signal_on ("e1" ∷ "e2" ∷ []) ∷ [])
        (some (derive_incident_severity_facts plain_text sample_events "network_scanning")))
calculate_incident_severity-IsFitting_example =
    calculate_incident_severity-IsFitting plain_text (signal_on ("e1" ∷ "e2" ∷ [])) [] sample_events
      "network_scanning" refl

severity_test :
    calculate_incident_severity
      (signal_on ("e1" ∷ "e2" ∷ []) ∷ [])
      (some (derive_incident_severity_facts plain_text sample_events "network_scanning"))
    ≡ low
unfolding calculate_incident_severity derive_incident_severity_facts severity_by_events
    unique_events index_events destinations_of ports_of sensitive_ports_by_destination is_allowed
    is_blocked put_entry to_set effective_destination_ip effective_destination_port asset_value_of
    add_sensitive_port
severity_test = refl

abbrev sample_incidents : List IncidentBundle
sample_incidents = sample_incident "i1" ("e1" ∷ []) ∷ sample_incident "i2" ("e1" ∷ "e2" ∷ []) ∷ []

abbrev sample_signals : List Signal
sample_signals = signal_on ("e1" ∷ "e2" ∷ []) ∷ []

sample-IsMergeable :
    All (IsMergeable few_numerals (index_signals sample_signals [])) sample_incidents
unfolding index_signals int_or_zero get_entry put_entry
sample-IsMergeable = (
  record { known = (refl, tt); countable = refl },
  (record { known = (refl, tt); countable = refl }, tt),
)

merge_overlapping_incidents-IsMergeOf_example :
    IsMergeOf sample_incidents
      (merge_overlapping_incidents plain_text few_numerals 5 sample_incidents sample_signals none)
merge_overlapping_incidents-IsMergeOf_example =
    merge_overlapping_incidents-IsMergeOf plain_text few_numerals 5 sample_incidents sample_signals
      none sample-IsMergeable

abbrev pub sample_build : BuildMethods
sample_build = record { id_digest = λ s. "A"; isoformat = λ t. "t"; minute_text = λ n. "m" }

abbrev pub sample_settings : BuildSettings
sample_settings = record {
  incident_merge_window_seconds = 300;
  event_overlap_threshold = record { part = 1; whole = 2 };
  max_context_events = 5;
}

abbrev two_signals : List Signal
two_signals =
    signal_on ("e1" ∷ "e2" ∷ [])
    ∷ (record (signal_on ("e1" ∷ [])) { signal_id = "s2"; rule_id = "sweep" })
    ∷ []

two_signals-proper : all is_proper_signal two_signals ≡ true
unfolding is_proper_signal
two_signals-proper = refl

build_correlated_incidents-IsCovering_example : IsCovering two_signals (
    build_correlated_incidents plain_text plain_titles few_numerals sample_build sample_settings
      two_signals [] sample_events)
build_correlated_incidents-IsCovering_example =
    build_correlated_incidents-IsCovering plain_text plain_titles few_numerals sample_build
      sample_settings two_signals [] sample_events (λ s. refl) refl two_signals-proper

two_signals-deduplicated : deduplicate_signals sample_build 300 two_signals ≡ two_signals
unfolding deduplicate_signals merge_sources merge_rules group_signals append_group absorb_repeats
    absorb_repeat sort_by insert_sorted
two_signals-deduplicated = refl

correlate_signals-IsReport_example : IsReport two_signals sample_events (
    correlate_signals plain_text plain_titles few_numerals sample_build sample_settings two_signals
      [] sample_events)
correlate_signals-IsReport_example =
    correlate_signals-IsReport plain_text plain_titles few_numerals sample_build sample_settings
      two_signals [] sample_events (λ s. refl) (rw two_signals-deduplicated refl)
      (rw two_signals-deduplicated two_signals-proper)

repeated_signals_test :
    length (
      deduplicate_signals sample_build 300
        (signal_on ("e1" ∷ "e2" ∷ []) ∷ signal_on ("e2" ∷ "e3" ∷ []) ∷ []))
    ≡ 1
unfolding deduplicate_signals merge_sources merge_rules group_signals append_group absorb_repeats
    absorb_repeat repeats sort_by insert_sorted
repeated_signals_test = refl
