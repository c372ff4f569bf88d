-- ===== src/Detection/Tests.antt =====
-- Concrete events and one rule: the theorems on them, and tests of the definitions.
use agentic_soc_triage_assis.Prelude.{
  [], some, true, refl, ◌≡◌, ◌∷◌, ◌+◌, List, All, length, sort_by, insert_sorted, map,
  text_equality,
}
use agentic_soc_triage_assis.Detection.Engine.{
  prepare, run_rules, deduplicate, Rule, run_rule, sift_eligible, is_eligible, accept_signals,
}
use agentic_soc_triage_assis.Detection.Accounting.{
  HaveDistinctKeys, IsUsable, prepare-HaveDistinctKeys, prepare-counts, prepare-All,
}
use agentic_soc_triage_assis.Detection.Contracts.{
  RuleMetadata, select_rule_events, validate_signal_contract, check_identity, check_contents,
  event_has_required_fields,
}
use agentic_soc_triage_assis.Detection.Related.{
  events_are_bidirectionally_related, protocols_compatible, forward_ip, reverse_ip, forward_ports,
  reverse_ports, both_without_ports, compatible_service, one_sided_service_match,
  is_likely_service_port, services_of,
}
use agentic_soc_triage_assis.Detection.TcpFlags.{
  parse_tcp_flag_tokens, parse_known_tokens, parse_compact, pf_flags,
}
use agentic_soc_triage_assis.Detection.Model.{Event}
use agentic_soc_triage_assis.Detection.Grounding.{IsGrounded, run_rules-IsGrounded, KeepsOne}
use agentic_soc_triage_assis.Detection.Samples.{plain_text, sample_event, reply_event, signal_on}
use agentic_soc_triage_assis.Detection.Symmetry.{events_are_bidirectionally_related_comm}
use agentic_soc_triage_assis.Detection.EventFacts.{classify_service, service_of}

abbrev events : List Event
events =
    sample_event "e3" 30
    ∷ sample_event "e1" 10
    ∷ sample_event "e1" 10
    ∷ record (sample_event "e4" 5) { parse_status = "failed" }
    ∷ []

prepare-counts_example :
    let (kept, metrics) = prepare events in
    (metrics.eligible_events + metrics.skipped_events ≡ metrics.total_events)
    × (metrics.total_events ≡ 4)
    × (length kept ≡ metrics.eligible_events)
prepare-counts_example = prepare-counts events

prepare-All_example : All IsUsable (prepare events).0
prepare-All_example = prepare-All events

prepare-HaveDistinctKeys_example : HaveDistinctKeys (prepare events).0
prepare-HaveDistinctKeys_example = prepare-HaveDistinctKeys events

prepare_test : map (λ (e : Event). e.event_id) (prepare events).0 ≡ "e1" ∷ "e3" ∷ []
unfolding prepare deduplicate sift_eligible is_eligible sort_by insert_sorted
prepare_test = refl

abbrev metadata : RuleMetadata
metadata = record {
  rule_id = "scan";
  version = "1";
  name = "Scan";
  family = "network_scanning";
  priority = 1;
  supported_event_types = [];
  required_fields = [];
  signal_type = "scan";
  signal_variants = [];
}

-- One signal is grounded, the other cites an event that the rule was not shown.
abbrev rules : List Rule
rules =
    record {
      metadata = metadata;
      evaluate = λ es. some (signal_on ("e1" ∷ "e3" ∷ []) ∷ signal_on ("e9" ∷ []) ∷ []);
    }
    ∷ []

run_rules-IsGrounded_example :
    All
      (λ s. IsGrounded ("e3" ∷ "e1" ∷ "e1" ∷ "e4" ∷ []) s × KeepsOne plain_text events s rules)
      (run_rules plain_text events rules)
run_rules-IsGrounded_example = run_rules-IsGrounded plain_text events rules

run_rules_test : run_rules plain_text events rules ≡ signal_on ("e1" ∷ "e3" ∷ []) ∷ []
unfolding run_rules run_rule select_rule_events accept_signals validate_signal_contract
    check_identity check_contents event_has_required_fields
run_rules_test = refl

events_are_bidirectionally_related_comm_example :
    events_are_bidirectionally_related plain_text (sample_event "e1" 10) reply_event
    ≡ events_are_bidirectionally_related plain_text reply_event (sample_event "e1" 10)
events_are_bidirectionally_related_comm_example =
    events_are_bidirectionally_related_comm plain_text (sample_event "e1" 10) reply_event

reply_is_related :
    events_are_bidirectionally_related plain_text (sample_event "e1" 10) reply_event ≡ true
unfolding events_are_bidirectionally_related protocols_compatible forward_ip reverse_ip
    forward_ports reverse_ports both_without_ports compatible_service one_sided_service_match
    is_likely_service_port services_of classify_service service_of
reply_is_related = refl

parse_tcp_flag_tokens_test : parse_tcp_flag_tokens plain_text (some "S") ≡ "SYN" ∷ []
unfolding parse_tcp_flag_tokens parse_known_tokens parse_compact pf_flags
parse_tcp_flag_tokens_test = refl
