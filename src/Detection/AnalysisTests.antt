-- ===== src/Detection/AnalysisTests.antt =====
-- A whole analysis of four events with one rule: the theorem on it, and its outcome.
use agentic_soc_triage_assis.Prelude.{
  List, ◌∷◌, ◌≡◌, String, Option, Bool, all, [], some, none, sort_by, true, refl, insert_sorted,
}
use agentic_soc_triage_assis.Detection.Model.{Event}
use agentic_soc_triage_assis.Detection.Samples.{plain_text, sample_event, signal_on}
use agentic_soc_triage_assis.Detection.MergeTests.{
  plain_titles, few_numerals, sample_build, sample_settings,
}
use agentic_soc_triage_assis.Detection.Engine.{
  Rule, prepare, deduplicate, sift_eligible, is_eligible, run_rules, run_rule, accept_signals,
}
use agentic_soc_triage_assis.Detection.Contracts.{
  RuleMetadata, select_rule_events, validate_signal_contract, check_identity, check_contents,
  event_has_required_fields,
}
use agentic_soc_triage_assis.Detection.Suppression.{
  new_policy, is_suppressed, is_late_rst_spi_pattern, suppress_by_target,
}
use agentic_soc_triage_assis.Detection.Repeats.{
  deduplicate_signals, merge_sources, merge_rules, group_signals, append_group, absorb_repeats,
  absorb_repeat,
}
use agentic_soc_triage_assis.Detection.Covering.{is_proper_signal}
use agentic_soc_triage_assis.Detection.Analysis.{analyze}
use agentic_soc_triage_assis.Detection.Analyzed.{IsAccount, active_of, analyze-IsAccount}

abbrev log_events : List Event
log_events =
    sample_event "e3" 30
    ∷ sample_event "e1" 10
    ∷ sample_event "e1" 10
    ∷ record (sample_event "e4" 5) { parse_status = "failed" }
    ∷ []

abbrev scan_metadata : RuleMetadata
scan_metadata = record {
  rule_id = "scan";
  version = "1";
  name = "Scan";
  family = "network_scanning";
  priority = 1;
  supported_event_types = [];
  required_fields = [];
  signal_type = "scan";
  signal_variants = [];
}

-- The second signal cites an event that the rule was not shown.
abbrev scan_rules : List Rule
scan_rules =
    record {
      metadata = scan_metadata;
      evaluate = λ es. some (signal_on ("e1" ∷ []) ∷ signal_on ("e9" ∷ []) ∷ []);
    }
    ∷ []

abbrev no_address : String → Option String
no_address s = none

abbrev no_network : String → String → Option Bool
no_network address network = none

active_signals :
    active_of plain_text plain_titles few_numerals sample_build no_address no_network
      sample_settings new_policy scan_rules
      (prepare log_events).0
    ≡ signal_on ("e1" ∷ []) ∷ []
unfolding prepare deduplicate sift_eligible is_eligible sort_by insert_sorted run_rules run_rule
    select_rule_events accept_signals validate_signal_contract check_identity check_contents
    event_has_required_fields is_suppressed is_late_rst_spi_pattern suppress_by_target
active_signals = refl

one_signal-deduplicated :
    deduplicate_signals sample_build 300 (signal_on ("e1" ∷ []) ∷ []) ≡ signal_on ("e1" ∷ []) ∷ []
unfolding deduplicate_signals merge_sources merge_rules group_signals append_group absorb_repeats
    absorb_repeat sort_by insert_sorted
one_signal-deduplicated = refl

one_signal-proper : all is_proper_signal (signal_on ("e1" ∷ []) ∷ []) ≡ true
unfolding is_proper_signal
one_signal-proper = refl

analyze-IsAccount_example :
    IsAccount plain_text plain_titles few_numerals sample_build no_address no_network
      sample_settings new_policy scan_rules log_events
      (analyze plain_text plain_titles few_numerals sample_build no_address no_network
        sample_settings new_policy scan_rules log_events [])
analyze-IsAccount_example =
    analyze-IsAccount plain_text plain_titles few_numerals sample_build no_address no_network
      sample_settings new_policy scan_rules log_events [] (λ s. refl)
      (rw (active_signals, one_signal-deduplicated) refl)
      (rw (active_signals, one_signal-deduplicated) one_signal-proper)
