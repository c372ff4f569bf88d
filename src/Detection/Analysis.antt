-- ===== src/Detection/Analysis.antt =====
-- `DetectionEngine.analyze` of agent/detection/engine.py as a whole: the events are prepared, the rules
-- run, signals are suppressed, and the active ones are correlated.
use agentic_soc_triage_assis.Prelude.{
  List, [], some, Option, ◌>>=◌, String, ℕ, length, if◌then◌else◌, is_empty, get_entry,
  text_equality, Bool,
}
use agentic_soc_triage_assis.Detection.Model.{TextMethods, Signal, Event}
use agentic_soc_triage_assis.Detection.Engine.{prepare, run_rules, Rule, Metrics}
use agentic_soc_triage_assis.Detection.Suppression.{suppress_signals, SuppressionPolicy}
use agentic_soc_triage_assis.Detection.Results.{correlate_signals, DetectionResult}
use agentic_soc_triage_assis.Detection.Titles.{TitleMethods}
use agentic_soc_triage_assis.Detection.Scoring.{Numerals}
use agentic_soc_triage_assis.Detection.Building.{BuildMethods, BuildSettings}
use agentic_soc_triage_assis.Detection.Rating.{index_events}

-- The result with the parts that come before the correlation.
pub record Analysis : Type 0 where
  pub result : DetectionResult
  pub suppressed_signals : List Signal
  pub metrics : Metrics
  pub signal_count : ℕ
  pub suppressed_signal_count : ℕ

-- The result where no event is eligible.
abbrev pub empty_result : DetectionResult
empty_result = record {
  signals = [];
  incidents = [];
  uncorrelated_event_ids = [];
  duplicate_signal_count = 0;
  incident_count = 0;
  merge_count = 0;
}

abbrev pub empty_analysis : Metrics → Analysis
empty_analysis metrics = record {
  result = empty_result;
  suppressed_signals = [];
  metrics = metrics;
  signal_count = 0;
  suppressed_signal_count = 0;
}

-- `suppression_event_lookup`.
abbrev pub suppression_event_lookup : List Event → String → Option Event
suppression_event_lookup eligible_events id = get_entry id (index_events eligible_events [])

module _ (text : TextMethods) (titles : TitleMethods) (numerals : Numerals) (build : BuildMethods)
    {Address : Type 0} (ip_address : String → Option Address)
    (in_network : Address → String → Option Bool) (settings : BuildSettings)
    (policy : SuppressionPolicy) (rules : List Rule) where
  -- From the sorted eligible events on.
  unfoldable pub analyze_eligible :
      (context_events eligible_events : List Event) → Metrics → Option Analysis
  unfolding run_rules suppress_signals
  analyze_eligible context_events eligible_events metrics = do
    let all_signals = run_rules text eligible_events rules
    let sorted =
        suppress_signals text ip_address in_network policy
          (suppression_event_lookup eligible_events) all_signals
    result ←
        correlate_signals text titles numerals build settings sorted.active_signals context_events
          eligible_events
    some (record {
      result = result;
      suppressed_signals = sorted.suppressed_signals;
      metrics = metrics;
      signal_count = length all_signals;
      suppressed_signal_count = length sorted.suppressed_signals;
    })

  unfoldable pub analyze : (candidate_events context_events : List Event) → Option Analysis
  unfolding analyze_eligible
  analyze candidate_events context_events =
      let (eligible_events, metrics) = prepare candidate_events in
      if is_empty eligible_events
      then some (empty_analysis metrics)
      else analyze_eligible context_events eligible_events metrics
