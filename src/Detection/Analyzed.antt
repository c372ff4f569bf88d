-- ===== src/Detection/Analyzed.antt =====
-- What the whole analysis (agent/detection/engine.py) says of the events that it is given.
use agentic_soc_triage_assis.Prelude.{
  List, String, Option, ◌≡◌, ◌+◌, Bool, true, length, is_subset, contains, All, filter, some, [],
  inl, inr, refl, ◌∷◌, ◌==◌, Bool-cases, arith, any, is_none, not, subst, beq_refl, text_equality,
  eq_of_beq, beq_comm, is_empty, ◌∙◌, is_distinct, all, if_ind, All-weaken, sym,
}
use agentic_soc_triage_assis.Detection.Model.{TextMethods, Signal, Event}
use agentic_soc_triage_assis.Detection.Engine.{prepare, run_rules, Rule, event_ids_of, run_rule}
use agentic_soc_triage_assis.Detection.Suppression.{SuppressionPolicy, suppress_signals}
use agentic_soc_triage_assis.Detection.Results.{correlated_event_ids, correlate_signals}
use agentic_soc_triage_assis.Detection.Silence.{reason_for, suppress_signals-partition}
use agentic_soc_triage_assis.Detection.Analysis.{
  Analysis, suppression_event_lookup, empty_analysis, analyze_eligible, analyze,
}
use agentic_soc_triage_assis.Detection.Covering.{cites_event, NamesIncidents, is_proper_signal}
use agentic_soc_triage_assis.Detection.Titles.{TitleMethods}
use agentic_soc_triage_assis.Detection.Scoring.{Numerals}
use agentic_soc_triage_assis.Detection.Building.{BuildMethods, BuildSettings}
use agentic_soc_triage_assis.Detection.Contracts.{select_rule_events}
use agentic_soc_triage_assis.Detection.Accounting.{prepare-counts}
use agentic_soc_triage_assis.Detection.Groups.{ids_of}
use agentic_soc_triage_assis.Detection.Repeats.{deduplicate_signals}
use agentic_soc_triage_assis.Detection.Reported.{IsReport, correlate_signals-IsReport}
use agentic_soc_triage_assis.Detection.Grounding.{run_rules-IsGrounded}

contains-subset :
    (id : String) (xs ys : List String)
    → is_subset xs ys ≡ true
    → contains id xs ≡ true
    → contains id ys ≡ true
contains-subset id [] ys h k = cc
contains-subset id (x ∷ xs) ys h k = elim (Bool-cases (x == id)) [
  | inl same ↦ subst (λ n. contains n ys ≡ true) (eq_of_beq x id same) (ground (arith))
  | inr differ ↦ contains-subset id xs ys (ground (arith)) (ground (arith, differ, beq_comm x id))
]

subset-contains :
    (xs ys : List String)
    → ((id : String) → contains id xs ≡ true → contains id ys ≡ true)
    → is_subset xs ys ≡ true
subset-contains [] ys h = refl
subset-contains (x ∷ xs) ys h =
    rw (h x (ground (arith, beq_refl x))) (subset-contains xs ys (λ id k. h id (ground (arith, k))))

cited-subset :
    (id : String) (ids : List String) (p : Signal → Bool) (signals : List Signal)
    → All (λ (s : Signal). is_subset s.event_ids ids ≡ true) signals
    → any (cites_event id) (filter p signals) ≡ true
    → contains id ids ≡ true
cited-subset id ids p [] h k = cc
cited-subset id ids p (s ∷ signals) h k = elim (Bool-cases (p s)) [
  | inl kept ↦ elim (Bool-cases (contains id s.event_ids)) [
    | inl here ↦ contains-subset id s.event_ids ids h.0 here
    | inr later ↦ cited-subset id ids p signals h.1 (ground (arith, kept, later))
  ]
  | inr dropped ↦ cited-subset id ids p signals h.1 (ground (arith, dropped))
]

module _ (text : TextMethods) (titles : TitleMethods) (numerals : Numerals) (build : BuildMethods)
    {Address : Type 0} (ip_address : String → Option Address)
    (in_network : Address → String → Option Bool) (settings : BuildSettings)
    (policy : SuppressionPolicy) (rules : List Rule) where
  -- The signals of the rules for which the policy has no reason.
  abbrev pub active_of : List Event → List Signal
  active_of eligible_events =
      filter
        (λ s. is_none (
          reason_for text ip_address in_network policy (suppression_event_lookup eligible_events)
            s))
        (run_rules text eligible_events rules)

  -- The analysis accounts for the events and for the signals of the rules.
  pub record IsAccount (candidate_events : List Event) (outcome : Option Analysis) : Type 0 where
    pub analysis : Analysis
    pub ends : outcome ≡ some analysis
    pub counted_events :
        analysis.metrics.eligible_events + analysis.metrics.skipped_events ≡ length candidate_events
    pub counted_signals :
        length (active_of (prepare candidate_events).0) + analysis.suppressed_signal_count
        ≡ analysis.signal_count
    pub counted_incidents :
        analysis.result.incident_count + analysis.result.merge_count
        ≡ length analysis.result.signals
    pub incidents_eligible :
        is_subset
          (correlated_event_ids analysis.result.incidents)
          (event_ids_of (prepare candidate_events).0)
        ≡ true
    pub uncorrelated :
        analysis.result.uncorrelated_event_ids
        ≡ filter
            (λ id. not (any (cites_event id) (active_of (prepare candidate_events).0)))
            (event_ids_of (prepare candidate_events).0)

  run_rules-none : (rs : List Rule) → run_rules text [] rs ≡ []
  unfolding run_rules run_rule select_rule_events
  run_rules-none [] = refl
  run_rules-none (rule ∷ rs) = run_rules-none rs

  nil_of_empty : (es : List Event) → is_empty es ≡ true → es ≡ []
  nil_of_empty [] h = refl
  nil_of_empty (e ∷ es) h = absurd (cc)

  module _ (candidate_events context_events : List Event) where
    abbrev eligible : List Event
    eligible = (prepare candidate_events).0

    abbrev is_unsuppressed : Signal → Bool
    is_unsuppressed s =
        is_none (reason_for text ip_address in_network policy (suppression_event_lookup eligible) s)

    empty-IsAccount :
        eligible ≡ []
        → IsAccount candidate_events (some (empty_analysis (prepare candidate_events).1))
    unfolding correlated_event_ids
    empty-IsAccount nil = record {
      analysis = empty_analysis (prepare candidate_events).1;
      ends = refl;
      counted_events = grind (arith, prepare-counts candidate_events);
      counted_signals = rw (nil, run_rules-none rules) refl;
      counted_incidents = refl;
      incidents_eligible = refl;
      uncorrelated = rw nil refl;
    }

    module _ (named : NamesIncidents build)
        (distinct_ids : is_distinct (
            ids_of (
              deduplicate_signals build settings.incident_merge_window_seconds
                (active_of eligible)))
          ≡ true)
        (proper : all is_proper_signal
            (deduplicate_signals build settings.incident_merge_window_seconds (active_of eligible))
          ≡ true) where
      eligible-IsAccount : IsAccount candidate_events (
          analyze_eligible text titles numerals build ip_address in_network settings policy rules
            context_events eligible
            (prepare candidate_events).1)
      unfolding analyze_eligible correlated_event_ids
      eligible-IsAccount =
          let all_signals = run_rules text eligible rules in
          let sorted =
            suppress_signals text ip_address in_network policy (suppression_event_lookup eligible)
              all_signals in
          let parts =
            suppress_signals-partition text ip_address in_network policy
              (suppression_event_lookup eligible) all_signals in
          let report : IsReport sorted.active_signals eligible (
              correlate_signals text titles numerals build settings sorted.active_signals
                context_events eligible) =
            correlate_signals-IsReport text titles numerals build settings sorted.active_signals
              context_events eligible named (rw parts.0 distinct_ids) (rw parts.0 proper) in
          let grounded =
            All-weaken all_signals (λ s kept. kept.0.cites_input)
              (run_rules-IsGrounded text eligible rules) in
          record {
            analysis = record {
              result = report.result;
              suppressed_signals = sorted.suppressed_signals;
              metrics = (prepare candidate_events).1;
              signal_count = length all_signals;
              suppressed_signal_count = length sorted.suppressed_signals;
            };
            ends = rw report.ends refl;
            counted_events = grind (arith, prepare-counts candidate_events);
            counted_signals = rw (sym parts.0) parts.2;
            counted_incidents = report.counted;
            incidents_eligible =
                subset-contains (correlated_event_ids report.result.incidents)
                  (event_ids_of eligible)
                  (λ id held.
                    cited-subset id (event_ids_of eligible) is_unsuppressed all_signals grounded
                      (rw (sym parts.0) (sym (report.cited id) ∙ held)));
            uncorrelated = rw (sym parts.0) report.uncorrelated;
          }

      -- Whatever the rules return and whatever the text methods, `ipaddress` and the digests give, where
      -- no incident id is empty: if the signals that the policy does not suppress have distinct ids, times in
      -- order and confidences of at most one after their de-duplication, the analysis goes through.
      -- Eligible and skipped events add up to the events, active and suppressed signals to the signals
      -- of the rules, incidents and merges to the signals of the result; the incidents only hold
      -- eligible events, and the uncorrelated events are exactly the eligible ones that no active signal
      -- cites.
      pub analyze-IsAccount : IsAccount candidate_events (
          analyze text titles numerals build ip_address in_network settings policy rules
            candidate_events context_events)
      unfolding analyze
      analyze-IsAccount =
          if_ind (IsAccount candidate_events) (is_empty eligible)
            (λ nothing. empty-IsAccount (nil_of_empty eligible nothing)) (λ _. eligible-IsAccount)
