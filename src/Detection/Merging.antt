-- ===== src/Detection/Merging.antt =====
-- `_merge_incident_pair` and `merge_overlapping_incidents` of agent/detection/incident_correlation.py.
-- `none` stands for the exception of a missing signal (`KeyError`) or of a merge count that is no
-- number (`ValueError`).
use agentic_soc_triage_assis.Detection.Model.{Evidence, TextMethods, Signal, Event}
use agentic_soc_triage_assis.Prelude.{
  ◌>>=◌, List, Dict, Option, String, ℕ, [], none, some, ◌∷◌, ◌++◌, ◌+◌, ◌&&◌, ◌||◌, ◌==◌,
  if◌then◌else◌, Bool, leb, text_equality, length, get_entry, not, contains, any, min, max, take,
  not_after, put_entry, sort_by, then_by, compare_text,
}
use agentic_soc_triage_assis.Detection.Scoring.{
  Numerals, Metric, IncidentSeverityFacts, count_metric, update_metrics, text_metric, as_metrics,
}
use agentic_soc_triage_assis.Detection.Bundles.{
  IncidentBundle, sorted_union, keeper_not_after, overlapping_incidents_are_mergeable,
  sorted_union_without,
}
use agentic_soc_triage_assis.Detection.Attached.{max_incident_evidence, look_up_events}
use agentic_soc_triage_assis.Detection.Rating.{
  derive_incident_severity_facts, calculate_incident_severity, calculate_incident_confidence,
}
use Prim.Native.Nat.{compare}

unfoldable pub same_evidence : (a b : Evidence) → Bool
same_evidence a b =
    (a.event_id == b.event_id)
    && ((a.source == b.source) && ((a.reason == b.reason) && (a.quote == b.quote)))

-- The loop body; `break` is a state that no later item changes.
unfoldable pub join_evidence :
    (event_ids : List String) → (item : Evidence) → List Evidence → List Evidence
unfolding same_evidence
join_evidence event_ids item evidence =
    if leb max_incident_evidence (length evidence)
    then evidence
    else if not (contains item.event_id event_ids) || any (same_evidence item) evidence
    then evidence
    else evidence ++ (item ∷ [])

unfoldable pub join_items : List String → (items evidence : List Evidence) → List Evidence
unfolding join_evidence
join_items event_ids [] evidence = evidence
join_items event_ids (item ∷ items) evidence =
    join_items event_ids items (join_evidence event_ids item evidence)

-- `[lookup[id] for id in ids]`.
unfoldable pub look_up_all : Dict String Signal → List String → Option (List Signal)
look_up_all signal_lookup [] = some []
look_up_all signal_lookup (id ∷ ids) = do
  signal ← get_entry id signal_lookup
  signals ← look_up_all signal_lookup ids
  some (signal ∷ signals)

-- `[lookup[id] for id in ids if id in lookup]`.
abbrev pub events_known : Dict String Event → List String → List Event
events_known event_lookup ids = look_up_events (λ id. get_entry id event_lookup) ids

-- `primary_signal_id if isinstance(primary_signal_id, str)`, as a set.
abbrev pub text_value : Option Metric → List String
text_value (some (text_metric s)) = s ∷ []
text_value _ = []

abbrev pub merge_count_key : String
merge_count_key = "overlapping_incident_merge_count"

module _ (numerals : Numerals) where
  -- `int(metrics.get("overlapping_incident_merge_count", 0))`.
  unfoldable pub int_or_zero : Option Metric → Option ℕ
  int_or_zero none = some 0
  int_or_zero (some (count_metric n)) = some n
  int_or_zero (some (text_metric s)) = numerals.parse_decimal s

abbrev pub merge_counts :
    (total_events distinct_targets correlated absorbed merges : ℕ) → Dict String Metric
merge_counts total_events distinct_targets correlated absorbed merges =
    ("total_events", count_metric total_events)
    ∷ ("distinct_targets", count_metric distinct_targets)
    ∷ ("correlated_signal_count", count_metric correlated)
    ∷ ("absorbed_signal_count", count_metric absorbed)
    ∷ (merge_count_key, count_metric merges)
    ∷ []

-- `metrics.update(severity_facts.as_metrics())` under its test.
abbrev pub update_facts : Option IncidentSeverityFacts → Dict String Metric → Dict String Metric
update_facts none metrics = metrics
update_facts (some facts) metrics = update_metrics metrics (as_metrics facts)

module _ (text : TextMethods) where
  unfoldable pub facts_if :
      Option (Dict String Event)
      → (event_ids : List String) → (family : String) → Option IncidentSeverityFacts
  facts_if none event_ids family = none
  facts_if (some event_lookup) event_ids family =
      some (derive_incident_severity_facts text (events_known event_lookup event_ids) family)

module _ (text : TextMethods) (numerals : Numerals) (max_context_events : ℕ) where
  -- The merged incident, once the signals and both merge counts are read.
  unfoldable pub merged_incident :
      (keeper absorbed : IncidentBundle)
      → List Signal
      → (keeper_merges absorbed_merges : ℕ) → Option (Dict String Event)
      → IncidentBundle
  unfolding facts_if
  merged_incident keeper absorbed signals keeper_merges absorbed_merges event_lookup =
      let event_ids = sorted_union keeper.event_ids absorbed.event_ids in
      let signal_ids = sorted_union keeper.signal_ids absorbed.signal_ids in
      let primary = text_value (get_entry "primary_signal_id" keeper.metrics) in
      let absorbed_signal_ids =
        sorted_union_without keeper.absorbed_signal_ids
          (absorbed.signal_ids ++ absorbed.absorbed_signal_ids) primary in
      let target_entities = sorted_union keeper.target_entities absorbed.target_entities in
      let severity_facts = facts_if text event_lookup event_ids keeper.incident_family in
      record keeper {
        severity = calculate_incident_severity signals severity_facts;
        confidence = calculate_incident_confidence signals;
        first_seen = min keeper.first_seen absorbed.first_seen;
        last_seen = max keeper.last_seen absorbed.last_seen;
        target_entities = target_entities;
        signal_ids = signal_ids;
        event_ids = event_ids;
        context_event_ids =
            take max_context_events
              (sorted_union_without keeper.context_event_ids absorbed.context_event_ids event_ids);
        evidence = join_items event_ids (keeper.evidence ++ absorbed.evidence) [];
        metrics = update_facts severity_facts (
            update_metrics keeper.metrics (
              merge_counts (length event_ids) (length target_entities) (length signal_ids)
                (length absorbed_signal_ids) (keeper_merges + 1 + absorbed_merges)));
        mitre_techniques = sorted_union keeper.mitre_techniques absorbed.mitre_techniques;
        absorbed_signal_ids = absorbed_signal_ids;
      }

  unfoldable pub merge_incident_pair :
      (keeper absorbed : IncidentBundle)
      → Dict String Signal
      → Option (Dict String Event)
      → Option IncidentBundle
  merge_incident_pair keeper absorbed signal_lookup event_lookup = do
    signals ← look_up_all signal_lookup (sorted_union keeper.signal_ids absorbed.signal_ids)
    keeper_merges ← int_or_zero numerals (get_entry merge_count_key keeper.metrics)
    absorbed_merges ← int_or_zero numerals (get_entry merge_count_key absorbed.metrics)
    some (merged_incident keeper absorbed signals keeper_merges absorbed_merges event_lookup)

-- A list around one of its elements.
abbrev pub Split : Type 0
Split = List IncidentBundle × IncidentBundle × List IncidentBundle

unfoldable pub prefer_first :
    (is_eligible : Bool) → IncidentBundle → List IncidentBundle → Option Split → Option Split
prefer_first is_eligible incident merged none =
    if is_eligible then some ([], incident, merged) else none
prefer_first is_eligible incident merged (some (before, keeper, after)) =
    if is_eligible && keeper_not_after incident keeper
    then some ([], incident, merged)
    else some (incident ∷ before, keeper, after)

-- The eligible incident with the least key, the first of them, and what stands before and after it.
unfoldable pub find_keeper : (candidate : IncidentBundle) → List IncidentBundle → Option Split
unfolding prefer_first
find_keeper candidate [] = none
find_keeper candidate (incident ∷ merged) =
    prefer_first (overlapping_incidents_are_mergeable incident candidate) incident merged
      (find_keeper candidate merged)

abbrev pub not_after_in_time : (a b : IncidentBundle) → Bool
not_after_in_time a b =
    not_after
      (then_by (compare a.first_seen b.first_seen) (compare_text a.incident_id b.incident_id))

-- `{signal.signal_id: signal for signal in signals}`.
unfoldable pub index_signals : List Signal → Dict String Signal → Dict String Signal
index_signals [] index = index
index_signals (s ∷ signals) index = index_signals signals (put_entry s.signal_id s index)

module _ (text : TextMethods) (numerals : Numerals) (max_context_events : ℕ)
    (signal_lookup : Dict String Signal) (event_lookup : Option (Dict String Event)) where
  -- The loop body from the search on; the number counts the candidates absorbed.
  unfoldable pub absorb_candidate :
      (candidate : IncidentBundle)
      → List IncidentBundle × ℕ
      → Option Split
      → Option (List IncidentBundle × ℕ)
  absorb_candidate candidate (merged, absorbed_count) none =
      some (merged ++ (candidate ∷ []), absorbed_count)
  absorb_candidate candidate (merged, absorbed_count) (some (before, keeper, after)) = do
    joined ←
        merge_incident_pair text numerals max_context_events keeper candidate signal_lookup
          event_lookup
    some (before ++ (joined ∷ after), absorbed_count + 1)

  unfoldable pub merge_each :
      (candidates : List IncidentBundle)
      → List IncidentBundle × ℕ
      → Option (List IncidentBundle × ℕ)
  unfolding absorb_candidate find_keeper
  merge_each [] state = some state
  merge_each (candidate ∷ candidates) state = do
    next ← absorb_candidate candidate state (find_keeper candidate state.0)
    merge_each candidates next

unfoldable pub merge_overlapping_incidents :
    (text : TextMethods)
    → (numerals : Numerals) → (max_context_events : ℕ) → (incidents : List IncidentBundle)
    → (signals : List Signal) → (event_lookup : Option (Dict String Event))
    → Option (List IncidentBundle × ℕ)
unfolding merge_each
merge_overlapping_incidents text numerals max_context_events incidents signals event_lookup = do
  state ←
      merge_each text numerals max_context_events (index_signals signals []) event_lookup
        (sort_by keeper_not_after incidents) ([], 0)
  some (sort_by not_after_in_time state.0, state.1)
