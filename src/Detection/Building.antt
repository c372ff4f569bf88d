-- ===== src/Detection/Building.antt =====
-- `build_correlated_incident` and `build_correlated_incidents` of
-- agent/detection/incident_correlation.py, with `generate_incident_id` of agent/detection/models.py. The
-- digest and `isoformat` are parameters. `none` stands for an exception: an empty cluster, the
-- `ValueError` of a validator, or an exception of the clustering or the merge.
use agentic_soc_triage_assis.Prelude.{
  ◌>>=◌, ◌<>◌, String, ℕ, List, Option, [], none, some, ◌∷◌, ◌++◌, ◌+◌, ◌-◌, ◌/◌, ◌==◌,
  if◌then◌else◌, filter, Bool, min, max, length, not, not_after, Dict, then_by, text_equality,
  compare_text, sort_by,
}
use agentic_soc_triage_assis.Detection.Clusters.{Ratio, cluster_signals}
use agentic_soc_triage_assis.Detection.Bundles.{IncidentBundle, is_valid_bundle, sorted_set}
use agentic_soc_triage_assis.Detection.Model.{TextMethods, Event, Timestamp, Signal}
use agentic_soc_triage_assis.Detection.Titles.{
  TitleMethods, incident_primary_entity, incident_title_source,
}
use agentic_soc_triage_assis.Detection.Scoring.{
  Numerals, update_metrics, count_metric, text_metric, as_metrics,
}
use agentic_soc_triage_assis.Detection.Rating.{
  index_events, targets_of, derive_incident_severity_facts, calculate_incident_severity,
  calculate_incident_confidence,
}
use agentic_soc_triage_assis.Detection.Groups.{ids_of}
use agentic_soc_triage_assis.Detection.Merging.{merge_overlapping_incidents, events_known}
use agentic_soc_triage_assis.Detection.Attached.{select_context_event_ids, collect_evidence}

pub record BuildMethods : Type 0 where
  -- `hashlib.sha256(...).hexdigest()[:12].upper()`.
  pub id_digest : String → String
  pub isoformat : Timestamp → String
  -- `first_seen.replace(microsecond=0, second=0).isoformat()`.
  pub minute_text : ℕ → String

pub record BuildSettings : Type 0 where
  pub incident_merge_window_seconds : ℕ
  pub event_overlap_threshold : Ratio
  pub max_context_events : ℕ

abbrev pub generate_incident_id :
    BuildMethods
    → (incident_family incident_type primary_entity merge_key : String) → (first_seen : ℕ) → String
generate_incident_id build incident_family incident_type primary_entity merge_key first_seen =
    "INC-"
    <> build.id_digest (
        incident_family
        <> "|"
        <> incident_type
        <> "|"
        <> primary_entity
        <> "|"
        <> merge_key
        <> "|"
        <> build.minute_text first_seen)

abbrev pub events_in : List Signal → List String
events_in [] = []
events_in (s ∷ signals) = s.event_ids ++ events_in signals

abbrev pub techniques_in : List Signal → List String
techniques_in [] = []
techniques_in (s ∷ signals) = s.mitre_techniques ++ techniques_in signals

-- `min` and `max` over a cluster, from its first signal on.
abbrev pub earliest : ℕ → List Signal → ℕ
earliest first [] = first
earliest first (s ∷ signals) = min s.first_seen (earliest first signals)

abbrev pub latest : ℕ → List Signal → ℕ
latest last [] = last
latest last (s ∷ signals) = max s.last_seen (latest last signals)

abbrev pub validated_bundle : IncidentBundle → Option IncidentBundle
validated_bundle incident = if is_valid_bundle incident then some incident else none

module _ (text : TextMethods) (titles : TitleMethods) (numerals : Numerals) (build : BuildMethods)
    (settings : BuildSettings) (event_lookup : Dict String Event)
    (sorted_context_events : List Event) where
  -- The fields of the incident of a cluster.
  unfoldable pub correlated_incident : (anchor : Signal) → (others : List Signal) → IncidentBundle
  correlated_incident anchor others =
      let cluster = anchor ∷ others in
      let event_ids = sorted_set (events_in cluster) in
      let target_entities = sorted_set (targets_of cluster) in
      let absorbed_signal_ids =
        sorted_set (filter (λ id. not (id == anchor.signal_id)) (ids_of cluster)) in
      let first_seen = earliest anchor.first_seen others in
      let last_seen = latest anchor.last_seen others in
      let incident_events = events_known event_lookup event_ids in
      let facts = derive_incident_severity_facts text incident_events anchor.signal_family in
      let primary_entity = incident_primary_entity anchor event_lookup in
      let bucket = anchor.first_seen / 1_000_000 / settings.incident_merge_window_seconds in
      let merge_key =
        "v2:" <> anchor.rule_id <> ":" <> anchor.signal_id <> ":" <> numerals.decimal bucket in
      record {
        incident_id =
            generate_incident_id build anchor.signal_family anchor.signal_type primary_entity
              merge_key anchor.first_seen;
        incident_type = anchor.signal_type;
        incident_family = anchor.signal_family;
        title =
            "Detected "
            <> anchor.rule_name
            <> " from "
            <> incident_title_source text titles anchor event_lookup;
        severity = calculate_incident_severity cluster (some facts);
        confidence = calculate_incident_confidence cluster;
        first_seen = first_seen;
        last_seen = last_seen;
        primary_entity = primary_entity;
        target_entities = target_entities;
        signal_ids = sorted_set (ids_of cluster);
        event_ids = event_ids;
        context_event_ids = sorted_set (
            select_context_event_ids text
              (record {
                incident_event_ids = event_ids;
                incident_events = incident_events;
                first_seen = first_seen;
                last_seen = last_seen;
                merge_window_seconds = settings.incident_merge_window_seconds;
                max_context_events = settings.max_context_events;
              })
              sorted_context_events);
        evidence = collect_evidence cluster event_ids;
        metrics =
            update_metrics
              (("total_events", count_metric (length event_ids))
                ∷ ("distinct_targets", count_metric (length target_entities))
                ∷ ("correlated_signal_count", count_metric (length cluster))
                ∷ ("absorbed_signal_count", count_metric (length absorbed_signal_ids))
                ∷ ("primary_signal_id", text_metric anchor.signal_id)
                ∷ ("correlation_version", text_metric "2")
                ∷ [])
              (as_metrics facts);
        mitre_techniques = sorted_set (techniques_in cluster);
        merge_key = merge_key;
        review_reason = none;
        absorbed_signal_ids = absorbed_signal_ids;
      }

  unfoldable pub build_correlated_incident : (cluster : List Signal) → Option IncidentBundle
  unfolding correlated_incident
  build_correlated_incident [] = none
  build_correlated_incident (anchor ∷ others) = validated_bundle (correlated_incident anchor others)

  unfoldable pub build_each : (clusters : List (List Signal)) → Option (List IncidentBundle)
  unfolding build_correlated_incident
  build_each [] = some []
  build_each (cluster ∷ clusters) = do
    incident ← build_correlated_incident cluster
    incidents ← build_each clusters
    some (incident ∷ incidents)

-- `sum(len(cluster) - 1 for cluster in clusters)`; no cluster is empty.
abbrev pub merge_count_of : List (List Signal) → ℕ
merge_count_of [] = 0
merge_count_of (cluster ∷ clusters) = (length cluster - 1) + merge_count_of clusters

-- `event for event in events if event.event_id`.
abbrev pub with_ids : List Event → List Event
with_ids events = filter (λ (e : Event). not (e.event_id == "")) events

abbrev pub time_text : BuildMethods → Option Timestamp → String
time_text build none = ""
time_text build (some t) = build.isoformat t

abbrev pub context_not_after : BuildMethods → Event → Event → Bool
context_not_after build a b = not_after (
    then_by (compare_text (time_text build a.timestamp) (time_text build b.timestamp))
      (compare_text a.event_id b.event_id))

module _ (text : TextMethods) (titles : TitleMethods) (numerals : Numerals) (build : BuildMethods)
    (settings : BuildSettings) where
  unfoldable pub build_correlated_incidents :
      (signals : List Signal)
      → (context_events candidate_events : List Event) → Option (List IncidentBundle × ℕ)
  unfolding build_each
  build_correlated_incidents [] context_events candidate_events = some ([], 0)
  build_correlated_incidents (s ∷ signals) context_events candidate_events = do
    let event_lookup = index_events (with_ids candidate_events) []
    let sorted_context_events = sort_by (context_not_after build) (with_ids context_events)
    clusters ←
        cluster_signals settings.incident_merge_window_seconds settings.event_overlap_threshold
          (s ∷ signals)
    incidents ←
        build_each text titles numerals build settings event_lookup sorted_context_events clusters
    merged ←
        merge_overlapping_incidents text numerals settings.max_context_events incidents
          (s ∷ signals) (some event_lookup)
    some (merged.0, merge_count_of clusters + merged.1)
