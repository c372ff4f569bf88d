-- ===== src/Correlation/Bundling.antt =====
-- `_select_anchor` and `merge_incident_bundles` of agent/correlation/merge.py. `None` for the available
-- signals or the final events is an empty list, which the code treats alike. `none` stands for the
-- `ValueError` of `IncidentBundle`'s validators; the lists that these sort are sorted already.
use agentic_soc_triage_assis.Detection.Bundles.{
  IncidentBundle, sorted_union, text_not_after, sorted_union_without, is_valid_bundle,
}
use agentic_soc_triage_assis.Detection.Model.{Signal, TextMethods, Severity, Event, severity_rank}
use agentic_soc_triage_assis.Prelude.{
  Option, String, List, Bool, [], none, some, false, ◌∷◌, ◌++◌, ◌+◌, ◌-◌, ◌*◌, ◌&&◌, ◌||◌, ◌==◌,
  if◌then◌else◌, get_entry, contains, ltb, not, length, to_set, map, filter, text_equality, nat_beq,
  is_subset, ◌<>◌, ℕ, sort_by, is_some, min, max, take,
}
use agentic_soc_triage_assis.Detection.Scoring.{
  Numerals, Metric, IncidentSeverityFacts, text_metric, count_metric, update_metrics,
}
use agentic_soc_triage_assis.Detection.Rating.{
  Confidence, calculate_incident_severity, derive_incident_severity_facts, unique_events,
  calculate_incident_confidence,
}
use agentic_soc_triage_assis.Detection.Precedence.{takes_precedence}
use agentic_soc_triage_assis.Detection.Merging.{look_up_all, index_signals, update_facts}
use agentic_soc_triage_assis.Detection.Titles.{
  TitleMethods, first_or, asset_primary_families, incident_title_source,
}
use agentic_soc_triage_assis.Correlation.Evidence.{merge_evidence}

pub record IncidentMergeOutcome : Type 0 where
  pub incident : IncidentBundle
  pub primary_signal_id : String
  pub identity_promoted : Bool
  pub scoring_recalculated : Bool
  pub material_changes : List String

-- `min(cluster, key=signal_precedence_key)`.
unfoldable pub least_signal : Signal → List Signal → Signal
least_signal best [] = best
least_signal best (s ∷ signals) = least_signal (if takes_precedence best s then best else s) signals

abbrev pub anchor_of : Option (List Signal) → Option Signal
anchor_of none = none
anchor_of (some []) = none
anchor_of (some (s ∷ signals)) = some (least_signal s signals)

-- The look-up fails where the available signals do not cover the required ids.
unfoldable pub select_anchor :
    (canonical incoming : IncidentBundle) → (available_signals : List Signal) → Option Signal
select_anchor canonical incoming available_signals = anchor_of (
    look_up_all (index_signals available_signals [])
      (to_set (canonical.signal_ids ++ incoming.signal_ids)))

-- `str(value or "")`.
abbrev pub text_or_blank : Numerals → Option Metric → String
text_or_blank numerals none = ""
text_or_blank numerals (some (text_metric s)) = s
text_or_blank numerals (some (count_metric n)) = if nat_beq n 0 then "" else numerals.decimal n

-- The primary signal that the canonical incident has had.
unfoldable pub former_primary : Numerals → IncidentBundle → String
former_primary numerals canonical =
    let written = text_or_blank numerals (get_entry "primary_signal_id" canonical.metrics) in
    if written == "" then first_or "" canonical.signal_ids else written

-- What the anchor decides of the merged incident.
pub record Identity : Type 0 where
  pub primary_signal_id : String
  pub incident_type : String
  pub incident_family : String
  pub title : String
  pub primary_entity : String
  pub severity : Severity
  pub confidence : Confidence
  pub severity_facts : Option IncidentSeverityFacts
  pub is_promoted : Bool

abbrev pub kept_identity : Numerals → IncidentBundle → Identity
kept_identity numerals canonical = record {
  primary_signal_id = former_primary numerals canonical;
  incident_type = canonical.incident_type;
  incident_family = canonical.incident_family;
  title = canonical.title;
  primary_entity = canonical.primary_entity;
  severity = canonical.severity;
  confidence = canonical.confidence;
  severity_facts = none;
  is_promoted = false;
}

-- `normalized_primary_entity`.
unfoldable pub anchor_entity : (canonical incoming : IncidentBundle) → Signal → String
anchor_entity canonical incoming anchor =
    if contains anchor.signal_family asset_primary_families
    then (if contains anchor.signal_id incoming.signal_ids
        then incoming.primary_entity
        else canonical.primary_entity)
    else anchor.primary_entity

abbrev pub severity_if : List Signal → (kept : Severity) → Option IncidentSeverityFacts → Severity
severity_if cluster kept none = kept
severity_if cluster kept (some facts) = calculate_incident_severity cluster (some facts)

module _ (text : TextMethods) (titles : TitleMethods) (numerals : Numerals) where
  -- `if signals_complete and set(final_event_map) == event_id_set`; the signals are complete where
  -- there is an anchor.
  unfoldable pub final_facts :
      (final_events : List Event)
      → (event_ids : List String) → (family : String) → Option IncidentSeverityFacts
  final_facts final_events event_ids family =
      let final_ids = map (λ (e : Event). e.event_id) final_events in
      if is_subset final_ids event_ids && is_subset event_ids final_ids
      then some (derive_incident_severity_facts text (unique_events final_events) family)
      else none

  -- The branch `if anchor is not None`.
  unfoldable pub identity_by :
      (canonical incoming : IncidentBundle)
      → (available_signals : List Signal) → (signal_ids event_ids : List String)
      → (final_events : List Event) → Option Signal
      → Identity
  unfolding anchor_entity final_facts
  identity_by canonical incoming available_signals signal_ids event_ids final_events none =
      kept_identity numerals canonical
  identity_by canonical incoming available_signals signal_ids event_ids final_events (some anchor) =
      let primary_entity = anchor_entity canonical incoming anchor in
      let cluster = filter (λ (s : Signal). contains s.signal_id signal_ids) available_signals in
      let facts = final_facts final_events event_ids anchor.signal_family in
      record {
        primary_signal_id = anchor.signal_id;
        incident_type = anchor.signal_type;
        incident_family = anchor.signal_family;
        title =
            "Detected "
            <> anchor.rule_name
            <> " from "
            <> incident_title_source text titles anchor [];
        primary_entity = primary_entity;
        severity = severity_if cluster canonical.severity facts;
        confidence = calculate_incident_confidence cluster;
        severity_facts = facts;
        is_promoted =
            not (anchor.signal_type == canonical.incident_type)
            || (not (anchor.signal_family == canonical.incident_family)
                || not (primary_entity == canonical.primary_entity));
      }

-- `abs(a - b) > 1e-9`, on fractions of millionths.
unfoldable pub confidence_differs : (a b : Confidence) → Bool
confidence_differs a b =
    let left = a.total * b.count in
    let right = b.total * a.count in
    ltb (a.count * b.count) (((left - right) + (right - left)) * 1000)

abbrev pub change_if : Bool → String → List String
change_if test change = if test then change ∷ [] else []

unfoldable pub material_changes_of :
    (canonical merged : IncidentBundle) → (identity_promoted : Bool) → List String
unfolding confidence_differs
material_changes_of canonical merged identity_promoted =
    change_if (ltb (length canonical.event_ids) (length merged.event_ids)) "events_added"
    ++ change_if (ltb (length canonical.signal_ids) (length merged.signal_ids)) "signals_added"
    ++ change_if (ltb (length canonical.target_entities) (length merged.target_entities))
        "targets_added"
    ++ change_if (ltb (severity_rank canonical.severity) (severity_rank merged.severity))
        "severity_increased"
    ++ change_if (confidence_differs merged.confidence canonical.confidence) "confidence_changed"
    ++ change_if identity_promoted "primary_identity_promoted"
    ++ change_if
        (ltb merged.first_seen canonical.first_seen || ltb canonical.last_seen merged.last_seen)
        "time_window_extended"

module _ (text : TextMethods) (titles : TitleMethods) (numerals : Numerals) where
  -- The fields of the merged incident.
  unfoldable pub merged_bundle :
      (canonical incoming : IncidentBundle) → Identity → (max_context_events : ℕ) → IncidentBundle
  merged_bundle canonical incoming identity max_context_events =
      let signal_ids = sorted_union canonical.signal_ids incoming.signal_ids in
      let event_ids = sorted_union canonical.event_ids incoming.event_ids in
      let absorbed_signal_ids =
        sort_by text_not_after (filter (λ id. not (id == identity.primary_signal_id)) signal_ids) in
      record {
        incident_id = canonical.incident_id;
        incident_type = identity.incident_type;
        incident_family = identity.incident_family;
        title = identity.title;
        severity = identity.severity;
        confidence = identity.confidence;
        first_seen = min canonical.first_seen incoming.first_seen;
        last_seen = max canonical.last_seen incoming.last_seen;
        primary_entity = identity.primary_entity;
        target_entities = sorted_union canonical.target_entities incoming.target_entities;
        signal_ids = signal_ids;
        event_ids = event_ids;
        context_event_ids =
            take max_context_events (
              sorted_union_without canonical.context_event_ids incoming.context_event_ids
                event_ids);
        evidence = merge_evidence canonical.evidence incoming.evidence event_ids;
        metrics = update_facts identity.severity_facts (
            update_metrics canonical.metrics (
              ("total_events", count_metric (length event_ids))
              ∷ ("correlated_signal_count", count_metric (length signal_ids))
              ∷ ("absorbed_signal_count", count_metric (length absorbed_signal_ids))
              ∷ ("primary_signal_id", text_metric identity.primary_signal_id)
              ∷ []));
        mitre_techniques = sorted_union canonical.mitre_techniques incoming.mitre_techniques;
        merge_key = canonical.merge_key;
        review_reason = canonical.review_reason;
        absorbed_signal_ids = absorbed_signal_ids;
      }

  unfoldable pub merge_incident_bundles :
      (canonical incoming : IncidentBundle)
      → (available_signals : List Signal) → (max_context_events : ℕ) → (final_events : List Event)
      → Option IncidentMergeOutcome
  unfolding identity_by merged_bundle
  merge_incident_bundles canonical incoming available_signals max_context_events final_events =
      let anchor = select_anchor canonical incoming available_signals in
      let identity =
        identity_by text titles numerals canonical incoming available_signals
          (sorted_union canonical.signal_ids incoming.signal_ids)
          (sorted_union canonical.event_ids incoming.event_ids) final_events anchor in
      let merged = merged_bundle canonical incoming identity max_context_events in
      if is_valid_bundle merged
      then some (record {
        incident = merged;
        primary_signal_id = identity.primary_signal_id;
        identity_promoted = identity.is_promoted;
        scoring_recalculated = is_some identity.severity_facts;
        material_changes = material_changes_of canonical merged identity.is_promoted;
      })
      else none
