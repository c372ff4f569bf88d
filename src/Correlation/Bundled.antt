-- ===== src/Correlation/Bundled.antt =====
-- What `merge_incident_bundles` (agent/correlation/merge.py) keeps of the two incidents.
use agentic_soc_triage_assis.Prelude.{
  ℕ, List, [], none, some, false, ◌≡◌, ◌≤◌, All, String, arith, intersects, All-take, take,
  sort_by-All, text_equality, Option, All-filter, contains, true, refl, ◌++◌, ◌||◌, ◌==◌, Bool, not,
  filter, All-weaken, filter-All, leb, intersects-apart, min, contains-own, max, is_some,
  to_set-All, le→leb,
}
use agentic_soc_triage_assis.Detection.Model.{TextMethods, Signal, Event}
use agentic_soc_triage_assis.Detection.Bundles.{
  sorted_union_without, IncidentBundle, sorted_set, sorted_union, text_not_after,
  contains-sorted_union, is_valid_bundle,
}
use agentic_soc_triage_assis.Detection.Titles.{TitleMethods}
use agentic_soc_triage_assis.Detection.Scoring.{Numerals}
use agentic_soc_triage_assis.Correlation.Bundling.{
  identity_by, IncidentMergeOutcome, merge_incident_bundles, merged_bundle, select_anchor,
  material_changes_of,
}
use agentic_soc_triage_assis.Detection.Merged.{has_event, has_signal}
use agentic_soc_triage_assis.Detection.Attaching.{IsAttached}
use agentic_soc_triage_assis.Correlation.Starving.{merge_evidence-FirstKept}
use agentic_soc_triage_assis.Detection.Confidences.{
  IsConfidence, calculate_incident_confidence-IsConfidence,
}

module _ (text : TextMethods) (titles : TitleMethods) (numerals : Numerals) where
  identity_by-IsConfidence :
      (canonical incoming : IncidentBundle) (available : List Signal)
      (signal_ids event_ids : List String) (final_events : List Event) (anchor : Option Signal)
      → IsConfidence canonical.confidence
      → All (λ (s : Signal). s.confidence ≤ 1_000_000) available
      → IsConfidence
          (identity_by text titles numerals canonical incoming available signal_ids event_ids
            final_events anchor).confidence
  unfolding identity_by
  identity_by-IsConfidence canonical incoming available signal_ids event_ids final_events none h k =
      h
  identity_by-IsConfidence canonical incoming available signal_ids event_ids final_events
        (some anchor) h k =
      calculate_incident_confidence-IsConfidence _
        (All-filter _ (λ (s : Signal). contains s.signal_id signal_ids) available k)

outside-sorted_union_without :
    (xs ys zs : List String) (n : ℕ)
    → intersects zs (take n (sorted_union_without xs ys zs)) ≡ false
unfolding sorted_union_without sorted_set
outside-sorted_union_without xs ys zs n =
    let is_new : String → Bool = λ x. not (contains x zs) in
    let outside : All (λ x. contains x zs ≡ false) (filter is_new (xs ++ ys)) =
      All-weaken _ (λ x h. ground (arith, h)) (filter-All is_new (xs ++ ys)) in
    intersects-apart zs zs _ (contains-own [] zs)
      (All-take _ n _ (sort_by-All text_not_after _ _ (to_set-All _ _ outside)))

-- What a merge keeps of the two incidents.
pub record IsBundleOf (canonical incoming : IncidentBundle) (outcome : Option IncidentMergeOutcome)
    : Type 0 where
  pub result : IncidentMergeOutcome
  pub ends : outcome ≡ some result
  pub same_id : result.incident.incident_id ≡ canonical.incident_id
  pub all_events :
      (id : String)
      → has_event id result.incident ≡ (has_event id canonical || has_event id incoming)
  pub all_signals :
      (id : String)
      → has_signal id result.incident ≡ (has_signal id canonical || has_signal id incoming)
  pub attached : IsAttached result.incident.event_ids result.incident.evidence
  pub no_context : intersects result.incident.event_ids result.incident.context_event_ids ≡ false

-- Whatever the text methods give: where the canonical incident has an id and times in order and all
-- confidences are at most one, a merge goes through; the merged incident has the canonical id, exactly
-- the events and the signals of the two, evidence that is bounded, without repetition and of its own
-- events, and no event that is also in its context.
pub merge_incident_bundles-IsBundleOf :
    (text : TextMethods) (titles : TitleMethods) (numerals : Numerals)
    (canonical incoming : IncidentBundle) (available : List Signal) (max_context_events : ℕ)
    (final_events : List Event)
    → (canonical.incident_id == "") ≡ false
    → canonical.first_seen ≤ canonical.last_seen
    → IsConfidence canonical.confidence
    → All (λ (s : Signal). s.confidence ≤ 1_000_000) available
    → IsBundleOf canonical incoming (
        merge_incident_bundles text titles numerals canonical incoming available max_context_events
          final_events)
unfolding merge_incident_bundles merged_bundle is_valid_bundle
merge_incident_bundles-IsBundleOf text titles numerals canonical incoming available
      max_context_events final_events named ordered h k =
    let signal_ids = sorted_union canonical.signal_ids incoming.signal_ids in
    let event_ids = sorted_union canonical.event_ids incoming.event_ids in
    let anchor = select_anchor canonical incoming available in
    let identity =
      identity_by text titles numerals canonical incoming available signal_ids event_ids
        final_events anchor in
    let merged =
      merged_bundle text titles numerals canonical incoming identity max_context_events in
    let apart =
      outside-sorted_union_without canonical.context_event_ids incoming.context_event_ids event_ids
        max_context_events in
    let sure =
      identity_by-IsConfidence text titles numerals canonical incoming available signal_ids
        event_ids final_events anchor h k in
    let in_order : leb (min canonical.first_seen incoming.first_seen)
          (max canonical.last_seen incoming.last_seen)
        ≡ true =
      ground (arith, ordered) in
    record {
      result = record {
        incident = merged;
        primary_signal_id = identity.primary_signal_id;
        identity_promoted = identity.is_promoted;
        scoring_recalculated = is_some identity.severity_facts;
        material_changes = material_changes_of canonical merged identity.is_promoted;
      };
      ends = rw (named, le→leb _ _ sure, in_order, apart) refl;
      same_id = refl;
      all_events = λ id. contains-sorted_union id canonical.event_ids incoming.event_ids;
      all_signals = λ id. contains-sorted_union id canonical.signal_ids incoming.signal_ids;
      attached = (merge_evidence-FirstKept canonical.evidence incoming.evidence event_ids).0;
      no_context = apart;
    }
