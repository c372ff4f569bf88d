-- ===== src/Detection/Covering.antt =====
-- Building the incidents (agent/detection/incident_correlation.py) loses no event and no signal.
use agentic_soc_triage_assis.Prelude.{
  [], true, false, refl, ◌≡◌, ◌∷◌, ◌≤◌, ◌&&◌, ◌||◌, ◌==◌, ◌∙◌, ◌<>◌, String, ℕ, List, Dict, some,
  Bool, contains, all, text_equality, leb, arith, All, is_some, any, and_split, get_entry,
  contains-append, ap, leb→le, Option, intersects-apart, contains-own, le→leb, intersects,
}
use agentic_soc_triage_assis.Detection.Model.{Signal, TextMethods, Event}
use agentic_soc_triage_assis.Detection.Building.{
  BuildMethods, earliest, latest, events_in, BuildSettings, correlated_incident,
  build_correlated_incident,
}
use agentic_soc_triage_assis.Detection.Titles.{TitleMethods}
use agentic_soc_triage_assis.Detection.Groups.{ids_of}
use agentic_soc_triage_assis.Detection.Scoring.{Numerals}
use agentic_soc_triage_assis.Detection.Bundles.{
  IncidentBundle, is_valid_bundle, sorted_set, sorted_set-All, contains-sorted_set,
}
use agentic_soc_triage_assis.Detection.Merged.{IsMergeable, has_event, has_signal}
use agentic_soc_triage_assis.Detection.Merging.{int_or_zero, merge_count_key}
use agentic_soc_triage_assis.Detection.Severities.{get_entry-update_metrics}
use agentic_soc_triage_assis.Detection.Confidences.{
  calculate_incident_confidence-IsConfidence, IsConfidence,
}
use agentic_soc_triage_assis.Detection.Attaching.{select_context_event_ids-IsContext}

-- What the validators of `DetectionSignal` promise of times and confidence.
unfoldable pub is_proper_signal : Signal → Bool
is_proper_signal s = leb s.first_seen s.last_seen && leb s.confidence 1_000_000

-- No incident id is empty.
abbrev pub NamesIncidents : BuildMethods → Type 0
NamesIncidents build = (s : String) → ("INC-" <> build.id_digest s == "") ≡ false

abbrev pub cites_event : String → Signal → Bool
cites_event id s = contains id s.event_ids

abbrev pub has_id : String → Signal → Bool
has_id id s = id == s.signal_id

contains-events_in :
    (id : String) (signals : List Signal)
    → contains id (events_in signals) ≡ any (cites_event id) signals
contains-events_in id [] = refl
contains-events_in id (s ∷ signals) =
    contains-append id s.event_ids (events_in signals)
    ∙ ap (λ b. contains id s.event_ids || b) (contains-events_in id signals)

pub contains-ids_of :
    (id : String) (signals : List Signal) → contains id (ids_of signals) ≡ any (has_id id) signals
contains-ids_of id [] = refl
contains-ids_of id (s ∷ signals) = ap (λ b. (id == s.signal_id) || b) (contains-ids_of id signals)

earliest_le : (n : ℕ) (signals : List Signal) → earliest n signals ≤ n
earliest_le n [] = omega arith
earliest_le n (s ∷ signals) = omega (arith, earliest_le n signals)

le_latest : (n : ℕ) (signals : List Signal) → n ≤ latest n signals
le_latest n [] = omega arith
le_latest n (s ∷ signals) = omega (arith, le_latest n signals)

proper-confidence :
    (signals : List Signal)
    → all is_proper_signal signals ≡ true
    → All (λ (s : Signal). s.confidence ≤ 1_000_000) signals
unfolding is_proper_signal
proper-confidence [] h = tt
proper-confidence (s ∷ signals) h =
    let parts = and_split _ (all is_proper_signal signals) h in
    (leb→le s.confidence 1_000_000 (and_split _ _ parts.0).1, proper-confidence signals parts.1)

proper-order : (s : Signal) → is_proper_signal s ≡ true → s.first_seen ≤ s.last_seen
unfolding is_proper_signal
proper-order s h = leb→le s.first_seen s.last_seen (and_split _ _ h).0

is_valid_bundle_of :
    (incident : IncidentBundle)
    → (incident.incident_id == "") ≡ false
    → IsConfidence incident.confidence
    → incident.first_seen ≤ incident.last_seen
    → intersects incident.event_ids incident.context_event_ids ≡ false
    → is_valid_bundle incident ≡ true
unfolding is_valid_bundle
is_valid_bundle_of incident named sure in_order apart =
    rw (named, le→leb _ _ sure, le→leb _ _ in_order, apart) refl

known_ids-All :
    (index : Dict String Signal) (signals : List Signal)
    → all (λ (s : Signal). is_some (get_entry s.signal_id index)) signals ≡ true
    → All (λ id. is_some (get_entry id index) ≡ true) (ids_of signals)
known_ids-All index [] h = tt
known_ids-All index (s ∷ signals) h =
    let parts =
      and_split _ (all (λ (x : Signal). is_some (get_entry x.signal_id index)) signals) h in
    (parts.0, known_ids-All index signals parts.1)

module _ (text : TextMethods) (titles : TitleMethods) (numerals : Numerals) (build : BuildMethods)
    (settings : BuildSettings) (event_lookup : Dict String Event)
    (sorted_context_events : List Event) (index : Dict String Signal) where
  -- The incident of a cluster.
  pub record IsBuilt (cluster : List Signal) (outcome : Option IncidentBundle) : Type 0 where
    pub incident : IncidentBundle
    pub ends : outcome ≡ some incident
    pub mergeable : IsMergeable numerals index incident
    pub events : (id : String) → has_event id incident ≡ any (cites_event id) cluster
    pub signals : (id : String) → has_signal id incident ≡ any (has_id id) cluster

  abbrev the_incident : Signal → List Signal → IncidentBundle
  the_incident anchor others =
      correlated_incident text titles numerals build settings event_lookup sorted_context_events
        anchor others

  correlated_incident-valid :
      (anchor : Signal) (others : List Signal)
      → NamesIncidents build
      → all is_proper_signal (anchor ∷ others) ≡ true
      → is_valid_bundle (the_incident anchor others) ≡ true
  unfolding correlated_incident
  correlated_incident-valid anchor others named proper =
      let event_ids = sorted_set (events_in (anchor ∷ others)) in
      let parts = and_split _ (all is_proper_signal others) proper in
      let sure =
        calculate_incident_confidence-IsConfidence (anchor ∷ others)
          (proper-confidence (anchor ∷ others) proper) in
      let apart =
        intersects-apart event_ids event_ids (the_incident anchor others).context_event_ids
          (contains-own [] event_ids)
          (sorted_set-All _ _
            (select_context_event_ids-IsContext text _ sorted_context_events).outside) in
      let in_order : earliest anchor.first_seen others ≤ latest anchor.last_seen others = omega (
        arith,
        earliest_le anchor.first_seen others,
        le_latest anchor.last_seen others,
        proper-order anchor parts.0,
      ) in
      is_valid_bundle_of (the_incident anchor others) (named _) sure in_order apart

  correlated_incident-countable :
      (anchor : Signal) (others : List Signal)
      → is_some
          (int_or_zero numerals (get_entry merge_count_key (the_incident anchor others).metrics))
        ≡ true
  unfolding correlated_incident int_or_zero get_entry
  correlated_incident-countable anchor others =
      ap (λ o. is_some (int_or_zero numerals o)) (get_entry-update_metrics merge_count_key _ _)

  pub build_correlated_incident-IsBuilt :
      (anchor : Signal) (others : List Signal)
      → NamesIncidents build
      → all is_proper_signal (anchor ∷ others) ≡ true
      → all (λ (s : Signal). is_some (get_entry s.signal_id index)) (anchor ∷ others) ≡ true
      → IsBuilt (anchor ∷ others) (
          build_correlated_incident text titles numerals build settings event_lookup
            sorted_context_events
            (anchor ∷ others))
  unfolding build_correlated_incident correlated_incident
  build_correlated_incident-IsBuilt anchor others named proper known = record {
    incident = the_incident anchor others;
    ends = rw (correlated_incident-valid anchor others named proper) refl;
    mergeable = record {
      known = sorted_set-All _ _ (known_ids-All index (anchor ∷ others) known);
      countable = correlated_incident-countable anchor others;
    };
    events = λ id.
        contains-sorted_set id (events_in (anchor ∷ others))
        ∙ contains-events_in id (anchor ∷ others);
    signals = λ id.
        contains-sorted_set id (ids_of (anchor ∷ others)) ∙ contains-ids_of id (anchor ∷ others);
  }
