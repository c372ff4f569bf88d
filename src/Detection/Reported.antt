-- ===== src/Detection/Reported.antt =====
-- What the result of the engine (agent/detection/engine.py) says of the events.
use agentic_soc_triage_assis.Detection.Results.{
  correlated_event_ids, correlate_signals, DetectionResult, event_ids_of_events,
}
use agentic_soc_triage_assis.Prelude.{
  List, [], some, true, refl, ◌≡◌, ◌∷◌, ◌+◌, ◌-◌, ◌||◌, ◌∙◌, String, contains, Option, any, length,
  contains-append, filter, ap, not, is_distinct, text_equality, all, Bool, fun_ext,
}
use agentic_soc_triage_assis.Detection.Model.{Signal, TextMethods, Event}
use agentic_soc_triage_assis.Detection.Bundles.{IncidentBundle}
use agentic_soc_triage_assis.Detection.Titles.{TitleMethods}
use agentic_soc_triage_assis.Detection.Scoring.{Numerals}
use agentic_soc_triage_assis.Detection.Building.{BuildMethods, BuildSettings}
use agentic_soc_triage_assis.Detection.Merged.{has_event}
use agentic_soc_triage_assis.Detection.Covering.{NamesIncidents, cites_event, is_proper_signal}
use agentic_soc_triage_assis.Detection.Groups.{ids_of}
use agentic_soc_triage_assis.Detection.Repeats.{deduplicate_signals}
use agentic_soc_triage_assis.Detection.Incidents.{build_correlated_incidents-IsCovering}
use agentic_soc_triage_assis.Detection.Repeated.{deduplicate_signals-cites}

contains-correlated :
    (id : String) (incidents : List IncidentBundle)
    → contains id (correlated_event_ids incidents) ≡ any (has_event id) incidents
unfolding correlated_event_ids
contains-correlated id [] = refl
contains-correlated id (incident ∷ incidents) =
    contains-append id incident.event_ids (correlated_event_ids incidents)
    ∙ ap (λ b. contains id incident.event_ids || b) (contains-correlated id incidents)

-- The result accounts for the signals and the events.
pub record IsReport (active_signals : List Signal) (eligible_events : List Event)
    (outcome : Option DetectionResult) : Type 0 where
  pub result : DetectionResult
  pub ends : outcome ≡ some result
  pub counted : result.incident_count + result.merge_count ≡ length result.signals
  pub cited :
      (id : String)
      → contains id (correlated_event_ids result.incidents) ≡ any (cites_event id) active_signals
  pub uncorrelated :
      result.uncorrelated_event_ids
      ≡ filter
          (λ id. not (any (cites_event id) active_signals))
          (event_ids_of_events eligible_events)

-- Whatever the text methods and digests give, where no incident id is empty: if the active signals have
-- distinct ids, times in order and confidences of at most one after their de-duplication, the end of
-- the analysis goes through; its incidents and merges add up to the signals that are left, an event is
-- in an incident exactly if an active signal cites it, and the events that it reports as uncorrelated
-- are exactly the eligible events that no active signal cites.
pub correlate_signals-IsReport :
    (text : TextMethods) (titles : TitleMethods) (numerals : Numerals) (build : BuildMethods)
    (settings : BuildSettings) (active_signals : List Signal)
    (context_events eligible_events : List Event)
    → NamesIncidents build
    → is_distinct
        (ids_of (deduplicate_signals build settings.incident_merge_window_seconds active_signals))
      ≡ true
    → all is_proper_signal
        (deduplicate_signals build settings.incident_merge_window_seconds active_signals)
      ≡ true
    → IsReport active_signals eligible_events (
        correlate_signals text titles numerals build settings active_signals context_events
          eligible_events)
unfolding correlate_signals
correlate_signals-IsReport text titles numerals build settings active_signals context_events
      eligible_events named distinct_ids proper =
    let window = settings.incident_merge_window_seconds in
    let deduped = deduplicate_signals build window active_signals in
    let covering =
      build_correlated_incidents-IsCovering text titles numerals build settings deduped
        context_events eligible_events named distinct_ids proper in
    let same : (id : String)
        → contains id (correlated_event_ids covering.incidents)
          ≡ any (cites_event id) active_signals =
      λ id.
        contains-correlated id covering.incidents
        ∙ covering.same_events id
        ∙ deduplicate_signals-cites build window active_signals id in
    record {
      result = record {
        signals = deduped;
        incidents = covering.incidents;
        uncorrelated_event_ids =
            filter (λ id. not (contains id (correlated_event_ids covering.incidents)))
              (event_ids_of_events eligible_events);
        duplicate_signal_count = length active_signals - length deduped;
        incident_count = length covering.incidents;
        merge_count = covering.merge_count;
      };
      ends = rw covering.ends refl;
      counted = covering.counted;
      cited = same;
      uncorrelated =
          ap
            (λ (p : String → Bool). filter (λ id. not (p id)) (event_ids_of_events eligible_events))
            (fun_ext same);
    }
