-- ===== src/Detection/Results.antt =====
-- The end of `DetectionEngine.analyze` in agent/detection/engine.py: de-duplication of the active signals,
-- correlation, and the events that no incident holds.
use agentic_soc_triage_assis.Prelude.{
  ◌>>=◌, List, [], some, ◌∷◌, ◌++◌, ◌-◌, String, ℕ, map, Option, filter, not, contains, length,
  text_equality,
}
use agentic_soc_triage_assis.Detection.Model.{TextMethods, Signal, Event}
use agentic_soc_triage_assis.Detection.Bundles.{IncidentBundle}
use agentic_soc_triage_assis.Detection.Titles.{TitleMethods}
use agentic_soc_triage_assis.Detection.Scoring.{Numerals}
use agentic_soc_triage_assis.Detection.Building.{
  BuildMethods, BuildSettings, build_correlated_incidents,
}
use agentic_soc_triage_assis.Detection.Repeats.{deduplicate_signals}

pub record DetectionResult : Type 0 where
  pub signals : List Signal
  pub incidents : List IncidentBundle
  pub uncorrelated_event_ids : List String
  pub duplicate_signal_count : ℕ
  pub incident_count : ℕ
  pub merge_count : ℕ

-- `correlated_event_ids`.
unfoldable pub correlated_event_ids : List IncidentBundle → List String
correlated_event_ids [] = []
correlated_event_ids (incident ∷ incidents) = incident.event_ids ++ correlated_event_ids incidents

abbrev pub event_ids_of_events : List Event → List String
event_ids_of_events events = map (λ (e : Event). e.event_id) events

module _ (text : TextMethods) (titles : TitleMethods) (numerals : Numerals) (build : BuildMethods)
    (settings : BuildSettings) where
  -- `none` stands for an exception of the correlation.
  unfoldable pub correlate_signals :
      (active_signals : List Signal)
      → (context_events eligible_events : List Event) → Option DetectionResult
  unfolding correlated_event_ids
  correlate_signals active_signals context_events eligible_events = do
    let deduped = deduplicate_signals build settings.incident_merge_window_seconds active_signals
    built ←
        build_correlated_incidents text titles numerals build settings deduped context_events
          eligible_events
    some (record {
      signals = deduped;
      incidents = built.0;
      uncorrelated_event_ids =
          filter (λ id. not (contains id (correlated_event_ids built.0)))
            (event_ids_of_events eligible_events);
      duplicate_signal_count = length active_signals - length deduped;
      incident_count = length built.0;
      merge_count = built.1;
    })
