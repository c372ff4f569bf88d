-- ===== src/Detection/Titles.antt =====
-- `incident_title_source` and `incident_primary_entity` of agent/detection/incident_correlation.py. The
-- metrics of a signal are not part of `Signal`: the text of its "source_ips", or else its "source_ip",
-- is a parameter, and so is the split of a text at commas.
use agentic_soc_triage_assis.Detection.Model.{Signal, TextMethods, Event}
use agentic_soc_triage_assis.Prelude.{
  String, Option, Dict, List, [], none, some, ◌∷◌, ◌++◌, ◌||◌, ◌==◌, if◌then◌else◌, filter,
  get_entry, not, map, is_empty, contains, text_equality,
}
use agentic_soc_triage_assis.Detection.Related.{present_text}
use agentic_soc_triage_assis.Detection.Bundles.{sorted_set}
use agentic_soc_triage_assis.Detection.Rating.{effective_destination_ip}

pub record TitleMethods : Type 0 where
  pub source_metrics : Signal → String
  pub split_commas : String → List String

abbrev pub first_or : String → List String → String
first_or other [] = other
first_or other (x ∷ xs) = x

abbrev pub source_ip_of : Option Event → List String
source_ip_of none = []
source_ip_of (some event) = present_text event.src_ip

-- The observed sources of a signal's events, one list each.
unfoldable pub observed_sources : Dict String Event → (event_ids : List String) → List String
observed_sources event_lookup [] = []
observed_sources event_lookup (id ∷ ids) =
    source_ip_of (get_entry id event_lookup) ++ observed_sources event_lookup ids

module _ (text : TextMethods) (titles : TitleMethods) where
  unfoldable pub metric_sources : Signal → List String
  metric_sources signal =
      filter (λ value. not (value == ""))
        (map (λ value. text.strip value) (titles.split_commas (titles.source_metrics signal)))

  -- An empty dictionary of events counts as none.
  unfoldable pub incident_title_source : Signal → (event_lookup : Dict String Event) → String
  unfolding observed_sources metric_sources
  incident_title_source signal event_lookup =
      let source_ips = sorted_set (observed_sources event_lookup signal.event_ids) in
      if is_empty source_ips
      then first_or signal.primary_entity (sorted_set (metric_sources signal))
      else first_or "" source_ips

abbrev pub asset_primary_families : List String
asset_primary_families = "firewall_exposure" ∷ "firewall_policy" ∷ []

abbrev pub destination_of : Option Event → List String
destination_of none = []
destination_of (some event) = effective_destination_ip event

unfoldable pub observed_destinations : Dict String Event → (event_ids : List String) → List String
observed_destinations event_lookup [] = []
observed_destinations event_lookup (id ∷ ids) =
    destination_of (get_entry id event_lookup) ++ observed_destinations event_lookup ids

unfoldable pub incident_primary_entity : Signal → (event_lookup : Dict String Event) → String
unfolding observed_destinations
incident_primary_entity signal event_lookup =
    if not (contains signal.signal_family asset_primary_families) || is_empty event_lookup
    then signal.primary_entity
    else first_or signal.primary_entity
        (sorted_set (observed_destinations event_lookup signal.event_ids))
