-- ===== src/Detection/Attached.antt =====
-- `_collect_evidence` and `_select_context_event_ids` of agent/detection/incident_correlation.py: what
-- an incident carries of its signals' evidence and of the events around it. An early `return` or
-- `break` is a state that no later item changes.
use agentic_soc_triage_assis.Prelude.{
  ℕ, List, Option, String, [], none, some, false, ◌∷◌, ◌++◌, ◌+◌, ◌*◌, ◌&&◌, ◌||◌, if◌then◌else◌,
  map, Bool, leb, not_after, length, sort_by, not, is_empty, compare_text, contains, any,
  text_equality,
}
use agentic_soc_triage_assis.Detection.Model.{Evidence, TextMethods, Signal, Event, Timestamp}
use agentic_soc_triage_assis.Detection.Related.{events_are_bidirectionally_related}

abbrev pub max_incident_evidence : ℕ
max_incident_evidence = 10

abbrev pub event_ids_in : List Evidence → List String
event_ids_in evidence = map (λ (e : Evidence). e.event_id) evidence

abbrev pub not_after_evidence : Evidence → Evidence → Bool
not_after_evidence a b = not_after (compare_text a.event_id b.event_id)

-- The body of the inner loop.
unfoldable pub add_evidence :
    (incident_event_ids : List String) → (item : Evidence) → List Evidence → List Evidence
add_evidence incident_event_ids item evidence =
    if leb max_incident_evidence (length evidence)
    then evidence
    else if contains item.event_id (event_ids_in evidence)
    then evidence
    else if not (contains item.event_id incident_event_ids)
    then evidence
    else evidence ++ (item ∷ [])

unfoldable pub add_items : List String → List Evidence → List Evidence → List Evidence
add_items incident_event_ids [] evidence = evidence
add_items incident_event_ids (item ∷ items) evidence =
    add_items incident_event_ids items (add_evidence incident_event_ids item evidence)

unfoldable pub add_signals : List String → List Signal → List Evidence → List Evidence
add_signals incident_event_ids [] evidence = evidence
add_signals incident_event_ids (s ∷ cluster) evidence =
    add_signals incident_event_ids cluster
      (add_items incident_event_ids (sort_by not_after_evidence s.evidence) evidence)

unfoldable pub collect_evidence :
    (cluster : List Signal) → (incident_event_ids : List String) → List Evidence
collect_evidence cluster incident_event_ids = add_signals incident_event_ids cluster []

-- `event_lookup[eid] for eid in incident_event_ids if eid in event_lookup`.
abbrev pub with_event : Option Event → List Event → List Event
with_event none events = events
with_event (some e) events = e ∷ events

abbrev pub look_up_events : (String → Option Event) → List String → List Event
look_up_events event_lookup [] = []
look_up_events event_lookup (id ∷ ids) =
    with_event (event_lookup id) (look_up_events event_lookup ids)

-- What the selection reads: the incident's events and ids, its times and the two settings.
pub record ContextScope : Type 0 where
  pub incident_event_ids : List String
  pub incident_events : List Event
  pub first_seen : ℕ
  pub last_seen : ℕ
  pub merge_window_seconds : ℕ
  pub max_context_events : ℕ

-- `start_window <= ts <= end_window`; an event without a time is outside.
abbrev pub is_in_window : ContextScope → Option Timestamp → Bool
is_in_window scope none = false
is_in_window scope (some t) =
    let margin = scope.merge_window_seconds * 1_000_000 in
    leb scope.first_seen (t.micros + margin) && leb t.micros (scope.last_seen + margin)

module _ (text : TextMethods) where
  unfoldable pub is_context_event : ContextScope → (context_ids : List String) → Event → Bool
  is_context_event scope context_ids ce =
      not (contains ce.event_id scope.incident_event_ids)
      && (not (contains ce.event_id context_ids)
          && (is_in_window scope ce.timestamp
              && any (λ reference. events_are_bidirectionally_related text reference ce)
                  scope.incident_events))

  unfoldable pub add_context : ContextScope → List Event → (context_ids : List String) → List String
  add_context scope [] context_ids = context_ids
  add_context scope (ce ∷ events) context_ids =
      let next =
        if leb scope.max_context_events (length context_ids)
        then context_ids
        else if is_context_event scope context_ids ce
        then context_ids ++ (ce.event_id ∷ [])
        else context_ids in
      add_context scope events next

  unfoldable pub select_context_event_ids :
      ContextScope → (sorted_context_events : List Event) → List String
  select_context_event_ids scope sorted_context_events =
      if is_empty sorted_context_events || is_empty scope.incident_events
      then []
      else add_context scope sorted_context_events []
