-- ===== src/Correlation/Evidence.antt =====
-- `_valid_sorted_unique` and `_merge_evidence` of agent/correlation/merge.py. `selected_ids` holds the
-- event ids of `selected` all the time, so it is read from there.
use agentic_soc_triage_assis.Prelude.{
  List, [], ◌∷◌, ◌++◌, ◌&&◌, ◌||◌, if◌then◌else◌, String, not, leb, Dict, sort_by, contains,
  put_entry, take, length, map, text_equality, ltb,
}
use agentic_soc_triage_assis.Detection.Model.{Evidence}
use agentic_soc_triage_assis.Detection.Attached.{
  not_after_evidence, max_incident_evidence, event_ids_in,
}

-- The loop body of `_valid_sorted_unique`; `seen` holds the event ids of the result.
unfoldable pub keep_valid :
    (incident_event_ids : List String) → Evidence → (result : List Evidence) → List Evidence
keep_valid incident_event_ids item result =
    if not (contains item.event_id incident_event_ids)
      || contains item.event_id (event_ids_in result)
    then result
    else result ++ (item ∷ [])

unfoldable pub keep_all_valid : List String → (items result : List Evidence) → List Evidence
unfolding keep_valid
keep_all_valid incident_event_ids [] result = result
keep_all_valid incident_event_ids (item ∷ items) result =
    keep_all_valid incident_event_ids items (keep_valid incident_event_ids item result)

unfoldable pub valid_sorted_unique :
    List Evidence → (incident_event_ids : List String) → List Evidence
unfolding keep_all_valid
valid_sorted_unique evidence incident_event_ids =
    keep_all_valid incident_event_ids (sort_by not_after_evidence evidence) []

-- `if valid and valid[0].event_id not in selected_ids and len(selected) < MAX_INCIDENT_EVIDENCE`.
unfoldable pub reserve_first : (valid selected : List Evidence) → List Evidence
reserve_first [] selected = selected
reserve_first (item ∷ valid) selected =
    if not (contains item.event_id (event_ids_in selected))
      && ltb (length selected) max_incident_evidence
    then selected ++ (item ∷ [])
    else selected

-- The body of the last loop; `break` is a state that no later item changes.
unfoldable pub fill_slot : Evidence → (selected : List Evidence) → List Evidence
fill_slot item selected =
    if leb max_incident_evidence (length selected)
    then selected
    else if contains item.event_id (event_ids_in selected)
    then selected
    else selected ++ (item ∷ [])

unfoldable pub fill_slots : (pool selected : List Evidence) → List Evidence
unfolding fill_slot
fill_slots [] selected = selected
fill_slots (item ∷ pool) selected = fill_slots pool (fill_slot item selected)

-- `{item.event_id: item for item in items}`.
unfoldable pub index_evidence : List Evidence → Dict String Evidence → Dict String Evidence
index_evidence [] index = index
index_evidence (item ∷ items) index = index_evidence items (put_entry item.event_id item index)

unfoldable pub remaining_pool : (canonical_valid incoming_valid : List Evidence) → List Evidence
unfolding index_evidence
remaining_pool canonical_valid incoming_valid = sort_by not_after_evidence (
    map (λ (entry : String × Evidence). entry.1)
      (index_evidence (canonical_valid ++ incoming_valid) []))

-- The first condition has no test of `selected_ids`, which is empty then.
unfoldable pub merge_evidence :
    (canonical_evidence incoming_evidence : List Evidence)
    → (incident_event_ids : List String) → List Evidence
unfolding valid_sorted_unique reserve_first fill_slots remaining_pool
merge_evidence canonical_evidence incoming_evidence incident_event_ids =
    let canonical_valid = valid_sorted_unique canonical_evidence incident_event_ids in
    let incoming_valid = valid_sorted_unique incoming_evidence incident_event_ids in
    let selected =
      fill_slots (remaining_pool canonical_valid incoming_valid)
        (reserve_first incoming_valid (reserve_first canonical_valid [])) in
    take max_incident_evidence (sort_by not_after_evidence selected)
