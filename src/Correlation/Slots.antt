-- ===== src/Correlation/Slots.antt =====
-- Each step of `_merge_evidence` (agent/correlation/merge.py) keeps the evidence bounded, without
-- repetition and of the incident's own events.
use agentic_soc_triage_assis.Prelude.{
  List, sort_by, [], true, false, ◌≡◌, ◌∷◌, ◌++◌, ◌&&◌, ◌||◌, String, contains, All, ltb, Dict,
  if_ind, length, map, sort_by-All, text_equality, not, leb, put_entry, All-append, arith,
  length-sort_by, length-append, and_split, put_entry-All, contains-sort_by, is_distinct-sort_by,
}
use agentic_soc_triage_assis.Correlation.Evidence.{
  keep_all_valid, reserve_first, fill_slots, index_evidence, remaining_pool, valid_sorted_unique,
  keep_valid, fill_slot,
}
use agentic_soc_triage_assis.Detection.Model.{Evidence}
use agentic_soc_triage_assis.Detection.Attaching.{IsAttached, ids-snoc, is_distinct-snoc}
use agentic_soc_triage_assis.Detection.Attached.{
  not_after_evidence, event_ids_in, max_incident_evidence,
}

abbrev pub IsOf : (ids : List String) → Evidence → Type 0
IsOf ids item = contains item.event_id ids ≡ true

keep_all_valid-All :
    (ids : List String) (items result : List Evidence)
    → All (IsOf ids) result
    → All (IsOf ids) (keep_all_valid ids items result)
unfolding keep_all_valid keep_valid
keep_all_valid-All ids [] result h = h
keep_all_valid-All ids (item ∷ items) result h = keep_all_valid-All ids items _ (
    if_ind (All (IsOf ids))
      (not (contains item.event_id ids) || contains item.event_id (event_ids_in result)) (λ _. h)
      (λ kept. All-append (IsOf ids) result (item ∷ []) h (ground (arith, kept), tt)))

append-IsAttached :
    (ids : List String) (item : Evidence) (selected : List Evidence)
    → IsOf ids item
    → ltb (length selected) max_incident_evidence ≡ true
    → contains item.event_id (event_ids_in selected) ≡ false
    → IsAttached ids selected
    → IsAttached ids (selected ++ (item ∷ []))
append-IsAttached ids item selected inside room unseen h = record {
  bounded = rw (length-append selected (item ∷ [])) (ground (arith, room));
  distinct_events =
      rw (ids-snoc selected item)
        (is_distinct-snoc item.event_id (event_ids_in selected) unseen h.distinct_events);
  of_incident = All-append (IsOf ids) selected (item ∷ []) h.of_incident (inside, tt);
}

pub reserve_first-IsAttached :
    (ids : List String) (valid selected : List Evidence)
    → All (IsOf ids) valid
    → IsAttached ids selected
    → IsAttached ids (reserve_first valid selected)
unfolding reserve_first
reserve_first-IsAttached ids [] selected v h = h
reserve_first-IsAttached ids (item ∷ valid) selected v h =
    if_ind (IsAttached ids)
      (not (contains item.event_id (event_ids_in selected))
        && ltb (length selected) max_incident_evidence)
      (λ room.
        append-IsAttached ids item selected v.0 (and_split _ _ room).1 (ground (arith, room)) h)
      (λ _. h)

pub fill_slots-IsAttached :
    (ids : List String) (pool selected : List Evidence)
    → All (IsOf ids) pool
    → IsAttached ids selected
    → IsAttached ids (fill_slots pool selected)
unfolding fill_slots fill_slot
fill_slots-IsAttached ids [] selected p h = h
fill_slots-IsAttached ids (item ∷ pool) selected p h = fill_slots-IsAttached ids pool _ p.1 (
    if_ind (IsAttached ids) (leb max_incident_evidence (length selected)) (λ _. h)
      (λ room.
        if_ind (IsAttached ids) (contains item.event_id (event_ids_in selected)) (λ _. h)
          (λ unseen. append-IsAttached ids item selected p.0 (ground (arith, room)) unseen h)))

-- The items of an index are among those indexed.
index_evidence-All :
    (P : Evidence → Type 0) (items : List Evidence) (index : Dict String Evidence)
    → All P items
    → All P (map (λ (entry : String × Evidence). entry.1) index)
    → All P (map (λ (entry : String × Evidence). entry.1) (index_evidence items index))
unfolding index_evidence
index_evidence-All P [] index h k = k
index_evidence-All P (item ∷ items) index h k =
    index_evidence-All P items (put_entry item.event_id item index) h.1
      (put_entry-All P item.event_id item index h.0 k)

pub remaining_pool-All :
    (ids : List String) (canonical_valid incoming_valid : List Evidence)
    → All (IsOf ids) canonical_valid
    → All (IsOf ids) incoming_valid
    → All (IsOf ids) (remaining_pool canonical_valid incoming_valid)
unfolding remaining_pool
remaining_pool-All ids canonical_valid incoming_valid h k =
    sort_by-All not_after_evidence (IsOf ids) _ (
      index_evidence-All (IsOf ids) (canonical_valid ++ incoming_valid) []
        (All-append (IsOf ids) canonical_valid incoming_valid h k) tt)

pub valid_sorted_unique-All :
    (evidence : List Evidence) (ids : List String)
    → All (IsOf ids) (valid_sorted_unique evidence ids)
unfolding valid_sorted_unique
valid_sorted_unique-All evidence ids =
    keep_all_valid-All ids (sort_by not_after_evidence evidence) [] tt

pub contains-sort_evidence :
    (id : String) (evidence : List Evidence)
    → contains id (event_ids_in (sort_by not_after_evidence evidence))
      ≡ contains id (event_ids_in evidence)
contains-sort_evidence id evidence =
    contains-sort_by (λ (e : Evidence). e.event_id) not_after_evidence id evidence

pub sort-IsAttached :
    (ids : List String) (evidence : List Evidence)
    → IsAttached ids evidence
    → IsAttached ids (sort_by not_after_evidence evidence)
sort-IsAttached ids evidence h = record {
  bounded = rw (length-sort_by not_after_evidence evidence) h.bounded;
  distinct_events =
      is_distinct-sort_by (λ (e : Evidence). e.event_id) not_after_evidence evidence
        h.distinct_events;
  of_incident = sort_by-All not_after_evidence (IsOf ids) evidence h.of_incident;
}
