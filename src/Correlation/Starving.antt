-- ===== src/Correlation/Starving.antt =====
-- Neither side's evidence is starved in a merged incident (agent/correlation/merge.py).
use agentic_soc_triage_assis.Prelude.{
  List, String, [], true, inl, inr, refl, ◌≡◌, ◌∷◌, ◌++◌, ◌<◌, ◌&&◌, ◌∙◌, contains, length, if_ind,
  Bool-cases, arith, text_equality, not, leb, ltb, lt→ltb, beq_refl, sort_by, take_all,
}
use agentic_soc_triage_assis.Correlation.Evidence.{
  reserve_first, fill_slots, merge_evidence, fill_slot, valid_sorted_unique, remaining_pool,
}
use agentic_soc_triage_assis.Detection.Model.{Evidence}
use agentic_soc_triage_assis.Detection.Attaching.{IsAttached, ids-snoc, contains-snoc}
use agentic_soc_triage_assis.Detection.Attached.{
  event_ids_in, max_incident_evidence, not_after_evidence,
}
use agentic_soc_triage_assis.Correlation.Slots.{
  valid_sorted_unique-All, sort-IsAttached, fill_slots-IsAttached, remaining_pool-All,
  reserve_first-IsAttached, contains-sort_evidence,
}

-- The first item of a side is in the evidence, by its event.
abbrev pub FirstKept : (valid evidence : List Evidence) → Type 0
FirstKept [] evidence = Unit
FirstKept (item ∷ valid) evidence = contains item.event_id (event_ids_in evidence) ≡ true

-- Appending keeps what is there.
contains-grown :
    (id : String) (selected : List Evidence) (item : Evidence)
    → contains id (event_ids_in selected) ≡ true
    → contains id (event_ids_in (selected ++ (item ∷ []))) ≡ true
contains-grown id selected item h =
    rw (ids-snoc selected item)
      (ground (arith, contains-snoc id item.event_id (event_ids_in selected), h))

reserve_first-keeps :
    (id : String) (valid selected : List Evidence)
    → contains id (event_ids_in selected) ≡ true
    → contains id (event_ids_in (reserve_first valid selected)) ≡ true
unfolding reserve_first
reserve_first-keeps id [] selected h = h
reserve_first-keeps id (item ∷ valid) selected h =
    if_ind (λ l. contains id (event_ids_in l) ≡ true)
      (not (contains item.event_id (event_ids_in selected))
        && ltb (length selected) max_incident_evidence)
      (λ _. contains-grown id selected item h) (λ _. h)

fill_slots-keeps :
    (id : String) (pool selected : List Evidence)
    → contains id (event_ids_in selected) ≡ true
    → contains id (event_ids_in (fill_slots pool selected)) ≡ true
unfolding fill_slots fill_slot
fill_slots-keeps id [] selected h = h
fill_slots-keeps id (item ∷ pool) selected h = fill_slots-keeps id pool _ (
    if_ind (λ l. contains id (event_ids_in l) ≡ true) (leb max_incident_evidence (length selected))
      (λ _. h)
      (λ _.
        if_ind (λ l. contains id (event_ids_in l) ≡ true)
          (contains item.event_id (event_ids_in selected)) (λ _. h)
          (λ _. contains-grown id selected item h)))

reserve_first-FirstKept :
    (valid selected : List Evidence)
    → length selected < max_incident_evidence
    → FirstKept valid (reserve_first valid selected)
unfolding reserve_first
reserve_first-FirstKept [] selected room = tt
reserve_first-FirstKept (item ∷ valid) selected room =
    elim (Bool-cases (contains item.event_id (event_ids_in selected))) [
      | inl there ↦ rw there there
      | inr new ↦
          let fits : ltb (length selected) max_incident_evidence ≡ true = lt→ltb _ _ room in
          rw (new, fits, ids-snoc selected item)
            (ground (
              arith,
              contains-snoc item.event_id item.event_id (event_ids_in selected),
              beq_refl item.event_id,
            ))
    ]

FirstKept-keeps :
    (valid before after : List Evidence)
    → ((id : String)
        → contains id (event_ids_in before) ≡ true
        → contains id (event_ids_in after) ≡ true)
    → FirstKept valid before
    → FirstKept valid after
FirstKept-keeps [] before after f h = tt
FirstKept-keeps (item ∷ valid) before after f h = f item.event_id h

length-reserve_first :
    (valid : List Evidence) → length (reserve_first valid []) < max_incident_evidence
unfolding reserve_first
length-reserve_first [] = omega arith
length-reserve_first (item ∷ valid) = omega arith

-- The evidence of a merged incident has at most ten items, no two of one event and all of events of the
-- incident, and the first valid item of the canonical side and that of the incoming side, where there
-- are such, are there by their events.
pub merge_evidence-FirstKept :
    (canonical_evidence incoming_evidence : List Evidence) (ids : List String)
    → let evidence = merge_evidence canonical_evidence incoming_evidence ids in
      IsAttached ids evidence
      × FirstKept (valid_sorted_unique canonical_evidence ids) evidence
      × FirstKept (valid_sorted_unique incoming_evidence ids) evidence
unfolding merge_evidence
merge_evidence-FirstKept canonical_evidence incoming_evidence ids =
    let canonical_valid = valid_sorted_unique canonical_evidence ids in
    let incoming_valid = valid_sorted_unique incoming_evidence ids in
    let first = reserve_first canonical_valid [] in
    let both = reserve_first incoming_valid first in
    let pool = remaining_pool canonical_valid incoming_valid in
    let selected = fill_slots pool both in
    let c = valid_sorted_unique-All canonical_evidence ids in
    let i = valid_sorted_unique-All incoming_evidence ids in
    let none_yet : IsAttached ids [] = record {
      bounded = omega arith;
      distinct_events = refl;
      of_incident = tt;
    } in
    let attached = sort-IsAttached ids selected (
      fill_slots-IsAttached ids pool both
        (remaining_pool-All ids canonical_valid incoming_valid c i)
        (reserve_first-IsAttached ids incoming_valid first i
          (reserve_first-IsAttached ids canonical_valid [] c none_yet))) in
    let sorted : (id : String)
        → contains id (event_ids_in selected) ≡ true
        → contains id (event_ids_in (sort_by not_after_evidence selected)) ≡ true =
      λ id h. contains-sort_evidence id selected ∙ h in
    rw (take_all max_incident_evidence (sort_by not_after_evidence selected) attached.bounded) (
      attached,
      FirstKept-keeps canonical_valid first _
          (λ id h.
            sorted id
              (fill_slots-keeps id pool both (reserve_first-keeps id incoming_valid first h)))
          (reserve_first-FirstKept canonical_valid [] (omega arith)),
      FirstKept-keeps incoming_valid both _ (λ id h. sorted id (fill_slots-keeps id pool both h))
          (reserve_first-FirstKept incoming_valid first (length-reserve_first canonical_valid)),
    )
