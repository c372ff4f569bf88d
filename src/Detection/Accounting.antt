-- ===== src/Detection/Accounting.antt =====
-- The counters of `analyze`, and what is known of the events that reach the rules.
use agentic_soc_triage_assis.Detection.Engine.{
  deduplicate, sift_eligible, prepare, has_zoned_time, seen_key, invalid_statuses, is_eligible,
  not_later, Sifted,
}
use agentic_soc_triage_assis.Detection.Model.{Event}
use agentic_soc_triage_assis.Prelude.{
  List, [], true, false, inl, inr, refl, ◌≡◌, ◌∷◌, ◌+◌, ◌||◌, ◌==◌, if◌then◌else◌, String, length,
  All, arith, contains, Bool-cases, sort_by-All, text_equality, length-sort_by, if_ind,
  insert_sorted, sort_by, insert_sorted-All,
}

length-deduplicate :
    (seen : List String) (es : List Event)
    → length (deduplicate seen es).kept + (deduplicate seen es).skipped ≡ length es
unfolding deduplicate
length-deduplicate seen [] = omega arith
length-deduplicate seen (e ∷ es) =
    let repeated = e.event_id == "" || contains (seen_key e) seen in
    ground (arith, length-deduplicate (if repeated then seen else seen_key e ∷ seen) es)

length-sift_eligible :
    (es : List Event) → length (sift_eligible es).kept + (sift_eligible es).skipped ≡ length es
unfolding sift_eligible
length-sift_eligible [] = omega arith
length-sift_eligible (e ∷ es) = ground (arith, length-sift_eligible es)

-- Every event is counted once, as eligible or as skipped, and the rules see exactly the eligible ones.
pub prepare-counts :
    (es : List Event)
    → let (events, metrics) = prepare es in
      (metrics.eligible_events + metrics.skipped_events ≡ metrics.total_events)
      × (metrics.total_events ≡ length es)
      × (length events ≡ metrics.eligible_events)
unfolding prepare
prepare-counts es = (
  omega (arith, length-deduplicate [] es, length-sift_eligible (deduplicate [] es).kept),
  refl,
  length-sort_by not_later (sift_eligible (deduplicate [] es).kept).kept,
)

-- An event that the rules may see.
pub record IsUsable (e : Event) : Type 0 where
  pub named : (e.event_id == "") ≡ false
  pub timed : has_zoned_time e.timestamp ≡ true
  pub parsed : contains e.parse_status invalid_statuses ≡ false

abbrev IsNamed : Event → Type 0
IsNamed e = (e.event_id == "") ≡ false

deduplicate-All : (seen : List String) (es : List Event) → All IsNamed (deduplicate seen es).kept
unfolding deduplicate
deduplicate-All seen [] = tt
deduplicate-All seen (e ∷ es) =
    let repeated = e.event_id == "" || contains (seen_key e) seen in
    let rest = deduplicate-All (if repeated then seen else seen_key e ∷ seen) es in
    elim (Bool-cases repeated) [
      | inl old ↦ rw old (rw old at rest)
      | inr new ↦ rw new (ground arith, rw new at rest)
    ]

sift_eligible-All : (es : List Event) → All IsNamed es → All IsUsable (sift_eligible es).kept
unfolding sift_eligible
sift_eligible-All [] h = tt
sift_eligible-All (e ∷ es) h = elim (Bool-cases (is_eligible e)) [
  | inl good ↦ rw good (unfold is_eligible in ground arith, sift_eligible-All es h.1)
  | inr bad ↦ rw bad (sift_eligible-All es h.1)
]

-- Every event that the rules see has an id, a time with its zone and a valid parse status.
pub prepare-All : (es : List Event) → All IsUsable (prepare es).0
unfolding prepare
prepare-All es =
    sort_by-All not_later IsUsable _
      (sift_eligible-All (deduplicate [] es).kept (deduplicate-All [] es))

-- No two of the events share an id and a hash.
abbrev pub HaveDistinctKeys : List Event → Type 0
HaveDistinctKeys [] = Unit
HaveDistinctKeys (e ∷ es) = All (λ f. (seen_key e == seen_key f) ≡ false) es × HaveDistinctKeys es

abbrev Unseen : List String → Event → Type 0
Unseen seen e = contains (seen_key e) seen ≡ false

Unseen-tail :
    (k : String) (seen : List String) (es : List Event)
    → All (Unseen (k ∷ seen)) es
    → All (Unseen seen) es × All (λ e. (k == seen_key e) ≡ false) es
Unseen-tail k seen [] h = (tt, tt)
Unseen-tail k seen (e ∷ es) h =
    let rest = Unseen-tail k seen es h.1 in
    (
      (ground arith, rest.0),
      (
        ground (
          arith,
          text_equality.equals_iff k (seen_key e),
          text_equality.equals_iff (seen_key e) k,
        ),
        rest.1,
      ),
    )

deduplicate-distinct :
    (seen : List String) (es : List Event)
    → All (Unseen seen) (deduplicate seen es).kept × HaveDistinctKeys (deduplicate seen es).kept
unfolding deduplicate
deduplicate-distinct seen [] = (tt, tt)
deduplicate-distinct seen (e ∷ es) =
    let repeated = e.event_id == "" || contains (seen_key e) seen in
    let rest = deduplicate-distinct (if repeated then seen else seen_key e ∷ seen) es in
    elim (Bool-cases repeated) [
      | inl old ↦ rw old (rw old at rest)
      | inr new ↦
          let later = Unseen-tail (seen_key e) seen _ (rw new at rest).0 in
          rw new ((ground arith, later.0), (later.1, (rw new at rest).1))
    ]

sift_eligible-All_of {ℓ} :
    (P : Event → Type ℓ) (es : List Event) → All P es → All P (sift_eligible es).kept
unfolding sift_eligible
sift_eligible-All_of P [] h = tt
sift_eligible-All_of P (e ∷ es) h =
    if_ind (λ (r : Sifted). All P r.kept) (is_eligible e)
      (λ _. (h.0, sift_eligible-All_of P es h.1)) (λ _. sift_eligible-All_of P es h.1)

sift_eligible-distinct :
    (es : List Event) → HaveDistinctKeys es → HaveDistinctKeys (sift_eligible es).kept
unfolding sift_eligible
sift_eligible-distinct [] h = tt
sift_eligible-distinct (e ∷ es) h =
    if_ind (λ (r : Sifted). HaveDistinctKeys r.kept) (is_eligible e)
      (λ _. (sift_eligible-All_of _ es h.0, sift_eligible-distinct es h.1))
      (λ _. sift_eligible-distinct es h.1)

insert_sorted-distinct :
    (e : Event) (es : List Event)
    → All (λ f. (seen_key e == seen_key f) ≡ false) es
    → HaveDistinctKeys es
    → HaveDistinctKeys (insert_sorted not_later e es)
unfolding insert_sorted
insert_sorted-distinct e [] h d = (tt, tt)
insert_sorted-distinct e (f ∷ es) h d =
    if_ind HaveDistinctKeys (not_later e f) (λ _. (h, d))
      (λ _. (
        insert_sorted-All not_later (λ g. (seen_key f == seen_key g) ≡ false) e es
            (ground (
              arith,
              h.0,
              text_equality.equals_iff (seen_key e) (seen_key f),
              text_equality.equals_iff (seen_key f) (seen_key e),
            ))
            d.0,
        insert_sorted-distinct e es h.1 d.1,
      ))

sort_by-distinct : (es : List Event) → HaveDistinctKeys es → HaveDistinctKeys (sort_by not_later es)
unfolding sort_by
sort_by-distinct [] d = tt
sort_by-distinct (e ∷ es) d =
    insert_sorted-distinct e (sort_by not_later es) (sort_by-All not_later _ es d.0)
      (sort_by-distinct es d.1)

-- The rules see no record twice: the id and the hash of no two events agree.
pub prepare-HaveDistinctKeys : (es : List Event) → HaveDistinctKeys (prepare es).0
unfolding prepare
prepare-HaveDistinctKeys es =
    sort_by-distinct _
      (sift_eligible-distinct (deduplicate [] es).kept (deduplicate-distinct [] es).1)
