-- ===== src/Detection/Merged.antt =====
-- Merging overlapping incidents goes through, and loses no event and no signal.
use agentic_soc_triage_assis.Detection.Scoring.{
  Numerals, IncidentSeverityFacts, Metric, update_metrics, count_metric, as_metrics,
}
use agentic_soc_triage_assis.Prelude.{
  Option, String, [], none, some, true, refl, ◌≡◌, ◌∷◌, ◌++◌, ◌||◌, ◌∙◌, Dict, is_some, arith, List,
  Bool, All, ℕ, contains, get_entry, text_equality, All-append, ap, ◌&&◌, if_ind,
}
use agentic_soc_triage_assis.Detection.Merging.{
  look_up_all, merge_incident_pair, merged_incident, int_or_zero, merge_count_key, update_facts,
  merge_counts, Split, prefer_first, find_keeper, facts_if,
}
use agentic_soc_triage_assis.Detection.Bundles.{
  sorted_union, IncidentBundle, contains-sorted_union, overlapping_incidents_are_mergeable,
  keeper_not_after, sorted_set-All,
}
use agentic_soc_triage_assis.Detection.Model.{Signal, TextMethods, Event}
use agentic_soc_triage_assis.Detection.Severities.{get_entry-update_metrics}

-- What the merge needs of an incident: its signals are known, and its merge count is a number.
pub record IsMergeable (numerals : Numerals) (signal_lookup : Dict String Signal)
    (incident : IncidentBundle) : Type 0 where
  pub known : All (λ id. is_some (get_entry id signal_lookup) ≡ true) incident.signal_ids
  pub countable : is_some (int_or_zero numerals (get_entry merge_count_key incident.metrics)) ≡ true

pub some_of {ℓ} : {A : Type ℓ} (o : Option A) → is_some o ≡ true → (a : A) × (o ≡ some a)
some_of none h = absurd (ground arith)
some_of (some a) h = (a, refl)

look_up_all-known :
    (signal_lookup : Dict String Signal) (ids : List String)
    → All (λ id. is_some (get_entry id signal_lookup) ≡ true) ids
    → is_some (look_up_all signal_lookup ids) ≡ true
unfolding look_up_all
look_up_all-known signal_lookup [] h = refl
look_up_all-known signal_lookup (id ∷ ids) h =
    let first = some_of (get_entry id signal_lookup) h.0 in
    let rest = some_of (look_up_all signal_lookup ids) (look_up_all-known signal_lookup ids h.1) in
    rw (first.1, rest.1) refl

sorted_union-All {κ} :
    (P : String → Type κ) (xs ys : List String) → All P xs → All P ys → All P (sorted_union xs ys)
unfolding sorted_union
sorted_union-All P xs ys h k = sorted_set-All P (xs ++ ys) (All-append P xs ys h k)

update_facts-merge_count :
    (facts : Option IncidentSeverityFacts) (metrics : Dict String Metric)
    (total targets correlated absorbed merges : ℕ)
    → get_entry merge_count_key (
        update_facts facts
          (update_metrics metrics (merge_counts total targets correlated absorbed merges)))
      ≡ some (count_metric merges)
update_facts-merge_count none metrics total targets correlated absorbed merges =
    get_entry-update_metrics merge_count_key _ metrics
update_facts-merge_count (some facts) metrics total targets correlated absorbed merges =
    get_entry-update_metrics merge_count_key (as_metrics facts) _
    ∙ get_entry-update_metrics merge_count_key _ metrics

abbrev pub has_event : String → IncidentBundle → Bool
has_event id incident = contains id incident.event_ids

abbrev pub has_signal : String → IncidentBundle → Bool
has_signal id incident = contains id incident.signal_ids

-- One incident for two.
pub record IsJoin (numerals : Numerals) (signal_lookup : Dict String Signal)
    (keeper absorbed : IncidentBundle) (outcome : Option IncidentBundle) : Type 0 where
  pub joined : IncidentBundle
  pub ends : outcome ≡ some joined
  pub mergeable : IsMergeable numerals signal_lookup joined
  pub events : (id : String) → has_event id joined ≡ (has_event id keeper || has_event id absorbed)
  pub signals :
      (id : String) → has_signal id joined ≡ (has_signal id keeper || has_signal id absorbed)

pub merge_incident_pair-IsJoin :
    (text : TextMethods) (numerals : Numerals) (max_context_events : ℕ)
    (keeper absorbed : IncidentBundle) (signal_lookup : Dict String Signal)
    (event_lookup : Option (Dict String Event))
    → IsMergeable numerals signal_lookup keeper
    → IsMergeable numerals signal_lookup absorbed
    → IsJoin numerals signal_lookup keeper absorbed (
        merge_incident_pair text numerals max_context_events keeper absorbed signal_lookup
          event_lookup)
unfolding merge_incident_pair merged_incident int_or_zero
merge_incident_pair-IsJoin text numerals max_context_events keeper absorbed signal_lookup
      event_lookup h k =
    let known = sorted_union-All _ keeper.signal_ids absorbed.signal_ids h.known k.known in
    let signals =
      some_of (look_up_all signal_lookup (sorted_union keeper.signal_ids absorbed.signal_ids))
        (look_up_all-known signal_lookup _ known) in
    let keeper_merges =
      some_of (int_or_zero numerals (get_entry merge_count_key keeper.metrics)) h.countable in
    let absorbed_merges =
      some_of (int_or_zero numerals (get_entry merge_count_key absorbed.metrics)) k.countable in
    record {
      joined =
          merged_incident text numerals max_context_events keeper absorbed signals.0 keeper_merges.0
            absorbed_merges.0 event_lookup;
      ends = rw (signals.1, keeper_merges.1, absorbed_merges.1) refl;
      mergeable = record {
        known = known;
        countable = ap is_some (
            ap (int_or_zero numerals) (
              update_facts-merge_count (facts_if text event_lookup _ keeper.incident_family)
                keeper.metrics _ _ _ _ _));
      };
      events = λ id. contains-sorted_union id keeper.event_ids absorbed.event_ids;
      signals = λ id. contains-sorted_union id keeper.signal_ids absorbed.signal_ids;
    }

-- Where it finds a keeper, the list is what stands before it, the keeper and what stands after it.
abbrev pub IsSplitOf : List IncidentBundle → Option Split → Type 0
IsSplitOf merged none = Unit
IsSplitOf merged (some (before, keeper, after)) = merged ≡ before ++ (keeper ∷ after)

prefer_first-IsSplitOf :
    (is_eligible : Bool) (incident : IncidentBundle) (merged : List IncidentBundle)
    (found : Option Split)
    → IsSplitOf merged found
    → IsSplitOf (incident ∷ merged) (prefer_first is_eligible incident merged found)
unfolding prefer_first
prefer_first-IsSplitOf is_eligible incident merged none h =
    if_ind (IsSplitOf (incident ∷ merged)) is_eligible (λ _. refl) (λ _. tt)
prefer_first-IsSplitOf is_eligible incident merged (some (before, keeper, after)) h =
    if_ind (IsSplitOf (incident ∷ merged)) (is_eligible && keeper_not_after incident keeper)
      (λ _. refl) (λ _. ap (λ l. incident ∷ l) h)

pub find_keeper-IsSplitOf :
    (candidate : IncidentBundle) (merged : List IncidentBundle)
    → IsSplitOf merged (find_keeper candidate merged)
unfolding find_keeper
find_keeper-IsSplitOf candidate [] = tt
find_keeper-IsSplitOf candidate (incident ∷ merged) =
    prefer_first-IsSplitOf (overlapping_incidents_are_mergeable incident candidate) incident merged
      (find_keeper candidate merged) (find_keeper-IsSplitOf candidate merged)
