-- ===== src/Detection/Incidents.antt =====
-- From the signals to the incidents (agent/detection/incident_correlation.py): clustering, building and
-- merging together.
use agentic_soc_triage_assis.Detection.Model.{TextMethods, Signal, Event}
use agentic_soc_triage_assis.Detection.Merging.{index_signals}
use agentic_soc_triage_assis.Prelude.{
  [], some, true, inl, inr, refl, ◌≡◌, ◌∷◌, ◌+◌, ◌&&◌, ◌==◌, ◌∙◌, String, List, Dict, is_some, all,
  get_entry, Bool, Option, put_entry, text_equality, arith, Bool-cases, All,
  get_entry-put_entry_other, length, and_split, any, sym, all-append, length-append, any-append,
  subst, get_entry-put_entry, ℕ, eq_of_beq, is_distinct, sort_by, all-Perm, length-Perm, any-Perm,
}
use agentic_soc_triage_assis.Detection.Titles.{TitleMethods}
use agentic_soc_triage_assis.Detection.Scoring.{Numerals}
use agentic_soc_triage_assis.Detection.Building.{
  BuildMethods, BuildSettings, build_each, merge_count_of, build_correlated_incidents, with_ids,
  context_not_after,
}
use agentic_soc_triage_assis.Detection.Covering.{
  is_proper_signal, NamesIncidents, cites_event, build_correlated_incident-IsBuilt, has_id,
}
use agentic_soc_triage_assis.Detection.Bundles.{IncidentBundle}
use agentic_soc_triage_assis.Detection.Merged.{IsMergeable, has_event, has_signal}
use agentic_soc_triage_assis.Detection.Partition.{
  IsAnchored, all_members, cluster_signals-partition,
}
use agentic_soc_triage_assis.Detection.Groups.{ids_of}
use agentic_soc_triage_assis.Detection.Rating.{index_events}
use agentic_soc_triage_assis.Detection.MergeRuns.{merge_overlapping_incidents-IsMergeOf}

module _ (text : TextMethods) (titles : TitleMethods) (numerals : Numerals) (build : BuildMethods)
    (settings : BuildSettings) (event_lookup : Dict String Event)
    (sorted_context_events : List Event) (index : Dict String Signal) where
  -- Proper times and confidence, and known by its id.
  abbrev is_ready : Signal → Bool
  is_ready s = is_proper_signal s && is_some (get_entry s.signal_id index)

  -- The incidents of clusters.
  record AreBuilt (clusters : List (List Signal)) (outcome : Option (List IncidentBundle))
      : Type 0 where
    incidents : List IncidentBundle
    ends : outcome ≡ some incidents
    mergeable : All (IsMergeable numerals index) incidents
    counted : length incidents + merge_count_of clusters ≡ length (all_members clusters)
    events :
        (id : String) → any (has_event id) incidents ≡ any (cites_event id) (all_members clusters)
    signals : (id : String) → any (has_signal id) incidents ≡ any (has_id id) (all_members clusters)

  ready-parts :
      (signals : List Signal)
      → all is_ready signals ≡ true
      → (all is_proper_signal signals ≡ true)
        × (all (λ (s : Signal). is_some (get_entry s.signal_id index)) signals ≡ true)
  ready-parts [] h = (refl, refl)
  ready-parts (s ∷ signals) h =
      let rest = ready-parts signals (ground arith) in
      (ground (arith, rest.0), ground (arith, rest.1))

  build_each-AreBuilt :
      (clusters : List (List Signal))
      → NamesIncidents build
      → All
          (IsAnchored settings.incident_merge_window_seconds settings.event_overlap_threshold)
          clusters
      → all is_ready (all_members clusters) ≡ true
      → AreBuilt clusters (
          build_each text titles numerals build settings event_lookup sorted_context_events
            clusters)
  unfolding build_each
  build_each-AreBuilt [] named anchored ready = record {
    incidents = [];
    ends = refl;
    mergeable = tt;
    counted = refl;
    events = λ id. refl;
    signals = λ id. refl;
  }
  build_each-AreBuilt ([] ∷ clusters) named anchored ready = absurd anchored.0
  build_each-AreBuilt ((anchor ∷ others) ∷ clusters) named anchored ready =
      let cluster = anchor ∷ others in
      let split =
        and_split _ _ (sym (all-append is_ready cluster (all_members clusters)) ∙ ready) in
      let parts = ready-parts cluster split.0 in
      let first =
        build_correlated_incident-IsBuilt text titles numerals build settings event_lookup
          sorted_context_events index anchor others named parts.0 parts.1 in
      let rest = build_each-AreBuilt clusters named anchored.1 split.1 in
      record {
        incidents = first.incident ∷ rest.incidents;
        ends = rw (first.ends, rest.ends) refl;
        mergeable = (first.mergeable, rest.mergeable);
        counted = omega (arith, rest.counted, length-append others (all_members clusters));
        events = λ id. ground (
          arith,
          first.events id,
          rest.events id,
          any-append (cites_event id) cluster (all_members clusters),
        );
        signals = λ id. ground (
          arith,
          first.signals id,
          rest.signals id,
          any-append (has_id id) cluster (all_members clusters),
        );
      }

index_signals-known :
    (id : String) (signals : List Signal) (index : Dict String Signal)
    → is_some (get_entry id index) ≡ true
    → is_some (get_entry id (index_signals signals index)) ≡ true
unfolding index_signals
index_signals-known id [] index h = h
index_signals-known id (s ∷ signals) index h =
    index_signals-known id signals (put_entry s.signal_id s index)
      (elim (Bool-cases (s.signal_id == id)) [
        | inl same ↦
            subst (λ k. is_some (get_entry k (put_entry s.signal_id s index)) ≡ true)
              (eq_of_beq s.signal_id id same) (rw (get_entry-put_entry s.signal_id s index) refl)
        | inr other ↦ rw (get_entry-put_entry_other s.signal_id id s index other) h
      ])

index_signals-own :
    (signals : List Signal) (index : Dict String Signal)
    → all (λ (s : Signal). is_some (get_entry s.signal_id (index_signals signals index))) signals
      ≡ true
unfolding index_signals
index_signals-own [] index = refl
index_signals-own (s ∷ signals) index =
    rw
      (index_signals-known s.signal_id signals (put_entry s.signal_id s index)
        (rw (get_entry-put_entry s.signal_id s index) refl))
      (index_signals-own signals (put_entry s.signal_id s index))

all-and :
    {A : Type 0} (p q : A → Bool) (xs : List A)
    → all p xs ≡ true
    → all q xs ≡ true
    → all (λ x. p x && q x) xs ≡ true
all-and p q [] h k = refl
all-and p q (x ∷ xs) h k =
    let first = and_split (p x) (all p xs) h in
    let other = and_split (q x) (all q xs) k in
    rw (first.0, other.0) (all-and p q xs first.1 other.1)

-- The incidents account for the signals.
pub record IsCovering (signals : List Signal) (outcome : Option (List IncidentBundle × ℕ))
    : Type 0 where
  pub incidents : List IncidentBundle
  pub merge_count : ℕ
  pub ends : outcome ≡ some (incidents, merge_count)
  pub counted : length incidents + merge_count ≡ length signals
  pub same_events : (id : String) → any (has_event id) incidents ≡ any (cites_event id) signals
  pub same_signals : (id : String) → any (has_signal id) incidents ≡ any (has_id id) signals

-- Whatever the text methods and digests give, where no incident id is empty: for signals with distinct
-- ids whose times are in order and whose confidences are at most one, building the incidents goes
-- through; the incidents and the merges counted add up to the signals, and an event or a signal is in
-- one of the incidents exactly if it is cited by one of the signals, or is one of them.
pub build_correlated_incidents-IsCovering :
    (text : TextMethods) (titles : TitleMethods) (numerals : Numerals) (build : BuildMethods)
    (settings : BuildSettings) (signals : List Signal)
    (context_events candidate_events : List Event)
    → NamesIncidents build
    → is_distinct (ids_of signals) ≡ true
    → all is_proper_signal signals ≡ true
    → IsCovering signals (
        build_correlated_incidents text titles numerals build settings signals context_events
          candidate_events)
unfolding build_correlated_incidents
build_correlated_incidents-IsCovering text titles numerals build settings [] context_events
      candidate_events named distinct_ids proper =
    record {
      incidents = [];
      merge_count = 0;
      ends = refl;
      counted = refl;
      same_events = λ id. refl;
      same_signals = λ id. refl;
    }
build_correlated_incidents-IsCovering text titles numerals build settings (s ∷ rest) context_events
      candidate_events named distinct_ids proper =
    let signals = s ∷ rest in
    let index = index_signals signals [] in
    let lookup = index_events (with_ids candidate_events) [] in
    let sorted_context = sort_by (context_not_after build) (with_ids context_events) in
    let (clusters, found, complete, anchored) =
      cluster_signals-partition settings.incident_merge_window_seconds
        settings.event_overlap_threshold signals distinct_ids in
    let ready =
      all-and is_proper_signal (λ (x : Signal). is_some (get_entry x.signal_id index)) signals
        proper (index_signals-own signals []) in
    let built =
      build_each-AreBuilt text titles numerals build settings lookup sorted_context index clusters
        named anchored (all-Perm _ (all_members clusters) signals complete ∙ ready) in
    let run =
      merge_overlapping_incidents-IsMergeOf text numerals settings.max_context_events
        built.incidents signals (some lookup) built.mergeable in
    record {
      incidents = run.merged;
      merge_count = merge_count_of clusters + run.absorbed_count;
      ends = rw (found, built.ends, run.ends) refl;
      counted =
          omega (
            arith,
            run.counted,
            built.counted,
            length-Perm (all_members clusters) signals complete,
          );
      same_events = λ id.
          run.same_events id
          ∙ built.events id
          ∙ any-Perm (cites_event id) (all_members clusters) signals complete;
      same_signals = λ id.
          run.same_signals id
          ∙ built.signals id
          ∙ any-Perm (has_id id) (all_members clusters) signals complete;
    }
