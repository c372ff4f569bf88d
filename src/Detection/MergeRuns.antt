-- ===== src/Detection/MergeRuns.antt =====
-- The loop of `merge_overlapping_incidents` (agent/detection/incident_correlation.py), candidate by
-- candidate.
use agentic_soc_triage_assis.Prelude.{
  List, Bool, [], none, some, refl, ◌≡◌, ◌∷◌, ◌++◌, ◌+◌, ◌||◌, ◌∙◌, any, length, All, Option, arith,
  ℕ, String, any-append, length-append, Dict, sort_by, All-append, subst, sort_by-All,
  length-sort_by, any-sort_by,
}
use agentic_soc_triage_assis.Detection.Model.{TextMethods, Signal, Event}
use agentic_soc_triage_assis.Detection.Merging.{
  merge_overlapping_incidents, absorb_candidate, merge_each, Split, find_keeper, index_signals,
  not_after_in_time,
}
use agentic_soc_triage_assis.Detection.Bundles.{IncidentBundle, keeper_not_after}
use agentic_soc_triage_assis.Detection.Scoring.{Numerals}
use agentic_soc_triage_assis.Detection.Merged.{
  has_event, has_signal, IsMergeable, IsSplitOf, find_keeper-IsSplitOf, merge_incident_pair-IsJoin,
}

-- What a run keeps: the incidents that were there and those given account for all that come out.
pub record IsMergeOf (incidents : List IncidentBundle) (outcome : Option (List IncidentBundle × ℕ))
    : Type 0 where
  pub merged : List IncidentBundle
  pub absorbed_count : ℕ
  pub ends : outcome ≡ some (merged, absorbed_count)
  pub counted : length merged + absorbed_count ≡ length incidents
  pub same_events : (id : String) → any (has_event id) merged ≡ any (has_event id) incidents
  pub same_signals : (id : String) → any (has_signal id) merged ≡ any (has_signal id) incidents

any-join :
    {A : Type 0} (p : A → Bool) (before after : List A) (keeper candidate joined : A)
    → p joined ≡ (p keeper || p candidate)
    → any p (before ++ (joined ∷ after)) ≡ (any p (before ++ (keeper ∷ after)) || p candidate)
any-join p before after keeper candidate joined h =
    ground (arith, h, any-append p before (joined ∷ after), any-append p before (keeper ∷ after))

any-snoc :
    {A : Type 0} (p : A → Bool) (xs : List A) (x : A) → any p (xs ++ (x ∷ [])) ≡ (any p xs || p x)
any-snoc p xs x = ground (arith, any-append p xs (x ∷ []))

length-around :
    {A : Type 0} (before after : List A) (x : A)
    → length (before ++ (x ∷ after)) ≡ length before + length after + 1
length-around before after x = omega (arith, length-append before (x ∷ after))

All-split {κ} :
    {A : Type 0} (P : A → Type κ) (before after : List A) (x : A)
    → All P (before ++ (x ∷ after))
    → All P before × P x × All P after
All-split P [] after x h = (tt, h.0, h.1)
All-split P (y ∷ before) after x h =
    let rest = All-split P before after x h.1 in ((h.0, rest.0), rest.1, rest.2)

module _ (text : TextMethods) (numerals : Numerals) (max_context_events : ℕ)
    (signal_lookup : Dict String Signal) (event_lookup : Option (Dict String Event)) where
  abbrev Mergeable : IncidentBundle → Type 0
  Mergeable incident = IsMergeable numerals signal_lookup incident

  -- The list and the count after one candidate.
  record IsStep (candidate : IncidentBundle) (merged : List IncidentBundle) (absorbed_count : ℕ)
      (outcome : Option (List IncidentBundle × ℕ)) : Type 0 where
    next : List IncidentBundle
    next_count : ℕ
    ends : outcome ≡ some (next, next_count)
    mergeable : All Mergeable next
    counted : length next + next_count ≡ length merged + absorbed_count + 1
    events :
        (id : String)
        → any (has_event id) next ≡ (any (has_event id) merged || has_event id candidate)
    signals :
        (id : String)
        → any (has_signal id) next ≡ (any (has_signal id) merged || has_signal id candidate)

  absorb_candidate-IsStep :
      (candidate : IncidentBundle) (merged : List IncidentBundle) (absorbed_count : ℕ)
      (found : Option Split)
      → IsSplitOf merged found
      → Mergeable candidate
      → All Mergeable merged
      → IsStep candidate merged absorbed_count (
          absorb_candidate text numerals max_context_events signal_lookup event_lookup candidate
            (merged, absorbed_count)
            found)
  unfolding absorb_candidate
  absorb_candidate-IsStep candidate merged absorbed_count none split c h = record {
    next = merged ++ (candidate ∷ []);
    next_count = absorbed_count;
    ends = refl;
    mergeable = All-append Mergeable merged (candidate ∷ []) h (c, tt);
    counted = omega (arith, length-append merged (candidate ∷ []));
    events = λ id. any-snoc (has_event id) merged candidate;
    signals = λ id. any-snoc (has_signal id) merged candidate;
  }
  absorb_candidate-IsStep candidate merged absorbed_count (some (before, keeper, after)) split c h =
      let parts = All-split Mergeable before after keeper (subst (All Mergeable) split h) in
      let join =
        merge_incident_pair-IsJoin text numerals max_context_events keeper candidate signal_lookup
          event_lookup parts.1 c in
      record {
        next = before ++ (join.joined ∷ after);
        next_count = absorbed_count + 1;
        ends = rw join.ends refl;
        mergeable =
            All-append Mergeable before (join.joined ∷ after) parts.0 (join.mergeable, parts.2);
        counted = rw split (
            omega
              (arith, length-around before after keeper, length-around before after join.joined));
        events = λ id.
            rw split
              (any-join (has_event id) before after keeper candidate join.joined (join.events id));
        signals = λ id.
            rw split (
              any-join (has_signal id) before after keeper candidate join.joined (join.signals id));
      }

  -- The candidates that are left, after a list and a count.
  record IsEnd (candidates merged : List IncidentBundle) (absorbed_count : ℕ)
      (outcome : Option (List IncidentBundle × ℕ)) : Type 0 where
    last : List IncidentBundle
    last_count : ℕ
    ends : outcome ≡ some (last, last_count)
    counted : length last + last_count ≡ length merged + absorbed_count + length candidates
    events :
        (id : String)
        → any (has_event id) last ≡ (any (has_event id) merged || any (has_event id) candidates)
    signals :
        (id : String)
        → any (has_signal id) last ≡ (any (has_signal id) merged || any (has_signal id) candidates)

  merge_each-IsEnd :
      (candidates merged : List IncidentBundle) (absorbed_count : ℕ)
      → All Mergeable candidates
      → All Mergeable merged
      → IsEnd candidates merged absorbed_count (
          merge_each text numerals max_context_events signal_lookup event_lookup candidates
            (merged, absorbed_count))
  unfolding merge_each
  merge_each-IsEnd [] merged absorbed_count c h = record {
    last = merged;
    last_count = absorbed_count;
    ends = refl;
    counted = omega arith;
    events = λ id. ground arith;
    signals = λ id. ground arith;
  }
  merge_each-IsEnd (candidate ∷ candidates) merged absorbed_count c h =
      let step =
        absorb_candidate-IsStep candidate merged absorbed_count (find_keeper candidate merged)
          (find_keeper-IsSplitOf candidate merged) c.0 h in
      let rest = merge_each-IsEnd candidates step.next step.next_count c.1 step.mergeable in
      record {
        last = rest.last;
        last_count = rest.last_count;
        ends = rw step.ends rest.ends;
        counted = omega (arith, step.counted, rest.counted);
        events = λ id. ground (arith, step.events id, rest.events id);
        signals = λ id. ground (arith, step.signals id, rest.signals id);
      }

-- Whatever Python's text methods give and with or without the events: where every incident's signals
-- are among the given ones and its merge count is a number, the merge of overlapping incidents goes
-- through; the incidents that come out and the number of those absorbed add up to the incidents given,
-- and an event or a signal is in one of the incidents that come out exactly if it was in one of those given.
pub merge_overlapping_incidents-IsMergeOf :
    (text : TextMethods) (numerals : Numerals) (max_context_events : ℕ)
    (incidents : List IncidentBundle) (signals : List Signal)
    (event_lookup : Option (Dict String Event))
    → All (IsMergeable numerals (index_signals signals [])) incidents
    → IsMergeOf incidents (
        merge_overlapping_incidents text numerals max_context_events incidents signals event_lookup)
unfolding merge_overlapping_incidents
merge_overlapping_incidents-IsMergeOf text numerals max_context_events incidents signals
      event_lookup h =
    let sorted = sort_by keeper_not_after incidents in
    let run =
      merge_each-IsEnd text numerals max_context_events (index_signals signals []) event_lookup
        sorted [] 0 (sort_by-All keeper_not_after _ incidents h) tt in
    record {
      merged = sort_by not_after_in_time run.last;
      absorbed_count = run.last_count;
      ends = rw run.ends refl;
      counted = omega (
        arith,
        run.counted,
        length-sort_by not_after_in_time run.last,
        length-sort_by keeper_not_after incidents,
      );
      same_events = λ id.
          any-sort_by (has_event id) not_after_in_time run.last
          ∙ run.events id
          ∙ any-sort_by (has_event id) keeper_not_after incidents;
      same_signals = λ id.
          any-sort_by (has_signal id) not_after_in_time run.last
          ∙ run.signals id
          ∙ any-sort_by (has_signal id) keeper_not_after incidents;
    }
